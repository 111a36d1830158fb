-- ===== src/Config/ParseEnds.antt =====
-- The loop of `parse_option` in src/config.c ends, if parsing an included file does.
use itmmorgue.Base.{
  ℕ, ◌+◌, ◌*◌, ◌<◌, ◌≤◌, ◌≡◌, ◌≢◌, refl, ap, ◌∙◌, Option, none, some, Result, ok, stop, out_of_fuel,
  undefined, ◌>>=◌, arith, Bytes, List, [], ◌∷◌, ltb, or_undefined, Bool, true, false,
  if◌then◌else◌, c_string, length, set, ◌==◌,
}
use itmmorgue.Config.{on, return, read, write, finish, cp_undef}
use itmmorgue.Config.Parse.{
  ConfType, State, c_waitkey, c_read_inc, c_waitkeycomment, c_inkey, c_esckey, c_waiteq,
  c_valcomment, c_inval, c_escval, Parser, name_in, keep_key, keep_value, keep_include, no_option,
  end_value, at_comment, at_line_end, end_include, end_key, at_key, on_char, switch, parse_option,
}
use itmmorgue.Config.Ends.{
  Advances, Fueled, Advances-bind, Advances-bind_eq, Fueled-bind, read-Fueled, write-Fueled,
  finish-Fueled, parse-Fueled, Fueled-stop,
}

-- Three times the offset, and how far a state moved on without it.
abbrev rank : State → ℕ
rank c_inkey = 1
rank c_waiteq = 2
rank c_inval = 1
rank _ = 0

or_undefined-Fueled : {A : Type 0} (o : Option A) → Fueled (or_undefined o)
or_undefined-Fueled none = tt
or_undefined-Fueled (some a) = tt

name_in-Fueled : (cs : List (Option ℕ)) → Fueled (name_in cs)
unfolding name_in
name_in-Fueled [] = tt
name_in-Fueled (none ∷ cs) = tt
name_in-Fueled (some c ∷ cs) = cut (c == 0) (name_in-Fueled cs)
  where
    cut :
        (b : Bool)
        → Fueled (name_in cs)
        → Fueled {A = Bytes} (if b then ok [] else do name ← name_in cs; ok (c ∷ name))
    cut true h = tt
    cut false h = Fueled-bind (name_in cs) _ h (λ name. tt)

module _ {T : Type 0} where
  abbrev measure : Parser T → ℕ
  measure s = 3 * s.off + rank s.state

  keep_key-Advances :
      (c n : ℕ) (s : Parser T) → n ≤ 3 * s.off + 2 → Advances measure n (keep_key c s)
  unfolding keep_key
  keep_key-Advances c n s h =
      Advances-bind measure n (write s.key s.pos c) _ (write-Fueled s.key s.pos c)
        (λ k. omega arith)

  keep_value-Advances :
      (c n : ℕ) (s : Parser T) → n ≤ 3 * s.off + 2 → Advances measure n (keep_value c s)
  unfolding keep_value
  keep_value-Advances c n s h =
      Advances-bind measure n (write s.value s.pos c) _ (write-Fueled s.value s.pos c)
        (λ k. omega arith)

  no_option-Advances : (off n : ℕ) (s : Parser T) → Advances measure n (no_option off s)
  unfolding no_option
  no_option-Advances off n s =
      Advances-bind measure n (write s.key 0 0) _ (write-Fueled s.key 0 0) (λ k. tt)

  end_value-Fueled : (s : Parser T) → Fueled (end_value s)
  unfolding end_value
  end_value-Fueled s =
      Fueled-bind (read s.value 0) _ (read-Fueled s.value 0) (λ first. cut (first == 0))
    where
      cut :
          (b : Bool)
          → Fueled {A = Option (Parser T)} (
              if b then ok none else do
                r ← finish s.value s.pos
                ok (some (record s { value = r.0; pos = r.1; off = s.off + 1 })))
      cut true = tt
      cut false = Fueled-bind (finish s.value s.pos) _ (finish-Fueled s.value s.pos) (λ r. tt)

  at_line_end-Advances : (n : ℕ) (s : Parser T) → Advances measure n (at_line_end s)
  unfolding at_line_end
  at_line_end-Advances n s =
      Advances-bind measure n (end_value s) _ (end_value-Fueled s) (λ r. ground arith)

  end_value-off : (s s' : Parser T) → end_value s ≡ ok (some s') → s'.off ≡ s.off + 1
  unfolding end_value
  end_value-off s s' e = ground arith

  at_comment-Advances :
      (n : ℕ) (s : Parser T) → n ≤ 3 * s.off + 2 → Advances measure n (at_comment s)
  unfolding at_comment
  at_comment-Advances n s h =
      Advances-bind_eq measure n (end_value s) _ (end_value-Fueled s)
        (λ r e. cut r (λ s' eq. end_value-off s s' (e ∙ ap ok eq)))
    where
      cut :
          (r : Option (Parser T))
          → ((s' : Parser T) → r ≡ some s' → s'.off ≡ s.off + 1)
          → Advances measure n (elim r [
            | none ↦ ok (return cp_undef none s)
            | some s' ↦ ok (on (record s' { state = c_valcomment }))
          ])
      cut none f = tt
      cut (some s') f = omega (arith, f s' refl)

  module _ (parse_file : Bytes → T → Result T) (type_of : T → Bytes → Option ConfType) where
    end_key-Advances :
        (n : ℕ) (s : Parser T)
        → n < 3 * s.off + 2
        → Advances measure n (end_key parse_file type_of s)
    unfolding end_key
    end_key-Advances n s h =
        Advances-bind measure n (write s.key s.pos 0) _ (write-Fueled s.key s.pos 0) (λ k.
          Advances-bind measure n (or_undefined (c_string k)) _ (or_undefined-Fueled (c_string k))
            (λ name. ground arith))

    at_key-Advances :
        (buf : Bytes) (c : ℕ) (s : Parser T)
        → Advances measure (3 * s.off + 0) (at_key parse_file type_of buf c s)
    unfolding at_key
    at_key-Advances buf c s =
        Advances-bind measure (3 * s.off + 0) (if c == b'.' then read buf (s.off + 1) else ok 0) _
          (look (c == b'.')) (λ next. ground arith)
      where
        look : (b : Bool) → Fueled (if b then read buf (s.off + 1) else ok 0)
        look true = read-Fueled buf (s.off + 1)
        look false = tt

    module _ (files : (name : Bytes) (conf : T) → Fueled (parse_file name conf)) where
      end_include-Advances :
          (n : ℕ) (s : Parser T) → Advances measure n (end_include parse_file type_of s)
      unfolding end_include
      end_include-Advances n s =
          let include = set s.include s.pos (some 0) in
          Advances-bind measure n
            (if ltb s.pos (length s.include) then name_in include else stop undefined) _
            (cut (ltb s.pos (length s.include)) _ (name_in-Fueled include))
            (λ name.
              Advances-bind measure n (parse_file name s.conf) _ (files name s.conf)
                (λ conf. no_option-Advances s.off n (record s { include = include; conf = conf })))
        where
          cut : (b : Bool) (r : Result Bytes) → Fueled r → Fueled (if b then r else stop undefined)
          cut true r h = h
          cut false r h = tt

      on_char-Advances :
          (buf : Bytes) (st : State) (c : ℕ) (s : Parser T)
          → Advances measure (3 * s.off + rank st) (on_char parse_file type_of buf st c s)
      unfolding on_char keep_include
      on_char-Advances buf c_waitkey c s = at_key-Advances buf c s
      on_char-Advances buf c_read_inc c s =
          let i = end_include-Advances (3 * s.off) s in ground (arith, i)
      on_char-Advances buf c_waitkeycomment c s =
          let e = no_option-Advances (s.off + 1) (3 * s.off) s in ground (arith, e)
      on_char-Advances buf c_inkey c s =
          let k = keep_key-Advances c (3 * s.off + 1) s (omega arith) in
          let e = end_key-Advances (3 * s.off + 1) s (omega arith) in ground (arith, k, e)
      on_char-Advances buf c_esckey c s = keep_key-Advances c _ s (omega arith)
      on_char-Advances buf c_inval c s =
          let k = keep_value-Advances c (3 * s.off + 1) s (omega arith) in
          let l = at_line_end-Advances (3 * s.off + 1) s in
          let e = at_comment-Advances (3 * s.off + 1) s (omega arith) in ground (arith, k, l, e)
      on_char-Advances buf c_escval c s = keep_value-Advances c _ s (omega arith)
      on_char-Advances buf st c s = ground arith

      pub parse_option-Fueled :
          (buf : Bytes) (len : ℕ) (key value : Bytes) (type : Option ConfType) (conf : T)
          → Fueled (parse_option parse_file type_of buf len key value type conf)
      unfolding parse_option switch
      parse_option-Fueled buf len key value type conf =
          parse-Fueled _ _ measure _ len (3 * len) (λ s lt. inside s.state lt)
            (λ s.
              Advances-bind measure _ (read buf s.off) _ (read-Fueled buf s.off)
                (λ c. on_char-Advances buf s.state c s))
            (3 * len + 1) _ (omega arith) (omega arith)
        where
          inside : (st : State) {off : ℕ} → off < len → 3 * off + rank st < 3 * len
          inside st lt = ground arith

      -- `parse_option` never runs out of fuel, whatever the text and the buffers hold, if the parsing of
      -- an included file does not.
      pub parse_option_ends :
          (buf : Bytes) (len : ℕ) (key value : Bytes) (type : Option ConfType) (conf : T)
          → parse_option parse_file type_of buf len key value type conf ≢ stop out_of_fuel
      parse_option_ends buf len key value type conf =
          Fueled-stop _ (parse_option-Fueled buf len key value type conf)

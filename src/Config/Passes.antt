-- ===== src/Config/Passes.antt =====
-- The passes of `locale_parse` in src/locale.c at given characters.
use itmmorgue.Base.{
  ℕ, suc, ◌+◌, ◌<◌, ◌≤◌, ◌≡◌, refl, ◌∙◌, ◌≢◌, true, false, Option, some, [], ◌∷◌, arith, Result, ok,
  Bytes, All, length, length-set, get_elem?, set, ltb, leb,
}
use itmmorgue.Config.{Retval, on, return, parse, read, write}
use itmmorgue.Config.Locale.{State, l_inkey, l_inval, Parser, on_char, switch, keep_key, keep_value}
use itmmorgue.Config.Reads.{Reads, fill}

module _ (buf : Bytes) (len : ℕ) where
  abbrev pub parses : ℕ → Parser → Result (Retval × Option ℕ × Parser)
  parses = parse (λ (s : Parser). s.off) (λ (s : Parser). s.pos) (switch buf) len

  -- One pass, at a character of the text.
  pub pass :
      (fuel : ℕ) (s s' : Parser) (c : ℕ)
      → get_elem? buf s.off ≡ some c
      → s.off < len
      → s.pos < 4095
      → on_char s.state c s ≡ ok (on s')
      → parses (suc fuel) s ≡ parses fuel s'
  unfolding parse switch read
  pass fuel s s' c at inside short e =
      let here : ltb s.off len ≡ true = ground arith in
      let fits : leb 4095 s.pos ≡ false = ground arith in
      rw (here, fits, at, e, parse, switch, read) refl

  pub pass_last :
      (fuel : ℕ) (s s' : Parser) (c : ℕ) (r : Retval) (o : Option ℕ)
      → get_elem? buf s.off ≡ some c
      → s.off < len
      → s.pos < 4095
      → on_char s.state c s ≡ ok (return r o s')
      → parses (suc fuel) s ≡ ok (r, o, s')
  unfolding parse switch read
  pass_last fuel s s' c r o at inside short e =
      let here : ltb s.off len ≡ true = ground arith in
      let fits : leb 4095 s.pos ≡ false = ground arith in
      rw (here, fits, at, e, parse, switch, read) refl

  abbrev pub Plain : Bytes → Type 0
  Plain = All (λ x. (x ≢ 0) × (x ≢ b'\\') × (x ≢ b'}'))

  abbrev pub in_state : State → ℕ → ℕ → Bytes → Bytes → Parser
  in_state st off pos key value = record {
    state = st;
    off = off;
    pos = pos;
    key = key;
    value = value;
  }

  pub same_state :
      (st : State) {fuel fuel' off off' pos pos' : ℕ} (key value : Bytes)
      → fuel ≡ fuel'
      → off ≡ off'
      → pos ≡ pos'
      → parses fuel (in_state st off pos key value) ≡ parses fuel' (in_state st off' pos' key value)
  same_state st key value e f g = cc

  -- The characters of a key, and of a value, are kept one by one.
  pub keys :
      (cs : Bytes) (fuel off pos : ℕ) (key value : Bytes)
      → Plain cs
      → Reads buf off cs
      → off + length cs ≤ len
      → pos + length cs ≤ 4095
      → 4096 ≤ length key
      → parses (length cs + fuel) (in_state l_inkey off pos key value)
        ≡ parses fuel (in_state l_inkey (off + length cs) (pos + length cs) (fill key pos cs) value)
  unfolding on_char keep_key write
  keys [] fuel off pos key value h r inside short room =
      same_state l_inkey key value (omega arith) (omega arith) (omega arith)
  keys (c ∷ cs) fuel off pos key value h r inside short room =
      let kept = in_state l_inkey (off + 1) (pos + 1) (set key pos c) value in
      same_state l_inkey key value (omega arith) refl refl
      ∙ pass (length cs + fuel) (in_state l_inkey off pos key value) kept c r.0 (omega arith)
          (omega arith) (ground (arith, h.0))
      ∙ keys cs fuel (off + 1) (pos + 1) (set key pos c) value h.1 r.1 (omega arith) (omega arith)
          (omega (arith, length-set key pos c))
      ∙ same_state l_inkey (fill (set key pos c) (pos + 1) cs) value refl (omega arith)
          (omega arith)

  pub values :
      (cs : Bytes) (fuel off pos : ℕ) (key value : Bytes)
      → Plain cs
      → Reads buf off cs
      → off + length cs ≤ len
      → pos + length cs ≤ 4095
      → 4096 ≤ length value
      → parses (length cs + fuel) (in_state l_inval off pos key value)
        ≡ parses fuel (in_state l_inval (off + length cs) (pos + length cs) key (fill value pos cs))
  unfolding on_char keep_value write
  values [] fuel off pos key value h r inside short room =
      same_state l_inval key value (omega arith) (omega arith) (omega arith)
  values (c ∷ cs) fuel off pos key value h r inside short room =
      let kept = in_state l_inval (off + 1) (pos + 1) key (set value pos c) in
      same_state l_inval key value (omega arith) refl refl
      ∙ pass (length cs + fuel) (in_state l_inval off pos key value) kept c r.0 (omega arith)
          (omega arith) (ground (arith, h.0))
      ∙ values cs fuel (off + 1) (pos + 1) key (set value pos c) h.1 r.1 (omega arith) (omega arith)
          (omega (arith, length-set value pos c))
      ∙ same_state l_inval key (fill (set value pos c) (pos + 1) cs) refl (omega arith)
          (omega arith)

-- ===== src/Config/Ends.antt =====
-- The loops of the two parsers, in src/locale.c and src/config.c, end: the fuel that `locale_parse` and
-- `parse_option` take is enough.
use itmmorgue.Base.{
  ℕ, zero, suc, ◌+◌, ◌-◌, ◌*◌, ◌<◌, ◌≤◌, ◌≡◌, refl, ◌≢◌, Option, none, some, Result, ok, stop,
  out_of_fuel, undefined, ◌>>=◌, arith, Bytes, ltb, leb, Bool-cases, inl, inr, or_undefined, Bool,
  true, false, is_space, if◌then◌else◌, get_elem?, length, set, panic, exit_success, Stop,
}
use itmmorgue.Config.{
  Retval, Pass, on, return, parse, read, write, finish, trim, max_opt_len, cp_success,
}
use itmmorgue.Config.Locale

-- A pass that does not stop, or stops otherwise than by the fuel; and the measure of a state that goes
-- on is larger.
abbrev pub Ended : Stop → Type 0
Ended out_of_fuel = ⊥
Ended _ = Unit

abbrev pub Advances : {S : Type 0} → (S → ℕ) → ℕ → Result (Pass S) → Type 0
Advances measure n (ok (on s)) = n < measure s
Advances measure n (ok (return r o s)) = Unit
Advances measure n (stop e) = Ended e

abbrev pub Fueled : {A : Type 0} → Result A → Type 0
Fueled (ok a) = Unit
Fueled (stop e) = Ended e

pub Advances-bind :
    {A S : Type 0} (measure : S → ℕ) (n : ℕ) (m : Result A) (f : A → Result (Pass S))
    → Fueled m
    → ((a : A) → Advances measure n (f a))
    → Advances measure n (m >>= f)
Advances-bind measure n (ok a) f h g = g a
Advances-bind measure n (stop e) f h g = h

pub Advances-bind_eq :
    {A S : Type 0} (measure : S → ℕ) (n : ℕ) (m : Result A) (f : A → Result (Pass S))
    → Fueled m
    → ((a : A) → m ≡ ok a → Advances measure n (f a))
    → Advances measure n (m >>= f)
Advances-bind_eq measure n (ok a) f h g = g a refl
Advances-bind_eq measure n (stop e) f h g = h

pub Fueled-bind :
    {A B : Type 0} (m : Result A) (f : A → Result B)
    → Fueled m
    → ((a : A) → Fueled (f a))
    → Fueled (m >>= f)
Fueled-bind (ok a) f h g = g a
Fueled-bind (stop e) f h g = h

pub read-Fueled : (a : Bytes) (i : ℕ) → Fueled (read a i)
unfolding read
read-Fueled a i = go (get_elem? a i)
  where
    go : (o : Option ℕ) → Fueled (or_undefined o)
    go none = tt
    go (some c) = tt

pub write-Fueled : (a : Bytes) (i c : ℕ) → Fueled (write a i c)
unfolding write
write-Fueled a i c =
    elim (ltb i (length a)) as (λ b. Fueled (if b then ok (set a i c) else stop undefined)) [
      | true ↦ tt
      | false ↦ tt
    ]

trim-Fueled : (a : Bytes) (pos : ℕ) → Fueled (trim a pos)
unfolding trim
trim-Fueled a zero = tt
trim-Fueled a (suc pos) =
    let again = trim-Fueled (set a (suc pos) 0) pos in
    Fueled-bind (read a (suc pos)) _ (read-Fueled a (suc pos)) (λ c. cut again (is_space c))
  where
    cut :
        Fueled (trim (set a (suc pos) 0) pos)
        → (b : Bool)
        → Fueled {A = Bytes × ℕ}
            (elim b [ true ↦ trim (set a (suc pos) 0) pos | false ↦ ok (a, suc pos) ])
    cut again true = again
    cut again false = tt

pub finish-Fueled : (a : Bytes) (pos : ℕ) → Fueled (finish a pos)
unfolding finish
finish-Fueled a pos = Fueled-bind (write a pos 0) _ (write-Fueled a pos 0) (λ b. trim-Fueled b _)

module _ {S : Type 0} (off pos measure : S → ℕ) (switch : S → Result (Pass S)) (len bound : ℕ) where
  after : ℕ → Result (Pass S) → Result (Retval × Option ℕ × S)
  after fuel p =
      p >>= λ q. elim q [ on s' ↦ parse off pos switch len fuel s' | return r o s' ↦ ok (r, o, s') ]

  after-Fueled :
      (fuel n : ℕ) (p : Result (Pass S))
      → Advances measure n p
      → ((s : S) → n < measure s → Fueled (parse off pos switch len fuel s))
      → Fueled (after fuel p)
  unfolding after
  after-Fueled fuel n (ok (on s)) a h = h s a
  after-Fueled fuel n (ok (return r o s)) a h = tt
  after-Fueled fuel n (stop e) a h = a

  pub parse-Fueled :
      ((s : S) → off s < len → measure s < bound)
      → ((s : S) → Advances measure (measure s) (switch s))
      → (fuel : ℕ) (s : S) → bound < fuel + measure s
      → 0 < fuel
      → Fueled (parse off pos switch len fuel s)
  unfolding parse after
  parse-Fueled inside adv zero s enough more = absurd (omega arith)
  parse-Fueled inside adv (suc fuel) s enough more = elim (Bool-cases (ltb (off s) len)) [
    | inr past ↦ rw (past, parse) tt
    | inl here ↦ elim (Bool-cases (leb (max_opt_len - 1) (pos s))) [
      | inl long ↦ rw (here, long, parse) tt
      | inr short ↦
          let lt = inside s (ground arith) in
          rw (here, short, parse)
            (after-Fueled fuel (measure s) (switch s) (adv s)
              (λ s' more'. parse-Fueled inside adv fuel s' (omega arith) (omega arith)))
    ]
  ]

-- Twice the offset, and one more where a pass moved on without it.
abbrev locale_rank : Locale.State → ℕ
locale_rank Locale.l_inkey = 1
locale_rank Locale.l_inval = 1
locale_rank _ = 0

abbrev locale_measure : Locale.Parser → ℕ
locale_measure s = 2 * s.off + locale_rank s.state

Advances-if :
    {S : Type 0} (measure : S → ℕ) (n : ℕ) (b : Bool) (p q : Result (Pass S))
    → Advances measure n p
    → Advances measure n q
    → Advances measure n (if b then p else q)
Advances-if measure n true p q h g = h
Advances-if measure n false p q h g = g

keep_key-Advances :
    (c n : ℕ) (s : Locale.Parser)
    → n ≤ 2 * s.off + 1
    → Advances locale_measure n (Locale.keep_key c s)
unfolding Locale.keep_key
keep_key-Advances c n s h =
    Advances-bind locale_measure n (write s.key s.pos c) _ (write-Fueled s.key s.pos c)
      (λ k. omega arith)

keep_value-Advances :
    (c n : ℕ) (s : Locale.Parser)
    → n ≤ 2 * s.off + 1
    → Advances locale_measure n (Locale.keep_value c s)
unfolding Locale.keep_value
keep_value-Advances c n s h =
    Advances-bind locale_measure n (write s.value s.pos c) _ (write-Fueled s.value s.pos c)
      (λ k. omega arith)

on_char-Advances :
    (st : Locale.State) (c : ℕ) (s : Locale.Parser)
    → Advances locale_measure (2 * s.off + locale_rank st) (Locale.on_char st c s)
unfolding Locale.on_char Locale.end_key Locale.end_value
on_char-Advances Locale.l_inkey c s =
    let k = keep_key-Advances c (2 * s.off + 1) s (omega arith) in
    let e =
      Advances-bind locale_measure (2 * s.off + 1) (finish s.key s.pos)
        (λ r. ok (on (record s { state = Locale.l_waitval; key = r.0; pos = 0; off = s.off + 1 })))
        (finish-Fueled s.key s.pos) (λ r. omega arith) in
    ground (arith, k, e)
on_char-Advances Locale.l_esckey c s = keep_key-Advances c _ s (omega arith)
on_char-Advances Locale.l_inval c s =
    let k = keep_value-Advances c (2 * s.off + 1) s (omega arith) in
    let e =
      Advances-bind locale_measure (2 * s.off + 1) (finish s.value s.pos)
        (λ r. ok (
          return cp_success (some (s.off + 1))
            (record s { value = r.0; pos = r.1; off = s.off + 1 })))
        (finish-Fueled s.value s.pos) (λ r. tt) in
    ground (arith, k, e)
on_char-Advances Locale.l_escval c s = keep_value-Advances c _ s (omega arith)
on_char-Advances st c s = ground arith

pub Fueled-stop : {A : Type 0} (r : Result A) → Fueled r → r ≢ stop out_of_fuel
Fueled-stop (ok a) h = λ e. ground arith
Fueled-stop (stop out_of_fuel) h = absurd h
Fueled-stop (stop undefined) h = λ e. ground arith
Fueled-stop (stop exit_success) h = λ e. ground arith
Fueled-stop (stop (panic m)) h = λ e. ground arith

locale_parse-Fueled :
    (buf : Bytes) (len : ℕ) (key value : Bytes) → Fueled (Locale.locale_parse buf len key value)
unfolding Locale.locale_parse Locale.switch
locale_parse-Fueled buf len key value =
    parse-Fueled _ _ locale_measure _ len (2 * len) (λ s lt. inside s.state lt)
      (λ s.
        Advances-bind locale_measure _ (read buf s.off) _ (read-Fueled buf s.off)
          (λ c. on_char-Advances s.state c s))
      (2 * len + 1) _ (omega arith) (omega arith)
  where
    inside : (st : Locale.State) {off : ℕ} → off < len → 2 * off + locale_rank st < 2 * len
    inside st lt = ground arith

-- `locale_parse` never runs out of fuel, whatever the text and the buffers hold.
pub locale_parse_ends :
    (buf : Bytes) (len : ℕ) (key value : Bytes)
    → Locale.locale_parse buf len key value ≢ stop out_of_fuel
locale_parse_ends buf len key value = Fueled-stop _ (locale_parse-Fueled buf len key value)

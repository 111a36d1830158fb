-- ===== src/Util/Lengths.antt =====
-- The lengths of src/itmmorgue.c against the number of characters in a text.
use itmmorgue.Base.{
  ℕ, zero, suc, ◌+◌, ◌≡◌, Option, none, some, [], ◌∷◌, ◌++◌, min, Bool-cases, inl, inr,
  if◌then◌else◌, ok, arith, Bytes, ◌≢◌, All, take,
}
use itmmorgue.Util.{is_leader, nplen_from, anystrnplen, unplen_from, anystrunplen, set_end}

-- The characters of a text: the bytes that start one.
abbrev pub characters : Bytes → ℕ
characters [] = 0
characters (c ∷ cs) = (if is_leader c then 1 else 0) + characters cs

abbrev pub NoNul : Bytes → Type 0
NoNul = All (λ c. c ≢ 0)

unplen_from-characters :
    (str rest : Bytes) (maxlen len pos last_sym : ℕ)
    → NoNul str
    → (end : Option ℕ) × (unplen_from (str ++ 0 ∷ rest) maxlen len pos last_sym
        ≡ ok (len + min maxlen (characters str), end))
unfolding unplen_from
unplen_from-characters [] rest zero len pos last_sym h = (none, ground arith)
unplen_from-characters [] rest (suc maxlen) len pos last_sym h = (none, ground arith)
unplen_from-characters (c ∷ cs) rest zero len pos last_sym h = (some last_sym, ground arith)
unplen_from-characters (c ∷ cs) rest (suc maxlen) len pos last_sym h =
    elim (Bool-cases (is_leader c)) [
      | inl e ↦
          let (end, r) = unplen_from-characters cs rest maxlen (len + 1) (pos + 1) pos h.1 in
          (end, ground (arith, e, h.0, r))
      | inr e ↦
          let (end, r) = unplen_from-characters cs rest (suc maxlen) len (pos + 1) last_sym h.1 in
          (end, ground (arith, e, h.0, r))
    ]

-- Of a text that a NUL ends, `anystrunplen` counts the characters, and at most `maxlen` of them.
pub anystrunplen-characters :
    (str rest : Bytes) (maxlen : ℕ)
    → NoNul str
    → (end : Option ℕ) × (anystrunplen (str ++ 0 ∷ rest) maxlen
        ≡ ok (min maxlen (characters str), end))
unfolding anystrunplen
anystrunplen-characters str rest maxlen h =
    let (end, r) = unplen_from-characters str rest maxlen 0 0 0 h in (end, ground (arith, r))

nplen_from-characters :
    (str rest : Bytes) (maxlen len pos : ℕ)
    → NoNul str
    → (end : Option ℕ) × (nplen_from (str ++ 0 ∷ rest) maxlen len pos
        ≡ ok (len + characters (take maxlen str), end))
unfolding nplen_from set_end
nplen_from-characters [] rest zero len pos h = (none, ground arith)
nplen_from-characters [] rest (suc maxlen) len pos h = (none, ground arith)
nplen_from-characters (c ∷ cs) rest zero len pos h = (some pos, ground (arith, h.0))
nplen_from-characters (c ∷ cs) rest (suc maxlen) len pos h =
    let next = if is_leader c then len + 1 else len in
    let (end, r) = nplen_from-characters cs rest maxlen next (pos + 1) h.1 in
    (end, ground (arith, h.0, r))

-- Of a text that a NUL ends, `anystrnplen` counts the characters that start in the first `maxlen`
-- bytes.
pub anystrnplen-characters :
    (str rest : Bytes) (maxlen : ℕ)
    → NoNul str
    → (end : Option ℕ) × (anystrnplen (str ++ 0 ∷ rest) maxlen
        ≡ ok (characters (take maxlen str), end))
unfolding anystrnplen
anystrnplen-characters str rest maxlen h =
    let (end, r) = nplen_from-characters str rest maxlen 0 0 h in (end, ground (arith, r))

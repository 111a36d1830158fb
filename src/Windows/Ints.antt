-- ===== src/Windows/Ints.antt =====
-- The int arithmetic of src/windows.c: a result that an int cannot hold is undefined.
use itmmorgue.Base.{
  ℕ, zero, suc, ◌+◌, ◌-◌, ◌*◌, ◌/◌, ◌^◌, ◌≤◌, ◌<◌, ◌≡◌, ap, arith, Bool, true, false, leb, ltb,
  if◌then◌else◌, Result, ok, stop, undefined,
}
use itmmorgue.Config.Values.{ℤ, pos, negsuc, signed_int}

-- a - b
abbrev pub difference : ℕ → ℕ → ℤ
difference a b = if leb b a then pos (a - b) else negsuc (b - a - 1)

infixl 60 ◌+ℤ◌
abbrev pub ◌+ℤ◌ : ℤ → ℤ → ℤ
pos a +ℤ pos b = pos (a + b)
pos a +ℤ negsuc b = difference a (b + 1)
negsuc a +ℤ pos b = difference b (a + 1)
negsuc a +ℤ negsuc b = negsuc (a + b + 1)

abbrev pub neg : ℤ → ℤ
neg (pos zero) = pos 0
neg (pos (suc n)) = negsuc n
neg (negsuc n) = pos (n + 1)

abbrev pub is_negative : ℤ → Bool
is_negative (pos n) = false
is_negative (negsuc n) = true

abbrev pub is_zero : ℤ → Bool
is_zero (pos zero) = true
is_zero _ = false

abbrev pub int : ℤ → Result ℤ
int (pos n) = if ltb n (2 ^ 31) then ok (pos n) else stop undefined
int (negsuc n) = if ltb n (2 ^ 31) then ok (negsuc n) else stop undefined

-- `(int)(size * val / 100)`, which rounds towards 0. The product is an int too.
abbrev pub percent : ℕ → ℤ → Result ℤ
percent size (pos v) = if ltb (size * v) (2 ^ 31) then ok (pos (size * v / 100)) else stop undefined
percent size (negsuc v) =
    if leb (size * (v + 1)) (2 ^ 31)
    then ok (signed_int true (size * (v + 1) / 100))
    else stop undefined

-- One of the rows or columns of a screen that has `limit` of them.
abbrev pub InScreen : ℤ → ℕ → Type 0
InScreen (pos n) limit = n < limit
InScreen (negsuc n) limit = ⊥

pub signed_int-negsuc : (n : ℕ) → 1 ≤ n → signed_int true n ≡ negsuc (n - 1)
signed_int-negsuc zero h = absurd (omega arith)
signed_int-negsuc (suc n) h = ap negsuc (omega arith)

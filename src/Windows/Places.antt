-- ===== src/Windows/Places.antt =====
-- What `windows_fill` of src/windows.c makes of a number, where nothing leaves the range of int.
use itmmorgue.Base.{
  ℕ, zero, suc, ◌+◌, ◌-◌, ◌*◌, ◌/◌, ◌^◌, ◌≤◌, ◌<◌, ◌≡◌, refl, arith, true, ok, leb,
}
use itmmorgue.Config.Values.{pos, negsuc}
use itmmorgue.Windows.{from_end, up_to_end}
use itmmorgue.Windows.Ints.{percent, signed_int-negsuc}

pub percent-pos :
    (size v : ℕ) → size * v < 2 ^ 31 → percent size (pos v) ≡ ok (pos (size * v / 100))
percent-pos size v h = ground arith

pub percent-negsuc :
    (size v : ℕ)
    → size * (v + 1) ≤ 2 ^ 31
    → 100 ≤ size * (v + 1)
    → percent size (negsuc v) ≡ ok (negsuc (size * (v + 1) / 100 - 1))
percent-negsuc size v h l =
    let e = signed_int-negsuc (size * (v + 1) / 100) (omega arith) in
    let k : leb (size * (v + 1)) (2 ^ 31) ≡ true = ground arith in rw (k, e) refl

pub from_end-negsuc :
    (size v : ℕ) → v < size → size < 2 ^ 31 → from_end size (negsuc v) ≡ ok (pos (size - (v + 1)))
unfolding from_end
from_end-negsuc size v h l = ground arith

pub up_to_end-negsuc :
    (size a v : ℕ)
    → v + 1 + a ≤ size
    → size < 2 ^ 31
    → up_to_end size (pos a) (negsuc v) ≡ ok (pos (size - (v + 1) - a))
unfolding up_to_end
up_to_end-negsuc size zero v h l = ground arith
up_to_end-negsuc size (suc a) v h l = ground arith

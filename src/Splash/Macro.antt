-- ===== src/Splash/Macro.antt =====
-- The macro `s` of src/splash.c: two characters, from the corner of the logo on, a red and a blue one.
use Prim.Native.String.{String}
use itmmorgue.Base.{ℕ, Bytes, codes}

pub record Stroke : Type 0 where
  pub y1 : ℕ
  pub x1 : ℕ
  pub c1 : Bytes
  pub y2 : ℕ
  pub x2 : ℕ
  pub c2 : Bytes

abbrev pub stroke : ℕ → ℕ → String → ℕ → ℕ → String → Stroke
stroke y1 x1 c1 y2 x2 c2 = record {
  y1 = y1;
  x1 = x1;
  c1 = codes c1;
  y2 = y2;
  x2 = x2;
  c2 = codes c2;
}

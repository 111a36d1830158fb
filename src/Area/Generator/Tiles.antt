-- ===== src/Area/Generator/Tiles.antt =====
-- The rows that the level generator prints, and the tiles that stand for them, with their positions.
use itmmorgue.Base.{
  ℕ, zero, ◌+◌, ◌*◌, ◌^◌, ◌<◌, ◌≡◌, ◌≢◌, refl, ◌∙◌, ap, arith, some, suc, List, [], ◌∷◌, ◌++◌, ok,
  map, length, get_elem?, All, length-append, lt_of_get_elem?, ap₂, Bytes,
}
use mathlib.Core.Path.{subst}
use mathlib.Core.Option.{some-injective}
use itmmorgue.Level.{Tile, lvltilepos}
use itmmorgue.Area.Copy.{Placed, single}
use itmmorgue.Area.Generator.{newline, tile_of}

-- The tiles of a row from column `x` on, and of rows from `y` on.
abbrev pub tiles_in : ℕ → ℕ → Bytes → List Tile
tiles_in y x [] = []
tiles_in y x (ch ∷ rest) = tile_of ch y x ∷ tiles_in y (x + 1) rest

abbrev pub tiles_of : ℕ → List Bytes → List Tile
tiles_of y [] = []
tiles_of y (row ∷ rows) = tiles_in y 0 row ++ tiles_of (y + 1) rows

abbrev pub printed : List Bytes → Bytes
printed [] = []
printed (row ∷ rows) = row ++ newline ∷ printed rows

-- A row of the generator: as wide as the level, without a newline.
abbrev pub Row : ℕ → Bytes → Type 0
Row max_x row = (length row ≡ max_x) × All (λ c. c ≢ newline) row

pub length-tiles_in : (y x : ℕ) (cs : Bytes) → length (tiles_in y x cs) ≡ length cs
length-tiles_in y x [] = refl
length-tiles_in y x (c ∷ cs) = ap suc (length-tiles_in y (x + 1) cs)

-- The positions of the tiles.
Placed-append :
    (max_x i : ℕ) (ts us : List Tile)
    → Placed max_x i ts
    → Placed max_x (i + length ts) us
    → Placed max_x i (ts ++ us)
Placed-append max_x i [] us p q = subst (λ k. Placed max_x k us) (omega arith) q
Placed-append max_x i (t ∷ ts) us p q =
    (p.0, Placed-append max_x (i + 1) ts us p.1 (subst (λ k. Placed max_x k us) (omega arith) q))

tile_of-place :
    (max_x ch y x i : ℕ)
    → i ≡ y * max_x + x
    → i < 2 ^ 31
    → lvltilepos max_x (tile_of ch y x).y (tile_of ch y x).x ≡ ok i
unfolding lvltilepos
tile_of-place max_x ch y x i e h = ground arith

tiles_in-Placed :
    (max_x y x i : ℕ) (cs : Bytes)
    → i ≡ y * max_x + x
    → i + length cs < 2 ^ 31
    → Placed max_x i (tiles_in y x cs)
tiles_in-Placed max_x y x i [] e h = tt
tiles_in-Placed max_x y x i (c ∷ cs) e h = (
  tile_of-place max_x c y x i e (omega arith),
  tiles_in-Placed max_x y (x + 1) (i + 1) cs (omega arith) (omega arith),
)

pub tiles_of-Placed :
    (max_x y i : ℕ) (rows : List Bytes)
    → All (Row max_x) rows
    → i ≡ y * max_x
    → i + length rows * max_x < 2 ^ 31
    → Placed max_x i (tiles_of y rows)
tiles_of-Placed max_x y i [] p e h = tt
tiles_of-Placed max_x y i (row ∷ rows) p e h =
    let wide = p.0.0 in
    let long : i + length (tiles_in y 0 row) ≡ (y + 1) * max_x =
      omega (arith, length-tiles_in y 0 row) in
    Placed-append max_x i (tiles_in y 0 row) (tiles_of (y + 1) rows)
      (tiles_in-Placed max_x y 0 i row (omega arith) (omega arith))
      (tiles_of-Placed max_x (y + 1) (i + length (tiles_in y 0 row)) rows p.1 long
        (omega (arith, length-tiles_in y 0 row)))

pub length-tiles_of :
    (max_x y : ℕ) (rows : List Bytes)
    → All (Row max_x) rows
    → length (tiles_of y rows) ≡ length rows * max_x
length-tiles_of max_x y [] p = omega arith
length-tiles_of max_x y (row ∷ rows) p =
    let wide = p.0.0 in
    omega (
      arith,
      length-append (tiles_in y 0 row) (tiles_of (y + 1) rows),
      length-tiles_in y 0 row,
      length-tiles_of max_x (y + 1) rows p.1,
    )

module _ {A : Type 0} where
  get_elem?-append_front :
      (s t : List A) (i : ℕ) → i < length s → get_elem? (s ++ t) i ≡ get_elem? s i
  get_elem?-append_front [] t i h = absurd (omega arith)
  get_elem?-append_front (a ∷ s) t zero h = refl
  get_elem?-append_front (a ∷ s) t (suc i) h = get_elem?-append_front s t i (omega arith)

  get_elem?-append_back :
      (s t : List A) (k i : ℕ) → i ≡ length s + k → get_elem? (s ++ t) i ≡ get_elem? t k
  get_elem?-append_back [] t k i e = ap (get_elem? t) (omega arith)
  get_elem?-append_back (a ∷ s) t k zero e = absurd (omega arith)
  get_elem?-append_back (a ∷ s) t k (suc i) e = get_elem?-append_back s t k i (omega arith)

-- The tile at a place is the one of the character there.
get_elem?-tiles_in :
    (y x i : ℕ) (cs : Bytes) {ch : ℕ}
    → get_elem? cs i ≡ some ch
    → get_elem? (tiles_in y x cs) i ≡ some (tile_of ch y (x + i))
get_elem?-tiles_in y x i [] e = cc
get_elem?-tiles_in y x zero (c ∷ cs) {ch} e =
    ap some (ap₂ (λ c k. tile_of c y k) (some-injective c ch e) (omega arith))
get_elem?-tiles_in y x (suc i) (c ∷ cs) {ch} e =
    get_elem?-tiles_in y (x + 1) i cs e ∙ ap (λ k. some (tile_of ch y k)) (omega arith)

pub get_elem?-tiles_of :
    (max_x y k x : ℕ) (rows : List Bytes) {row : Bytes} {ch : ℕ}
    → All (Row max_x) rows
    → get_elem? rows k ≡ some row
    → get_elem? row x ≡ some ch
    → get_elem? (tiles_of y rows) (k * max_x + x) ≡ some (tile_of ch (y + k) x)
get_elem?-tiles_of max_x y k x [] p e f = cc
get_elem?-tiles_of max_x y zero x (r ∷ rows) {row} {ch} p e f =
    let same : get_elem? r x ≡ some ch = cc in
    let there = get_elem?-tiles_in y 0 x r same in
    let here : 0 * max_x + x ≡ x = omega arith in
    ap (get_elem? (tiles_of y (r ∷ rows))) here
    ∙ get_elem?-append_front (tiles_in y 0 r) (tiles_of (y + 1) rows) x
        (omega (arith, length-tiles_in y 0 r, lt_of_get_elem? r x same))
    ∙ there
    ∙ ap₂ (λ i j. some (tile_of ch i j)) (omega arith) (omega arith)
get_elem?-tiles_of max_x y (suc k) x (r ∷ rows) {row} {ch} p e f =
    let wide = p.0.0 in
    get_elem?-append_back (tiles_in y 0 r) (tiles_of (y + 1) rows) (k * max_x + x)
      (suc k * max_x + x) (omega (arith, length-tiles_in y 0 r))
    ∙ get_elem?-tiles_of max_x (y + 1) k x rows p.1 e f
    ∙ ap (λ i. some (tile_of ch i x)) (omega arith)

pub get_elem?-map-single :
    (ts : List Tile) (i : ℕ) {t : Tile}
    → get_elem? ts i ≡ some t
    → get_elem? (map single ts) i ≡ some (single t)
get_elem?-map-single [] i e = cc
get_elem?-map-single (u ∷ ts) zero {t} e = ap (λ v. some (single v)) (some-injective u t e)
get_elem?-map-single (u ∷ ts) (suc i) e = get_elem?-map-single ts i e

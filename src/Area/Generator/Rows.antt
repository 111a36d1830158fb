-- ===== src/Area/Generator/Rows.antt =====
-- The loop of `s_levels_init` in src/levels.c over rows of the level's width.
use itmmorgue.Base.{
  ℕ, ◌+◌, ◌*◌, ◌%◌, ◌^◌, ◌<◌, ◌≡◌, ◌≢◌, refl, sym, ◌∙◌, ap, arith, Option, some, none, false, suc,
  List, [], ◌∷◌, ◌++◌, ◌==◌, ok, map, length, replicate, All, append_assoc, append-nil,
  length-append, set-append, get_elem?-append, Bytes,
}
use mathlib.Core.List.{map-append}
use itmmorgue.Level.{Tile, lvltilepos}
use itmmorgue.Area.Generator.{newline, tile_of, place, place_all, inc_int}
use itmmorgue.Area.Generator.Tiles.{tiles_in, tiles_of, printed, Row, length-tiles_in}

place-front :
    (max_x ch y x : ℕ) (front back : List (Option Tile))
    → length front ≡ y * max_x + x
    → y < 2 ^ 16
    → x < 2 ^ 16
    → y * max_x + x < 2 ^ 31
    → place max_x ch y x (front ++ none ∷ back) ≡ ok (front ++ some (tile_of ch y x) ∷ back)
unfolding place lvltilepos
place-front max_x ch y x front back e hy hx h =
    let ey : y % 2 ^ 16 ≡ y = omega arith in
    let ex : x % 2 ^ 16 ≡ x = omega arith in
    let fits : lvltilepos max_x y x ≡ ok (length front) = rw e (ground arith) in
    rw
      (
        ey,
        ex,
        fits,
        get_elem?-append front none back,
        set-append front none back (some (tile_of ch y x)),
      )
      refl

place_all-row :
    (max_x y x k room : ℕ) (cs rest : Bytes) (front : List (Option Tile))
    → All (λ c. c ≢ newline) cs
    → length front ≡ y * max_x + x
    → room ≡ length cs + k
    → y < 2 ^ 16
    → x + length cs < 2 ^ 16
    → y * max_x + x + length cs < 2 ^ 31
    → place_all max_x (cs ++ newline ∷ rest) y x (front ++ replicate room none)
      ≡ place_all max_x rest (y + 1) 0 ((front ++ map some (tiles_in y x cs)) ++ replicate k none)
unfolding place_all
place_all-row max_x y x k room [] rest front p e r hy hx h =
    let inc : inc_int y ≡ ok (y + 1) = ground arith in
    let same : room ≡ k = omega arith in
    rw (inc, same)
      (ap (λ f. place_all max_x rest (y + 1) 0 (f ++ replicate k none)) (sym (append-nil front)))
place_all-row max_x y x k room (c ∷ cs) rest front p e r hy hx h =
    let other : (c == newline) ≡ false = ground arith in
    let inc : inc_int x ≡ ok (x + 1) = ground arith in
    let t = some (tile_of c y x) in
    let more : room ≡ suc (length cs + k) = omega arith in
    let spare = replicate (length cs + k) none in
    let put = place-front max_x c y x front spare e hy (omega arith) (omega arith) in
    let e' : length (front ++ t ∷ []) ≡ y * max_x + (x + 1) =
      omega (arith, length-append front (t ∷ [])) in
    let row =
      place_all-row max_x y (x + 1) k (length cs + k) cs rest (front ++ t ∷ []) p.1 e' refl hy
        (omega arith) (omega arith) in
    rw (more, other, inc, put)
      (ap (place_all max_x (cs ++ newline ∷ rest) y (x + 1))
          (sym (append_assoc front (t ∷ []) spare))
        ∙ row
        ∙ ap (λ f. place_all max_x rest (y + 1) 0 (f ++ replicate k none))
            (append_assoc front (t ∷ []) (map some (tiles_in y (x + 1) cs))))

length-map-some : (ts : List Tile) → length (map some ts) ≡ length ts
length-map-some [] = refl
length-map-some (t ∷ ts) = ap suc (length-map-some ts)

pub place_all-rows :
    (max_x y room : ℕ) (rows : List Bytes) (front : List (Option Tile))
    → All (Row max_x) rows
    → length front ≡ y * max_x
    → room ≡ length rows * max_x
    → max_x < 2 ^ 16
    → y + length rows < 2 ^ 16
    → (y + length rows) * max_x < 2 ^ 31
    → place_all max_x (printed rows) y 0 (front ++ replicate room none)
      ≡ ok (front ++ map some (tiles_of y rows))
unfolding place_all
place_all-rows max_x y room [] front p e r hx hy h =
    let empty : room ≡ 0 = omega arith in rw empty refl
place_all-rows max_x y room (row ∷ rows) front p e r hx hy h =
    let placed = map some (tiles_in y 0 row) in
    let wide = p.0.0 in
    let room_is : room ≡ length row + length rows * max_x = omega arith in
    let end : length (front ++ placed) ≡ (y + 1) * max_x = omega (
      arith,
      length-append front placed,
      length-map-some (tiles_in y 0 row),
      length-tiles_in y 0 row,
    ) in
    place_all-row max_x y 0 (length rows * max_x) room row (printed rows) front p.0.1 (omega arith)
      room_is (omega arith) (omega arith) (omega arith)
    ∙ place_all-rows max_x (y + 1) (length rows * max_x) rows (front ++ placed) p.1 end refl hx
        (omega arith) (omega arith)
    ∙ ap ok (
        append_assoc front placed (map some (tiles_of (y + 1) rows))
        ∙ ap (◌++◌ front) (sym (map-append some (tiles_in y 0 row) (tiles_of (y + 1) rows))))

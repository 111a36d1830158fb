-- ===== src/Area/Drawing/Window.antt =====
-- What `draw_area` of src/area.c shows in the window of the area.
use itmmorgue.Base.{
  ℕ, zero, suc, ◌+◌, ◌*◌, ◌%◌, ◌≤◌, ◌<◌, ◌^◌, ◌≡◌, refl, sym, ◌∙◌, ap, ap₂, arith, Option, some,
  List, [], ◌∷◌, ◌++◌, ok, length, length-append, get_elem?, get_elem?-of_lt,
}
use native.Mathlib.Nat.{mul-le-mul_right}
use mathlib.Core.Path.{subst}
use itmmorgue.Config.Values.{pos}
use itmmorgue.Level.{lvltilepos}
use itmmorgue.Area.{Cell}
use itmmorgue.Area.Levels.{CLevel}
use itmmorgue.Area.Drawing.{Ink, symbol, color2attr, draw_row, draw_tiles}

-- A command draws cell `i` of a level at row `y` and column `x`: its symbol, in its colour.
pub record Shows (symbols : List ℕ) (cells : List Cell) (i y x : ℕ) (ink : Option Ink)
    : Type 0 where
  pub cell : Cell
  pub glyph : ℕ
  pub at : get_elem? cells i ≡ some cell
  pub known : get_elem? symbols cell.tile.top ≡ some glyph
  pub drawn : ink ≡ some (symbol (pos y) (pos x) glyph (color2attr cell.tile.color))

-- All cells have a symbol.
abbrev pub AllKnown : List ℕ → List Cell → Type 0
AllKnown symbols cells =
    (i : ℕ) (c : Cell) → get_elem? cells i ≡ some c → c.tile.top < length symbols

get_elem?-left :
    {A : Type 0} (xs ys : List A) (i : ℕ) → i < length xs → get_elem? (xs ++ ys) i ≡ get_elem? xs i
get_elem?-left [] ys i h = absurd (omega arith)
get_elem?-left (x ∷ xs) ys zero h = refl
get_elem?-left (x ∷ xs) ys (suc i) h = get_elem?-left xs ys i (omega arith)

get_elem?-right :
    {A : Type 0} (xs ys : List A) (i k : ℕ)
    → k ≡ length xs + i
    → get_elem? (xs ++ ys) k ≡ get_elem? ys i
get_elem?-right [] ys i k e = ap (get_elem? ys) (omega (arith, e))
get_elem?-right (x ∷ xs) ys i zero e = absurd (omega (arith, e))
get_elem?-right (x ∷ xs) ys i (suc k) e = get_elem?-right xs ys i k (omega (arith, e))

pub moved_Shows :
    {symbols : List ℕ} {cells : List Cell} {i i' y y' x x' : ℕ} {ink : Option Ink}
    → i ≡ i'
    → y ≡ y'
    → x ≡ x'
    → Shows symbols cells i y x ink
    → Shows symbols cells i' y' x' ink
moved_Shows {symbols} {cells} {i} {i'} {y} {y'} {x} {x'} {ink} ei ey ex s = record {
  cell = s.cell;
  glyph = s.glyph;
  at = ap (get_elem? cells) (sym ei) ∙ s.at;
  known = s.known;
  drawn =
      s.drawn
      ∙ ap₂ (λ y x. some (symbol (pos y) (pos x) s.glyph (color2attr s.cell.tile.color))) ey ex;
}

-- What holds of the first element and of the others holds of each.
pub each :
    {A : Type 0} (P : ℕ → Option A → Type 0) (n : ℕ) (a : A) (rest : List A)
    → P 0 (some a)
    → ((j : ℕ) → j < n → P (j + 1) (get_elem? rest j))
    → (j : ℕ) → j < suc n
    → P j (get_elem? (a ∷ rest) j)
each P n a rest first others zero h = first
each P n a rest first others (suc j) h =
    subst (λ k. P k (get_elem? rest j)) (omega arith) (others j (omega arith))

-- The same for the rows of a grid of `w` columns.
each_row :
    {A : Type 0} (P : ℕ → ℕ → Option A → Type 0) (w n : ℕ) (row rest : List A)
    → length row ≡ w
    → ((j : ℕ) → j < w → P 0 j (get_elem? row j))
    → ((i j : ℕ) → i < n → j < w → P (i + 1) j (get_elem? rest (i * w + j)))
    → (i j : ℕ) → i < suc n
    → j < w
    → P i j (get_elem? (row ++ rest) (i * w + j))
each_row P w n row rest len first others zero j h lt =
    subst (P 0 j)
      (sym (
        ap (get_elem? (row ++ rest)) (omega arith)
        ∙ get_elem?-left row rest j (omega (arith, len))))
      (first j lt)
each_row P w n row rest len first others (suc i) j h lt =
    subst (λ k. P k j (get_elem? (row ++ rest) (suc i * w + j))) (omega arith)
      (subst (P (i + 1) j)
        (sym (get_elem?-right row rest (i * w + j) (suc i * w + j) (omega (arith, len))))
        (others i j (omega arith) lt))

module _ (symbols : List ℕ) (cells : List Cell) (known : AllKnown symbols cells) where
  draw_row-Shows :
      (y x i n : ℕ)
      → i + n ≤ length cells
      → (out : List Ink) × (draw_row symbols cells y x i n ≡ ok out)
        × (length out ≡ n)
        × ((j : ℕ) → j < n → Shows symbols cells (i + j) y (x + j) (get_elem? out j))
  unfolding draw_row
  draw_row-Shows y x i zero h = ([], refl, refl, λ j lt. absurd (omega arith))
  draw_row-Shows y x i (suc n) h =
      let (c, at) = get_elem?-of_lt cells i (omega arith) in
      let (s, is) = get_elem?-of_lt symbols c.tile.top (known i c at) in
      let (out, draws, len, shows) = draw_row-Shows y (x + 1) (i + 1) n (omega arith) in
      let ink = symbol (pos y) (pos x) s (color2attr c.tile.color) in
      let here : Shows symbols cells (i + 0) y (x + 0) (some ink) = record {
        cell = c;
        glyph = s;
        at = ap (get_elem? cells) (omega arith) ∙ at;
        known = is;
        drawn = ap (λ k. some (symbol (pos y) (pos k) s (color2attr c.tile.color))) (omega arith);
      } in
      (
        ink ∷ out,
        rw (at, is, draws) refl,
        omega (arith, len),
        each (λ j. Shows symbols cells (i + j) y (x + j)) n ink out here
            (λ j lt. moved_Shows (omega arith) refl (omega arith) (shows j lt)),
      )

-- A row of the view starts inside the level.
row_fits : (r rows k max_x : ℕ) → r < rows → k ≤ max_x → r * max_x + k ≤ rows * max_x
row_fits r rows k max_x h le =
    let more : suc r * max_x ≤ rows * max_x = mul-le-mul_right max_x (omega arith) in
    omega (arith, more)

lvltilepos-ok : (max_x y x : ℕ) → y * max_x + x < 2 ^ 31 → lvltilepos max_x y x ≡ ok (y * max_x + x)
unfolding lvltilepos
lvltilepos-ok max_x y x h = ground arith

-- A level of a size that src/levels.c can have.
pub record IsLevel (l : CLevel) : Type 0 where
  pub cells : length l.area ≡ l.max_y * l.max_x
  pub small : l.max_y * l.max_x < 2 ^ 31
  pub high : l.max_y < 2 ^ 16
  pub wide : l.max_x < 2 ^ 16

module _ (symbols : List ℕ) (l : CLevel) (known : AllKnown symbols l.area) (sized : IsLevel l) where
  pub draw_tiles-Shows :
      (top left w y n : ℕ)
      → y + top + n ≤ l.max_y
      → left + w ≤ l.max_x
      → (out : List Ink) × (draw_tiles symbols l (pos top) (pos left) w y n ≡ ok out)
        × (length out ≡ n * w)
        × ((i j : ℕ)
            → i < n
            → j < w
            → Shows symbols l.area
                ((y + i + top) * l.max_x + (left + j))
                (y + i)
                j
                (get_elem? out (i * w + j)))
  unfolding draw_tiles
  draw_tiles-Shows top left w y zero hy hx = ([], refl, omega arith, λ i j lt. absurd (omega arith))
  draw_tiles-Shows top left w y (suc n) hy hx =
      let fits : (y + top) * l.max_x + (left + w) ≤ l.max_y * l.max_x =
        row_fits (y + top) l.max_y (left + w) l.max_x (omega arith) hx in
      let start : lvltilepos l.max_x ((y + top) % 2 ^ 16) (left % 2 ^ 16)
          ≡ ok ((y + top) * l.max_x + left) =
        ap₂ (lvltilepos l.max_x) (omega (arith, sized.high)) (omega (arith, sized.wide))
        ∙ lvltilepos-ok l.max_x (y + top) left (omega (arith, sized.small)) in
      let (row, draws, len, shows) =
        draw_row-Shows symbols l.area known y 0 ((y + top) * l.max_x + left) w
          (omega (arith, sized.cells)) in
      let (rest, draws', len', shows') = draw_tiles-Shows top left w (y + 1) n (omega arith) hx in
      (
        row ++ rest,
        rw (start, draws, draws') refl,
        length-append row rest ∙ omega (arith, len, len'),
        each_row (λ i j. Shows symbols l.area ((y + i + top) * l.max_x + (left + j)) (y + i) j) w n
            row rest len
            (λ j lt. moved_Shows (omega arith) (omega arith) (omega arith) (shows j lt))
            (λ i j h lt. moved_Shows (omega arith) (omega arith) refl (shows' i j h lt)),
      )

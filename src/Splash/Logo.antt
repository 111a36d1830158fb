-- ===== src/Splash/Logo.antt =====
-- What src/splash.c leaves on the screen: the rows of dots, and the picture of the logo.
use itmmorgue.Base.{
  ℕ, zero, suc, ◌+◌, ◌-◌, ◌/◌, ◌≡◌, refl, List, [], ◌∷◌, ◌++◌, Bytes, codes, replicate, ◌==◌,
  if◌then◌else◌,
}
use itmmorgue.Config.Values.{pos}
use itmmorgue.Splash.Macro.{Stroke}
use itmmorgue.Splash.First.{first_strokes}
use itmmorgue.Splash.Second.{second_strokes}
use itmmorgue.Splash.{Paint, put, dots, l_red, l_blue}

-- A character of the logo, with its colour, counted from the corner.
pub record Cell : Type 0 where
  pub colour : ℕ
  pub row : ℕ
  pub column : ℕ
  pub text : Bytes

-- The corner is four rows above and 48 columns left of the middle.
abbrev pub at_corner : ℕ → ℕ → Cell → Paint
at_corner max_y max_x c =
    put c.colour (pos (max_y / 2 + c.row - 4)) (pos (max_x / 2 + c.column - 48)) c.text

-- The commands that print a character, the last one first.
abbrev pub puts : List Paint → List Paint
puts [] = []
puts (put c y x t ∷ ps) = put c y x t ∷ puts ps
puts (_ ∷ ps) = puts ps

-- The rows of dots, the last one first, with the number of their dots.
abbrev pub dotted : List Paint → List (ℕ × ℕ)
dotted [] = []
dotted (dots c y n ∷ ps) = (y, n) ∷ dotted ps
dotted (_ ∷ ps) = dotted ps

-- The rows below row `n`, each of the width `w`.
abbrev pub rows_below : ℕ → ℕ → List (ℕ × ℕ) → List (ℕ × ℕ)
rows_below zero w acc = acc
rows_below (suc i) w acc = rows_below i w ((i, w) ∷ acc)

abbrev change {ℓ} : {A : Type ℓ} → (A → A) → ℕ → List A → List A
change f i [] = []
change f zero (a ∷ xs) = f a ∷ xs
change f (suc i) (a ∷ xs) = a ∷ change f i xs

-- What is seen of the cells in the nine rows and the columns 10 to 82: each shows what was put there last.
abbrev pub picture : (Cell → ℕ) → List Cell → List Bytes
picture seen [] = replicate 9 (replicate 73 32)
picture seen (c ∷ cs) = change (change (λ old. seen c) (c.column - 10)) c.row (picture seen cs)

abbrev first_code : Bytes → ℕ
first_code [] = 32
first_code (c ∷ cs) = c

abbrev pub letter : Cell → ℕ
letter c = first_code c.text

abbrev pub logo : List Bytes
logo =
    codes "-----=-------=--    --=--    --======@@==-  --=====-----====   ===-------"
    ∷ codes "\\   / \\_   _/ | \\  / | | \\  / | /  _  \\ | \\/  \\   /  _  \\ / \\ / \\ |  ___/"
    ∷ codes " | |    | |   |  \\/  | |  \\/  | | | | | |   /\\=\\  | | |_| | | | | | |    "
    ∷ codes " | |    | |   |      | |      | | | | | |   \\/ /  | |     | | | | | |__  "
    ∷ codes " | |    | |   | |\\/| | | |\\/| | |=| | | | |\\  /   | | __  | | | | |  __| "
    ∷ codes " | |    | |   | |  | | | |  | | | | | | | | \\ \\   | ||_ | | | | | | |    "
    ∷ codes " | |    | |   | |  | | | |  | | | |_| | | |  | |  | |_| | | |_| | | |___ "
    ∷ codes "/   \\   | |   | |  | | | |  | | \\     / | |  | |  \\     / \\     / |     \\"
    ∷ codes "-----   ---   ---  --- ---  ---  -----  ---  ---   -----   -----  -------"
    ∷ []

abbrev pub cell_at : ℕ → ℕ → ℕ → Bytes → Cell
cell_at colour row column text = record { colour = colour; row = row; column = column; text = text }

-- The cells of the strokes on those before.
abbrev pub cells_of : List Stroke → List Cell → List Cell
cells_of [] cs = cs
cells_of (t ∷ ts) cs =
    cells_of ts (cell_at l_blue t.y2 t.x2 t.c2 ∷ cell_at l_red t.y1 t.x1 t.c1 ∷ cs)

abbrev pub logo_cells : List Cell
logo_cells = cells_of (first_strokes ++ second_strokes) []

pub logo_cells-logo : picture letter logo_cells ≡ logo
logo_cells-logo = refl

-- For each character of the logo its colour: `r` for red, `b` for blue.
abbrev pub tone : Cell → ℕ
tone c =
    first_code
      (if c.colour == 10 then codes "r" else if c.colour == 12 then codes "b" else codes "?")

abbrev pub tones : List Bytes
tones =
    codes "rrrrrrrrrrrrrrrr    rrrrr    rrrrrrrrrbbbb  bbbbbbbbbbbbbbbb   bbbbbbbbbb"
    ∷ codes "r   r rr   rr r r  r r r r  r r r  r  r b bb  b   b  b  b b b b b b  bbbb"
    ∷ codes " r r    r r   r  rr  r r  rr  r r r r r b   bbbb  b b bbb b b b b b b    "
    ∷ codes " r r    r r   r      r r      r r r r r b   bb b  b b     b b b b b bbb  "
    ∷ codes " r r    r r   r rrrr r r rrrr r rrr r r b bb  b   b b bb  b b b b b  bbb "
    ∷ codes " r r    r r   r r  r r r r  r r r r r r b b b b   b bbb b b b b b b b    "
    ∷ codes " r r    r r   r r  r r r r  r r r rrr r b b  b b  b bbb b b bbb b b bbbb "
    ∷ codes "r   r   r r   r r  r r r r  r r r     r b b  b b  b     b b     b b     b"
    ∷ codes "rrrrr   rrr   rrr  rrr rrr  rrr  rrrrr  bbb  bbb   bbbbb   bbbbb  bbbbbbb"
    ∷ []

pub logo_cells-tones : picture tone logo_cells ≡ tones
logo_cells-tones = refl

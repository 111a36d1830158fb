-- ===== src/Area/Generator.antt =====
-- `s_levels_init` of src/levels.c: the server's level is made of what the level generator prints. The
-- generator, which popen(3) runs with a width and a height, is a parameter.
pub mod Tiles
pub mod Rows
pub mod Seen
mod Tests
use itmmorgue.Base.{
  ℕ, ◌+◌, ◌-◌, ◌*◌, ◌%◌, ◌^◌, ◌==◌, Bool, Option, none, some, List, [], ◌∷◌, ◌++◌, leb,
  if◌then◌else◌, Result, ok, stop, panic, undefined, or_undefined, ◌>>=◌, Bytes, codes, get_elem?,
  set, replicate, generator_not_run, generator_not_read,
}
use itmmorgue.Config.Values.{ℤ, pos, negsuc}
use itmmorgue.Config.Entries.{Lookup, conf_ival}
use itmmorgue.Player.{l_black}
use itmmorgue.Level.{Tile, lvltilepos}

-- Of `enum stuff` and `enum colors`
abbrev pub s_floor : ℕ
s_floor = 1

abbrev pub s_tree : ℕ
s_tree = 4

abbrev pub l_green : ℕ
l_green = 11

abbrev pub newline : ℕ
newline = 10

abbrev pub caret : ℕ
caret = 94

-- What the program prints, and whether the reading ended at its end. It may not run at all.
abbrev pub Gen : Type 0
Gen = ℤ → ℤ → Option (Bytes × Bool)

-- `level_t` while its area is memory that malloc(3) gave: a tile that was not written has no value.
pub record NewLevel : Type 0 where
  pub id : ℕ
  pub max_y : ℕ
  pub max_x : ℕ
  pub size : ℕ
  pub area : List (Option Tile)
  pub name : Bytes

-- An int becomes a uint16_t.
abbrev pub uint16 : ℤ → ℕ
uint16 (pos n) = n % 2 ^ 16
uint16 (negsuc n) = 2 ^ 16 - 1 - n % 2 ^ 16

-- `++` of an int
abbrev pub inc_int : ℕ → Result ℕ
inc_int n = if leb (2 ^ 31) (n + 1) then stop undefined else ok (n + 1)

-- The tile of a character, without its place.
abbrev pub tile_of : ℕ → ℕ → ℕ → Tile
tile_of ch y x =
    if ch == caret
    then record { top = s_tree; color = l_green; y = y; x = x }
    else record { top = s_floor; color = l_black; y = y; x = x }

-- One character that is no newline, at column `x` of row `y`.
unfoldable pub place : ℕ → ℕ → ℕ → ℕ → List (Option Tile) → Result (List (Option Tile))
place max_x ch y x area = do
  index ← lvltilepos max_x (y % 2 ^ 16) (x % 2 ^ 16)
  was ← or_undefined (get_elem? area index)
  ok (set area index (some (tile_of ch (y % 2 ^ 16) (x % 2 ^ 16))))

-- The loop over what the generator prints.
unfoldable pub place_all : ℕ → Bytes → ℕ → ℕ → List (Option Tile) → Result (List (Option Tile))
unfolding place
place_all max_x [] y x area = ok area
place_all max_x (ch ∷ rest) y x area =
    if ch == newline
    then (do y' ← inc_int y; place_all max_x rest y' 0 area)
    else do x' ← inc_int x; area' ← place max_x ch y x area; place_all max_x rest y x' area'

-- There is room for one level. The product of the two uint16_t is an int.
unfoldable pub s_levels_init : Lookup → Gen → ℕ → Result (NewLevel × ℕ)
unfolding place_all
s_levels_init conf gen levels_count = if leb 1 levels_count then stop undefined else do
  height ← conf_ival conf (codes "level_height")
  width ← conf_ival conf (codes "level_width")
  let size = uint16 height * uint16 width
  if leb (2 ^ 31) size then stop undefined else elim (gen width height) [
    | none ↦ stop (panic generator_not_run)
    | some (printed, at_end) ↦ do
      area ← place_all (uint16 width) printed 0 0 (replicate size none)
      let level : NewLevel = record {
        id = 19;
        max_y = uint16 height;
        max_x = uint16 width;
        size = size;
        area = area;
        name = codes "375" ++ 0 ∷ [];
      }
      if at_end then ok (level, levels_count + 1) else stop (panic generator_not_read)
  ]

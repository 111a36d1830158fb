-- ===== src/Level.antt =====
-- src/tiles.h, src/levels.h and the level's position of a tile in src/area.c.
use itmmorgue.Base.{ℕ, ◌+◌, ◌*◌, ◌^◌, List, leb, if◌then◌else◌, Result, ok, stop, undefined, Bytes}

-- `enum stuff` and `enum colors` are kept as numbers; 0 is S_NONE.
abbrev pub s_none : ℕ
s_none = 0

-- `tile_t`, without the pointer to the tile under it: a tile and what lies under it is a list of these.
pub record Tile : Type 0 where
  pub top : ℕ
  pub color : ℕ
  pub y : ℕ
  pub x : ℕ

-- `tileblock_t`
pub record TileBlock : Type 0 where
  pub count : ℕ
  pub zcount : ℕ
  pub tiles : List Tile

-- `level_t`
pub record Level : Type 0 where
  pub id : ℕ
  pub max_y : ℕ
  pub max_x : ℕ
  pub size : ℕ
  pub area : List Tile
  pub name : Bytes

-- The three numbers are uint16_t, and C computes in int: a sum that an int cannot hold is undefined.
unfoldable pub lvltilepos : ℕ → ℕ → ℕ → Result ℕ
lvltilepos max_x y x =
    let pos = y * max_x + x in if leb (2 ^ 31) pos then stop undefined else ok pos

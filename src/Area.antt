-- ===== src/Area.antt =====
-- The client's level in src/area.c: `tile_destroy` and `c_area_update`, on the area `c_curr` of the
-- current level. A pointer to the next tile in the message is the list of the tiles that are left.
pub mod Copy
pub mod Levels
pub mod Camera
pub mod Drawing
pub mod Generator
mod Tests
use itmmorgue.Base.{
  ℕ, zero, suc, List, [], ◌∷◌, ◌==◌, if◌then◌else◌, Result, ok, stop, undefined, or_undefined,
  ◌>>=◌, get_elem?, set,
}
use itmmorgue.Level.{Tile, TileBlock, lvltilepos, s_none}

-- `tile_t` on the client: a tile, and the list that its `underlying` leads through. The server sends
-- null pointers.
pub record Cell : Type 0 where
  pub tile : Tile
  pub underlying : List Tile

-- memset to 0
abbrev pub blank : Cell
blank = record { tile = record { top = s_none; color = 0; y = 0; x = 0 }; underlying = [] }

unfoldable pub tile_destroy : Cell → Cell
tile_destroy c = if c.tile.top == s_none then c else blank

-- The body of the inner loop: what was there goes under the new tile, and loses what was under it.
unfoldable pub stack : Cell → Tile → Cell
stack c t =
    if c.tile.top == s_none
    then record { tile = t; underlying = [] }
    else record { tile = t; underlying = c.tile ∷ [] }

-- The inner loop, for `n` tiles on one cell.
unfoldable pub stack_from : ℕ → Cell → List Tile → Result (Cell × List Tile)
unfolding stack
stack_from zero c ts = ok (c, ts)
stack_from (suc n) c [] = stop undefined
stack_from (suc n) c (t ∷ ts) = stack_from n (stack c t) ts

-- The loop over `n` cells of a block. The position is that of the next tile.
unfoldable pub cells_from : ℕ → ℕ → ℕ → List Tile → List Cell → Result (List Cell)
unfolding stack_from tile_destroy
cells_from max_x zcount zero ts area = ok area
cells_from max_x zcount (suc n) [] area = stop undefined
cells_from max_x zcount (suc n) (t ∷ ts) area = do
  index ← lvltilepos max_x t.y t.x
  c ← or_undefined (get_elem? area index)
  r ← stack_from zcount (tile_destroy c) (t ∷ ts)
  cells_from max_x zcount n r.1 (set area index r.0)

-- `c_area_update`, on the groups of a message.
unfoldable pub c_area_update : ℕ → List TileBlock → List Cell → Result (List Cell)
unfolding cells_from
c_area_update max_x [] area = ok area
c_area_update max_x (b ∷ bs) area = do
  area' ← cells_from max_x b.zcount b.count b.tiles area
  c_area_update max_x bs area'

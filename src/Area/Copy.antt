-- ===== src/Area/Copy.antt =====
-- The area that `s_area_send` of src/levels.c sends, as `c_area_update` of src/area.c takes it in.
use itmmorgue.Base.{
  ℕ, ◌+◌, ◌*◌, ◌≡◌, refl, sym, ◌∙◌, ap, some, List, [], ◌∷◌, ◌++◌, arith, ok, map, length,
  get_elem?, take, leb, append_assoc, length-append, true, set-append, get_elem?-append,
}
use itmmorgue.Level.{Tile, TileBlock, Level, lvltilepos}
use mathlib.Core.Path.{subst}
use itmmorgue.Protocol.Types.{put_area}
use itmmorgue.Player.{Player, player_at}
use itmmorgue.World.{World, area, enqueue, message}
use itmmorgue.Server.Send.{s_area_send, tile_size}
use itmmorgue.Area.{Cell, tile_destroy, stack, cells_from, c_area_update}

-- Each tile knows where it is: the tiles are those of the positions from `i` on.
abbrev pub Placed : ℕ → ℕ → List Tile → Type 0
Placed max_x i [] = Unit
Placed max_x i (t ∷ ts) = (lvltilepos max_x t.y t.x ≡ ok i) × Placed max_x (i + 1) ts

abbrev pub single : Tile → Cell
single t = record { tile = t; underlying = [] }

-- One tile on a cell leaves that tile alone, whatever was there.
one_tile : (c : Cell) (t : Tile) → stack (tile_destroy c) t ≡ single t
unfolding stack tile_destroy
one_tile c t = ground arith

cells_from-single :
    (max_x : ℕ) (ts : List Tile) (front back : List Cell)
    → Placed max_x (length front) ts
    → length back ≡ length ts
    → cells_from max_x 1 (length ts) ts (front ++ back) ≡ ok (front ++ map single ts)
unfolding cells_from
cells_from-single max_x [] front [] p e = refl
cells_from-single max_x [] front (c ∷ back) p e = absurd (omega arith)
cells_from-single max_x (t ∷ ts) front [] p e = absurd (omega arith)
cells_from-single max_x (t ∷ ts) front (c ∷ back) p e =
    let placed = subst (λ k. Placed max_x k ts) (sym (length-append front (single t ∷ []))) p.1 in
    let rest = cells_from-single max_x ts (front ++ single t ∷ []) back placed (omega arith) in
    rw (p.0, get_elem?-append front c back, one_tile c t, set-append front c back (single t))
      (ap (cells_from max_x 1 (length ts) ts) (sym (append_assoc front (single t ∷ []) back))
        ∙ rest
        ∙ ap ok (append_assoc front (single t ∷ []) (map single ts)))

take_all : (ts : List Tile) → take (length ts) ts ≡ ts
take_all [] = refl
take_all (t ∷ ts) = ap (◌∷◌ t) (take_all ts)

-- The block that the server makes of a level.
abbrev pub whole : Level → TileBlock
whole l = record { count = length l.area; zcount = 1; tiles = l.area }

s_area_send-whole :
    (w : World) (i id a : ℕ) (p : Player) (l : Level)
    → get_elem? w.levels i ≡ some l
    → get_elem? w.players id ≡ some p
    → p.connection ≡ some a
    → length l.area ≡ l.max_y * l.max_x
    → s_area_send w i id
      ≡ enqueue w a (message put_area (tile_size * length l.area + 8) (area (whole l)))
unfolding s_area_send player_at
s_area_send-whole w i id a p l at_level at conn size =
    let s = sym size in
    let fits : leb (length l.area) (length l.area) ≡ true = ground arith in
    rw (at_level, at, s, fits, take_all l.area, conn) refl

-- For a level whose area has its size and whose tiles know their positions: `s_area_send` queues
-- one block for the player's connection, and `c_area_update` with this block makes an area of that
-- size the level's area, with nothing under any tile, whatever the client had there.
pub s_area_send-c_area_update :
    (w : World) (i id a : ℕ) (p : Player) (l : Level) (cells : List Cell)
    → get_elem? w.levels i ≡ some l
    → get_elem? w.players id ≡ some p
    → p.connection ≡ some a
    → length l.area ≡ l.max_y * l.max_x
    → Placed l.max_x 0 l.area
    → length cells ≡ length l.area
    → (b : TileBlock) × (s_area_send w i id
        ≡ enqueue w a (message put_area (tile_size * b.count + 8) (area b)))
      × (c_area_update l.max_x (b ∷ []) cells ≡ ok (map single l.area))
unfolding c_area_update
s_area_send-c_area_update w i id a p l cells at_level at conn size placed same = (
  whole l,
  s_area_send-whole w i id a p l at_level at conn size,
  rw (cells_from-single l.max_x l.area [] cells placed same) refl,
)

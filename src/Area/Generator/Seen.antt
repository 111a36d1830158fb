-- ===== src/Area/Generator/Seen.antt =====
-- What a client has of the level that `s_levels_init` of src/levels.c makes.
use itmmorgue.Base.{
  ℕ, ◌+◌, ◌*◌, ◌^◌, ◌<◌, ◌≡◌, refl, sym, ◌∙◌, ap, arith, some, none, true, false, Bool, Bool-cases,
  inl, inr, ◌==◌, List, [], ◌∷◌, ◌++◌, leb, ok, map, length, get_elem?, replicate, All, ap₂, Bytes,
  codes,
}
use itmmorgue.Config.Values.{pos}
use itmmorgue.Config.Entries.{Lookup, conf_ival}
use itmmorgue.Level.{Tile, TileBlock, Level}
use itmmorgue.Protocol.Types.{put_area}
use itmmorgue.Player.{Player}
use itmmorgue.World.{World, area, enqueue, message}
use itmmorgue.Server.Send.{s_area_send, tile_size}
use itmmorgue.Area.{Cell, c_area_update}
use itmmorgue.Area.Copy.{single, s_area_send-c_area_update}
use itmmorgue.Area.Generator.{Gen, NewLevel, tile_of, place_all, s_levels_init, uint16}
use itmmorgue.Area.Generator.Tiles.{
  tiles_of, printed, Row, tiles_of-Placed, length-tiles_of, get_elem?-tiles_of,
  get_elem?-map-single,
}
use itmmorgue.Area.Generator.Rows.{place_all-rows}

-- The level when all of its area is written.
abbrev pub written : Level → NewLevel
written l = record {
  id = l.id;
  max_y = l.max_y;
  max_x = l.max_x;
  size = l.size;
  area = map some l.area;
  name = l.name;
}

-- The tile that a character stands for: a green tree for a caret, and else a black floor.
abbrev pub drawn : Bool → ℕ → ℕ → Tile
drawn true y x = record { top = 4; color = 11; y = y; x = x }
drawn false y x = record { top = 1; color = 13; y = y; x = x }

tile_of-drawn : (ch y x : ℕ) → tile_of ch y x ≡ drawn (ch == b'^') y x
tile_of-drawn ch y x = elim (Bool-cases (ch == b'^')) [ inl e ↦ rw e refl | inr e ↦ rw e refl ]

abbrev level_375 : ℕ → List Bytes → Level
level_375 max_x rows = record {
  id = 19;
  max_y = length rows;
  max_x = max_x;
  size = length rows * max_x;
  area = tiles_of 0 rows;
  name = codes "375" ++ 0 ∷ [];
}

s_levels_init-written :
    (conf : Lookup) (gen : Gen) (max_x : ℕ) (rows : List Bytes)
    → conf_ival conf (codes "level_height") ≡ ok (pos (length rows))
    → conf_ival conf (codes "level_width") ≡ ok (pos max_x)
    → gen (pos max_x) (pos (length rows)) ≡ some (printed rows, true)
    → All (Row max_x) rows
    → max_x < 2 ^ 16
    → length rows < 2 ^ 16
    → length rows * max_x < 2 ^ 31
    → s_levels_init conf gen 0 ≡ ok (written (level_375 max_x rows), 1)
unfolding s_levels_init
s_levels_init-written conf gen max_x rows height width prints wide hx hy h =
    let x : uint16 (pos max_x) ≡ max_x = omega arith in
    let y : uint16 (pos (length rows)) ≡ length rows = omega arith in
    let small : leb (2 ^ 31) (length rows * max_x) ≡ false = ground arith in
    let fits = ap₂ (λ h w. leb (2 ^ 31) (h * w)) y x ∙ small in
    let placed =
      ap₂ (λ h w. place_all w (printed rows) 0 0 (replicate (h * w) none)) y x
      ∙ place_all-rows max_x 0 (length rows * max_x) rows [] wide (omega arith) refl hx
          (omega arith) (omega arith) in
    let level : ℕ → ℕ → NewLevel =
      λ h w. record (written (level_375 max_x rows)) { max_y = h; max_x = w; size = h * w } in
    rw (height, width, fits, prints, placed) (ap₂ (λ h w. ok (level h w, 1)) y x)

-- For a generator that prints, for the width and the height of the configuration, rows of that
-- width without newlines in them, as many as the height, each followed by a newline, where the two
-- numbers fit in 16 bits and their product in an int: `s_levels_init` makes one level, of that
-- height, width and size. When a server with this level sends the area to a player who has a
-- connection, and `c_area_update` takes the block into a client's area of that size, each place has
-- one tile there, with nothing under it and its position: a green tree where the character in its
-- row and column is `^`, and else the floor in black.
pub s_levels_init-c_area_update :
    (conf : Lookup) (gen : Gen) (max_x : ℕ) (rows : List Bytes) (w : World) (id a : ℕ) (p : Player)
    (cells : List Cell) (y x ch : ℕ) (row : Bytes)
    → conf_ival conf (codes "level_height") ≡ ok (pos (length rows))
    → conf_ival conf (codes "level_width") ≡ ok (pos max_x)
    → gen (pos max_x) (pos (length rows)) ≡ some (printed rows, true)
    → All (Row max_x) rows
    → max_x < 2 ^ 16
    → length rows < 2 ^ 16
    → length rows * max_x < 2 ^ 31
    → get_elem? w.players id ≡ some p
    → p.connection ≡ some a
    → length cells ≡ length rows * max_x
    → get_elem? rows y ≡ some row
    → get_elem? row x ≡ some ch
    → (l : Level) × (b : TileBlock) × (seen : List Cell) × (s_levels_init conf gen 0
        ≡ ok (written l, 1))
      × (s_area_send (record w { levels = l ∷ [] }) 0 id
          ≡ enqueue
              (record w { levels = l ∷ [] })
              a
              (message put_area (tile_size * b.count + 8) (area b)))
      × (c_area_update l.max_x (b ∷ []) cells ≡ ok seen)
      × (get_elem? seen (y * max_x + x) ≡ some (single (drawn (ch == b'^') y x)))
      × (l.max_y ≡ length rows)
      × (l.max_x ≡ max_x)
      × (l.size ≡ length rows * max_x)
s_levels_init-c_area_update conf gen max_x rows w id a p cells y x ch row height width prints wide
      hx hy h at conn size in_row in_column =
    let l = level_375 max_x rows in
    let long = length-tiles_of max_x 0 rows wide in
    let (b, sent, taken) =
      s_area_send-c_area_update (record w { levels = l ∷ [] }) 0 id a p l cells refl at conn long
        (tiles_of-Placed max_x 0 0 rows wide (omega arith) (omega arith)) (size ∙ sym long) in
    let tile =
      get_elem?-tiles_of max_x 0 y x rows wide in_row in_column
      ∙ ap (λ k. some (tile_of ch k x)) (omega arith) in
    (
      l,
      b,
      map single l.area,
      s_levels_init-written conf gen max_x rows height width prints wide hx hy h,
      sent,
      taken,
      get_elem?-map-single l.area (y * max_x + x) tile
          ∙ ap (λ t. some (single t)) (tile_of-drawn ch y x),
      refl,
      refl,
      refl,
    )

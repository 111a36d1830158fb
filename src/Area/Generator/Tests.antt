-- ===== src/Area/Generator/Tests.antt =====
-- A level of two rows, and what a client has of it.
use itmmorgue.Base.{
  ◌+◌, ◌*◌, ◌≡◌, refl, arith, none, some, true, List, [], ◌∷◌, ◌==◌, if◌then◌else◌, ok, Bytes,
  codes, length, All, get_elem?, replicate,
}
use itmmorgue.Config.Values.{ival, pos}
use itmmorgue.Config.Entries.{Lookup}
use itmmorgue.Level.{Level, TileBlock}
use itmmorgue.Protocol.Types.{put_area}
use itmmorgue.Player.{Player}
use itmmorgue.Event.{no_event}
use itmmorgue.World.{World, area, enqueue, message}
use itmmorgue.Server.Send.{s_area_send, tile_size}
use itmmorgue.Area.{Cell, blank, c_area_update}
use itmmorgue.Area.Copy.{single}
use itmmorgue.Area.Generator.{Gen, s_levels_init}
use itmmorgue.Area.Generator.Tiles.{Row, printed}
use itmmorgue.Area.Generator.Seen.{written, drawn, s_levels_init-c_area_update}

-- The option for the height has the longer name.
abbrev sizes : Lookup
sizes key = if length key == 12 then ok (ival (pos 2)) else ok (ival (pos 3))

abbrev trees : List Bytes
trees = codes ".^." ∷ codes "^.." ∷ []

abbrev prints_trees : Gen
prints_trees width height = some (printed trees, true)

abbrev visitor : Player
visitor = record {
  color = 9;
  y = 0;
  x = 0;
  nickname = replicate 32 0;
  ready = 1;
  connected = 1;
  start = 1;
  connection = some 1000;
  ev_queue = no_event;
}

abbrev started : World
started = record {
  roster = record {
    players = replicate 5 visitor;
    players_len = 1;
    player_self = 0;
    players_total = 1;
  };
  start = 1;
  connections = λ a. none;
  first_connection = none;
  last_connection = none;
  schat = record { size = 1; string = [] };
  levels = [];
}

trees-Row : All (Row 3) trees
trees-Row = (
  (refl, ((λ e. omega arith), ((λ e. omega arith), ((λ e. omega arith), tt)))),
  ((refl, ((λ e. omega arith), ((λ e. omega arith), ((λ e. omega arith), tt)))), tt),
)

s_levels_init-c_area_update_example :
    (l : Level) × (b : TileBlock) × (seen : List Cell) × (s_levels_init sizes prints_trees 0
      ≡ ok (written l, 1))
    × (s_area_send (record started { levels = l ∷ [] }) 0 0
        ≡ enqueue
            (record started { levels = l ∷ [] })
            1000
            (message put_area (tile_size * b.count + 8) (area b)))
    × (c_area_update l.max_x (b ∷ []) (replicate 6 blank) ≡ ok seen)
    × (get_elem? seen (1 * 3 + 0) ≡ some (single (drawn true 1 0)))
    × (l.max_y ≡ 2)
    × (l.max_x ≡ 3)
    × (l.size ≡ 2 * 3)
s_levels_init-c_area_update_example =
    s_levels_init-c_area_update sizes prints_trees 3 trees started 0 1000 visitor
      (replicate 6 blank) 1 0 94 (codes "^..") refl refl refl trees-Row (omega arith) (omega arith)
      (omega arith) refl refl refl refl refl

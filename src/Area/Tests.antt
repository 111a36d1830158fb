-- ===== src/Area/Tests.antt =====
-- A level of two tiles, and the theorem about the area at it.
use itmmorgue.Base.{◌≡◌, ◌+◌, ◌*◌, refl, none, some, [], ◌∷◌, ok, map, List, replicate}
use itmmorgue.Protocol.Types.{put_area}
use itmmorgue.Player.{Player}
use itmmorgue.Event.{no_event}
use itmmorgue.Level.{TileBlock, Level, lvltilepos}
use itmmorgue.World.{World, area, enqueue, message}
use itmmorgue.Server.Send.{s_area_send, tile_size}
use itmmorgue.Area.{Cell, blank, c_area_update}
use itmmorgue.Area.Copy.{Placed, single, s_area_send-c_area_update}

abbrev strip : Level
strip = record {
  id = 19;
  max_y = 1;
  max_x = 2;
  size = 2;
  area =
      record { top = 1; color = 13; y = 0; x = 0 }
      ∷ record { top = 4; color = 11; y = 0; x = 1 }
      ∷ [];
  name = [];
}

abbrev watcher : Player
watcher = record {
  color = 9;
  y = 0;
  x = 0;
  nickname = replicate 32 0;
  ready = 1;
  connected = 1;
  start = 1;
  connection = some 1000;
  ev_queue = no_event;
}

abbrev playing : World
playing = record {
  roster = record {
    players = replicate 5 watcher;
    players_len = 1;
    player_self = 0;
    players_total = 1;
  };
  start = 1;
  connections = λ a. none;
  first_connection = none;
  last_connection = none;
  schat = record { size = 1; string = [] };
  levels = strip ∷ [];
}

-- The client had two tiles on one another in its second cell.
abbrev seen : List Cell
seen =
    blank
    ∷ record {
      tile = record { top = 2; color = 3; y = 0; x = 1 };
      underlying = record { top = 1; color = 3; y = 0; x = 1 } ∷ [];
    }
    ∷ []

strip-Placed : Placed 2 0 strip.area
unfolding lvltilepos
strip-Placed = (refl, (refl, tt))

s_area_send-c_area_update_example :
    (b : TileBlock) × (s_area_send playing 0 0
      ≡ enqueue playing 1000 (message put_area (tile_size * b.count + 8) (area b)))
    × (c_area_update 2 (b ∷ []) seen ≡ ok (map single strip.area))
s_area_send-c_area_update_example =
    s_area_send-c_area_update playing 0 0 1000 watcher strip seen refl refl refl refl strip-Placed
      refl

-- ===== src/Server/TurnTests.antt =====
-- A turn of a server with one player, who moves to the right, and the theorem about a turn at it.
use itmmorgue.Base.{
  ℕ, zero, suc, ◌-◌, ◌^◌, ◌≡◌, ◌<◌, refl, none, some, List, [], ◌∷◌, ◌++◌, arith, ◌==◌,
  if◌then◌else◌, ok, replicate, codes, get_elem?,
}
use itmmorgue.Protocol.Types.{Mbuf, put_chat, protocol_version}
use itmmorgue.Protocol.Mqueue.{Mqueue}
use itmmorgue.Player.{Player, ev_move}
use itmmorgue.Event.Turn.{Ready}
use itmmorgue.Event.Loop.{event_loop}
use itmmorgue.World.{World, Connection, Payload, text}
use itmmorgue.Protocol.Wire.{Written, wrote}
use itmmorgue.Server.Client.{drain}
use itmmorgue.Server.Queues.{Queued, OnlyQueue}
use itmmorgue.Server.Drain.{drain-Queued}
use itmmorgue.Server.Turn.{Listens, Apart, Played, event_loop-Played}

abbrev mover : Player
mover = record {
  color = 9;
  y = 8;
  x = 65535;
  nickname = codes "Ada" ++ replicate 29 0;
  ready = 1;
  connected = 1;
  start = 0;
  connection = some 1000;
  ev_queue = record {
    event = ev_move;
    event_args = some (record { direction = 5; player_id = 0 });
  };
}

abbrev empty_queue : Mqueue Payload
empty_queue = record { buf = replicate 128 none; start_position = 0; size = 0 }

abbrev link_of_mover : Connection
link_of_mover = record {
  socket = 5;
  sysmsg_mask = 2 ^ 32 - 1;
  mqueueptr = some empty_queue;
  prev = none;
  next = none;
}

abbrev one_player : World
one_player = record {
  roster = record {
    players = replicate 5 mover;
    players_len = 1;
    player_self = 0;
    players_total = 1;
  };
  start = 2;
  connections = λ a. if a == 1000 then some link_of_mover else none;
  first_connection = some 1000;
  last_connection = some 1000;
  schat = record { size = 2; string = [] };
  levels = [];
}

abbrev at_1000 : ℕ → ℕ
at_1000 j = 1000

abbrev nothing_waits : ℕ → List (Mbuf Payload)
nothing_waits j = []

one_player-Apart : Apart at_1000 nothing_waits 1 0
one_player-Apart j k a b c d ne = absurd (ne (omega arith))

one_player-Ready : (j : ℕ) → j < 1 → Ready j (get_elem? one_player.players j)
one_player-Ready zero lt =
    ((refl, (omega arith, omega arith)), record { y_in = omega arith; x_in = omega arith })
one_player-Ready (suc j) lt = absurd (omega arith)

one_player-Listens : (j : ℕ) → j < 1 → Listens at_1000 nothing_waits one_player j
one_player-Listens zero lt = record {
  player = mover;
  at = refl;
  connected = λ e. omega arith;
  connection = refl;
  queued = record {
    connection = link_of_mover;
    at = refl;
    queue = empty_queue;
    queue_is = refl;
    holds = record {
      storage = refl;
      start_in = omega arith;
      counted = refl;
      fits = omega arith;
      slots = refl;
    };
  };
  room = omega arith;
}
one_player-Listens (suc j) lt = absurd (omega arith)

event_loop-Played_example :
    (w' : World) × (event_loop one_player ≡ ok w') × Played at_1000 nothing_waits one_player w'
event_loop-Played_example =
    event_loop-Played at_1000 nothing_waits one_player (λ e. omega arith) (omega arith)
      (omega arith) (λ e. omega arith) one_player-Apart one_player-Ready one_player-Listens

-- One message waits for the player.
abbrev greeting : Mbuf Payload
greeting = record {
  type = put_chat;
  version = protocol_version;
  size = 3;
  payload = text (codes "hi" ++ 0 ∷ []);
}

abbrev greeted_queue : Mqueue Payload
greeted_queue = record { buf = some greeting ∷ replicate 127 none; start_position = 0; size = 1 }

abbrev greeted_link : Connection
greeted_link = record link_of_mover { mqueueptr = some greeted_queue }

abbrev greeted : World
greeted = record one_player { connections = λ a. if a == 1000 then some greeted_link else none }

abbrev two_bytes : Mbuf Payload → Written
two_bytes m = wrote 2

greeted-Queued : Queued greeted 1000 (greeting ∷ [])
greeted-Queued = record {
  connection = greeted_link;
  at = refl;
  queue = greeted_queue;
  queue_is = refl;
  holds = record {
    storage = refl;
    start_in = omega arith;
    counted = refl;
    fits = omega arith;
    slots = refl;
  };
}

drain-Queued_example :
    (w' : World) × (drain 2 two_bytes greeted 1000 ≡ ok (greeting ∷ [], w'))
    × Queued w' 1000 []
    × OnlyQueue greeted w' 1000
drain-Queued_example =
    drain-Queued two_bytes (λ m e. ground arith) 2 greeted 1000 (greeting ∷ []) (omega arith)
      greeted-Queued

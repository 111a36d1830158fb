-- ===== src/Server/Tests.antt =====
-- A server with two clients, at the addresses 1000 and 2000, and the server's theorems at it.
use itmmorgue.Base.{
  ℕ, ◌-◌, ◌^◌, ◌≡◌, refl, inl, Option, none, some, [], ◌∷◌, ◌++◌, arith, ◌==◌, if◌then◌else◌, ok,
  Result, replicate, get_elem?, codes, take,
}
use itmmorgue.Protocol.Types.{put_players_full, new_chat}
use itmmorgue.Protocol.Fifo.{stamp}
use itmmorgue.Protocol.Mqueue.{Mqueue}
use itmmorgue.Protocol.Mqueue.Inv.{Holds}
use itmmorgue.Player.{Player, Roster, max_players}
use itmmorgue.Player.Receive.{PlayersFull, Taken, c_receive_players_full}
use itmmorgue.Event.{no_event}
use itmmorgue.World.{World, Connection, Payload, message, players_full}
use itmmorgue.Server.Send.{s_send_players_full, players_full_size}
use itmmorgue.Server.Connections.{accept_client, close_connection, for_each}
use itmmorgue.Server.Handle.{Incoming, handle_new_chat}
use itmmorgue.Server.Chain.Segment.{nil, node, Chain}
use itmmorgue.Server.Chain.Close.{Closed, close_connection-Closed}
use itmmorgue.Server.Chain.Link.{Linked, after_accept, accept_client-Linked}
use itmmorgue.Server.Chain.Walk.{run_over, KeepsLinks, for_each-run_over}
use itmmorgue.Server.Queues.{Queued, OnlyQueue}
use itmmorgue.Server.Snapshot.{
  s_send_players_full-c_receive_players_full, s_send_players_full_ignored,
}
use itmmorgue.Server.Broadcast.{Broadcast, handle_new_chat-Broadcast}

abbrev empty_queue : Mqueue Payload
empty_queue = record { buf = replicate 128 none; start_position = 0; size = 0 }

empty_queue-Holds : Holds empty_queue []
empty_queue-Holds = record {
  storage = refl;
  start_in = omega arith;
  counted = refl;
  fits = omega arith;
  slots = refl;
}

abbrev player_of : Option ℕ → Player
player_of c = record {
  color = 9;
  y = 8;
  x = 48;
  nickname = codes "Ada" ++ replicate 29 0;
  ready = 0;
  connected = 1;
  start = 0;
  connection = c;
  ev_queue = no_event;
}

abbrev first : Connection
first = record {
  socket = 5;
  sysmsg_mask = 2 ^ 32 - 1;
  mqueueptr = some empty_queue;
  prev = none;
  next = some 2000;
}

abbrev second : Connection
second = record {
  socket = 6;
  sysmsg_mask = 2 ^ 32 - 1;
  mqueueptr = some empty_queue;
  prev = some 1000;
  next = none;
}

abbrev heap : ℕ → Option Connection
heap a = if a == 1000 then some first else if a == 2000 then some second else none

abbrev two_players : Roster
two_players = record {
  players = player_of (some 1000) ∷ player_of (some 2000) ∷ replicate 3 (player_of none);
  players_len = 2;
  player_self = 0;
  players_total = 2;
}

abbrev in_phase : ℕ → World
in_phase start = record {
  roster = two_players;
  start = start;
  connections = heap;
  first_connection = some 1000;
  last_connection = some 2000;
  schat = record { size = 1; string = [] };
  levels = [];
}

abbrev two_clients : World
two_clients = in_phase 0

two_clients-Chain : Chain two_clients (1000 ∷ 2000 ∷ [])
two_clients-Chain = record {
  linked = node refl refl (node refl refl (nil refl refl));
  distinct = ((λ e. omega arith, tt), (tt, tt));
}

queued :
    (c : Connection)
    → c.mqueueptr ≡ some empty_queue
    → (a : ℕ) → heap a ≡ some c
    → Queued two_clients a []
queued c e a at = record {
  connection = c;
  at = at;
  queue = empty_queue;
  queue_is = e;
  holds = empty_queue-Holds;
}

close_connection-Closed_example :
    (w' : World) × (close_connection two_clients (some 1000) ≡ ok w')
    × Closed two_clients w' 1000 (2000 ∷ [])
close_connection-Closed_example =
    close_connection-Closed two_clients [] 1000 (2000 ∷ []) two_clients-Chain

accept_client-Linked_example :
    (w' : World) × (accept_client two_clients 3000 7 ≡ ok w')
    × Linked (after_accept two_clients) w' 3000 7 (1000 ∷ 2000 ∷ [])
accept_client-Linked_example =
    accept_client-Linked two_clients 3000 7 (1000 ∷ 2000 ∷ []) refl two_clients-Chain (inl refl)

abbrev idle : World → ℕ → Result World
idle w a = ok w

idle-KeepsLinks : KeepsLinks idle
idle-KeepsLinks w a w' e b = ground arith

for_each-run_over_example :
    for_each 3 idle (some 1000) two_clients ≡ run_over idle (1000 ∷ 2000 ∷ []) two_clients
for_each-run_over_example =
    for_each-run_over idle idle-KeepsLinks 3 two_clients (1000 ∷ 2000 ∷ []) (omega arith)
      two_clients-Chain

abbrev no_players : Roster
no_players = record {
  players = replicate 5 (player_of none);
  players_len = 0;
  player_self = 0;
  players_total = 0;
}

s_send_players_full-c_receive_players_full_example :
    (w' : World) × (m : PlayersFull) × (r' : Roster) × (s_send_players_full two_clients 1 ≡ ok w')
    × Queued w' 2000 (stamp (message put_players_full players_full_size (players_full m)) ∷ [])
    × OnlyQueue two_clients w' 2000
    × (c_receive_players_full no_players (some m) ≡ ok r')
    × Taken 1 2 (λ j. get_elem? two_clients.players j) no_players r'
s_send_players_full-c_receive_players_full_example =
    s_send_players_full-c_receive_players_full two_clients 1 2000 (player_of (some 2000)) []
      no_players refl (λ e. omega arith) refl (queued second refl 2000 refl) (omega arith) refl refl
      (omega arith) (refl, (refl, tt))

abbrev five_players : World
five_players = record two_clients {
  roster = record {
    players = replicate 5 (player_of (some 1000));
    players_len = 5;
    player_self = 0;
    players_total = 5;
  };
}

five_queued : Queued five_players 1000 []
five_queued = record {
  connection = first;
  at = refl;
  queue = empty_queue;
  queue_is = refl;
  holds = empty_queue-Holds;
}

s_send_players_full_ignored_example :
    (w' : World) × (m : PlayersFull) × (s_send_players_full five_players 0 ≡ ok w')
    × Queued w' 1000 (stamp (message put_players_full players_full_size (players_full m)) ∷ [])
    × OnlyQueue five_players w' 1000
    × (m.players_len ≡ max_players)
    × (m.players ≡ take max_players five_players.players)
    × (c_receive_players_full no_players (some m) ≡ ok no_players)
s_send_players_full_ignored_example =
    s_send_players_full_ignored five_players 0 1000 (player_of (some 1000)) [] no_players refl
      (λ e. omega arith) refl five_queued (omega arith) refl

abbrev says_hi : Incoming
says_hi = record { type = new_chat; size = 3; payload = codes "hi" ++ 0 ∷ [] }

handle_new_chat-Broadcast_example :
    (w' : World) × (handle_new_chat 3 two_clients (record { id = 0; connection = 1000 }) says_hi
      ≡ ok w')
    × Broadcast two_clients w' (λ a. []) (codes "hi") (1000 ∷ 2000 ∷ [])
handle_new_chat-Broadcast_example =
    handle_new_chat-Broadcast 3 two_clients (1000 ∷ 2000 ∷ []) (λ a. []) (codes "hi")
      (record { id = 0; connection = 1000 }) says_hi refl refl (omega arith) (omega arith)
      two_clients-Chain
      (
        (queued first refl 1000 refl, omega arith),
        ((queued second refl 2000 refl, omega arith), tt),
      )

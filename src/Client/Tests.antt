-- ===== src/Client/Tests.antt =====
-- A client that is connected to a server with one player in a running game, and the theorems about what it
-- sends.
use itmmorgue.Base.{
  ℕ, ◌-◌, ◌^◌, ◌≡◌, refl, false, none, some, List, [], ◌∷◌, ◌++◌, arith, ◌==◌, if◌then◌else◌, ok,
  replicate, codes, get_elem?, map,
}
use itmmorgue.Protocol.Types.{Mbuf}
use itmmorgue.Protocol.Mqueue.{Mqueue}
use itmmorgue.Protocol.Mqueue.Inv.{Holds}
use itmmorgue.Event.{no_event}
use itmmorgue.Player.{Player}
use itmmorgue.Config.Values.{pos}
use itmmorgue.Keyboard.Defaults.{bound_keys}
use itmmorgue.Chat.Input.{Input, send_line}
use itmmorgue.Chat.Erase.{HoldsText}
use itmmorgue.World.{World, Connection, Payload}
use itmmorgue.Server.Client.{Client}
use itmmorgue.Server.Round.{handle}
use itmmorgue.Server.Reading.Arrives.{IsSendable}
use itmmorgue.Server.Accepted.{with_move}
use itmmorgue.Server.Chain.Segment.{nil, node}
use itmmorgue.Server.Broadcast.{Broadcast}
use itmmorgue.Client.{c_send_move, send_all}
use itmmorgue.Client.Keys.{action_of, first_match, send_move, open_menu, quit, no_action}
use itmmorgue.Server.Reading.{arrived}
use itmmorgue.Client.Arrive.{c_send_move-handle}
use itmmorgue.Client.Chatting.{line_of, send_line-Broadcast}

abbrev walker : Player
walker = record {
  color = 9;
  y = 8;
  x = 48;
  nickname = codes "Ada" ++ replicate 29 0;
  ready = 1;
  connected = 1;
  start = 0;
  connection = some 1000;
  ev_queue = no_event;
}

abbrev waiting_queue : Mqueue Payload
waiting_queue = record { buf = replicate 128 none; start_position = 0; size = 0 }

abbrev link_of_walker : Connection
link_of_walker = record {
  socket = 5;
  sysmsg_mask = 2 ^ 32 - 1;
  mqueueptr = some waiting_queue;
  prev = none;
  next = none;
}

abbrev running : World
running = record {
  roster = record { players = walker ∷ []; players_len = 1; player_self = 0; players_total = 1 };
  start = 2;
  connections = λ a. if a == 1000 then some link_of_walker else none;
  first_connection = some 1000;
  last_connection = some 1000;
  schat = record { size = 1; string = [] };
  levels = [];
}

abbrev me : Client
me = record { id = 0; connection = 1000 }

-- The client's own queue, with nothing in it.
abbrev own_queue : Mqueue (List ℕ)
own_queue = record { buf = replicate 128 none; start_position = 0; size = 0 }

own_queue-Holds : Holds own_queue []
own_queue-Holds = record {
  storage = refl;
  start_in = omega arith;
  counted = refl;
  fits = omega arith;
  slots = refl;
}

c_send_move-handle_example :
    (q₁ : Mqueue (List ℕ)) × (q₂ : Mqueue (List ℕ)) × (m : Mbuf (List ℕ)) × (w' : World)
    × (c_send_move own_queue 6 ≡ ok q₁)
    × (send_all 9 (λ m. false) q₁ ≡ ok ([] ++ m ∷ [], q₂))
    × Holds q₂ []
    × (handle 3 running me (arrived m) ≡ ok (w', some me))
    × (get_elem? w'.players 0 ≡ some (with_move walker 6 0))
c_send_move-handle_example =
    c_send_move-handle own_queue [] (λ m. false) 9 3 running me 6 walker own_queue-Holds
      (omega arith) (λ m. refl) (omega arith) (omega arith) (omega arith) (λ e. omega arith) refl
      refl

abbrev typed_hi : Input
typed_hi = record { input = codes "Hi" ++ replicate 256 0; inputpos = 2; scrolloff = 0 }

send_line-Broadcast_example :
    (q' : Mqueue (List ℕ)) × (i' : Input) × (m : Mbuf (List ℕ)) × (w' : World) × (send_line
        (codes "Ada")
        own_queue
        typed_hi
      ≡ ok (q', i'))
    × Holds q' ([] ++ m ∷ [])
    × HoldsText i' []
    × IsSendable m
    × (handle 3 running me (arrived m) ≡ ok (w', some me))
    × Broadcast running w' (λ a. []) (line_of (codes "Ada") (codes "Hi")) (1000 ∷ [])
send_line-Broadcast_example =
    send_line-Broadcast (codes "Ada") own_queue [] typed_hi (codes "Hi")
      (λ e. omega arith, (λ e. omega arith, (λ e. omega arith, tt))) own_queue-Holds (omega arith)
      (record {
        rest = replicate 255 0;
        array_is = refl;
        size_is = refl;
        pos_is = refl;
        no_nul = (λ e. omega arith, (λ e. omega arith, tt));
      })
      (λ e. omega arith) (omega arith) 3 running (1000 ∷ []) (λ a. []) me (λ e. omega arith)
      (omega arith) (omega arith)
      (record { linked = node refl refl (nil refl refl); distinct = (tt, tt) })
      (
        (
          record {
            connection = link_of_walker;
            at = refl;
            queue = waiting_queue;
            queue_is = refl;
            holds = record {
              storage = refl;
              start_in = omega arith;
              counted = refl;
              fits = omega arith;
              slots = refl;
            };
          },
          omega arith,
        ),
        tt,
      )

-- The keys of the numeric pad move by default, and the others open the windows.
default_actions :
    (action_of (map pos bound_keys) (pos b'8') ≡ ok (send_move 6))
    × (action_of (map pos bound_keys) (pos b'3') ≡ ok (send_move 11))
    × (action_of (map pos bound_keys) (pos b'm') ≡ ok open_menu)
    × (action_of (map pos bound_keys) (pos b'q') ≡ ok quit)
    × (action_of (map pos bound_keys) (pos b'5') ≡ ok no_action)
unfolding action_of first_match
default_actions = (refl, refl, refl, refl, refl)

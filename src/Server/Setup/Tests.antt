-- ===== src/Server/Setup/Tests.antt =====
-- The start of the server, with the first client's thread.
use itmmorgue.Base.{
  ◌++◌, Bytes, ℕ, arith, ◌≤◌, ◌≡◌, ◌-◌, ◌^◌, some, List, refl, none, [], ◌∷◌, Result, ok, stop,
  ◌>>=◌, replicate,
}
use itmmorgue.Protocol.Types.{get_chat, Mbuf}
use itmmorgue.Protocol.Mqueue.{Mqueue, mqueue_init}
use itmmorgue.Player.{Roster, player_at, player_init, strncpy, max_players}
use itmmorgue.Event.{apply_from}
use itmmorgue.Level.{Level}
use itmmorgue.World.{World, Payload, connection_at}
use itmmorgue.Server.Connections.{accept_client, link}
use itmmorgue.Protocol.Wire.{Written, wrote}
use itmmorgue.Server.Client.{Client, start_client, drain}
use itmmorgue.Server.System.Listed.{Listed}
use itmmorgue.Server.System.Run.{here, next, accepts, begins}
use itmmorgue.Server.Setup.{first_world}
use itmmorgue.Server.Setup.Runs.{first_world-Reach}
use itmmorgue.Server.System.Turns.{Bounded}
use itmmorgue.Server.Thread.{readable, process_round}
use itmmorgue.Server.Thread.Arrives.{process_round-Sent}
use itmmorgue.Server.Queues.{Queued, OnlyQueue}
use itmmorgue.Server.Round.{handle}
use itmmorgue.Server.Reading.{arrived}
use itmmorgue.Server.Reading.Arrives.{Sent}
use itmmorgue.Protocol.Wire.{send_mbuf, header, type_number}
use itmmorgue.Util.Reading.{chunks}

abbrev cell : Level
cell = record {
  id = 19;
  max_y = 1;
  max_x = 1;
  size = 1;
  area = record { top = 1; color = 13; y = 0; x = 0 } ∷ [];
  name = [];
}

-- The first client's thread has begun.
abbrev begun_of : Result (World × Client) → World
begun_of (ok r) = r.0
begun_of (stop e) = first_world cell

unfoldable one_begun : World
unfolding accept_client
one_begun = begun_of (accept_client (first_world cell) 7 3 >>= λ w. start_client w 7)

abbrev first_queue : Mqueue Payload
first_queue = record { buf = replicate 128 none; start_position = 0; size = 0 }

first_world-Reach_example :
    Listed one_begun
    × (one_begun.players_len ≤ max_players)
    × ((r : Roster) × (apply_from one_begun.players_len 0 one_begun.roster ≡ ok r))
    × ((a : ℕ) → Bounded (one_begun.connections a))
unfolding one_begun accept_client link start_client player_init connection_at player_at strncpy
    mqueue_init
first_world-Reach_example =
    first_world-Reach cell (next (next here (accepts 7 3 refl refl)) (begins 7 refl))

abbrev silent : Mbuf Payload → Written
silent m = wrote 0

abbrev first_client : Client
first_client = record { id = 0; connection = 7 }

abbrev asks_chat : Mbuf Bytes
asks_chat = record { type = get_chat; version = 2; size = 0; payload = [] }

-- Its header, in two pieces.
abbrev asks_pieces : List (ℕ × Bytes)
asks_pieces = (6, 0 ∷ 0 ∷ []) ∷ (0, 2 ∷ replicate 11 0) ∷ []

asks_chat-Sent : Sent asks_chat (chunks asks_pieces ++ [])
unfolding send_mbuf header type_number
asks_chat-Sent = record {
  first = asks_pieces;
  second = [];
  answers_are = refl;
  written = refl;
  first_size = refl;
}

process_round-Sent_example :
    (w' : World) × (drain 1 silent one_begun 7 ≡ ok ([], w'))
    × Queued w' 7 []
    × OnlyQueue one_begun w' 7
    × (process_round 1 silent one_begun first_client readable ((chunks asks_pieces ++ []) ++ [])
        ≡ (handle 1 w' first_client (arrived asks_chat) >>= λ left. ok (left, [])))
unfolding one_begun accept_client link start_client player_init connection_at player_at strncpy
    mqueue_init
process_round-Sent_example =
    process_round-Sent 1 silent one_begun first_client [] asks_chat (chunks asks_pieces ++ []) []
      (λ m e. absurd (cc e)) (omega arith)
      (record {
        connection = record {
          socket = 3;
          sysmsg_mask = 2 ^ 32 - 1;
          mqueueptr = some first_queue;
          prev = none;
          next = none;
        };
        at = refl;
        queue = first_queue;
        queue_is = refl;
        holds = record {
          storage = refl;
          start_in = omega arith;
          counted = refl;
          fits = omega arith;
          slots = refl;
        };
      })
      (_, refl, refl) (record { known = refl; sized = refl; small = omega arith }) asks_chat-Sent

-- ===== src/Client/WireTests.antt =====
-- One move in the client's queue, and how it goes over the wire.
use itmmorgue.Base.{
  ℕ, ◌≡◌, refl, false, none, some, List, [], ◌∷◌, ◌++◌, arith, ok, replicate, Bytes, set,
}
use itmmorgue.Protocol.Types.{Mbuf, move_player}
use itmmorgue.Protocol.Mqueue.{Mqueue}
use itmmorgue.Protocol.Mqueue.Inv.{Holds}
use itmmorgue.Protocol.Wire.{header, send_mbuf, type_number}
use itmmorgue.Util.{no_more}
use itmmorgue.Util.Reading.{chunks}
use itmmorgue.Server.Reading.{read_messages}
use itmmorgue.Server.Reading.Arrives.{AllSent, Sent, taken}
use itmmorgue.Client.{send_all}
use itmmorgue.Client.Delivered.{send_all-read_messages}

abbrev move_up : Mbuf Bytes
move_up = record { type = move_player; version = 2; size = 4; payload = 6 ∷ 0 ∷ 0 ∷ 0 ∷ [] }

abbrev one_waits : Mqueue Bytes
one_waits = record { buf = set (replicate 128 none) 0 (some move_up); start_position = 0; size = 1 }

one_waits-Holds : Holds one_waits (move_up ∷ [])
one_waits-Holds = record {
  storage = refl;
  start_in = omega arith;
  counted = refl;
  fits = omega arith;
  slots = refl;
}

-- The header comes in two pieces.
abbrev header_pieces : List (ℕ × Bytes)
header_pieces = (13, 0 ∷ 0 ∷ []) ∷ (0, 2 ∷ 0 ∷ 0 ∷ 0 ∷ 4 ∷ 0 ∷ 0 ∷ 0 ∷ 0 ∷ 0 ∷ 0 ∷ 0 ∷ []) ∷ []

abbrev payload_pieces : List (ℕ × Bytes)
payload_pieces = (6, 0 ∷ 0 ∷ 0 ∷ []) ∷ []

move_up-Sent : Sent move_up (chunks header_pieces ++ chunks payload_pieces)
unfolding send_mbuf header type_number
move_up-Sent = record {
  first = header_pieces;
  second = payload_pieces;
  answers_are = refl;
  written = refl;
  first_size = refl;
}

one_waits-AllSent : AllSent (move_up ∷ []) (chunks header_pieces ++ chunks payload_pieces)
one_waits-AllSent = (
  chunks header_pieces ++ chunks payload_pieces,
  [],
  refl,
  record { known = refl; sized = refl; small = omega arith },
  move_up-Sent,
  refl,
)

send_all-read_messages_example :
    (q' : Mqueue Bytes) × (send_all 9 (λ m. false) one_waits ≡ ok (move_up ∷ [], q'))
    × Holds q' []
    × (read_messages 1 ((chunks header_pieces ++ chunks payload_pieces) ++ no_more ∷ [])
        ≡ ok (taken (move_up ∷ []), no_more ∷ []))
send_all-read_messages_example =
    send_all-read_messages 9 (λ m. false) one_waits (move_up ∷ [])
      (chunks header_pieces ++ chunks payload_pieces) (no_more ∷ []) (λ m. refl) (omega arith)
      one_waits-Holds one_waits-AllSent

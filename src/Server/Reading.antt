-- ===== src/Server/Reading.antt =====
-- How `process_client` of src/server.c reads a message from its socket.
pub mod Arrives
use itmmorgue.Base.{
  ℕ, Bool, true, false, Option, none, some, ◌==◌, if◌then◌else◌, Result, ok, stop, undefined, ◌>>=◌,
  List, [], Bytes, take, drop, get_elem?, out_of_fuel, zero, suc, ◌∷◌,
}
use itmmorgue.Protocol.Types.{Mbuf, MsgType}
use itmmorgue.Protocol.Wire.{number_of, msg_types}
use itmmorgue.Util.{Chunk, ReadAll, read_failed, read_all, readall}
use itmmorgue.Server.Handle.{Incoming}
use itmmorgue.Server.Round.{is_known}

-- The client is gone, its message is skipped, or it has one.
pub data Received : Type 0 where
  lost : Received
  skipped : Received
  received : Incoming → Received

-- A message as it comes in.
abbrev pub arrived : Mbuf Bytes → Incoming
arrived m = record { type = m.type; size = m.size; payload = m.payload }

abbrev pub header_size : ℕ
header_size = 16

-- The type of a header, if the server knows it.
abbrev pub if_known : Option MsgType → Option MsgType
if_known none = none
if_known (some t) = if is_known t then some t else none

abbrev pub known_type : Bytes → Option MsgType
known_type h = if_known (get_elem? msg_types (number_of (take 4 h)))

-- The payload behind a header. Where it cannot be read, the code goes on with what the block holds.
unfoldable pub read_payload : List Chunk → MsgType → ℕ → Result (Received × List Chunk)
read_payload answers t size =
    if size == 0 then ok (received (record { type = t; size = 0; payload = [] }), answers) else do
      (r, rest) ← readall answers size
      elim r [
        | read_failed ↦ stop undefined
        | read_all b ↦ ok (received (record { type = t; size = size; payload = b }), rest)
      ]

-- Behind the header. The payload of a message of a type that is not known stays in the socket.
abbrev pub read_known : Option MsgType → Bytes → List Chunk → Result (Received × List Chunk)
read_known none h answers = ok (skipped, answers)
read_known (some t) h answers = read_payload answers t (number_of (drop 8 h))

unfoldable pub read_message : List Chunk → Result (Received × List Chunk)
unfolding read_payload
read_message answers = do
  (r, rest) ← readall answers header_size
  elim r [ read_failed ↦ ok (lost, rest) | read_all h ↦ read_known (known_type h) h rest ]

-- What the next `n` rounds of the loop that find something to read get.
unfoldable pub read_messages : ℕ → List Chunk → Result (List Received × List Chunk)
unfolding read_message
read_messages zero answers = ok ([], answers)
read_messages (suc n) answers = do
  (m, rest) ← read_message answers
  (ms, rest') ← read_messages n rest
  ok (m ∷ ms, rest')

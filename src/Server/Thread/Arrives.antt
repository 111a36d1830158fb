-- ===== src/Server/Thread/Arrives.antt =====
-- A round of `process_client` of src/server.c when a message has come in.
use itmmorgue.Base.{
  ℕ, ◌≡◌, ◌≢◌, ◌<◌, refl, false, some, List, [], ◌++◌, ◌==◌, ◌||◌, ◌&&◌, ltb, ok, length, get_elem?,
  Bytes, ◌>>=◌,
}
use itmmorgue.Protocol.Types.{Mbuf}
use itmmorgue.Protocol.Wire.{Written, wrote}
use itmmorgue.Util.{Chunk}
use itmmorgue.Player.{Player, player_at}
use itmmorgue.World.{World, Payload}
use itmmorgue.Server.Client.{Client, handle_start, drain}
use itmmorgue.Server.Drain.{drain-Queued}
use itmmorgue.Server.Queues.{Queued, OnlyQueue}
use itmmorgue.Server.Round.{handle}
use itmmorgue.Server.Reading.{arrived}
use itmmorgue.Server.Reading.Arrives.{IsSendable, Sent, read_message-sent}
use itmmorgue.Server.Thread.{readable, take_received, process_round}

-- The client's player is not due for the data of the game.
abbrev pub NotDue : World → Client → Type 0
NotDue w c =
    (p : Player) × (get_elem? w.players c.id ≡ some p)
    × (((w.start == 1) || (ltb 0 w.start && (p.start == 1))) ≡ false)

handle_start-NotDue : (w : World) (c : Client) → NotDue w c → handle_start w c ≡ ok w
unfolding handle_start player_at
handle_start-NotDue w c (p, at, not_due) =
    let found : player_at w.roster c.id ≡ ok p = rw at refl in cc (found, not_due)

-- Where the client's player is not due for the game's data, its queue holds messages, no write
-- returns 1, the fuel is above their number, and the answers of read(2) begin with what `send_mbuf`
-- wrote of a message that the server knows, however it is cut: the round first writes what waits,
-- oldest first, which empties that queue and changes nothing else, and then handles exactly that
-- message, and leaves the answers behind it for the next round.
pub process_round-Sent :
    (fuel : ℕ) (send : Mbuf Payload → Written) (w : World) (c : Client) (ms : List (Mbuf Payload))
    (m : Mbuf Bytes) (answers rest : List Chunk)
    → ((m : Mbuf Payload) → send m ≢ wrote 1)
    → length ms < fuel
    → Queued w c.connection ms
    → NotDue w c
    → IsSendable m
    → Sent m answers
    → (w' : World) × (drain fuel send w c.connection ≡ ok (ms, w'))
      × Queued w' c.connection []
      × OnlyQueue w w' c.connection
      × (process_round fuel send w c readable (answers ++ rest)
          ≡ (handle fuel w' c (arrived m) >>= λ left. ok (left, rest)))
unfolding process_round take_received
process_round-Sent fuel send w c ms m answers rest not_one enough q idle sendable sent =
    let (w', drains, q', o) = drain-Queued send not_one fuel w c.connection ms enough q in
    let reads = read_message-sent m answers sendable sent rest in
    (w', drains, q', o, rw (handle_start-NotDue w c idle, drains, reads) refl)

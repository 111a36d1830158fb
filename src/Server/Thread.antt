-- ===== src/Server/Thread.antt =====
-- `process_client` of src/server.c: its rounds, over the bytes that its client sends.
pub mod Arrives
use itmmorgue.Base.{
  ℕ, Option, none, some, List, [], ◌∷◌, Result, ok, stop, panic, ◌>>=◌, client_disconnected,
}
use itmmorgue.Protocol.Types.{Mbuf}
use itmmorgue.Protocol.Wire.{Written}
use itmmorgue.Util.{Chunk}
use itmmorgue.World.{World, Payload}
use itmmorgue.Server.Client.{Client, handle_start, drain}
use itmmorgue.Server.Handle.{Incoming, leave}
use itmmorgue.Server.Round.{handle}
use itmmorgue.Server.Reading.{Received, lost, skipped, received, read_message}

-- What select(2) answers, interruptions aside: -1, 0, or that there is something to read.
pub data Select : Type 0 where
  select_failed nothing readable : Select

module _ (fuel : ℕ) (send : Mbuf Payload → Written) where
  -- What is done with what was read.
  unfoldable pub take_received : World → Client → Received → Result (World × Option Client)
  take_received w c lost = leave w c
  take_received w c skipped = ok (w, some c)
  take_received w c (received m) = handle fuel w c m

  abbrev pub read_round :
      World → Client → Select → List Chunk → Result ((World × Option Client) × List Chunk)
  read_round w c select_failed answers = stop (panic client_disconnected)
  read_round w c nothing answers = ok ((w, some c), answers)
  read_round w c readable answers = do
    (m, rest) ← read_message answers
    left ← take_received w c m
    ok (left, rest)

  -- A round of the loop: what is left of the thread, and of the answers of read(2).
  unfoldable pub process_round :
      World → Client → Select → List Chunk → Result ((World × Option Client) × List Chunk)
  unfolding take_received
  process_round w c select answers = do
    w₁ ← handle_start w c
    (sent, w₂) ← drain fuel send w₁ c.connection
    read_round w₂ c select answers

  -- The rounds for the next answers of select(2), until the thread ends.
  unfoldable pub process_rounds : List Select → World → Client → List Chunk → Result World
  unfolding process_round
  process_rounds [] w c answers = ok w
  process_rounds (select ∷ selects) w c answers = do
    r ← process_round w c select answers
    elim r.0.1 [ none ↦ ok r.0.0 | some c' ↦ process_rounds selects r.0.0 c' r.1 ]

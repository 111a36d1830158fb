-- ===== src/Protocol/Fifo.antt =====
-- What a client of a message queue can ask for and sees, and the queue that it is promised: first in,
-- first out, room for 127 messages, each stamped with the protocol's version.
use itmmorgue.Base.{
  ℕ, Option, none, some, List, [], ◌∷◌, ◌++◌, Result, ok, stop, panic, mqueue_overflow, ◌>>=◌, ◌==◌,
  if◌then◌else◌, length,
}
use itmmorgue.Protocol.Types.{Mbuf, protocol_version}

pub data Op (P : Type 0) : Type 0 where
  put : Mbuf P → Op P
  get : Op P

module _ {P : Type 0} where
  abbrev pub stamp : Mbuf P → Mbuf P
  stamp m = record m { version = protocol_version }

abbrev pub Reply : Type 0 → Type 0
Reply P = Option (Mbuf P)

abbrev pub capacity : ℕ
capacity = 127

module _ {P : Type 0} where
  unfoldable pub fifo_put : List (Mbuf P) → Mbuf P → Result (List (Mbuf P))
  fifo_put xs m =
      if length xs == capacity then stop (panic mqueue_overflow) else ok (xs ++ stamp m ∷ [])

  unfoldable pub fifo_get : List (Mbuf P) → Option (Mbuf P) × List (Mbuf P)
  fifo_get [] = (none, [])
  fifo_get (x ∷ xs) = (some x, xs)

  unfoldable pub fifo_run : List (Mbuf P) → List (Op P) → Result (List (Reply P))
  fifo_run xs [] = ok []
  fifo_run xs (put m ∷ ops) = do ys ← fifo_put xs m; rest ← fifo_run ys ops; ok (none ∷ rest)
  fifo_run xs (get ∷ ops) = do rest ← fifo_run (fifo_get xs).1 ops; ok ((fifo_get xs).0 ∷ rest)

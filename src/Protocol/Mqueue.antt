-- ===== src/Protocol/Mqueue.antt =====
-- The message queue of src/protocol.c: a ring of 128 buffers that holds at most 127 messages. Each
-- operation runs under the queue's mutex from its first line to its last, so it is one step here; a
-- failure of pthread_mutex_lock is not modelled.
pub mod Inv
pub mod Refine
mod Tests
use itmmorgue.Base.{
  ℕ, ◌+◌, ◌-◌, ◌%◌, ◌^◌, Option, none, some, List, [], ◌∷◌, true, false, leb, ◌==◌, if◌then◌else◌,
  Result, ok, stop, panic, invalid_position, mqueue_overflow, or_undefined, ◌>>=◌, get_elem?, set,
}
use itmmorgue.Protocol.Types.{Mbuf, protocol_version}
use itmmorgue.Protocol.Fifo.{Op, put, get, Reply}

abbrev pub mqueue_size : ℕ
mqueue_size = 128

abbrev pub size_mod : ℕ
size_mod = 2 ^ 64

-- `mqueue_t`. A slot that nothing was written to is `none`.
pub record Mqueue (P : Type 0) : Type 0 where
  pub buf : List (Option (Mbuf P))
  pub start_position : ℕ
  pub size : ℕ

module _ {P : Type 0} where
  -- Only the two counters are set: the slots keep what the memory held.
  unfoldable pub mqueue_init : Mqueue P → Mqueue P
  mqueue_init q = record q { size = 0; start_position = 0 }

  unfoldable pub mqueue_put : Mqueue P → Mbuf P → Result (Mqueue P)
  mqueue_put q m =
      if leb mqueue_size q.start_position
      then stop (panic invalid_position)
      else if q.size == mqueue_size - 1
      then stop (panic mqueue_overflow)
      else ok (record q {
        buf =
            set q.buf ((q.start_position + q.size) % size_mod % mqueue_size)
              (some (record m { version = protocol_version }));
        size = (q.size + 1) % size_mod;
      })

  -- The option is what goes through `mbuf`; the call returns 0 where it is `none`, and else 1.
  unfoldable pub mqueue_get : Mqueue P → Result (Option (Mbuf P) × Mqueue P)
  mqueue_get q = elim (q.size == 0) [
    | true ↦ ok (none, q)
    | false ↦ do
      slot ← or_undefined (get_elem? q.buf q.start_position)
      m ← or_undefined slot
      let next = (q.start_position + 1) % size_mod
      ok (
        some m,
        record q { size = q.size - 1; start_position = if leb mqueue_size next then 0 else next },
      )
  ]

  -- A client's calls in order, with what each returns; a panic ends the run.
  unfoldable pub run : Mqueue P → List (Op P) → Result (List (Reply P))
  run q [] = ok []
  run q (put m ∷ ops) = do q' ← mqueue_put q m; rest ← run q' ops; ok (none ∷ rest)
  run q (get ∷ ops) = do r ← mqueue_get q; rest ← run r.1 ops; ok (r.0 ∷ rest)

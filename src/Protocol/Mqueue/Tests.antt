-- ===== src/Protocol/Mqueue/Tests.antt =====
-- A ring with one message in it, and the theorems of the queue at it.
use itmmorgue.Base.{ℕ, ◌≡◌, refl, none, some, List, [], ◌∷◌, ◌++◌, arith, replicate}
use itmmorgue.Protocol.Types.{Mbuf, new_chat, protocol_version}
use itmmorgue.Protocol.Fifo.{Op, put, get, fifo_run}
use itmmorgue.Protocol.Mqueue.{Mqueue, run}
use itmmorgue.Protocol.Mqueue.Inv.{Holds}
use itmmorgue.Protocol.Mqueue.Refine.{run_refines}

abbrev carrying : ℕ → Mbuf ℕ
carrying n = record { type = new_chat; version = protocol_version; size = 1; payload = n }

-- The one message is in the last slot.
abbrev one_left : Mqueue ℕ
one_left = record {
  buf = replicate 127 none ++ some (carrying 7) ∷ [];
  start_position = 127;
  size = 1;
}

one_left-Holds : Holds one_left (carrying 7 ∷ [])
one_left-Holds = record {
  storage = refl;
  start_in = omega arith;
  counted = refl;
  fits = omega arith;
  slots = refl;
}

abbrev calls : List (Op ℕ)
calls = put (carrying 8) ∷ get ∷ get ∷ get ∷ []

run_refines_example : run one_left calls ≡ fifo_run (carrying 7 ∷ []) calls
run_refines_example = run_refines calls one_left (carrying 7 ∷ []) one_left-Holds

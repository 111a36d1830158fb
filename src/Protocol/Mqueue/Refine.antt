-- ===== src/Protocol/Mqueue/Refine.antt =====
-- The ring of src/protocol.c against the queue that it is meant to be.
use itmmorgue.Base.{◌≡◌, refl, inl, inr, List, [], ◌∷◌, arith, length, ==_iff, Bool-cases, ◌==◌}
use itmmorgue.Protocol.Types.{Mbuf}
use itmmorgue.Protocol.Fifo.{Op, put, get, capacity, fifo_put, fifo_get, fifo_run}
use itmmorgue.Protocol.Mqueue.{Mqueue, run}
use itmmorgue.Protocol.Mqueue.Inv.{
  Holds, mqueue_put-Holds, mqueue_put_full, mqueue_get-Holds_nil, mqueue_get-Holds_cons,
}

module _ {P : Type 0} where
  -- If a ring holds `xs`, then any sequence of puts and gets gives on it what it gives on the
  -- bounded queue `xs`: the same replies in the same order, stamped, or the same panic.
  pub run_refines :
      (ops : List (Op P)) (q : Mqueue P) (xs : List (Mbuf P))
      → Holds q xs
      → run q ops ≡ fifo_run xs ops
  unfolding run fifo_run
  run_refines [] q xs h = refl
  run_refines (put m ∷ ops) q xs h = elim (Bool-cases (length xs == capacity)) [
    | inl full ↦ rw (mqueue_put_full q xs m h ((==_iff _ _).0 full)) (unfold fifo_put in rw full)
    | inr room ↦
        let (q', e, h') = mqueue_put-Holds q xs m h (ground arith) in
        rw (e, run_refines ops q' _ h') (unfold fifo_put in rw room)
  ]
  run_refines (get ∷ ops) q [] h =
      rw (mqueue_get-Holds_nil q h, run_refines ops q [] h) (unfold fifo_get in refl)
  run_refines (get ∷ ops) q (x ∷ xs) h =
      let (q', e, h') = mqueue_get-Holds_cons q x xs h in
      rw (e, run_refines ops q' xs h') (unfold fifo_get in refl)

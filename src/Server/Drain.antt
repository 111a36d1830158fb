-- ===== src/Server/Drain.antt =====
-- What `process_client` of src/server.c writes to its client: the loop that empties the queue.
use itmmorgue.Base.{
  ℕ, zero, suc, ◌<◌, ◌≡◌, refl, ◌≢◌, some, List, [], ◌∷◌, arith, ok, ==_self, length,
}
use itmmorgue.Protocol.Types.{Mbuf}
use itmmorgue.Protocol.Mqueue.Inv.{mqueue_get-Holds_nil, mqueue_get-Holds_cons}
use itmmorgue.World.{World, Payload, put_connection, connection_at}
use itmmorgue.Protocol.Wire.{Written, failed, wrote}
use itmmorgue.Server.Client.{check_written, drain}
use itmmorgue.Server.Queues.{Queued, OnlyQueue, OnlyQueue-trans}

check_written-ok : (r : Written) → r ≢ wrote 1 → check_written r ≡ ok tt
unfolding check_written
check_written-ok failed ne = refl
check_written-ok (wrote k) ne = ground arith

module _ (send : Mbuf Payload → Written) (not_one : (m : Mbuf Payload) → send m ≢ wrote 1) where
  -- Where no write to the socket returns 1, and with fuel above the number of waiting messages, the
  -- loop that empties a connection's queue ends: every message was handed to the socket, oldest
  -- first, the queue is empty, and nothing else changed.
  pub drain-Queued :
      (n : ℕ) (w : World) (a : ℕ) (ms : List (Mbuf Payload))
      → length ms < n
      → Queued w a ms
      → (w' : World) × (drain n send w a ≡ ok (ms, w')) × Queued w' a [] × OnlyQueue w w' a
  unfolding drain connection_at
  drain-Queued zero w a ms lt q = absurd (omega arith)
  drain-Queued (suc n) w a [] lt q =
      let same = put_connection w a (record q.connection { mqueueptr = some q.queue }) in
      (
        same,
        rw (q.at, q.queue_is, mqueue_get-Holds_nil q.queue q.holds) refl,
        record {
          connection = record q.connection { mqueueptr = some q.queue };
          at = rw ==_self;
          queue = q.queue;
          queue_is = refl;
          holds = q.holds;
        },
        record {
          others = λ b ne. ground (arith, ne);
          same_links = λ b. ground (arith, q.at);
          same_own = λ b. ground (arith, q.at);
          same_rest = refl;
        },
      )
  drain-Queued (suc n) w a (m ∷ ms) lt q =
      let (q', e, h) = mqueue_get-Holds_cons q.queue m ms q.holds in
      let c = record q.connection { mqueueptr = some q' } in
      let v = put_connection w a c in
      let first : OnlyQueue w v a = record {
        others = λ b ne. ground (arith, ne);
        same_links = λ b. ground (arith, q.at);
        same_own = λ b. ground (arith, q.at);
        same_rest = refl;
      } in
      let (w', go, q₂, o) =
        drain-Queued n v a ms (omega arith)
          (record { connection = c; at = rw ==_self; queue = q'; queue_is = refl; holds = h }) in
      (
        w',
        rw (q.at, q.queue_is, e, check_written-ok (send m) (not_one m), go) refl,
        q₂,
        OnlyQueue-trans first o,
      )

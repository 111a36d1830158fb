-- ===== src/Server/Queues.antt =====
-- What is queued for a connection, and how the sending functions of src/server.c add to it.
use Prim.Native.Nat.{bit_and}
use mathlib.Core.Option
use itmmorgue.Base.{
  ℕ, ◌<◌, ◌≡◌, refl, ◌∙◌, ap, ◌≢◌, Option, some, List, [], ◌∷◌, ◌++◌, arith, ◌==◌, ==_self, ok,
  length, Bytes, Bool-cases, inl, inr,
}
use itmmorgue.Protocol.Types.{Mbuf, put_sysmsg}
use itmmorgue.Protocol.Fifo.{stamp, capacity}
use itmmorgue.Protocol.Mqueue.{Mqueue}
use itmmorgue.Protocol.Mqueue.Inv.{Holds, mqueue_put-Holds}
use itmmorgue.World.{
  World, Connection, Payload, put_connection, connection_at, enqueue, text_message,
}
use itmmorgue.Server.Send.{send_sysmsg}
use itmmorgue.Server.Chain.Segment.{links}

-- The live connection `a` has the messages `ms` in its queue.
pub record Queued (w : World) (a : ℕ) (ms : List (Mbuf Payload)) : Type 0 where
  pub connection : Connection
  pub at : w.connections a ≡ some connection
  pub queue : Mqueue Payload
  pub queue_is : connection.mqueueptr ≡ some queue
  pub holds : Holds queue ms

abbrev pub with_heap : World → (ℕ → Option Connection) → World
with_heap w heap = record w { connections = heap }

-- The fields of a connection that nothing writes to behind its start.
abbrev pub own : (ℕ → Option Connection) → ℕ → Option (ℕ × ℕ)
own heap b = Option.map (λ (c : Connection). (c.socket, c.sysmsg_mask)) (heap b)

-- A step that writes to nothing but the queue of `a`.
pub record OnlyQueue (w w' : World) (a : ℕ) : Type 0 where
  pub others : (b : ℕ) → b ≢ a → w'.connections b ≡ w.connections b
  pub same_links : (b : ℕ) → links w'.connections b ≡ links w.connections b
  pub same_own : (b : ℕ) → own w'.connections b ≡ own w.connections b
  pub same_rest : w' ≡ with_heap w w'.connections

pub OnlyQueue-trans :
    {w w₁ w₂ : World} {a : ℕ} → OnlyQueue w w₁ a → OnlyQueue w₁ w₂ a → OnlyQueue w w₂ a
OnlyQueue-trans {w} {w₁} {w₂} s t = record {
  others = λ b ne. t.others b ne ∙ s.others b ne;
  same_links = λ b. t.same_links b ∙ s.same_links b;
  same_own = λ b. t.same_own b ∙ s.same_own b;
  same_rest = t.same_rest ∙ ap (λ v. with_heap v w₂.connections) s.same_rest;
}

-- A message for a live connection with room in its queue comes last there.
pub enqueue-Queued :
    (w : World) (a : ℕ) (ms : List (Mbuf Payload)) (m : Mbuf Payload)
    → Queued w a ms
    → length ms < capacity
    → (w' : World) × (enqueue w a m ≡ ok w') × Queued w' a (ms ++ stamp m ∷ []) × OnlyQueue w w' a
unfolding enqueue
enqueue-Queued w a ms m q lt =
    let (q', e, h) = mqueue_put-Holds q.queue ms m q.holds lt in
    let c = record q.connection { mqueueptr = some q' } in
    (
      put_connection w a c,
      rw (q.at, q.queue_is, e),
      record { connection = c; at = rw ==_self; queue = q'; queue_is = refl; holds = h },
      record {
        others = λ b ne. ground (arith, ne);
        same_links = λ b. ground (arith, q.at);
        same_own = λ b. ground (arith, q.at);
        same_rest = refl;
      },
    )

-- `send_sysmsg` queues its message whatever the connection's mask says.
pub send_sysmsg-enqueue :
    (w : World) (a type : ℕ) (msg : Bytes) (c : Connection)
    → w.connections a ≡ some c
    → send_sysmsg w (some a) type msg ≡ enqueue w a (text_message put_sysmsg msg)
unfolding send_sysmsg connection_at
send_sysmsg-enqueue w a type msg c e = elim (Bool-cases (bit_and type c.sysmsg_mask == 0)) [
  | inl dropped ↦ rw (e, dropped)
  | inr passed ↦ rw (e, passed)
]

pub send_sysmsg-Queued :
    (w : World) (a type : ℕ) (ms : List (Mbuf Payload)) (msg : Bytes)
    → Queued w a ms
    → length ms < capacity
    → (w' : World) × (send_sysmsg w (some a) type msg ≡ ok w')
      × Queued w' a (ms ++ stamp (text_message put_sysmsg msg) ∷ [])
      × OnlyQueue w w' a
send_sysmsg-Queued w a type ms msg q lt =
    let (w', e, q', o) = enqueue-Queued w a ms (text_message put_sysmsg msg) q lt in
    (w', send_sysmsg-enqueue w a type msg q.connection q.at ∙ e, q', o)

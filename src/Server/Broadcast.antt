-- ===== src/Server/Broadcast.antt =====
-- A chat message reaches every client: `case MSG_NEW_CHAT` of `process_client` in src/server.c.
use Prim.Native.Nat.{bit_and}
use itmmorgue.Base.{
  ℕ, ◌+◌, ◌≤◌, ◌<◌, ◌≡◌, ◌^◌, refl, sym, ◌∙◌, ap, some, List, [], ◌∷◌, ◌++◌, append_assoc, arith,
  ◌==◌, false, ◌&&◌, ok, length, length-append, Bytes, codes, c_string, Bool-cases, inl, inr, All,
  >>=-eq-ok, or_undefined, All-map,
}
use itmmorgue.Protocol.Types.{Mbuf, put_sysmsg, put_chat}
use itmmorgue.Protocol.Fifo.{stamp, capacity}
use itmmorgue.Chat.{TextBuf}
use itmmorgue.Chat.Append.{appended, s_chat_add-appended}
use itmmorgue.World.{World, Payload, connection_at, enqueue, text_message}
use itmmorgue.Server.Send.{send_sysmsg, sm_chat_new_message}
use itmmorgue.Server.Client.{Client}
use itmmorgue.Server.Handle.{Incoming, deliver, say, handle_new_chat, asks_start}
use itmmorgue.Server.Chain.Segment.{links, Fresh, Distinct, Segment-ext, Segment-ends, Chain}
use itmmorgue.Server.Chain.Walk.{run_over, KeepsLinks, for_each-run_over}
use itmmorgue.Server.Queues.{
  Queued, OnlyQueue, OnlyQueue-trans, own, with_heap, enqueue-Queued, send_sysmsg-Queued,
}

pub Queued-same :
    {w w' : World} {a : ℕ} {ms : List (Mbuf Payload)}
    → w'.connections a ≡ w.connections a
    → Queued w a ms
    → Queued w' a ms
Queued-same e q = record {
  connection = q.connection;
  at = e ∙ q.at;
  queue = q.queue;
  queue_is = q.queue_is;
  holds = q.holds;
}

-- Queueing links no connection elsewhere.
pub enqueue-links :
    (w : World) (a : ℕ) (m : Mbuf Payload) {w' : World}
    → enqueue w a m ≡ ok w'
    → (b : ℕ) → links w'.connections b ≡ links w.connections b
unfolding enqueue connection_at
enqueue-links w a m e b = ground arith

send_sysmsg-links :
    (w : World) (a type : ℕ) (msg : Bytes) {w' : World}
    → send_sysmsg w (some a) type msg ≡ ok w'
    → (b : ℕ) → links w'.connections b ≡ links w.connections b
unfolding send_sysmsg connection_at
send_sysmsg-links w a type msg e b =
    let (c, at, rest) = >>=-eq-ok (or_undefined (w.connections a)) _ e in
    elim (Bool-cases (bit_and type c.sysmsg_mask == 0)) [
      | inl dropped ↦ enqueue-links w a _ (rw dropped at rest) b
      | inr passed ↦ enqueue-links w a _ (rw passed at rest) b
    ]

deliver-links : (str : Bytes) → KeepsLinks (deliver str)
unfolding deliver
deliver-links str w a w' e b =
    let (w₁, e₁, e₂) = >>=-eq-ok (enqueue w a (text_message put_chat str)) _ e in
    send_sysmsg-links w₁ a sm_chat_new_message _ e₂ b ∙ enqueue-links w a _ e₁ b

-- The two messages that every client gets: the chat, and the note that it is there.
abbrev pub chat_messages : Bytes → List (Mbuf Payload)
chat_messages str =
    stamp (text_message put_chat str)
    ∷ stamp (text_message put_sysmsg (codes "New message in your chat!\n"))
    ∷ []

deliver-Queued :
    (str : Bytes) (w : World) (a : ℕ) (ms : List (Mbuf Payload))
    → Queued w a ms
    → length ms + 2 ≤ capacity
    → (w' : World) × (deliver str w a ≡ ok w')
      × Queued w' a (ms ++ chat_messages str)
      × OnlyQueue w w' a
unfolding deliver
deliver-Queued str w a ms q room =
    let chat = text_message put_chat str in
    let (w₁, e₁, q₁, o₁) = enqueue-Queued w a ms chat q (omega arith) in
    let (w₂, e₂, q₂, o₂) =
      send_sysmsg-Queued w₁ a sm_chat_new_message (ms ++ stamp chat ∷ [])
        (codes "New message in your chat!\n") q₁
        (omega (arith, length-append ms (stamp chat ∷ []))) in
    (w₂, rw e₁ e₂, rw append_assoc at q₂, OnlyQueue-trans o₁ o₂)

-- A step that writes to nothing but the queues of `xs`.
pub record OnlyQueues (w w' : World) (xs : List ℕ) : Type 0 where
  pub outside : (b : ℕ) → Fresh b xs → w'.connections b ≡ w.connections b
  pub same_links : (b : ℕ) → links w'.connections b ≡ links w.connections b
  pub same_own : (b : ℕ) → own w'.connections b ≡ own w.connections b
  pub same_rest : w' ≡ with_heap w w'.connections

-- Each of `xs` has its messages in its queue, and room for two more.
abbrev pub HasRoom : World → (ℕ → List (Mbuf Payload)) → List ℕ → Type 0
HasRoom w ms = All (λ a. Queued w a (ms a) × (length (ms a) + 2 ≤ capacity))

abbrev pub Delivered : World → (ℕ → List (Mbuf Payload)) → Bytes → List ℕ → Type 0
Delivered w ms str = All (λ a. Queued w a (ms a ++ chat_messages str))

run_over-deliver :
    (str : Bytes) (ms : ℕ → List (Mbuf Payload)) (xs : List ℕ) (w : World)
    → Distinct xs
    → HasRoom w ms xs
    → (w' : World) × (run_over (deliver str) xs w ≡ ok w')
      × Delivered w' ms str xs
      × OnlyQueues w w' xs
unfolding run_over
run_over-deliver str ms [] w d h = (
  w,
  refl,
  tt,
  record { outside = λ b f. refl; same_links = λ b. refl; same_own = λ b. refl; same_rest = refl },
)
run_over-deliver str ms (a ∷ rest) w d h =
    let (w₁, e₁, q₁, o₁) = deliver-Queued str w a (ms a) h.0.0 h.0.1 in
    let still = roomy rest d.0 o₁ h.1 in
    let (w₂, e₂, q₂, o₂) = run_over-deliver str ms rest w₁ d.1 still in
    (
      w₂,
      rw e₁ e₂,
      (Queued-same (o₂.outside a d.0) q₁, q₂),
      record {
        outside = λ b f. o₂.outside b f.1 ∙ o₁.others b (λ e. f.0 (sym e));
        same_links = λ b. o₂.same_links b ∙ o₁.same_links b;
        same_own = λ b. o₂.same_own b ∙ o₁.same_own b;
        same_rest = o₂.same_rest ∙ ap (λ v. with_heap v w₂.connections) o₁.same_rest;
      },
    )
  where
    roomy :
        (ys : List ℕ) {w₁ : World}
        → Fresh a ys
        → OnlyQueue w w₁ a
        → HasRoom w ms ys
        → HasRoom w₁ ms ys
    roomy [] f o h = tt
    roomy (y ∷ ys) f o h = ((Queued-same (o.others y f.0) h.0.0, h.0.1), roomy ys f.1 o h.1)

-- What a chat message does to the server: the text is added to the chat, every connection of the list
-- gets the message and a note behind what it had, and nothing else changes.
pub record Broadcast (w w' : World) (ms : ℕ → List (Mbuf Payload)) (str : Bytes) (xs : List ℕ)
    : Type 0 where
  pub chat_is : w'.schat.string ≡ w.schat.string ++ str
  pub delivered : Delivered w' ms str xs
  pub outside : (b : ℕ) → Fresh b xs → w'.connections b ≡ w.connections b
  pub same_links : (b : ℕ) → links w'.connections b ≡ links w.connections b
  pub same_own : (b : ℕ) → own w'.connections b ≡ own w.connections b
  pub chain : Chain w' xs
  pub same_rest : w' ≡ record w { connections = w'.connections; schat = appended w.schat str }

roomy_chat :
    (w : World) (chat : TextBuf) (ms : ℕ → List (Mbuf Payload)) (ys : List ℕ)
    → HasRoom w ms ys
    → HasRoom (record w { schat = chat }) ms ys
roomy_chat w chat ms = All-map _ _ (λ a h. (Queued-same refl h.0, h.1))

module _ (fuel : ℕ) (w : World) (xs : List ℕ) (ms : ℕ → List (Mbuf Payload)) (str : Bytes) where
  say-Broadcast :
      length w.schat.string + length str + 2 < 2 ^ 31
      → length xs < fuel
      → Chain w xs
      → HasRoom w ms xs
      → (w' : World) × (say fuel w str ≡ ok w') × Broadcast w w' ms str xs
  unfolding say
  say-Broadcast small enough v room =
      let chat = appended w.schat str in
      let w₁ = record w { schat = chat } in
      let v₁ : Chain w₁ xs = record { linked = v.linked; distinct = v.distinct } in
      let (w₂, e₂, q, o) =
        run_over-deliver str ms xs w₁ v.distinct (roomy_chat w chat ms xs room) in
      let looped = for_each-run_over (deliver str) (deliver-links str) fuel w₁ xs enough v₁ in
      (
        w₂,
        rw (s_chat_add-appended w.schat str small) (looped ∙ e₂),
        record {
          chat_is = ap (λ (v : World). v.schat.string) o.same_rest;
          delivered = q;
          outside = o.outside;
          same_links = o.same_links;
          same_own = o.same_own;
          chain = record {
            linked =
                Segment-ends (ap (λ (v : World). v.first_connection) o.same_rest)
                  (ap (λ (v : World). v.last_connection) o.same_rest)
                  (Segment-ext o.same_links v.linked);
            distinct = v.distinct;
          };
          same_rest = o.same_rest;
        },
      )

  -- Where the payload is a string and does not ask for the start of a game that has not begun, the
  -- history stays below the size of an int, the fuel is above the number of connections, and each
  -- connection of the list has room for two more messages: `handle_new_chat` succeeds, appends the
  -- text to the history, puts the message and the note behind what each connection had queued, and
  -- changes nothing else.
  pub handle_new_chat-Broadcast :
      (c : Client) (m : Incoming)
      → c_string m.payload ≡ some str
      → ((w.start == 0) && asks_start str) ≡ false
      → length w.schat.string + length str + 2 < 2 ^ 31
      → length xs < fuel
      → Chain w xs
      → HasRoom w ms xs
      → (w' : World) × (handle_new_chat fuel w c m ≡ ok w') × Broadcast w w' ms str xs
  unfolding handle_new_chat
  handle_new_chat-Broadcast c m e plays small enough v room =
      let (w', said, b) = say-Broadcast small enough v room in (w', ground (arith, said), b)

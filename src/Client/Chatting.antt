-- ===== src/Client/Chatting.antt =====
-- A line that is typed at one client reaches the chat of all: src/chat.c on the client, and `process_client`
-- of src/server.c.
use itmmorgue.Base.{
  ℕ, ◌+◌, ◌^◌, ◌≤◌, ◌<◌, ◌≡◌, ◌≢◌, refl, sym, ◌∙◌, ap, ap₂, arith, false, ◌==◌, ◌&&◌, some, List,
  [], ◌∷◌, ◌++◌, append_assoc, ok, All, All-append, Bytes, codes, c_string, length, length-append,
  Bool-cases, inl, inr, drop, replicate,
}
use itmmorgue.Protocol.Types.{Mbuf, new_chat}
use itmmorgue.Protocol.Fifo.{stamp, capacity}
use itmmorgue.Protocol.Mqueue.{Mqueue, mqueue_put}
use itmmorgue.Protocol.Mqueue.Inv.{Holds, mqueue_put-Holds}
use itmmorgue.Chat.Input.{Input, input_size, write_string, send_line}
use itmmorgue.Chat.Erase.{HoldsText, c_string-append, write_string-append}
use itmmorgue.World.{World, Payload}
use itmmorgue.Server.Client.{Client}
use itmmorgue.Server.Handle.{Incoming, handle_new_chat, asks_start}
use itmmorgue.Server.Chain.Segment.{Chain}
use itmmorgue.Server.Broadcast.{Broadcast, HasRoom, handle_new_chat-Broadcast}
use itmmorgue.Server.Reading.{arrived}
use itmmorgue.Server.Reading.Arrives.{IsSendable}
use itmmorgue.Server.Round.{handle, dispatch, after_dispatch, log_payload}

-- The line as it is sent.
abbrev pub line_of : Bytes → Bytes → Bytes
line_of nickname s = codes "<" ++ (nickname ++ (codes "> " ++ (s ++ codes "\n")))

abbrev pub line_message : Bytes → Bytes → Mbuf Bytes
line_message nickname s = record {
  type = new_chat;
  version = 0;
  size = length (line_of nickname s) + 1;
  payload = line_of nickname s ++ (0 ∷ []);
}

line_of-All :
    (nickname s : Bytes)
    → All (λ c. c ≢ 0) nickname
    → All (λ c. c ≢ 0) s
    → All (λ c. c ≢ 0) (line_of nickname s)
line_of-All nickname s n h = (
  λ e. omega arith,
  All-append _ nickname _ n
      (λ e. omega arith, (λ e. omega arith, All-append _ s _ h (λ e. omega arith, tt))),
)

send_line-eq :
    (nickname : Bytes) (q q' : Mqueue Bytes) (i : Input) (s a : Bytes)
    → i.inputpos ≢ 0
    → write_string i.input i.inputpos (b'\n' ∷ []) ≡ ok a
    → c_string a ≡ some (s ++ codes "\n")
    → mqueue_put q (line_message nickname s) ≡ ok q'
    → send_line nickname q i ≡ ok (q', record i { input = replicate input_size 0; inputpos = 0 })
unfolding send_line
send_line-eq nickname q q' i s a some_text e₁ e₂ e₃ = ground (arith, e₁, e₂, e₃)

abbrev chat_message : ℕ → Bytes → Incoming
chat_message size payload = record { type = new_chat; size = size; payload = payload }

-- In a running game a chat message ends its round.
handle-chat_message :
    (fuel : ℕ) (w w' : World) (c : Client) (size : ℕ) (payload str : Bytes)
    → w.start ≢ 0
    → c_string payload ≡ some str
    → w'.start ≡ w.start
    → handle_new_chat fuel w c (chat_message size payload) ≡ ok w'
    → handle fuel w c (chat_message size payload) ≡ ok (w', some c)
unfolding handle dispatch after_dispatch log_payload
handle-chat_message fuel w w' c size payload str runs string same said =
    let plays : (w'.start == 0) ≡ false = ground (arith, runs, same) in
    let logged : log_payload (chat_message size payload) ≡ ok tt = elim (Bool-cases (size == 0)) [
      | inl e ↦ rw e refl
      | inr e ↦ rw (e, string) refl
    ] in
    elim (Bool-cases (w'.players_len == w'.players_total)) [
      | inl e ↦ rw (logged, said, plays, e) refl
      | inr e ↦ rw (logged, said, plays, e) refl
    ]

module _ (nickname : Bytes) (q : Mqueue Bytes) (ms : List (Mbuf Bytes)) (i : Input) (s : Bytes)
    (named : All (λ c. c ≢ 0) nickname) (waits : Holds q ms) (room : length ms < capacity)
    (typed : HoldsText i s) (some_text : length s ≢ 0) (fits : length s + 2 ≤ input_size) where
  send_line-Sent :
      (q' : Mqueue Bytes) × (i' : Input) × (send_line nickname q i ≡ ok (q', i'))
      × Holds q' (ms ++ stamp (line_message nickname s) ∷ [])
      × HoldsText i' []
  send_line-Sent =
      let (q', e, h) = mqueue_put-Holds q ms (line_message nickname s) waits room in
      let r = drop (length s + 1 + 1) (s ++ 0 ∷ typed.rest) in
      let a = s ++ (b'\n' ∷ 0 ∷ r) in
      let size : length (s ++ 0 ∷ typed.rest) ≡ 258 =
        ap length (sym typed.array_is) ∙ typed.size_is in
      let written : write_string i.input i.inputpos (b'\n' ∷ []) ≡ ok a =
        ap₂ (λ n b. write_string b n (b'\n' ∷ [])) typed.pos_is typed.array_is
        ∙ write_string-append s typed.rest (b'\n' ∷ []) (omega (arith, size)) in
      let text : c_string a ≡ some (s ++ codes "\n") =
        ap c_string (sym (append_assoc s (codes "\n") (0 ∷ r)))
        ∙ c_string-append (s ++ codes "\n") r
            (All-append _ s (codes "\n") typed.no_nul (λ e. omega arith, tt)) in
      (
        q',
        record i { input = replicate input_size 0; inputpos = 0 },
        send_line-eq nickname q q' i s a (λ e. omega (arith, typed.pos_is)) written text e,
        h,
        record {
          rest = replicate 257 0;
          array_is = refl;
          size_is = refl;
          pos_is = refl;
          no_nul = tt;
        },
      )

  -- Where a client's line of at least one byte fits its input, its name and the line have no NUL,
  -- and its queue has room: `send_line` succeeds, clears the input and puts one message last in the
  -- queue, of a type that the server knows and with a payload of its size. Where the game has
  -- begun, the history stays below the size of an int, the fuel is above the number of connections,
  -- and each has room for two more messages, the server's `handle` of that message keeps the
  -- client, adds `<name> line` to the history, puts it and the note behind what each connection had
  -- queued, and changes nothing else.
  pub send_line-Broadcast :
      (fuel : ℕ) (w : World) (xs : List ℕ) (queued : ℕ → List (Mbuf Payload)) (c : Client)
      → w.start ≢ 0
      → length w.schat.string + length (line_of nickname s) + 2 < 2 ^ 31
      → length xs < fuel
      → Chain w xs
      → HasRoom w queued xs
      → (q' : Mqueue Bytes) × (i' : Input) × (m : Mbuf Bytes) × (w' : World) × (send_line nickname q
            i
          ≡ ok (q', i'))
        × Holds q' (ms ++ m ∷ [])
        × HoldsText i' []
        × IsSendable m
        × (handle fuel w c (arrived m) ≡ ok (w', some c))
        × Broadcast w w' queued (line_of nickname s) xs
  send_line-Broadcast fuel w xs queued c runs small enough chain ready =
      let plays : ((w.start == 0) && asks_start (line_of nickname s)) ≡ false =
        ground (arith, runs) in
      let (q', i', e, h, cleared) = send_line-Sent in
      let m = stamp (line_message nickname s) in
      let string : c_string (arrived m).payload ≡ some (line_of nickname s) =
        c_string-append (line_of nickname s) [] (line_of-All nickname s named typed.no_nul) in
      let (w', e', b) =
        handle_new_chat-Broadcast fuel w xs queued (line_of nickname s) c (arrived m) string plays
          small enough chain ready in
      let sendable : IsSendable m = record {
        known = refl;
        sized = omega (arith, length-append (line_of nickname s) (0 ∷ []));
        small = omega arith;
      } in
      (
        q',
        i',
        m,
        w',
        e,
        h,
        cleared,
        sendable,
        handle-chat_message fuel w w' c m.size m.payload (line_of nickname s) runs string
            (ap (λ (v : World). v.start) b.same_rest) e',
        b,
      )

-- ===== src/Client/Arrive.antt =====
-- What the client sends arrives: `c_send_move` of src/player.c and `worker` of src/client.c on one side,
-- `process_client` of src/server.c on the other.
use itmmorgue.Base.{
  ℕ, zero, suc, ◌+◌, ◌≤◌, ◌<◌, ◌≡◌, ◌≢◌, refl, ◌∙◌, ap, arith, some, List, [], ◌∷◌, ◌++◌, ok, Bytes,
  length, get_elem?, get_elem?-set_self, lt_of_get_elem?, length-append, false, true, Bool, ◌==◌,
}
use itmmorgue.Protocol.Types.{Mbuf, move_player}
use itmmorgue.Protocol.Fifo.{stamp, capacity}
use itmmorgue.Protocol.Mqueue.{Mqueue}
use itmmorgue.Protocol.Mqueue.Inv.{
  Holds, mqueue_put-Holds, mqueue_get-Holds_nil, mqueue_get-Holds_cons,
}
use itmmorgue.Keyboard.{k_move_left, k_move_right_down}
use itmmorgue.Player.{Player, player_at, put_player}
use itmmorgue.Event.{event_player_add}
use itmmorgue.World.{World}
use itmmorgue.Server.Client.{Client}
use itmmorgue.Server.Handle.{Incoming}
use itmmorgue.Server.Reading.{arrived}
use itmmorgue.Server.Round.{handle, handle_move, log_payload, dispatch, after_dispatch}
use itmmorgue.Server.Accepted.{with_move}
use itmmorgue.Protocol.Wire.{bytes_of}
use itmmorgue.Client.{outgoing, c_send_move, send_all}

-- The worker sends what waits, oldest first, and the queue is then empty.
pub send_all-Holds :
    (n : ℕ) (fails : Mbuf Bytes → Bool) (q : Mqueue Bytes) (ms : List (Mbuf Bytes))
    → ((m : Mbuf Bytes) → fails m ≡ false)
    → length ms < n
    → Holds q ms
    → (q' : Mqueue Bytes) × (send_all n fails q ≡ ok (ms, q')) × Holds q' []
unfolding send_all
send_all-Holds zero fails q ms sent lt h = absurd (omega arith)
send_all-Holds (suc n) fails q [] sent lt h = (q, rw (mqueue_get-Holds_nil q h) refl, h)
send_all-Holds (suc n) fails q (m ∷ ms) sent lt h =
    let (q₁, e, h₁) = mqueue_get-Holds_cons q m ms h in
    let (q₂, e₂, h₂) = send_all-Holds n fails q₁ ms sent (omega arith) h₁ in
    (q₂, rw (e, sent m, e₂) refl, h₂)

bytes_of_key : (k : ℕ) → k < 256 → bytes_of 4 k ≡ k ∷ 0 ∷ 0 ∷ 0 ∷ []
bytes_of_key k lt = ground arith

abbrev pub key_message : ℕ → Incoming
key_message k = record { type = move_player; size = 4; payload = k ∷ 0 ∷ 0 ∷ 0 ∷ [] }

-- In a running game with nobody missing, the server takes the message as the move.
module _ (fuel : ℕ) (w : World) (c : Client) (k : ℕ) (p : Player) (lo : k_move_left ≤ k)
    (hi : k ≤ k_move_right_down) (runs : w.start ≢ 0) (full : w.players_len ≡ w.players_total)
    (at : get_elem? w.players c.id ≡ some p) where
  abbrev pub moving : World
  moving = record w { roster = put_player w.roster c.id (with_move p k c.id) }

  handle_move-key_message : handle_move w c (key_message k) ≡ ok moving
  unfolding handle_move event_player_add player_at
  handle_move-key_message = ground (arith, at)

  handle-key_message : handle fuel w c (key_message k) ≡ ok (moving, some c)
  unfolding handle log_payload dispatch after_dispatch
  handle-key_message =
      let string : (k == 0) ≡ false = ground arith in
      let plays : (w.start == 0) ≡ false = ground arith in
      let complete : (w.players_len == w.players_total) ≡ true = ground arith in
      rw (string, plays, complete, handle_move-key_message) refl

-- For each of the eight keys of a move, with room in the client's queue, fuel for what waits there,
-- and no failing write: `c_send_move` succeeds, and the worker's loop then sends the message behind
-- what waited. Where the game runs, nobody is missing and the client's player is in the array, the
-- server handles what arrives without an error, keeps the client, and has that move of that player
-- pending.
pub c_send_move-handle :
    (q : Mqueue Bytes) (ms : List (Mbuf Bytes)) (fails : Mbuf Bytes → Bool) (n fuel : ℕ) (w : World)
    (c : Client) (k : ℕ) (p : Player)
    → Holds q ms
    → length ms < capacity
    → ((m : Mbuf Bytes) → fails m ≡ false)
    → length ms + 1 < n
    → k_move_left ≤ k
    → k ≤ k_move_right_down
    → w.start ≢ 0
    → w.players_len ≡ w.players_total
    → get_elem? w.players c.id ≡ some p
    → (q₁ : Mqueue Bytes) × (q₂ : Mqueue Bytes) × (m : Mbuf Bytes) × (w' : World) × (c_send_move q k
        ≡ ok q₁)
      × (send_all n fails q₁ ≡ ok (ms ++ m ∷ [], q₂))
      × Holds q₂ []
      × (handle fuel w c (arrived m) ≡ ok (w', some c))
      × (get_elem? w'.players c.id ≡ some (with_move p k c.id))
unfolding c_send_move
c_send_move-handle q ms fails n fuel w c k p h room sent enough lo hi runs full at =
    let m = outgoing move_player 4 (bytes_of 4 k) in
    let (q₁, e₁, h₁) = mqueue_put-Holds q ms m h room in
    let (q₂, e₂, h₂) =
      send_all-Holds n fails q₁ (ms ++ stamp m ∷ []) sent
        (omega (arith, length-append ms (stamp m ∷ []))) h₁ in
    (
      q₁,
      q₂,
      stamp m,
      moving fuel w c k p lo hi runs full at,
      e₁,
      e₂,
      h₂,
      ap (λ b. handle fuel w c (record { type = move_player; size = 4; payload = b }))
            (bytes_of_key k (omega arith))
          ∙ handle-key_message fuel w c k p lo hi runs full at,
      get_elem?-set_self w.players c.id (with_move p k c.id) (lt_of_get_elem? w.players c.id at),
    )

-- ===== src/Server/Snapshot.antt =====
-- The players as a client gets to know them: `s_send_players_full` of src/player.c on the server, and
-- `c_receive_players_full` on the other side.
use itmmorgue.Base.{
  ℕ, zero, suc, ◌+◌, ◌≤◌, ◌<◌, ◌≡◌, refl, ◌∙◌, ap, ◌≢◌, true, false, Option, none, some, List, [],
  ◌∷◌, ◌++◌, arith, ok, get_elem?, take, length, length-take, All, get_elem?-take,
}
use itmmorgue.Protocol.Types.{Mbuf, put_players_full}
use itmmorgue.Protocol.Fifo.{stamp, capacity}
use itmmorgue.Player.{Player, Roster, player_at, max_players}
use itmmorgue.Player.Receive.{
  PlayersFull, c_receive_players_full, c_receive_players_full-Taken, c_receive_players_full_ignored,
  Taken,
}
use itmmorgue.World.{World, Payload, players_full, message}
use itmmorgue.Server.Send.{active, same_pointer, self_from, players_full_size, s_send_players_full}
use itmmorgue.Server.Queues.{Queued, OnlyQueue, enqueue-Queued}

-- The message that player `p` gets.
abbrev pub snapshot : World → Player → PlayersFull
snapshot w p = record {
  players = take w.players_len w.players;
  self = self_from 0 (take w.players_len w.players) p.connection none;
  players_len = w.players_len;
}

-- A connected player, whose connection has room in its queue, is sent the players that count, of
-- which there are at most five: the message comes last in that queue, and nothing else changes.
pub s_send_players_full-Queued :
    (w : World) (id a : ℕ) (p : Player) (ms : List (Mbuf Payload))
    → get_elem? w.players id ≡ some p
    → p.connected ≢ 0
    → p.connection ≡ some a
    → w.players_len ≤ max_players
    → Queued w a ms
    → length ms < capacity
    → (w' : World) × (s_send_players_full w id ≡ ok w')
      × Queued w' a (
          ms
          ++ stamp (message put_players_full players_full_size (players_full (snapshot w p))) ∷ [])
      × OnlyQueue w w' a
unfolding s_send_players_full player_at active
s_send_players_full-Queued w id a p ms at here conn few q room =
    let m = message put_players_full players_full_size (players_full (snapshot w p)) in
    let (w', e, q', o) = enqueue-Queued w a ms m q room in (w', ground (arith, at, conn, e), q', o)

-- Player `k` of the list has the connection `conn`, and no other player of it has.
abbrev pub Owns : Option ℕ → ℕ → List Player → Type 0
Owns conn k [] = ⊥
Owns conn zero (p ∷ ps) =
    (same_pointer conn p.connection ≡ true) × All (λ q. same_pointer conn q.connection ≡ false) ps
Owns conn (suc k) (p ∷ ps) = (same_pointer conn p.connection ≡ false) × Owns conn k ps

self_from_none :
    (i : ℕ) (ps : List Player) (conn : Option ℕ) (self : Option ℕ)
    → All (λ q. same_pointer conn q.connection ≡ false) ps
    → self_from i ps conn self ≡ self
unfolding self_from
self_from_none i [] conn self h = refl
self_from_none i (p ∷ ps) conn self h = rw h.0 (self_from_none (i + 1) ps conn self h.1)

-- The index that such a player is told is its own.
self_from-Owns :
    (i k : ℕ) (ps : List Player) (conn : Option ℕ) (self : Option ℕ)
    → Owns conn k ps
    → self_from i ps conn self ≡ some (i + k)
unfolding self_from
self_from-Owns i k [] conn self h = absurd h
self_from-Owns i zero (p ∷ ps) conn self h =
    rw h.0 (self_from_none (i + 1) ps conn (some i) h.1 ∙ ap some (omega arith))
self_from-Owns i (suc k) (p ∷ ps) conn self h =
    rw h.0 (self_from-Owns (i + 1) k ps conn self h.1 ∙ ap some (omega arith))

snapshot-Taken :
    (w : World) (id : ℕ) (p : Player) (r : Roster)
    → length w.players ≡ max_players
    → length r.players ≡ max_players
    → w.players_len < max_players
    → Owns p.connection id (take w.players_len w.players)
    → (r' : Roster) × (c_receive_players_full r (some (snapshot w p)) ≡ ok r')
      × Taken id w.players_len (λ j. get_elem? w.players j) r r'
snapshot-Taken w id p r hw hr few own =
    let n = w.players_len in
    let (r', e, t) =
      c_receive_players_full-Taken r hr (snapshot w p) id
        (self_from-Owns 0 id (take n w.players) p.connection none own ∙ ap some (omega arith)) few
        (omega (arith, length-take n w.players)) in
    (
      r',
      e,
      record {
        self_is = t.self_is;
        len_is = t.len_is;
        slots_are = λ j. ground (arith, t.slots_are j, get_elem?-take n w.players j);
      },
    )

snapshot_ignored :
    (w : World) (p : Player) (r : Roster)
    → max_players ≤ w.players_len
    → c_receive_players_full r (some (snapshot w p)) ≡ ok r
snapshot_ignored w p r full = c_receive_players_full_ignored r (snapshot w p) full

module _ (w : World) (id a : ℕ) (p : Player) (ms : List (Mbuf Payload)) (r : Roster)
    (at : get_elem? w.players id ≡ some p) (here : p.connected ≢ 0) (conn : p.connection ≡ some a)
    (queued : Queued w a ms) (room : length ms < capacity) where
  -- For a connected player `id` whose connection has room in its queue, on arrays of five slots and
  -- with fewer than five players, of which `id` alone has that connection: `s_send_players_full`
  -- puts a message behind what the queue held and changes nothing else, and a client that takes in
  -- this message has the index `id`, the server's number of players, the server's players in the
  -- slots that count, and its own in the others.
  pub s_send_players_full-c_receive_players_full :
      length w.players ≡ max_players
      → length r.players ≡ max_players
      → w.players_len < max_players
      → Owns p.connection id (take w.players_len w.players)
      → (w' : World) × (m : PlayersFull) × (r' : Roster) × (s_send_players_full w id ≡ ok w')
        × Queued w' a
            (ms ++ stamp (message put_players_full players_full_size (players_full m)) ∷ [])
        × OnlyQueue w w' a
        × (c_receive_players_full r (some m) ≡ ok r')
        × Taken id w.players_len (λ j. get_elem? w.players j) r r'
  s_send_players_full-c_receive_players_full hw hr few owns =
      let (w', e, q, o) =
        s_send_players_full-Queued w id a p ms at here conn (omega arith) queued room in
      let (r', e', t) = snapshot-Taken w id p r hw hr few owns in
      (w', snapshot w p, r', e, q, o, e', t)

  -- With exactly five players, for a connected one whose connection has room in its queue:
  -- `s_send_players_full` puts a message of these five behind what the queue held and changes
  -- nothing else, and a client that takes in this message stays as it was, whatever it had.
  pub s_send_players_full_ignored :
      w.players_len ≡ max_players
      → (w' : World) × (m : PlayersFull) × (s_send_players_full w id ≡ ok w')
        × Queued w' a
            (ms ++ stamp (message put_players_full players_full_size (players_full m)) ∷ [])
        × OnlyQueue w w' a
        × (m.players_len ≡ max_players)
        × (m.players ≡ take max_players w.players)
        × (c_receive_players_full r (some m) ≡ ok r)
  s_send_players_full_ignored full =
      let (w', e, q, o) =
        s_send_players_full-Queued w id a p ms at here conn (omega (arith, full)) queued room in
      (
        w',
        snapshot w p,
        e,
        q,
        o,
        full,
        ap (λ n. take n w.players) full,
        snapshot_ignored w p r (omega (arith, full)),
      )

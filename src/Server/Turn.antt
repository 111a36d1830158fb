-- ===== src/Server/Turn.antt =====
-- A whole turn of `event_loop` in src/event.c: the events are applied, and every player is told.
use mathlib.Core.Path.{subst}
use itmmorgue.Base.{
  ℕ, zero, suc, ◌+◌, ◌≤◌, ◌<◌, ◌≡◌, refl, sym, ◌∙◌, ap, ◌≢◌, Option, none, some, List, [], ◌∷◌,
  ◌++◌, arith, ◌==◌, Result, ok, stop, get_elem?, length, inl, inr, Bool-cases, ==_iff,
}
use itmmorgue.Protocol.Types.{Mbuf, put_players_full}
use itmmorgue.Protocol.Fifo.{stamp, capacity}
use itmmorgue.Player.{
  Player, PlayerMove, Roster, max_players, moved, Event, ev_none, ev_wait, ev_move,
}
use itmmorgue.Event.{ev_count_players, apply_from}
use itmmorgue.Event.Turn.{Ready, turned, stepped, or_same, slot_after, apply_from-Turned}
use itmmorgue.Event.Ready.{eventful, ev_players_ready-eventful}
use itmmorgue.Event.Loop.{event_loop}
use itmmorgue.World.{World, Payload, players_full, message}
use itmmorgue.Server.Send.{players_full_size}
use itmmorgue.Server.Handle.{send_all_full}
use itmmorgue.Server.Queues.{Queued, with_heap}
use itmmorgue.Server.Broadcast.{Queued-same}
use itmmorgue.Server.Snapshot.{snapshot, s_send_players_full-Queued}

event_loop-eq :
    (w w' : World) (r : Roster) (n : ℕ)
    → w.start ≢ 0
    → ev_count_players w.roster ≡ ok n
    → n ≢ 0
    → apply_from w.players_len 0 w.roster ≡ ok r
    → send_all_full w.players_len 0 (record w { roster = r }) ≡ ok w'
    → event_loop w ≡ ok w'
unfolding event_loop
event_loop-eq w w' r n s counted some_event applied sent = ground arith

-- The message that player `p` is told.
abbrev pub news_for : World → Player → Mbuf Payload
news_for w p = stamp (message put_players_full players_full_size (players_full (snapshot w p)))

-- A move changes neither the connection nor whether there is one.
abbrev Keeps : Player → Player → Type 0
Keeps p q = (q.connected ≡ p.connected) × (q.connection ≡ p.connection)

moved-Keeps : (d : ℕ) (p q : Player) → moved d p ≡ ok q → Keeps p q
unfolding moved
moved-Keeps d p q e = (ground arith, ground arith)

or_same-Keeps :
    (p : Player) (r : Result Player) → ((q : Player) → r ≡ ok q → Keeps p q) → Keeps p (or_same p r)
or_same-Keeps p (ok q) h = h q refl
or_same-Keeps p (stop e) h = (refl, refl)

stepped-Keeps :
    (event : Event) (args : Option PlayerMove) (p : Player) → Keeps p (stepped event args p)
stepped-Keeps ev_move (some m) p =
    or_same-Keeps p (moved m.direction p) (λ q e. moved-Keeps m.direction p q e)
stepped-Keeps ev_move none p = (refl, refl)
stepped-Keeps ev_none args p = (refl, refl)
stepped-Keeps ev_wait args p = (refl, refl)

-- Player `j` is connected at the address that `addr` gives, and what waits there is `ms j`.
module _ (addr : ℕ → ℕ) (ms : ℕ → List (Mbuf Payload)) where
  pub record Listens (w : World) (j : ℕ) : Type 0 where
    pub player : Player
    pub at : get_elem? w.players j ≡ some player
    pub connected : player.connected ≢ 0
    pub connection : player.connection ≡ some (addr j)
    pub queued : Queued w (addr j) (ms j)
    pub room : length (ms j) < capacity

  pub record Told (w w' : World) (j : ℕ) : Type 0 where
    pub player : Player
    pub at : get_elem? w.players j ≡ some player
    pub queue : Queued w' (addr j) (ms j ++ news_for w player ∷ [])

  -- Two players of the slots from `i` to `i + n` have two connections.
  abbrev pub Apart : ℕ → ℕ → Type 0
  Apart n i = (j k : ℕ) → i ≤ j → j < i + n → i ≤ k → k < i + n → j ≢ k → addr j ≢ addr k

  pub record AllTold (n i : ℕ) (w w' : World) : Type 0 where
    pub told : (j : ℕ) → i ≤ j → j < i + n → Told w w' j
    pub outside :
        (b : ℕ) → ((j : ℕ) → i ≤ j → j < i + n → addr j ≢ b) → w'.connections b ≡ w.connections b
    pub same_rest : w' ≡ with_heap w w'.connections

  Listens-keep :
      (w v : World) (j : ℕ)
      → v.players ≡ w.players
      → v.connections (addr j) ≡ w.connections (addr j)
      → Listens w j
      → Listens v j
  Listens-keep w v j ps e l = record {
    player = l.player;
    at = ap (λ q. get_elem? q j) ps ∙ l.at;
    connected = l.connected;
    connection = l.connection;
    queued = Queued-same e l.queued;
    room = l.room;
  }

  Listens-turned :
      (w v : World) (j n : ℕ)
      → j < n
      → get_elem? v.players j ≡ slot_after n 0 j (get_elem? w.players j)
      → v.connections ≡ w.connections
      → Listens w j
      → Listens v j
  Listens-turned w v j n lt slot heap l =
      let p = l.player in
      let (same, conn) = stepped-Keeps p.ev_queue.event p.ev_queue.event_args p in
      record {
        player = turned p;
        at = ground (arith, slot, l.at);
        connected = λ e. l.connected (sym same ∙ e);
        connection = conn ∙ l.connection;
        queued = Queued-same (ap (λ h. h (addr j)) heap) l.queued;
        room = l.room;
      }

  send_all_full-AllTold :
      (n i : ℕ) (w : World)
      → w.players_len ≤ max_players
      → Apart n i
      → ((j : ℕ) → i ≤ j → j < i + n → Listens w j)
      → (w' : World) × (send_all_full n i w ≡ ok w') × AllTold n i w w'
  unfolding send_all_full
  send_all_full-AllTold zero i w few apart all = (
    w,
    refl,
    record { told = λ j le lt. absurd (omega arith); outside = λ b f. refl; same_rest = refl },
  )
  send_all_full-AllTold (suc n) i w few apart all =
      let l = all i (omega arith) (omega arith) in
      let (w₁, e₁, q₁, o₁) =
        s_send_players_full-Queued w i (addr i) l.player (ms i) l.at l.connected l.connection few
          l.queued l.room in
      let v = with_heap w w₁.connections in
      let still : (j : ℕ) → i + 1 ≤ j → j < i + 1 + n → Listens v j = λ j le lt.
        Listens-keep w v j refl
          (o₁.others (addr j)
            (apart j i (omega arith) (omega arith) (omega arith) (omega arith) (omega arith)))
          (all j (omega arith) (omega arith)) in
      let narrow : Apart n (i + 1) =
        λ j k a b c d. apart j k (omega arith) (omega arith) (omega arith) (omega arith) in
      let (w₂, e₂, r) = send_all_full-AllTold n (i + 1) v few narrow still in
      let mine : w₂.connections (addr i) ≡ w₁.connections (addr i) = r.outside (addr i) (λ j le lt.
        apart j i (omega arith) (omega arith) (omega arith) (omega arith) (omega arith)) in
      (
        w₂,
        rw e₁ (ap (send_all_full n (i + 1)) o₁.same_rest ∙ e₂),
        record {
          told = λ j le lt. elim (Bool-cases (j == i)) [
            | inl here ↦
                subst (Told w w₂) (sym ((==_iff j i).0 here))
                  (record { player = l.player; at = l.at; queue = Queued-same mine q₁ })
            | inr later ↦
                let t = r.told j (ground arith) (omega arith) in
                record { player = t.player; at = t.at; queue = t.queue }
          ];
          outside = λ b f.
              r.outside b (λ j le lt. f j (omega arith) (omega arith))
              ∙ o₁.others b (λ e. f i (omega arith) (omega arith) (sym e));
          same_rest = r.same_rest;
        },
      )

  -- What a turn leaves: the players that count have made their moves, and each is told where all are.
  pub record Played (w w' : World) : Type 0 where
    pub slots_are :
        (j : ℕ) → get_elem? w'.players j ≡ slot_after w.players_len 0 j (get_elem? w.players j)
    pub told : (j : ℕ) → j < w.players_len → Told (record w { roster = w'.roster }) w' j
    pub outside :
        (b : ℕ) → ((j : ℕ) → j < w.players_len → addr j ≢ b) → w'.connections b ≡ w.connections b

  -- Where the game runs, some player has an event, each of the at most five players that count is
  -- in the array, in range, with no event or a move of its own in one of the eight directions, and
  -- is connected over a connection of its own with room in its queue: the pass of `event_loop`
  -- behind the waiting succeeds, every such player has moved and has no event left, each is told
  -- all new positions behind what its queue held, and no other connection changes.
  pub event_loop-Played :
      (w : World)
      → w.start ≢ 0
      → w.players_len ≤ max_players
      → w.players_len ≤ length w.players
      → eventful w.players_len 0 w.players ≢ 0
      → Apart w.players_len 0
      → ((j : ℕ) → j < w.players_len → Ready j (get_elem? w.players j))
      → ((j : ℕ) → j < w.players_len → Listens w j)
      → (w' : World) × (event_loop w ≡ ok w') × Played w w'
  event_loop-Played w s few inside some_event apart ready listens =
      let (r, e₁, t) =
        apply_from-Turned w.players_len 0 w.roster (λ j le lt. ready j (omega arith)) in
      let v = record w { roster = r } in
      let len : v.players_len ≡ w.players_len = ap (λ (u : Roster). u.players_len) t.same_rest in
      let hears : (j : ℕ) → 0 ≤ j → j < 0 + w.players_len → Listens v j = λ j le lt.
        Listens-turned w v j w.players_len (omega arith) (t.slots_are j) refl
          (listens j (omega arith)) in
      let (w₂, e₂, a) = send_all_full-AllTold w.players_len 0 v (omega arith) apart hears in
      let same : w₂.roster ≡ r = ap (λ (u : World). u.roster) a.same_rest in
      (
        w₂,
        event_loop-eq w w₂ r _ s (ev_players_ready-eventful w.roster inside).0 some_event e₁ e₂,
        record {
          slots_are = λ j. ap (λ (u : Roster). get_elem? u.players j) same ∙ t.slots_are j;
          told = λ j lt.
              subst (λ u. Told (record w { roster = u }) w₂ j) (sym same)
                (a.told j (omega arith) (omega arith));
          outside = λ b f. a.outside b (λ j le lt. f j (omega arith));
        },
      )

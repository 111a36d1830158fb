-- ===== src/Event/Turn.antt =====
-- Step 4 of `event_loop` in src/event.c: every player makes its pending move, and no event is left.
use mathlib.Core.Option
use mathlib.Core.Path.{subst}
use itmmorgue.Base.{
  ℕ, zero, suc, ◌+◌, ◌≤◌, ◌<◌, ◌≡◌, refl, sym, ◌∙◌, ap, Option, none, some, arith, leb, ltb, ◌&&◌,
  if◌then◌else◌, Result, ok, stop, get_elem?, get_elem?-set, get_elem?-set_self, get_elem?-set_ne,
  lt_of_get_elem?, set-set, set-get_elem?,
}
use itmmorgue.Player.{
  Player, PlayerMove, Event, ev_none, ev_wait, ev_move, Roster, moved, player_at, put_player,
  player_move,
}
use itmmorgue.Player.Moves.{IsDirection, InRange, moved_total, player_move-eq}
use itmmorgue.Event.{apply_event, apply_from, no_event}

-- The player in slot `id` has no event, or a move of its own in one of the eight directions.
abbrev pub CanApply : ℕ → Event → Option PlayerMove → Type 0
CanApply id ev_none args = Unit
CanApply id ev_wait args = ⊥
CanApply id ev_move none = ⊥
CanApply id ev_move (some m) = (m.player_id ≡ id) × IsDirection m.direction

abbrev pub or_same : Player → Result Player → Player
or_same p (ok q) = q
or_same p (stop s) = p

-- Where an event leads the player on its own.
abbrev pub stepped : Event → Option PlayerMove → Player → Player
stepped ev_move (some m) p = or_same p (moved m.direction p)
stepped _ _ p = p

abbrev pub turned : Player → Player
turned p = record (stepped p.ev_queue.event p.ev_queue.event_args p) { ev_queue = no_event }

-- Applying a player's event changes its own slot alone.
apply_event-put :
    (r : Roster) (id : ℕ) (p : Player) (e : Event) (args : Option PlayerMove)
    → get_elem? r.players id ≡ some p
    → CanApply id e args
    → InRange p
    → apply_event r e args ≡ ok (put_player r id (stepped e args p))
unfolding apply_event
apply_event-put r id p ev_none args at can v =
    ap (λ ps. ok (record r { players = ps })) (sym (set-get_elem? r.players id at))
apply_event-put r id p ev_wait args at can v = absurd can
apply_event-put r id p ev_move none at can v = absurd can
apply_event-put r id p ev_move (some m) at can v =
    let (q, e) = moved_total m.direction p can.1 v in
    let here = player_move-eq r id at m.direction e in
    subst
      (λ k.
        player_move r (record { direction = m.direction; player_id = k }) ≡ ok (put_player r id q))
      (sym can.0) here
    ∙ ap (λ x. ok (put_player r id (or_same p x))) (sym e)

-- A player whose event can be applied, if it is in the slot.
abbrev pub Ready : ℕ → Option Player → Type 0
Ready id none = ⊥
Ready id (some p) = CanApply id p.ev_queue.event p.ev_queue.event_args × InRange p

-- What the loop leaves in slot `j`.
abbrev pub slot_after : ℕ → ℕ → ℕ → Option Player → Option Player
slot_after n id j o = if leb id j && ltb j (id + n) then Option.map turned o else o

pub record Turned (n id : ℕ) (r r' : Roster) : Type 0 where
  pub slots_are : (j : ℕ) → get_elem? r'.players j ≡ slot_after n id j (get_elem? r.players j)
  pub same_rest : r' ≡ record r { players = r'.players }

some_of_Ready :
    (id : ℕ) (o : Option Player)
    → Ready id o
    → (p : Player) × (o ≡ some p) × CanApply id p.ev_queue.event p.ev_queue.event_args × InRange p
some_of_Ready id none h = absurd h
some_of_Ready id (some p) h = (p, refl, h.0, h.1)

-- One round: the player in slot `id` turns.
apply_from-suc :
    (n id : ℕ) (r : Roster) (p : Player)
    → get_elem? r.players id ≡ some p
    → CanApply id p.ev_queue.event p.ev_queue.event_args
    → InRange p
    → apply_from (suc n) id r ≡ apply_from n (id + 1) (put_player r id (turned p))
unfolding apply_from player_at
apply_from-suc n id r p at can v =
    let q = stepped p.ev_queue.event p.ev_queue.event_args p in
    let here = get_elem?-set_self r.players id q (lt_of_get_elem? r.players id at) in
    rw (at, apply_event-put r id p p.ev_queue.event p.ev_queue.event_args at can v, here)
      (ap (λ ps. apply_from n (id + 1) (record r { players = ps }))
        (set-set r.players id q (turned p)))

-- If each of the `n` slots from `id` on holds a player in range that has no event, or a move of its
-- own in one of the eight directions, then step 4 succeeds over these slots: each of these players
-- moved by its event and has none left, and all else is as it was.
pub apply_from-Turned :
    (n id : ℕ) (r : Roster)
    → ((j : ℕ) → id ≤ j → j < id + n → Ready j (get_elem? r.players j))
    → (r' : Roster) × (apply_from n id r ≡ ok r') × Turned n id r r'
unfolding apply_from
apply_from-Turned zero id r h =
    (r, refl, record { slots_are = λ j. ground arith; same_rest = refl })
apply_from-Turned (suc n) id r h =
    let (p, at, can, v) = some_of_Ready id _ (h id (omega arith) (omega arith)) in
    let s = put_player r id (turned p) in
    let lt = lt_of_get_elem? r.players id at in
    let later = λ (j : ℕ) (le : id + 1 ≤ j) (lj : j < id + 1 + n).
      subst (Ready j) (sym (get_elem?-set_ne r.players id j (turned p) (omega arith)))
        (h j (omega arith) (omega arith)) in
    let (r', e, t) = apply_from-Turned n (id + 1) s later in
    (
      r',
      apply_from-suc n id r p at can v ∙ e,
      record {
        slots_are =
            λ j. ground (arith, t.slots_are j, get_elem?-set r.players id j (turned p) lt, at);
        same_rest = t.same_rest;
      },
    )

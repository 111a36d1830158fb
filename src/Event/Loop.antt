-- ===== src/Event/Loop.antt =====
-- One pass of `event_loop` in src/event.c.
use itmmorgue.Base.{
  ℕ, zero, suc, ◌+◌, ◌*◌, ◌≤◌, ◌<◌, ◌≡◌, refl, ◌∙◌, ap, ◌⊎◌, inl, inr, Bool, true, false, not, ◌&&◌,
  Option, none, some, arith, ◌==◌, ltb, Result, ok, ◌>>=◌, Bool-cases,
}
use itmmorgue.Event.{ev_count_players, apply_from}
use itmmorgue.World.{World}
use itmmorgue.Server.Handle.{send_all_full}

abbrev pub ev_turn : ℕ
ev_turn = 4000000

abbrev pub ev_step : ℕ
ev_step = 10000

-- `for (uticks = 0; ! ev_players_ready() && uticks < EV_TURN; uticks += EV_STEP) usleep(EV_STEP)`: the
-- answer to the `k`-th question is `ready k`, and the result is `uticks` when the loop ends.
unfoldable pub wait_others : (ℕ → Bool) → ℕ → ℕ → ℕ → Option ℕ
wait_others ready zero k uticks = none
wait_others ready (suc fuel) k uticks = elim (not (ready k) && ltb uticks ev_turn) [
  | false ↦ some uticks
  | true ↦ wait_others ready fuel (k + 1) (uticks + ev_step)
]

-- The pass from the end of the waiting on. While it waits, the other threads work on.
unfoldable pub event_loop : World → Result World
event_loop w = elim (w.start == 0) [
  | true ↦ ok w
  | false ↦ do
    n ← ev_count_players w.roster
    elim (n == 0) [
      | true ↦ ok w
      | false ↦ do
        r ← apply_from w.players_len 0 w.roster
        send_all_full w.players_len 0 (record w { roster = r })
    ]
]

-- Where the waiting ended: at question `k`, with every player ready or the whole turn over.
abbrev pub EndsAt : (ℕ → Bool) → Option ℕ → Type 0
EndsAt ready o =
    (k : ℕ) × (o ≡ some (k * ev_step)) × (k ≤ 400) × ((ready k ≡ true) ⊎ (k * ev_step ≡ ev_turn))

wait_others-EndsAt :
    (ready : ℕ → Bool) (fuel k : ℕ)
    → 401 ≤ fuel + k
    → k ≤ 400
    → EndsAt ready (wait_others ready fuel k (k * ev_step))
unfolding wait_others
wait_others-EndsAt ready zero k h le = absurd (omega arith)
wait_others-EndsAt ready (suc fuel) k h le =
    elim (Bool-cases (not (ready k) && ltb (k * ev_step) ev_turn)) [
      | inl waits ↦
          let lt : k < 400 = ground arith in
          let (j, e, le', last) =
            wait_others-EndsAt ready fuel (k + 1) (omega arith) (omega arith) in
          (
            j,
            rw (waits, wait_others) (ap (wait_others ready fuel (k + 1)) (omega arith) ∙ e),
            le',
            last,
          )
      | inr ends ↦ (k, rw (ends, wait_others) refl, le, ground arith)
    ]

-- The waiting for the others asks at most 401 times, and ends when every player is ready or the whole
-- turn is over.
pub wait_others_ends : (ready : ℕ → Bool) → EndsAt ready (wait_others ready 401 0 0)
wait_others_ends ready = wait_others-EndsAt ready 401 0 (omega arith) (omega arith)

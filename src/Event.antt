-- ===== src/Event.antt =====
-- src/event.h and the queue of one event per player in src/event.c. The turn that applies the events is
-- the child Turn. An operation runs under the player's mutex, so it is one step.
pub mod Turn
pub mod Ready
pub mod Loop
mod Tests
use itmmorgue.Base.{
  ℕ, zero, suc, ◌+◌, Bool, true, false, Option, none, Result, ok, stop, panic, illegal_event,
  or_undefined, ◌>>=◌,
}
use itmmorgue.Player.{
  Event, ev_none, ev_wait, ev_move, EventQueue, PlayerMove, Roster, player_at, put_player,
  player_move,
}

-- A move that is still pending is replaced, and its memory freed.
unfoldable pub event_player_add : Roster → ℕ → Event → Option PlayerMove → Result Roster
event_player_add r id event move = do
  p ← player_at r id
  ok (put_player r id (record p { ev_queue = record { event = event; event_args = move } }))

abbrev pub has_event : Event → Bool
has_event ev_none = false
has_event _ = true

-- The loop of `ev_players_ready` for `n` players from `id` on: it stops at the first that has none.
unfoldable pub ready_from : ℕ → ℕ → Roster → Result Bool
ready_from zero id r = ok true
ready_from (suc n) id r = do
  p ← player_at r id
  elim (has_event p.ev_queue.event) [ false ↦ ok false | true ↦ ready_from n (id + 1) r ]

unfoldable pub ev_players_ready : Roster → Result Bool
unfolding ready_from
ev_players_ready r = ready_from r.players_len 0 r

unfoldable pub count_from : ℕ → ℕ → ℕ → Roster → Result ℕ
count_from zero id rc r = ok rc
count_from (suc n) id rc r = do
  p ← player_at r id
  count_from n (id + 1) (elim (has_event p.ev_queue.event) [ true ↦ rc + 1 | false ↦ rc ]) r

unfoldable pub ev_count_players : Roster → Result ℕ
unfolding count_from
ev_count_players r = count_from r.players_len 0 0 r

-- The switch of step 4 of `event_loop`, on the event of one player.
unfoldable pub apply_event : Roster → Event → Option PlayerMove → Result Roster
apply_event r ev_none args = ok r
apply_event r ev_wait args = stop (panic illegal_event)
apply_event r ev_move args = do move ← or_undefined args; player_move r move

abbrev pub no_event : EventQueue
no_event = record { event = ev_none; event_args = none }

-- The loop of step 4, for `n` players from `id` on: apply, then clean up.
unfoldable pub apply_from : ℕ → ℕ → Roster → Result Roster
unfolding apply_event
apply_from zero id r = ok r
apply_from (suc n) id r = do
  p ← player_at r id
  r' ← apply_event r p.ev_queue.event p.ev_queue.event_args
  p' ← player_at r' id
  apply_from n (id + 1) (put_player r' id (record p' { ev_queue = no_event }))

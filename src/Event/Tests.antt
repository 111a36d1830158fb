-- ===== src/Event/Tests.antt =====
-- A turn of two players, one of which moves, and the theorems about a turn at it.
use itmmorgue.Base.{
  ℕ, zero, suc, ◌≡◌, ◌≤◌, ◌<◌, refl, Bool, false, Option, none, some, ◌∷◌, ◌++◌, arith, ok,
  get_elem?, replicate, codes,
}
use itmmorgue.Player.{Player, PlayerMove, Roster, Event, ev_none, ev_move}
use itmmorgue.Event.{apply_from}
use itmmorgue.Event.Turn.{Turned, Ready, apply_from-Turned}
use itmmorgue.Event.Loop.{EndsAt, wait_others, wait_others_ends}

abbrev with_event : Event → Option PlayerMove → Player
with_event event args = record {
  color = 9;
  y = 8;
  x = 48;
  nickname = codes "Ada" ++ replicate 29 0;
  ready = 0;
  connected = 1;
  start = 0;
  connection = some 1000;
  ev_queue = record { event = event; event_args = args };
}

abbrev two_of_five : Roster
two_of_five = record {
  players =
      with_event ev_move (some (record { direction = 5; player_id = 0 }))
      ∷ replicate 4 (with_event ev_none none);
  players_len = 2;
  player_self = 0;
  players_total = 2;
}

two_of_five-Ready : (j : ℕ) → 0 ≤ j → j < 2 → Ready j (get_elem? two_of_five.players j)
two_of_five-Ready zero h lt =
    ((refl, (omega arith, omega arith)), record { y_in = omega arith; x_in = omega arith })
two_of_five-Ready (suc zero) h lt = (tt, record { y_in = omega arith; x_in = omega arith })
two_of_five-Ready (suc (suc j)) h lt = absurd (omega arith)

apply_from-Turned_example :
    (r' : Roster) × (apply_from 2 0 two_of_five ≡ ok r') × Turned 2 0 two_of_five r'
apply_from-Turned_example = apply_from-Turned 2 0 two_of_five two_of_five-Ready

abbrev never : ℕ → Bool
never k = false

wait_others_ends_example : EndsAt never (wait_others never 401 0 0)
wait_others_ends_example = wait_others_ends never

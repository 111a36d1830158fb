-- ===== src/Event/Ready.antt =====
-- The two questions that `event_loop` in src/event.c asks: whether every player has an event, and how
-- many have one.
use itmmorgue.Base.{
  ℕ, zero, suc, ◌+◌, ◌≤◌, ◌≡◌, refl, ◌∙◌, ap, true, false, Option, none, some, List, arith, ◌==◌,
  ok, get_elem?, length, get_elem?-of_lt,
}
use itmmorgue.Player.{Player, Roster, player_at}
use itmmorgue.Event.{has_event, ready_from, ev_players_ready, count_from, ev_count_players}

abbrev pub counts : Option Player → ℕ
counts none = 0
counts (some p) = elim (has_event p.ev_queue.event) [ true ↦ 1 | false ↦ 0 ]

-- How many of `n` slots from `id` on hold a player with an event.
abbrev pub eventful : ℕ → ℕ → List Player → ℕ
eventful zero id ps = 0
eventful (suc n) id ps = counts (get_elem? ps id) + eventful n (id + 1) ps

pub eventful-le : (n id : ℕ) (ps : List Player) → eventful n id ps ≤ n
eventful-le zero id ps = omega arith
eventful-le (suc n) id ps = omega (arith, eventful-le n (id + 1) ps, counts-le (get_elem? ps id))
  where
    counts-le : (o : Option Player) → counts o ≤ 1
    counts-le none = omega arith
    counts-le (some p) = ground arith

count_from-eventful :
    (n id rc : ℕ) (r : Roster)
    → id + n ≤ length r.players
    → count_from n id rc r ≡ ok (rc + eventful n id r.players)
unfolding count_from player_at
count_from-eventful zero id rc r h = ap ok (omega arith)
count_from-eventful (suc n) id rc r h =
    let (p, e) = get_elem?-of_lt r.players id (omega arith) in
    ground
      (arith, e, count_from-eventful n (id + 1) (rc + 1) r, count_from-eventful n (id + 1) rc r)

ready_from-eventful :
    (n id : ℕ) (r : Roster)
    → id + n ≤ length r.players
    → ready_from n id r ≡ ok (eventful n id r.players == n)
unfolding ready_from player_at
ready_from-eventful zero id r h = refl
ready_from-eventful (suc n) id r h =
    let (p, e) = get_elem?-of_lt r.players id (omega arith) in
    ground (arith, e, ready_from-eventful n (id + 1) r, eventful-le n (id + 1) r.players)

-- Where the players that count are in the array, `ev_count_players` is the number of them that have
-- an event, and `ev_players_ready` says whether that is all of them.
pub ev_players_ready-eventful :
    (r : Roster)
    → r.players_len ≤ length r.players
    → (ev_count_players r ≡ ok (eventful r.players_len 0 r.players))
      × (ev_players_ready r ≡ ok (eventful r.players_len 0 r.players == r.players_len))
unfolding ev_count_players ev_players_ready
ev_players_ready-eventful r h = (
  count_from-eventful r.players_len 0 0 r (omega arith) ∙ ap ok (omega arith),
  ready_from-eventful r.players_len 0 r (omega arith),
)

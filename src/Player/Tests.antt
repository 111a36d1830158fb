-- ===== src/Player/Tests.antt =====
-- An array of two players, and the theorems about the players at it.
use itmmorgue.Base.{
  get_elem?, ℕ, ◌≤◌, ◌≡◌, refl, none, some, [], ◌∷◌, ◌++◌, arith, ok, stop, undefined, ◌>>=◌,
  replicate, codes,
}
use itmmorgue.Player.{Player, Roster, player_move, player_init, ev_none}
use itmmorgue.Player.Moves.{opposite, player_move-opposite}
use itmmorgue.Player.Init.{IsValid, Takes, player_init-Takes, player_init_full}
use itmmorgue.Player.Receive.{
  Players, c_receive_players, c_receive_players-Taken, Taken, recoloured,
}

abbrev at_corner : Player
at_corner = record {
  color = 9;
  y = 0;
  x = 0;
  nickname = codes "Ada" ++ replicate 29 0;
  ready = 0;
  connected = 1;
  start = 0;
  connection = some 1000;
  ev_queue = record { event = ev_none; event_args = none };
}

abbrev counting : ℕ → Roster
counting n = record {
  players = replicate 5 at_corner;
  players_len = n;
  player_self = 0;
  players_total = n;
}

counting-IsValid : (n : ℕ) → n ≤ 5 → IsValid (counting n)
counting-IsValid n h = record {
  slots = refl;
  len_in = h;
  names = (refl, (refl, (refl, (refl, (refl, tt)))));
}

-- At the corner the position goes round, and comes back.
player_move-opposite_example :
    (player_move (counting 2) (record { direction = 8; player_id = 1 }) >>= λ r.
    player_move r (record { direction = opposite 8; player_id = 1 }))
    ≡ ok (counting 2)
player_move-opposite_example =
    player_move-opposite (counting 2) 8 1 at_corner (omega arith, omega arith) refl
      (record { y_in = omega arith; x_in = omega arith })

player_init-Takes_example :
    (id : ℕ) × (r' : Roster) × (player_init (counting 2) 0 9 (codes "bsi") 3000 ≡ ok (id, r'))
    × Takes 0 9 3000 (codes "bsi") (counting 2) id r'
player_init-Takes_example =
    player_init-Takes 0 9 3000 (codes "bsi") (counting 2) (counting-IsValid 2 (omega arith))
      (omega arith)

player_init_full_example : player_init (counting 5) 0 9 (codes "bsi") 3000 ≡ stop undefined
player_init_full_example =
    player_init_full 0 9 3000 (codes "bsi") (counting 5) (counting-IsValid 5 (omega arith)) refl

abbrev news : Players
news = record {
  players = record { color = 3; y = 4; x = 5 } ∷ record { color = 6; y = 7; x = 8 } ∷ [];
  self = some 1;
  players_len = 2;
}

c_receive_players-Taken_example :
    (r' : Roster) × (c_receive_players (counting 0) (some news) ≡ ok r')
    × Taken 1 2
        (λ j. recoloured (get_elem? news.players j) (get_elem? (counting 0).players j))
        (counting 0)
        r'
c_receive_players-Taken_example =
    c_receive_players-Taken (counting 0) refl news 1 refl (omega arith) (omega arith)

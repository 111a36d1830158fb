-- ===== src/Player/Moves.antt =====
-- What `player_move` of src/player.c does to the array of players.
use itmmorgue.Base.{
  ℕ, ◌-◌, ◌^◌, ◌≤◌, ◌<◌, ◌≡◌, ◌∙◌, ap, ◌↔◌, arith, some, ltb, if◌then◌else◌, ok, stop, panic,
  invalid_direction, ◌>>=◌, get_elem?, get_elem?-set_self, >>=-eq-ok, lt_of_get_elem?, set-set,
  set-get_elem?,
}
use itmmorgue.Player.{Player, Roster, moved, player_at, player_move, put_player}

-- The eight directions of `enum keyboard`.
abbrev pub IsDirection : ℕ → Type 0
IsDirection d = (4 ≤ d) × (d ≤ 11)

-- A position that its uint16_t fields can hold.
pub record InRange (p : Player) : Type 0 where
  pub y_in : p.y < 2 ^ 16
  pub x_in : p.x < 2 ^ 16

-- The direction that leads back.
abbrev pub opposite : ℕ → ℕ
opposite d = if ltb d 8 then (if ltb d 6 then 9 - d else 13 - d) else 19 - d

pub moved-InRange : (d : ℕ) (p : Player) {q : Player} → InRange p → moved d p ≡ ok q → InRange q
unfolding moved
moved-InRange d p v e = ground arith

pub moved-opposite :
    (d : ℕ) (p : Player) → IsDirection d → InRange p → (moved d p >>= moved (opposite d)) ≡ ok p
unfolding moved
moved-opposite d p i v = ground arith

-- A key makes a player's move panic exactly if it is none of the eight directions.
pub moved_panics :
    (d : ℕ) (p : Player) → (moved d p ≡ stop (panic invalid_direction)) ↔ (¬ IsDirection d)
unfolding moved
moved_panics d p = (λ e i. ground arith, λ n. ground arith)

pub moved_total :
    (d : ℕ) (p : Player) → IsDirection d → InRange p → (q : Player) × (moved d p ≡ ok q)
moved_total d p i v =
    let (q, e, back) = >>=-eq-ok (moved d p) (moved (opposite d)) (moved-opposite d p i v) in (q, e)

module _ (r : Roster) (id : ℕ) {p : Player} (at : get_elem? r.players id ≡ some p) where
  -- `player_move` replaces the player by what the switch makes of it, and touches no other.
  pub player_move-eq :
      (d : ℕ) {q : Player}
      → moved d p ≡ ok q
      → player_move r (record { direction = d; player_id = id }) ≡ ok (put_player r id q)
  unfolding player_move player_at
  player_move-eq d e = rw (at, e)

-- A move in one of the eight directions of a player whose position is in range, and the move back,
-- succeed and restore every player.
pub player_move-opposite :
    (r : Roster) (d id : ℕ) (p : Player)
    → IsDirection d
    → get_elem? r.players id ≡ some p
    → InRange p
    → (player_move r (record { direction = d; player_id = id }) >>= λ r'.
        player_move r' (record { direction = opposite d; player_id = id }))
      ≡ ok r
player_move-opposite r d id p i e v =
    let (q, go, back) = >>=-eq-ok (moved d p) (moved (opposite d)) (moved-opposite d p i v) in
    let here = get_elem?-set_self r.players id q (lt_of_get_elem? r.players id e) in
    rw (player_move-eq r id e d go, player_move-eq (put_player r id q) id here (opposite d) back)
      (ap (λ ps. ok (record r { players = ps }))
        (set-set r.players id q p ∙ set-get_elem? r.players id e))

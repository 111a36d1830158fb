-- ===== src/Server/System/Rosters.antt =====
-- What the functions of src/player.c, src/event.c and src/server.c that write players keep of them.
use mathlib.Core.Path.{subst}
use itmmorgue.Base.{
  same_ok, ℕ, suc, ◌+◌, ◌≤◌, ◌<◌, ◌≡◌, refl, sym, ◌∙◌, ap, arith, Option, none, some, Bool, true,
  false, ◌==◌, ltb, leb, ◌&&◌, if◌then◌else◌, ok, or_undefined, >>=-eq-ok, length, get_elem?,
  lt_of_get_elem?, Bytes, List, [], ◌∷◌, get_elem?-of_lt,
}
use itmmorgue.Player.{
  Player, Roster, EventQueue, Event, PlayerMove, ev_none, ev_wait, ev_move, moved, put_player,
  player_at, player_init, strncpy, max_players, player_name_maxlen,
}
use itmmorgue.Player.Moves.{IsDirection, moved-InRange, moved_total}
use itmmorgue.Player.Init.{length-strncpy}
use itmmorgue.Keyboard.{k_move_left, k_move_right_down}
use itmmorgue.Event.{event_player_add, apply_from, no_event}
use itmmorgue.Event.Turn.{CanApply, Ready, turned, stepped, or_same, slot_after, apply_from-Turned}
use itmmorgue.Server.System.Sound.{SoundPlayer, SoundSlot, SoundRoster, put_player-SoundRoster}
use itmmorgue.Server.System.Kept.{or_undefined-some}

pub put_player-Sound :
    (r : Roster) (id : ℕ) (p p' : Player)
    → get_elem? r.players id ≡ some p
    → (SoundPlayer id p → SoundPlayer id p')
    → SoundRoster r
    → SoundRoster (put_player r id p')
put_player-Sound r id p p' at keeps s =
    put_player-SoundRoster r id r.players_len p p' at keeps s.len_in s

-- A player whose name has its size, and that stays where it is with its event.
pub SoundPlayer-same :
    {id : ℕ} (p p' : Player)
    → length p'.nickname ≡ length p.nickname
    → p'.y ≡ p.y
    → p'.x ≡ p.x
    → p'.ev_queue ≡ p.ev_queue
    → SoundPlayer id p
    → SoundPlayer id p'
SoundPlayer-same {id} p p' n y x q s = record {
  named = n ∙ s.named;
  in_range = record { y_in = omega arith; x_in = omega arith };
  can_apply = subst (λ (e : EventQueue). CanApply id e.event e.event_args) (sym q) s.can_apply;
}

pub player_init-Sound :
    (r : Roster) (start color : ℕ) (name : Bytes) (a : ℕ) (x : ℕ × Roster)
    → player_init r start color name a ≡ ok x
    → SoundRoster r
    → SoundRoster x.1
unfolding player_init player_at
player_init-Sound r start color name a x e s =
    let (p, e₁, rest) = >>=-eq-ok (or_undefined (get_elem? r.players r.players_len)) _ e in
    let at = or_undefined-some (get_elem? r.players r.players_len) e₁ in
    let (nick, e₂, last) = >>=-eq-ok (strncpy p.nickname name player_name_maxlen) _ rest in
    let room = lt_of_get_elem? r.players r.players_len at in
    let size = s.slots in
    let fresh : Player = record p {
      connection = some a;
      color = color;
      nickname = nick;
      ready = 0;
      start = 0;
      y = if start == 3 then p.y else 8;
      x = if start == 3 then p.x else 48;
    } in
    subst (λ (y : ℕ × Roster). SoundRoster y.1) (same_ok last)
      (put_player-SoundRoster r r.players_len (r.players_len + 1) p fresh at
        (λ q. record {
          named = length-strncpy p.nickname name player_name_maxlen e₂ ∙ q.named;
          in_range = record {
            y_in = ground (arith, q.in_range);
            x_in = ground (arith, q.in_range);
          };
          can_apply = q.can_apply;
        })
        (omega arith) s)

-- A turn leaves the players in range, and without events.

moved-nickname : (d : ℕ) (p q : Player) → moved d p ≡ ok q → q.nickname ≡ p.nickname
unfolding moved
moved-nickname d p q e = ground arith

moved-Sound :
    (id : ℕ) (m : PlayerMove) (p : Player)
    → (m.player_id ≡ id) × IsDirection m.direction
    → SoundPlayer id p
    → SoundPlayer id (record (or_same p (moved m.direction p)) { ev_queue = no_event })
moved-Sound id m p can s =
    let (q, e) = moved_total m.direction p can.1 s.in_range in
    let r = moved-InRange m.direction p s.in_range e in
    rw e (record {
      named = ap length (moved-nickname m.direction p q e) ∙ s.named;
      in_range = record { y_in = r.y_in; x_in = r.x_in };
      can_apply = tt;
    })

turned-Sound :
    (id : ℕ) (p : Player) (e : Event) (args : Option PlayerMove)
    → CanApply id e args
    → SoundPlayer id p
    → SoundPlayer id (record (stepped e args p) { ev_queue = no_event })
turned-Sound id p ev_none args can s = record {
  named = s.named;
  in_range = record { y_in = s.in_range.y_in; x_in = s.in_range.x_in };
  can_apply = tt;
}
turned-Sound id p ev_wait args can s = absurd can
turned-Sound id p ev_move none can s = absurd can
turned-Sound id p ev_move (some m) can s = moved-Sound id m p can s

slot_after-Sound : (n j : ℕ) (o : Option Player) → SoundSlot j o → SoundSlot j (slot_after n 0 j o)
slot_after-Sound n j none s =
    elim (leb 0 j && ltb j (0 + n)) as (λ b. SoundSlot j (if b then none else none)) [
      | true ↦ tt
      | false ↦ tt
    ]
slot_after-Sound n j (some p) s =
    elim (leb 0 j && ltb j (0 + n)) as (λ b. SoundSlot j (if b then some (turned p) else some p)) [
      | true ↦ turned-Sound j p p.ev_queue.event p.ev_queue.event_args s.can_apply s
      | false ↦ s
    ]

-- In a sound array a turn can apply what is pending.
pub SoundRoster-Ready :
    {r : Roster} → SoundRoster r → (j : ℕ) → j < r.players_len → Ready j (get_elem? r.players j)
SoundRoster-Ready {r} s j lt =
    let in_array : j < length r.players = omega (arith, s.slots, s.len_in) in
    let (p, at) = get_elem?-of_lt r.players j in_array in
    let sound : SoundPlayer j p = subst (SoundSlot j) at (s.each j) in
    subst (Ready j) (sym at) (sound.can_apply, sound.in_range)

abbrev is_some : Option Player → Bool
is_some none = false
is_some (some p) = true

same_length :
    (xs ys : List Player)
    → ((j : ℕ) → is_some (get_elem? ys j) ≡ is_some (get_elem? xs j))
    → length ys ≡ length xs
same_length [] [] h = refl
same_length [] (y ∷ ys) h = absurd (cc (h 0))
same_length (x ∷ xs) [] h = absurd (cc (h 0))
same_length (x ∷ xs) (y ∷ ys) h = ap suc (same_length xs ys (λ j. h (suc j)))

slot_after-some : (n j : ℕ) (o : Option Player) → is_some (slot_after n 0 j o) ≡ is_some o
slot_after-some n j none =
    elim (leb 0 j && ltb j (0 + n)) as (λ b. is_some (if b then none else none) ≡ false) [
      | true ↦ refl
      | false ↦ refl
    ]
slot_after-some n j (some p) =
    elim (leb 0 j && ltb j (0 + n))
      as (λ b. is_some (if b then some (turned p) else some p) ≡ true) [
        | true ↦ refl
        | false ↦ refl
      ]

pub apply_from-Sound :
    (r r' : Roster) → apply_from r.players_len 0 r ≡ ok r' → SoundRoster r → SoundRoster r'
apply_from-Sound r r' e s =
    let (v, e', t) =
      apply_from-Turned r.players_len 0 r (λ j le lt. SoundRoster-Ready s j (omega arith)) in
    subst SoundRoster (same_ok (sym e' ∙ e)) (record {
      slots =
          same_length r.players v.players (λ j.
            ap is_some (t.slots_are j) ∙ slot_after-some r.players_len j (get_elem? r.players j))
          ∙ s.slots;
      len_in = subst (λ (u : Roster). u.players_len ≤ max_players) (sym t.same_rest) s.len_in;
      each = λ j.
          subst (SoundSlot j) (sym (t.slots_are j))
            (slot_after-Sound r.players_len j (get_elem? r.players j) (s.each j));
    })

pub total-Sound :
    (r : Roster) (n : ℕ) → SoundRoster r → SoundRoster (record r { players_total = n })
total-Sound r n s = record { slots = s.slots; len_in = s.len_in; each = s.each }

-- The move that `process_client` registers is the player's own.
pub event_player_add-Sound :
    (r r' : Roster) (id key : ℕ)
    → (leb k_move_left key && leb key k_move_right_down) ≡ true
    → event_player_add r id ev_move (some (record { direction = key; player_id = id })) ≡ ok r'
    → SoundRoster r
    → SoundRoster r'
unfolding event_player_add player_at
event_player_add-Sound r r' id key direction e s =
    let (p, e₁, last) = >>=-eq-ok (or_undefined (get_elem? r.players id)) _ e in
    let at = or_undefined-some (get_elem? r.players id) e₁ in
    let lo : 4 ≤ key = ground (arith, direction) in
    let hi : key ≤ 11 = ground (arith, direction) in
    let moves : Player = record p {
      ev_queue = record {
        event = ev_move;
        event_args = some (record { direction = key; player_id = id });
      };
    } in
    subst SoundRoster (same_ok last) (
      put_player-Sound r id p moves at
        (λ q. record {
          named = q.named;
          in_range = record { y_in = q.in_range.y_in; x_in = q.in_range.x_in };
          can_apply = (refl, (lo, hi));
        })
        s)

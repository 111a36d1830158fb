-- ===== src/Server/Return.antt =====
-- A player that falls out of a running game and comes back: `player_connected_off` and the loop for
-- reconnects in `process_client`, both of src/server.c.
use Prim.Native.Nat.{bit_xor}
use itmmorgue.Base.{
  ℕ, zero, suc, ◌+◌, ◌-◌, ◌%◌, ◌^◌, ◌≤◌, ◌<◌, ◌≡◌, refl, sym, ◌∙◌, ap, ◌≢◌, some, arith, ◌==◌, ◌&&◌,
  if◌then◌else◌, ok, stop, exit_success, ◌>>=◌, get_elem?, set, length, length-set, get_elem?-set,
  get_elem?-set_self, get_elem?-set_ne, lt_of_get_elem?, replicate, Bool, true, false, Bool-cases,
  inl, inr, ==_iff,
}
use itmmorgue.Player.{Player, player_at, l_black, player_name_maxlen}
use itmmorgue.World.{World}
use itmmorgue.Server.Leave.{mark_gone, player_connected_off}
use itmmorgue.Server.Handle.{revive}

-- If a player of a running game is gone and at most one was counted, the server exits successfully.
pub player_connected_off_exits :
    (w : World) (id : ℕ) (p : Player)
    → w.start ≢ 0
    → get_elem? w.players id ≡ some p
    → w.players_total ≤ 1
    → player_connected_off w id ≡ stop exit_success
unfolding player_connected_off mark_gone player_at
player_connected_off_exits w id p s at last = ground (arith, at)

-- A test that holds of each of the numbers below `n`, one by one.
abbrev sweep : ℕ → (ℕ → Bool) → Bool
sweep zero test = true
sweep (suc n) test = test n && sweep n test

sweep_all : (n : ℕ) (test : ℕ → Bool) → sweep n test ≡ true → (c : ℕ) → c < n → test c ≡ true
sweep_all zero test e c lt = absurd (omega arith)
sweep_all (suc n) test e c lt = elim (Bool-cases (c == n)) [
  | inl here ↦ ap test ((==_iff c n).0 here) ∙ ground arith
  | inr below ↦ sweep_all n test (ground arith) c (ground arith)
]

-- Marking one of the sixteen colours twice gives it back.
marked_twice : (c : ℕ) → c < 16 → bit_xor (bit_xor c l_black) l_black ≡ c
marked_twice c h =
    (==_iff _ _).0 (sweep_all 16 (λ c. bit_xor (bit_xor c l_black) l_black == c) refl c h)

-- What a player's return makes of player `id` and of the slot `new` that its new connection took.
pub record Returned (w w' : World) (id new : ℕ) (p q : Player) : Type 0 where
  pub slots_are :
      (j : ℕ)
      → get_elem? w'.players j ≡ (
          if j == id
          then some (record p { connection = q.connection; connected = 1; start = 1 })
          else if j == new
          then some (record q { nickname = replicate player_name_maxlen 0 })
          else get_elem? w.players j)
  pub one_fewer : w'.players_len ≡ w.players_len - 1
  pub nobody_missing : w'.players_total ≡ w'.players_len
  pub same_heap : w'.connections ≡ w.connections

-- In a running game: a player of one of the sixteen colours is marked as gone, and then revived by
-- a new connection's player in another slot. Both steps succeed; the player is connected with its
-- own colour, name and position, over the new connection, and due for the data of the game; the
-- other slot has an empty name; one player fewer counts, and nobody is missing.
pub mark_gone-revive :
    (w : World) (id new : ℕ) (p q : Player)
    → w.start ≢ 0
    → id ≢ new
    → get_elem? w.players id ≡ some p
    → get_elem? w.players new ≡ some q
    → p.color < 16
    → 0 < w.players_len
    → w.players_len < 2 ^ 64
    → (w' : World) × ((mark_gone w id >>= λ v. revive v new id) ≡ ok w') × Returned w w' id new p q
unfolding mark_gone revive player_at
mark_gone-revive w id new p q s ne at at_new color some_left few =
    let gone = record p { connected = 0; color = bit_xor p.color l_black } in
    let up = record gone {
      connection = q.connection;
      connected = 1;
      color = bit_xor (bit_xor p.color l_black) l_black;
    } in
    let blank = record q { nickname = replicate player_name_maxlen 0 } in
    let back = record up { start = 1 } in
    let ps₁ = set w.players id gone in
    let ps₂ = set ps₁ id up in
    let ps₃ = set ps₂ new blank in
    let len = (w.players_len + 2 ^ 64 - 1) % 2 ^ 64 in
    let in_id = lt_of_get_elem? w.players id at in
    let in_new = lt_of_get_elem? w.players new at_new in
    let size₁ : length ps₁ ≡ length w.players = length-set w.players id gone in
    let size₂ : length ps₂ ≡ length ps₁ = length-set ps₁ id up in
    let size₃ : length ps₃ ≡ length ps₂ = length-set ps₂ new blank in
    let at₁ : get_elem? ps₁ id ≡ some gone = get_elem?-set_self w.players id gone in_id in
    let new₁ : get_elem? ps₁ new ≡ some q = get_elem?-set_ne w.players id new gone ne ∙ at_new in
    let new₂ : get_elem? ps₂ new ≡ some q = get_elem?-set_ne ps₁ id new up ne ∙ new₁ in
    let at₂ : get_elem? ps₂ id ≡ some up = get_elem?-set_self ps₁ id up (omega arith) in
    let at₃ : get_elem? ps₃ id ≡ some up =
      get_elem?-set_ne ps₂ new id blank (λ e. ne (sym e)) ∙ at₂ in
    let running : (w.start == 0) ≡ false = ground arith in
    (
      record w {
        roster = record w.roster {
          players = set ps₃ id back;
          players_len = len;
          players_total = len;
        };
      },
      rw (running, at, at₁, new₁, new₂, at₃) refl,
      record {
        slots_are = λ j. ground (
          arith,
          get_elem?-set ps₃ id j back,
          get_elem?-set ps₂ new j blank,
          get_elem?-set ps₁ id j up,
          get_elem?-set w.players id j gone,
          marked_twice p.color color,
        );
        one_fewer = omega arith;
        nobody_missing = refl;
        same_heap = refl;
      },
    )

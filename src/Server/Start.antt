-- ===== src/Server/Start.antt =====
-- The start of the game: the lines behind `if (! start)` of `process_client` in src/server.c.
use mathlib.Core.Option
use itmmorgue.Base.{
  ℕ, zero, suc, ◌+◌, ◌-◌, ◌%◌, ◌^◌, ◌≤◌, ◌<◌, ◌≡◌, refl, ◌∙◌, ap, ◌≢◌, Option, none, some, List,
  arith, ◌==◌, leb, ltb, ◌&&◌, if◌then◌else◌, ok, get_elem?, length, length-set, get_elem?-set,
  get_elem?-of_lt,
}
use itmmorgue.Player.{Player, player_at, put_player}
use itmmorgue.World.{World}
use itmmorgue.Server.Round.{waiting, start_all, try_start}

abbrev pub ready_one : Option Player → ℕ
ready_one none = 0
ready_one (some p) = if p.ready == 0 then 0 else 1

-- How many of `n` slots from `i` on hold a player that is ready.
abbrev pub ready_count : ℕ → ℕ → List Player → ℕ
ready_count zero i ps = 0
ready_count (suc n) i ps = ready_one (get_elem? ps i) + ready_count n (i + 1) ps

ready_count-le : (n i : ℕ) (ps : List Player) → ready_count n i ps ≤ n
ready_count-le zero i ps = omega arith
ready_count-le (suc n) i ps = omega (arith, ready_count-le n (i + 1) ps, one (get_elem? ps i))
  where
    one : (o : Option Player) → ready_one o ≤ 1
    one none = omega arith
    one (some p) = ground arith

waiting-ready_count :
    (n i wait : ℕ) (w : World)
    → i + n ≤ length w.players
    → n ≤ wait
    → wait < 2 ^ 64
    → waiting n i wait w ≡ ok (wait - ready_count n i w.players)
unfolding waiting player_at
waiting-ready_count zero i wait w h le lt = ap ok (omega arith)
waiting-ready_count (suc n) i wait w h le lt =
    let (p, e) = get_elem?-of_lt w.players i (omega arith) in
    ground (
      arith,
      e,
      waiting-ready_count n (i + 1) wait w,
      waiting-ready_count n (i + 1) ((wait + 2 ^ 64 - 1) % 2 ^ 64) w,
      ready_count-le n (i + 1) w.players,
    )

-- What the start leaves in slot `j`.
abbrev pub started_at : ℕ → ℕ → ℕ → Option Player → Option Player
started_at n i j o =
    if leb i j && ltb j (i + n) then Option.map (λ (p : Player). record p { start = 1 }) o else o

pub record AllStarted (n i : ℕ) (w w' : World) : Type 0 where
  pub slots_are : (j : ℕ) → get_elem? w'.players j ≡ started_at n i j (get_elem? w.players j)
  pub same_rest : w' ≡ record w { roster = record w.roster { players = w'.players } }

start_all-AllStarted :
    (n i : ℕ) (w : World)
    → i + n ≤ length w.players
    → (w' : World) × (start_all n i w ≡ ok w') × AllStarted n i w w'
unfolding start_all player_at
start_all-AllStarted zero i w h =
    (w, refl, record { slots_are = λ j. ground arith; same_rest = refl })
start_all-AllStarted (suc n) i w h =
    let (p, e) = get_elem?-of_lt w.players i (omega arith) in
    let q = record p { start = 1 } in
    let s = record w { roster = put_player w.roster i q } in
    let size : length s.players ≡ length w.players = length-set w.players i q in
    let (w', go, v) = start_all-AllStarted n (i + 1) s (omega arith) in
    (
      w',
      rw e go,
      record {
        slots_are = λ j. ground (arith, v.slots_are j, get_elem?-set w.players i j q, e);
        same_rest = v.same_rest;
      },
    )

-- The game started: the phase is 1, the missing players are counted from all that are there, and each
-- player that counts needs its data.
pub record Started (w w' : World) : Type 0 where
  pub phase : w'.start ≡ 1
  pub total : w'.players_total ≡ w.players_len
  pub slots_are :
      (j : ℕ) → get_elem? w'.players j ≡ started_at w.players_len 0 j (get_elem? w.players j)
  pub same_rest : w' ≡ record w {
    start = 1;
    roster = record w.roster { players = w'.players; players_total = w.players_len };
  }

module _ (w : World) (inside : w.players_len ≤ length w.players)
    (few : w.players_len < 2 ^ 64) where
  waits :
      waiting w.players_len 0 w.players_len w
      ≡ ok (w.players_len - ready_count w.players_len 0 w.players)
  waits = waiting-ready_count w.players_len 0 w.players_len w (omega arith) (omega arith) few

  -- Where the players that count are in the array and all are ready, the game starts: the phase is
  -- 1, the number of players is kept as the total, each player that counts is due for its data, and
  -- all else stays.
  pub try_start-Started :
      ready_count w.players_len 0 w.players ≡ w.players_len
      → (w' : World) × (try_start w ≡ ok w') × Started w w'
  unfolding try_start
  try_start-Started all =
      let (v, e, s) = start_all-AllStarted w.players_len 0 (record w { start = 1 }) (omega arith) in
      let len : v.players_len ≡ w.players_len = ap (λ (u : World). u.players_len) s.same_rest in
      (
        record v { roster = record v.roster { players_total = v.players_len } },
        ground (arith, waits, e),
        record {
          phase = ap (λ (u : World). u.start) s.same_rest;
          total = len;
          slots_are = s.slots_are;
          same_rest =
              ap
                (λ (u : World). record u {
                  roster = record u.roster { players_total = v.players_len };
                })
                s.same_rest
              ∙ ap
                  (λ n. record w {
                    start = 1;
                    roster = record w.roster { players = v.players; players_total = n };
                  })
                  len;
        },
      )

  -- Where the players that count are in the array and not all are ready, nothing changes.
  pub try_start_waits : ready_count w.players_len 0 w.players ≢ w.players_len → try_start w ≡ ok w
  unfolding try_start
  try_start_waits missing = ground (arith, waits, ready_count-le w.players_len 0 w.players)

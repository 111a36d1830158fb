-- ===== src/Area/Drawing/Waiting.antt =====
-- What `draw_area` of src/area.c draws before a level is counted.
use itmmorgue.Base.{
  take, drop, sym, if◌then◌else◌, ℕ, zero, suc, ◌+◌, ◌≤◌, ◌<◌, ◌^◌, ◌≡◌, refl, ◌∙◌, ap, arith, some,
  List, [], ◌∷◌, ◌++◌, ok, Bytes, codes, length, get_elem?, get_elem?-of_lt, ◌==◌,
}
use itmmorgue.Config.Values.{ℤ, pos, negsuc}
use itmmorgue.Windows.{WinInfo}
use itmmorgue.Windows.Ints.{◌+ℤ◌, int, difference}
use itmmorgue.Player.{Roster, Player, player_at}
use itmmorgue.Area.Drawing.{Ink, text, word, draw_waiting, waiting_lines}

-- What is drawn for players before the start, from the one with index `i` on.
abbrev pub waiting_of : (Bytes → Bytes) → ℤ → ℕ → List Player → List Ink
waiting_of translate last i [] = []
waiting_of translate last i (p ∷ ps) =
    waiting_lines translate p last i ++ waiting_of translate last (i + 1) ps

-- The players with the indices from `i` to `i + n`.
abbrev pub players_from : ℕ → ℕ → List Player → List Player
players_from i n ps = take n (drop i ps)

players_from-cons :
    (i n : ℕ) (ps : List Player) {p : Player}
    → get_elem? ps i ≡ some p
    → players_from i (suc n) ps ≡ p ∷ players_from (i + 1) n ps
players_from-cons i n [] e = absurd (cc e)
players_from-cons zero n (q ∷ ps) e = ap (λ p. p ∷ take n ps) (cc e)
players_from-cons (suc i) n (q ∷ ps) {p} e =
    let same : suc (i + 1) ≡ suc i + 1 = omega arith in
    players_from-cons i n ps e ∙ ap (λ k. p ∷ take n (drop k (q ∷ ps))) same

pub draw_waiting-eq :
    (translate : Bytes → Bytes) (r : Roster) (win : WinInfo) (last : ℤ) (i n : ℕ)
    → int (win.max_y +ℤ negsuc 1) ≡ ok last
    → i + n ≤ length r.players
    → draw_waiting translate r win i n
      ≡ ok (waiting_of translate last i (players_from i n r.players))
unfolding draw_waiting player_at
draw_waiting-eq translate r win last i zero e h = refl
draw_waiting-eq translate r win last i (suc n) e h =
    let (p, at) = get_elem?-of_lt r.players i (omega arith) in
    let rest = draw_waiting-eq translate r win last (i + 1) n e (omega arith) in
    rw (at, e, rest)
      (ap (λ ps. ok (waiting_of translate last i ps)) (sym (players_from-cons i n r.players at)))

-- What is drawn before a level is counted.
abbrev pub waiting_for_start : (Bytes → Bytes) → ℕ → Roster → ℕ → List Ink
waiting_for_start translate levels_count r h =
    if levels_count == 0
    then text (pos 1) (pos 1) (word (translate (codes "Connected players:")) ∷ [])
      ∷ waiting_of translate (difference h 2) 0 (take r.players_len r.players)
    else []

pub int-difference : (h : ℕ) → h < 2 ^ 16 → int (difference h 2) ≡ ok (difference h 2)
int-difference h lt = ground arith

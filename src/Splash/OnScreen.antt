-- ===== src/Splash/OnScreen.antt =====
-- Where the logo of src/splash.c is drawn, and how often the drawing waits for a key.
use mathlib.Core.Path.{subst}
use itmmorgue.Base.{
  ℕ, zero, suc, ◌+◌, ◌-◌, ◌/◌, ◌≤◌, ◌<◌, ◌≡◌, refl, sym, arith, Bool, true, false, List, [], ◌∷◌,
  ◌++◌, ◌&&◌, leb, ◌||◌, length, All, Bool-cases, inl, inr,
}
use itmmorgue.Config.Values.{ℤ, pos}
use itmmorgue.Windows.Ints.{InScreen, ◌+ℤ◌, difference}
use itmmorgue.Splash.Macro.{Stroke}
use itmmorgue.Splash.First.{first_strokes}
use itmmorgue.Splash.Second.{second_strokes}
use itmmorgue.Splash.{
  Paint, put, dots, title, refreshed, waits_for, Splash, paint, ask, fill, draw_stroke,
  draw_strokes, draw_logo,
}

-- A command draws on the screen, if it draws.
abbrev pub OnScreen : ℕ → ℕ → Paint → Type 0
OnScreen max_y max_x (put c y x t) = InScreen y max_y × InScreen x max_x
OnScreen max_y max_x (dots c y n) = (y < max_y) × (n ≤ max_x)
OnScreen max_y max_x (title y x t) = InScreen y max_y × InScreen x max_x
OnScreen max_y max_x _ = Unit

-- The strokes keep to nine rows, and to the columns 10 to 82 of the corner.
abbrev pub keeps_to : Stroke → Bool
keeps_to t =
    (leb t.y1 8 && leb t.y2 8) && ((leb 10 t.x1 && leb t.x1 82) && (leb 10 t.x2 && leb t.x2 82))

abbrev pub all_keep : List Stroke → Bool
all_keep [] = true
all_keep (t ∷ ts) = keeps_to t && all_keep ts

pub strokes_keep : all_keep (first_strokes ++ second_strokes) ≡ true
strokes_keep = refl

pub corner-eq : (a b c : ℕ) → b ≤ a + c → difference a b +ℤ pos c ≡ pos (a + c - b)
corner-eq a b c le = ground arith

corner :
    (a b c limit : ℕ) → b ≤ a + c → a + c < limit + b → InScreen (difference a b +ℤ pos c) limit
corner a b c limit le lt = subst (λ z. InScreen z limit) (sym (corner-eq a b c le)) (omega arith)

-- All commands so far draw on the screen, and at most `n` times a key was asked for.
pub record Fine (max_y max_x n : ℕ) (s : Splash) : Type 0 where
  pub on_screen : All (OnScreen max_y max_x) s.painted
  pub few : s.asked ≤ n

module _ {max_y max_x : ℕ} where
  pub paint-Fine :
      {n : ℕ} {s : Splash} (p : Paint)
      → OnScreen max_y max_x p
      → Fine max_y max_x n s
      → Fine max_y max_x n (paint p s)
  paint-Fine p h f = record { on_screen = (h, f.on_screen); few = f.few }

  pub ask-Fine :
      {n : ℕ} (s : Splash) (key : ℕ → Bool)
      → Fine max_y max_x n s
      → Fine max_y max_x (n + 1) (ask key s)
  ask-Fine s key f = elim (Bool-cases s.skip) [
    | inl e ↦ rw e (record { on_screen = f.on_screen; few = omega (arith, f.few) })
    | inr e ↦ rw e (record { on_screen = (tt, f.on_screen); few = omega (arith, f.few) })
  ]

  pub fill-Fine :
      (key : ℕ → Bool) (i : ℕ) (s : Splash) (n : ℕ)
      → i ≤ max_y
      → 1 ≤ max_x
      → Fine max_y max_x n s
      → Fine max_y max_x (n + i) (fill key max_x i s)
  unfolding fill
  fill-Fine key zero s n h w f = subst (λ k. Fine max_y max_x k s) (omega arith) f
  fill-Fine key (suc i) s n h w f =
      subst (λ k. Fine max_y max_x k (fill key max_x (suc i) s)) (omega arith)
        (fill-Fine key i (ask key (paint refreshed (paint (dots _ i (1 + (max_x - 1))) s))) (n + 1)
          (omega arith) w
          (ask-Fine _ key (
            paint-Fine refreshed tt
              (paint-Fine (dots _ i (1 + (max_x - 1))) (omega arith, omega arith) f))))

  module _ (high : 9 ≤ max_y) (wide : 76 ≤ max_x) where
    draw_stroke-Fine :
        {n : ℕ} (key : ℕ → Bool) (s : Splash) (t : Stroke)
        → keeps_to t ≡ true
        → Fine max_y max_x n s
        → Fine max_y max_x
            (n + 1)
            (draw_stroke key (difference (max_y / 2) 4) (difference (max_x / 2) 48) s t)
    unfolding draw_stroke
    draw_stroke-Fine key s t k f =
        let y₁ : t.y1 ≤ 8 = ground (arith, k) in
        let y₂ : t.y2 ≤ 8 = ground (arith, k) in
        let l₁ : 10 ≤ t.x1 = ground (arith, k) in
        let l₂ : 10 ≤ t.x2 = ground (arith, k) in
        let r₁ : t.x1 ≤ 82 = ground (arith, k) in
        let r₂ : t.x2 ≤ 82 = ground (arith, k) in
        ask-Fine _ key (
          paint-Fine refreshed tt (
            paint-Fine (put _ _ _ t.c2)
              (
                corner (max_y / 2) 4 t.y2 max_y (omega arith) (omega arith),
                corner (max_x / 2) 48 t.x2 max_x (omega arith) (omega arith),
              )
              (paint-Fine (put _ _ _ t.c1)
                (
                  corner (max_y / 2) 4 t.y1 max_y (omega arith) (omega arith),
                  corner (max_x / 2) 48 t.x1 max_x (omega arith) (omega arith),
                )
                f)))

    draw_strokes-Fine :
        (key : ℕ → Bool) (ts : List Stroke) (s : Splash) (n : ℕ)
        → all_keep ts ≡ true
        → Fine max_y max_x n s
        → Fine max_y max_x
            (n + length ts)
            (draw_strokes key (difference (max_y / 2) 4) (difference (max_x / 2) 48) ts s)
    unfolding draw_strokes
    draw_strokes-Fine key [] s n k f = subst (λ k. Fine max_y max_x k s) (omega arith) f
    draw_strokes-Fine key (t ∷ ts) s n k f =
        let here : keeps_to t ≡ true = ground (arith, k) in
        let more : all_keep ts ≡ true = ground (arith, k) in
        let y = difference (max_y / 2) 4 in
        let x = difference (max_x / 2) 48 in
        subst (λ k. Fine max_y max_x k (draw_strokes key y x (t ∷ ts) s)) (omega arith)
          (draw_strokes-Fine key ts (draw_stroke key y x s t) (n + 1) more
            (draw_stroke-Fine key s t here f))

    pub draw_logo-Fine :
        {n : ℕ} (key : ℕ → Bool) (delay : ℤ) (s : Splash)
        → Fine max_y max_x n s
        → Fine max_y max_x (n + 183) (draw_logo key max_y max_x delay s)
    unfolding draw_logo
    draw_logo-Fine {n} key delay s f =
        let big : (leb max_x 72 || leb max_y 8) ≡ false = ground arith in
        rw big (
          draw_strokes-Fine key (first_strokes ++ second_strokes) (paint (waits_for delay) s) n
            strokes_keep (paint-Fine (waits_for delay) tt f))

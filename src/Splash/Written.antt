-- ===== src/Splash/Written.antt =====
-- What the commands of src/splash.c leave on the screen, command by command.
use itmmorgue.Base.{
  ℕ, zero, suc, ◌+◌, ◌-◌, ◌/◌, ◌≤◌, ◌≡◌, arith, Bool, true, false, List, [], ◌∷◌, ◌++◌, ◌||◌, leb,
  map, Bool-cases, inl, inr,
}
use itmmorgue.Config.Values.{ℤ, pos}
use itmmorgue.Windows.Ints.{◌+ℤ◌, difference}
use itmmorgue.Splash.Macro.{Stroke}
use itmmorgue.Splash.First.{first_strokes}
use itmmorgue.Splash.Second.{second_strokes}
use itmmorgue.Splash.{
  put, dots, refreshed, waits_for, l_red, l_blue, Splash, paint, ask, fill, draw_stroke,
  draw_strokes, draw_logo,
}
use itmmorgue.Splash.Logo.{Cell, cell_at, at_corner, puts, dotted, rows_below, cells_of, logo_cells}
use itmmorgue.Splash.OnScreen.{keeps_to, all_keep, strokes_keep, corner-eq}

-- The characters that were printed, and the rows of dots.
pub record Shows (max_y max_x : ℕ) (cs : List Cell) (ds : List (ℕ × ℕ)) (s : Splash) : Type 0 where
  pub puts_are : puts s.painted ≡ map (at_corner max_y max_x) cs
  pub dots_are : dotted s.painted ≡ ds

module _ {max_y max_x : ℕ} where
  pub ask-Shows :
      {cs : List Cell} {ds : List (ℕ × ℕ)} (key : ℕ → Bool) (s : Splash)
      → Shows max_y max_x cs ds s
      → Shows max_y max_x cs ds (ask key s)
  ask-Shows key s f = elim (Bool-cases s.skip) [
    | inl e ↦ rw e (record { puts_are = f.puts_are; dots_are = f.dots_are })
    | inr e ↦ rw e (record { puts_are = f.puts_are; dots_are = f.dots_are })
  ]

  pub fill-Shows :
      (key : ℕ → Bool) (i : ℕ) {cs : List Cell} {ds : List (ℕ × ℕ)} (s : Splash)
      → 1 ≤ max_x
      → Shows max_y max_x cs ds s
      → Shows max_y max_x cs (rows_below i max_x ds) (fill key max_x i s)
  unfolding fill
  fill-Shows key zero s w f = f
  fill-Shows key (suc i) s w f =
      let whole : 1 + (max_x - 1) ≡ max_x = omega arith in
      let line : Splash = paint refreshed (paint (dots _ i (1 + (max_x - 1))) s) in
      fill-Shows key i (ask key line) w
        (ask-Shows key line (record { puts_are = f.puts_are; dots_are = cc (whole, f.dots_are) }))

  module _ (high : 9 ≤ max_y) (wide : 76 ≤ max_x) where
    draw_stroke-Shows :
        {cs : List Cell} {ds : List (ℕ × ℕ)} (key : ℕ → Bool) (s : Splash) (t : Stroke)
        → keeps_to t ≡ true
        → Shows max_y max_x cs ds s
        → Shows max_y max_x
            (cell_at l_blue t.y2 t.x2 t.c2 ∷ cell_at l_red t.y1 t.x1 t.c1 ∷ cs)
            ds
            (draw_stroke key (difference (max_y / 2) 4) (difference (max_x / 2) 48) s t)
    unfolding draw_stroke
    draw_stroke-Shows key s t k f =
        let l₁ : 10 ≤ t.x1 = ground (arith, k) in
        let l₂ : 10 ≤ t.x2 = ground (arith, k) in
        let row₁ = corner-eq (max_y / 2) 4 t.y1 (omega arith) in
        let row₂ = corner-eq (max_y / 2) 4 t.y2 (omega arith) in
        let column₁ = corner-eq (max_x / 2) 48 t.x1 (omega arith) in
        let column₂ = corner-eq (max_x / 2) 48 t.x2 (omega arith) in
        let both =
          paint
            (put l_blue (difference (max_y / 2) 4 +ℤ pos t.y2)
              (difference (max_x / 2) 48 +ℤ pos t.x2) t.c2)
            (paint
              (put l_red (difference (max_y / 2) 4 +ℤ pos t.y1)
                (difference (max_x / 2) 48 +ℤ pos t.x1) t.c1)
              s) in
        ask-Shows key (paint refreshed both) (record {
          puts_are = cc (row₁, row₂, column₁, column₂, f.puts_are);
          dots_are = f.dots_are;
        })

    draw_strokes-Shows :
        (key : ℕ → Bool) (ts : List Stroke) {cs : List Cell} {ds : List (ℕ × ℕ)} (s : Splash)
        → all_keep ts ≡ true
        → Shows max_y max_x cs ds s
        → Shows max_y max_x
            (cells_of ts cs)
            ds
            (draw_strokes key (difference (max_y / 2) 4) (difference (max_x / 2) 48) ts s)
    unfolding draw_strokes
    draw_strokes-Shows key [] s k f = f
    draw_strokes-Shows key (t ∷ ts) s k f =
        let here : keeps_to t ≡ true = ground (arith, k) in
        let more : all_keep ts ≡ true = ground (arith, k) in
        draw_strokes-Shows key ts _ more (draw_stroke-Shows key s t here f)

    pub draw_logo-Shows :
        {ds : List (ℕ × ℕ)} (key : ℕ → Bool) (delay : ℤ) (s : Splash)
        → Shows max_y max_x [] ds s
        → Shows max_y max_x logo_cells ds (draw_logo key max_y max_x delay s)
    unfolding draw_logo
    draw_logo-Shows key delay s f =
        let big : (leb max_x 72 || leb max_y 8) ≡ false = ground arith in
        rw big (
          draw_strokes-Shows key (first_strokes ++ second_strokes) (paint (waits_for delay) s)
            strokes_keep (record { puts_are = f.puts_are; dots_are = f.dots_are }))

-- ===== src/Splash.antt =====
-- The splash screen of src/splash.c, as the commands that curses is given. Whether a key is hit while
-- wgetch(3) waits is an answer.
pub mod Macro
pub mod First
pub mod Second
pub mod Logo
pub mod OnScreen
pub mod Written
pub mod Shown
mod Tests
use itmmorgue.Base.{
  ℕ, zero, suc, ◌+◌, ◌-◌, ◌/◌, ◌%◌, Bool, true, false, List, [], ◌∷◌, ◌++◌, ◌==◌, ◌||◌, leb,
  if◌then◌else◌, Result, ok, stop, panic, ◌>>=◌, Bytes, codes, splash_window,
}
use itmmorgue.Config.Values.{ℤ, pos}
use itmmorgue.Config.Entries.{Lookup, conf_ival}
use itmmorgue.Windows.Ints.{◌+ℤ◌, difference, is_zero}
use itmmorgue.Area.Camera.{quotient}
use itmmorgue.Splash.Macro.{Stroke}
use itmmorgue.Splash.First.{first_strokes}
use itmmorgue.Splash.Second.{second_strokes}

-- Of `enum colors`
abbrev pub l_red : ℕ
l_red = 10

abbrev pub l_blue : ℕ
l_blue = 12

-- wcolor and mvwprintw, a row of dots, and the name of the game; werase, wrefresh, a wgetch that waits, delwin,
-- endwin and wtimeout.
pub data Paint : Type 0 where
  put : ℕ → ℤ → ℤ → Bytes → Paint
  dots : ℕ → ℕ → ℕ → Paint
  title : ℤ → ℤ → Bytes → Paint
  erased refreshed waited deleted ended : Paint
  waits_for : ℤ → Paint

-- The commands so far, the last one first, with `skip` and the number of questions for a key.
pub record Splash : Type 0 where
  pub painted : List Paint
  pub skip : Bool
  pub asked : ℕ

abbrev pub paint : Paint → Splash → Splash
paint p s = record s { painted = p ∷ s.painted }

-- `if (! skip && wgetch(splash) != ERR) skip = 1;`
abbrev pub ask : (ℕ → Bool) → Splash → Splash
ask key s =
    if s.skip
    then s
    else record { painted = waited ∷ s.painted; skip = key s.asked; asked = s.asked + 1 }

-- The loop that fills the screen, for the `n` rows below row `n`, the lowest first.
unfoldable pub fill : (ℕ → Bool) → ℕ → ℕ → Splash → Splash
fill key max_x zero s = s
fill key max_x (suc i) s =
    fill key max_x i (ask key (paint refreshed (paint (dots (8 + i % 8) i (1 + (max_x - 1))) s)))

-- The macro `s`, for the corner of the logo.
unfoldable pub draw_stroke : (ℕ → Bool) → ℤ → ℤ → Splash → Stroke → Splash
draw_stroke key y x s t = ask key (
    paint refreshed (
      paint (put l_blue (y +ℤ pos t.y2) (x +ℤ pos t.x2) t.c2)
        (paint (put l_red (y +ℤ pos t.y1) (x +ℤ pos t.x1) t.c1) s)))

unfoldable pub draw_strokes : (ℕ → Bool) → ℤ → ℤ → List Stroke → Splash → Splash
unfolding draw_stroke
draw_strokes key y x [] s = s
draw_strokes key y x (t ∷ ts) s = draw_strokes key y x ts (draw_stroke key y x s t)

-- The logo, or the name alone on a screen that is too small for it.
unfoldable pub draw_logo : (ℕ → Bool) → ℕ → ℕ → ℤ → Splash → Splash
unfolding draw_strokes
draw_logo key max_y max_x delay s =
    if leb max_x 72 || leb max_y 8
    then paint refreshed
        (paint (title (difference (max_y / 2) 1) (difference (max_x / 2) 4) (codes "ITMMORGUE")) s)
    else draw_strokes key (difference (max_y / 2) 4) (difference (max_x / 2) 48)
        (first_strokes ++ second_strokes) (paint (waits_for delay) s)

-- The wait for a key behind the logo.
unfoldable pub linger : ℤ → Splash → Result Splash
linger time s = if s.skip then ok s else do
  time' ← quotient time (pos 1000)
  ok (record (paint waited (paint (waits_for time') s)) { asked = s.asked + 1 })

-- `made` tells whether newwin(3) gave a window. With a time of 0 nothing is drawn.
unfoldable pub splash_screen : Bool → Lookup → (ℕ → Bool) → ℕ → ℕ → Result Splash
unfolding fill draw_logo linger
splash_screen made conf key max_y max_x =
    if made
    then (do
      time ← conf_ival conf (codes "splash_time")
      let start : Splash = record { painted = []; skip = false; asked = 0 }
      if is_zero time then ok (paint ended start) else do
        let filled = fill key max_x max_y (paint (waits_for (pos 20)) start)
        delay ← conf_ival conf (codes "splash_delay")
        delay' ← quotient delay (pos 1000)
        let s = draw_logo key max_y max_x delay' (paint refreshed (paint erased filled))
        s' ← linger time s
        ok (paint deleted s'))
    else stop (panic splash_window)

-- ===== src/Windows/Tests.antt =====
-- A terminal of 24 rows and 80 columns, and the theorems about the windows at it.
use itmmorgue.Base.{
  ℕ, ◌+◌, ◌≡◌, refl, arith, Bool, false, ◌&&◌, List, [], ◌∷◌, ◌++◌, leb, ok, replicate, length, All,
}
use itmmorgue.Config.Values.{ℤ, pos}
use itmmorgue.Config.File.{config_pre_init, conf}
use itmmorgue.Config.Defaults.{t_conf_default}
use itmmorgue.Config.Found.{default_conf}
use itmmorgue.Config.Sample.{Sample, sample_get, sample_put, no_options, no_options-IsMap}
use itmmorgue.Windows.{
  Windows, windows_init, windows_fill, windows_check, hidden, large, w_size, w_area, w_sysmsg,
  fill_place, scaled, from_end, up_to_end,
}
use itmmorgue.Windows.Draw.{Command, windows_redraw, windows_order, change_window, open_window}
use itmmorgue.Windows.Layout.{OnScreen, default_layout, extent, placed}
use itmmorgue.Windows.Init.{MakesInside, windows_init-OnScreen}
use itmmorgue.Windows.Open.{change_window-open_window}
use itmmorgue.Windows.Frames.{frames, filled, Once, shown_of, state_at}
use itmmorgue.Windows.Redraw.{windows_redraw-frames}

-- A window of curses that is inside a screen of 24 rows and 80 columns.
abbrev makes_window : ℤ → ℤ → ℤ → ℤ → Bool
makes_window (pos h) (pos w) (pos y) (pos x) =
    leb (y + extent 24 y h) 24 && leb (x + extent 80 x w) 80
makes_window _ _ _ _ = false

makes_window-MakesInside : MakesInside makes_window 24 80
makes_window-MakesInside i o =
    rw (o.y_is, o.x_is, o.max_y_is, o.max_x_is) (ground (arith, o.inside_y, o.inside_x))

abbrev blank : Windows
blank = record { windows = replicate 7 (placed 0 0 0 0 hidden); rows = 24; columns = 80; focus = 0 }

windows_init-OnScreen_example :
    (t : Sample) × (s : Windows) × (config_pre_init sample_put t_conf_default no_options ≡ ok t)
    × (windows_init makes_window (conf sample_get t) blank false ≡ ok s)
    × (s.focus ≡ w_area)
    × (length s.windows ≡ w_size)
    × All (OnScreen 24 80) s.windows
windows_init-OnScreen_example =
    windows_init-OnScreen sample_get sample_put no_options-IsMap makes_window blank
      (record { high = omega arith; wide = omega arith; low = omega arith; narrow = omega arith })
      makes_window-MakesInside (omega arith)

-- The windows of that terminal behind the start.
abbrev started : Windows
started = record { windows = default_layout 24 80; rows = 24; columns = 80; focus = w_area }

windows_redraw-frames_example :
    (s : Windows) × (cs : List Command) × (windows_redraw started ≡ ok (s, cs))
    × (frames cs ≡ shown_of started windows_order ++ w_area ∷ [])
    × (filled cs ≡ frames cs)
    × Once started (frames cs)
    × (s.focus ≡ w_area)
    × ((win : ℕ) → state_at s win ≡ state_at started win)
windows_redraw-frames_example = windows_redraw-frames started refl refl (omega arith)

shown_by_default : shown_of started windows_order ≡ 0 ∷ 5 ∷ 2 ∷ 6 ∷ []
shown_by_default = refl

-- The system messages over the whole height.
abbrev opened : Windows
opened = record {
  windows =
      placed 0 0 0 0 large
      ∷ placed 2 0 20 0 large
      ∷ placed 0 56 2 24 (pos 1)
      ∷ placed 0 0 0 0 hidden
      ∷ placed 0 0 0 0 hidden
      ∷ placed 22 0 2 0 large
      ∷ placed 0 0 24 56 large
      ∷ [];
  rows = 24;
  columns = 80;
  focus = w_sysmsg;
}

change_window-open_window_example :
    change_window default_conf opened w_sysmsg (pos 1) w_area ≡ ok started
unfolding windows_fill fill_place scaled from_end up_to_end open_window change_window
change_window-open_window_example =
    change_window-open_window default_conf started w_sysmsg (placed 0 0 2 56 (pos 1)) refl opened
      refl refl

names_are_complete : windows_check ≡ ok tt
unfolding windows_check
names_are_complete = refl

-- ===== src/Windows/Draw.antt =====
-- What src/windows.c draws, as the commands that curses is given, and the windows that open and close.
use itmmorgue.Base.{
  ℕ, zero, suc, ◌+◌, ◌/◌, ◌==◌, Bool, true, ◌||◌, List, [], ◌∷◌, ◌++◌, if◌then◌else◌, ltb, Result,
  ok, stop, panic, or_undefined, ◌>>=◌, Bytes, codes, get_elem?, invalid_window,
}
use itmmorgue.Config.Values.{ℤ, pos}
use itmmorgue.Config.Entries.{Lookup}
use itmmorgue.Windows.{
  Windows, WinInfo, window_at, put_window, windows_fill, windows_names, w_size, w_stdscr, w_area,
  w_chat, w_inventory, w_map, w_status, w_sysmsg, hidden, large, same_int,
}
use itmmorgue.Windows.Ints.{is_zero, difference}

-- wresize, mvderwin, wborder with the title, the window's own drawing, werase, the notice on a screen that
-- is too small, and refresh.
pub data Command : Type 0 where
  resize : ℕ → ℤ → ℤ → Command
  place : ℕ → ℤ → ℤ → Command
  frame : ℕ → Bytes → Command
  contents : ℕ → Command
  erase_window : ℕ → Command
  notice : ℤ → ℤ → Bytes → Command
  redraw_stdscr refresh_stdscr refresh : Command

abbrev pub windows_order : List ℕ
windows_order = w_stdscr ∷ w_area ∷ w_status ∷ w_inventory ∷ w_map ∷ w_chat ∷ w_sysmsg ∷ []

-- A size of 0 is that of the screen.
abbrev pub sized : Windows → WinInfo → WinInfo
sized s i = record i {
  max_y = if is_zero i.max_y then pos s.rows else i.max_y;
  max_x = if is_zero i.max_x then pos s.columns else i.max_x;
}

-- `draw_any_before`, for `n` windows from `win` on.
unfoldable pub draw_any_before : ℕ → ℕ → Windows → Result (Windows × List Command)
draw_any_before zero win s = ok (s, [])
draw_any_before (suc n) win s = do
  i ← window_at s win
  let i' = sized s i
  r ← draw_any_before n (win + 1) (put_window s win i')
  let moved = if win == 0 then [] else place win i'.y i'.x ∷ []
  ok (r.0, resize win i'.max_y i'.max_x ∷ (moved ++ r.1))

-- `draw_any`, then `draw_by_name`.
unfoldable pub draw : ℕ → Result (List Command)
draw win = do
  name ← or_undefined (get_elem? windows_names win)
  if ltb win w_size then ok (frame win name ∷ contents win ∷ []) else stop (panic invalid_window)

-- The loop over the order: the focus and what is hidden are left out.
unfoldable pub draw_others : List ℕ → Windows → Result (List Command)
unfolding draw
draw_others [] s = ok []
draw_others (win ∷ rest) s = do
  i ← window_at s win
  others ← draw_others rest s
  if (win == s.focus) || same_int i.state hidden
      then ok others
      else do mine ← draw win; ok (mine ++ others)

abbrev pub too_small : Windows → Bool
too_small s = ltb s.columns 80 || ltb s.rows 24

unfoldable pub windows_redraw : Windows → Result (Windows × List Command)
unfolding draw_any_before draw_others draw
windows_redraw s =
    if too_small s
    then ok (
      s,
      redraw_stdscr
          ∷ notice (difference (s.rows / 2) 2) (difference (s.columns / 2) 4) (codes "ITMMORGUE")
          ∷ notice (difference (s.rows / 2) 1) (difference (s.columns / 2) 15)
              (codes "Windows is smaller than 80x24!")
          ∷ refresh_stdscr
          ∷ [],
    )
    else do
      r ← draw_any_before w_size 0 s
      others ← draw_others windows_order r.0
      mine ← draw s.focus
      ok (r.0, r.1 ++ (others ++ (erase_window s.focus ∷ (mine ++ (refresh ∷ [])))))

-- `WIN(win, state) = state; focus = f; windows_fill(win, 1)`, as `c_chat_open`, `c_sysmsg_open` and
-- `c_inventory_open` do before their loop and behind it.
unfoldable pub change_window : Lookup → Windows → ℕ → ℤ → ℕ → Result Windows
change_window conf s win state f = do
  i ← window_at s win
  windows_fill conf (record (put_window s win (record i { state = state })) { focus = f }) win true

-- Opening makes the window large and gives it the focus.
unfoldable pub open_window : Lookup → Windows → ℕ → Result Windows
unfolding change_window
open_window conf s win = change_window conf s win large win

-- ===== src/Windows.antt =====
-- src/windows.h and src/windows.c: the windows, and how `windows_fill` places them by the configuration.
-- The calls of curses are parameters, or commands in what is drawn.
pub mod Ints
pub mod Draw
pub mod Places
pub mod Layout
pub mod Init
pub mod Open
pub mod Frames
pub mod Redraw
mod Tests
use itmmorgue.Base.{
  ℕ, zero, suc, ◌+◌, ◌-◌, ◌==◌, Bool, true, false, ◌||◌, List, [], ◌∷◌, ◌++◌, if◌then◌else◌, Result,
  ok, stop, panic, or_undefined, ◌>>=◌, Bytes, codes, get_elem?, set, length, windows_inconsistency,
  window_creation,
}
use itmmorgue.Config.Values.{ℤ, pos, negsuc}
use itmmorgue.Config.Entries.{Lookup, conf_ival}
use itmmorgue.Windows.Ints.{◌+ℤ◌, neg, is_negative, is_zero, int, percent}

-- `enum windows`
abbrev pub w_stdscr : ℕ
w_stdscr = 0

abbrev pub w_area : ℕ
w_area = 1

abbrev pub w_chat : ℕ
w_chat = 2

abbrev pub w_inventory : ℕ
w_inventory = 3

abbrev pub w_map : ℕ
w_map = 4

abbrev pub w_status : ℕ
w_status = 5

abbrev pub w_sysmsg : ℕ
w_sysmsg = 6

abbrev pub w_size : ℕ
w_size = 7

abbrev pub windows_names : List Bytes
windows_names =
    codes "stdscr"
    ∷ codes "area"
    ∷ codes "chat"
    ∷ codes "inventory"
    ∷ codes "map"
    ∷ codes "status"
    ∷ codes "sysmsg"
    ∷ []

-- The states of a window. A value from the configuration is not checked to be one of them.
abbrev pub hidden : ℤ
hidden = pos 0

abbrev pub small : ℤ
small = pos 1

abbrev pub large : ℤ
large = pos 2

abbrev pub same_int : ℤ → ℤ → Bool
same_int (pos a) (pos b) = a == b
same_int (negsuc a) (negsuc b) = a == b
same_int _ _ = false

-- `win_info_t`, less the pointer that curses gave.
pub record WinInfo : Type 0 where
  pub y : ℤ
  pub x : ℤ
  pub max_y : ℤ
  pub max_x : ℤ
  pub state : ℤ

-- The globals of src/windows.h. The size of the screen is the one that curses tells.
pub record Windows : Type 0 where
  pub windows : List WinInfo
  pub rows : ℕ
  pub columns : ℕ
  pub focus : ℕ

abbrev pub window_at : Windows → ℕ → Result WinInfo
window_at s win = or_undefined (get_elem? s.windows win)

abbrev pub put_window : Windows → ℕ → WinInfo → Windows
put_window s win i = record s { windows = set s.windows win i }

unfoldable pub windows_check : Result (Unit {0})
windows_check = if length windows_names == w_size then ok tt else stop (panic windows_inconsistency)

-- The value of an option, and what it is where `_ispercent` says that it is a share of `size`.
unfoldable pub scaled : Lookup → Bytes → ℕ → Result ℤ
scaled conf key size = do
  val ← conf_ival conf key
  ispercent ← conf_ival conf (key ++ codes "_ispercent")
  if is_zero ispercent then ok val else percent size val

-- `val < 0 ? size + val : val`
unfoldable pub from_end : ℕ → ℤ → Result ℤ
from_end size val = if is_negative val then int (pos size +ℤ val) else ok val

-- `val < 0 ? size + val - start : val`
unfoldable pub up_to_end : ℕ → ℤ → ℤ → Result ℤ
up_to_end size start val =
    if is_negative val then (do n ← int (pos size +ℤ val); int (n +ℤ neg start)) else ok val

-- `FILL_WIN_PARAMETER` for the four numbers, `buf` being the prefix of their options.
unfoldable pub fill_place : Lookup → Bytes → ℕ → ℕ → WinInfo → Result WinInfo
unfolding scaled from_end up_to_end
fill_place conf buf rows columns i = do
  v₁ ← scaled conf (buf ++ codes "_y") rows
  y ← from_end rows v₁
  v₂ ← scaled conf (buf ++ codes "_x") columns
  x ← from_end columns v₂
  v₃ ← scaled conf (buf ++ codes "_max_y") rows
  max_y ← up_to_end rows y v₃
  v₄ ← scaled conf (buf ++ codes "_max_x") columns
  max_x ← up_to_end columns x v₄
  ok (record i { y = y; x = x; max_y = max_y; max_x = max_x })

abbrev pub suffix_of : ℤ → Bytes
suffix_of state = if same_int state large then codes "_large" else codes "_small"

-- Equal literals are taken to be one object, as the comparisons of their addresses ask for.
unfoldable pub windows_fill : Lookup → Windows → ℕ → Bool → Result Windows
unfolding fill_place
windows_fill conf s win keep_state = do
  name ← or_undefined (get_elem? windows_names win)
  i ← window_at s win
  let buf = codes "win_" ++ name
  state ← if keep_state then ok i.state else conf_ival conf (buf ++ codes "_state")
  let i' = record i { state = state }
  placed ← fill_place conf (buf ++ suffix_of state) s.rows s.columns i'
  ok (put_window s win placed)

-- The loop of `windows_init`, for `n` windows from `win` on. `subwin` tells whether curses can make a
-- window of that height and width at that place; window 0 is the screen.
unfoldable pub init_from : (ℤ → ℤ → ℤ → ℤ → Bool) → Lookup → Bool → ℕ → ℕ → Windows → Result Windows
unfolding windows_fill
init_from subwin conf keep_state zero win s = ok s
init_from subwin conf keep_state (suc n) win s = do
  s' ← windows_fill conf s win keep_state
  i ← window_at s' win
  if (win == 0) || subwin i.max_y i.max_x i.y i.x
      then init_from subwin conf keep_state n (win + 1) s'
      else stop (panic window_creation)

unfoldable pub windows_init : (ℤ → ℤ → ℤ → ℤ → Bool) → Lookup → Windows → Bool → Result Windows
unfolding init_from
windows_init subwin conf s keep_state =
    init_from subwin conf keep_state w_size 0
      (if keep_state then s else record s { focus = w_area })

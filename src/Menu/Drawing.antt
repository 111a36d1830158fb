-- ===== src/Menu/Drawing.antt =====
-- What the menus of src/menu.c draw, as commands for curses. The translations are a function.
pub mod OnScreen
use itmmorgue.Base.{
  ℕ, zero, suc, ◌+◌, ◌-◌, ◌/◌, ◌%◌, ◌^◌, Bool, true, false, List, [], ◌∷◌, ◌++◌, ◌==◌, ltb,
  if◌then◌else◌, Result, ok, stop, undefined, or_undefined, ◌>>=◌, Bytes, codes, get_elem?, length,
}
use itmmorgue.Config.Values.{ℤ, pos, negsuc}
use itmmorgue.Util.{anystrlen, anystrnlen}
use itmmorgue.Menu.{m_main_id, m_exit_game_id}

-- mvwprintw of a text, and of "%d. %s" with a number and a text: row, and column.
pub data Print : Type 0 where
  plain : ℤ → ℤ → Bytes → Print
  item : ℤ → ℤ → ℕ → Bytes → Print

-- The captions of `menus`
abbrev pub captions : List Bytes
captions =
    codes "Main menu"
    ∷ codes "New game"
    ∷ codes "Connect to existing game"
    ∷ codes "Options"
    ∷ codes "Help"
    ∷ codes "Exit to Windows"
    ∷ []

-- a - b and a + b of size_t
abbrev pub size_minus : ℕ → ℕ → ℕ
size_minus a b = (a + 2 ^ 64 - b % 2 ^ 64) % 2 ^ 64

abbrev pub size_plus : ℕ → ℕ → ℕ
size_plus a b = (a + b) % 2 ^ 64

-- A size_t that is passed as an int.
abbrev pub as_int : ℕ → ℤ
as_int n = let m = n % 2 ^ 32 in if ltb m (2 ^ 31) then pos m else negsuc (2 ^ 32 - 1 - m)

-- What is printed of a text that is given as the format: a conversion would have no argument. The flag tells
-- whether a percent sign is before it.
unfoldable pub format_text : Bool → Bytes → Result Bytes
format_text false [] = ok []
format_text true [] = stop undefined
format_text false (c ∷ cs) = elim (c == b'%') [
  | true ↦ format_text true cs
  | false ↦ do rest ← format_text false cs; ok (c ∷ rest)
]
format_text true (c ∷ cs) = elim (c == b'%') [
  | true ↦ do rest ← format_text false cs; ok (c ∷ rest)
  | false ↦ stop undefined
]

-- The line of `=` from column `x` on, for `n` columns.
abbrev pub draw_line : ℕ → ℕ → ℕ → ℕ → List Print
draw_line y x i zero = []
draw_line y x i (suc n) =
    plain (as_int y) (as_int (size_plus x i)) (codes "=") ∷ draw_line y x (i + 1) n

module _ (translate : Bytes → Bytes) (max_y max_x : ℕ) where
  -- The caption of menu `id` with `items_len` items, and the line under it.
  unfoldable pub draw_caption : ℕ → ℕ → Result (List Print)
  draw_caption id items_len = do
    name ← or_undefined (get_elem? captions id)
    len ← anystrlen (translate name ++ 0 ∷ [])
    shown ← format_text false (translate name)
    let y = size_minus (max_y / 2) (items_len / 2)
    let x = size_minus (max_x / 2) (len / 2)
    ok (plain (as_int (size_minus y 3)) (as_int x) shown ∷ draw_line (size_minus y 2) x 0 len)

  -- The loop over the items: `from` is the row of the first, and `i` is the next.
  unfoldable pub draw_items : ℕ → ℕ → List ℕ → Result (List Print)
  draw_items from i [] = ok []
  draw_items from i (id ∷ ids) = do
    name ← or_undefined (get_elem? captions id)
    len ← anystrlen (translate name ++ 0 ∷ [])
    rest ← draw_items from (i + 1) ids
    let x = size_minus (size_minus (max_x / 2) (len / 2)) 2
    ok (item (as_int (size_plus from i)) (as_int x) (i + 1) (translate name) ∷ rest)

  -- The message of the main menu.
  unfoldable pub draw_message : Bytes → ℕ → Result Print
  draw_message menu_msg items_len = do
    len ← anystrnlen (translate menu_msg ++ 0 ∷ []) 8192
    shown ← format_text false (translate menu_msg)
    ok (
        plain (as_int (size_minus (size_minus (max_y / 2) (items_len / 2)) 5))
          (as_int (size_minus (max_x / 2) (len / 2))) shown)

  -- `m_newgame` and `m_connect`, whose items are the main menu and the exit.
  unfoldable pub draw_connecting : ℕ → Result (List Print)
  unfolding draw_caption draw_items
  draw_connecting id = do
    caption ← draw_caption id 2
    items ← draw_items (size_minus (max_y / 2) 2) 0 (m_main_id ∷ m_exit_game_id ∷ [])
    ok (caption ++ items)

  -- `m_options`
  unfoldable pub draw_options : ℕ → List ℕ → Result (List Print)
  unfolding draw_caption draw_items
  draw_options id ids = do
    caption ← draw_caption id (length ids)
    items ← draw_items (size_minus (max_y / 2) (length ids / 2)) 0 ids
    ok (caption ++ items)

  -- `m_main`
  unfoldable pub draw_main : Bytes → ℕ → List ℕ → Result (List Print)
  unfolding draw_message draw_options
  draw_main menu_msg id ids = do
    message ← draw_message menu_msg (length ids)
    rest ← draw_options id ids
    ok (message ∷ rest)

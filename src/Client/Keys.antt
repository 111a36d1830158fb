-- ===== src/Client/Keys.antt =====
-- The main loop of `client` in src/client.c: what the last key is taken for, and what it does.
use itmmorgue.Base.{
  ℕ, true, List, [], ◌∷◌, if◌then◌else◌, Result, ok, or_undefined, ◌>>=◌, get_elem?,
}
use itmmorgue.Config.Values.{ℤ}
use itmmorgue.Keyboard.{
  k_exit, k_clr_scr, k_move_left, k_move_right, k_move_up, k_move_down, k_move_left_up,
  k_move_right_up, k_move_left_down, k_move_right_down, k_menu_large, k_inventory_large,
  k_chat_large, k_sysmsg_large,
}
use itmmorgue.Windows.{same_int}
use itmmorgue.Client.{Game, c_send_move}

-- What a key of the main loop is for.
pub data Action : Type 0 where
  open_menu open_chat open_sysmsg open_inventory quit clear_screen no_action : Action
  send_move : ℕ → Action

-- The chain of tests, in order: the first key of `K` that is the last key.
abbrev pub tests : List (ℕ × Action)
tests =
    (k_menu_large, open_menu)
    ∷ (k_chat_large, open_chat)
    ∷ (k_sysmsg_large, open_sysmsg)
    ∷ (k_move_left, send_move k_move_left)
    ∷ (k_move_right, send_move k_move_right)
    ∷ (k_move_up, send_move k_move_up)
    ∷ (k_move_down, send_move k_move_down)
    ∷ (k_move_left_up, send_move k_move_left_up)
    ∷ (k_move_right_up, send_move k_move_right_up)
    ∷ (k_move_left_down, send_move k_move_left_down)
    ∷ (k_move_right_down, send_move k_move_right_down)
    ∷ (k_inventory_large, open_inventory)
    ∷ (k_exit, quit)
    ∷ (k_clr_scr, clear_screen)
    ∷ []

unfoldable pub first_match : List (ℕ × Action) → List ℤ → ℤ → Result Action
first_match [] keys last_key = ok no_action
first_match ((i, action) ∷ rest) keys last_key = do
  key ← or_undefined (get_elem? keys i)
  if same_int key last_key then ok action else first_match rest keys last_key

unfoldable pub action_of : List ℤ → ℤ → Result Action
unfolding first_match
action_of keys last_key = first_match tests keys last_key

-- What the loop does itself. The windows and the menu that a key opens are loops of their own.
unfoldable pub act : Game → Action → Result Game
act g (send_move k) = do q ← c_send_move g.c2s_queue k; ok (record g { c2s_queue = q })
act g quit = ok (record g { end = true })
act g _ = ok g

unfoldable pub on_key : List ℤ → ℤ → Game → Result Game
unfolding action_of act
on_key keys last_key g = do action ← action_of keys last_key; act g action

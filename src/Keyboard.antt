-- ===== src/Keyboard.antt =====
-- src/keyboard.h: the items of `enum keyboard`, as the numbers that they stand for. The digits follow
-- `k_zero` in order.
pub mod Map
pub mod Defaults
mod Tests
use itmmorgue.Base.{ℕ}

abbrev pub k_exit : ℕ
k_exit = 0

abbrev pub k_move_left : ℕ
k_move_left = 4

abbrev pub k_move_right : ℕ
k_move_right = 5

abbrev pub k_move_up : ℕ
k_move_up = 6

abbrev pub k_move_down : ℕ
k_move_down = 7

abbrev pub k_move_left_up : ℕ
k_move_left_up = 8

abbrev pub k_move_right_up : ℕ
k_move_right_up = 9

abbrev pub k_move_left_down : ℕ
k_move_left_down = 10

abbrev pub k_move_right_down : ℕ
k_move_right_down = 11

abbrev pub k_window_exit : ℕ
k_window_exit = 1

abbrev pub k_clr_scr : ℕ
k_clr_scr = 2

abbrev pub k_backspace : ℕ
k_backspace = 3

abbrev pub k_scroll_up : ℕ
k_scroll_up = 12

abbrev pub k_scroll_down : ℕ
k_scroll_down = 13

abbrev pub k_menu_large : ℕ
k_menu_large = 14

abbrev pub k_inventory_large : ℕ
k_inventory_large = 15

abbrev pub k_chat_large : ℕ
k_chat_large = 16

abbrev pub k_sysmsg_large : ℕ
k_sysmsg_large = 17

abbrev pub k_chat_send : ℕ
k_chat_send = 18

abbrev pub k_zero : ℕ
k_zero = 19

abbrev pub k_size : ℕ
k_size = 29

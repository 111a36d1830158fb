-- ===== src/Keyboard/Map.antt =====
-- What the client's start fills from the configuration: the key map `K` of src/keyboard.c, and the
-- symbols `S` of src/stuff.c.
use Prim.Native.String.{String}
use itmmorgue.Base.{
  ℕ, ◌+◌, ◌-◌, List, [], ◌∷◌, ltb, if◌then◌else◌, Result, ok, stop, undefined, ◌>>=◌, Bytes, codes,
  set, length, replicate,
}
use itmmorgue.Keyboard.{
  k_exit, k_window_exit, k_clr_scr, k_backspace, k_move_left, k_move_right, k_move_up, k_move_down,
  k_move_left_up, k_move_right_up, k_move_left_down, k_move_right_down, k_scroll_up, k_scroll_down,
  k_menu_large, k_inventory_large, k_chat_large, k_sysmsg_large, k_chat_send, k_zero, k_size,
}
use itmmorgue.Config.Values.{ℤ, pos, negsuc}
use itmmorgue.Config.Entries.{Lookup, conf_cval}

-- A char is signed on the machines that the program is built for.
abbrev pub int_of_char : ℕ → ℤ
int_of_char c = if ltb c 128 then pos c else negsuc (255 - c)

-- An assignment `a[i] = CONF_CVAL(key)` for each pair, in order; `cast` is the conversion from a char.
module _ {A : Type 0} (cast : ℕ → A) (conf : Lookup) where
  unfoldable pub assign_all : List (ℕ × Bytes) → List A → Result (List A)
  assign_all [] a = ok a
  assign_all ((i, key) ∷ rest) a = do
    c ← conf_cval conf key
    if ltb i (length a) then assign_all rest (set a i (cast c)) else stop undefined

abbrev pub key_option : String → ℕ → ℕ × Bytes
key_option name i = (i, codes name)

abbrev pub key_options : List (ℕ × Bytes)
key_options =
    key_option "key_exit" k_exit
    ∷ key_option "key_window_exit" k_window_exit
    ∷ key_option "key_clear_screen" k_clr_scr
    ∷ key_option "key_backspace" k_backspace
    ∷ key_option "key_move_left" k_move_left
    ∷ key_option "key_move_right" k_move_right
    ∷ key_option "key_move_up" k_move_up
    ∷ key_option "key_move_down" k_move_down
    ∷ key_option "key_move_left_up" k_move_left_up
    ∷ key_option "key_move_right_up" k_move_right_up
    ∷ key_option "key_move_left_down" k_move_left_down
    ∷ key_option "key_move_right_down" k_move_right_down
    ∷ key_option "key_scroll_up" k_scroll_up
    ∷ key_option "key_scroll_down" k_scroll_down
    ∷ key_option "key_menu_large" k_menu_large
    ∷ key_option "key_inventory_large" k_inventory_large
    ∷ key_option "key_chat_large" k_chat_large
    ∷ key_option "key_sysmsg_large" k_sysmsg_large
    ∷ key_option "key_chat_send" k_chat_send
    ∷ key_option "key_zero" k_zero
    ∷ key_option "key_one" (k_zero + 1)
    ∷ key_option "key_two" (k_zero + 2)
    ∷ key_option "key_three" (k_zero + 3)
    ∷ key_option "key_four" (k_zero + 4)
    ∷ key_option "key_five" (k_zero + 5)
    ∷ key_option "key_six" (k_zero + 6)
    ∷ key_option "key_seven" (k_zero + 7)
    ∷ key_option "key_eight" (k_zero + 8)
    ∷ key_option "key_nine" (k_zero + 9)
    ∷ []

-- `int K[K_SIZE]` before the start
abbrev pub zero_keys : List ℤ
zero_keys = replicate k_size (pos 0)

unfoldable pub keyboard_init : Lookup → Result (List ℤ)
unfolding assign_all
keyboard_init conf = assign_all int_of_char conf key_options zero_keys

-- `enum stuff`, whose items `stuff_init` assigns in order.
abbrev pub stuff_options : List (ℕ × Bytes)
stuff_options =
    key_option "stuff_none" 0
    ∷ key_option "stuff_floor" 1
    ∷ key_option "stuff_wall" 2
    ∷ key_option "stuff_door" 3
    ∷ key_option "stuff_tree" 4
    ∷ key_option "stuff_grass" 5
    ∷ key_option "stuff_player" 6
    ∷ key_option "stuff_downstairs" 7
    ∷ key_option "stuff_upstairs" 8
    ∷ key_option "stuff_trap" 9
    ∷ key_option "stuff_food" 10
    ∷ key_option "stuff_gold" 11
    ∷ key_option "stuff_scroll" 12
    ∷ key_option "stuff_book" 13
    ∷ key_option "stuff_ring" 14
    ∷ key_option "stuff_wand" 15
    ∷ []

abbrev pub s_size : ℕ
s_size = 16

-- `chtype` is a type of curses: `chtype_of` is the conversion to it.
unfoldable pub stuff_init : (ℕ → ℕ) → Lookup → Result (List ℕ)
unfolding assign_all
stuff_init chtype_of conf = assign_all chtype_of conf stuff_options (replicate s_size 0)

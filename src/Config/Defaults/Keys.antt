-- ===== src/Config/Defaults/Keys.antt =====
-- The part of src/default_config.h about the keys and the symbols.
use itmmorgue.Base.{List, [], ◌∷◌, Bytes}
use itmmorgue.Config.Values.{Conf}
use itmmorgue.Config.Entries.{c_chr}

abbrev pub key_defaults : List (Bytes × Conf)
key_defaults =
    c_chr "key_exit" 113
    ∷ c_chr "key_window_exit" 9
    ∷ c_chr "key_clear_screen" 12
    ∷ c_chr "key_backspace" 127
    ∷ c_chr "key_move_left" 52
    ∷ c_chr "key_move_right" 54
    ∷ c_chr "key_move_up" 56
    ∷ c_chr "key_move_down" 50
    ∷ c_chr "key_move_left_up" 55
    ∷ c_chr "key_move_right_up" 57
    ∷ c_chr "key_move_left_down" 49
    ∷ c_chr "key_move_right_down" 51
    ∷ c_chr "key_scroll_up" 47
    ∷ c_chr "key_scroll_down" 42
    ∷ c_chr "key_menu_large" 109
    ∷ c_chr "key_inventory_large" 105
    ∷ c_chr "key_chat_large" 99
    ∷ c_chr "key_sysmsg_large" 80
    ∷ c_chr "key_chat_send" 10
    ∷ c_chr "key_zero" 48
    ∷ c_chr "key_one" 49
    ∷ c_chr "key_two" 50
    ∷ c_chr "key_three" 51
    ∷ c_chr "key_four" 52
    ∷ c_chr "key_five" 53
    ∷ c_chr "key_six" 54
    ∷ c_chr "key_seven" 55
    ∷ c_chr "key_eight" 56
    ∷ c_chr "key_nine" 57
    ∷ []

abbrev pub stuff_defaults : List (Bytes × Conf)
stuff_defaults =
    c_chr "stuff_none" 32
    ∷ c_chr "stuff_floor" 46
    ∷ c_chr "stuff_wall" 35
    ∷ c_chr "stuff_door" 43
    ∷ c_chr "stuff_tree" 94
    ∷ c_chr "stuff_grass" 46
    ∷ c_chr "stuff_player" 64
    ∷ c_chr "stuff_downstairs" 62
    ∷ c_chr "stuff_upstairs" 60
    ∷ c_chr "stuff_trap" 94
    ∷ c_chr "stuff_food" 58
    ∷ c_chr "stuff_gold" 36
    ∷ c_chr "stuff_scroll" 63
    ∷ c_chr "stuff_book" 63
    ∷ c_chr "stuff_ring" 61
    ∷ c_chr "stuff_wand" 47
    ∷ []

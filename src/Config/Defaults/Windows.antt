-- ===== src/Config/Defaults/Windows.antt =====
-- The part of src/default_config.h about the windows.
use itmmorgue.Base.{List, [], ◌∷◌, Bytes}
use itmmorgue.Config.Values.{Conf, pos, negsuc}
use itmmorgue.Config.Entries.{c_int}

abbrev pub win_stdscr_defaults : List (Bytes × Conf)
win_stdscr_defaults =
    c_int "win_stdscr_small_y" (pos 0)
    ∷ c_int "win_stdscr_small_y_ispercent" (pos 0)
    ∷ c_int "win_stdscr_small_x" (pos 0)
    ∷ c_int "win_stdscr_small_x_ispercent" (pos 0)
    ∷ c_int "win_stdscr_small_max_y" (pos 0)
    ∷ c_int "win_stdscr_small_max_y_ispercent" (pos 0)
    ∷ c_int "win_stdscr_small_max_x" (pos 0)
    ∷ c_int "win_stdscr_small_max_x_ispercent" (pos 0)
    ∷ c_int "win_stdscr_large_y" (pos 0)
    ∷ c_int "win_stdscr_large_y_ispercent" (pos 0)
    ∷ c_int "win_stdscr_large_x" (pos 0)
    ∷ c_int "win_stdscr_large_x_ispercent" (pos 0)
    ∷ c_int "win_stdscr_large_max_y" (pos 0)
    ∷ c_int "win_stdscr_large_max_y_ispercent" (pos 0)
    ∷ c_int "win_stdscr_large_max_x" (pos 0)
    ∷ c_int "win_stdscr_large_max_x_ispercent" (pos 0)
    ∷ c_int "win_stdscr_state" (pos 2)
    ∷ []

abbrev pub win_area_defaults : List (Bytes × Conf)
win_area_defaults =
    c_int "win_area_small_y" (pos 0)
    ∷ c_int "win_area_small_y_ispercent" (pos 0)
    ∷ c_int "win_area_small_x" (pos 0)
    ∷ c_int "win_area_small_x_ispercent" (pos 0)
    ∷ c_int "win_area_small_max_y" (pos 0)
    ∷ c_int "win_area_small_max_y_ispercent" (pos 0)
    ∷ c_int "win_area_small_max_x" (pos 0)
    ∷ c_int "win_area_small_max_x_ispercent" (pos 0)
    ∷ c_int "win_area_large_y" (pos 2)
    ∷ c_int "win_area_large_y_ispercent" (pos 0)
    ∷ c_int "win_area_large_x" (pos 0)
    ∷ c_int "win_area_large_x_ispercent" (pos 0)
    ∷ c_int "win_area_large_max_y" (negsuc 1)
    ∷ c_int "win_area_large_max_y_ispercent" (pos 0)
    ∷ c_int "win_area_large_max_x" (pos 0)
    ∷ c_int "win_area_large_max_x_ispercent" (pos 0)
    ∷ c_int "win_area_state" (pos 2)
    ∷ []

abbrev pub win_chat_defaults : List (Bytes × Conf)
win_chat_defaults =
    c_int "win_chat_small_y" (pos 0)
    ∷ c_int "win_chat_small_y_ispercent" (pos 0)
    ∷ c_int "win_chat_small_x" (negsuc 29)
    ∷ c_int "win_chat_small_x_ispercent" (pos 1)
    ∷ c_int "win_chat_small_max_y" (pos 2)
    ∷ c_int "win_chat_small_max_y_ispercent" (pos 0)
    ∷ c_int "win_chat_small_max_x" (pos 30)
    ∷ c_int "win_chat_small_max_x_ispercent" (pos 1)
    ∷ c_int "win_chat_large_y" (pos 0)
    ∷ c_int "win_chat_large_y_ispercent" (pos 0)
    ∷ c_int "win_chat_large_x" (negsuc 29)
    ∷ c_int "win_chat_large_x_ispercent" (pos 1)
    ∷ c_int "win_chat_large_max_y" (pos 0)
    ∷ c_int "win_chat_large_max_y_ispercent" (pos 0)
    ∷ c_int "win_chat_large_max_x" (pos 30)
    ∷ c_int "win_chat_large_max_x_ispercent" (pos 1)
    ∷ c_int "win_chat_state" (pos 1)
    ∷ []

abbrev pub win_inventory_defaults : List (Bytes × Conf)
win_inventory_defaults =
    c_int "win_inventory_small_y" (pos 0)
    ∷ c_int "win_inventory_small_y_ispercent" (pos 0)
    ∷ c_int "win_inventory_small_x" (pos 0)
    ∷ c_int "win_inventory_small_x_ispercent" (pos 0)
    ∷ c_int "win_inventory_small_max_y" (pos 0)
    ∷ c_int "win_inventory_small_max_y_ispercent" (pos 0)
    ∷ c_int "win_inventory_small_max_x" (pos 0)
    ∷ c_int "win_inventory_small_max_x_ispercent" (pos 0)
    ∷ c_int "win_inventory_large_y" (pos 0)
    ∷ c_int "win_inventory_large_y_ispercent" (pos 0)
    ∷ c_int "win_inventory_large_x" (pos 0)
    ∷ c_int "win_inventory_large_x_ispercent" (pos 0)
    ∷ c_int "win_inventory_large_max_y" (pos 0)
    ∷ c_int "win_inventory_large_max_y_ispercent" (pos 0)
    ∷ c_int "win_inventory_large_max_x" (pos 0)
    ∷ c_int "win_inventory_large_max_x_ispercent" (pos 0)
    ∷ c_int "win_inventory_state" (pos 0)
    ∷ []

abbrev pub win_map_defaults : List (Bytes × Conf)
win_map_defaults =
    c_int "win_map_small_y" (pos 0)
    ∷ c_int "win_map_small_y_ispercent" (pos 0)
    ∷ c_int "win_map_small_x" (pos 0)
    ∷ c_int "win_map_small_x_ispercent" (pos 0)
    ∷ c_int "win_map_small_max_y" (pos 0)
    ∷ c_int "win_map_small_max_y_ispercent" (pos 0)
    ∷ c_int "win_map_small_max_x" (pos 0)
    ∷ c_int "win_map_small_max_x_ispercent" (pos 0)
    ∷ c_int "win_map_large_y" (pos 0)
    ∷ c_int "win_map_large_y_ispercent" (pos 0)
    ∷ c_int "win_map_large_x" (pos 0)
    ∷ c_int "win_map_large_x_ispercent" (pos 0)
    ∷ c_int "win_map_large_max_y" (pos 0)
    ∷ c_int "win_map_large_max_y_ispercent" (pos 0)
    ∷ c_int "win_map_large_max_x" (pos 0)
    ∷ c_int "win_map_large_max_x_ispercent" (pos 0)
    ∷ c_int "win_map_state" (pos 0)
    ∷ []

abbrev pub win_status_defaults : List (Bytes × Conf)
win_status_defaults =
    c_int "win_status_small_y" (pos 23)
    ∷ c_int "win_status_small_y_ispercent" (pos 0)
    ∷ c_int "win_status_small_x" (pos 0)
    ∷ c_int "win_status_small_x_ispercent" (pos 0)
    ∷ c_int "win_status_small_max_y" (pos 2)
    ∷ c_int "win_status_small_max_y_ispercent" (pos 0)
    ∷ c_int "win_status_small_max_x" (pos 0)
    ∷ c_int "win_status_small_max_x_ispercent" (pos 0)
    ∷ c_int "win_status_large_y" (negsuc 1)
    ∷ c_int "win_status_large_y_ispercent" (pos 0)
    ∷ c_int "win_status_large_x" (pos 0)
    ∷ c_int "win_status_large_x_ispercent" (pos 0)
    ∷ c_int "win_status_large_max_y" (pos 2)
    ∷ c_int "win_status_large_max_y_ispercent" (pos 0)
    ∷ c_int "win_status_large_max_x" (pos 0)
    ∷ c_int "win_status_large_max_x_ispercent" (pos 0)
    ∷ c_int "win_status_state" (pos 2)
    ∷ []

abbrev pub win_sysmsg_defaults : List (Bytes × Conf)
win_sysmsg_defaults =
    c_int "win_sysmsg_small_y" (pos 0)
    ∷ c_int "win_sysmsg_small_y_ispercent" (pos 0)
    ∷ c_int "win_sysmsg_small_x" (pos 0)
    ∷ c_int "win_sysmsg_small_x_ispercent" (pos 0)
    ∷ c_int "win_sysmsg_small_max_y" (pos 2)
    ∷ c_int "win_sysmsg_small_max_y_ispercent" (pos 0)
    ∷ c_int "win_sysmsg_small_max_x" (pos 70)
    ∷ c_int "win_sysmsg_small_max_x_ispercent" (pos 1)
    ∷ c_int "win_sysmsg_large_y" (pos 0)
    ∷ c_int "win_sysmsg_large_y_ispercent" (pos 0)
    ∷ c_int "win_sysmsg_large_x" (pos 0)
    ∷ c_int "win_sysmsg_large_x_ispercent" (pos 0)
    ∷ c_int "win_sysmsg_large_max_y" (pos 100)
    ∷ c_int "win_sysmsg_large_max_y_ispercent" (pos 1)
    ∷ c_int "win_sysmsg_large_max_x" (pos 70)
    ∷ c_int "win_sysmsg_large_max_x_ispercent" (pos 1)
    ∷ c_int "win_sysmsg_state" (pos 1)
    ∷ []

-- ===== src/Config/Defaults.antt =====
-- `t_conf_default` of src/default_config.h: the key, the type and the value of every option.
pub mod Windows
pub mod Keys
use itmmorgue.Base.{List, [], ◌∷◌, ◌++◌, Bytes}
use itmmorgue.Config.Values.{Conf, pos}
use itmmorgue.Config.Entries.{c_int, c_str}
use itmmorgue.Config.Defaults.Windows.{
  win_stdscr_defaults, win_area_defaults, win_chat_defaults, win_inventory_defaults,
  win_map_defaults, win_status_defaults, win_sysmsg_defaults,
}
use itmmorgue.Config.Defaults.Keys.{key_defaults, stuff_defaults}

abbrev pub level_defaults : List (Bytes × Conf)
level_defaults = c_int "level_width" (pos 256) ∷ c_int "level_height" (pos 64) ∷ []

abbrev pub splash_defaults : List (Bytes × Conf)
splash_defaults = c_int "splash_time" (pos 1000000) ∷ c_int "splash_delay" (pos 3000) ∷ []

abbrev pub other_defaults : List (Bytes × Conf)
other_defaults =
    c_str "player_nickname" ""
    ∷ c_int "player_color" (pos 10)
    ∷ c_int "player_camera" (pos 1)
    ∷ c_str "file_locale" ""
    ∷ c_str "file_server_log" "itmmorgue.log"
    ∷ []

abbrev pub t_conf_default : List (Bytes × Conf)
t_conf_default =
    level_defaults
    ++ (win_stdscr_defaults
        ++ (win_area_defaults
            ++ (win_chat_defaults
                ++ (win_inventory_defaults
                    ++ (win_map_defaults
                        ++ (win_status_defaults
                            ++ (win_sysmsg_defaults
                                ++ (splash_defaults
                                    ++ (key_defaults ++ (stuff_defaults ++ other_defaults))))))))))

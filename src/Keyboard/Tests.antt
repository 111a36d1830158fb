-- ===== src/Keyboard/Tests.antt =====
-- The key map by default, over a sample trie.
use itmmorgue.Base.{◌≡◌, map, ok}
use itmmorgue.Config.Values.{pos}
use itmmorgue.Config.File.{config_pre_init, conf}
use itmmorgue.Config.Defaults.{t_conf_default}
use itmmorgue.Config.Sample.{Sample, sample_get, sample_put, no_options, no_options-IsMap}
use itmmorgue.Keyboard.Map.{keyboard_init, stuff_init}
use itmmorgue.Keyboard.Defaults.{bound_keys, symbols, keyboard_init_defaults}

keyboard_init_defaults_example :
    (t : Sample) × (config_pre_init sample_put t_conf_default no_options ≡ ok t)
    × (keyboard_init (conf sample_get t) ≡ ok (map pos bound_keys))
    × (stuff_init (λ c. c) (conf sample_get t) ≡ ok (map (λ c. c) symbols))
keyboard_init_defaults_example =
    keyboard_init_defaults sample_get sample_put no_options-IsMap (λ c. c)

-- ===== src/Keyboard/Defaults.antt =====
-- The key map and the symbols that a client has by default: src/keyboard.c and src/stuff.c over the table
-- of src/default_config.h.
use itmmorgue.Base.{ℕ, ◌≡◌, refl, Option, ◌∷◌, map, ok, Bytes, codes, ap, ◌∙◌}
use itmmorgue.Config.Values.{Conf, pos}
use itmmorgue.Config.Found.{IsMap, default_conf, config_pre_init-default_conf}
use itmmorgue.Config.Defaults.{t_conf_default}
use itmmorgue.Config.File.{config_pre_init, conf}
use itmmorgue.Keyboard.Map.{keyboard_init, stuff_init, assign_all}

-- The default keys in the order of `enum keyboard`, and the symbols in that of `enum stuff`.
abbrev pub bound_keys : Bytes
bound_keys = 113 ∷ 9 ∷ 12 ∷ 127 ∷ codes "46827913/*micP\n0123456789"

abbrev pub symbols : Bytes
symbols = codes " .#+^.@><^:$??=/"

keyboard_init-default_conf : keyboard_init default_conf ≡ ok (map pos bound_keys)
unfolding keyboard_init assign_all
keyboard_init-default_conf = refl

stuff_init-default_conf :
    (chtype_of : ℕ → ℕ) → stuff_init chtype_of default_conf ≡ ok (map chtype_of symbols)
unfolding stuff_init assign_all
stuff_init-default_conf chtype_of = refl

module _ {T : Type 0} (get : T → Bytes → Option Conf) (put : T → Bytes → Conf → Option T) where
  -- Over a trie that does what a map does, `config_pre_init` succeeds on the table of defaults, and
  -- behind it `keyboard_init` and `stuff_init` succeed: every option that they read is in the table
  -- with the type that they read it as, and each key and symbol is the one of the header.
  pub keyboard_init_defaults :
      {empty : T} (m : IsMap get put empty) (chtype_of : ℕ → ℕ)
      → (t : T) × (config_pre_init put t_conf_default empty ≡ ok t)
        × (keyboard_init (conf get t) ≡ ok (map pos bound_keys))
        × (stuff_init chtype_of (conf get t) ≡ ok (map chtype_of symbols))
  keyboard_init_defaults m chtype_of =
      let (t, e, same) = config_pre_init-default_conf get put m in
      (
        t,
        e,
        ap keyboard_init same ∙ keyboard_init-default_conf,
        ap (stuff_init chtype_of) same ∙ stuff_init-default_conf chtype_of,
      )

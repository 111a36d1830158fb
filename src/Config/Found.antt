-- ===== src/Config/Found.antt =====
-- `config_pre_init` of src/config.c over a trie that does what a map does: every default is found, and
-- each with the type that the code reads it as.
use itmmorgue.Base.{
  ◌≡◌, refl, ◌∙◌, ap, Option, none, some, List, [], ◌∷◌, if◌then◌else◌, Result, ok, stop, panic,
  invalid_conf, Bytes, same_text,
}
use mathlib.Core.Path.{fun_ext}
use itmmorgue.Config.Values.{Conf}
use itmmorgue.Config.Entries.{Lookup}
use itmmorgue.Config.File.{config_pre_init, conf}
use itmmorgue.Config.Defaults.{t_conf_default}

-- The value that the last entry of a key has.
abbrev pub last_of : List (Bytes × Conf) → Option Conf → Bytes → Option Conf
last_of [] old key = old
last_of ((k, v) ∷ rest) old key = last_of rest (if same_text key k then some v else old) key

abbrev pub conf_of : Option Conf → Result Conf
conf_of none = stop (panic invalid_conf)
conf_of (some v) = ok v

-- What `conf` answers by the table of defaults alone.
abbrev pub default_conf : Lookup
default_conf key = conf_of (last_of t_conf_default none key)

module _ {T : Type 0} (get : T → Bytes → Option Conf) (put : T → Bytes → Conf → Option T) where
  -- `trie_put` finds memory, and `trie_get` then finds what was put last.
  pub record IsMap (empty : T) : Type 0 where
    pub found_none : (key : Bytes) → get empty key ≡ none
    pub put_found :
        (t : T) (key : Bytes) (v : Conf)
        → (t' : T) × (put t key v ≡ some t')
          × ((k : Bytes) → get t' k ≡ (if same_text k key then some v else get t k))

  config_pre_init-last_of :
      {empty : T} (m : IsMap empty) (defaults : List (Bytes × Conf)) (t : T)
      → (t' : T) × (config_pre_init put defaults t ≡ ok t')
        × ((key : Bytes) → get t' key ≡ last_of defaults (get t key) key)
  unfolding config_pre_init
  config_pre_init-last_of m [] t = (t, refl, λ key. refl)
  config_pre_init-last_of m ((k, v) ∷ rest) t =
      let (t₁, e₁, found) = m.put_found t k v in
      let (t₂, e₂, all) = config_pre_init-last_of m rest t₁ in
      (t₂, rw (config_pre_init, e₁) e₂, λ key. rw (all key, found key))

  conf-conf_of :
      (t : T) (key : Bytes) (o : Option Conf) → get t key ≡ o → conf get t key ≡ conf_of o
  unfolding conf
  conf-conf_of t key none e = rw (conf, e)
  conf-conf_of t key (some v) e = rw (conf, e)

  -- Behind `config_pre_init` the configuration answers what the table says, for every key.
  pub config_pre_init-default_conf :
      {empty : T} (m : IsMap empty)
      → (t : T) × (config_pre_init put t_conf_default empty ≡ ok t) × (conf get t ≡ default_conf)
  config_pre_init-default_conf {empty} m =
      let (t, e, all) = config_pre_init-last_of m t_conf_default empty in
      (
        t,
        e,
        fun_ext λ key.
            conf-conf_of t key (last_of t_conf_default none key)
              (all key ∙ ap (λ o. last_of t_conf_default o key) (m.found_none key)),
      )

-- ===== src/Config/LocaleFile.antt =====
-- `locale_init` and `_` of src/locale.c, over the trie of lib/trie, which is a parameter: `empty` is
-- `trie_init`, `get` and `put` are `trie_get` and `trie_put`.
use itmmorgue.Base.{
  ℕ, zero, suc, ◌+◌, ◌-◌, ◌%◌, ◌^◌, true, false, ◌||◌, Option, none, some, [], ◌∷◌, ◌++◌, ◌==◌, leb,
  ltb, if◌then◌else◌, Result, ok, stop, undefined, panic, out_of_fuel, or_undefined, ◌>>=◌, Bytes,
  drop, length, c_string, stat_failed, invalid_size, parse_error, unable_to_put,
}
use itmmorgue.Config.{config_size_max}
use itmmorgue.Config.File.{or_stale, is_success}
use itmmorgue.Config.Locale.{locale_parse}

module _ {T : Type 0} (empty : T) (get : T → Bytes → Option Bytes)
    (put : T → Bytes → Bytes → Option T) where
  -- The loop over the entries of a file. LOCALE_SIZE_MAX is the number that CONFIG_SIZE_MAX is.
  unfoldable pub locale_loop : ℕ → Bytes → ℕ → Option ℕ → Bytes → Bytes → T → Result T
  locale_loop zero buf buflen stale key value t = stop out_of_fuel
  locale_loop (suc fuel) buf buflen stale key value t =
      elim ((buflen == 0) || leb config_size_max buflen) [
        | true ↦ ok t
        | false ↦ do
          r ← locale_parse buf buflen key value
          elim (is_success r.0) [
            | false ↦ stop (panic parse_error)
            | true ↦ do
              name ← or_undefined (c_string r.2.key)
              text ← or_undefined (c_string r.2.value)
              t' ← elim (put t name text) [ none ↦ stop (panic unable_to_put) | some t' ↦ ok t' ]
              off ← or_undefined (or_stale r.1 stale)
              let left = (buflen + 2 ^ 64 - off) % 2 ^ 64
              locale_loop fuel (drop off buf) left (some off) r.2.key r.2.value t'
          ]
      ]

  -- What the file holds is read behind the first `size` bytes of a block of its own length and one. The
  -- global `size` is 0 at the first call and is not reset, so the second call writes past the block.
  unfoldable pub read_contents : ℕ → Bytes → Result (ℕ × Bytes)
  read_contents size text = if size == 0 then ok (length text, text ++ 0 ∷ []) else stop undefined

  -- `locale_init`, on `t_locale` and `size`. A null or empty name leaves an empty trie.
  unfoldable pub locale_init : (Bytes → Option Bytes) → Bytes → Bytes → Bytes → ℕ → Result (T × ℕ)
  unfolding locale_loop read_contents
  locale_init files key_memory value_memory file size =
      if length file == 0 then ok (empty, size) else elim (files file) [
        | none ↦ stop (panic stat_failed)
        | some text ↦
            if (length text == 0) || ltb config_size_max (length text)
            then stop (panic invalid_size)
            else do
              r ← read_contents size text
              t ← locale_loop (length text + 2) r.1 (r.0 + 1) none key_memory value_memory empty
              ok (t, r.0)
      ]

  -- `_`: a text without a translation, or before the locale is there, is its own.
  unfoldable pub translate : Option T → Bytes → Bytes
  translate none str = str
  translate (some t) str = elim (get t str) [ none ↦ str | some curr ↦ curr ]

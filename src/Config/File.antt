-- ===== src/Config/File.antt =====
-- `parse_file`, `config_init` and `conf` of src/config.c. The file system and the trie of lib/trie are
-- parameters: `files` is what a name leads to, `get` and `put` are `trie_get` and `trie_put`.
use itmmorgue.Base.{
  ℕ, zero, suc, ◌+◌, ◌-◌, ◌%◌, ◌^◌, Bool, true, false, ◌||◌, Option, none, some, List, [], ◌∷◌,
  ◌++◌, ◌==◌, leb, ltb, if◌then◌else◌, Result, ok, stop, panic, out_of_fuel, or_undefined, ◌>>=◌,
  Bytes, take, drop, length, c_string, codes, recursion_depth, invalid_file, stat_failed,
  invalid_size, parse_error, value_error, unable_to_put, invalid_conf,
}
use mathlib.Core.Option
use itmmorgue.Config.{Retval, cp_success, read, config_size_max}
use itmmorgue.Config.Parse.{ConfType, conf_string, conf_int, conf_char, Parser, parse_option}
use itmmorgue.Config.Values.{
  Conf, conf_type, parse_option_string, parse_option_int, parse_option_char,
}

-- `parsers[ct](value, ...)`
unfoldable pub parse_value : ConfType → Bytes → Result (Retval × Option Conf)
parse_value conf_string value = parse_option_string value
parse_value conf_int value = parse_option_int false value
parse_value conf_char value = parse_option_char value

-- `config_pre_init`: every default is put into the trie.
module _ {T : Type 0} (put : T → Bytes → Conf → Option T) where
  unfoldable pub config_pre_init : List (Bytes × Conf) → T → Result T
  config_pre_init [] conf = ok conf
  config_pre_init ((key, value) ∷ rest) conf = elim (put conf key value) [
    | none ↦ stop (panic unable_to_put)
    | some conf' ↦ config_pre_init rest conf'
  ]

  -- What is done with a parsed key and value; an empty key is none.
  unfoldable pub put_option : Parser T → Result T
  unfolding parse_value
  put_option s = do
    first ← read s.key 0
    if first == 0 then ok s.conf else do
      t ← or_undefined s.type
      r ← parse_value t s.value
      elim r.1 [
        | none ↦ stop (panic value_error)
        | some v ↦ do
          key ← or_undefined (c_string s.key)
          elim (put s.conf key v) [ none ↦ stop (panic unable_to_put) | some conf ↦ ok conf ]
      ]

-- An offset that a call left alone is the one of the call before, or memory that was never written.
abbrev pub or_stale : Option ℕ → Option ℕ → Option ℕ
or_stale none stale = stale
or_stale (some off) stale = some off

abbrev pub is_success : Retval → Bool
is_success cp_success = true
is_success _ = false

module _ {T : Type 0} (get : T → Bytes → Option Conf) where
  -- `conf(key)`
  unfoldable pub conf : T → Bytes → Result Conf
  conf t key = elim (get t key) [ none ↦ stop (panic invalid_conf) | some v ↦ ok v ]

module _ {T : Type 0} (get : T → Bytes → Option Conf) (put : T → Bytes → Conf → Option T)
    (files : Bytes → Option Bytes) (key_memory value_memory : Bytes) where
  abbrev pub type_of : T → Bytes → Option ConfType
  type_of conf key = Option.map conf_type (get conf key)

  module _ (include : Bytes → T → Result T) where
    -- The loop over the options of a file: `buf` from `bufptr` on, and the `buflen` that is left. What
    -- is behind `buf` is outside of it.
    unfoldable pub file_loop :
        ℕ → Bytes → ℕ → Option ℕ → Bytes → Bytes → Option ConfType → T → Result T
    unfolding put_option
    file_loop zero buf buflen stale key value type conf = stop out_of_fuel
    file_loop (suc fuel) buf buflen stale key value type conf =
        elim ((buflen == 0) || leb config_size_max buflen) [
          | true ↦ ok conf
          | false ↦ do
            r ← parse_option include type_of buf buflen key value type conf
            elim (is_success r.0) [
              | false ↦ stop (panic parse_error)
              | true ↦ do
                conf' ← put_option put r.2
                off ← or_undefined (or_stale r.1 stale)
                let left = (buflen + 2 ^ 64 - off) % 2 ^ 64
                file_loop fuel (drop off buf) left (some off) r.2.key r.2.value r.2.type conf'
            ]
        ]

    -- A file's contents, with the NUL that is put behind it.
    unfoldable pub parse_contents : Bytes → T → Result T
    unfolding file_loop
    parse_contents text conf =
        if (length text == 0) || ltb config_size_max (length text)
        then stop (panic invalid_size)
        else file_loop (length text + 2) (text ++ 0 ∷ []) (length text + 1) none key_memory
            value_memory none conf

  -- `parse_file`, by the value of `recursion_depth` at the call, which is the same again at the end.
  -- A file that includes is parsed at one less.
  unfoldable pub parse_file : ℕ → Bytes → T → Result T
  unfolding parse_contents
  parse_file zero name conf = stop (panic recursion_depth)
  parse_file (suc zero) name conf = stop (panic recursion_depth)
  parse_file (suc (suc depth)) name conf =
      if length name == 0 then stop (panic invalid_file) else elim (files name) [
        | none ↦ stop (panic stat_failed)
        | some text ↦ parse_contents (parse_file (suc depth)) text conf
      ]

  abbrev pub first_depth : ℕ
  first_depth = 6

  -- A file that is not there is passed over.
  unfoldable pub parse_optional : Bytes → T → Result T
  unfolding parse_file
  parse_optional name conf = elim (files name) [
    | none ↦ ok conf
    | some text ↦ parse_file first_depth name conf
  ]

  -- `config_init`: the main file, and the two in the home directory. The names are cut at 8191 bytes.
  unfoldable pub config_init : List (Bytes × Conf) → T → Bytes → Option Bytes → Result T
  unfolding config_pre_init parse_optional
  config_init defaults empty file home = do
    conf ← config_pre_init put defaults empty
    main ← parse_file first_depth file conf
    elim home [
      | none ↦ ok main
      | some dir ↦ if length dir == 0 then ok main else do
        shared ← parse_optional (take 8191 (dir ++ (codes "/.config/" ++ file))) main
        parse_optional (take 8191 (dir ++ (codes "/." ++ file))) shared
    ]

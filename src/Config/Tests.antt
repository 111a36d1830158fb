-- ===== src/Config/Tests.antt =====
-- Texts of configuration and locale files, and the theorems about their parsers at them.
use itmmorgue.Base.{
  ℕ, ◌≡◌, ◌≢◌, refl, arith, Option, none, some, [], ◌∷◌, ◌++◌, ok, stop, out_of_fuel, Result, Bytes,
  codes, replicate, c_string, true,
}
use itmmorgue.Config.{cp_success, parse, read, write, finish}
use itmmorgue.Config.Locale.{locale_parse, switch}
use itmmorgue.Config.Locale
use itmmorgue.Config.Parse.{ConfType, conf_int, parse_option}
use itmmorgue.Config.Values.{parse_option_int, config_divisor, parts_from}
use itmmorgue.Config.RoundTrip.{IsText, ReadBack, locale_parse-entry}
use itmmorgue.Config.ParseEnds.{parse_option_ends}

abbrev memory : Bytes
memory = replicate 20 7

abbrev entry : Bytes
entry = codes "# a\n{ Key: } = {Taste: }x" ++ 0 ∷ []

abbrev parsed_key : Option (Bytes × Bytes)
parsed_key = elim (locale_parse entry 25 memory memory) [
  | stop e ↦ none
  | ok r ↦ elim (c_string r.2.key) [
    | none ↦ none
    | some k ↦ elim (c_string r.2.value) [ none ↦ none | some v ↦ some (k, v) ]
  ]
]

parsed_entry : parsed_key ≡ some (codes "Key:", codes "Taste:")
unfolding locale_parse parse switch read write finish
parsed_entry = refl

abbrev no_file : Bytes → ℕ → Result ℕ
no_file name conf = ok conf

abbrev all_ints : ℕ → Bytes → Option ConfType
all_ints conf key = some conf_int

abbrev option : Bytes
option = codes "level_width = 0x10 # wide\n" ++ 0 ∷ []

parse_option_ends_example :
    parse_option no_file all_ints option 27 memory memory none 0 ≢ stop out_of_fuel
parse_option_ends_example =
    parse_option_ends no_file all_ints (λ name conf. tt) option 27 memory memory none 0

int_of_hex :
    parse_option_int true (codes "0x10" ++ 0 ∷ []) ≡ parse_option_int true (codes "16" ++ 0 ∷ [])
unfolding parse_option_int
int_of_hex = refl

key_parts :
    config_divisor (codes "file_server__log") ≡ codes "file" ∷ codes "server" ∷ codes "log" ∷ []
unfolding config_divisor parts_from
key_parts = refl

abbrev opt_memory : Bytes
opt_memory = replicate 4096 7

abbrev greeting : Bytes
greeting = codes "{Hi}={Ave}\n" ++ 0 ∷ []

hi-IsText : IsText b'H' (codes "i")
hi-IsText = record {
  plain = (
    (λ e. omega arith, λ e. omega arith, λ e. omega arith),
    ((λ e. omega arith, λ e. omega arith, λ e. omega arith), tt),
  );
  starts = refl;
  ends = refl;
  short = omega arith;
}

ave-IsText : IsText b'A' (codes "ve")
ave-IsText = record {
  plain = (
    (λ e. omega arith, λ e. omega arith, λ e. omega arith),
    (
      (λ e. omega arith, λ e. omega arith, λ e. omega arith),
      ((λ e. omega arith, λ e. omega arith, λ e. omega arith), tt),
    ),
  );
  starts = refl;
  ends = refl;
  short = omega arith;
}

locale_parse-entry_example :
    (s : Locale.Parser) × (locale_parse greeting 12 opt_memory opt_memory
      ≡ ok (cp_success, some 10, s))
    × ReadBack b'H' (codes "i") b'A' (codes "ve") s
locale_parse-entry_example =
    locale_parse-entry greeting 12 opt_memory opt_memory b'H' (codes "i") b'A' (codes "ve")
      hi-IsText ave-IsText
      (refl, (refl, (refl, (refl, (refl, (refl, (refl, (refl, (refl, (refl, tt))))))))))
      (omega arith) (omega arith) (omega arith)

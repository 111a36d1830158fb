-- ===== src/Config.antt =====
-- What src/config.c and src/locale.c share: the results of a parser, the buffers for a key and a value,
-- and one pass of a parser's loop. The children are the two parsers and what calls them.
pub mod Parse
pub mod Values
pub mod Entries
pub mod Defaults
pub mod Found
pub mod Sample
pub mod File
pub mod Locale
pub mod LocaleFile
pub mod Ends
pub mod ParseEnds
pub mod Reads
pub mod Passes
pub mod RoundTrip
mod Tests
use itmmorgue.Base.{
  ℕ, zero, suc, ◌+◌, ◌-◌, ◌*◌, ◌%◌, ◌^◌, true, false, Option, none, some, ltb, leb, if◌then◌else◌,
  Result, ok, stop, undefined, out_of_fuel, or_undefined, ◌>>=◌, get_elem?, set, length, Bytes,
  is_space,
}

-- `enum config_parser_retval`
pub data Retval : Type 0 where
  cp_success cp_no_value cp_no_key cp_too_long cp_undef : Retval

abbrev pub max_opt_len : ℕ
max_opt_len = 4096

abbrev pub config_size_max : ℕ
config_size_max = 16 * 1048576

-- `a[i] = c`, and the read: an index outside the array is undefined.
unfoldable pub write : Bytes → ℕ → ℕ → Result Bytes
write a i c = if ltb i (length a) then ok (set a i c) else stop undefined

unfoldable pub read : Bytes → ℕ → Result ℕ
read a i = or_undefined (get_elem? a i)

-- `while (pos > 0 && isspace(a[pos])) a[pos--] = '\0'`
unfoldable pub trim : Bytes → ℕ → Result (Bytes × ℕ)
trim a zero = ok (a, 0)
trim a (suc pos) = do
  c ← read a (suc pos)
  elim (is_space c) [ true ↦ trim (set a (suc pos) 0) pos | false ↦ ok (a, suc pos) ]

-- `a[pos--] = '\0'` before that loop. A size_t goes round at 0.
unfoldable pub finish : Bytes → ℕ → Result (Bytes × ℕ)
unfolding trim
finish a pos = do a' ← write a pos 0; trim a' ((pos + 2 ^ 64 - 1) % 2 ^ 64)

-- One pass of a parser's loop goes on in a state, or returns, with `*offset` set or left alone.
pub data Pass (S : Type 0) : Type 0 where
  on : S → Pass S
  return : Retval → Option ℕ → S → Pass S

-- The loop around the switch: `off < len`, and the guard against a long key or value. Falling out of
-- the loop is CP_UNDEF.
module _ {S : Type 0} (off pos : S → ℕ) (switch : S → Result (Pass S)) (len : ℕ) where
  unfoldable pub parse : ℕ → S → Result (Retval × Option ℕ × S)
  parse zero s = stop out_of_fuel
  parse (suc fuel) s = elim (ltb (off s) len) [
    | false ↦ ok (cp_undef, none, s)
    | true ↦ elim (leb (max_opt_len - 1) (pos s)) [
      | true ↦ ok (cp_undef, none, s)
      | false ↦ do p ← switch s; elim p [ on s' ↦ parse fuel s' | return r o s' ↦ ok (r, o, s') ]
    ]
  ]

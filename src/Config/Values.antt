-- ===== src/Config/Values.antt =====
-- The values of src/config.c: `parse_option_string`, `parse_option_int` and `parse_option_char`, with
-- `strtoi` of src/itmmorgue.c; and `config_divisor`, which cuts a key at its underscores.
use itmmorgue.Base.{
  ℕ, zero, suc, ◌+◌, ◌-◌, ◌*◌, ◌^◌, Bool, true, false, not, ◌&&◌, ◌||◌, Option, none, some, List,
  [], ◌∷◌, ◌++◌, ◌==◌, leb, ltb, if◌then◌else◌, Result, ok, or_undefined, ◌>>=◌, Bytes, take,
  length, get_elem?, c_string, is_space, min,
}
use itmmorgue.Config.{Retval, cp_success, cp_undef, cp_no_value, cp_too_long, max_opt_len}
use itmmorgue.Config.Parse.{ConfType, conf_string, conf_int, conf_char}

-- An int: `pos n` is n, and `negsuc n` is -(n + 1).
pub data ℤ : Type 0 where
  pos negsuc : ℕ → ℤ

-- `conf_t`, the union and its tag in one.
pub data Conf : Type 0 where
  sval : Bytes → Conf
  ival : ℤ → Conf
  cval : ℕ → Conf

abbrev pub conf_type : Conf → ConfType
conf_type (sval s) = conf_string
conf_type (ival n) = conf_int
conf_type (cval c) = conf_char

-- The three take the buffer `value`, and use the string in it.
unfoldable pub parse_option_string : Bytes → Result (Retval × Option Conf)
parse_option_string opt = do
  s ← or_undefined (c_string opt)
  ok (cp_success, some (sval (take (max_opt_len - 1) s)))

unfoldable pub parse_option_char : Bytes → Result (Retval × Option Conf)
parse_option_char opt = do
  c ← or_undefined (get_elem? opt 0)
  if c == 0 then ok (cp_no_value, none) else do
    d ← or_undefined (get_elem? opt 1)
    if not (d == 0) then ok (cp_too_long, none) else ok (cp_success, some (cval c))

-- The value of a digit, of any base up to 36.
abbrev pub digit : ℕ → Option ℕ
digit c =
    if leb b'0' c && leb c b'9'
    then some (c - b'0')
    else if leb b'a' c && leb c b'z'
    then some (c - b'a' + 10)
    else if leb b'A' c && leb c b'Z'
    then some (c - b'A' + 10)
    else none

-- The digits at the start of a text: how many, what they are worth, and what comes behind them.
unfoldable pub digits : ℕ → Bytes → ℕ → ℕ → ℕ × ℕ × Bytes
digits base [] n acc = (n, acc, [])
digits base (c ∷ cs) n acc = elim (digit c) [
  | none ↦ (n, acc, c ∷ cs)
  | some d ↦ elim (ltb d base) [
    | true ↦ digits base cs (n + 1) (acc * base + d)
    | false ↦ (n, acc, c ∷ cs)
  ]
]

abbrev pub drop_spaces : Bytes → Bytes
drop_spaces [] = []
drop_spaces (c ∷ cs) = elim (is_space c) [ true ↦ drop_spaces cs | false ↦ c ∷ cs ]

-- A sign, and whether it is a minus.
abbrev pub sign : Bytes → Bool × Bytes
sign [] = (false, [])
sign (c ∷ cs) = if c == b'-' then (true, cs) else if c == b'+' then (false, cs) else (false, c ∷ cs)

-- The base that strtol(3) finds where it is asked for base 0, and the text behind the prefix. A prefix
-- `0x` without a digit behind it is the number 0.
abbrev pub hex_follows : Bytes → Bool
hex_follows [] = false
hex_follows (c ∷ cs) = elim (digit c) [ none ↦ false | some d ↦ ltb d 16 ]

abbrev pub base_of : Bytes → ℕ × Bytes
base_of (c ∷ x ∷ cs) =
    if c == b'0'
    then (if (x == b'x' || x == b'X') && hex_follows cs then (16, cs) else (8, c ∷ x ∷ cs))
    else (10, c ∷ x ∷ cs)
base_of s = (10, s)

-- strtol(3) with base 0 on a 64-bit machine: the magnitude and whether it is below zero, whether it
-- left the range, and the text at `*endptr`.
pub record Strtol : Type 0 where
  pub minus : Bool
  pub magnitude : ℕ
  pub erange : Bool
  pub rest : Bytes

unfoldable pub strtol : Bytes → Strtol
unfolding digits
strtol str =
    let signed = sign (drop_spaces str) in
    let based = base_of signed.1 in
    let found = digits based.0 based.1 0 0 in
    let most = if signed.0 then 2 ^ 63 else 2 ^ 63 - 1 in
    if found.0 == 0
    then record { minus = false; magnitude = 0; erange = false; rest = str }
    else record {
      minus = signed.0;
      magnitude = min found.1 most;
      erange = ltb most found.1;
      rest = found.2;
    }

abbrev pub signed_int : Bool → ℕ → ℤ
signed_int true (suc n) = negsuc n
signed_int true zero = pos 0
signed_int false n = pos n

-- `strtoi`: the value between INT_MIN and INT_MAX, whether errno was set, and the rest of the text.
unfoldable pub strtoi : Bytes → ℤ × Bool × Bytes
unfolding strtol
strtoi str =
    let r = strtol str in
    if r.minus && ltb (2 ^ 31) r.magnitude
    then (negsuc (2 ^ 31 - 1), true, r.rest)
    else if not r.minus && ltb (2 ^ 31 - 1) r.magnitude
    then (pos (2 ^ 31 - 1), true, r.rest)
    else (signed_int r.minus r.magnitude, r.erange, r.rest)

-- `parse_option_int`. errno is not reset before the conversion: `stale` says that it is ERANGE already.
unfoldable pub parse_option_int : Bool → Bytes → Result (Retval × Option Conf)
unfolding strtoi
parse_option_int stale opt = do
  str ← or_undefined (c_string opt)
  let r = strtoi str
  if not (length r.2 == 0)
      then ok (cp_undef, none)
      else if stale || r.1
      then ok (cp_too_long, none)
      else ok (cp_success, some (ival r.0))

-- The parts of a key between its underscores; empty parts are left out.
unfoldable pub parts_from : Bytes → Bytes → List Bytes
parts_from [] [] = []
parts_from (x ∷ xs) [] = (x ∷ xs) ∷ []
parts_from part (c ∷ cs) = elim (c == b'_') [
  | true ↦ elim (length part == 0) [ true ↦ parts_from [] cs | false ↦ part ∷ parts_from [] cs ]
  | false ↦ parts_from (part ++ c ∷ []) cs
]

unfoldable pub config_divisor : Bytes → List Bytes
config_divisor str = parts_from [] str

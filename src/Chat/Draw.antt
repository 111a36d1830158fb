-- ===== src/Chat/Draw.antt =====
-- `draw_sysmsg` of src/sysmsg.c: how far it goes back in the system messages, and what it prints.
pub mod Lines
pub mod Scroll
pub mod Prompt
use itmmorgue.Base.{
  ℕ, zero, suc, ◌+◌, ◌-◌, ◌*◌, ◌%◌, ◌^◌, ◌≤◌, ◌<◌, ◌≡◌, refl, sym, ◌∙◌, ap, arith, ◌⊎◌, inl, inr,
  Bool, true, false, Option, none, some, List, [], ◌∷◌, ◌++◌, ◌==◌, ltb, leb, if◌then◌else◌, Result,
  ok, stop, undefined, or_undefined, ◌>>=◌, Bool-cases, Bytes, length, get_elem?, get_elem?-of_lt,
  lt_of_get_elem?, drop, take, length-append, append_assoc,
}
use mathlib.Core.Option.{some-injective}
use native.Mathlib.Nat.{mod-lt}
use itmmorgue.Util.{is_leader}

-- To the start of the next row of a window of that width; the remainder of a division by 0 is undefined.
abbrev pub next_row : ℕ → ℕ → Result ℕ
next_row max_x curr =
    if max_x == 0
    then stop undefined
    else (let n = curr + (max_x - curr % max_x) in if leb (2 ^ 31) n then stop undefined else ok n)

-- The switch on the byte `switched`, with the pointer at `ch`.
unfoldable pub past : ℕ → ℕ → ℕ → ℕ → Result ℕ
past max_x switched ch curr =
    if switched == b'\n' then next_row max_x curr else ok (if is_leader ch then curr + 1 else curr)

-- The loop that goes back from index `p`; `look` says at which byte the switch looks.
unfoldable pub back_from : (ℕ → ℕ) → ℕ → ℕ → Bytes → ℕ → ℕ → Result ℕ
unfolding past
back_from look max_x square s zero curr = ok 0
back_from look max_x square s (suc p) curr = elim (leb square curr) [
  | true ↦ ok (suc p)
  | false ↦ do
    switched ← or_undefined (get_elem? s (look (suc p)))
    ch ← or_undefined (get_elem? s (suc p))
    curr' ← past max_x switched ch curr
    back_from look max_x square s p curr'
]

-- `while (*sysmsgptr++ != '\n')`: behind the NUL the block ends.
unfoldable pub behind_newline : Bytes → Result Bytes
behind_newline [] = stop undefined
behind_newline (c ∷ cs) = if c == b'\n' then ok cs else behind_newline cs

-- What is printed where that loop stops at index `p`.
unfoldable pub print_from : Bytes → ℕ → Result (Option Bytes)
unfolding behind_newline
print_from s p = if p == 0 then ok (some s) else do
  c ← or_undefined (get_elem? s (p - 1))
  if c == b'\n' then ok (some (drop p s)) else do r ← behind_newline (drop p s); ok (some r)

-- `draw_sysmsg`, for a window of that width and height, which are not negative where curses has made it:
-- what is printed, if anything is.
unfoldable pub draw_sysmsg : ℕ → ℕ → Option Bytes → Result (Option Bytes)
unfolding back_from print_from
draw_sysmsg max_x max_y none = ok none
draw_sysmsg max_x max_y (some s) =
    if leb (2 ^ 31) (max_x * max_y)
    then stop undefined
    else if ltb (length s) 2
    then ok none
    else do p ← back_from (λ i. 0) max_x (max_x * max_y) s (length s - 2) 0; print_from s p

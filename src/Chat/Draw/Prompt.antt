-- ===== src/Chat/Draw/Prompt.antt =====
-- The prompt under the chat: `draw_chat` of src/chat.c from its label PS1 on.
pub mod Tail
use mathlib.Core.Path.{subst}
use itmmorgue.Base.{
  ℕ, zero, suc, ◌+◌, ◌-◌, ◌^◌, ◌≤◌, ◌<◌, ◌≡◌, refl, sym, ◌∙◌, ap, arith, inl, inr, Bool, true,
  false, Option, min, none, some, [], ◌∷◌, ◌++◌, ◌==◌, if◌then◌else◌, Result, ok, stop, out_of_fuel,
  or_undefined, same_ok, length-append, append_assoc, length-take, length-drop, ◌>>=◌, Bool-cases,
  Bytes, codes, length, drop, take, c_string,
}
use itmmorgue.Config.Values.{ℤ, pos, negsuc}
use itmmorgue.Windows.{same_int, large}
use itmmorgue.Windows.Ints.{◌+ℤ◌, int}
use itmmorgue.Util.{anystrunplen, unplen_from, is_leader}
use itmmorgue.Util.Lengths.{characters, NoNul, anystrunplen-characters}

-- The loop, with `input` from `inputptr` on, and `more` where PS1 begins with a plus sign.
unfoldable pub skip_typed : ℕ → ℕ → Bool → Bytes → Result (Bool × Bytes)
skip_typed zero maxlen more input = stop out_of_fuel
skip_typed (suc fuel) maxlen more input = do
  r ← anystrunplen input maxlen
  if r.0 == 0 then ok (more, input) else elim r.1 [
    | none ↦ ok (more, input)
    | some n ↦ elim (n == 0) [
      | true ↦ ok (more, input)
      | false ↦ skip_typed fuel maxlen true (drop n input)
    ]
  ]

-- An int that is passed as a size_t.
abbrev pub as_size : ℤ → ℕ
as_size (pos n) = n
as_size (negsuc n) = 2 ^ 64 - 1 - n

-- The row of the prompt, and what is printed there.
unfoldable pub draw_prompt : ℕ → ℤ → ℤ → ℤ → Bytes → Result (Option (ℤ × Bytes))
unfolding skip_typed
draw_prompt fuel state max_y max_x input =
    if same_int state large
    then (do
      width ← int (max_x +ℤ negsuc 1)
      r ← skip_typed fuel (as_size width) false input
      row ← int (max_y +ℤ negsuc 0)
      text ← or_undefined (c_string r.1)
      ok (some (row, (if r.0 then codes "+ " else codes "> ") ++ (text ++ codes "\n"))))
    else ok none

-- ===== src/Chat/Tests.antt =====
-- An input with a text and system messages of two lines, and the theorems about them.
use itmmorgue.Base.{
  some, Bytes, length, ◌==◌, if◌then◌else◌, ◌≤◌, ◌+◌, ◌*◌, ◌≡◌, refl, arith, ok, codes, [], ◌∷◌,
  ◌++◌, replicate,
}
use itmmorgue.Config.Values.{pos}
use itmmorgue.Windows.{large}
use itmmorgue.Util.{is_leader}
use itmmorgue.Util.Lengths.{characters}
use itmmorgue.Chat.Draw.Prompt.{draw_prompt}
use itmmorgue.Chat.Draw.Prompt.Tail.{draw_prompt-tail}
use itmmorgue.Chat.Draw.{draw_sysmsg}
use itmmorgue.Chat.Draw.Lines.{end_of_line, EndsLine, leaders, draw_sysmsg-lines}
use itmmorgue.Chat.Input.{Input, erase, take_typed}
use itmmorgue.Chat.Erase.{HoldsText, erase-take_typed}

-- The line `Hi`, and a character of two bytes behind it.
abbrev typed_hi : Input
typed_hi = record { input = codes "Hi" ++ replicate 256 0; inputpos = 2; scrolloff = 0 }

erase-take_typed_example :
    (i₁ : Input) × (i₂ : Input) × (take_typed (208 ∷ 144 ∷ []) typed_hi ≡ ok i₁)
    × HoldsText i₁ (codes "Hi" ++ 208 ∷ 144 ∷ [])
    × (erase i₁ ≡ ok i₂)
    × HoldsText i₂ (codes "Hi")
unfolding is_leader
erase-take_typed_example =
    erase-take_typed typed_hi (codes "Hi") 208 (144 ∷ [])
      (record {
        rest = replicate 255 0;
        array_is = refl;
        size_is = refl;
        pos_is = refl;
        no_nul = (λ e. omega arith, (λ e. omega arith, tt));
      })
      (λ e. omega arith, (λ e. omega arith, tt)) refl (refl, tt) (omega arith)

-- Two lines on a window of one row of three columns.
draw_sysmsg-lines_example :
    (before shown : Bytes) × (draw_sysmsg 3 1 (some (codes "abcd\nef" ++ end_of_line))
      ≡ ok (some shown))
    × (codes "abcd\nef" ++ end_of_line ≡ before ++ shown)
    × EndsLine before
    × (leaders shown ≤ 3 * 1 + 2)
draw_sysmsg-lines_example =
    draw_sysmsg-lines 3 1 (codes "abcd\nef") (omega arith) (omega arith) (omega arith)

-- The last of them is printed.
draw_sysmsg_last_line : draw_sysmsg 3 1 (some (codes "abcd\nef\n")) ≡ ok (some (codes "ef\n"))
unfolding draw_sysmsg is_leader
draw_sysmsg_last_line = refl

-- A line that is longer than the window is not printed at all.
draw_sysmsg_long_line : draw_sysmsg 3 1 (some (codes "abcdef\n")) ≡ ok (some [])
unfolding draw_sysmsg is_leader
draw_sysmsg_long_line = refl

-- Six bytes in a window with room for three characters.
draw_prompt-tail_example :
    (before : Bytes) × (tail : Bytes) × (codes "abcdef" ≡ before ++ tail)
    × (characters tail ≤ 1 + 2)
    × (draw_prompt 7 large (pos (0 + 1)) (pos (1 + 4)) (codes "abcdef" ++ 0 ∷ [])
        ≡ ok (
            some (
              pos 0,
              (if length before == 0 then codes "> " else codes "+ ") ++ (tail ++ codes "\n"),
            )))
draw_prompt-tail_example =
    draw_prompt-tail 7 0 1 (codes "abcdef") []
      (
        λ e. omega arith,
        (
          λ e. omega arith,
          (λ e. omega arith, (λ e. omega arith, (λ e. omega arith, (λ e. omega arith, tt)))),
        ),
      )
      (omega arith) (omega arith) (omega arith)

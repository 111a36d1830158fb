-- ===== src/Windows/Redraw.antt =====
-- What `windows_redraw` of src/windows.c shows, and in which order.
use mathlib.Core.Option
use itmmorgue.Base.{
  ℕ, zero, suc, ◌+◌, ◌<◌, ◌≡◌, refl, sym, ◌∙◌, ap, arith, ◌==◌, Bool, true, false, ◌||◌, Option,
  some, List, [], ◌∷◌, ◌++◌, ok, length, get_elem?, get_elem?-of_lt, All, if◌then◌else◌, Bool-cases,
  inl, inr, length-set, get_elem?-set_self, get_elem?-set_ne, ==_iff, lt_of_get_elem?,
}
use itmmorgue.Config.Values.{ℤ}
use itmmorgue.Windows.{Windows, WinInfo, windows_names, w_size, same_int, hidden, put_window}
use itmmorgue.Windows.Draw.{
  Command, frame, contents, resize, place, erase_window, refresh, draw, draw_any_before,
  draw_others, windows_redraw, windows_order, too_small, sized,
}
use itmmorgue.Windows.Frames.{
  frames, filled, count, Once, state_at, shown_of, filled-append, frames-append, shown_cons,
  shown_of-same, shown-Once,
}

draw-frames :
    (win : ℕ)
    → win < w_size
    → (cs : List Command) × (draw win ≡ ok cs) × (frames cs ≡ win ∷ []) × (filled cs ≡ win ∷ [])
unfolding draw
draw-frames win lt =
    let (name, at) = get_elem?-of_lt windows_names win lt in
    (frame win name ∷ contents win ∷ [], ground (arith, at), refl, refl)

draw_others-frames :
    (order : List ℕ) (s : Windows)
    → All (λ win. win < w_size) order
    → length s.windows ≡ w_size
    → (cs : List Command) × (draw_others order s ≡ ok cs)
      × (frames cs ≡ shown_of s order)
      × (filled cs ≡ shown_of s order)
unfolding draw_others
draw_others-frames [] s h l = ([], refl, refl, refl)
draw_others-frames (win ∷ rest) s h l =
    let (i, at) = get_elem?-of_lt s.windows win (omega (arith, h.0)) in
    let (others, e, f, c) = draw_others-frames rest s h.1 l in
    let (mine, e', f', c') = draw-frames win h.0 in
    elim (Bool-cases ((win == s.focus) || same_int i.state hidden)) [
      | inl skipped ↦ (
        others,
        rw (at, e, skipped) refl,
        f ∙ sym (shown_cons s win rest at skipped),
        c ∙ sym (shown_cons s win rest at skipped),
      )
      | inr drawn ↦ (
        mine ++ others,
        rw (at, e, drawn, e') refl,
        frames-append mine others ∙ rw (f', f) (sym (shown_cons s win rest at drawn)),
        filled-append mine others ∙ rw (c', c) (sym (shown_cons s win rest at drawn)),
      )
    ]

-- The sizes are set, the states and the focus stay.
record Resized (s s' : Windows) (cs : List Command) : Type 0 where
  same_focus : s'.focus ≡ s.focus
  same_length : length s'.windows ≡ length s.windows
  same_states : (win : ℕ) → state_at s' win ≡ state_at s win
  nothing_drawn : frames cs ≡ []
  nothing_filled : filled cs ≡ []

state_at-sized :
    (s : Windows) (win : ℕ) {i : WinInfo}
    → get_elem? s.windows win ≡ some i
    → (j : ℕ) → state_at (put_window s win (sized s i)) j ≡ state_at s j
state_at-sized s win {i} at j =
    let in_range = lt_of_get_elem? s.windows win at in
    let state = λ (o : Option WinInfo). Option.map (λ (i : WinInfo). i.state) o in
    elim (Bool-cases (j == win)) [
      | inl here ↦
          let same : j ≡ win = (==_iff j win).0 here in
          ap (λ k. state (get_elem? (put_window s win (sized s i)).windows k)) same
          ∙ ap state (get_elem?-set_self s.windows win (sized s i) in_range)
          ∙ sym (ap (λ k. state (get_elem? s.windows k)) same ∙ ap state at)
      | inr other ↦ ap state (get_elem?-set_ne s.windows win j (sized s i) (ground arith))
    ]

frames-moved : (b : Bool) (win : ℕ) (y x : ℤ) → frames (if b then [] else place win y x ∷ []) ≡ []
frames-moved true win y x = refl
frames-moved false win y x = refl

filled-moved : (b : Bool) (win : ℕ) (y x : ℤ) → filled (if b then [] else place win y x ∷ []) ≡ []
filled-moved true win y x = refl
filled-moved false win y x = refl

draw_any_before-Resized :
    (n win : ℕ) (s : Windows)
    → win + n ≡ length s.windows
    → (s' : Windows) × (cs : List Command) × (draw_any_before n win s ≡ ok (s', cs))
      × Resized s s' cs
unfolding draw_any_before
draw_any_before-Resized zero win s l = (
  s,
  [],
  refl,
  record {
    same_focus = refl;
    same_length = refl;
    same_states = λ w. refl;
    nothing_drawn = refl;
    nothing_filled = refl;
  },
)
draw_any_before-Resized (suc n) win s l =
    let (i, at) = get_elem?-of_lt s.windows win (omega arith) in
    let s₁ = put_window s win (sized s i) in
    let l₁ = length-set s.windows win (sized s i) in
    let (s', cs, e, r) = draw_any_before-Resized n (win + 1) s₁ (omega (arith, l₁)) in
    let moved = if win == 0 then [] else place win (sized s i).y (sized s i).x ∷ [] in
    (
      s',
      resize win (sized s i).max_y (sized s i).max_x ∷ (moved ++ cs),
      rw (at, e) refl,
      record {
        same_focus = r.same_focus;
        same_length = r.same_length ∙ l₁;
        same_states = λ w. r.same_states w ∙ state_at-sized s win at w;
        nothing_drawn =
            frames-append moved cs
            ∙ rw (frames-moved (win == 0) win (sized s i).y (sized s i).x) r.nothing_drawn;
        nothing_filled =
            filled-append moved cs
            ∙ rw (filled-moved (win == 0) win (sized s i).y (sized s i).x) r.nothing_filled;
      },
    )

-- On a screen that is large enough, with the seven windows and the focus on one of them, a redraw
-- succeeds and keeps the focus and the states. It frames the windows besides the focus that are not
-- hidden, in the order of `windows_order`, and the focus last, above the others; each of them is
-- framed once and every other window never, and the contents of the windows are drawn in the same
-- order, once for each frame.
pub windows_redraw-frames :
    (s : Windows)
    → too_small s ≡ false
    → length s.windows ≡ w_size
    → s.focus < w_size
    → (s' : Windows) × (cs : List Command) × (windows_redraw s ≡ ok (s', cs))
      × (frames cs ≡ shown_of s windows_order ++ s.focus ∷ [])
      × (filled cs ≡ frames cs)
      × Once s (frames cs)
      × (s'.focus ≡ s.focus)
      × ((win : ℕ) → state_at s' win ≡ state_at s win)
unfolding windows_redraw
windows_redraw-frames s big l f =
    let (s', cs, e, r) = draw_any_before-Resized w_size 0 s (omega (arith, l)) in
    let focused : s'.focus < w_size = rw r.same_focus f in
    let (others, e₁, f₁, c₁) =
      draw_others-frames windows_order s'
        (
          omega arith,
          (
            omega arith,
            (omega arith, (omega arith, (omega arith, (omega arith, (omega arith, tt))))),
          ),
        )
        (r.same_length ∙ l) in
    let (mine, e₂, f₂, c₂) = draw-frames s.focus f in
    let order = shown_of-same s s' windows_order r.same_focus r.same_states in
    let tail = erase_window s.focus ∷ (mine ++ (refresh ∷ [])) in
    let all = cs ++ (others ++ tail) in
    let framed : frames all ≡ shown_of s windows_order ++ s.focus ∷ [] =
      frames-append cs _
      ∙ ap (λ l. l ++ frames (others ++ tail)) r.nothing_drawn
      ∙ frames-append others _
      ∙ ap (λ l. l ++ frames (mine ++ (refresh ∷ []))) (f₁ ∙ order)
      ∙ ap (◌++◌ (shown_of s windows_order))
          (frames-append mine (refresh ∷ []) ∙ ap (λ l. l ++ []) f₂) in
    let contained : filled all ≡ shown_of s windows_order ++ s.focus ∷ [] =
      filled-append cs _
      ∙ ap (λ l. l ++ filled (others ++ tail)) r.nothing_filled
      ∙ filled-append others _
      ∙ ap (λ l. l ++ filled (mine ++ (refresh ∷ []))) (c₁ ∙ order)
      ∙ ap (◌++◌ (shown_of s windows_order))
          (filled-append mine (refresh ∷ []) ∙ ap (λ l. l ++ []) c₂) in
    (
      s',
      all,
      rw (big, e, e₁, e₂) refl,
      framed,
      contained ∙ sym framed,
      λ win. ap (count win) framed ∙ shown-Once s l win,
      r.same_focus,
      r.same_states,
    )

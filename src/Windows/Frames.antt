-- ===== src/Windows/Frames.antt =====
-- Which windows the commands of a redraw of src/windows.c draw, and how often each should be drawn.
use mathlib.Core.Option
use itmmorgue.Base.{
  ℕ, ◌+◌, ◌<◌, ◌≡◌, refl, ◌∙◌, ap, ap₂, arith, ◌==◌, Bool, true, false, not, ◌||◌, Option, none,
  some, List, [], ◌∷◌, ◌++◌, length, get_elem?, get_elem?-of_le, ltb, if◌then◌else◌, Bool-cases,
  inl, inr, ==_iff,
}
use itmmorgue.Config.Values.{ℤ}
use itmmorgue.Windows.{Windows, WinInfo, w_size, same_int, hidden}
use itmmorgue.Windows.Draw.{Command, frame, contents, windows_order}

-- The windows that are drawn, in order.
abbrev pub frames : List Command → List ℕ
frames [] = []
frames (frame win name ∷ rest) = win ∷ frames rest
frames (_ ∷ rest) = frames rest

-- The windows whose own drawing is called, in order.
abbrev pub filled : List Command → List ℕ
filled [] = []
filled (contents win ∷ rest) = win ∷ filled rest
filled (_ ∷ rest) = filled rest

pub filled-append : (xs ys : List Command) → filled (xs ++ ys) ≡ filled xs ++ filled ys
filled-append [] ys = refl
filled-append (contents win ∷ xs) ys = ap (◌∷◌ win) (filled-append xs ys)
filled-append (c ∷ xs) ys = filled-append xs ys

abbrev pub count : ℕ → List ℕ → ℕ
count win [] = 0
count win (x ∷ xs) = (if x == win then 1 else 0) + count win xs

count-append : (win : ℕ) (xs ys : List ℕ) → count win (xs ++ ys) ≡ count win xs + count win ys
count-append win [] ys = omega arith
count-append win (x ∷ xs) ys = omega (arith, count-append win xs ys)

-- How often a window should be drawn, by whether it has the focus, and its state.
abbrev pub times_shown : Bool → Option ℤ → ℕ
times_shown true state = 1
times_shown false none = 0
times_shown false (some st) = if same_int st hidden then 0 else 1

pub frames-append : (xs ys : List Command) → frames (xs ++ ys) ≡ frames xs ++ frames ys
frames-append [] ys = refl
frames-append (frame win name ∷ xs) ys = ap (◌∷◌ win) (frames-append xs ys)
frames-append (c ∷ xs) ys = frames-append xs ys

abbrev pub state_at : Windows → ℕ → Option ℤ
state_at s win = Option.map (λ (i : WinInfo). i.state) (get_elem? s.windows win)

-- What should be shown besides the focus: every other window that is not hidden.
abbrev pub shows : Bool → Option ℤ → Bool
shows is_focus none = false
shows is_focus (some st) = not (is_focus || same_int st hidden)

abbrev pub is_shown : Windows → ℕ → Bool
is_shown s win = shows (win == s.focus) (state_at s win)

abbrev pub shown_of : Windows → List ℕ → List ℕ
shown_of s [] = []
shown_of s (win ∷ rest) = if is_shown s win then win ∷ shown_of s rest else shown_of s rest

pub shown_cons :
    (s : Windows) (win : ℕ) (rest : List ℕ) {i : WinInfo} {b : Bool}
    → get_elem? s.windows win ≡ some i
    → ((win == s.focus) || same_int i.state hidden) ≡ b
    → shown_of s (win ∷ rest) ≡ (if not b then win ∷ shown_of s rest else shown_of s rest)
shown_cons s win rest at e =
    ap
      (λ o.
        if shows (win == s.focus) (Option.map (λ (i : WinInfo). i.state) o)
        then win ∷ shown_of s rest
        else shown_of s rest)
      at
    ∙ ap (λ b. if not b then win ∷ shown_of s rest else shown_of s rest) e

pub shown_of-same :
    (s s' : Windows) (order : List ℕ)
    → s'.focus ≡ s.focus
    → ((win : ℕ) → state_at s' win ≡ state_at s win)
    → shown_of s' order ≡ shown_of s order
shown_of-same s s' [] e h = refl
shown_of-same s s' (win ∷ rest) e h =
    let shown : is_shown s' win ≡ is_shown s win =
      ap (λ f. shows (win == f) (state_at s' win)) e ∙ ap (shows (win == s.focus)) (h win) in
    ap (λ b. if b then win ∷ shown_of s' rest else shown_of s' rest) shown
    ∙ ap (λ l. if is_shown s win then win ∷ l else l) (shown_of-same s s' rest e h)

count-shown_of :
    (s : Windows) (win : ℕ) (order : List ℕ)
    → count win (shown_of s order) ≡ (if is_shown s win then count win order else 0)
count-shown_of s win [] = ground arith
count-shown_of s win (x ∷ rest) =
    let more = count-shown_of s win rest in
    let none_here : count win rest ≡ 0 + count win rest = omega arith in
    let more' = more ∙ ap (λ n. if is_shown s win then n else 0) none_here in
    elim (Bool-cases (x == win)) [
      | inl e ↦
          let same : is_shown s x ≡ is_shown s win = ap (is_shown s) ((==_iff x win).0 e) in
          elim (Bool-cases (is_shown s win)) [
            | inl t ↦ rw (same ∙ t, t, e) (omega (arith, rw t at more))
            | inr t ↦ rw (same ∙ t, t) (rw t at more)
          ]
      | inr e ↦ elim (Bool-cases (is_shown s x)) [
        | inl t ↦ rw (t, e) (omega arith ∙ more')
        | inr t ↦ rw (t, e) more'
      ]
    ]

times :
    (b : Bool) (state : Option ℤ)
    → (if shows b state then 1 else 0) + ((if b then 1 else 0) + 0) ≡ times_shown b state
times true none = refl
times true (some st) = refl
times false none = refl
times false (some st) = elim (Bool-cases (same_int st hidden)) [
  | inl e ↦ rw e refl
  | inr e ↦ rw e refl
]

-- Every window is drawn as often as it should be.
abbrev pub Once : Windows → List ℕ → Type 0
Once s order = (win : ℕ) → count win order ≡ times_shown (win == s.focus) (state_at s win)

windows_order-once : (win : ℕ) → win < w_size → count win windows_order ≡ 1
windows_order-once win lt = ground arith

shown_times :
    (s : Windows) (win : ℕ)
    → length s.windows ≡ w_size
    → (if is_shown s win then count win windows_order else 0) ≡ (if is_shown s win then 1 else 0)
shown_times s win l = elim (Bool-cases (ltb win w_size)) [
  | inl lt ↦ ap (λ n. if is_shown s win then n else 0) (windows_order-once win (ground arith))
  | inr ge ↦
      let gone : get_elem? s.windows win ≡ none =
        get_elem?-of_le s.windows win (ground (arith, l)) in
      rw gone refl
]

pub shown-Once :
    (s : Windows) → length s.windows ≡ w_size → Once s (shown_of s windows_order ++ s.focus ∷ [])
shown-Once s l win =
    let others = count-shown_of s win windows_order ∙ shown_times s win l in
    let last : (s.focus == win) ≡ (win == s.focus) = ground arith in
    count-append win (shown_of s windows_order) (s.focus ∷ [])
    ∙ ap₂ (λ a b. a + ((if b then 1 else 0) + 0)) others last
    ∙ times (win == s.focus) (state_at s win)

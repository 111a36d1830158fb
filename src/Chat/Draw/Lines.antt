-- ===== src/Chat/Draw/Lines.antt =====
-- What `draw_sysmsg` of src/sysmsg.c prints: whole lines, and few characters.
use itmmorgue.Base.{
  ℕ, zero, suc, ◌+◌, ◌-◌, ◌*◌, ◌%◌, ◌^◌, ◌≤◌, ◌<◌, ◌≡◌, refl, sym, ◌∙◌, ap, arith, ◌⊎◌, inl, inr,
  false, some, [], ◌∷◌, ◌++◌, ◌==◌, ltb, leb, if◌then◌else◌, ok, Bool-cases, Bytes, length,
  get_elem?, get_elem?-of_lt, drop, take, length-append, append_assoc,
}
use mathlib.Core.Option.{some-injective}
use native.Mathlib.Nat.{mod-lt}
use itmmorgue.Util.{is_leader}
use itmmorgue.Chat.Draw.{past, back_from, behind_newline, print_from, draw_sysmsg}

-- The characters of a text.
abbrev pub leaders : Bytes → ℕ
leaders [] = 0
leaders (c ∷ cs) = (if is_leader c then 1 else 0) + leaders cs

drop-get_elem? :
    (s : Bytes) (p : ℕ) {c : ℕ} → get_elem? s p ≡ some c → drop p s ≡ c ∷ drop (suc p) s
drop-get_elem? [] p e = cc
drop-get_elem? (x ∷ s) zero {c} e = ap (λ d. d ∷ s) (some-injective x c e)
drop-get_elem? (x ∷ s) (suc p) e = drop-get_elem? s p e

take-get_elem? :
    (s : Bytes) (p : ℕ) {c : ℕ} → get_elem? s p ≡ some c → take (suc p) s ≡ take p s ++ c ∷ []
take-get_elem? [] p e = cc
take-get_elem? (x ∷ s) zero {c} e = ap (λ d. d ∷ []) (some-injective x c e)
take-get_elem? (x ∷ s) (suc p) e = ap (◌∷◌ x) (take-get_elem? s p e)

take-drop : (s : Bytes) (p : ℕ) → take p s ++ drop p s ≡ s
take-drop s zero = refl
take-drop [] (suc p) = refl
take-drop (x ∷ s) (suc p) = ap (◌∷◌ x) (take-drop s p)

abbrev lead : ℕ → ℕ
lead c = if is_leader c then 1 else 0

lead_le : (c : ℕ) → lead c ≤ 1
lead_le c = ground arith

past_grows :
    (max_x first ch curr : ℕ)
    → 0 < max_x
    → curr + max_x < 2 ^ 31
    → (n : ℕ) × (past max_x first ch curr ≡ ok n) × (curr + lead ch ≤ n)
unfolding past
past_grows max_x first ch curr h b = elim (Bool-cases (first == b'\n')) [
  | inl e ↦
      let wide : (max_x == 0) ≡ false = ground arith in
      let left = mod-lt curr h in
      let fits : leb (2 ^ 31) (curr + (max_x - curr % max_x)) ≡ false = ground arith in
      (curr + (max_x - curr % max_x), rw (e, wide, fits) refl, omega (arith, lead_le ch))
  | inr e ↦ ((if is_leader ch then curr + 1 else curr), rw e refl, ground arith)
]

pub back_from_ends :
    (look : ℕ → ℕ) (max_x square : ℕ) (s : Bytes) (p curr : ℕ)
    → ((i : ℕ) → look i ≤ i)
    → 0 < max_x
    → square + max_x < 2 ^ 31
    → p < length s
    → (q : ℕ) × (q ≤ p)
      × (back_from look max_x square s p curr ≡ ok q)
      × (leaders (drop (suc q) s) ≤ leaders (drop (suc p) s) + (square - curr))
unfolding back_from
back_from_ends look max_x square s zero curr i h b l = (0, omega arith, refl, omega arith)
back_from_ends look max_x square s (suc p) curr i h b l = elim (Bool-cases (leb square curr)) [
  | inl e ↦ (suc p, omega arith, rw (e, back_from) refl, omega arith)
  | inr e ↦
      let (switched, looked) = get_elem?-of_lt s (look (suc p)) (omega (arith, i (suc p))) in
      let (ch, at) = get_elem?-of_lt s (suc p) l in
      let (n, counts, grows) = past_grows max_x switched ch curr h (ground arith) in
      let (q, le, ends, few) = back_from_ends look max_x square s p n i h b (omega arith) in
      let split = ap leaders (drop-get_elem? s (suc p) at) in
      (q, omega arith, rw (e, looked, at, counts, back_from) ends, ground arith)
]

abbrev pub end_of_line : Bytes
end_of_line = b'\n' ∷ []

-- What a text that ends with a newline has behind the first one.
behind_newline_ends :
    (s : Bytes)
    → (b r : Bytes) × (behind_newline (s ++ end_of_line) ≡ ok r)
      × (s ++ end_of_line ≡ (b ++ end_of_line) ++ r)
      × (leaders r ≤ leaders (s ++ end_of_line))
unfolding behind_newline
behind_newline_ends [] = ([], [], refl, refl, omega arith)
behind_newline_ends (c ∷ s) = elim (Bool-cases (c == b'\n')) [
  | inl e ↦
      let same : c ≡ b'\n' = ground arith in
      ([], s ++ end_of_line, rw e refl, ap (λ d. d ∷ (s ++ end_of_line)) same, omega arith)
  | inr e ↦
      let (b, r, ends, split, few) = behind_newline_ends s in
      (c ∷ b, r, rw e ends, ap (◌∷◌ c) split, omega arith)
]

drop-append : (s t : Bytes) (q : ℕ) → q ≤ length s → drop q (s ++ t) ≡ drop q s ++ t
drop-append s t zero h = refl
drop-append [] t (suc q) h = absurd (omega arith)
drop-append (x ∷ s) t (suc q) h = drop-append s t q (omega arith)

drop_all : (s : Bytes) → drop (length s) s ≡ []
drop_all [] = refl
drop_all (x ∷ s) = drop_all s

-- Nothing, or a text that ends with a newline.
abbrev pub EndsLine : Bytes → Type 0
EndsLine before = (before ≡ []) ⊎ ((b : Bytes) × (before ≡ b ++ end_of_line))

pub print_from-lines :
    (t : Bytes) (q : ℕ)
    → q < length t
    → (before shown : Bytes) × (print_from (t ++ end_of_line) q ≡ ok (some shown))
      × (t ++ end_of_line ≡ before ++ shown)
      × EndsLine before
      × (leaders shown ≤ leaders (drop q (t ++ end_of_line)))
unfolding print_from
print_from-lines t zero h = ([], t ++ end_of_line, refl, refl, inl refl, omega arith)
print_from-lines t (suc q) h =
    let s = t ++ end_of_line in
    let long = length-append t end_of_line in
    let (c, at) = get_elem?-of_lt s q (omega (arith, long)) in
    let whole = sym (take-drop s (suc q)) in
    let index : suc q - 1 ≡ q = omega arith in
    let not_first : (suc q == 0) ≡ false = ground arith in
    elim (Bool-cases (c == b'\n')) [
      | inl e ↦
          let same : c ≡ b'\n' = ground arith in
          (
            take (suc q) s,
            drop (suc q) s,
            rw (not_first, index, at, e) refl,
            whole,
            inr (take q s, take-get_elem? s q at ∙ ap (λ d. take q s ++ d ∷ []) same),
            omega arith,
          )
      | inr e ↦
          let rest = drop-append t end_of_line (suc q) (omega arith) in
          let (b, r, ends, split, few) = behind_newline_ends (drop (suc q) t) in
          let front = take (suc q) s in
          (
            front ++ (b ++ end_of_line),
            r,
            rw (not_first, index, at, e, rest, ends) refl,
            whole ∙ ap (◌++◌ front) (rest ∙ split) ∙ sym (append_assoc front (b ++ end_of_line) r),
            inr (front ++ b, sym (append_assoc front b end_of_line)),
            rw rest few,
          )
    ]

-- For system messages of at least two bytes that end with a newline, and a window of a positive
-- width whose area, and a row more, is below the limit of an int: `draw_sysmsg` succeeds and prints
-- the end of the messages from the beginning of a line on, and of that at most two characters more
-- than the window has places.
pub draw_sysmsg-lines :
    (max_x max_y : ℕ) (t : Bytes)
    → 0 < max_x
    → max_x * max_y + max_x < 2 ^ 31
    → 1 ≤ length t
    → (before shown : Bytes) × (draw_sysmsg max_x max_y (some (t ++ end_of_line)) ≡ ok (some shown))
      × (t ++ end_of_line ≡ before ++ shown)
      × EndsLine before
      × (leaders shown ≤ max_x * max_y + 2)
unfolding draw_sysmsg
draw_sysmsg-lines max_x max_y t h b l =
    let s = t ++ end_of_line in
    let long = length-append t end_of_line in
    let fits : leb (2 ^ 31) (max_x * max_y) ≡ false = ground arith in
    let some_line : ltb (length s) 2 ≡ false = ground (arith, long) in
    let (q, le, ends, few) =
      back_from_ends (λ i. 0) max_x (max_x * max_y) s (length s - 2) 0 (λ i. omega arith) h b
        (omega (arith, long)) in
    let (before, shown, prints, split, line, fewer) = print_from-lines t q (omega (arith, long)) in
    let (c, at) = get_elem?-of_lt s q (omega (arith, long)) in
    let here = ap leaders (drop-get_elem? s q at) in
    let last : suc (length s - 2) ≡ length t = omega (arith, long) in
    let one : leaders (drop (suc (length s - 2)) s) ≤ 1 =
      rw (last, drop-append t end_of_line (length t) (omega arith), drop_all t)
        (omega (arith, lead_le 10)) in
    (before, shown, rw (fits, some_line, ends) prints, split, line, omega (arith, lead_le c))

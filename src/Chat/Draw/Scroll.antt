-- ===== src/Chat/Draw/Scroll.antt =====
-- What `draw_chat` of src/chat.c prints of the chat, up to its label PS1: the scrolling, and then what fits.
use itmmorgue.Base.{
  ℕ, zero, suc, ◌+◌, ◌-◌, ◌*◌, ◌^◌, ◌≤◌, ◌<◌, ◌≡◌, refl, arith, inl, inr, Bool, false, ◌&&◌, Option,
  none, some, ◌++◌, ◌==◌, ltb, leb, if◌then◌else◌, Result, ok, stop, undefined, or_undefined, ◌>>=◌,
  Bool-cases, Bytes, length, get_elem?, get_elem?-of_lt, length-append,
}
use itmmorgue.Chat.Draw.{back_from, print_from}
use itmmorgue.Chat.Draw.Lines.{back_from_ends, end_of_line, EndsLine, print_from-lines}

-- `while (chatptr > chat && *chatptr-- != '\n')`
unfoldable pub to_line : Bytes → ℕ → Result ℕ
to_line s zero = ok 0
to_line s (suc p) = do
  ch ← or_undefined (get_elem? s (suc p))
  if ch == b'\n' then ok p else to_line s p

-- The loop over `scrolloff`.
unfoldable pub scroll_back : Bytes → ℕ → ℕ → Result ℕ
unfolding to_line
scroll_back s zero p = ok p
scroll_back s (suc soff) p = do p' ← to_line s p; if p' == 0 then ok 0 else scroll_back s soff p'

-- A large window of more than one row leaves its last row to the input.
abbrev pub places : ℕ → ℕ → Bool → ℕ
places max_x max_y large =
    if large && ltb max_x (max_x * max_y) then max_x * max_y - max_x else max_x * max_y

-- Unlike `draw_sysmsg`, it looks at the byte where it is. For a window of that width and height, which are not negative where curses has made it.
unfoldable pub draw_chat : ℕ → ℕ → Bool → ℕ → Option Bytes → Result (Option Bytes)
unfolding scroll_back back_from print_from
draw_chat max_x max_y large scrolloff none = ok none
draw_chat max_x max_y large scrolloff (some s) =
    if leb (2 ^ 31) (max_x * max_y)
    then stop undefined
    else if ltb (length s) 2
    then ok none
    else do
      from ← scroll_back s scrolloff (length s - 2)
      p ← back_from (λ i. i) max_x (places max_x max_y large) s from 0
      print_from s p

to_line_ends : (s : Bytes) (p : ℕ) → p < length s → (q : ℕ) × (q ≤ p) × (to_line s p ≡ ok q)
unfolding to_line
to_line_ends s zero h = (0, omega arith, refl)
to_line_ends s (suc p) h =
    let (ch, at) = get_elem?-of_lt s (suc p) h in
    elim (Bool-cases (ch == b'\n')) [
      | inl e ↦ (p, omega arith, rw (at, e) refl)
      | inr e ↦
          let (q, le, ends) = to_line_ends s p (omega arith) in (q, omega arith, rw (at, e) ends)
    ]

scroll_back_ends :
    (s : Bytes) (soff p : ℕ) → p < length s → (q : ℕ) × (q ≤ p) × (scroll_back s soff p ≡ ok q)
unfolding scroll_back
scroll_back_ends s zero p h = (p, omega arith, refl)
scroll_back_ends s (suc soff) p h =
    let (q, le, ends) = to_line_ends s p h in
    elim (Bool-cases (q == 0)) [
      | inl e ↦ (0, omega arith, rw (ends, e) refl)
      | inr e ↦
          let (r, le', ends') = scroll_back_ends s soff q (omega arith) in
          (r, omega arith, rw (ends, e) ends')
    ]

-- For a chat of at least two bytes that ends with a newline, however far it is scrolled, and a window of
-- a positive width whose area, and a row more, is below the limit of an int: `draw_chat` succeeds, and
-- what it prints of the chat begins with a line.
pub draw_chat-lines :
    (max_x max_y : ℕ) (large : Bool) (scrolloff : ℕ) (t : Bytes)
    → 0 < max_x
    → max_x * max_y + max_x < 2 ^ 31
    → 1 ≤ length t
    → (before shown : Bytes) × (draw_chat max_x max_y large scrolloff (some (t ++ end_of_line))
        ≡ ok (some shown))
      × (t ++ end_of_line ≡ before ++ shown)
      × EndsLine before
unfolding draw_chat
draw_chat-lines max_x max_y large scrolloff t h b l =
    let s = t ++ end_of_line in
    let long = length-append t end_of_line in
    let fits : leb (2 ^ 31) (max_x * max_y) ≡ false = ground arith in
    let some_line : ltb (length s) 2 ≡ false = ground (arith, long) in
    let less : places max_x max_y large ≤ max_x * max_y = ground arith in
    let (p, le, scrolled) = scroll_back_ends s scrolloff (length s - 2) (omega (arith, long)) in
    let (q, le', ends, few) =
      back_from_ends (λ i. i) max_x (places max_x max_y large) s p 0 (λ i. omega arith) h
        (omega arith) (omega (arith, long)) in
    let (before, shown, prints, split, line, fewer) = print_from-lines t q (omega (arith, long)) in
    (before, shown, rw (fits, some_line, scrolled, ends) prints, split, line)

-- ===== src/Chat/Draw/Prompt/Tail.antt =====
-- What the prompt of src/chat.c shows of the text that is typed.
use mathlib.Core.Path.{subst}
use itmmorgue.Base.{
  ℕ, zero, suc, ◌+◌, ◌^◌, ◌≤◌, ◌<◌, ◌≡◌, refl, sym, ◌∙◌, ap, arith, inl, inr, Bool, true, false,
  Option, min, none, some, [], ◌∷◌, ◌++◌, ◌==◌, if◌then◌else◌, ok, same_ok, length-append,
  append_assoc, length-take, length-drop, Bool-cases, Bytes, codes, length, drop, take, c_string,
}
use itmmorgue.Config.Values.{pos, negsuc}
use itmmorgue.Windows.{large}
use itmmorgue.Windows.Ints.{◌+ℤ◌, int}
use itmmorgue.Util.{anystrunplen, unplen_from, is_leader}
use itmmorgue.Util.Lengths.{characters, NoNul, anystrunplen-characters}
use itmmorgue.Chat.Draw.Prompt.{skip_typed, draw_prompt}

-- Where `anystrunplen` of a text of `n` bytes lets `*endp` point: at the last character that it counted.
abbrev Inside : ℕ → ℕ → ℕ → ℕ → ℕ → Type 0
Inside zero at last n e = e ≡ last
Inside (suc m) at last n e = (at + m ≤ e) × (e < at + n)

abbrev Ends : ℕ → ℕ → ℕ → Bytes → Option ℕ → Type 0
Ends maxlen at last str none = characters str ≤ maxlen
Ends maxlen at last str (some e) = Inside maxlen at last (length str) e

leader-Ends :
    (m at last c : ℕ) (cs : Bytes) (end : Option ℕ)
    → is_leader c ≡ true
    → Ends m (at + 1) at cs end
    → Ends (suc m) at last (c ∷ cs) end
leader-Ends m at last c cs none e h = ground (arith, e, h)
leader-Ends zero at last c cs (some n) e h = (omega (arith, h), omega (arith, h))
leader-Ends (suc m) at last c cs (some n) e h = (omega (arith, h.0), omega (arith, h.1))

inner-Ends :
    (m at last c : ℕ) (cs : Bytes) (end : Option ℕ)
    → is_leader c ≡ false
    → Ends (suc m) (at + 1) last cs end
    → Ends (suc m) at last (c ∷ cs) end
inner-Ends m at last c cs none e h = ground (arith, e, h)
inner-Ends m at last c cs (some n) e h = (omega (arith, h.0), omega (arith, h.1))

unplen_from-Ends :
    (str rest : Bytes) (maxlen len at last : ℕ)
    → NoNul str
    → (n : ℕ) × (end : Option ℕ) × (unplen_from (str ++ 0 ∷ rest) maxlen len at last ≡ ok (n, end))
      × Ends maxlen at last str end
unfolding unplen_from
unplen_from-Ends [] rest zero len at last h = (len, none, refl, omega arith)
unplen_from-Ends [] rest (suc maxlen) len at last h = (len, none, refl, omega arith)
unplen_from-Ends (c ∷ cs) rest zero len at last h =
    let more : (c == 0) ≡ false = ground (arith, h.0) in
    (len, some last, ground (arith, more), refl)
unplen_from-Ends (c ∷ cs) rest (suc m) len at last h =
    let more : (c == 0) ≡ false = ground (arith, h.0) in
    elim (Bool-cases (is_leader c)) [
      | inl e ↦
          let (n, end, r, ends) = unplen_from-Ends cs rest m (len + 1) (at + 1) at h.1 in
          (n, end, ground (arith, e, more, r), leader-Ends m at last c cs end e ends)
      | inr e ↦
          let (n, end, r, ends) = unplen_from-Ends cs rest (suc m) len (at + 1) last h.1 in
          (n, end, ground (arith, e, more, r), inner-Ends m at last c cs end e ends)
    ]

take-drop : (n : ℕ) (s : Bytes) → n ≤ length s → take n s ++ drop n s ≡ s
take-drop zero s h = refl
take-drop (suc n) [] h = absurd (omega arith)
take-drop (suc n) (c ∷ s) h = ap (◌∷◌ c) (take-drop n s (omega arith))

drop-append : (n : ℕ) (s t : Bytes) → n ≤ length s → drop n (s ++ t) ≡ drop n s ++ t
drop-append zero s t h = refl
drop-append (suc n) [] t h = absurd (omega arith)
drop-append (suc n) (c ∷ s) t h = drop-append n s t (omega arith)

drop-NoNul : (n : ℕ) (s : Bytes) → NoNul s → NoNul (drop n s)
drop-NoNul zero s h = h
drop-NoNul (suc n) [] h = tt
drop-NoNul (suc n) (c ∷ s) h = drop-NoNul n s h.1

-- What the loop leaves of a text: its end, of at most `maxlen` characters, and a plus sign if something is
-- before it.
pub record Left (maxlen : ℕ) (text : Bytes) (more shown : Bool) (tail : Bytes) : Type 0 where
  pub before : Bytes
  pub split : text ≡ before ++ tail
  pub few : characters tail ≤ maxlen
  pub plus : shown ≡ (if length before == 0 then more else true)
  pub clean : NoNul tail

stays :
    (maxlen : ℕ) (text : Bytes) (more : Bool)
    → NoNul text
    → characters text ≤ maxlen
    → Left maxlen text more more text
stays maxlen text more h few = record {
  before = [];
  split = refl;
  few = few;
  plus = refl;
  clean = h;
}

goes_on :
    (maxlen k : ℕ) (text : Bytes) (more shown : Bool) (tail : Bytes)
    → 0 < k
    → k ≤ length text
    → Left maxlen (drop k text) true shown tail
    → Left maxlen text more shown tail
goes_on maxlen k text more shown tail some_bytes le l =
    let long : length (take k text) ≡ k = length-take k text ∙ omega (arith, le) in
    record {
      before = take k text ++ l.before;
      split =
          sym (take-drop k text le)
          ∙ ap (◌++◌ (take k text)) l.split
          ∙ sym (append_assoc (take k text) l.before tail);
      few = l.few;
      plus = ground (arith, l.plus, long, length-append (take k text) l.before);
      clean = l.clean;
    }

module _ (fuel m : ℕ) (rest : Bytes)
    (next : (text : Bytes)
      → NoNul text
      → length text < fuel
      → (shown : Bool) × (tail : Bytes) × (skip_typed fuel (suc (suc m)) true (text ++ 0 ∷ rest)
          ≡ ok (shown, tail ++ 0 ∷ rest))
        × Left (suc (suc m)) text true shown tail) where
  after_count :
      (more : Bool) (text : Bytes) (n : ℕ) (end : Option ℕ)
      → NoNul text
      → length text < suc fuel
      → anystrunplen (text ++ 0 ∷ rest) (suc (suc m)) ≡ ok (n, end)
      → n ≡ min (suc (suc m)) (characters text)
      → Ends (suc (suc m)) 0 0 text end
      → (shown : Bool) × (tail : Bytes) × (skip_typed
            (suc fuel)
            (suc (suc m))
            more
            (text ++ 0 ∷ rest)
          ≡ ok (shown, tail ++ 0 ∷ rest))
        × Left (suc (suc m)) text more shown tail
  unfolding skip_typed
  after_count more text n none h lt r count ends = elim (Bool-cases (n == 0)) [
    | inl e ↦ (more, text, rw (skip_typed, r, e) refl, stays (suc (suc m)) text more h ends)
    | inr e ↦ (more, text, rw (skip_typed, r, e) refl, stays (suc (suc m)) text more h ends)
  ]
  after_count more text n (some k) h lt r count ends = elim (Bool-cases (n == 0)) [
    | inl e ↦ (
      more,
      text,
      rw (skip_typed, r, e) refl,
      stays (suc (suc m)) text more h (ground (arith, e, count)),
    )
    | inr e ↦
        let some_bytes : (k == 0) ≡ false = ground (arith, ends.0) in
        let le : k ≤ length text = omega (arith, ends.1) in
        let (shown, tail, skips, left) =
          next (drop k text) (drop-NoNul k text h) (omega (arith, length-drop k text, ends.0)) in
        (
          shown,
          tail,
          rw (skip_typed, r, e, some_bytes, drop-append k text (0 ∷ rest) le) skips,
          goes_on (suc (suc m)) k text more shown tail (omega (arith, ends.0)) le left,
        )
  ]

skip_typed-Left :
    (fuel m : ℕ) (more : Bool) (text rest : Bytes)
    → NoNul text
    → length text < fuel
    → (shown : Bool) × (tail : Bytes) × (skip_typed fuel (suc (suc m)) more (text ++ 0 ∷ rest)
        ≡ ok (shown, tail ++ 0 ∷ rest))
      × Left (suc (suc m)) text more shown tail
unfolding anystrunplen
skip_typed-Left zero m more text rest h lt = absurd (omega arith)
skip_typed-Left (suc fuel) m more text rest h lt =
    let (n, end, r, ends) = unplen_from-Ends text rest (suc (suc m)) 0 0 0 h in
    let (end', r') = anystrunplen-characters text rest (suc (suc m)) h in
    let count : n ≡ min (suc (suc m)) (characters text) =
      ap (λ (p : ℕ × Option ℕ). p.0) (same_ok (sym r ∙ r')) in
    after_count fuel m rest (λ text. skip_typed-Left fuel m true text rest) more text n end h lt r
      count ends

sign_of :
    (b : Bool) (x y : Bytes) → (if if b then false else true then x else y) ≡ (if b then y else x)
sign_of true x y = refl
sign_of false x y = refl

c_string-text : (text rest : Bytes) → NoNul text → c_string (text ++ 0 ∷ rest) ≡ some text
c_string-text [] rest h = refl
c_string-text (c ∷ cs) rest h =
    let more : (c == 0) ≡ false = ground (arith, h.0) in rw (more, c_string-text cs rest h.1) refl

-- For a large chat of at least four columns and one row, fewer than 2^16 of each, and an input that
-- holds a text: the loop of the prompt ends with fuel above the text's length, and `draw_chat`
-- prints in the last row the end of the text, of at most two characters fewer than columns, behind
-- a plus sign where something is before it, and else behind a greater sign.
pub draw_prompt-tail :
    (fuel rows columns : ℕ) (text rest : Bytes)
    → NoNul text
    → length text < fuel
    → rows + 1 < 2 ^ 16
    → columns + 4 < 2 ^ 16
    → (before : Bytes) × (tail : Bytes) × (text ≡ before ++ tail)
      × (characters tail ≤ columns + 2)
      × (draw_prompt fuel large (pos (rows + 1)) (pos (columns + 4)) (text ++ 0 ∷ rest)
          ≡ ok (
              some (
                pos rows,
                (if length before == 0 then codes "> " else codes "+ ") ++ (tail ++ codes "\n"),
              )))
unfolding draw_prompt
draw_prompt-tail fuel rows columns text rest h lt hy hx =
    let width : int (pos (columns + 4) +ℤ negsuc 1) ≡ ok (pos (columns + 2)) = ground arith in
    let row : int (pos (rows + 1) +ℤ negsuc 0) ≡ ok (pos rows) = ground arith in
    let two : suc (suc columns) ≡ columns + 2 = omega arith in
    let (shown, tail, skips, left) = skip_typed-Left fuel columns false text rest h lt in
    let skips' =
      subst (λ m. skip_typed fuel m false (text ++ 0 ∷ rest) ≡ ok (shown, tail ++ 0 ∷ rest)) two
        skips in
    (
      left.before,
      tail,
      left.split,
      omega (arith, left.few),
      rw (width, skips', row, c_string-text tail rest left.clean, left.plus)
          (ap (λ b. ok (some (pos rows, b ++ (tail ++ codes "\n"))))
            (sign_of (length left.before == 0) _ _)),
    )

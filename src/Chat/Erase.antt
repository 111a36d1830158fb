-- ===== src/Chat/Erase.antt =====
-- A character that is typed and erased again, in `c_chat_open` of src/chat.c.
use itmmorgue.Base.{
  ℕ, zero, suc, ◌+◌, ◌-◌, ◌≤◌, ◌<◌, ◌≡◌, ◌≢◌, refl, sym, ◌∙◌, ap, ap₂, arith, All-append, true,
  false, some, List, [], ◌∷◌, ◌++◌, append_assoc, ◌==◌, ok, All, Bytes, c_string, length,
  length-append, length-drop, length-set, All-split, take, drop, get_elem?, set,
}
use itmmorgue.Util.{is_leader}
use itmmorgue.Chat.Input.{Input, input_size, write_string, back_up, erase, take_typed}

-- The input holds a text without a NUL, and `inputpos` is behind it.
pub record HoldsText (i : Input) (s : Bytes) : Type 0 where
  pub rest : Bytes
  pub array_is : i.input ≡ s ++ 0 ∷ rest
  pub size_is : length i.input ≡ input_size
  pub pos_is : i.inputpos ≡ length s
  pub no_nul : All (λ c. c ≢ 0) s

module _ {ℓ} {A : Type ℓ} where
  drop-append : (s t : List A) → drop (length s) (s ++ t) ≡ t
  drop-append [] t = refl
  drop-append (x ∷ s) t = drop-append s t

  take-append : (s t : List A) → take (length s) (s ++ t) ≡ s
  take-append [] t = refl
  take-append (x ∷ s) t = ap (◌∷◌ x) (take-append s t)

  get_elem?-append : (s t : List A) (k : ℕ) → get_elem? (s ++ t) (length s + k) ≡ get_elem? t k
  get_elem?-append [] t k = ap (get_elem? t) (omega arith)
  get_elem?-append (x ∷ s) t k =
      let e : suc (length s) + k ≡ suc (length s + k) = omega arith in
      ap (get_elem? (x ∷ (s ++ t))) e ∙ get_elem?-append s t k

  get_elem?-here : (s : List A) (x : A) (t : List A) → get_elem? (s ++ x ∷ t) (length s) ≡ some x
  get_elem?-here [] x t = refl
  get_elem?-here (y ∷ s) x t = get_elem?-here s x t

  set-append : (s t : List A) (x : A) → set (s ++ t) (length s) x ≡ s ++ set t 0 x
  set-append [] t x = refl
  set-append (y ∷ s) t x = ap (◌∷◌ y) (set-append s t x)

pub c_string-append : (s t : Bytes) → All (λ c. c ≢ 0) s → c_string (s ++ 0 ∷ t) ≡ some s
c_string-append [] t h = refl
c_string-append (c ∷ s) t h = rw (c_string-append s t h.1) (ground (arith, h.0))

-- Going back over bytes that start no character, to the one that does.
back_up-leader :
    (a : Bytes) (p n c : ℕ)
    → get_elem? a p ≡ some c
    → is_leader c ≡ true
    → ((j : ℕ) → j < n → (b : ℕ) × (get_elem? a (p + suc j) ≡ some b) × (is_leader b ≡ false))
    → back_up a (p + n) ≡ ok p
unfolding back_up
back_up-leader a zero zero c at lead h = rw (at, lead) refl
back_up-leader a (suc p) zero c at lead h =
    let e : suc p + 0 ≡ suc p = omega arith in ap (back_up a) e ∙ ground (arith, at, lead)
back_up-leader a p (suc n) c at lead h =
    let (b, at_b, within) = h n (omega arith) in
    let e : p + suc n ≡ suc (p + n) = omega arith in
    let at' : get_elem? a (suc (p + n)) ≡ some b = ap (get_elem? a) (sym e) ∙ at_b in
    ap (back_up a) e
    ∙ ground (arith, at', within, back_up-leader a p n c at lead (λ j lt. h j (omega arith)))

inside_append :
    (cs t : Bytes) (j : ℕ)
    → All (λ b. is_leader b ≡ false) cs
    → j < length cs
    → (b : ℕ) × (get_elem? (cs ++ t) j ≡ some b) × (is_leader b ≡ false)
inside_append [] t j h lt = absurd (omega arith)
inside_append (b ∷ cs) t zero h lt = (b, refl, h.0)
inside_append (b ∷ cs) t (suc j) h lt = inside_append cs t j h.1 (omega arith)

pub write_string-append :
    (s rest t : Bytes)
    → length s + length t + 1 ≤ length (s ++ 0 ∷ rest)
    → write_string (s ++ 0 ∷ rest) (length s) t
      ≡ ok (s ++ (t ++ 0 ∷ drop (length s + length t + 1) (s ++ 0 ∷ rest)))
unfolding write_string
write_string-append s rest t fits = rw (take-append s (0 ∷ rest)) (ground arith)

take_typed-eq :
    (i : Input) (t old a text : Bytes)
    → i.inputpos < 256
    → length t < 256 - i.inputpos
    → length t ≢ 0
    → c_string (drop i.inputpos i.input) ≡ some old
    → write_string i.input (i.inputpos + length old) t ≡ ok a
    → c_string a ≡ some text
    → take_typed t i ≡ ok (record i { input = a; inputpos = length text })
unfolding take_typed
take_typed-eq i t old a text lt room some_typed e₁ e₂ e₃ = ground (arith, e₁, e₂, e₃)

-- What is typed comes behind the text.
pub take_typed-HoldsText :
    (i : Input) (s t : Bytes)
    → HoldsText i s
    → length t ≢ 0
    → All (λ c. c ≢ 0) t
    → length s + length t < 256
    → (i' : Input) × (take_typed t i ≡ ok i') × HoldsText i' (s ++ t)
unfolding write_string
take_typed-HoldsText i s t h some_typed plain room =
    let r = drop (length s + length t + 1) (s ++ 0 ∷ h.rest) in
    let a = s ++ (t ++ 0 ∷ r) in
    let size : length (s ++ 0 ∷ h.rest) ≡ 258 = ap length (sym h.array_is) ∙ h.size_is in
    let joined : a ≡ (s ++ t) ++ 0 ∷ r = sym (append_assoc s t (0 ∷ r)) in
    let plain_all = All-append (λ c. c ≢ 0) s t h.no_nul plain in
    let text : c_string a ≡ some (s ++ t) =
      ap c_string joined ∙ c_string-append (s ++ t) r plain_all in
    let nothing_behind : c_string (drop i.inputpos i.input) ≡ some [] =
      ap₂ (λ n b. c_string (drop n b)) h.pos_is h.array_is
      ∙ ap c_string (drop-append s (0 ∷ h.rest)) in
    let written : write_string i.input (i.inputpos + 0) t ≡ ok a =
      ap₂ (λ n b. write_string b (n + 0) t) h.pos_is h.array_is
      ∙ ap (λ n. write_string (s ++ 0 ∷ h.rest) n t) (omega arith)
      ∙ write_string-append s h.rest t (omega (arith, size)) in
    (
      record i { input = a; inputpos = length (s ++ t) },
      take_typed-eq i t [] a (s ++ t) (omega (arith, h.pos_is)) (omega (arith, h.pos_is)) some_typed
          nothing_behind written text,
      record {
        rest = r;
        array_is = joined;
        size_is = omega (
          arith,
          size,
          length-append s (t ++ 0 ∷ r),
          length-append t (0 ∷ r),
          length-drop (length s + length t + 1) (s ++ 0 ∷ h.rest),
        );
        pos_is = refl;
        no_nul = plain_all;
      },
    )

-- Erasing takes the last character with all its bytes.
pub erase-HoldsText :
    (i : Input) (s : Bytes) (c : ℕ) (cs : Bytes)
    → HoldsText i (s ++ c ∷ cs)
    → is_leader c ≡ true
    → All (λ b. is_leader b ≡ false) cs
    → (i' : Input) × (erase i ≡ ok i') × HoldsText i' s
unfolding erase
erase-HoldsText i s c cs h lead follow =
    let a = s ++ c ∷ (cs ++ 0 ∷ h.rest) in
    let array : i.input ≡ a = h.array_is ∙ append_assoc s (c ∷ cs) (0 ∷ h.rest) in
    let len = length-append s (c ∷ cs) in
    let before : i.inputpos - 1 ≡ length s + length cs = omega (arith, h.pos_is, len) in
    let some_text : (i.inputpos == 0) ≡ false = ground (arith, h.pos_is, len) in
    let at : get_elem? a (length s) ≡ some c = get_elem?-here s c (cs ++ 0 ∷ h.rest) in
    let backed : back_up i.input (i.inputpos - 1) ≡ ok (length s) =
      ap₂ back_up array before
      ∙ back_up-leader a (length s) (length cs) c at lead (λ j lt.
        let (b, e, f) = inside_append cs (0 ∷ h.rest) j follow lt in
        (b, get_elem?-append s (c ∷ (cs ++ 0 ∷ h.rest)) (suc j) ∙ e, f)) in
    (
      record i { input = set i.input (length s) 0; inputpos = length s },
      rw (some_text, backed) refl,
      record {
        rest = cs ++ 0 ∷ h.rest;
        array_is = ap (λ b. set b (length s) 0) array ∙ set-append s (c ∷ (cs ++ 0 ∷ h.rest)) 0;
        size_is = length-set i.input (length s) 0 ∙ h.size_is;
        pos_is = refl;
        no_nul = (All-split (λ b. b ≢ 0) s (c ∷ cs) h.no_nul).0;
      },
    )

-- If the input holds a text and there is room, then typing one character without a NUL in it and
-- pressing backspace succeed, and the input holds the same text again: all bytes of the character
-- are gone, however many UTF-8 takes.
pub erase-take_typed :
    (i : Input) (s : Bytes) (c : ℕ) (cs : Bytes)
    → HoldsText i s
    → All (λ b. b ≢ 0) (c ∷ cs)
    → is_leader c ≡ true
    → All (λ b. is_leader b ≡ false) cs
    → length s + length (c ∷ cs) < 256
    → (i₁ : Input) × (i₂ : Input) × (take_typed (c ∷ cs) i ≡ ok i₁)
      × HoldsText i₁ (s ++ c ∷ cs)
      × (erase i₁ ≡ ok i₂)
      × HoldsText i₂ s
erase-take_typed i s c cs h plain lead follow room =
    let (i₁, e₁, h₁) = take_typed-HoldsText i s (c ∷ cs) h (λ e. omega arith) plain room in
    let (i₂, e₂, h₂) = erase-HoldsText i₁ s c cs h₁ lead follow in (i₁, i₂, e₁, h₁, e₂, h₂)

-- ===== src/Config/Reads.antt =====
-- Texts in buffers: what stands where, and what writing one byte after the other leaves, as the parsers
-- of src/config.c and src/locale.c do it.
use mathlib.Core.Path.{subst}
use native.Mathlib.Numerals.{add-one}
use itmmorgue.Base.{
  ℕ, ◌+◌, ◌<◌, ◌≤◌, ◌≡◌, refl, sym, ◌∙◌, ap, ◌≢◌, some, [], ◌∷◌, ◌++◌, arith, Bytes, c_string, All,
  length, length-set, get_elem?, get_elem?-set_self, get_elem?-set_ne, set,
}

-- The bytes `cs` stand in `a` from index `i` on.
abbrev pub Reads : Bytes → ℕ → Bytes → Type 0
Reads a i [] = Unit
Reads a i (c ∷ cs) = (get_elem? a i ≡ some c) × Reads a (i + 1) cs

pub Reads-append :
    (a : Bytes) (i : ℕ) (xs ys : Bytes)
    → Reads a i (xs ++ ys)
    → Reads a i xs × Reads a (i + length xs) ys
Reads-append a i [] ys r = (tt, subst (λ k. Reads a k ys) (omega arith) r)
Reads-append a i (x ∷ xs) ys r =
    let (front, back) = Reads-append a (i + 1) xs ys r.1 in
    ((r.0, front), subst (λ k. Reads a k ys) (omega arith) back)

abbrev pub last : ℕ → Bytes → ℕ
last c [] = c
last c (d ∷ ds) = last d ds

pub Reads-last :
    (a : Bytes) (i c : ℕ) (cs : Bytes)
    → Reads a i (c ∷ cs)
    → get_elem? a (i + length cs) ≡ some (last c cs)
Reads-last a i c [] r = ap (get_elem? a) (omega arith) ∙ r.0
Reads-last a i c (d ∷ ds) r = ap (get_elem? a) (omega arith) ∙ Reads-last a (i + 1) d ds r.1

pub c_string-Reads :
    (a cs : Bytes)
    → Reads a 0 cs
    → get_elem? a (length cs) ≡ some 0
    → All (λ c. c ≢ 0) cs
    → c_string a ≡ some cs
c_string-Reads [] [] r e h = cc
c_string-Reads [] (c ∷ cs) r e h = cc
c_string-Reads (x ∷ xs) [] r e h = ground arith
c_string-Reads (x ∷ xs) (c ∷ cs) r e h =
    ground (arith, r.0, h.0, c_string-Reads xs cs (tail 0 cs r.1) e h.1)
  where
    tail : (i : ℕ) (ds : Bytes) → Reads (x ∷ xs) (i + 1) ds → Reads xs i ds
    tail i [] s = tt
    tail i (d ∷ ds) s = (ap (get_elem? (x ∷ xs)) (sym (add-one i)) ∙ s.0, tail (i + 1) ds s.1)

-- Writing `cs` from index `i` on.
abbrev pub fill : Bytes → ℕ → Bytes → Bytes
fill a i [] = a
fill a i (c ∷ cs) = fill (set a i c) (i + 1) cs

pub length-fill : (a : Bytes) (i : ℕ) (cs : Bytes) → length (fill a i cs) ≡ length a
length-fill a i [] = refl
length-fill a i (c ∷ cs) = length-fill (set a i c) (i + 1) cs ∙ length-set a i c

fill-before : (a : Bytes) (i j : ℕ) (cs : Bytes) → j < i → get_elem? (fill a i cs) j ≡ get_elem? a j
fill-before a i j [] h = refl
fill-before a i j (c ∷ cs) h =
    fill-before (set a i c) (i + 1) j cs (omega arith) ∙ get_elem?-set_ne a i j c (omega arith)

pub Reads-fill :
    (a : Bytes) (i : ℕ) (cs : Bytes) → i + length cs ≤ length a → Reads (fill a i cs) i cs
Reads-fill a i [] h = tt
Reads-fill a i (c ∷ cs) h = (
  fill-before (set a i c) (i + 1) i cs (omega arith) ∙ get_elem?-set_self a i c (omega arith),
  Reads-fill (set a i c) (i + 1) cs (omega (arith, length-set a i c)),
)

pub Reads-set :
    (a : Bytes) (i k v : ℕ) (cs : Bytes) → i + length cs ≤ k → Reads a i cs → Reads (set a k v) i cs
Reads-set a i k v [] h r = tt
Reads-set a i k v (c ∷ cs) h r =
    (get_elem?-set_ne a k i v (omega arith) ∙ r.0, Reads-set a (i + 1) k v cs (omega arith) r.1)

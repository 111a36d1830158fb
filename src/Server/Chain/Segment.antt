-- ===== src/Server/Chain/Segment.antt =====
-- Segments of a doubly linked list, over what each address links to.
use mathlib.Core.Option
use mathlib.Core.Path.{subst₂}
use itmmorgue.Base.{
  ℕ, ◌≡◌, refl, sym, ◌∙◌, ◌≢◌, inl, inr, Option-cases, Option, none, some, List, [], ◌∷◌, ◌++◌,
  arith, ◌==◌, if◌then◌else◌, All, ==_self,
}
use itmmorgue.World.{World, Connection}

-- The two pointers of each live address: `prev`, then `next`.
abbrev pub Links : Type 0
Links = ℕ → Option (Option ℕ × Option ℕ)

abbrev pub links : (ℕ → Option Connection) → Links
links heap a = Option.map (λ (c : Connection). (c.prev, c.next)) (heap a)

-- The nodes `xs` are linked from `p` on; `prev` comes before the first, `next` behind the last, and
-- `last` is the last, or `prev` if there is none.
pub data Segment (L : Links) : Option ℕ → Option ℕ → List ℕ → Option ℕ → Option ℕ → Type 0 where
  nil : {prev p next last : Option ℕ} → p ≡ next → last ≡ prev → Segment L prev p [] next last
  node :
      {prev p n next last : Option ℕ} {a : ℕ} {rest : List ℕ}
      → p ≡ some a
      → L a ≡ some (prev, n)
      → Segment L (some a) n rest next last
      → Segment L prev p (a ∷ rest) next last

abbrev pub Fresh : ℕ → List ℕ → Type 0
Fresh a = All (λ b. b ≢ a)

abbrev pub Distinct : List ℕ → Type 0
Distinct [] = Unit
Distinct (a ∷ rest) = Fresh a rest × Distinct rest

-- The connections `xs`, each of them once, are the list of the server.
pub record Chain (w : World) (xs : List ℕ) : Type 0 where
  pub linked : Segment (links w.connections) none w.first_connection xs none w.last_connection
  pub distinct : Distinct xs

-- A segment depends on what its own nodes link to, and on nothing else.
pub Segment-frame :
    {L M : Links} {prev p next last : Option ℕ} {xs : List ℕ}
    → All (λ a. M a ≡ L a) xs
    → Segment L prev p xs next last
    → Segment M prev p xs next last
Segment-frame h (nil e f) = nil e f
Segment-frame h (node e l s) = node e (h.0 ∙ l) (Segment-frame h.1 s)

pub Segment-split :
    {L : Links} {prev p next last : Option ℕ} (xs ys : List ℕ)
    → Segment L prev p (xs ++ ys) next last
    → (m : Option ℕ) × (l : Option ℕ) × Segment L prev p xs m l × Segment L l m ys next last
Segment-split {prev} {p} [] ys s = (p, prev, nil refl refl, s)
Segment-split (a ∷ rest) ys (node e l s) =
    let (m, k, front, back) = Segment-split rest ys s in (m, k, node e l front, back)

pub Segment-append :
    {L : Links} {prev p m l next last : Option ℕ} {xs ys : List ℕ}
    → Segment L prev p xs m l
    → Segment L l m ys next last
    → Segment L prev p (xs ++ ys) next last
Segment-append {L} {next} {last} {ys} (nil e f) s =
    subst₂ (λ a b. Segment L a b ys next last) f (sym e) s
Segment-append (node e l s) t = node e l (Segment-append s t)

-- `a->next = n` and `a->prev = p`, on the links.
abbrev pub point_next : Links → ℕ → Option ℕ → Links
point_next L a n b = if b == a then Option.map (λ l. (l.0, n)) (L b) else L b

abbrev pub point_prev : Links → ℕ → Option ℕ → Links
point_prev L a p b = if b == a then Option.map (λ l. (p, l.1)) (L b) else L b

-- The last node of a segment that has one, which is in the segment, can be linked on elsewhere.
pub record Ends (L : Links) (prev p : Option ℕ) (xs : List ℕ) (last : Option ℕ) : Type 0 where
  pub end : ℕ
  pub end_is : last ≡ some end
  pub end_links : (q : Option ℕ) × (n : Option ℕ) × (L end ≡ some (q, n))
  pub apart : (a : ℕ) → Fresh a xs → end ≢ a
  pub onward : (n : Option ℕ) → Segment (point_next L end n) prev p xs n last

pub Segment-Ends :
    {L : Links} {prev p next last : Option ℕ} {a : ℕ} {rest : List ℕ}
    → Distinct (a ∷ rest)
    → Segment L prev p (a ∷ rest) next last
    → Ends L prev p (a ∷ rest) last
Segment-Ends {L} {prev} d (node {n} {a} e l (nil f g)) = record {
  end = a;
  end_is = g;
  end_links = (prev, n, l);
  apart = λ b h. h.0;
  onward = λ m. node e (ground (arith, l, ==_self a)) (nil refl g);
}
Segment-Ends {L} d (node {a} e l (node f k s)) =
    let r = Segment-Ends d.1 (node f k s) in
    let ne : r.end ≢ a = r.apart a d.0 in
    record {
      end = r.end;
      end_is = r.end_is;
      end_links = r.end_links;
      apart = λ c h. r.apart c h.1;
      onward = λ m. node e (ground (arith, l, ne)) (r.onward m);
    }

-- The first node can be linked back elsewhere.
pub Segment-reprev :
    {L : Links} {prev p next last : Option ℕ} {a : ℕ} {rest : List ℕ} (prev' : Option ℕ)
    → Distinct (a ∷ rest)
    → Segment L prev p (a ∷ rest) next last
    → Segment (point_prev L a prev') prev' p (a ∷ rest) next last
Segment-reprev {L} {a} prev' d (node e l s) =
    node e (ground (arith, l, ==_self a)) (Segment-frame (others _ d.0) s)
  where
    others : (bs : List ℕ) → Fresh a bs → All (λ b. point_prev L a prev' b ≡ L b) bs
    others [] h = tt
    others (b ∷ bs) h = (ground (arith, h.0), others bs h.1)

pub Segment-ext :
    {L M : Links} {prev p next last : Option ℕ} {xs : List ℕ}
    → ((a : ℕ) → M a ≡ L a)
    → Segment L prev p xs next last
    → Segment M prev p xs next last
Segment-ext h (nil e f) = nil e f
Segment-ext h (node e l s) = node e (h _ ∙ l) (Segment-ext h s)

-- A live address links to what its connection holds.
pub connection_of_links :
    (heap : ℕ → Option Connection) (a : ℕ) {q n : Option ℕ}
    → links heap a ≡ some (q, n)
    → (c : Connection) × (heap a ≡ some c) × (c.prev ≡ q) × (c.next ≡ n)
connection_of_links heap a e = elim (Option-cases (heap a)) [
  | inl none_at ↦ absurd (cc (rw none_at at e))
  | inr (c, at) ↦ let e' = rw at at e in (c, at, cc e', cc e')
]

-- The ends of a segment, spelled otherwise.
pub Segment-ends :
    {L : Links} {prev p p' next last last' : Option ℕ} {xs : List ℕ}
    → p' ≡ p
    → last' ≡ last
    → Segment L prev p xs next last
    → Segment L prev p' xs next last'
Segment-ends e f (nil g h) = nil (e ∙ g) (f ∙ h)
Segment-ends e f (node g l s) = node (e ∙ g) l (Segment-ends refl f s)

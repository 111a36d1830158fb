-- ===== src/Server/Chain/Step.antt =====
-- The two writes of `close_connection` in src/server.c that relink the list around a connection.
use mathlib.Core.Option
use itmmorgue.Base.{
  ℕ, ◌≡◌, refl, sym, ◌∙◌, ap, ◌≢◌, Option, none, some, List, [], ◌∷◌, ◌++◌, arith, All, All-map,
  All-append, All-split, ok,
}
use itmmorgue.Protocol.Mqueue.{Mqueue}
use itmmorgue.World.{World, Connection, Payload, connection_at, put_connection}
use itmmorgue.Server.Connections.{set_next, set_prev}
use itmmorgue.Server.Chain.Segment.{
  links, Segment, nil, node, Fresh, Distinct, point_next, point_prev, Segment-Ends, Segment-reprev,
  Segment-ext, connection_of_links,
}

-- What a connection is besides its place in the list.
abbrev pub Core : Type 0
Core = ℕ × ℕ × Option (Mqueue Payload)

abbrev pub core_at : World → ℕ → Option Core
core_at w a =
    Option.map (λ (c : Connection). (c.socket, c.sysmsg_mask, c.mqueueptr)) (w.connections a)

-- A step that writes only pointers of the connections `xs`.
pub record Repoints (w w' : World) (xs : List ℕ) : Type 0 where
  pub untouched : (b : ℕ) → Fresh b xs → w'.connections b ≡ w.connections b
  pub same_core : (b : ℕ) → core_at w' b ≡ core_at w b
  pub same_roster : w'.roster ≡ w.roster

module _ (w : World) (a : ℕ) {c : Connection} (at : w.connections a ≡ some c) where
  set_next_at :
      (n : Option ℕ) → set_next w (some a) n ≡ ok (put_connection w a (record c { next = n }))
  unfolding connection_at
  set_next_at n = rw at

  set_prev_at :
      (p : Option ℕ) → set_prev w (some a) p ≡ ok (put_connection w a (record c { prev = p }))
  unfolding connection_at
  set_prev_at p = rw at

  links-put_next :
      (n : Option ℕ) (b : ℕ)
      → links (put_connection w a (record c { next = n })).connections b
        ≡ point_next (links w.connections) a n b
  links-put_next n b = ground arith

  links-put_prev :
      (p : Option ℕ) (b : ℕ)
      → links (put_connection w a (record c { prev = p })).connections b
        ≡ point_prev (links w.connections) a p b
  links-put_prev p b = ground arith

-- The part before the closed connection is linked on to what comes behind it.
pub front_step :
    (w : World) {m l : Option ℕ} (ys : List ℕ) (n : Option ℕ)
    → Distinct ys
    → Segment (links w.connections) none w.first_connection ys m l
    → (w₁ : World) × (set_next w l n ≡ ok w₁)
      × Segment (links w₁.connections) none w₁.first_connection ys n l
      × (w₁.last_connection ≡ w.last_connection)
      × Repoints w w₁ ys
front_step w [] n d (nil e f) = (
  record w { first_connection = n },
  rw f refl,
  nil refl f,
  refl,
  record { untouched = λ b h. refl; same_core = λ b. refl; same_roster = refl },
)
front_step w (y ∷ rest) n d s =
    let r = Segment-Ends d s in
    let (q, k, e) = r.end_links in
    let (c, at, prev_is, next_is) = connection_of_links w.connections r.end e in
    let w₁ = put_connection w r.end (record c { next = n }) in
    (
      w₁,
      ap (λ o. set_next w o n) r.end_is ∙ set_next_at w r.end at n,
      Segment-ext (links-put_next w r.end at n) (r.onward n),
      refl,
      record {
        untouched = λ b h. ground (arith, r.apart b h);
        same_core = λ b. ground arith;
        same_roster = refl;
      },
    )

-- The part behind it is linked back to what comes before it.
pub back_step :
    (w : World) {p n : Option ℕ} (zs : List ℕ) (l : Option ℕ)
    → Distinct zs
    → Segment (links w.connections) p n zs none w.last_connection
    → (w₁ : World) × (set_prev w n l ≡ ok w₁)
      × Segment (links w₁.connections) l n zs none w₁.last_connection
      × (w₁.first_connection ≡ w.first_connection)
      × Repoints w w₁ zs
back_step w [] l d (nil e f) = (
  record w { last_connection = l },
  rw e refl,
  nil e refl,
  refl,
  record { untouched = λ b h. refl; same_core = λ b. refl; same_roster = refl },
)
back_step w (z ∷ rest) l d (node {n = k} e k_at s) =
    let (c, at, prev_is, next_is) = connection_of_links w.connections z k_at in
    let w₁ = put_connection w z (record c { prev = l }) in
    let relinked = Segment-reprev l d (node e k_at s) in
    (
      w₁,
      ap (λ o. set_prev w o l) e ∙ set_prev_at w z at l,
      Segment-ext (links-put_prev w z at l) relinked,
      refl,
      record {
        untouched = λ b h. ground (arith, h.0);
        same_core = λ b. ground arith;
        same_roster = refl;
      },
    )

-- No node of the one list is in the other.
abbrev pub Apart : List ℕ → List ℕ → Type 0
Apart ys zs = All (λ y. Fresh y zs) ys

pub Apart-swap : (ys zs : List ℕ) → Apart ys zs → Apart zs ys
Apart-swap [] zs h = none_of zs
  where
    none_of : (xs : List ℕ) → All (λ z. Unit {0}) xs
    none_of [] = tt
    none_of (x ∷ xs) = (tt, none_of xs)
Apart-swap (y ∷ ys) zs h = both zs h.0 (Apart-swap ys zs h.1)
  where
    both : (xs : List ℕ) → Fresh y xs → Apart xs ys → Apart xs (y ∷ ys)
    both [] f k = tt
    both (x ∷ xs) f k = ((λ e. f.0 (sym e), k.0), both xs f.1 k.1)

-- What distinct nodes around `a` give.
pub record Parts (ys : List ℕ) (a : ℕ) (zs : List ℕ) : Type 0 where
  pub front : Distinct ys
  pub not_front : Fresh a ys
  pub not_back : Fresh a zs
  pub back : Distinct zs
  pub apart : Apart ys zs
  pub joined : Distinct (ys ++ zs)

pub Distinct-Parts : (ys : List ℕ) (a : ℕ) (zs : List ℕ) → Distinct (ys ++ a ∷ zs) → Parts ys a zs
Distinct-Parts [] a zs d = record {
  front = tt;
  not_front = tt;
  not_back = d.0;
  back = d.1;
  apart = tt;
  joined = d.1;
}
Distinct-Parts (y ∷ ys) a zs d =
    let p = Distinct-Parts ys a zs d.1 in
    let (f, g) = All-split (λ b. b ≢ y) ys (a ∷ zs) d.0 in
    record {
      front = (f, p.front);
      not_front = (λ e. g.0 (sym e), p.not_front);
      not_back = p.not_back;
      back = p.back;
      apart = (g.1, p.apart);
      joined = (All-append (λ b. b ≢ y) ys zs f g.1, p.joined);
    }

-- Links of nodes that a step leaves untouched.
pub keeps_links :
    (w w' : World) (ys zs : List ℕ)
    → Repoints w w' ys
    → Apart zs ys
    → All (λ b. links w'.connections b ≡ links w.connections b) zs
keeps_links w w' ys zs r =
    All-map _ _ (λ b f. ap (Option.map (λ (c : Connection). (c.prev, c.next))) (r.untouched b f)) zs

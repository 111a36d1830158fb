-- ===== src/Server/Chain/Close.antt =====
-- `close_connection` of src/server.c takes one connection out of the list and frees it.
use itmmorgue.Base.{
  ℕ, ◌≡◌, refl, ◌∙◌, Option, none, some, List, ◌∷◌, ◌++◌, arith, ◌==◌, if◌then◌else◌, All, All-map,
  All-append, ==_self, ok,
}
use itmmorgue.World.{World, connection_at}
use itmmorgue.Server.Connections.{close_connection}
use itmmorgue.Server.Chain.Segment.{
  links, Segment, node, Fresh, Chain, Segment-frame, Segment-split, Segment-append, Segment-ends,
  connection_of_links,
}
use itmmorgue.Server.Chain.Step.{
  core_at, Parts, Distinct-Parts, Apart-swap, front_step, back_step, keeps_links,
}

-- `free(connection)`
abbrev freed_at : World → ℕ → World
freed_at w a = record w { connections = λ b. if b == a then none else w.connections b }

freeing :
    (w : World) (a : ℕ) (xs : List ℕ)
    → Fresh a xs
    → All (λ b. links (freed_at w a).connections b ≡ links w.connections b) xs
freeing w a = All-map _ _ (λ b ne. ground (arith, ne))

-- What a client is told of `close_connection`: which list is left, that the connection is freed, and
-- that nothing else changed.
pub record Closed (w w' : World) (a : ℕ) (xs : List ℕ) : Type 0 where
  pub chain : Chain w' xs
  pub freed : w'.connections a ≡ none
  pub others : (b : ℕ) → core_at w' b ≡ (if b == a then none else core_at w b)
  pub same_roster : w'.roster ≡ w.roster

-- Closing a connection of the list, wherever it stands, succeeds: the list is left with the others
-- in their order, the connection is freed, the sockets, masks and queues of all others stay, and so
-- do the players.
pub close_connection-Closed :
    (w : World) (ys : List ℕ) (a : ℕ) (zs : List ℕ)
    → Chain w (ys ++ a ∷ zs)
    → (w' : World) × (close_connection w (some a) ≡ ok w') × Closed w w' a (ys ++ zs)
unfolding close_connection connection_at
close_connection-Closed w ys a zs v = go (Segment-split ys (a ∷ zs) v.linked)
  where
    parts : Parts ys a zs
    parts = Distinct-Parts ys a zs v.distinct

    go :
        (m : Option ℕ) × (l : Option ℕ) × Segment
            (links w.connections)
            none
            w.first_connection
            ys
            m
            l
          × Segment (links w.connections) l m (a ∷ zs) none w.last_connection
        → (w' : World) × (close_connection w (some a) ≡ ok w') × Closed w w' a (ys ++ zs)
    go (m, l, front, node {n} e a_at back) =
        let (c, at, prev_is, next_is) = connection_of_links w.connections a a_at in
        let (w₁, e₁, s₁, same_last, r₁) = front_step w ys n parts.front front in
        let back₁ = Segment-frame (keeps_links w w₁ ys zs r₁ (Apart-swap ys zs parts.apart)) back in
        let (w₂, e₂, s₂, same_first, r₂) =
          back_step w₁ zs l parts.back (Segment-ends refl same_last back₁) in
        let front₂ = Segment-frame (keeps_links w₁ w₂ zs ys r₂ parts.apart) s₁ in
        (
          freed_at w₂ a,
          rw (at, prev_is, next_is, e₁, e₂),
          record {
            chain = record {
              linked =
                  Segment-frame
                    (freeing w₂ a (ys ++ zs) (All-append _ ys zs parts.not_front parts.not_back))
                    (Segment-append (Segment-ends same_first refl front₂) s₂);
              distinct = parts.joined;
            };
            freed = rw ==_self;
            others = λ b. ground (arith, r₁.same_core b, r₂.same_core b);
            same_roster = r₂.same_roster ∙ r₁.same_roster;
          },
        )

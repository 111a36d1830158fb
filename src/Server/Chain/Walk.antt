-- ===== src/Server/Chain/Walk.antt =====
-- The loops of src/server.c over the list of the connections: fuel above the list's length is enough,
-- and the body then runs once for each connection, in order.
use itmmorgue.Base.{
  ℕ, zero, suc, ◌≡◌, ◌<◌, refl, ◌∙◌, Option, none, some, List, [], ◌∷◌, arith, Result, ok, stop,
  ◌>>=◌, length,
}
use itmmorgue.World.{World, connection_at}
use itmmorgue.Server.Connections.{for_each}
use itmmorgue.Server.Chain.Segment.{
  links, Segment, nil, node, Chain, Segment-ext, connection_of_links,
}

-- The body, once for each connection of the list.
unfoldable pub run_over : (World → ℕ → Result World) → List ℕ → World → Result World
run_over body [] w = ok w
run_over body (a ∷ rest) w = do w' ← body w a; run_over body rest w'

-- A body that links no connection elsewhere.
abbrev pub KeepsLinks : (World → ℕ → Result World) → Type 0
KeepsLinks body =
    (w : World) (a : ℕ) (w' : World)
    → body w a ≡ ok w'
    → (b : ℕ) → links w'.connections b ≡ links w.connections b

module _ (body : World → ℕ → Result World) (keeps : KeepsLinks body) where
  walk :
      (fuel : ℕ) {prev p last : Option ℕ} {xs : List ℕ} (w : World)
      → length xs < fuel
      → Segment (links w.connections) prev p xs none last
      → for_each fuel body p w ≡ run_over body xs w
  unfolding for_each run_over connection_at
  walk zero w lt s = absurd (omega arith)
  walk (suc fuel) w lt (nil e f) = rw e
  walk (suc fuel) w lt (node {n} {last} {a} {rest} e l s) =
      rw e (go (body w a) refl (λ w' t. walk fuel w' (omega arith) t))
    where
      go :
          (r : Result World)
          → body w a ≡ r
          → ((w' : World)
              → Segment (links w'.connections) (some a) n rest none last
              → for_each fuel body n w' ≡ run_over body rest w')
          → (r >>= λ w'. connection_at w' a >>= λ c. for_each fuel body c.next w')
            ≡ (r >>= λ w'. run_over body rest w')
      go (stop q) h ih = refl
      go (ok w') h ih =
          let same = keeps w a w' h in
          let (c, at, prev_is, next_is) = connection_of_links w'.connections a (same a ∙ l) in
          rw (at, next_is) (ih w' (Segment-ext same s))

  -- For a body that links no connection elsewhere, and with fuel above the length of the list `xs`
  -- of the server, the loop over the list is the body, once for each connection, in order.
  pub for_each-run_over :
      (fuel : ℕ) (w : World) (xs : List ℕ)
      → length xs < fuel
      → Chain w xs
      → for_each fuel body w.first_connection w ≡ run_over body xs w
  for_each-run_over fuel w xs lt v = walk fuel w lt v.linked

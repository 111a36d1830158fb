-- ===== src/Server/Chain/Link.antt =====
-- What the accept loop of src/server.c does to the list: a new connection comes last.
use itmmorgue.Base.{
  ℕ, ◌≡◌, ◌^◌, ◌-◌, refl, sym, ◌∙◌, ap, ◌≢◌, Option, none, some, List, [], ◌∷◌, ◌++◌, arith, ◌==◌,
  if◌then◌else◌, All-map, ok, inl, inr, ◌⊎◌, Bool-cases, All-append,
}
use itmmorgue.World.{World, Connection, connection_at, put_connection}
use itmmorgue.Server.Connections.{link, accept_client}
use itmmorgue.Server.Chain.Segment.{
  Links, links, Segment, nil, node, Fresh, Distinct, Chain, Segment-frame, Segment-append,
  point_next, Segment-Ends, connection_of_links,
}
use itmmorgue.Server.Chain.Step.{core_at}

-- An address that holds nothing is none of the list.
Segment-Fresh :
    {L : Links} {prev p next last : Option ℕ} {xs : List ℕ} (a : ℕ)
    → L a ≡ none
    → Segment L prev p xs next last
    → Fresh a xs
Segment-Fresh a e (nil f g) = tt
Segment-Fresh {L} a e (node f l s) = (λ q. cc (ap L q), Segment-Fresh a e s)

Distinct-snoc : (xs : List ℕ) (a : ℕ) → Distinct xs → Fresh a xs → Distinct (xs ++ a ∷ [])
Distinct-snoc [] a d f = (tt, tt)
Distinct-snoc (x ∷ xs) a d f =
    (All-append _ xs (a ∷ []) d.0 (λ e. f.0 (sym e), tt), Distinct-snoc xs a d.1 f.1)

-- The list with one more at its end; the new connection has the socket, every bit of the mask, and no
-- queue yet. All others keep their socket, mask and queue, and the players stay.
pub record Linked (w w' : World) (a socket : ℕ) (xs : List ℕ) : Type 0 where
  pub chain : Chain w' (xs ++ a ∷ [])
  pub cores :
      (b : ℕ) → core_at w' b ≡ (if b == a then some (socket, 2 ^ 32 - 1, none) else core_at w b)
  pub same_roster : w'.roster ≡ w.roster
  pub same_start : w'.start ≡ w.start

module _ (w : World) (a socket : ℕ) (unused : w.connections a ≡ none) where
  abbrev added : Option ℕ → Connection
  added before = record {
    socket = socket;
    sysmsg_mask = 2 ^ 32 - 1;
    mqueueptr = none;
    prev = before;
    next = none;
  }

  abbrev first_linked : World
  first_linked = record (put_connection w a (added none)) {
    first_connection = some a;
    last_connection = some a;
  }

  abbrev last_linked : ℕ → Connection → World
  last_linked l c =
      record (put_connection (put_connection w l (record c { next = some a })) a (added (some l))) {
        last_connection = some a;
      }

  link_first : w.first_connection ≡ none → link w a socket ≡ ok first_linked
  unfolding link
  link_first e = rw e

  link_last :
      (l : ℕ) {x : ℕ} {c : Connection}
      → w.first_connection ≡ some x
      → w.last_connection ≡ some l
      → w.connections l ≡ some c
      → link w a socket ≡ ok (last_linked l c)
  unfolding link connection_at
  link_last l e f at = rw (e, f, at)

  link-Linked :
      (xs : List ℕ)
      → Chain w xs
      → (w' : World) × (link w a socket ≡ ok w') × Linked w w' a socket xs
  link-Linked xs v = go v.distinct v.linked (Segment-Fresh a (rw unused) v.linked)
    where
      go :
          {zs : List ℕ}
          → Distinct zs
          → Segment (links w.connections) none w.first_connection zs none w.last_connection
          → Fresh a zs
          → (w' : World) × (link w a socket ≡ ok w') × Linked w w' a socket zs
      go d (nil e f) h = (
        first_linked,
        link_first e,
        record {
          chain = record { linked = node refl (ground arith) (nil refl refl); distinct = (tt, tt) };
          cores = λ b. ground arith;
          same_roster = refl;
          same_start = refl;
        },
      )
      go d (node {a = x} {rest} e l s) h =
          let r = Segment-Ends d (node e l s) in
          let (q, n, end_at) = r.end_links in
          let (c, at, prev_is, next_is) = connection_of_links w.connections r.end end_at in
          let ne : r.end ≢ a = r.apart a h in
          let w' = last_linked r.end c in
          let moved =
            All-map _
              (λ b. links w'.connections b ≡ point_next (links w.connections) r.end (some a) b)
              (λ b q. ground (arith, at)) (x ∷ rest) h in
          (
            w',
            link_last r.end e r.end_is at,
            record {
              chain = record {
                linked =
                    Segment-append (Segment-frame moved (r.onward (some a)))
                      (node refl (ground (arith, r.end_is)) (nil refl refl));
                distinct = Distinct-snoc (x ∷ rest) a d h;
              };
              cores = λ b. ground (arith, at, ne, unused);
              same_roster = refl;
              same_start = refl;
            },
          )

-- The phase in which a client is linked: a running game with a player missing goes to the resurrection.
abbrev pub after_accept : World → World
after_accept w = record w { start = if w.start == 0 then 0 else 3 }

module _ (w : World) (a socket : ℕ) (xs : List ℕ) where
  -- Before the start, or with a player missing, a client for which malloc finds an unused address
  -- is linked behind the connections `xs`, with its socket, a full mask and no queue yet; a running
  -- game goes to the resurrection phase, and the players and all other connections' data stay.
  pub accept_client-Linked :
      w.connections a ≡ none
      → Chain w xs
      → (w.start ≡ 0) ⊎ (w.players_len ≢ w.players_total)
      → (w' : World) × (accept_client w a socket ≡ ok w') × Linked (after_accept w) w' a socket xs
  unfolding accept_client
  accept_client-Linked unused v open_for = elim (Bool-cases (w.start == 0)) [
    | inl waiting ↦
        let (w', e, l) = link-Linked w a socket unused xs v in
        (
          w',
          rw waiting e,
          record {
            chain = l.chain;
            cores = l.cores;
            same_roster = l.same_roster;
            same_start = l.same_start ∙ ground arith;
          },
        )
    | inr running ↦
        let w₀ = record w { start = 3 } in
        let (w', e, l) =
          link-Linked w₀ a socket unused xs (record { linked = v.linked; distinct = v.distinct }) in
        (
          w',
          ground arith,
          record {
            chain = l.chain;
            cores = l.cores;
            same_roster = l.same_roster;
            same_start = l.same_start ∙ ground arith;
          },
        )
  ]

  -- While nobody is missing in a running game, a client is turned away and nothing changes.
  pub accept_client_full :
      w.start ≢ 0 → w.players_len ≡ w.players_total → accept_client w a socket ≡ ok w
  unfolding accept_client
  accept_client_full s e = ground arith

-- ===== src/Server/System/Listed.antt =====
-- The heap of src/server.c holds the connections of its list and no others, and the players and the queues
-- stay sound, also where clients come and go.
use itmmorgue.Base.{
  same_ok, ℕ, ◌≡◌, ◌≢◌, sym, ◌∙◌, ap, ◌⊎◌, inl, inr, arith, Bool, true, false, Option, none, some,
  List, [], ◌∷◌, ◌++◌, ◌==◌, ==_iff, Bool-cases, Option-cases, All-append, All-split, ◌^◌, ◌-◌, ok,
  or_undefined, >>=-eq-ok, if◌then◌else◌,
}
use mathlib.Core.Path.{subst}
use mathlib.Core.Option
use itmmorgue.World.{World, Connection, connection_at}
use itmmorgue.Server.Connections.{accept_client, close_connection}
use itmmorgue.Server.Chain.Segment.{links, Fresh, Chain, nil, Segment-ext, Segment-ends}
use itmmorgue.Server.Chain.Step.{Core, core_at}
use itmmorgue.Server.Chain.Close.{close_connection-Closed}
use itmmorgue.Server.Chain.Link.{Linked, after_accept, accept_client-Linked, accept_client_full}
use itmmorgue.Server.System.Sound.{Sound, SoundCore, core, SoundRoster}
use itmmorgue.Server.System.Kept.{Steady, or_undefined-some}

-- The list holds every live connection, and each once.
pub record Listed (w : World) : Type 0 where
  pub list : List ℕ
  pub chain : Chain w list
  pub no_other : (a : ℕ) → Fresh a list → w.connections a ≡ none

-- The list is whole, and under the condition `A` the players and the queues are sound.
pub record Whole (A : Type 0) (w : World) : Type 0 where
  pub listed : Listed w
  pub sound : A → Sound w

-- The server before its first client.
pub record IsEmpty (w : World) : Type 0 where
  pub no_first : w.first_connection ≡ none
  pub no_last : w.last_connection ≡ none
  pub no_connection : (a : ℕ) → w.connections a ≡ none

pub IsEmpty-Listed : {w : World} → IsEmpty w → Listed w
IsEmpty-Listed e = record {
  list = [];
  chain = record { linked = nil e.no_first e.no_last; distinct = tt };
  no_other = λ a f. e.no_connection a;
}

pub IsEmpty-Sound : {w : World} → IsEmpty w → SoundRoster w.roster → Sound w
IsEmpty-Sound {w} e s = record {
  roster = s;
  queues = λ a. subst (λ o. SoundCore (core o)) (sym (e.no_connection a)) tt;
}

links-none : (heap : ℕ → Option Connection) (a : ℕ) → links heap a ≡ none → heap a ≡ none
links-none heap a e = elim (Option-cases (heap a)) [
  | inl n ↦ n
  | inr (c, at) ↦ absurd (cc (rw at at e))
]

core-none : (w : World) (a : ℕ) → core_at w a ≡ none → w.connections a ≡ none
core-none w a e = elim (Option-cases (w.connections a)) [
  | inl n ↦ n
  | inr (c, at) ↦ absurd (cc (rw at at e))
]

pub Steady-Listed : {w w' : World} → Steady w w' → Listed w → Listed w'
Steady-Listed {w} {w'} s l = record {
  list = l.list;
  chain = record {
    linked = Segment-ends s.same_first s.same_last (Segment-ext s.same_links l.chain.linked);
    distinct = l.chain.distinct;
  };
  no_other = λ a f. links-none w'.connections a (
      s.same_links a
      ∙ ap (λ o. Option.map (λ (c : Connection). (c.prev, c.next)) o) (l.no_other a f));
}

pub Steady-Whole : {A : Type 0} {w w' : World} → Steady w w' → Whole A w → Whole A w'
Steady-Whole s h = record {
  listed = Steady-Listed s h.listed;
  sound = λ a. s.keeps_sound (h.sound a);
}

-- One connection less or more.
core_if :
    (b : Bool) (new o : Option Core)
    → SoundCore new
    → SoundCore o
    → SoundCore (if b then new else o)
core_if true new o h k = h
core_if false new o h k = k

Sound-cores :
    {w w' : World} (a : ℕ) (new : Option Core)
    → w'.roster ≡ w.roster
    → ((b : ℕ) → core_at w' b ≡ (if b == a then new else core_at w b))
    → SoundCore new
    → Sound w
    → Sound w'
Sound-cores {w} a new r cores h s = record {
  roster = subst SoundRoster (sym r) s.roster;
  queues = λ b. subst SoundCore (sym (cores b)) (core_if (b == a) new (core_at w b) h (s.queues b));
}

-- An address is in a list, or in none of its places.
found : (a : ℕ) (xs : List ℕ) → Fresh a xs ⊎ ((ys : List ℕ) × (zs : List ℕ) × (xs ≡ ys ++ a ∷ zs))
found a [] = inl tt
found a (x ∷ xs) = elim (Bool-cases (x == a)) [
  | inl here ↦ inr ([], xs, ap (λ b. b ∷ xs) ((==_iff x a).0 here))
  | inr other ↦ elim (found a xs) [
    | inl f ↦ inl (ground (arith, other), f)
    | inr (ys, zs, e) ↦ inr (x ∷ ys, zs, ap (◌∷◌ x) e)
  ]
]

core_at-none : (w : World) (a : ℕ) → w.connections a ≡ none → core_at w a ≡ none
core_at-none w a e = rw e

-- Closing a connection of the list.
close_connection-inside :
    {A : Type 0} (w w' : World) (a : ℕ) (l : Listed w) (ys zs : List ℕ)
    → l.list ≡ ys ++ a ∷ zs
    → close_connection w (some a) ≡ ok w'
    → (A → Sound w)
    → Whole A w'
close_connection-inside {A} w w' a l ys zs is e s =
    let (v, e', r) = close_connection-Closed w ys a zs (subst (Chain w) is l.chain) in
    let inside : (b : ℕ) → a ≢ b → Fresh b (ys ++ zs) → Fresh b l.list = λ b ne f.
      let (front, back) = All-split _ ys zs f in
      subst (Fresh b) (sym is) (All-append _ ys (a ∷ zs) front (ne, back)) in
    subst (Whole A) (same_ok (sym e' ∙ e)) (record {
      listed = record {
        list = ys ++ zs;
        chain = r.chain;
        no_other = λ b f. elim (Bool-cases (b == a)) [
          | inl here ↦ ap v.connections ((==_iff b a).0 here) ∙ r.freed
          | inr other ↦ core-none v b (
              r.others b
              ∙ ap (λ t. if t then none else core_at w b) other
              ∙ core_at-none w b (l.no_other b (inside b (ground (arith, other)) f)))
        ];
      };
      sound = λ c. Sound-cores a none r.same_roster r.others tt (s c);
    })

-- Closing succeeds for a live connection only.
pub close_connection-Whole :
    {A : Type 0} (w w' : World) (a : ℕ)
    → close_connection w (some a) ≡ ok w'
    → Whole A w
    → Whole A w'
unfolding close_connection connection_at
close_connection-Whole w w' a e h =
    let l = h.listed in
    let (c, at, rest) = >>=-eq-ok (or_undefined (w.connections a)) _ e in
    let live = or_undefined-some (w.connections a) at in
    elim (found a l.list) [
      | inl f ↦ absurd (cc (sym live ∙ l.no_other a f))
      | inr (ys, zs, is) ↦ close_connection-inside w w' a l ys zs is e h.sound
    ]

module _ {A : Type 0} (w w' : World) (a socket : ℕ) (h : Whole A w) where
  Linked-Whole :
      (v : World) → Linked (after_accept w) v a socket h.listed.list → v ≡ w' → Whole A w'
  Linked-Whole v r same = subst (Whole A) same (record {
    listed = record {
      list = h.listed.list ++ a ∷ [];
      chain = r.chain;
      no_other = λ b f.
          let (front, back) = All-split _ h.listed.list (a ∷ []) f in
          let other : (b == a) ≡ false = ground (arith, back.0) in
          core-none v b (
            r.cores b
            ∙ ap (λ t. if t then some (socket, 2 ^ 32 - 1, none) else core_at w b) other
            ∙ core_at-none w b (h.listed.no_other b front));
    };
    sound =
        λ c. Sound-cores a (some (socket, 2 ^ 32 - 1, none)) r.same_roster r.cores tt (h.sound c);
  })

  pub accept_client-Whole : w.connections a ≡ none → accept_client w a socket ≡ ok w' → Whole A w'
  accept_client-Whole unused e = elim (Bool-cases (w.start == 0)) [
    | inl waits ↦
        let (v, e', r) =
          accept_client-Linked w a socket h.listed.list unused h.listed.chain
            (inl (ground arith)) in
        Linked-Whole v r (same_ok (sym e' ∙ e))
    | inr runs ↦ elim (Bool-cases (w.players_len == w.players_total)) [
      | inl full ↦
          subst (Whole A)
            (same_ok
              (sym (accept_client_full w a socket h.listed.list (ground arith) (ground arith)) ∙ e))
            h
      | inr missing ↦
          let (v, e', r) =
            accept_client-Linked w a socket h.listed.list unused h.listed.chain
              (inr (ground arith)) in
          Linked-Whole v r (same_ok (sym e' ∙ e))
    ]
  ]

-- ===== src/Protocol/Mqueue/Inv.antt =====
-- What it means that a ring holds a list of messages, and that every operation keeps it so.
use itmmorgue.Base.{
  ℕ, zero, sym, get_elem?-eq-get_or, suc, ◌+◌, ◌-◌, ◌%◌, ◌≤◌, ◌<◌, ◌≡◌, refl, ap, ap₂, ◌∙◌, Option,
  none, some, List, [], ◌∷◌, ◌++◌, map, arith, ok, stop, panic, mqueue_overflow, length, get_or,
  set, length-set, get_or-set_self, get_or-set_ne, length-append,
}
use native.Mathlib.Numerals.{add-one}
use mathlib.Core.List.{map-append}
use itmmorgue.Protocol.Types.{Mbuf}
use itmmorgue.Protocol.Fifo.{stamp, capacity}
use itmmorgue.Protocol.Mqueue.{Mqueue, mqueue_init, mqueue_put, mqueue_get}

module _ {ℓ} {A : Type ℓ} (slots : List (Option A)) where
  -- The `n` slots from index `start` on, going round at 128.
  abbrev pub window : ℕ → ℕ → List (Option A)
  window start zero = []
  window start (suc n) = get_or slots start none ∷ window ((start + 1) % 128) n

-- Writing the slot behind a window extends the window by it.
window-set {ℓ} :
    {A : Type ℓ} (buf : List (Option A)) (x : Option A) (n h i : ℕ)
    → length buf ≡ 128
    → h < 128
    → n < 128
    → i ≡ (h + n) % 128
    → window (set buf i x) h (suc n) ≡ window buf h n ++ x ∷ []
window-set buf x zero h i l hh hn e =
    let e' : i ≡ h = omega arith in
    ap (λ y. y ∷ []) (rw e' (get_or-set_self buf h x none (omega arith)))
window-set buf x (suc n) h i l hh hn e =
    ap₂ ◌∷◌ (get_or-set_ne buf i h x none (omega arith))
      (window-set buf x n ((h + 1) % 128) i l (omega arith) (omega arith) (omega arith))

-- The ring `q` holds the messages `xs`, oldest first.
pub record Holds {P : Type 0} (q : Mqueue P) (xs : List (Mbuf P)) : Type 0 where
  pub storage : length q.buf ≡ 128
  pub start_in : q.start_position < 128
  pub counted : q.size ≡ length xs
  pub fits : length xs ≤ capacity
  pub slots : window q.buf q.start_position q.size ≡ map some xs

module _ {P : Type 0} where
  -- The ring after a put that finds room, and after a get that finds a message.
  abbrev pub stored : Mqueue P → Mbuf P → Mqueue P
  stored q m = record q {
    buf = set q.buf ((q.start_position + q.size) % 128) (some (stamp m));
    size = q.size + 1;
  }

  abbrev pub dropped : Mqueue P → Mqueue P
  dropped q = record q { start_position = (q.start_position + 1) % 128; size = q.size - 1 }

  stored-slots :
      (q : Mqueue P) (xs : List (Mbuf P)) (m : Mbuf P)
      → Holds q xs
      → length xs < capacity
      → window (stored q m).buf q.start_position (q.size + 1) ≡ map some (xs ++ stamp m ∷ [])
  stored-slots q xs m h lt =
      ap (window (stored q m).buf q.start_position) (add-one q.size)
      ∙ window-set q.buf (some (stamp m)) q.size q.start_position _ h.storage h.start_in
          (omega arith) refl
      ∙ ap (λ l. l ++ some (stamp m) ∷ []) h.slots
      ∙ sym (map-append some xs (stamp m ∷ []))

  stored-Holds :
      (q : Mqueue P) (xs : List (Mbuf P)) (m : Mbuf P)
      → Holds q xs
      → length xs < capacity
      → Holds (stored q m) (xs ++ stamp m ∷ [])
  stored-Holds q xs m h lt = record {
    storage = length-set q.buf _ _ ∙ h.storage;
    start_in = h.start_in;
    counted = omega (arith, length-append xs (stamp m ∷ []));
    fits = omega (arith, length-append xs (stamp m ∷ []));
    slots = stored-slots q xs m h lt;
  }

  mqueue_put-stored :
      (q : Mqueue P) (xs : List (Mbuf P)) (m : Mbuf P)
      → Holds q xs
      → length xs < capacity
      → mqueue_put q m ≡ ok (stored q m)
  unfolding mqueue_put
  mqueue_put-stored q xs m h lt = ground arith

  pub mqueue_put-Holds :
      (q : Mqueue P) (xs : List (Mbuf P)) (m : Mbuf P)
      → Holds q xs
      → length xs < capacity
      → (q' : Mqueue P) × (mqueue_put q m ≡ ok q') × Holds q' (xs ++ stamp m ∷ [])
  mqueue_put-Holds q xs m h lt =
      (stored q m, mqueue_put-stored q xs m h lt, stored-Holds q xs m h lt)

  pub mqueue_put_full :
      (q : Mqueue P) (xs : List (Mbuf P)) (m : Mbuf P)
      → Holds q xs
      → length xs ≡ capacity
      → mqueue_put q m ≡ stop (panic mqueue_overflow)
  unfolding mqueue_put
  mqueue_put_full q xs m h e = ground arith

  pub mqueue_get-Holds_nil : (q : Mqueue P) → Holds q [] → mqueue_get q ≡ ok (none, q)
  unfolding mqueue_get
  mqueue_get-Holds_nil q h = ground arith

  window_suc :
      (q : Mqueue P) (x : Mbuf P) (xs : List (Mbuf P))
      → Holds q (x ∷ xs)
      → (get_or q.buf q.start_position none ≡ some x)
        × (window q.buf ((q.start_position + 1) % 128) (q.size - 1) ≡ map some xs)
  window_suc q x xs h =
      let e : q.size ≡ suc (q.size - 1) = omega arith in
      let w = sym (ap (window q.buf q.start_position) e) ∙ h.slots in (cc w, cc w)

  dropped-Holds :
      (q : Mqueue P) (x : Mbuf P) (xs : List (Mbuf P)) → Holds q (x ∷ xs) → Holds (dropped q) xs
  dropped-Holds q x xs h = record {
    storage = h.storage;
    start_in = omega arith;
    counted = omega arith;
    fits = omega arith;
    slots = (window_suc q x xs h).1;
  }

  mqueue_get-dropped :
      (q : Mqueue P) (x : Mbuf P) (xs : List (Mbuf P))
      → Holds q (x ∷ xs)
      → mqueue_get q ≡ ok (some x, dropped q)
  unfolding mqueue_get
  mqueue_get-dropped q x xs h =
      ground (arith, get_elem?-eq-get_or q.buf q.start_position none, window_suc q x xs h)

  pub mqueue_get-Holds_cons :
      (q : Mqueue P) (x : Mbuf P) (xs : List (Mbuf P))
      → Holds q (x ∷ xs)
      → (q' : Mqueue P) × (mqueue_get q ≡ ok (some x, q')) × Holds q' xs
  mqueue_get-Holds_cons q x xs h = (dropped q, mqueue_get-dropped q x xs h, dropped-Holds q x xs h)

  -- A freshly initialised ring holds nothing, whatever its slots hold.
  pub mqueue_init-Holds : (q : Mqueue P) → length q.buf ≡ 128 → Holds (mqueue_init q) []
  unfolding mqueue_init
  mqueue_init-Holds q h = record {
    storage = h;
    start_in = omega arith;
    counted = refl;
    fits = omega arith;
    slots = refl;
  }

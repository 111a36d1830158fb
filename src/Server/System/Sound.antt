-- ===== src/Server/System/Sound.antt =====
-- What holds of the players and of the queues of src/server.c in every state that its threads reach.
use mathlib.Core.Path.{subst}
use itmmorgue.Base.{
  same_ok, ℕ, ◌≤◌, ◌<◌, ◌≡◌, refl, sym, ◌∙◌, arith, Option, none, some, List, ◌==◌, ok, length,
  Bool-cases, inl, inr, [], ◌∷◌, ◌++◌, get_elem?, Bool, true, false, if◌then◌else◌, ==_iff,
  get_elem?-set, length-set, lt_of_get_elem?,
}
use itmmorgue.Protocol.Types.{Mbuf}
use itmmorgue.Protocol.Fifo.{stamp, capacity}
use itmmorgue.Protocol.Mqueue.{Mqueue, mqueue_put, mqueue_get}
use itmmorgue.Protocol.Mqueue.Inv.{
  Holds, mqueue_put-Holds, mqueue_put_full, mqueue_get-Holds_nil, mqueue_get-Holds_cons,
}
use itmmorgue.Player.{Player, Roster, put_player, max_players, player_name_maxlen}
use itmmorgue.Player.Moves.{InRange}
use itmmorgue.Event.Turn.{CanApply}
use mathlib.Core.Option
use itmmorgue.World.{World, Connection, Payload, put_connection}
use itmmorgue.Server.Chain.Step.{Core, core_at}

-- The name has its 32 bytes, the position its 16 bits, and the event is none or a move of the player's
-- own in one of the eight directions.
pub record SoundPlayer (id : ℕ) (p : Player) : Type 0 where
  pub named : length p.nickname ≡ player_name_maxlen
  pub in_range : InRange p
  pub can_apply : CanApply id p.ev_queue.event p.ev_queue.event_args

abbrev pub SoundSlot : ℕ → Option Player → Type 0
SoundSlot id none = Unit
SoundSlot id (some p) = SoundPlayer id p

pub record SoundRoster (r : Roster) : Type 0 where
  pub slots : length r.players ≡ max_players
  pub len_in : r.players_len ≤ max_players
  pub each : (j : ℕ) → SoundSlot j (get_elem? r.players j)

-- A queue that was initialised holds some messages.
abbrev pub SoundQueue : Option (Mqueue Payload) → Type 0
SoundQueue none = Unit
SoundQueue (some q) = (ms : List (Mbuf Payload)) × Holds q ms

abbrev pub core : Option Connection → Option Core
core o = Option.map (λ (c : Connection). (c.socket, c.sysmsg_mask, c.mqueueptr)) o

abbrev pub SoundCore : Option Core → Type 0
SoundCore none = Unit
SoundCore (some (socket, mask, q)) = SoundQueue q

pub record Sound (w : World) : Type 0 where
  pub roster : SoundRoster w.roster
  pub queues : (a : ℕ) → SoundCore (core_at w a)

slot_if :
    (b : Bool) (j : ℕ) {p : Player} (o : Option Player)
    → (b ≡ true → SoundPlayer j p)
    → SoundSlot j o
    → SoundSlot j (if b then some p else o)
slot_if true j o h k = h refl
slot_if false j o h k = k

-- A player that is written to its slot, and the number of those that count.
pub put_player-SoundRoster :
    (r : Roster) (id n : ℕ) (p p' : Player)
    → get_elem? r.players id ≡ some p
    → (SoundPlayer id p → SoundPlayer id p')
    → n ≤ max_players
    → SoundRoster r
    → SoundRoster (record (put_player r id p') { players_len = n })
put_player-SoundRoster r id n p p' at keeps fits s = record {
  slots = length-set r.players id p' ∙ s.slots;
  len_in = fits;
  each = λ j.
      subst (SoundSlot j) (sym (get_elem?-set r.players id j p' (lt_of_get_elem? r.players id at)))
        (slot_if (j == id) j (get_elem? r.players j)
          (λ e.
            subst (λ i. SoundPlayer i p') (sym ((==_iff j id).0 e))
              (keeps (subst (SoundSlot id) at (s.each id))))
          (s.each j));
}

-- A connection that is written back with another queue.
core_if :
    (b : Bool) (c' : Connection) (o : Option Connection)
    → SoundQueue c'.mqueueptr
    → SoundCore (core o)
    → SoundCore (core (if b then some c' else o))
core_if true c' o h k = h
core_if false c' o h k = k

pub put_connection-queues :
    (w : World) (a : ℕ) (c' : Connection)
    → SoundQueue c'.mqueueptr
    → ((b : ℕ) → SoundCore (core_at w b))
    → (b : ℕ) → SoundCore (core_at (put_connection w a c') b)
put_connection-queues w a c' h s b = core_if (b == a) c' (w.connections b) h (s b)

pub queue_at :
    (w : World) (a : ℕ) (c : Connection)
    → w.connections a ≡ some c
    → ((b : ℕ) → SoundCore (core_at w b))
    → SoundQueue c.mqueueptr
queue_at w a c at s = subst (λ o. SoundCore (core o)) at (s a)

-- The queue behind a call that succeeded.
pub mqueue_put-some :
    (q q' : Mqueue Payload) (m : Mbuf Payload) (xs : List (Mbuf Payload))
    → Holds q xs
    → mqueue_put q m ≡ ok q'
    → (ys : List (Mbuf Payload)) × Holds q' ys
mqueue_put-some q q' m xs h e = elim (Bool-cases (length xs == capacity)) [
  | inl full ↦ absurd (cc (sym (mqueue_put_full q xs m h ((==_iff _ _).0 full)) ∙ e))
  | inr room ↦
      let (q₁, e₁, h₁) = mqueue_put-Holds q xs m h (omega_room xs h.fits room) in
      (xs ++ stamp m ∷ [], subst (λ k. Holds k (xs ++ stamp m ∷ [])) (cc (sym e₁ ∙ e)) h₁)
]
  where
    omega_room :
        (xs : List (Mbuf Payload))
        → length xs ≤ capacity
        → (length xs == capacity) ≡ false
        → length xs < capacity
    omega_room xs le ne = ground arith

pub mqueue_get-some :
    (q : Mqueue Payload) (r : Option (Mbuf Payload) × Mqueue Payload) (xs : List (Mbuf Payload))
    → Holds q xs
    → mqueue_get q ≡ ok r
    → (ys : List (Mbuf Payload)) × Holds r.1 ys
mqueue_get-some q r [] h e = (
  [],
  subst (λ (s : Option (Mbuf Payload) × Mqueue Payload). Holds s.1 [])
      (same_ok (sym (mqueue_get-Holds_nil q h) ∙ e)) h,
)
mqueue_get-some q r (x ∷ xs) h e =
    let (q', e', h') = mqueue_get-Holds_cons q x xs h in
    (
      xs,
      subst (λ (s : Option (Mbuf Payload) × Mqueue Payload). Holds s.1 xs) (same_ok (sym e' ∙ e))
          h',
    )

-- ===== src/Server/System/Kept.antt =====
-- Steps of src/server.c that leave the list of the connections, and which of them live, as they are, and
-- the players and the queues sound.
use mathlib.Core.Path.{subst}
use itmmorgue.Base.{
  ℕ, ◌≡◌, refl, ◌∙◌, ap, sym, get_elem?, Bool, true, false, Option, none, some, if◌then◌else◌,
  Result, or_undefined, ok, Stop, stop, ◌>>=◌, >>=-eq-ok, arith,
}
use itmmorgue.Player.{Player, Roster, player_at}
use itmmorgue.Chat.{TextBuf}
use itmmorgue.World.{World, Connection, connection_at, put_connection}
use itmmorgue.Server.Chain.Segment.{links}
use itmmorgue.Server.System.Sound.{
  Sound, SoundRoster, SoundQueue, SoundCore, core, put_connection-queues, queue_at,
}

pub record Steady (w w' : World) : Type 0 where
  pub same_links : (b : ℕ) → links w'.connections b ≡ links w.connections b
  pub same_first : w'.first_connection ≡ w.first_connection
  pub same_last : w'.last_connection ≡ w.last_connection
  pub keeps_sound : Sound w → Sound w'

pub Steady-refl : (w : World) → Steady w w
Steady-refl w = record {
  same_links = λ b. refl;
  same_first = refl;
  same_last = refl;
  keeps_sound = λ s. s;
}

-- New players and another phase.
pub roster_only :
    (w : World) (r : Roster) (n : ℕ)
    → (SoundRoster w.roster → SoundRoster r)
    → Steady w (record w { roster = r; start = n })
roster_only w r n h = record {
  same_links = λ b. refl;
  same_first = refl;
  same_last = refl;
  keeps_sound = λ s. record { roster = h s.roster; queues = s.queues };
}

pub chat_only : (w : World) (chat : TextBuf) → Steady w (record w { schat = chat })
chat_only w chat = record {
  same_links = λ b. refl;
  same_first = refl;
  same_last = refl;
  keeps_sound = λ s. record { roster = s.roster; queues = s.queues };
}

pub Steady-trans : {u v w : World} → Steady u v → Steady v w → Steady u w
Steady-trans s t = record {
  same_links = λ b. t.same_links b ∙ s.same_links b;
  same_first = t.same_first ∙ s.same_first;
  same_last = t.same_last ∙ s.same_last;
  keeps_sound = λ h. t.keeps_sound (s.keeps_sound h);
}

pub or_undefined-some {ℓ} : {A : Type ℓ} (o : Option A) {a : A} → or_undefined o ≡ ok a → o ≡ some a
or_undefined-some none e = cc
or_undefined-some (some b) e = cc

-- If the call succeeds, the world in its result has the list of `w`.
abbrev pub Kept {ℓ} : {A : Type ℓ} → (A → World) → World → Result A → Type ℓ
Kept f w r = (a : _) → r ≡ ok a → Steady w (f a)

module _ {ℓ} {A : Type ℓ} {w : World} where
  pub Kept-ok : (f : A → World) {a : A} → Steady w (f a) → Kept f w (ok a)
  Kept-ok f {a} s b e = subst (λ c. Steady w (f c)) (cc e) s

  pub Kept-same :
      (f : A → World) {a : A}
      → (f a).connections ≡ w.connections
      → (f a).first_connection ≡ w.first_connection
      → (f a).last_connection ≡ w.last_connection
      → (SoundRoster w.roster → SoundRoster (f a).roster)
      → Kept f w (ok a)
  Kept-same f h k l sound = Kept-ok f (record {
    same_links = λ b. ap (λ heap. links heap b) h;
    same_first = k;
    same_last = l;
    keeps_sound = λ s. record {
      roster = sound s.roster;
      queues = λ b. subst (λ o. SoundCore (core o)) (sym (ap (λ heap. heap b) h)) (s.queues b);
    };
  })

  pub Kept-stop : (f : A → World) {why : Stop} → Kept f w (stop why)
  Kept-stop f b e = absurd (cc e)

module _ {ℓ} {A : Type ℓ} {f : A → World} {w : World} where
  pub Kept-if :
      (b : Bool) {x y : Result A} → Kept f w x → Kept f w y → Kept f w (if b then x else y)
  Kept-if true h k = h
  Kept-if false h k = k

  pub Kept-elim :
      (b : Bool) {x y : Result A}
      → Kept f w x
      → Kept f w y
      → Kept f w (elim b [ true ↦ x | false ↦ y ])
  Kept-elim true h k = h
  Kept-elim false h k = k

  pub Kept-option {κ} :
      {V : Type κ} (o : Option V) {x : Result A} {y : V → Result A}
      → Kept f w x
      → ((v : V) → Kept f w (y v))
      → Kept f w (elim o [ none ↦ x | some v ↦ y v ])
  Kept-option none h k = h
  Kept-option (some v) h k = k v

  -- A part of a chain that only computes a value, and one that is about the world.
  pub Kept-value {κ} :
      {V : Type κ} (r : Result V) (k : V → Result A)
      → ((v : V) → Kept f w (k v))
      → Kept f w (r >>= k)
  Kept-value r k t c e = let (v, e₁, e₂) = >>=-eq-ok r k e in t v c e₂

  pub Kept-eq {κ} :
      {V : Type κ} (r : Result V) (k : V → Result A)
      → ((v : V) → r ≡ ok v → Kept f w (k v))
      → Kept f w (r >>= k)
  Kept-eq r k t c e = let (v, e₁, e₂) = >>=-eq-ok r k e in t v e₁ c e₂

  pub Kept-bind {κ} :
      {V : Type κ} (g : V → World) (r : Result V) (k : V → Result A)
      → Kept g w r
      → ((v : V) → Kept f (g v) (k v))
      → Kept f w (r >>= k)
  Kept-bind g r k h t c e = let (v, e₁, e₂) = >>=-eq-ok r k e in Steady-trans (h v e₁) (t v c e₂)

-- A call on a world with the same list.
pub Kept-from {ℓ} :
    {A : Type ℓ} (f : A → World) {w v : World} {r : Result A} → Steady w v → Kept f v r → Kept f w r
Kept-from f s h a e = Steady-trans s (h a e)

-- A connection that is written back with its two pointers as they were.
pub put_connection-Steady :
    (w : World) (a : ℕ) (c c' : Connection)
    → w.connections a ≡ some c
    → c'.prev ≡ c.prev
    → c'.next ≡ c.next
    → (SoundQueue c.mqueueptr → SoundQueue c'.mqueueptr)
    → Steady w (put_connection w a c')
put_connection-Steady w a c c' at p n q = record {
  same_links = λ b. ground (arith, at, p, n);
  same_first = refl;
  same_last = refl;
  keeps_sound = λ s. record {
    roster = s.roster;
    queues = put_connection-queues w a c' (q (queue_at w a c at s.queues)) s.queues;
  };
}

pub Kept-connection {ℓ} :
    {A : Type ℓ} {f : A → World} {w : World} (v : World) (a : ℕ) (k : Connection → Result A)
    → ((c : Connection) → v.connections a ≡ some c → Kept f w (k c))
    → Kept f w (connection_at v a >>= k)
unfolding connection_at
Kept-connection v a k t b e =
    let (c, e₁, e₂) = >>=-eq-ok (or_undefined (v.connections a)) k e in
    t c (or_undefined-some (v.connections a) e₁) b e₂

pub Kept-player {ℓ} :
    {A : Type ℓ} {f : A → World} {w : World} (r : Roster) (id : ℕ) (k : Player → Result A)
    → ((p : Player) → get_elem? r.players id ≡ some p → Kept f w (k p))
    → Kept f w (player_at r id >>= k)
unfolding player_at
Kept-player r id k t b e =
    let (p, e₁, e₂) = >>=-eq-ok (or_undefined (get_elem? r.players id)) k e in
    t p (or_undefined-some (get_elem? r.players id) e₁) b e₂

-- A test whose answer is of use.
pub Kept-test {ℓ} :
    {A : Type ℓ} {f : A → World} {w : World} (b : Bool) {x y : Result A}
    → (b ≡ true → Kept f w x)
    → Kept f w y
    → Kept f w (elim b [ true ↦ x | false ↦ y ])
Kept-test true h k = h refl
Kept-test false h k = k

-- ===== src/Player/Receive.antt =====
-- What a client makes of the two messages about the players: `c_receive_players_full` and
-- `c_receive_players` of src/player.c.
use itmmorgue.Base.{
  ap, ℕ, zero, suc, ◌+◌, ◌≤◌, ◌<◌, ◌≡◌, refl, ◌∙◌, arith, Option, none, some, List, leb, ltb, ◌&&◌,
  if◌then◌else◌, Result, ok, or_undefined, ◌>>=◌, get_elem?, length, length-set, get_elem?-set,
  get_elem?-of_lt,
}
use itmmorgue.Player.{Player, Roster, max_players, player_at, put_player}

-- `players_full_mbuf_t`. The index `self` is a byte of memory from malloc until it is written.
pub record PlayersFull : Type 0 where
  pub players : List Player
  pub self : Option ℕ
  pub players_len : ℕ

-- `struct c_player` and `players_mbuf_t`
pub record CPlayer : Type 0 where
  pub color : ℕ
  pub y : ℕ
  pub x : ℕ

pub record Players : Type 0 where
  pub players : List CPlayer
  pub self : Option ℕ
  pub players_len : ℕ

module _ {A : Type 0} (update : A → Player → Player) where
  -- `for (players_len = i; players_len < i + n; players_len++) players[players_len] = ...`
  unfoldable pub receive_from : ℕ → ℕ → List A → Roster → Result Roster
  receive_from zero i src r = ok (record r { players_len = i })
  receive_from (suc n) i src r = do
    a ← or_undefined (get_elem? src i)
    p ← player_at r i
    receive_from n (i + 1) src (put_player r i (update a p))

  -- The guard, `player_self`, and the loop. A null buffer is `none`.
  unfoldable pub receive : List A → Option ℕ → ℕ → Roster → Result Roster
  unfolding receive_from
  receive src self len r =
      if leb max_players len
      then ok r
      else do me ← or_undefined self; receive_from len 0 src (record r { player_self = me })

-- The long message replaces the whole player.
abbrev pub replaced : Player → Player → Player
replaced p _ = p

unfoldable pub c_receive_players_full : Roster → Option PlayersFull → Result Roster
c_receive_players_full r none = ok r
c_receive_players_full r (some m) = receive replaced m.players m.self m.players_len r

-- The three fields that the short message carries.
abbrev pub refreshed : CPlayer → Player → Player
refreshed c p = record p { color = c.color; y = c.y; x = c.x }

unfoldable pub c_receive_players : Roster → Option Players → Result Roster
c_receive_players r none = ok r
c_receive_players r (some m) = receive refreshed m.players m.self m.players_len r

module _ {A : Type 0} (update : A → Player → Player) where
  -- What the loop leaves at index `j`.
  abbrev pub received : Option A → Option Player → Option Player
  received (some a) (some p) = some (update a p)
  received _ q = q

  pub record Received (n i : ℕ) (src : List A) (r r' : Roster) : Type 0 where
    pub len_is : r'.players_len ≡ i + n
    pub self_is : r'.player_self ≡ r.player_self
    pub size_is : length r'.players ≡ length r.players
    pub slots_are :
        (j : ℕ)
        → get_elem? r'.players j ≡ (
            if leb i j && ltb j (i + n)
            then received (get_elem? src j) (get_elem? r.players j)
            else get_elem? r.players j)

  receive_from-Received :
      (n i : ℕ) (src : List A) (r : Roster)
      → i + n ≤ length src
      → i + n ≤ length r.players
      → (r' : Roster) × (receive_from update n i src r ≡ ok r') × Received n i src r r'
  unfolding receive_from player_at
  receive_from-Received zero i src r hs hr = (
    record r { players_len = i },
    refl,
    record { len_is = omega arith; self_is = refl; size_is = refl; slots_are = λ j. ground arith },
  )
  receive_from-Received (suc n) i src r hs hr =
      let (a, ea) = get_elem?-of_lt src i (omega arith) in
      let (p, ep) = get_elem?-of_lt r.players i (omega arith) in
      let s = put_player r i (update a p) in
      let size : length s.players ≡ length r.players = length-set r.players i (update a p) in
      let (r', e, v) = receive_from-Received n (i + 1) src s (omega arith) (omega arith) in
      (
        r',
        rw (ea, ep) e,
        record {
          len_is = omega (arith, v.len_is);
          self_is = v.self_is;
          size_is = v.size_is ∙ size;
          slots_are = λ j. ground (arith, v.slots_are j, get_elem?-set r.players i j (update a p));
        },
      )

-- What a client holds after it took a message in: the sender's index and count, the first `len`
-- slots from the message, and every other slot as it was.
pub record Taken (me len : ℕ) (news : ℕ → Option Player) (r r' : Roster) : Type 0 where
  pub self_is : r'.player_self ≡ me
  pub len_is : r'.players_len ≡ len
  pub slots_are :
      (j : ℕ) → get_elem? r'.players j ≡ (if ltb j len then news j else get_elem? r.players j)

module _ {A : Type 0} (update : A → Player → Player) where
  abbrev pub news_of : List A → Roster → ℕ → Option Player
  news_of src r j = received update (get_elem? src j) (get_elem? r.players j)

  receive-Taken :
      (src : List A) (me len : ℕ) (r : Roster)
      → len < max_players
      → len ≤ length src
      → length r.players ≡ max_players
      → (r' : Roster) × (receive update src (some me) len r ≡ ok r')
        × Taken me len (news_of src r) r r'
  unfolding receive
  receive-Taken src me len r lt hs hr =
      let (r', e, v) =
        receive_from-Received update len 0 src (record r { player_self = me }) (omega arith)
          (omega arith) in
      (
        r',
        ground arith,
        record {
          self_is = v.self_is;
          len_is = omega (arith, v.len_is);
          slots_are = λ j. ground (arith, v.slots_are j);
        },
      )

  -- With five players or more in it a message is ignored, and so is a null one.
  receive_ignored :
      (src : List A) (self : Option ℕ) (len : ℕ) (r : Roster)
      → max_players ≤ len
      → receive update src self len r ≡ ok r
  unfolding receive
  receive_ignored src self len r h = ground arith

-- A player, with its colour and position from a message.
abbrev pub recoloured : Option CPlayer → Option Player → Option Player
recoloured (some c) (some p) = some (record {
  color = c.color;
  y = c.y;
  x = c.x;
  nickname = p.nickname;
  ready = p.ready;
  connected = p.connected;
  start = p.start;
  connection = p.connection;
  ev_queue = p.ev_queue;
})
recoloured _ q = q

refreshed-news : (c : Option CPlayer) (p : Option Player) → received refreshed c p ≡ recoloured c p
refreshed-news none p = refl
refreshed-news (some c) none = refl
refreshed-news (some c) (some p) = refl

replaced-news :
    (src : List Player) (r : Roster) (j : ℕ)
    → j < length src
    → length r.players ≡ max_players
    → j < max_players
    → news_of replaced src r j ≡ get_elem? src j
replaced-news src r j hs hr lt =
    let (a, ea) = get_elem?-of_lt src j (omega arith) in
    let (p, ep) = get_elem?-of_lt r.players j (omega arith) in rw (ea, ep)

module _ (r : Roster) (hr : length r.players ≡ max_players) where
  pub c_receive_players_full-Taken :
      (m : PlayersFull) (me : ℕ)
      → m.self ≡ some me
      → m.players_len < max_players
      → m.players_len ≤ length m.players
      → (r' : Roster) × (c_receive_players_full r (some m) ≡ ok r')
        × Taken me m.players_len (λ j. get_elem? m.players j) r r'
  unfolding c_receive_players_full
  c_receive_players_full-Taken m me s lt hm =
      let (r', e, v) = receive-Taken replaced m.players me m.players_len r lt hm hr in
      (
        r',
        rw s e,
        record {
          self_is = v.self_is;
          len_is = v.len_is;
          slots_are = λ j. ground (arith, v.slots_are j, replaced-news m.players r j);
        },
      )

  -- With an array of five slots, and a message with an index and fewer than five players, all of
  -- them in its array: the client has the message's index and number; each player that counts has
  -- the colour, the row and the column that the message has for it, and its other fields as they
  -- were; the other slots stay.
  pub c_receive_players-Taken :
      (m : Players) (me : ℕ)
      → m.self ≡ some me
      → m.players_len < max_players
      → m.players_len ≤ length m.players
      → (r' : Roster) × (c_receive_players r (some m) ≡ ok r')
        × Taken me m.players_len
            (λ j. recoloured (get_elem? m.players j) (get_elem? r.players j))
            r
            r'
  unfolding c_receive_players
  c_receive_players-Taken m me s lt hm =
      let (r', e, v) = receive-Taken refreshed m.players me m.players_len r lt hm hr in
      (
        r',
        rw s e,
        record {
          self_is = v.self_is;
          len_is = v.len_is;
          slots_are = λ j.
              v.slots_are j
              ∙ ap (λ news. if ltb j m.players_len then news else get_elem? r.players j)
                  (refreshed-news (get_elem? m.players j) (get_elem? r.players j));
        },
      )

pub c_receive_players_full_ignored :
    (r : Roster) (m : PlayersFull)
    → max_players ≤ m.players_len
    → c_receive_players_full r (some m) ≡ ok r
unfolding c_receive_players_full
c_receive_players_full_ignored r m h = receive_ignored replaced m.players m.self m.players_len r h

-- ===== src/Player/Init.antt =====
-- `player_init` of src/player.c: where it puts a new player, and that it does not look whether there
-- is room.
use itmmorgue.Base.{
  sym, ap, [], ◌∷◌, same_ok, append-nil, leb, true, ℕ, ◌+◌, ◌≤◌, ◌<◌, ◌≡◌, refl, ◌∙◌, arith, some,
  ◌++◌, ◌==◌, if◌then◌else◌, ok, stop, undefined, get_elem?, length, length-set, take, drop,
  replicate, length-take, length-drop, length-append, length-replicate, get_elem?-of_le,
  get_elem?-of_lt, get_elem?-set, Bytes, All, All-get_elem?, All-set,
}
use itmmorgue.Player.{
  Player, Roster, strncpy, player_init, player_at, put_player, max_players, player_name_maxlen,
}

-- The array has its five slots, each name its 32 bytes, and at most five players count.
pub record IsValid (r : Roster) : Type 0 where
  pub slots : length r.players ≡ max_players
  pub len_in : r.players_len ≤ max_players
  pub names : All (λ p. length p.nickname ≡ player_name_maxlen) r.players

-- `strncpy` fills exactly `n` bytes, and so keeps the size of the array.
pub length-strncpy :
    (dst src : Bytes) (n : ℕ) {out : Bytes} → strncpy dst src n ≡ ok out → length out ≡ length dst
unfolding strncpy
length-strncpy dst src n e = ground (
  arith,
  length-append (take n (src ++ replicate n 0)) (drop n dst),
  length-take n (src ++ replicate n 0),
  length-append src (replicate n 0),
  length-replicate {A = ℕ} n 0,
  length-drop n dst,
)

strncpy-fits :
    (dst src : Bytes) (n : ℕ) → n ≤ length dst → (out : Bytes) × (strncpy dst src n ≡ ok out)
unfolding strncpy
strncpy-fits dst src n h = (take n (src ++ replicate n 0) ++ drop n dst, ground arith)

nothing_left : (s : Bytes) → length s ≡ 0 → s ≡ []
nothing_left [] e = refl
nothing_left (c ∷ s) e = absurd (omega arith)

-- Where a copy fills its destination, nothing of that is left.
strncpy-whole :
    (dst src out : Bytes)
    → length dst ≡ player_name_maxlen
    → strncpy dst src player_name_maxlen ≡ ok out
    → out ≡ take player_name_maxlen (src ++ replicate player_name_maxlen 0)
unfolding strncpy
strncpy-whole dst src out long e =
    let fits : leb player_name_maxlen (length dst) ≡ true = ground (arith, long) in
    let nothing : drop player_name_maxlen dst ≡ [] =
      nothing_left (drop player_name_maxlen dst)
        (length-drop player_name_maxlen dst ∙ omega (arith, long)) in
    sym (same_ok (rw fits at e))
    ∙ ap (◌++◌ (take player_name_maxlen (src ++ replicate player_name_maxlen 0))) nothing
    ∙ append-nil (take player_name_maxlen (src ++ replicate player_name_maxlen 0))

-- What `player_init` leaves in the slot that it takes: the name is cut to 32 bytes or filled up with NULs.
pub record Fresh (start color connection : ℕ) (nickname : Bytes) (old p : Player) : Type 0 where
  pub at_connection : p.connection ≡ some connection
  pub has_color : p.color ≡ color
  pub has_name : p.nickname ≡ take player_name_maxlen (nickname ++ replicate player_name_maxlen 0)
  pub not_ready : p.ready ≡ 0
  pub not_started : p.start ≡ 0
  pub at_y : p.y ≡ (if start == 3 then old.y else 8)
  pub at_x : p.x ≡ (if start == 3 then old.x else 48)
  pub same_connected : p.connected ≡ old.connected
  pub same_queue : p.ev_queue ≡ old.ev_queue

module _ (start color connection : ℕ) (nickname : Bytes) where
  -- The new player takes the first slot that does not count, and every other slot stays.
  pub record Takes (r : Roster) (id : ℕ) (r' : Roster) : Type 0 where
    pub id_is : id ≡ r.players_len
    pub one_more : r'.players_len ≡ r.players_len + 1
    pub old : Player
    pub new : Player
    pub old_at : get_elem? r.players id ≡ some old
    pub fresh : Fresh start color connection nickname old new
    pub slots_are :
        (j : ℕ) → get_elem? r'.players j ≡ (if j == id then some new else get_elem? r.players j)
    pub valid : IsValid r'

  abbrev started : Roster → Player → Bytes → Player
  started r old name = record old {
    connection = some connection;
    color = color;
    nickname = name;
    ready = 0;
    start = 0;
    y = if start == 3 then old.y else 8;
    x = if start == 3 then old.x else 48;
  }

  -- In a well-formed array with fewer than five players, `player_init` succeeds: the new player
  -- takes the first slot that does not count, with the colour, the connection and the name that it
  -- is given, the name cut or filled with NULs to 32 bytes; it is not ready and not due for data,
  -- and at row 8 and column 48, or in the resurrection phase at the slot's position. Every other
  -- slot stays, and the array is well formed.
  pub player_init-Takes :
      (r : Roster)
      → IsValid r
      → r.players_len < max_players
      → (id : ℕ) × (r' : Roster) × (player_init r start color nickname connection ≡ ok (id, r'))
        × Takes r id r'
  unfolding player_init player_at
  player_init-Takes r v lt =
      let n = r.players_len in
      let (old, e) = get_elem?-of_lt r.players n (omega arith) in
      let long : length old.nickname ≡ player_name_maxlen = All-get_elem? _ r.players n v.names e in
      let (name, c) = strncpy-fits old.nickname nickname player_name_maxlen (omega arith) in
      let new = started r old name in
      (
        n,
        record (put_player r n new) { players_len = n + 1 },
        rw (e, c),
        record {
          id_is = refl;
          one_more = refl;
          old = old;
          new = new;
          old_at = e;
          fresh = record {
            at_connection = refl;
            has_color = refl;
            has_name = strncpy-whole old.nickname nickname name long c;
            not_ready = refl;
            not_started = refl;
            at_y = refl;
            at_x = refl;
            same_connected = refl;
            same_queue = refl;
          };
          slots_are = λ j. get_elem?-set r.players n j new (omega arith);
          valid = record {
            slots = length-set r.players n new ∙ v.slots;
            len_in = omega arith;
            names =
                All-set _ r.players n v.names (length-strncpy old.nickname nickname 32 c ∙ long);
          };
        },
      )

  -- In a well-formed array with five players, `player_init` writes past the end of the array.
  pub player_init_full :
      (r : Roster)
      → IsValid r
      → r.players_len ≡ max_players
      → player_init r start color nickname connection ≡ stop undefined
  unfolding player_init player_at
  player_init_full r v e = rw (get_elem?-of_le r.players r.players_len (omega arith))

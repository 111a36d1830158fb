-- ===== src/Player.antt =====
-- src/player.h and src/player.c: the players, their moves, and the array that holds them. What is sent
-- of them to the clients is in Server.Send, and what a client receives is the child Receive.
pub mod Moves
pub mod Init
pub mod Receive
mod Tests
use Prim.Native.Nat.{bit_xor}
use itmmorgue.Base.{
  ℕ, ◌+◌, ◌-◌, ◌%◌, ◌^◌, ◌<◌, Bool, Option, none, some, List, [], ◌∷◌, ◌++◌, ◌==◌, leb, ltb,
  if◌then◌else◌, Result, ok, stop, panic, undefined, invalid_direction, or_undefined, ◌>>=◌,
  get_elem?, set, take, drop, length, replicate, Bytes, codes,
}
use itmmorgue.Keyboard.{
  k_move_left, k_move_right, k_move_up, k_move_down, k_move_left_up, k_move_right_up,
  k_move_left_down, k_move_right_down,
}

abbrev pub max_players : ℕ
max_players = 5

abbrev pub player_name_maxlen : ℕ
player_name_maxlen = 32

-- Two of `enum colors`: the one of a new player, and the one that marks a dead player by xor.
abbrev pub l_yellow : ℕ
l_yellow = 9

abbrev pub l_black : ℕ
l_black = 13

-- `event_t`
pub data Event : Type 0 where
  ev_none ev_wait ev_move : Event

-- `player_move_t`
pub record PlayerMove : Type 0 where
  pub direction : ℕ
  pub player_id : ℕ

-- `event_queue_t`, without its mutex. A null `event_args` is `none`.
pub record EventQueue : Type 0 where
  pub event : Event
  pub event_args : Option PlayerMove

-- `player_t`. `connection` is the pointer, by its address; a null one is `none`.
pub record Player : Type 0 where
  pub color : ℕ
  pub y : ℕ
  pub x : ℕ
  pub nickname : Bytes
  pub ready : ℕ
  pub connected : ℕ
  pub start : ℕ
  pub connection : Option ℕ
  pub ev_queue : EventQueue

-- The globals of src/player.c: `players` has room for `max_players`, and the first `players_len`
-- count.
pub record Roster : Type 0 where
  pub players : List Player
  pub players_len : ℕ
  pub player_self : ℕ
  pub players_total : ℕ

-- uint16_t `++` and `--`
abbrev pub inc16 : ℕ → ℕ
inc16 n = (n + 1) % 2 ^ 16

abbrev pub dec16 : ℕ → ℕ
dec16 n = (n + 2 ^ 16 - 1) % 2 ^ 16

-- The switch of `player_move`, on the player that moves.
unfoldable pub moved : ℕ → Player → Result Player
moved d p =
    if d == k_move_left
    then ok (record p { x = dec16 p.x })
    else if d == k_move_right
    then ok (record p { x = inc16 p.x })
    else if d == k_move_up
    then ok (record p { y = dec16 p.y })
    else if d == k_move_down
    then ok (record p { y = inc16 p.y })
    else if d == k_move_left_up
    then ok (record p { y = dec16 p.y; x = dec16 p.x })
    else if d == k_move_right_up
    then ok (record p { y = dec16 p.y; x = inc16 p.x })
    else if d == k_move_left_down
    then ok (record p { y = inc16 p.y; x = dec16 p.x })
    else if d == k_move_right_down
    then ok (record p { y = inc16 p.y; x = inc16 p.x })
    else stop (panic invalid_direction)

-- `players[id]`; an index outside the array is undefined.
unfoldable pub player_at : Roster → ℕ → Result Player
player_at r id = or_undefined (get_elem? r.players id)

abbrev pub put_player : Roster → ℕ → Player → Roster
put_player r id p = record r { players = set r.players id p }

unfoldable pub player_move : Roster → PlayerMove → Result Roster
player_move r move = do
  p ← player_at r move.player_id
  p' ← moved move.direction p
  ok (put_player r move.player_id p')

-- strncpy(3) into an array: the string, NULs up to `n`, and the rest of the array as it was.
unfoldable pub strncpy : Bytes → Bytes → ℕ → Result Bytes
strncpy dst src n =
    if leb n (length dst) then ok (take n (src ++ replicate n 0) ++ drop n dst) else stop undefined

-- `player_init`. The position is left alone in the resurrection phase, and so are `connected` and the
-- event queue in every phase.
unfoldable pub player_init : Roster → ℕ → ℕ → Bytes → ℕ → Result (ℕ × Roster)
player_init r start color nickname connection = do
  p ← player_at r r.players_len
  name ← strncpy p.nickname nickname player_name_maxlen
  let fresh = record p {
    connection = some connection;
    color = color;
    nickname = name;
    ready = 0;
    start = 0;
    y = if start == 3 then p.y else 8;
    x = if start == 3 then p.x else 48;
  }
  ok (r.players_len, record (put_player r r.players_len fresh) { players_len = r.players_len + 1 })

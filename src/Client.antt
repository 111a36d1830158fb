-- ===== src/Client.antt =====
-- The client of src/client.c: what its worker thread sends and takes in, and what its main loop does with a
-- key. Sockets, select(2) and curses are parameters or answers; the loops of the menu and of an open window
-- are left to Menu and Chat.
pub mod Keys
pub mod Arrive
pub mod Delivered
pub mod Chatting
mod Tests
mod WireTests
use itmmorgue.Base.{
  ℕ, zero, suc, ◌+◌, ◌-◌, ◌/◌, ◌%◌, ◌^◌, Bool, true, false, Option, none, some, List, [], ◌∷◌, ◌++◌,
  ◌==◌, if◌then◌else◌, not, Result, ok, stop, panic, undefined, out_of_fuel, or_undefined, ◌>>=◌,
  Bytes, codes, c_string, length, drop, get_elem?, set, sending_in_worker, server_disconnected,
}
use itmmorgue.Protocol.Types.{
  Mbuf, MsgType, put_chat, put_sysmsg, put_area, put_players_full, put_players, put_level,
  report_nickname, move_player,
}
use itmmorgue.Protocol.Mqueue.{Mqueue, mqueue_put, mqueue_get}
use itmmorgue.Protocol.Wire.{bytes_of}
use itmmorgue.Config.Values.{ℤ, pos, negsuc}
use itmmorgue.Config.Entries.{Lookup, conf_ival, conf_sval}
use itmmorgue.Player.{Roster}
use itmmorgue.Player.Receive.{c_receive_players_full, c_receive_players}
use itmmorgue.Chat.{TextBuf, ClientChat, c_chat_add, c_sysmsg_add}
use itmmorgue.Level.{TileBlock}
use itmmorgue.Area.{c_area_update}
use itmmorgue.Area.Levels.{CLevels, c_level_add, area_of, put_area_of}
use itmmorgue.World.{Payload, text, level, area, players_full, players, nothing}
use itmmorgue.Windows.Ints.{◌+ℤ◌, int}

-- The globals that the two threads of the client share. A payload that the client sends is a block of bytes.
pub record Game : Type 0 where
  pub c2s_queue : Mqueue Bytes
  pub server_connected : Bool
  pub end : Bool
  pub roster : Roster
  pub chat : ClientChat
  pub sysmsg : TextBuf
  pub levels : CLevels

abbrev pub outgoing : MsgType → ℕ → Bytes → Mbuf Bytes
outgoing t n p = record { type = t; version = 0; size = n; payload = p }

-- `c_send_move`: the payload is the key's number.
unfoldable pub c_send_move : Mqueue Bytes → ℕ → Result (Mqueue Bytes)
c_send_move q last_key = mqueue_put q (outgoing move_player 4 (bytes_of 4 last_key))

-- A char, from an int.
abbrev pub char_of : ℤ → ℕ
char_of (pos n) = n % 256
char_of (negsuc n) = 255 - n % 256

-- The lines of `worker` before its loop: the colour as a character, and the name. `memory` is what malloc
-- returned; with the colour that makes a NUL, its end is sent as it is.
unfoldable pub send_nickname : Lookup → Bytes → Mqueue Bytes → Result (Mqueue Bytes)
send_nickname conf memory q = do
  name ← conf_sval conf (codes "player_nickname")
  color ← conf_ival conf (codes "player_color")
  sum ← int (pos b'0' +ℤ color)
  let first = char_of sum
  let string = if first == 0 then name else first ∷ name
  mqueue_put q
      (outgoing report_nickname (length name + 2) (string ++ (0 ∷ drop (length string + 1) memory)))

-- `while (mqueue_get(&c2s_queue, &mbuf) > 0)`: the queue is emptied into the socket; `fails` tells whether
-- `send_mbuf` returns -1. The result lists what was sent.
unfoldable pub send_all :
    ℕ → (Mbuf Bytes → Bool) → Mqueue Bytes → Result (List (Mbuf Bytes) × Mqueue Bytes)
send_all zero fails q = stop out_of_fuel
send_all (suc n) fails q = do
  r ← mqueue_get q
  elim r.0 [
    | none ↦ ok ([], r.1)
    | some m ↦ elim (fails m) [
      | true ↦ stop (panic sending_in_worker)
      | false ↦ do rest ← send_all n fails r.1; ok (m ∷ rest.0, rest.1)
    ]
  ]

-- The two switches on the type: a text is used up to its NUL, a structure as what it was sent as. A payload
-- of the size 0 leaves the pointer unset.
unfoldable pub receive : Game → MsgType → Payload → Result Game
receive g put_chat (text b) = do
  str ← or_undefined (c_string b)
  chat ← c_chat_add g.chat str
  ok (record g { chat = chat })
receive g put_sysmsg (text b) = do
  str ← or_undefined (c_string b)
  sysmsg ← c_sysmsg_add g.sysmsg str
  ok (record g { sysmsg = sysmsg })
receive g put_area (area block) = do
  curr ← area_of g.levels
  cells ← c_area_update curr.max_x (block ∷ []) curr.area
  levels ← put_area_of g.levels cells
  ok (record g { levels = levels })
receive g put_players_full (players_full m) = do
  r ← c_receive_players_full g.roster (some m)
  ok (record g { roster = r })
receive g put_players (players m) = do
  r ← c_receive_players g.roster (some m)
  ok (record g { roster = r })
receive g put_level (level l) = do
  levels ← c_level_add g.levels l
  ok (record g { levels = levels })
receive g put_chat p = stop undefined
receive g put_sysmsg p = stop undefined
receive g put_area p = stop undefined
receive g put_players_full p = stop undefined
receive g put_players p = stop undefined
receive g put_level p = stop undefined
receive g t p = ok g

-- What select(2) and the reading of a header answer.
pub data Answer : Type 0 where
  select_failed timed_out closed read_error : Answer
  message : MsgType → Payload → Answer

-- The loop of `worker` from the emptied queue on; the result tells whether it goes on.
unfoldable pub answered : Game → Answer → Result (Bool × Game)
unfolding receive
answered g select_failed = stop (panic server_disconnected)
answered g timed_out = ok (true, g)
answered g closed = ok (true, record g { server_connected = false })
answered g read_error = ok (false, record g { server_connected = false })
answered g (message t p) = do g' ← receive g t p; ok (true, g')

-- One round of `worker`'s loop, its condition included.
unfoldable pub worker_round :
    ℕ → (Mbuf Bytes → Bool) → Answer → Game → Result (List (Mbuf Bytes) × Bool × Game)
unfolding send_all answered
worker_round fuel fails answer g = do
  sent ← send_all fuel fails g.c2s_queue
  r ← answered (record g { c2s_queue = sent.1 }) answer
  let goes_on = if r.0 then (if r.1.server_connected then not r.1.end else false) else false
  ok (sent.0, goes_on, r.1)

-- ===== src/Server/Round.antt =====
-- One message from its arrival on: the switches of `process_client` in src/server.c, and between them
-- the test whether the game can start.
use itmmorgue.Base.{
  ℕ, zero, suc, ◌+◌, ◌-◌, ◌%◌, ◌^◌, Bool, true, false, Option, none, some, not, ◌&&◌, ◌==◌, leb,
  if◌then◌else◌, Result, ok, stop, panic, invalid_move, or_undefined, ◌>>=◌, c_string, get_elem?,
}
use itmmorgue.Protocol.Types.{MsgType, report_nickname, get_chat, new_chat, move_player}
use itmmorgue.Keyboard.{k_move_left, k_move_right_down}
use itmmorgue.Player.{PlayerMove, ev_move, player_at}
use itmmorgue.Event.{event_player_add}
use itmmorgue.World.{World}
use itmmorgue.Server.Leave.{put}
use itmmorgue.Server.Client.{Client}
use itmmorgue.Server.Handle.{Incoming, handle_nickname, handle_get_chat, handle_new_chat}

-- `wait`, counted down by each player that is ready, for `n` players from `i` on.
unfoldable pub waiting : ℕ → ℕ → ℕ → World → Result ℕ
waiting zero i wait w = ok wait
waiting (suc n) i wait w = do
  p ← player_at w.roster i
  waiting n (i + 1) (if p.ready == 0 then wait else (wait + 2 ^ 64 - 1) % 2 ^ 64) w

-- `players[i].start = 1` for `n` players from `i` on.
unfoldable pub start_all : ℕ → ℕ → World → Result World
start_all zero i w = ok w
start_all (suc n) i w = do
  p ← player_at w.roster i
  start_all n (i + 1) (put w i (record p { start = 1 }))

-- The lines behind `if (! start)`: the game starts when nobody is waited for.
unfoldable pub try_start : World → Result World
unfolding waiting start_all
try_start w = do
  wait ← waiting w.players_len 0 w.players_len w
  elim (wait == 0) [
    | false ↦ ok w
    | true ↦ do
      w' ← start_all w.players_len 0 (record w { start = 1 })
      ok (record w' { roster = record w'.roster { players_total = w'.players_len } })
  ]

-- `case MSG_MOVE_PLAYER` of a running game: the first byte is the key.
unfoldable pub handle_move : World → Client → Incoming → Result World
handle_move w c m = do
  key ← or_undefined (get_elem? m.payload 0)
  elim (leb k_move_left key && leb key k_move_right_down) [
    | false ↦ stop (panic invalid_move)
    | true ↦ do
      let move : PlayerMove = record { direction = key; player_id = c.id }
      r ← event_player_add w.roster c.id ev_move (some move)
      ok (record w { roster = r })
  ]

abbrev pub is_known : MsgType → Bool
is_known report_nickname = true
is_known get_chat = true
is_known new_chat = true
is_known move_player = true
is_known _ = false

-- The payload is logged as a text before it is looked at.
unfoldable pub log_payload : Incoming → Result (Unit {0})
log_payload m = if m.size == 0 then ok tt else do str ← or_undefined (c_string m.payload); ok tt

-- The first switch on the type.
unfoldable pub dispatch : ℕ → World → Client → Incoming → Result (World × Option Client)
unfolding handle_nickname handle_get_chat handle_new_chat
dispatch fuel w c m = elim m.type [
  | report_nickname ↦ handle_nickname fuel w c m
  | get_chat ↦ do w' ← handle_get_chat w c; ok (w', some c)
  | new_chat ↦ do w' ← handle_new_chat fuel w c m; ok (w', some c)
  | _ ↦ ok (w, some c)
]

-- The lines behind the first switch: waiting for the start, waiting for a missing player, or the
-- second switch, of which only the move does anything.
unfoldable pub after_dispatch : World → Client → Incoming → Result World
unfolding try_start handle_move
after_dispatch w c m =
    if w.start == 0
    then try_start w
    else if not (w.players_len == w.players_total)
    then ok w
    else elim m.type [ move_player ↦ handle_move w c m | _ ↦ ok w ]

-- One message. A type that the server does not know is skipped.
unfoldable pub handle : ℕ → World → Client → Incoming → Result (World × Option Client)
unfolding log_payload dispatch after_dispatch
handle fuel w c m = elim (is_known m.type) [
  | false ↦ ok (w, some c)
  | true ↦ do
    logged ← log_payload m
    (w₁, left) ← dispatch fuel w c m
    elim left [ none ↦ ok (w₁, none) | some c' ↦ do w₂ ← after_dispatch w₁ c' m; ok (w₂, some c') ]
]

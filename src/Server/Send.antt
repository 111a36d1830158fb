-- ===== src/Server/Send.antt =====
-- What the server queues for its clients: `send_sysmsg` of src/server.c, `s_send_players_full` and
-- `s_send_players` of src/player.c, `s_level_send` and `s_area_send` of src/levels.c.
use Prim.Native.Nat.{bit_and}
use itmmorgue.Base.{
  ℕ, Bool, true, false, ◌+◌, ◌-◌, ◌*◌, Option, none, some, List, [], ◌∷◌, map, ◌==◌, leb,
  if◌then◌else◌, Result, ok, stop, undefined, or_undefined, ◌>>=◌, length, take, get_elem?, Bytes,
}
use itmmorgue.Protocol.Types.{put_sysmsg, put_players, put_players_full, put_level, put_area}
use itmmorgue.Player.{Player, player_at, max_players}
use itmmorgue.Player.Receive.{PlayersFull, Players, CPlayer}
use itmmorgue.Level.{TileBlock}
use itmmorgue.World.{
  World, level, area, players_full, players, connection_at, enqueue, message, text_message,
}

-- `enum msg_sysmsg_type`
abbrev pub sm_chat_new_message : ℕ
sm_chat_new_message = 1

abbrev pub sm_player_joined : ℕ
sm_player_joined = 2

abbrev pub sm_player_left : ℕ
sm_player_left = 3

-- The log file is not part of the state.
abbrev pub logged : World → World
logged w = w

-- Where the mask rejects the type, the code logs that it drops the message and goes on.
unfoldable pub send_sysmsg : World → Option ℕ → ℕ → Bytes → Result World
unfolding connection_at
send_sysmsg w none type msg = ok w
send_sysmsg w (some a) type msg = do
  c ← connection_at w a
  let w' = if bit_and type c.sysmsg_mask == 0 then logged w else w
  enqueue w' a (text_message put_sysmsg msg)

-- Two pointers to connections are compared.
abbrev pub same_pointer : Option ℕ → Option ℕ → Bool
same_pointer none none = true
same_pointer (some a) (some b) = a == b
same_pointer _ _ = false

-- `if (player->connection == players[i].connection) players_mbuf->self = i`, for `n` players from
-- index `i` on: the last that fits stays.
unfoldable pub self_from : ℕ → List Player → Option ℕ → Option ℕ → Option ℕ
self_from i [] connection self = self
self_from i (p ∷ ps) connection self =
    self_from (i + 1) ps connection (if same_pointer connection p.connection then some i else self)

-- sizeof on a 64-bit machine with pthread mutexes of 40 bytes.
abbrev pub players_full_size : ℕ
players_full_size = 576

abbrev pub players_size : ℕ
players_size = 56

abbrev pub level_size : ℕ
level_size = 56

abbrev pub tile_size : ℕ
tile_size = 24

abbrev pub tileblock_size : ℕ
tileblock_size = 32

-- The players that count. The loops run to `players_len`, and past the fifth they leave the array.
unfoldable pub active : World → Result (List Player)
active w =
    if leb w.players_len max_players then ok (take w.players_len w.players) else stop undefined

-- Slots of the sent array that the loop does not reach are memory from malloc; here they are left out.
unfoldable pub s_send_players_full : World → ℕ → Result World
unfolding active self_from
s_send_players_full w id = do
  p ← player_at w.roster id
  if p.connected == 0 then ok w else do
    ps ← active w
    let snapshot : PlayersFull = record {
      players = ps;
      self = self_from 0 ps p.connection none;
      players_len = w.players_len;
    }
    a ← or_undefined p.connection
    enqueue w a (message put_players_full players_full_size (players_full snapshot))

abbrev pub short_of : Player → CPlayer
short_of p = record { color = p.color; y = p.y; x = p.x }

unfoldable pub s_send_players : World → ℕ → Result World
unfolding active self_from
s_send_players w id = do
  p ← player_at w.roster id
  if p.connected == 0 then ok w else do
    ps ← active w
    let snapshot : Players = record {
      players = map short_of ps;
      self = self_from 0 ps p.connection none;
      players_len = w.players_len;
    }
    a ← or_undefined p.connection
    enqueue w a (message put_players players_size (players snapshot))

-- The whole area in one block of single tiles.
unfoldable pub s_area_send : World → ℕ → ℕ → Result World
s_area_send w i id = do
  l ← or_undefined (get_elem? w.levels i)
  p ← player_at w.roster id
  let size = l.max_y * l.max_x
  tiles ← if leb size (length l.area) then ok (take size l.area) else stop undefined
  let block : TileBlock = record { count = size; zcount = 1; tiles = tiles }
  a ← or_undefined p.connection
  enqueue w a (message put_area (tile_size * size + (tileblock_size - tile_size)) (area block))

unfoldable pub s_level_send : World → ℕ → ℕ → Result World
s_level_send w i id = do
  l ← or_undefined (get_elem? w.levels i)
  p ← player_at w.roster id
  a ← or_undefined p.connection
  enqueue w a (message put_level level_size (level l))

-- ===== src/Server/Handle.antt =====
-- What `process_client` of src/server.c does with one message of its client. Every loop over the list
-- of the connections takes `fuel`; Chain shows how much is enough.
use Prim.Native.Nat.{bit_xor}
use itmmorgue.Base.{
  ℕ, zero, suc, ◌+◌, ◌-◌, ◌%◌, ◌^◌, Bool, true, false, ◌++◌, Option, none, some, ◌&&◌, ◌||◌, ◌==◌,
  ltb, leb, if◌then◌else◌, Result, ok, or_undefined, ◌>>=◌, Bytes, codes, c_string, same_text,
  replicate, get_elem?, drop, contains_text,
}
use itmmorgue.Protocol.Types.{MsgType, error_nickname, put_chat}
use itmmorgue.Player.{player_at, put_player, strncpy, player_name_maxlen, max_players, l_black}
use itmmorgue.Chat.{s_chat_add}
use itmmorgue.World.{World, enqueue, text_message}
use itmmorgue.Server.Send.{send_sysmsg, sm_chat_new_message, sm_player_joined, s_send_players_full}
use itmmorgue.Server.Connections.{close_connection, for_each}
use itmmorgue.Server.Leave.{put, nickname_of, player_connected_off}
use itmmorgue.Server.Client.{Client}

-- A message from the client. `payload` is the block that `size` bytes were read into; for the size 0 it
-- is empty, and the code's pointer is then not set.
pub record Incoming : Type 0 where
  pub type : MsgType
  pub size : ℕ
  pub payload : Bytes

-- The client leaves: its player is off, its connection closed, and the thread ends.
unfoldable pub leave : World → Client → Result (World × Option Client)
leave w c = do
  w₁ ← player_connected_off w c.id
  w₂ ← close_connection w₁ (some c.connection)
  ok (w₂, none)

-- `s_send_players_full(players + i)` for `n` players from `i` on.
unfoldable pub send_all_full : ℕ → ℕ → World → Result World
send_all_full zero i w = ok w
send_all_full (suc n) i w = do w' ← s_send_players_full w i; send_all_full n (i + 1) w'

-- What the loop that handles reconnects does to a dead player `i` of the same name: it takes the
-- connection of player `id`, whose slot is given up. The writes go through the array one by one.
unfoldable pub revive : World → ℕ → ℕ → Result World
revive w id i = do
  p ← player_at w.roster i
  me ← player_at w.roster id
  let up = record p { connection = me.connection; connected = 1; color = bit_xor p.color l_black }
  let r₁ = put_player w.roster i up
  old ← player_at r₁ id
  let r₂ = put_player r₁ id (record old { nickname = replicate player_name_maxlen 0 })
  let len = (r₂.players_len + 2 ^ 64 - 1) % 2 ^ 64
  new ← player_at r₂ i
  let r₃ = put_player r₂ i (record new { start = 1 })
  ok (record w { roster = record r₃ { players_len = len; players_total = len } })

-- The loop that handles reconnects, for at most `n` rounds from player `i` on. It goes on after a
-- player was found, with the new `id`.
unfoldable pub resurrect : ℕ → ℕ → Bytes → World → ℕ → Result (World × ℕ)
unfolding revive
resurrect zero i name w id = ok (w, id)
resurrect (suc n) i name w id = elim ((w.start == 3) && ltb i w.players_len) [
  | false ↦ ok (w, id)
  | true ↦ do
    p ← player_at w.roster i
    elim (p.connected == 0) [
      | false ↦ resurrect n (i + 1) name w id
      | true ↦ do
        nick ← or_undefined (c_string p.nickname)
        elim (same_text nick name) [
          | false ↦ resurrect n (i + 1) name w id
          | true ↦ do w' ← revive w id i; resurrect n (i + 1) name w' i
        ]
    ]
]

-- A nickname that does not fit is answered and ends the client.
unfoldable pub refuse_nickname : World → Client → Result (World × Option Client)
unfolding leave
refuse_nickname w c = do
  w₁ ← enqueue w c.connection (text_message error_nickname (codes "Nickname is too long"))
  leave w₁ c

unfoldable pub join : ℕ → World → Client → Bytes → ℕ → Result (World × Option Client)
join fuel w c payload size = do
  first ← or_undefined (get_elem? payload 0)
  name ← or_undefined (c_string (drop 1 payload))
  p ← player_at w.roster c.id
  let w₁ = put w c.id (record p { color = (first + 2 ^ 32 - b'0') % 2 ^ 32 })
  (w₂, id) ← resurrect (max_players + 1) 0 name w₁ c.id
  p' ← player_at w₂.roster id
  nick ← strncpy p'.nickname name size
  let w₃ = put w₂ id (record p' { nickname = nick })
  shown ← nickname_of w₃ id
  let msg = codes "Player " ++ (shown ++ codes " has found his place in the world!\n")
  w₄ ← for_each fuel (λ v a. send_sysmsg v (some a) sm_player_joined msg) w₃.first_connection w₃
  w₅ ← send_all_full w₄.players_len 0 w₄
  ok (w₅, some (record c { id = id }))

-- `case MSG_REPORT_NICKNAME`
unfoldable pub handle_nickname : ℕ → World → Client → Incoming → Result (World × Option Client)
unfolding refuse_nickname join
handle_nickname fuel w c m =
    if leb (player_name_maxlen + 1) m.size
    then refuse_nickname w c
    else join fuel w c m.payload m.size

-- `case MSG_GET_CHAT`
unfoldable pub handle_get_chat : World → Client → Result World
handle_get_chat w c = enqueue w c.connection (text_message put_chat w.schat.string)

-- The body of the loop of `case MSG_NEW_CHAT`
unfoldable pub deliver : Bytes → World → ℕ → Result World
deliver str w a = do
  w' ← enqueue w a (text_message put_chat str)
  send_sysmsg w' (some a) sm_chat_new_message (codes "New message in your chat!\n")

abbrev pub asks_start : Bytes → Bool
asks_start str = contains_text (codes "!start\n") str || contains_text (codes "!s\n") str

-- A message of the chat: it is added to the history, and delivered.
unfoldable pub say : ℕ → World → Bytes → Result World
say fuel w str = do
  chat ← s_chat_add w.schat str
  let w₁ = record w { schat = chat }
  for_each fuel (deliver str) w₁.first_connection w₁

-- The player is ready for the game, and everybody is told.
unfoldable pub vote_start : World → Client → Result World
vote_start w c = do
  p ← player_at w.roster c.id
  let w₁ = put w c.id (record p { ready = 1 })
  send_all_full w₁.players_len 0 w₁

-- `case MSG_NEW_CHAT`
unfoldable pub handle_new_chat : ℕ → World → Client → Incoming → Result World
handle_new_chat fuel w c m = do
  str ← or_undefined (c_string m.payload)
  elim ((w.start == 0) && asks_start str) [ true ↦ vote_start w c | false ↦ say fuel w str ]

-- ===== src/World.antt =====
-- What the threads of the server share: the players, the connections on the heap and the list through
-- them, the chat, and the phase of the game (src/server.c, src/server.h, src/connection.h).
use itmmorgue.Base.{
  ℕ, ◌+◌, Option, some, List, [], ◌∷◌, ◌++◌, ◌==◌, if◌then◌else◌, Result, ok, or_undefined, ◌>>=◌,
  length, Bytes,
}
use itmmorgue.Protocol.Types.{Mbuf, MsgType}
use itmmorgue.Protocol.Mqueue.{Mqueue, mqueue_put}
use itmmorgue.Player.{Roster}
use itmmorgue.Player.Receive.{PlayersFull, Players}
use itmmorgue.Chat.{TextBuf}
use itmmorgue.Level.{Level, TileBlock}

-- What a payload pointer leads to. A text is a buffer with its NUL.
pub data Payload : Type 0 where
  nothing : Payload
  text : Bytes → Payload
  level : Level → Payload
  area : TileBlock → Payload
  players_full : PlayersFull → Payload
  players : Players → Payload

-- `connection_t`, without its address, thread and mutex. The queue is memory from malloc, `none`, until
-- the connection's own thread initialises it.
pub record Connection : Type 0 where
  pub socket : ℕ
  pub sysmsg_mask : ℕ
  pub mqueueptr : Option (Mqueue Payload)
  pub prev : Option ℕ
  pub next : Option ℕ

-- `connections` is the heap: an address holds a live connection, or `none`.
pub record World : Type 0 where
  pub roster : Roster
  pub open roster use *
  pub start : ℕ
  pub connections : ℕ → Option Connection
  pub first_connection : Option ℕ
  pub last_connection : Option ℕ
  pub schat : TextBuf
  pub levels : List Level

abbrev pub update {ℓ} : {A : Type ℓ} (heap : ℕ → A) (a : ℕ) (new : A) → ℕ → A
update heap a new b = if b == a then new else heap b

abbrev pub put_connection : World → ℕ → Connection → World
put_connection w a c = record w { connections = update w.connections a (some c) }

-- `*p`: a dangling pointer is undefined, and so is a null one.
unfoldable pub connection_at : World → ℕ → Result Connection
connection_at w a = or_undefined (w.connections a)

-- `mqueue_put(p->mqueueptr, ...)`
unfoldable pub enqueue : World → ℕ → Mbuf Payload → Result World
unfolding connection_at
enqueue w a m = do
  c ← connection_at w a
  q ← or_undefined c.mqueueptr
  q' ← mqueue_put q m
  ok (put_connection w a (record c { mqueueptr = some q' }))

-- A message that is ready to be queued. Its version is set by `mqueue_put`.
abbrev pub message : MsgType → ℕ → Payload → Mbuf Payload
message t n p = record { type = t; version = 0; size = n; payload = p }

abbrev pub text_message : MsgType → Bytes → Mbuf Payload
text_message t s = message t (length s + 1) (text (s ++ 0 ∷ []))

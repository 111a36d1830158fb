-- ===== src/Server/Client.antt =====
-- The thread that serves one client, up to what it receives: `process_client` of src/server.c. A round
-- of its loop is `handle_start`, `drain`, and what Handle does with one message.
use itmmorgue.Base.{
  ℕ, zero, suc, true, false, none, some, List, [], ◌∷◌, ◌&&◌, ◌||◌, ◌==◌, ltb, if◌then◌else◌,
  Result, ok, stop, panic, out_of_fuel, error_sending, or_undefined, ◌>>=◌, codes, replicate,
}
use itmmorgue.Protocol.Types.{Mbuf}
use itmmorgue.Protocol.Mqueue.{Mqueue, mqueue_init, mqueue_get, mqueue_size}
use itmmorgue.Protocol.Wire.{Written, failed, wrote}
use itmmorgue.Player.{player_at, put_player, player_init, l_yellow}
use itmmorgue.World.{World, Payload, connection_at, put_connection}
use itmmorgue.Server.Send.{s_send_players_full, s_level_send, s_area_send}
use itmmorgue.Server.Leave.{put}

-- The locals of the thread.
pub record Client : Type 0 where
  pub id : ℕ
  pub connection : ℕ

-- The lines before the loop.
unfoldable pub start_client : World → ℕ → Result (World × Client)
start_client w a = do
  r ← player_init w.roster w.start l_yellow (codes "bsi") a
  p ← player_at r.1 r.0
  let w₁ = record w { roster = put_player r.1 r.0 (record p { connected = 1 }) }
  c ← connection_at w₁ a
  let q : Mqueue Payload = record { buf = replicate mqueue_size none; start_position = 0; size = 0 }
  ok (
    put_connection w₁ a (record c { mqueueptr = some (mqueue_init q) }),
    record { id = r.0; connection = a },
  )

-- A client that needs the level gets it, and the phase becomes 2.
unfoldable pub handle_start : World → Client → Result World
handle_start w c = do
  p ← player_at w.roster c.id
  elim ((w.start == 1) || (ltb 0 w.start && (p.start == 1))) [
    | false ↦ ok w
    | true ↦ do
      w₁ ← s_level_send w 0 c.id
      w₂ ← s_area_send w₁ 0 c.id
      w₃ ← s_send_players_full w₂ c.id
      p' ← player_at w₃.roster c.id
      ok (record (put w₃ c.id (record p' { start = 0 })) { start = 2 })
  ]

-- `if (1 == send_mbuf(cs, &mbuf)) panic(...)`
unfoldable pub check_written : Written → Result (Unit {0})
check_written failed = ok tt
check_written (wrote k) = if k == 1 then stop (panic error_sending) else ok tt

-- `while (mqueue_get(s2c_queue, &mbuf) > 0)`: the queue is emptied into the socket, which answers by
-- `send`. The result lists what was sent.
unfoldable pub drain :
    ℕ → (Mbuf Payload → Written) → World → ℕ → Result (List (Mbuf Payload) × World)
unfolding check_written
drain zero send w a = stop out_of_fuel
drain (suc n) send w a = do
  c ← connection_at w a
  q ← or_undefined c.mqueueptr
  r ← mqueue_get q
  let w' = put_connection w a (record c { mqueueptr = some r.1 })
  elim r.0 [
    | none ↦ ok ([], w')
    | some m ↦ do done ← check_written (send m); r' ← drain n send w' a; ok (m ∷ r'.0, r'.1)
  ]

-- ===== src/Server/Leave.antt =====
-- `player_connected_off` of src/server.c: what happens when a client is gone.
use Prim.Native.Nat.{bit_xor}
use itmmorgue.Base.{
  ℕ, zero, suc, ◌+◌, ◌-◌, ◌++◌, not, ◌&&◌, ◌==◌, if◌then◌else◌, Result, ok, stop, exit_success,
  or_undefined, ◌>>=◌, Bytes, codes, c_string,
}
use itmmorgue.Player.{Player, player_at, put_player, l_black}
use itmmorgue.World.{World}
use itmmorgue.Server.Send.{send_sysmsg, sm_player_left, s_send_players_full}

abbrev pub put : World → ℕ → Player → World
put w id p = record w { roster = put_player w.roster id p }

-- `sprintf(..., "%s", players[id].nickname)` reads up to the name's NUL.
unfoldable pub nickname_of : World → ℕ → Result Bytes
nickname_of w id = do p ← player_at w.roster id; or_undefined (c_string p.nickname)

-- The loop that tells the others: its body, and `n` rounds from player `i` on.
unfoldable pub tell_one : Bytes → World → ℕ → Result World
tell_one msg w i = do
  p ← player_at w.roster i
  if p.connected == 0
      then ok w
      else do w' ← send_sysmsg w p.connection sm_player_left msg; s_send_players_full w' i

unfoldable pub tell_left : ℕ → ℕ → Bytes → World → Result World
tell_left zero i msg w = ok w
tell_left (suc n) i msg w = do w' ← tell_one msg w i; tell_left n (i + 1) msg w'

-- After the start the player's colour is marked and the total goes down; before it nothing changes.
unfoldable pub mark_gone : World → ℕ → Result World
mark_gone w id = if w.start == 0 then ok w else do
  p ← player_at w.roster id
  let gone = record p { connected = 0; color = bit_xor p.color l_black }
  let total = w.players_total - 1
  ok (record w { roster = record (put_player w.roster id gone) { players_total = total } })

unfoldable pub player_connected_off : World → ℕ → Result World
unfolding mark_gone tell_left tell_one nickname_of
player_connected_off w id = do
  w₁ ← mark_gone w id
  if (w₁.players_total == 0) && not (w₁.start == 0) then stop exit_success else do
    name ← nickname_of w₁ id
    let msg = codes "Player " ++ (name ++ codes " has fallen out of the world!\n")
    tell_left w₁.players_len 0 msg w₁

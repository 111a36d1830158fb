-- ===== src/Server/System/Steps.antt =====
-- What the threads of src/server.c do, but accepting and closing, leaves the list of the connections as it
-- is, and the players and the queues sound.
use Prim.Native.Nat.{bit_xor}
use itmmorgue.Base.{
  ℕ, zero, suc, ◌+◌, ◌-◌, ◌%◌, ◌^◌, ◌≤◌, ◌<◌, ◌≡◌, sym, arith, ok, [], Option, refl, none, some,
  Bytes, codes, c_string, ◌==◌, ltb, ◌&&◌, ◌||◌, not, or_undefined, same_text, replicate,
}
use itmmorgue.Protocol.Types.{Mbuf}
use itmmorgue.Protocol.Mqueue.{mqueue_init, mqueue_size, mqueue_get}
use mathlib.Core.Path.{subst}
use itmmorgue.Protocol.Mqueue.{Mqueue}
use itmmorgue.Protocol.Mqueue.Inv.{Holds, mqueue_init-Holds}
use itmmorgue.Server.System.Sound.{SoundQueue, SoundRoster, put_player-SoundRoster, mqueue_get-some}
use itmmorgue.Server.System.Rosters.{
  put_player-Sound, SoundPlayer-same, player_init-Sound, apply_from-Sound, total-Sound,
}
use itmmorgue.Player.{
  Player, Roster, max_players, player_at, put_player, player_init, player_name_maxlen, l_black,
  l_yellow,
}
use itmmorgue.Event.{ev_count_players, apply_from}
use itmmorgue.Event.Loop.{event_loop}
use itmmorgue.World.{World, Payload, Connection, put_connection}
use itmmorgue.Server.Send.{s_send_players_full, send_sysmsg, s_area_send, s_level_send}
use itmmorgue.Server.Leave.{mark_gone, nickname_of, tell_left, tell_one, player_connected_off}
use itmmorgue.Protocol.Wire.{Written}
use itmmorgue.Server.Client.{Client, start_client, handle_start, drain, check_written}
use itmmorgue.Server.Handle.{revive, resurrect}
use itmmorgue.Server.System.Kept.{
  roster_only, Kept, Kept-connection, Kept-player, Kept-eq, Kept-test, or_undefined-some,
  put_connection-Steady, Kept-same, Kept-ok, Kept-stop, Kept-if, Kept-elim, Kept-value, Kept-bind,
  Kept-option, Kept-from,
}
use itmmorgue.Server.System.Sending.{
  Keeps, send_sysmsg-Keeps, s_send_players_full-Keeps, s_level_send-Keeps, s_area_send-Keeps,
  send_all_full-Keeps,
}

tell_left-Keeps : (n i : ℕ) (msg : Bytes) (w : World) → Keeps w (tell_left n i msg w)
unfolding tell_left tell_one
tell_left-Keeps zero i msg w = Kept-same (λ w. w) (cc) (cc) (cc) (λ s. s)
tell_left-Keeps (suc n) i msg w =
    Kept-bind (λ w. w) (tell_one msg w i) _
      (Kept-value (player_at w.roster i) _ (λ p.
        Kept-if (p.connected == 0) (Kept-same (λ w. w) (cc) (cc) (cc) (λ s. s)) (
          Kept-bind (λ w. w) (send_sysmsg w p.connection _ msg) _
            (send_sysmsg-Keeps w p.connection _ msg) (λ w'. s_send_players_full-Keeps w' i))))
      (λ w'. tell_left-Keeps n (i + 1) msg w')

mark_gone-Keeps : (w : World) (id : ℕ) → Keeps w (mark_gone w id)
unfolding mark_gone
mark_gone-Keeps w id = Kept-if (w.start == 0) (Kept-same (λ w. w) (cc) (cc) (cc) (λ s. s)) (
    Kept-player {w = w} w.roster id _ (λ p at.
      let gone : Player = record p { connected = 0; color = bit_xor p.color l_black } in
      Kept-same {w = w} (λ w. w) (cc) (cc) (cc)
        (λ s. total-Sound _ _ (
          put_player-Sound w.roster id p gone at (SoundPlayer-same p gone refl refl refl refl) s))))

pub player_connected_off-Keeps : (w : World) (id : ℕ) → Keeps w (player_connected_off w id)
unfolding player_connected_off
player_connected_off-Keeps w id =
    Kept-bind (λ w. w) (mark_gone w id) _ (mark_gone-Keeps w id)
      (λ w₁.
        Kept-if ((w₁.players_total == 0) && not (w₁.start == 0)) (Kept-stop (λ w. w))
          (Kept-value (nickname_of w₁ id) _ (λ name. tell_left-Keeps w₁.players_len 0 _ w₁)))

-- The connection with the queue that its thread initialised.
abbrev served : Connection → Connection
served c = record c {
  mqueueptr =
      some
        (mqueue_init (record { buf = replicate mqueue_size none; start_position = 0; size = 0 }));
}

new_queue :
    Holds {P = Payload}
      (mqueue_init (record { buf = replicate mqueue_size none; start_position = 0; size = 0 }))
      []
new_queue =
    mqueue_init-Holds (record { buf = replicate mqueue_size none; start_position = 0; size = 0 })
      refl

pub start_client-Kept : (w : World) (a : ℕ) → Kept (λ r. r.0) w (start_client w a)
unfolding start_client
start_client-Kept w a =
    Kept-eq {w = w} (player_init w.roster w.start l_yellow (codes "bsi") a) _ (λ r e.
      Kept-player {w = w} r.1 r.0 _ (λ p in_slot.
        let here : Player = record p { connected = 1 } in
        let v = record w { roster = put_player r.1 r.0 here } in
        Kept-connection {w = w} v a _ (λ c at.
          Kept-from (λ r. r.0)
            (roster_only w v.roster w.start (λ s.
              put_player-Sound r.1 r.0 p here in_slot (SoundPlayer-same p here refl refl refl refl)
                (player_init-Sound w.roster w.start l_yellow (codes "bsi") a r e s)))
            (Kept-ok (λ r. r.0)
              (put_connection-Steady v a c (served c) at refl refl (λ q. ([], new_queue)))))))

pub handle_start-Keeps : (w : World) (c : Client) → Keeps w (handle_start w c)
unfolding handle_start
handle_start-Keeps w c = Kept-value (player_at w.roster c.id) _ (λ p.
    Kept-elim ((w.start == 1) || (ltb 0 w.start && (p.start == 1)))
      (Kept-bind (λ w. w) (s_level_send w 0 c.id) _ (s_level_send-Keeps w 0 c.id)
        (λ w₁.
          Kept-bind (λ w. w) (s_area_send w₁ 0 c.id) _ (s_area_send-Keeps w₁ 0 c.id)
            (λ w₂.
              Kept-bind (λ w. w) (s_send_players_full w₂ c.id) _ (s_send_players_full-Keeps w₂ c.id)
                (λ w₃. Kept-player {w = w₃} w₃.roster c.id _ (λ p' at.
                  let seen : Player = record p' { start = 0 } in
                  Kept-same {w = w₃} (λ w. w) (cc) (cc) (cc)
                    (put_player-Sound w₃.roster c.id p' seen at
                      (SoundPlayer-same p' seen refl refl refl refl)))))))
      (Kept-same (λ w. w) (cc) (cc) (cc) (λ s. s)))

get-SoundQueue :
    (o : Option (Mqueue Payload)) (q : Mqueue Payload) (r : Option (Mbuf Payload) × Mqueue Payload)
    → o ≡ some q
    → mqueue_get q ≡ ok r
    → SoundQueue o
    → SoundQueue (some r.1)
get-SoundQueue o q r is got s = let (xs, h) = subst SoundQueue is s in mqueue_get-some q r xs h got

pub drain-Kept :
    (n : ℕ) (send : Mbuf Payload → Written) (w : World) (a : ℕ)
    → Kept (λ r. r.1) w (drain n send w a)
unfolding drain
drain-Kept zero send w a = Kept-stop (λ r. r.1)
drain-Kept (suc n) send w a = Kept-connection {w = w} w a _ (λ c at.
    Kept-eq {w = w} (or_undefined c.mqueueptr) _ (λ q is. Kept-eq {w = w} (mqueue_get q) _ (λ r got.
      let v = put_connection w a (record c { mqueueptr = some r.1 }) in
      Kept-from (λ r. r.1)
        (put_connection-Steady w a c (record c { mqueueptr = some r.1 }) at refl refl
          (get-SoundQueue c.mqueueptr q r (or_undefined-some c.mqueueptr is) got))
        (Kept-option {w = v} r.0 (Kept-same {w = v} (λ r. r.1) (cc) (cc) (cc) (λ s. s)) (λ m.
          Kept-value {w = v} (check_written (send m)) _ (λ done.
            Kept-bind {w = v} (λ r. r.1) (drain n send v a) _ (drain-Kept n send v a)
              (λ r'. Kept-same {w = r'.1} (λ r. r.1) (cc) (cc) (cc) (λ s. s))))))))

pub event_loop-Keeps : (w : World) → Keeps w (event_loop w)
unfolding event_loop
event_loop-Keeps w = Kept-elim (w.start == 0) (Kept-same (λ w. w) (cc) (cc) (cc) (λ s. s)) (
    Kept-value (ev_count_players w.roster) _ (λ n.
      Kept-elim (n == 0) (Kept-same (λ w. w) (cc) (cc) (cc) (λ s. s)) (
        Kept-eq (apply_from w.players_len 0 w.roster) _ (λ r e.
          Kept-from (λ w. w) (roster_only w r w.start (apply_from-Sound w.roster r e))
            (send_all_full-Keeps w.players_len 0 (record w { roster = r }))))))

one_less_fits :
    (r : Roster)
    → 0 < r.players_len
    → SoundRoster r
    → (r.players_len + 2 ^ 64 - 1) % 2 ^ 64 ≤ max_players
one_less_fits r lt s = omega (arith, s.len_in)

revive-Keeps : (w : World) (id i : ℕ) → 0 < w.players_len → Keeps w (revive w id i)
unfolding revive
revive-Keeps w id i lt = Kept-player {w = w} w.roster i _ (λ p at.
    Kept-value {w = w} (player_at w.roster id) _ (λ me.
      let up : Player = record p {
        connection = me.connection;
        connected = 1;
        color = bit_xor p.color l_black;
      } in
      let r₁ = put_player w.roster i up in
      Kept-player {w = w} r₁ id _ (λ old at_id.
        let given_up : Player = record old { nickname = replicate player_name_maxlen 0 } in
        let r₂ = put_player r₁ id given_up in
        Kept-player {w = w} r₂ i _ (λ new at_i.
          let back : Player = record new { start = 1 } in
          Kept-same {w = w} (λ w. w) (cc) (cc) (cc)
            (λ s.
              let s₁ =
                put_player-Sound w.roster i p up at (SoundPlayer-same p up refl refl refl refl) s in
              let s₂ =
                put_player-Sound r₁ id old given_up at_id
                  (λ q. SoundPlayer-same old given_up (sym q.named) refl refl refl q) s₁ in
              total-Sound _ _ (
                put_player-SoundRoster r₂ i _ new back at_i
                  (SoundPlayer-same new back refl refl refl refl) (one_less_fits w.roster lt s)
                  s₂))))))

pub resurrect-Kept :
    (n i : ℕ) (name : Bytes) (w : World) (id : ℕ) → Kept (λ r. r.0) w (resurrect n i name w id)
unfolding resurrect
resurrect-Kept zero i name w id = Kept-same (λ r. r.0) (cc) (cc) (cc) (λ s. s)
resurrect-Kept (suc n) i name w id =
    Kept-test ((w.start == 3) && ltb i w.players_len)
      (λ in_use. Kept-value {w = w} (player_at w.roster i) _ (λ p.
        Kept-elim (p.connected == 0)
          (Kept-value {w = w} (or_undefined (c_string p.nickname)) _ (λ nick.
            Kept-elim (same_text nick name)
              (Kept-bind (λ w. w) (revive w id i) _ (revive-Keeps w id i (ground arith))
                (λ w'. resurrect-Kept n (i + 1) name w' i))
              (resurrect-Kept n (i + 1) name w id)))
          (resurrect-Kept n (i + 1) name w id)))
      (Kept-same (λ r. r.0) (cc) (cc) (cc) (λ s. s))

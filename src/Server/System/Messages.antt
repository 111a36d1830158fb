-- ===== src/Server/System/Messages.antt =====
-- What `process_client` of src/server.c does with a message leaves the list of the connections as it is,
-- unless the client leaves, and the players and the queues sound.
use itmmorgue.Base.{
  ℕ, zero, suc, ◌+◌, some, refl, Bytes, codes, c_string, ◌==◌, ◌++◌, ◌-◌, ◌%◌, ◌^◌, leb, ◌&&◌, not,
  Result, ok, or_undefined, get_elem?, drop,
}
use itmmorgue.Protocol.Types.{MsgType, put_chat, move_player}
use itmmorgue.Keyboard.{k_move_left, k_move_right_down}
use itmmorgue.Player.Init.{length-strncpy}
use itmmorgue.Server.System.Rosters.{
  put_player-Sound, SoundPlayer-same, total-Sound, event_player_add-Sound,
}
use itmmorgue.Player.{Player, ev_move, strncpy, max_players}
use itmmorgue.Event.{event_player_add}
use itmmorgue.Chat.{s_chat_add}
use itmmorgue.World.{World, enqueue, text_message}
use itmmorgue.Server.Send.{send_sysmsg, sm_player_joined}
use itmmorgue.Server.Connections.{for_each}
use itmmorgue.Server.Leave.{put, nickname_of}
use itmmorgue.Server.Client.{Client}
use itmmorgue.Server.Handle.{
  Incoming, send_all_full, resurrect, join, handle_get_chat, deliver, say, vote_start,
  handle_new_chat, asks_start,
}
use itmmorgue.Server.Round.{waiting, start_all, try_start, handle_move, after_dispatch}
use itmmorgue.Server.System.Kept.{
  Steady-refl, roster_only, chat_only, Kept, Kept-same, Kept-ok, Kept-stop, Kept-if, Kept-elim,
  Kept-value, Kept-bind, Kept-from, Kept-eq, Kept-player, Kept-test,
}
use itmmorgue.Server.System.Steps.{resurrect-Kept}
use itmmorgue.Server.System.Sending.{
  Keeps, enqueue-Keeps, send_sysmsg-Keeps, send_all_full-Keeps, for_each-Keeps,
}

deliver-Keeps : (str : Bytes) (w : World) (a : ℕ) → Keeps w (deliver str w a)
unfolding deliver
deliver-Keeps str w a =
    Kept-bind (λ w. w) (enqueue w a (text_message put_chat str)) _
      (enqueue-Keeps w a (text_message put_chat str)) (λ w'. send_sysmsg-Keeps w' (some a) _ _)

pub handle_get_chat-Keeps : (w : World) (c : Client) → Keeps w (handle_get_chat w c)
unfolding handle_get_chat
handle_get_chat-Keeps w c = enqueue-Keeps w c.connection _

module _ (fuel : ℕ) (w : World) (c : Client) where
  pub join-Kept : (payload : Bytes) (size : ℕ) → Kept (λ r. r.0) w (join fuel w c payload size)
  unfolding join
  join-Kept payload size = Kept-value {w = w} (or_undefined (get_elem? payload 0)) _ (λ first.
      Kept-value {w = w} (or_undefined (c_string (drop 1 payload))) _ (λ name.
        Kept-player {w = w} w.roster c.id _ (λ p at.
          let colored : Player = record p { color = (first + 2 ^ 32 - b'0') % 2 ^ 32 } in
          let w₁ = put w c.id colored in
          Kept-from (λ r. r.0)
            (roster_only w w₁.roster w.start (
              put_player-Sound w.roster c.id p colored at
                (SoundPlayer-same p colored refl refl refl refl)))
            (Kept-bind (λ r. r.0) (resurrect (max_players + 1) 0 name w₁ c.id) _
              (resurrect-Kept (max_players + 1) 0 name w₁ c.id)
              (λ r.
                let w₂ = r.0 in
                Kept-player {w = w₂} w₂.roster r.1 _ (λ p' at'.
                  Kept-eq {w = w₂} (strncpy p'.nickname name size) _ (λ nick e.
                    let called : Player = record p' { nickname = nick } in
                    let w₃ = put w₂ r.1 called in
                    Kept-from (λ r. r.0)
                      (roster_only w₂ w₃.roster w₂.start (
                        put_player-Sound w₂.roster r.1 p' called at' (
                          SoundPlayer-same p' called (length-strncpy p'.nickname name size e) refl
                            refl refl)))
                      (Kept-value {w = w₃} (nickname_of w₃ r.1) _ (λ shown.
                        let msg =
                          codes "Player "
                          ++ (shown ++ codes " has found his place in the world!\n") in
                        let tell : World → ℕ → Result World =
                          λ v a. send_sysmsg v (some a) sm_player_joined msg in
                        Kept-bind {w = w₃} (λ w. w) (for_each fuel tell w₃.first_connection w₃) _
                          (for_each-Keeps fuel tell
                            (λ v a. send_sysmsg-Keeps v (some a) sm_player_joined msg)
                            w₃.first_connection w₃)
                          (λ w₄.
                            Kept-bind {w = w₄} (λ w. w) (send_all_full w₄.players_len 0 w₄) _
                              (send_all_full-Keeps w₄.players_len 0 w₄)
                              (λ w₅.
                                Kept-same {w = w₅} (λ r. r.0) (cc) (cc) (cc) (λ s. s))))))))))))

  pub handle_new_chat-Keeps : (m : Incoming) → Keeps w (handle_new_chat fuel w c m)
  unfolding handle_new_chat vote_start say deliver
  handle_new_chat-Keeps m = Kept-value {w = w} (or_undefined (c_string m.payload)) _ (λ str.
      Kept-elim ((w.start == 0) && asks_start str)
        (Kept-player {w = w} w.roster c.id _ (λ p at.
          let votes : Player = record p { ready = 1 } in
          let v = put w c.id votes in
          Kept-from (λ w. w)
            (roster_only w v.roster w.start (
              put_player-Sound w.roster c.id p votes at
                (SoundPlayer-same p votes refl refl refl refl)))
            (send_all_full-Keeps v.players_len 0 v)))
        (Kept-value {w = w} (s_chat_add w.schat str) _ (λ chat.
          let v = record w { schat = chat } in
          Kept-from (λ w. w) (chat_only w chat)
            (for_each-Keeps fuel (deliver str) (deliver-Keeps str) v.first_connection v))))

-- Waiting for the start, and the moves.
start_all-Keeps : (n i : ℕ) (w : World) → Keeps w (start_all n i w)
unfolding start_all
start_all-Keeps zero i w = Kept-same (λ w. w) (cc) (cc) (cc) (λ s. s)
start_all-Keeps (suc n) i w = Kept-player {w = w} w.roster i _ (λ p at.
    let starts : Player = record p { start = 1 } in
    let v = put w i starts in
    Kept-from (λ w. w)
      (roster_only w v.roster w.start
        (put_player-Sound w.roster i p starts at (SoundPlayer-same p starts refl refl refl refl)))
      (start_all-Keeps n (i + 1) v))

move_only :
    {w : World} {x : Result World} (t : MsgType)
    → Keeps w x
    → Keeps w (elim t [ move_player ↦ x | _ ↦ ok w ])
move_only move_player h = h
move_only {w} _ h = Kept-ok (λ w. w) (Steady-refl w)

pub after_dispatch-Keeps : (w : World) (c : Client) (m : Incoming) → Keeps w (after_dispatch w c m)
unfolding after_dispatch try_start handle_move
after_dispatch-Keeps w c m =
    Kept-if (w.start == 0)
      (Kept-value {w = w} (waiting w.players_len 0 w.players_len w) _ (λ wait.
        Kept-elim (wait == 0)
          (Kept-from (λ w. w) (roster_only w w.roster 1 (λ s. s))
            (Kept-bind (λ w. w) (start_all w.players_len 0 (record w { start = 1 })) _
              (start_all-Keeps w.players_len 0 (record w { start = 1 }))
              (λ w'. Kept-same {w = w'} (λ w. w) (cc) (cc) (cc) (total-Sound w'.roster _))))
          (Kept-same {w = w} (λ w. w) (cc) (cc) (cc) (λ s. s))))
      (Kept-if (not (w.players_len == w.players_total))
        (Kept-same {w = w} (λ w. w) (cc) (cc) (cc) (λ s. s))
        (move_only m.type (
          Kept-value {w = w} (or_undefined (get_elem? m.payload 0)) _ (λ key.
            Kept-test (leb k_move_left key && leb key k_move_right_down)
              (λ direction.
                Kept-eq {w = w}
                  (event_player_add w.roster c.id ev_move
                    (some (record { direction = key; player_id = c.id })))
                  _
                  (λ r e.
                    Kept-same {w = w} (λ w. w) (cc) (cc) (cc)
                      (event_player_add-Sound w.roster r c.id key direction e)))
              (Kept-stop (λ w. w))))))

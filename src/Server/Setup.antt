-- ===== src/Server/Setup.antt =====
-- How the server starts: `server_fork_start` and `sigchld` of src/server.c, and `server` up to its accept loop.
pub mod Runs
mod Tests
use itmmorgue.Base.{
  ℕ, Bool, true, false, Option, none, some, List, [], ◌∷◌, ◌&&◌, not, if◌then◌else◌, Result, ok,
  stop, panic, ◌>>=◌, replicate, server_running, event_thread, server_socket, server_option,
  server_bind, server_backlog, server_chat, server_process, signal_mask, server_done, server_gone,
}
use itmmorgue.Config.Values.{ℤ, pos}
use itmmorgue.Config.Entries.{Lookup}
use itmmorgue.Player.{Player, player_name_maxlen, max_players}
use itmmorgue.Event.{no_event}
use itmmorgue.Level.{Level}
use itmmorgue.World.{World}
use itmmorgue.Windows.Ints.{is_negative, is_zero}
use itmmorgue.Area.Generator.{Gen, NewLevel, s_levels_init}

-- What the calls on the way answer: whether pthread_create(3) makes the thread of the turns, socket(2), setsockopt(2),
-- bind(2) and listen(2), and whether malloc(3) gives the chat.
pub record Calls : Type 0 where
  pub thread : Bool
  pub socket : ℤ
  pub setsockopt : ℤ
  pub bind : ℤ
  pub listen : ℤ
  pub chat : Bool

-- The level, and the socket that the accept loop waits at. `started` is `server_started`.
unfoldable pub set_up : ℤ → Calls → Lookup → Gen → Result (NewLevel × ℤ)
set_up started c conf gen = if not (is_zero started) then stop (panic server_running) else do
  (level, levels_count) ← s_levels_init conf gen 0
  if not c.thread
      then stop (panic event_thread)
      else if is_negative c.socket
      then stop (panic server_socket)
      else if is_negative c.setsockopt
      then stop (panic server_option)
      else if is_negative c.bind
      then stop (panic server_bind)
      else if is_negative c.listen
      then stop (panic server_backlog)
      else if not c.chat
      then stop (panic server_chat)
      else ok (level, c.socket)

-- A slot of `players` in memory that is 0 at the start.
abbrev pub no_player : Player
no_player = record {
  color = 0;
  y = 0;
  x = 0;
  nickname = replicate player_name_maxlen 0;
  ready = 0;
  connected = 0;
  start = 0;
  connection = none;
  ev_queue = no_event;
}

-- What the threads share when the accept loop begins.
abbrev pub first_world : Level → World
first_world level = record {
  roster = record {
    players = replicate max_players no_player;
    players_len = 0;
    player_self = 0;
    players_total = 0;
  };
  start = 0;
  connections = λ a. none;
  first_connection = none;
  last_connection = none;
  schat = record { size = 2; string = [] };
  levels = level ∷ [];
}

-- `server_fork_start`, by what fork(2) and sigprocmask(2) answer and how `server` ends, if it does: what
-- `server_started` is in the client.
unfoldable pub server_fork_start : ℤ → ℤ → ℤ → Result (NewLevel × ℤ) → Result ℤ
server_fork_start started fork sigprocmask runs =
    if not (is_zero started)
    then ok started
    else if is_negative fork
    then stop (panic server_process)
    else if not (is_zero fork)
    then ok fork
    else if is_negative sigprocmask
    then stop (panic signal_mask)
    else do r ← runs; stop (panic server_done)

-- `sigchld`, by `connecting` and `end`: what `server_started` is behind it.
unfoldable pub sigchld : ℤ → ℤ → Result ℤ
sigchld connecting end =
    if is_zero connecting && is_zero end then stop (panic server_gone) else ok (pos 0)

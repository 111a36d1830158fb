-- ===== src/Server/RosterTests.antt =====
-- A server whose two players are ready, and the theorems about the start and about a player's return at
-- it.
use itmmorgue.Base.{
  ℕ, ◌≡◌, ◌>>=◌, refl, none, some, [], ◌∷◌, ◌++◌, arith, ok, stop, exit_success, replicate, codes,
}
use itmmorgue.Player.{Player}
use itmmorgue.Event.{no_event}
use itmmorgue.World.{World}
use itmmorgue.Server.Leave.{mark_gone, player_connected_off}
use itmmorgue.Server.Handle.{revive}
use itmmorgue.Server.Round.{try_start}
use itmmorgue.Server.Start.{Started, try_start-Started}
use itmmorgue.Server.Return.{Returned, mark_gone-revive, player_connected_off_exits}

abbrev voter : ℕ → Player
voter ready = record {
  color = 9;
  y = 8;
  x = 48;
  nickname = codes "Ada" ++ replicate 29 0;
  ready = ready;
  connected = 1;
  start = 0;
  connection = some 1000;
  ev_queue = no_event;
}

abbrev playing : ℕ → ℕ → ℕ → World
playing ready start total = record {
  roster = record {
    players = voter 1 ∷ voter ready ∷ replicate 3 (voter 0);
    players_len = 2;
    player_self = 0;
    players_total = total;
  };
  start = start;
  connections = λ a. none;
  first_connection = none;
  last_connection = none;
  schat = record { size = 2; string = [] };
  levels = [];
}

try_start-Started_example :
    (w' : World) × (try_start (playing 1 0 0) ≡ ok w') × Started (playing 1 0 0) w'
try_start-Started_example = try_start-Started (playing 1 0 0) (omega arith) (omega arith) refl

player_connected_off_exits_example : player_connected_off (playing 1 2 1) 0 ≡ stop exit_success
player_connected_off_exits_example =
    player_connected_off_exits (playing 1 2 1) 0 (voter 1) (λ e. omega arith) refl (omega arith)

mark_gone-revive_example :
    (w' : World) × ((mark_gone (playing 0 3 2) 0 >>= λ v. revive v 1 0) ≡ ok w')
    × Returned (playing 0 3 2) w' 0 1 (voter 1) (voter 0)
mark_gone-revive_example =
    mark_gone-revive (playing 0 3 2) 0 1 (voter 1) (voter 0) (λ e. omega arith) (λ e. omega arith)
      refl refl (omega arith) (omega arith) (omega arith)

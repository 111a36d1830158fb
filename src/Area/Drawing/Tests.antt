-- ===== src/Area/Drawing/Tests.antt =====
-- A window of one tile over a level of two, with the client's player on the second.
use itmmorgue.Base.{ℕ, zero, suc, ◌≡◌, refl, arith, none, List, [], ◌∷◌, ok, replicate}
use itmmorgue.Config.Values.{pos, ival}
use itmmorgue.Config.Entries.{Lookup}
use itmmorgue.Event.{no_event}
use itmmorgue.Player.{Player, Roster}
use itmmorgue.Windows.{WinInfo}
use itmmorgue.Area.{Cell}
use itmmorgue.Area.Levels.{CLevel}
use itmmorgue.Area.Drawing.{Ink, Status, draw_area}
use itmmorgue.Area.Drawing.Window.{AllKnown}
use itmmorgue.Area.Drawing.Picture.{Shown, Picture, draw_area-Picture}

abbrev two_cells : List Cell
two_cells =
    record { tile = record { top = 1; color = 13; y = 0; x = 0 }; underlying = [] }
    ∷ record { tile = record { top = 4; color = 11; y = 0; x = 1 }; underlying = [] }
    ∷ []

abbrev corridor : CLevel
corridor = record { id = 19; max_y = 1; max_x = 2; area = two_cells; name = [] }

abbrev visitor : Player
visitor = record {
  color = 9;
  y = 0;
  x = 1;
  nickname = replicate 32 0;
  ready = 1;
  connected = 1;
  start = 0;
  connection = none;
  ev_queue = no_event;
}

abbrev alone : Roster
alone = record {
  players = replicate 5 visitor;
  players_len = 1;
  player_self = 0;
  players_total = 1;
}

abbrev peephole : WinInfo
peephole = record { y = pos 2; x = pos 0; max_y = pos 1; max_x = pos 1; state = pos 2 }

abbrev some_symbols : List ℕ
some_symbols = replicate 16 b'.'

abbrev centred_view : Lookup
centred_view key = ok (ival (pos 1))

abbrev idle : Status
idle = record { last_key = pos 0; server_connected = pos 1; server_address = []; nickname = [] }

two_cells-AllKnown : AllKnown some_symbols two_cells
two_cells-AllKnown zero c e = ground (arith, e)
two_cells-AllKnown (suc zero) c e = ground (arith, e)
two_cells-AllKnown (suc (suc i)) c e = absurd (cc e)

peephole-Shown : Shown some_symbols alone corridor visitor peephole 1 1
peephole-Shown = record {
  symbols_in = omega arith;
  known = two_cells-AllKnown;
  sized = record { cells = refl; small = omega arith; high = omega arith; wide = omega arith };
  players_in = omega arith;
  self_in = omega arith;
  at = refl;
  height = refl;
  width = refl;
  some_rows = omega arith;
  some_columns = omega arith;
  rows_in = omega arith;
  columns_in = omega arith;
  on_y = omega arith;
  on_x = omega arith;
}

draw_area-Picture_example :
    (inks : List Ink) × (draw_area
        (λ s. s)
        centred_view
        some_symbols
        idle
        0
        alone
        (record { levels = corridor ∷ []; current = 0 })
        peephole
      ≡ ok inks)
    × Picture (λ s. s) idle 0 some_symbols alone corridor visitor peephole 1 1 inks
draw_area-Picture_example =
    draw_area-Picture (λ s. s) centred_view some_symbols idle alone corridor [] visitor peephole 1 1
      refl peephole-Shown 0

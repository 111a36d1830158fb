-- ===== src/Area/Drawing.antt =====
-- What `draw_area` of src/area.c draws, as commands for curses. The translations are a function.
pub mod Window
pub mod Waiting
pub mod Picture
mod Tests
use itmmorgue.Base.{
  ℕ, zero, suc, ◌+◌, ◌-◌, ◌%◌, ◌^◌, Bool, true, false, Option, none, some, List, [], ◌∷◌, ◌++◌,
  ◌==◌, leb, ltb, if◌then◌else◌, Result, ok, stop, undefined, or_undefined, ◌>>=◌, Bytes, codes,
  get_elem?,
}
use itmmorgue.Config.Values.{ℤ, pos, negsuc}
use itmmorgue.Config.Entries.{Lookup, conf_ival}
use itmmorgue.Protocol.Types.{protocol_version}
use itmmorgue.Player.{Roster, Player, player_at}
use itmmorgue.Level.{lvltilepos}
use itmmorgue.Windows.{WinInfo}
use itmmorgue.Windows.Ints.{◌+ℤ◌, neg, int}
use itmmorgue.Area.{Cell}
use itmmorgue.Area.Levels.{CLevel, CLevels, area_of}
use itmmorgue.Area.Camera.{camera_corner}
use itmmorgue.Area.Generator.{uint16}

-- An attribute: a pair of colours, and A_BOLD.
pub record Attr : Type 0 where
  pub pair : ℕ
  pub bold : Bool

-- `color2attr` of src/client.c
abbrev pub color2attr : ℕ → Attr
color2attr color =
    if ltb 8 (color + 1)
    then record { pair = color + 1 - 8; bold = true }
    else record { pair = color + 1; bold = false }

abbrev pub plain : Attr
plain = record { pair = 0; bold = false }

-- An argument of a format.
pub data Arg : Type 0 where
  word : Bytes → Arg
  number : ℤ → Arg

-- mvwaddch of a symbol with an attribute, and mvwprintw, in the window of the area: row, and column.
pub data Ink : Type 0 where
  symbol : ℤ → ℤ → ℕ → Attr → Ink
  text : ℤ → ℤ → List Arg → Ink

-- `S_PLAYER` of src/stuff.h
abbrev pub s_player : ℕ
s_player = 6

abbrev pub rounds : ℤ → ℕ
rounds (pos n) = n
rounds (negsuc n) = 0

-- The inner loop over the tiles: `n` columns from `x` on, whose first tile is at `i`.
unfoldable pub draw_row : List ℕ → List Cell → ℕ → ℕ → ℕ → ℕ → Result (List Ink)
draw_row symbols curr y x i zero = ok []
draw_row symbols curr y x i (suc n) = do
  c ← or_undefined (get_elem? curr i)
  s ← or_undefined (get_elem? symbols c.tile.top)
  rest ← draw_row symbols curr y (x + 1) (i + 1) n
  ok (symbol (pos y) (pos x) s (color2attr c.tile.color) ∷ rest)

-- The outer loop: `n` rows from `y` on.
unfoldable pub draw_tiles : List ℕ → CLevel → ℤ → ℤ → ℕ → ℕ → ℕ → Result (List Ink)
unfolding draw_row
draw_tiles symbols l top_y top_x width y zero = ok []
draw_tiles symbols l top_y top_x width y (suc n) = do
  i ← lvltilepos l.max_x (uint16 (pos y +ℤ top_y)) (uint16 top_x)
  row ← draw_row symbols l.area y 0 i width
  rest ← draw_tiles symbols l top_y top_x width (y + 1) n
  ok (row ++ rest)

-- The loop over the players, from player `i` on.
unfoldable pub draw_players : List ℕ → Roster → ℤ → ℤ → ℕ → ℕ → Result (List Ink)
draw_players symbols r top_y top_x i zero = ok []
draw_players symbols r top_y top_x i (suc n) = do
  p ← player_at r i
  s ← or_undefined (get_elem? symbols s_player)
  rest ← draw_players symbols r top_y top_x (i + 1) n
  ok (symbol (pos p.y +ℤ neg top_y) (pos p.x +ℤ neg top_x) s (color2attr p.color) ∷ rest)

-- What the area shows besides.
pub record Status : Type 0 where
  pub last_key : ℤ
  pub server_connected : ℤ
  pub server_address : Bytes
  pub nickname : Bytes

module _ (translate : Bytes → Bytes) where
  -- What is drawn for player `i` before the start of the game.
  abbrev pub waiting_lines : Player → ℤ → ℕ → List Ink
  waiting_lines p last_row i =
      symbol (pos (2 + i)) (pos 1) (if p.ready == 0 then b'-' else b'+') plain
      ∷ text (pos (2 + i)) (pos 3) (word p.nickname ∷ [])
      ∷ text last_row (pos 1) (word (translate (codes "Write !start or !s to chat to begin")) ∷ [])
      ∷ []

  unfoldable pub draw_waiting : Roster → WinInfo → ℕ → ℕ → Result (List Ink)
  draw_waiting r win i zero = ok []
  draw_waiting r win i (suc n) = do
    p ← player_at r i
    last_row ← int (win.max_y +ℤ negsuc 1)
    rest ← draw_waiting r win (i + 1) n
    ok (waiting_lines p last_row i ++ rest)

  abbrev pub line : ℕ → Bytes → List Arg → Ink
  line y name args = text (pos y) (pos 1) (word (translate name) ∷ args)

  abbrev pub variable_lines : Status → Roster → WinInfo → ℤ → ℤ → Player → List Ink
  variable_lines st r win top_y top_x me =
      line 3 (codes "Key:") (number st.last_key ∷ [])
      ∷ line 4 (codes "Connection:") (number st.server_connected ∷ [])
      ∷ line 5 (codes "Server address:") (word st.server_address ∷ [])
      ∷ line 6 (codes "Nikname:") (word st.nickname ∷ [])
      ∷ line 7 (codes "Protocol:") (number (pos protocol_version) ∷ [])
      ∷ line 8 (codes "Player ID:") (number (pos r.player_self) ∷ [])
      ∷ line 9 (codes "Top YxX:") (number top_y ∷ number top_x ∷ [])
      ∷ line 10 (codes "Win YxX:") (number win.max_y ∷ number win.max_x ∷ [])
      ∷ line 11 (codes "My YxX:") (number (pos me.y) ∷ number (pos me.x) ∷ [])
      ∷ []

  unfoldable pub draw_variables : Status → Roster → WinInfo → ℤ → ℤ → Result (List Ink)
  draw_variables st r win top_y top_x = do
    me ← player_at r r.player_self
    ok (variable_lines st r win top_y top_x me)

  -- Behind the test of `c_curr`.
  unfoldable pub draw_level :
      Lookup → List ℕ → Status → Roster → CLevels → WinInfo → Result (List Ink)
  unfolding draw_tiles draw_variables draw_players
  draw_level conf symbols st r levels win = do
    camera ← conf_ival conf (codes "player_camera")
    corner ← camera_corner camera r levels win
    l ← area_of levels
    tiles ← draw_tiles symbols l corner.0 corner.1 (rounds win.max_x) 0 (rounds win.max_y)
    variables ← draw_variables st r win corner.0 corner.1
    players ← draw_players symbols r corner.0 corner.1 0 r.players_len
    ok (tiles ++ (variables ++ players))

  -- `levels_count` is the number of levels of src/levels.c.
  unfoldable pub draw_area :
      Lookup → List ℕ → Status → ℕ → Roster → CLevels → WinInfo → Result (List Ink)
  unfolding draw_waiting draw_level
  draw_area conf symbols st levels_count r levels win = do
    waiting ←
        if levels_count == 0
        then (do
          names ← draw_waiting r win 0 r.players_len
          ok (text (pos 1) (pos 1) (word (translate (codes "Connected players:")) ∷ []) ∷ names))
        else ok []
    level ← elim levels.levels [ [] ↦ ok [] | _ ∷ _ ↦ draw_level conf symbols st r levels win ]
    ok (waiting ++ level)

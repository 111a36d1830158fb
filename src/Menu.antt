-- ===== src/Menu.antt =====
-- The menus of src/menu.c, less what they draw: which menu a key leads to, and how the client connects to a
-- server. The keys, connect(2) and usleep(3) answer by functions of how often they were asked.
pub mod Retry
pub mod Drawing
mod Tests
use itmmorgue.Base.{
  ℕ, zero, suc, ◌+◌, ◌-◌, Bool, true, false, not, ◌&&◌, ◌||◌, Option, none, some, List, [], ◌∷◌,
  ◌==◌, leb, ltb, if◌then◌else◌, Result, ok, stop, panic, exit_success, out_of_fuel, or_undefined,
  ◌>>=◌, Bytes, codes, get_elem?, length, menu_window,
}
use itmmorgue.Config.Values.{ℤ, pos, negsuc}
use itmmorgue.Chat.{TextBuf, c_sysmsg_add}
use itmmorgue.Windows.{same_int}

-- `enum menus` of src/client.h
abbrev pub m_main_id : ℕ
m_main_id = 0

abbrev pub m_new_game_id : ℕ
m_new_game_id = 1

abbrev pub m_connect_game_id : ℕ
m_connect_game_id = 2

abbrev pub m_options_id : ℕ
m_options_id = 3

abbrev pub m_help_id : ℕ
m_help_id = 4

abbrev pub m_exit_game_id : ℕ
m_exit_game_id = 5

abbrev pub m_size : ℕ
m_size = 6

abbrev pub connection_retries_max : ℕ
connection_retries_max = 16

-- What the menus read and write, with the numbers of keys asked for, of calls of `connect_to_server`, and of
-- servers that were forked.
pub record Menu : Type 0 where
  pub server_connected : Bool
  pub menu_msg : Bytes
  pub server_address : Bytes
  pub sysmsg : TextBuf
  pub asked : ℕ
  pub tried : ℕ
  pub forked : ℕ

-- ERR of curses
abbrev pub err : ℤ
err = negsuc 0

-- The answers: the k-th key, whether the k-th `connect_to_server` succeeds, and whether the sleep behind it
-- is not interrupted.
pub record Answers : Type 0 where
  pub key : ℕ → ℤ
  pub connects : ℕ → Bool
  pub sleeps : ℕ → Bool
  pub window_exit : ℤ

module _ (a : Answers) where
  -- `server_connected = connect_to_server(server_address)`
  abbrev pub attempt : Menu → Menu
  attempt s = record s { server_connected = a.connects s.tried; tried = s.tried + 1 }

  -- The loop of `m_newgame` and `m_connect`, by what is left in `retries`.
  unfoldable pub try_connect : ℕ → Menu → Menu
  try_connect zero s = attempt s
  try_connect (suc retries) s = elim (not (a.connects s.tried) && a.sleeps s.tried) [
    | false ↦ attempt s
    | true ↦ try_connect retries (attempt s)
  ]

  -- The number of an item, from the key of a digit.
  abbrev pub item_of : ℕ → ℤ → Option ℕ
  item_of items_len (pos k) =
      if ltb b'0' k && leb k (b'0' + items_len) then some (k - b'0' - 1) else none
  item_of items_len (negsuc k) = none

  -- The loop of `m_main` and `m_options` over the keys: an item, or nothing on an error or the exit key.
  unfoldable pub choose : ℕ → ℕ → Menu → Result (Option ℕ × Menu)
  choose zero items_len s = stop out_of_fuel
  choose (suc fuel) items_len s =
      let k = a.key s.asked in
      let s' = record s { asked = s.asked + 1 } in
      elim (item_of items_len k) [
        | some i ↦ ok (some i, s')
        | none ↦ elim (same_int k err || same_int k a.window_exit) [
          | true ↦ ok (none, s')
          | false ↦ choose fuel items_len s'
        ]
      ]

  abbrev pub main_items : List ℕ
  main_items = m_new_game_id ∷ m_connect_game_id ∷ m_options_id ∷ m_help_id ∷ m_exit_game_id ∷ []

  abbrev pub option_items : List ℕ
  option_items = m_main_id ∷ m_exit_game_id ∷ []

  -- A menu with items: the one that is chosen is entered by `enter`.
  unfoldable pub pick : ℕ → (ℕ → Menu → Result Menu) → List ℕ → Menu → Result Menu
  unfolding choose
  pick fuel enter items s = do
    r ← choose fuel (length items) s
    elim r.0 [ none ↦ ok r.1 | some i ↦ do id ← or_undefined (get_elem? items i); enter id r.1 ]

  -- What `m_newgame` and `m_connect` do behind their guard; on failure the main menu is entered.
  unfoldable pub connect_or : (Menu → Result Menu) → Bytes → Menu → Result Menu
  unfolding try_connect
  connect_or main failure s =
      let s' =
        try_connect connection_retries_max (record s { server_address = codes "127.0.0.1" }) in
      if s'.server_connected then ok s' else main (record s' { menu_msg = failure })

  -- `menus[id].f`, where menus enter menus; `keys` is the fuel for the keys of each.
  unfoldable pub menus_f : ℕ → ℕ → ℕ → Menu → Result Menu
  unfolding pick connect_or
  menus_f keys zero id s = stop out_of_fuel
  menus_f keys (suc fuel) id s =
      if id == m_main_id
      then pick keys (menus_f keys fuel) main_items s
      else if id == m_new_game_id
      then (if s.server_connected
          then ok s
          else connect_or (menus_f keys fuel m_main_id) (codes "Failed to create game!")
              (record s { forked = s.forked + 1 }))
      else if id == m_connect_game_id
      then (if s.server_connected
          then (do
            m ← c_sysmsg_add s.sysmsg (codes "Server is already connected!")
            ok (record s { sysmsg = m }))
          else connect_or (menus_f keys fuel m_main_id) (codes "Failed to connect!") s)
      else if id == m_options_id
      then pick keys (menus_f keys fuel) option_items s
      else if id == m_exit_game_id
      then stop exit_success
      else ok s

  -- `menu(id)`; `opens` tells whether curses makes the window.
  unfoldable pub menu : ℕ → ℕ → Bool → ℕ → Menu → Result Menu
  unfolding menus_f
  menu keys fuel opens id s =
      if leb m_size id
      then ok s
      else if opens
      then menus_f keys fuel id s
      else stop (panic menu_window)

  -- `CHECK_CONNECTION()` of src/client.h, for at most `rounds` menus.
  unfoldable pub check_connection : ℕ → ℕ → ℕ → Bool → Menu → Result Menu
  unfolding menu
  check_connection zero keys fuel opens s = if s.server_connected then ok s else stop out_of_fuel
  check_connection (suc rounds) keys fuel opens s = elim s.server_connected [
    | true ↦ ok s
    | false ↦ do
      s' ← menu keys fuel opens m_main_id (record s { menu_msg = codes "Server connection lost!" })
      check_connection rounds keys fuel opens s'
  ]

-- ===== src/Menu/Tests.antt =====
-- A server that answers at the third attempt.
use itmmorgue.Base.{ℕ, ◌≡◌, List, refl, arith, true, false, [], ◌∷◌, leb, ok, All, get_elem?, codes}
use itmmorgue.Config.Values.{pos}
use itmmorgue.Util.{anystrnlen, anystrnplen, nplen_from, set_end, is_leader}
use itmmorgue.Menu.Drawing.{Print, captions, draw_main, format_text}
use itmmorgue.Menu.Drawing.OnScreen.{Fits, OnScreen, Names, draw_main-pick}
use itmmorgue.Menu.{
  pick, main_items, m_main_id, m_connect_game_id, Menu, Answers, try_connect,
  connection_retries_max,
}
use itmmorgue.Menu.Retry.{Tried, try_connect-Tried}

-- The user chooses the second item, and the server comes up in time.
abbrev answers : Answers
answers = record {
  key = λ k. pos b'2';
  connects = λ k. leb 2 k;
  sleeps = λ k. true;
  window_exit = pos 9;
}

abbrev before : Menu
before = record {
  server_connected = false;
  menu_msg = [];
  server_address = [];
  sysmsg = record { size = 257; string = [] };
  asked = 0;
  tried = 0;
  forked = 0;
}

try_connect-Tried_example :
    Tried answers connection_retries_max before (try_connect answers connection_retries_max before)
try_connect-Tried_example = try_connect-Tried answers connection_retries_max before (λ k. refl)

menu_msg_length : anystrnlen (0 ∷ []) 8192 ≡ ok 0
unfolding anystrnplen nplen_from
menu_msg_length = refl

captions-Fits : All (Fits 80) captions
unfolding anystrnplen nplen_from set_end is_leader format_text
captions-Fits = (
  record {
    len = 9;
    len_is = refl;
    narrow = omega arith;
    shown = codes "Main menu";
    shown_is = refl;
  },
  (
    record {
      len = 8;
      len_is = refl;
      narrow = omega arith;
      shown = codes "New game";
      shown_is = refl;
    },
    (
      record {
        len = 24;
        len_is = refl;
        narrow = omega arith;
        shown = codes "Connect to existing game";
        shown_is = refl;
      },
      (
        record {
          len = 7;
          len_is = refl;
          narrow = omega arith;
          shown = codes "Options";
          shown_is = refl;
        },
        (
          record {
            len = 4;
            len_is = refl;
            narrow = omega arith;
            shown = codes "Help";
            shown_is = refl;
          },
          (
            record {
              len = 15;
              len_is = refl;
              narrow = omega arith;
              shown = codes "Exit to Windows";
              shown_is = refl;
            },
            tt,
          ),
        ),
      ),
    ),
  ),
)

draw_main-pick_example :
    (out : List Print) × (draw_main (λ t. t) 24 80 [] m_main_id (main_items answers) ≡ ok out)
    × All (OnScreen 24 80) out
    × ((k : ℕ) × Names
          (λ t. t)
          24
          80
          (omega arith)
          (omega arith)
          2
          m_connect_game_id
          (get_elem? out k))
    × (pick answers 1 (λ id s. ok s) (main_items answers) before ≡ ok (record before { asked = 1 }))
unfolding format_text
draw_main-pick_example =
    draw_main-pick (λ t. t) 24 80 [] 0 [] answers (omega arith) (omega arith) (omega arith)
      captions-Fits menu_msg_length (omega arith) refl 0 (λ id s. ok s) before 1 m_connect_game_id
      refl refl

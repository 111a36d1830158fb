-- ===== src/Windows/Layout.antt =====
-- Where `windows_init` of src/windows.c puts the windows by the table of src/default_config.h.
use itmmorgue.Base.{
  ℕ, ◌+◌, ◌-◌, ◌*◌, ◌/◌, ◌^◌, ◌≤◌, ◌<◌, ◌≡◌, refl, arith, List, [], ◌∷◌, ok, codes, All,
  if◌then◌else◌, ◌==◌,
}
use itmmorgue.Config.Values.{ℤ, pos}
use itmmorgue.Config.Found.{default_conf}
use itmmorgue.Windows.{WinInfo, fill_place, scaled, from_end, up_to_end, small, large, hidden}
use itmmorgue.Windows.Places.{percent-pos, percent-negsuc, from_end-negsuc, up_to_end-negsuc}

abbrev pub placed : ℕ → ℕ → ℕ → ℕ → ℤ → WinInfo
placed y x max_y max_x state = record {
  y = pos y;
  x = pos x;
  max_y = pos max_y;
  max_x = pos max_x;
  state = state;
}

-- A screen that is large enough for the game, and on which no int overflows.
pub record IsScreen (rows columns : ℕ) : Type 0 where
  pub high : 24 ≤ rows
  pub wide : 80 ≤ columns
  pub low : rows < 2 ^ 24
  pub narrow : columns < 2 ^ 24

module _ (rows columns : ℕ) (s : IsScreen rows columns) (i : WinInfo) where
  abbrev with_state : ℤ → WinInfo
  with_state st = record i { state = st }

  pub fill_place-area :
      fill_place default_conf (codes "win_area_large") rows columns (with_state large)
      ≡ ok (placed 2 0 (rows - 2 - 2) 0 large)
  unfolding fill_place scaled from_end
  fill_place-area =
      rw (up_to_end-negsuc rows 2 1 (omega (arith, s.high)) (omega (arith, s.low))) refl

  pub fill_place-chat :
      fill_place default_conf (codes "win_chat_small") rows columns (with_state small)
      ≡ ok (placed 0 (columns - (columns * 30 / 100 - 1 + 1)) 2 (columns * 30 / 100) small)
  unfolding fill_place scaled up_to_end
  fill_place-chat =
      rw
        (
          percent-negsuc columns 29 (omega (arith, s.narrow)) (omega (arith, s.wide)),
          percent-pos columns 30 (omega (arith, s.narrow)),
          from_end-negsuc columns (columns * 30 / 100 - 1) (omega (arith, s.wide))
              (omega (arith, s.narrow)),
        )
        refl

  pub fill_place-status :
      fill_place default_conf (codes "win_status_large") rows columns (with_state large)
      ≡ ok (placed (rows - 2) 0 2 0 large)
  unfolding fill_place scaled up_to_end
  fill_place-status =
      rw (from_end-negsuc rows 1 (omega (arith, s.high)) (omega (arith, s.low))) refl

  pub fill_place-sysmsg :
      fill_place default_conf (codes "win_sysmsg_small") rows columns (with_state small)
      ≡ ok (placed 0 0 2 (columns * 70 / 100) small)
  unfolding fill_place scaled up_to_end from_end
  fill_place-sysmsg = rw (percent-pos columns 70 (omega (arith, s.narrow))) refl

  pub fill_place-rest :
      (fill_place default_conf (codes "win_stdscr_large") rows columns (with_state large)
        ≡ ok (placed 0 0 0 0 large))
      × (fill_place default_conf (codes "win_map_small") rows columns (with_state hidden)
          ≡ ok (placed 0 0 0 0 hidden))
      × (fill_place default_conf (codes "win_inventory_small") rows columns (with_state hidden)
          ≡ ok (placed 0 0 0 0 hidden))
  unfolding fill_place scaled up_to_end from_end
  fill_place-rest = (refl, refl, refl)

abbrev pub default_layout : ℕ → ℕ → List WinInfo
default_layout rows columns =
    placed 0 0 0 0 large
    ∷ placed 2 0 (rows - 2 - 2) 0 large
    ∷ placed 0 (columns - (columns * 30 / 100 - 1 + 1)) 2 (columns * 30 / 100) small
    ∷ placed 0 0 0 0 hidden
    ∷ placed 0 0 0 0 hidden
    ∷ placed (rows - 2) 0 2 0 large
    ∷ placed 0 0 2 (columns * 70 / 100) small
    ∷ []

-- What a number of rows or columns is on the screen: 0 stands for what is left of it.
abbrev pub extent : ℕ → ℕ → ℕ → ℕ
extent size start n = if n == 0 then size - start else n

-- A window inside the screen.
pub record OnScreen (rows columns : ℕ) (i : WinInfo) : Type 0 where
  pub top : ℕ
  pub left : ℕ
  pub height : ℕ
  pub width : ℕ
  pub y_is : i.y ≡ pos top
  pub x_is : i.x ≡ pos left
  pub max_y_is : i.max_y ≡ pos height
  pub max_x_is : i.max_x ≡ pos width
  pub inside_y : top + extent rows top height ≤ rows
  pub inside_x : left + extent columns left width ≤ columns

placed-OnScreen :
    (rows columns y x max_y max_x : ℕ) (state : ℤ)
    → y ≤ rows
    → x ≤ columns
    → y + max_y ≤ rows
    → x + max_x ≤ columns
    → OnScreen rows columns (placed y x max_y max_x state)
placed-OnScreen rows columns y x max_y max_x state a b c d = record {
  top = y;
  left = x;
  height = max_y;
  width = max_x;
  y_is = refl;
  x_is = refl;
  max_y_is = refl;
  max_x_is = refl;
  inside_y = ground arith;
  inside_x = ground arith;
}

pub default_layout-OnScreen :
    (rows columns : ℕ)
    → IsScreen rows columns
    → All (OnScreen rows columns) (default_layout rows columns)
default_layout-OnScreen rows columns s =
    let p = placed-OnScreen rows columns in
    let h = s.high in
    let w = s.wide in
    (
      p 0 0 0 0 large (omega arith) (omega arith) (omega arith) (omega arith),
      (
        p 2 0 (rows - 2 - 2) 0 large (omega arith) (omega arith) (omega arith) (omega arith),
        (
          p 0 (columns - (columns * 30 / 100 - 1 + 1)) 2 (columns * 30 / 100) small (omega arith)
              (omega arith) (omega arith) (omega arith),
          (
            p 0 0 0 0 hidden (omega arith) (omega arith) (omega arith) (omega arith),
            (
              p 0 0 0 0 hidden (omega arith) (omega arith) (omega arith) (omega arith),
              (
                p (rows - 2) 0 2 0 large (omega arith) (omega arith) (omega arith) (omega arith),
                (
                  p 0 0 2 (columns * 70 / 100) small (omega arith) (omega arith) (omega arith)
                      (omega arith),
                  tt,
                ),
              ),
            ),
          ),
        ),
      ),
    )

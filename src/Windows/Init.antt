-- ===== src/Windows/Init.antt =====
-- `windows_init` of src/windows.c under the table of defaults: every window is made, inside the screen.
use itmmorgue.Base.{
  ℕ, suc, ◌+◌, ◌-◌, ◌*◌, ◌/◌, ◌≡◌, refl, ◌∙◌, ap, arith, ◌==◌, ◌||◌, Bool, true, false, Option,
  some, List, [], ◌∷◌, ok, Bytes, codes, length, get_elem?, ◌++◌, All,
}
use itmmorgue.Config.Values.{ℤ, Conf}
use itmmorgue.Config.Entries.{Lookup, conf_ival}
use itmmorgue.Config.File.{config_pre_init, conf}
use itmmorgue.Config.Defaults.{t_conf_default}
use itmmorgue.Config.Found.{IsMap, default_conf, config_pre_init-default_conf}
use itmmorgue.Windows.{
  Windows, WinInfo, fill_place, suffix_of, put_window, windows_fill, windows_init, init_from,
  windows_names, w_area, w_size, large, hidden, small,
}
use itmmorgue.Windows.Layout.{
  IsScreen, OnScreen, placed, default_layout, default_layout-OnScreen, fill_place-area,
  fill_place-chat, fill_place-status, fill_place-sysmsg, fill_place-rest,
}

-- curses makes a window that is inside the screen.
abbrev pub MakesInside : (ℤ → ℤ → ℤ → ℤ → Bool) → ℕ → ℕ → Type 0
MakesInside subwin rows columns =
    (i : WinInfo) → OnScreen rows columns i → subwin i.max_y i.max_x i.y i.x ≡ true

-- One round of the loop.
init_step :
    (subwin : ℤ → ℤ → ℤ → ℤ → Bool) (conf : Lookup) (n win : ℕ) (s : Windows) {name : Bytes}
    {i p : WinInfo} {st : ℤ}
    → get_elem? windows_names win ≡ some name
    → get_elem? s.windows win ≡ some i
    → conf_ival conf ((codes "win_" ++ name) ++ codes "_state") ≡ ok st
    → fill_place conf
        ((codes "win_" ++ name) ++ suffix_of st)
        s.rows
        s.columns
        (record i { state = st })
      ≡ ok p
    → get_elem? (put_window s win p).windows win ≡ some p
    → ((win == 0) || subwin p.max_y p.max_x p.y p.x) ≡ true
    → init_from subwin conf false (suc n) win s
      ≡ init_from subwin conf false n (win + 1) (put_window s win p)
unfolding init_from windows_fill
init_step subwin conf n win s at_name at state_is fill at' made =
    rw (at_name, at, state_is, fill, at', made) refl

module _ (rows columns : ℕ) (s : IsScreen rows columns) (subwin : ℤ → ℤ → ℤ → ℤ → Bool)
    (makes : MakesInside subwin rows columns) where
  init-default_layout :
      (ws : List WinInfo) (f : ℕ)
      → length ws ≡ w_size
      → windows_init subwin default_conf
          (record { windows = ws; rows = rows; columns = columns; focus = f })
          false
        ≡ ok (record {
          windows = default_layout rows columns;
          rows = rows;
          columns = columns;
          focus = w_area;
        })
  unfolding windows_init init_from
  init-default_layout (a ∷ b ∷ c ∷ d ∷ e ∷ k ∷ g ∷ []) f l =
      let r = fill_place-rest rows columns s in
      let (o₀, (o₁, (o₂, (o₃, (o₄, (o₅, (o₆, u))))))) = default_layout-OnScreen rows columns s in
      let p0 : WinInfo = placed 0 0 0 0 large in
      let p1 : WinInfo = placed 2 0 (rows - 2 - 2) 0 large in
      let p2 : WinInfo =
        placed 0 (columns - (columns * 30 / 100 - 1 + 1)) 2 (columns * 30 / 100) small in
      let p3 : WinInfo = placed 0 0 0 0 hidden in
      let p4 : WinInfo = placed 0 0 0 0 hidden in
      let p5 : WinInfo = placed (rows - 2) 0 2 0 large in
      let at : List WinInfo → Windows =
        λ v. record { windows = v; rows = rows; columns = columns; focus = w_area } in
      init_step subwin default_conf 6 0 (at (a ∷ b ∷ c ∷ d ∷ e ∷ k ∷ g ∷ [])) refl refl refl (r a).0
        refl refl
      ∙ init_step subwin default_conf 5 1 (at (p0 ∷ b ∷ c ∷ d ∷ e ∷ k ∷ g ∷ [])) refl refl refl
          (fill_place-area rows columns s b) refl (makes _ o₁)
      ∙ init_step subwin default_conf 4 2 (at (p0 ∷ p1 ∷ c ∷ d ∷ e ∷ k ∷ g ∷ [])) refl refl refl
          (fill_place-chat rows columns s c) refl (makes _ o₂)
      ∙ init_step subwin default_conf 3 3 (at (p0 ∷ p1 ∷ p2 ∷ d ∷ e ∷ k ∷ g ∷ [])) refl refl refl
          (r d).2 refl (makes _ o₃)
      ∙ init_step subwin default_conf 2 4 (at (p0 ∷ p1 ∷ p2 ∷ p3 ∷ e ∷ k ∷ g ∷ [])) refl refl refl
          (r e).1 refl (makes _ o₄)
      ∙ init_step subwin default_conf 1 5 (at (p0 ∷ p1 ∷ p2 ∷ p3 ∷ p4 ∷ k ∷ g ∷ [])) refl refl refl
          (fill_place-status rows columns s k) refl (makes _ o₅)
      ∙ init_step subwin default_conf 0 6 (at (p0 ∷ p1 ∷ p2 ∷ p3 ∷ p4 ∷ p5 ∷ g ∷ [])) refl refl refl
          (fill_place-sysmsg rows columns s g) refl (makes _ o₆)
  init-default_layout ws f l = absurd (omega arith)

-- On a screen of at least 24 rows and 80 columns (and fewer than 2^24 of each), for a trie that does what
-- a map does and a `subwin` that makes every window inside the screen: behind `config_pre_init` with the
-- table of defaults, `windows_init(0)` succeeds, the focus is on the area, there are seven windows, and
-- each is inside the screen.
module _ {T : Type 0} (get : T → Bytes → Option Conf) (put : T → Bytes → Conf → Option T) where
  -- On a screen of at least 24 rows and 80 columns and fewer than 2^24 of each, with the seven
  -- windows, for a trie that does what a map does and a `subwin` that makes every window inside the
  -- screen: behind `config_pre_init` with the table of defaults, `windows_init` with the state
  -- reset succeeds, the focus is on the area, there are seven windows, and each is inside the
  -- screen.
  pub windows_init-OnScreen :
      {empty : T} (m : IsMap get put empty) (subwin : ℤ → ℤ → ℤ → ℤ → Bool) (s : Windows)
      → IsScreen s.rows s.columns
      → MakesInside subwin s.rows s.columns
      → length s.windows ≡ w_size
      → (t : T) × (s' : Windows) × (config_pre_init put t_conf_default empty ≡ ok t)
        × (windows_init subwin (conf get t) s false ≡ ok s')
        × (s'.focus ≡ w_area)
        × (length s'.windows ≡ w_size)
        × All (OnScreen s.rows s.columns) s'.windows
  windows_init-OnScreen m subwin s screen makes l =
      let (t, e, same) = config_pre_init-default_conf get put m in
      (
        t,
        record {
          windows = default_layout s.rows s.columns;
          rows = s.rows;
          columns = s.columns;
          focus = w_area;
        },
        e,
        ap (λ c. windows_init subwin c s false) same
            ∙ init-default_layout s.rows s.columns screen subwin makes s.windows s.focus l,
        refl,
        refl,
        default_layout-OnScreen s.rows s.columns screen,
      )

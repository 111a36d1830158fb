-- ===== src/Splash/Shown.antt =====
-- The whole of `splash_screen` of src/splash.c.
use itmmorgue.Base.{
  ℕ, ◌+◌, ◌/◌, ◌≤◌, ◌≡◌, refl, arith, Bool, true, false, List, [], ok, map, All, Bool-cases, inl,
  inr, codes,
}
use itmmorgue.Config.Values.{ℤ, pos, signed_int}
use itmmorgue.Config.Entries.{Lookup, conf_ival}
use itmmorgue.Windows.Ints.{is_zero}
use itmmorgue.Area.Camera.{magnitude, signs_differ}
use itmmorgue.Splash.{
  refreshed, erased, waited, deleted, waits_for, Splash, paint, fill, linger, splash_screen,
}
use itmmorgue.Splash.Logo.{
  Cell, at_corner, puts, dotted, rows_below, picture, letter, tone, logo, tones, logo_cells,
  logo_cells-logo, logo_cells-tones,
}
use itmmorgue.Splash.OnScreen.{OnScreen, Fine, paint-Fine, fill-Fine, draw_logo-Fine}
use itmmorgue.Splash.Written.{Shows, fill-Shows, draw_logo-Shows}

abbrev thousandth : ℤ → ℤ
thousandth a = signed_int (signs_differ a (pos 1000)) (magnitude a / 1000)

linger_ends :
    {max_y max_x n : ℕ} {cs : List Cell} {ds : List (ℕ × ℕ)} (time : ℤ) (s : Splash)
    → Fine max_y max_x n s
    → Shows max_y max_x cs ds s
    → (s' : Splash) × (linger time s ≡ ok s')
      × Fine max_y max_x (n + 1) s'
      × Shows max_y max_x cs ds s'
unfolding linger
linger_ends time s f g = elim (Bool-cases s.skip) [
  | inl e ↦ (s, rw e refl, record { on_screen = f.on_screen; few = omega (arith, f.few) }, g)
  | inr e ↦ (
    record (paint waited (paint (waits_for (thousandth time)) s)) { asked = s.asked + 1 },
    rw e refl,
    record { on_screen = (tt, (tt, f.on_screen)); few = omega (arith, f.few) },
    record { puts_are = g.puts_are; dots_are = g.dots_are },
  )
]

-- On a screen of at least 9 rows and 76 columns, with a splash time that is not 0 and a delay in
-- the configuration, and whatever keys are hit: `splash_screen` ends, and all that it draws is on
-- the screen. It draws one row of dots as wide as the screen in each row, from the lowest to the
-- highest, and prints the characters of the logo, four rows above and 48 columns left of the middle
-- on; where each place shows what was printed there last, they make the picture `logo`, in the
-- colours of `tones`. It waits for a key at most 184 times more than the screen has rows.
pub splash_screen-logo :
    (conf : Lookup) (key : ℕ → Bool) (max_y max_x : ℕ) (time delay : ℤ)
    → conf_ival conf (codes "splash_time") ≡ ok time
    → is_zero time ≡ false
    → conf_ival conf (codes "splash_delay") ≡ ok delay
    → 9 ≤ max_y
    → 76 ≤ max_x
    → (s : Splash) × (cs : List Cell) × (splash_screen true conf key max_y max_x ≡ ok s)
      × All (OnScreen max_y max_x) s.painted
      × (dotted s.painted ≡ rows_below max_y max_x [])
      × (puts s.painted ≡ map (at_corner max_y max_x) cs)
      × (picture letter cs ≡ logo)
      × (picture tone cs ≡ tones)
      × (s.asked ≤ max_y + 184)
unfolding splash_screen
splash_screen-logo conf key max_y max_x time delay has_time shown has_delay high wide =
    let start : Splash =
      paint (waits_for (pos 20)) (record { painted = []; skip = false; asked = 0 }) in
    let filled = fill key max_x max_y start in
    let blank = paint refreshed (paint erased filled) in
    let bare : Shows max_y max_x [] [] start = record { puts_are = refl; dots_are = refl } in
    let full : Shows max_y max_x [] (rows_below max_y max_x []) filled =
      fill-Shows key max_y start (omega arith) bare in
    let fine =
      fill-Fine key max_y start 0 (omega arith) (omega arith)
        (record { on_screen = (tt, tt); few = omega arith }) in
    let drawn =
      draw_logo-Shows high wide key (thousandth delay) blank
        (record { puts_are = full.puts_are; dots_are = full.dots_are }) in
    let drawn_fine =
      draw_logo-Fine high wide key (thousandth delay) blank
        (paint-Fine refreshed tt (paint-Fine erased tt fine)) in
    let (s, lingers, fine', shows) = linger_ends time _ drawn_fine drawn in
    (
      paint deleted s,
      logo_cells,
      rw (has_time, shown, has_delay, lingers) refl,
      (tt, fine'.on_screen),
      shows.dots_are,
      shows.puts_are,
      logo_cells-logo,
      logo_cells-tones,
      omega (arith, fine'.few),
    )

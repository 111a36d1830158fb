-- ===== src/Splash/Tests.antt =====
-- Tests of the splash screen.
use itmmorgue.Base.{ℕ, ◌+◌, ◌≡◌, ◌≤◌, ok, refl, arith, Bool, true, false, All, List, [], map}
use itmmorgue.Config.Values.{pos, ival}
use itmmorgue.Config.Entries.{Lookup}
use itmmorgue.Splash.{Splash, splash_screen}
use itmmorgue.Splash.OnScreen.{OnScreen}
use itmmorgue.Splash.Logo.{
  Cell, at_corner, puts, dotted, rows_below, picture, letter, tone, logo, tones,
}
use itmmorgue.Splash.Shown.{splash_screen-logo}

abbrev every_second : Lookup
every_second key = ok (ival (pos 1000))

abbrev no_key : ℕ → Bool
no_key k = false

splash_screen-logo_example :
    (s : Splash) × (cs : List Cell) × (splash_screen true every_second no_key 24 80 ≡ ok s)
    × All (OnScreen 24 80) s.painted
    × (dotted s.painted ≡ rows_below 24 80 [])
    × (puts s.painted ≡ map (at_corner 24 80) cs)
    × (picture letter cs ≡ logo)
    × (picture tone cs ≡ tones)
    × (s.asked ≤ 24 + 184)
splash_screen-logo_example =
    splash_screen-logo every_second no_key 24 80 (pos 1000) (pos 1000) refl refl refl (omega arith)
      (omega arith)

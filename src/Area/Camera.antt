-- ===== src/Area/Camera.antt =====
-- Which part of the level `draw_area` of src/area.c shows.
use itmmorgue.Base.{
  ℕ, zero, suc, ◌+◌, ◌-◌, ◌*◌, ◌/◌, ◌≤◌, ◌<◌, ◌≢◌, min, ◌^◌, ◌≡◌, refl, ◌∙◌, ap, arith, Bool, false,
  not, some, ◌==◌, if◌then◌else◌, Result, ok, stop, undefined, ◌>>=◌, or_undefined, get_elem?,
}
use itmmorgue.Player.{Roster, Player, player_at}
use itmmorgue.Config.Values.{ℤ, pos, negsuc, signed_int}
use itmmorgue.Windows.{WinInfo, same_int}
use itmmorgue.Windows.Ints.{◌+ℤ◌, neg, difference, is_negative, is_zero, int}
use itmmorgue.Area.Levels.{CLevel, CLevels}

abbrev pub magnitude : ℤ → ℕ
magnitude (pos n) = n
magnitude (negsuc n) = n + 1

abbrev pub signs_differ : ℤ → ℤ → Bool
signs_differ a b = if is_negative a then not (is_negative b) else is_negative b

-- a * b, and a / b rounded towards 0; to divide by 0 is undefined.
abbrev pub times : ℤ → ℤ → ℤ
times a b = signed_int (signs_differ a b) (magnitude a * magnitude b)

abbrev pub quotient : ℤ → ℤ → Result ℤ
quotient a b =
    if is_zero b
    then stop undefined
    else ok (signed_int (signs_differ a b) (magnitude a / magnitude b))

-- The centred view: `me - size / 2`
unfoldable pub centred : ℕ → ℤ → Result ℤ
centred me size = do half ← quotient size (pos 2); int (pos me +ℤ neg half)

-- The view that moves by parts of the screen.
unfoldable pub stepped : ℕ → ℤ → Result ℤ
stepped me size = do
  six ← int (times size (pos 6))
  part ← quotient six (pos 8)
  margin ← quotient size (pos 8)
  from ← int (pos me +ℤ neg margin)
  steps ← quotient from part
  int (times steps part)

-- The corrections of a corner: not below 0, and not beyond where the view ends with the level.
abbrev pub at_least_zero : ℤ → ℤ
at_least_zero top = if is_negative top then pos 0 else top

abbrev pub corrected : ℕ → ℤ → ℤ → ℤ
corrected limit size top =
    let most = pos limit +ℤ neg size in
    if is_negative (at_least_zero top +ℤ neg most) then at_least_zero top else most

-- `top_y` and `top_x`. The limits are those of the first level.
unfoldable pub camera_corner : ℤ → Roster → CLevels → WinInfo → Result (ℤ × ℤ)
unfolding centred stepped
camera_corner camera r levels win = if r.players_len == 0 then ok (pos 0, pos 0) else do
  me ← player_at r r.player_self
  l ← or_undefined (get_elem? levels.levels 0)
  top_y ←
      if same_int camera (pos 1)
      then centred me.y win.max_y
      else if same_int camera (pos 2)
      then stepped me.y win.max_y
      else ok (pos 0)
  top_x ←
      if same_int camera (pos 1)
      then centred me.x win.max_x
      else if same_int camera (pos 2)
      then stepped me.x win.max_x
      else ok (pos 0)
  ok (corrected l.max_y win.max_y top_y, corrected l.max_x win.max_x top_x)

pub plus-neg : (a b : ℕ) → pos a +ℤ neg (pos b) ≡ difference a b
plus-neg a zero = ground arith
plus-neg a (suc b) = ap (difference a) (omega arith)

-- A part of a line of `limit` places, from `top` on, that shows `me`.
pub record InView (limit me size : ℕ) (corner : ℤ) : Type 0 where
  pub top : ℕ
  pub corner_is : corner ≡ pos top
  pub inside : top + size ≤ limit
  pub from_top : top ≤ me
  pub to_end : me < top + size

centred-difference :
    (me size : ℕ)
    → me < 2 ^ 16
    → size < 2 ^ 16
    → centred me (pos size) ≡ ok (difference me (size / 2))
unfolding centred
centred-difference me size a b = rw (plus-neg me (size / 2)) (ground arith)

at_least_zero-difference : (a b : ℕ) → at_least_zero (difference a b) ≡ pos (a - b)
at_least_zero-difference a b = ground arith

-- The corner, as the smaller of two natural numbers.
corrected-min :
    (limit size : ℕ) (top : ℤ) (t : ℕ)
    → size ≤ limit
    → at_least_zero top ≡ pos t
    → corrected limit (pos size) top ≡ pos (min t (limit - size))
corrected-min limit size top t fits e =
    let most : pos limit +ℤ neg (pos size) ≡ pos (limit - size) =
      plus-neg limit size ∙ ground arith in
    rw (e, most, plus-neg t (limit - size)) (ground arith)

corrected-InView :
    (limit me size : ℕ)
    → 0 < size
    → size ≤ limit
    → me < limit
    → InView limit me size (corrected limit (pos size) (difference me (size / 2)))
corrected-InView limit me size some_size fits on = record {
  top = min (me - size / 2) (limit - size);
  corner_is =
      corrected-min limit size (difference me (size / 2)) (me - size / 2) fits
        (at_least_zero-difference me (size / 2));
  inside = omega arith;
  from_top = omega arith;
  to_end = omega arith;
}

-- With the centred view, a player that counts, and an area window of a positive size below 2^16
-- that is no larger than the first level, on which the player is: the corner is one at which the
-- whole window shows tiles of the level, and the player is in the window.
pub camera_corner-InView :
    (r : Roster) (c : CLevels) (win : WinInfo) (me : Player) (l : CLevel) (h w : ℕ)
    → r.players_len ≢ 0
    → get_elem? r.players r.player_self ≡ some me
    → get_elem? c.levels 0 ≡ some l
    → win.max_y ≡ pos h
    → win.max_x ≡ pos w
    → 0 < h
    → 0 < w
    → h < 2 ^ 16
    → w < 2 ^ 16
    → h ≤ l.max_y
    → w ≤ l.max_x
    → me.y < l.max_y
    → me.x < l.max_x
    → me.y < 2 ^ 16
    → me.x < 2 ^ 16
    → (top : ℤ) × (left : ℤ) × (camera_corner (pos 1) r c win ≡ ok (top, left))
      × InView l.max_y me.y h top
      × InView l.max_x me.x w left
unfolding camera_corner player_at
camera_corner-InView r c win me l h w counted at at_l h_is w_is h₀ w₀ h₁ w₁ h₂ w₂ y x y₁ x₁ =
    let counts : (r.players_len == 0) ≡ false = ground arith in
    (
      corrected l.max_y (pos h) (difference me.y (h / 2)),
      corrected l.max_x (pos w) (difference me.x (w / 2)),
      rw
          (
            counts,
            at,
            at_l,
            h_is,
            w_is,
            centred-difference me.y h y₁ h₁,
            centred-difference me.x w x₁ w₁,
          )
          refl,
      corrected-InView l.max_y me.y h h₀ h₂ y,
      corrected-InView l.max_x me.x w w₀ w₂ x,
    )

-- ===== src/Area/Drawing/Picture.antt =====
-- The whole of what `draw_area` of src/area.c draws with the centred view.
use mathlib.Core.Path.{subst}
use itmmorgue.Base.{
  ℕ, zero, suc, ◌+◌, ◌-◌, ◌*◌, ◌≤◌, ◌<◌, ◌≡◌, refl, ◌∙◌, ap, ap₂, arith, Option, some, List, [],
  ◌∷◌, ◌++◌, ok, Bytes, codes, length, get_elem?, get_elem?-of_lt, ◌==◌, Bool-cases, inl, inr,
}
use itmmorgue.Config.Values.{ℤ, pos, negsuc}
use itmmorgue.Config.Entries.{Lookup, conf_ival}
use itmmorgue.Windows.{WinInfo}
use itmmorgue.Windows.Ints.{◌+ℤ◌, neg, int, difference}
use itmmorgue.Player.{Roster, Player, player_at}
use itmmorgue.Area.Levels.{CLevel, area_of}
use itmmorgue.Area.Camera.{camera_corner, camera_corner-InView, plus-neg}
use itmmorgue.Area.Drawing.{
  Ink, symbol, Status, color2attr, draw_players, draw_variables, draw_level, draw_area, s_player,
  draw_tiles, variable_lines,
}
use itmmorgue.Area.Drawing.Window.{Shows, AllKnown, IsLevel, each, moved_Shows, draw_tiles-Shows}
use itmmorgue.Area.Drawing.Waiting.{waiting_for_start, draw_waiting-eq, int-difference}

-- The mark of a player, seen from a corner.
abbrev pub mark : ℕ → ℤ → ℤ → Player → Ink
mark s top left p = symbol (pos p.y +ℤ neg top) (pos p.x +ℤ neg left) s (color2attr p.color)

-- A command marks player `i`.
abbrev pub Marks : Roster → ℕ → ℤ → ℤ → ℕ → Option Ink → Type 0
Marks r s top left i ink =
    (p : Player) × (get_elem? r.players i ≡ some p) × (ink ≡ some (mark s top left p))

module _ (symbols : List ℕ) (s : ℕ) (known : get_elem? symbols s_player ≡ some s) (r : Roster)
    (top left : ℤ) where
  draw_players-Marks :
      (i n : ℕ)
      → i + n ≤ length r.players
      → (out : List Ink) × (draw_players symbols r top left i n ≡ ok out)
        × (length out ≡ n)
        × ((j : ℕ) → j < n → Marks r s top left (i + j) (get_elem? out j))
  unfolding draw_players player_at
  draw_players-Marks i zero h = ([], refl, refl, λ j lt. absurd (omega arith))
  draw_players-Marks i (suc n) h =
      let (p, at) = get_elem?-of_lt r.players i (omega arith) in
      let (out, draws, long, marks) = draw_players-Marks (i + 1) n (omega arith) in
      (
        mark s top left p ∷ out,
        rw (at, known, draws) refl,
        omega (arith, long),
        each (λ j. Marks r s top left (i + j)) n (mark s top left p) out
            (p, ap (get_elem? r.players) (omega arith) ∙ at, refl)
            (λ j lt.
              (let (q, at', is) = marks j lt in
                (q, ap (get_elem? r.players) (omega arith) ∙ at', is))),
      )

-- What is drawn, in order: what is for the time before the start, the tiles of the level in the window, the
-- variables, and the marks of the players that count, the own one in the window.
pub record Picture (translate : Bytes → Bytes) (st : Status) (levels_count : ℕ) (symbols : List ℕ)
    (r : Roster) (l : CLevel) (me : Player) (win : WinInfo) (h w : ℕ) (inks : List Ink)
    : Type 0 where
  pub top : ℕ
  pub left : ℕ
  pub tiles : List Ink
  pub marks : List Ink
  pub inks_are :
      inks
      ≡ waiting_for_start translate levels_count r h
        ++ (tiles ++ (variable_lines translate st r win (pos top) (pos left) me ++ marks))
  pub inside : (top + h ≤ l.max_y) × (left + w ≤ l.max_x)
  pub count : length tiles ≡ h * w
  pub shown :
      (i j : ℕ)
      → i < h
      → j < w
      → Shows symbols l.area ((i + top) * l.max_x + (left + j)) i j (get_elem? tiles (i * w + j))
  pub glyph : ℕ
  pub glyph_is : get_elem? symbols s_player ≡ some glyph
  pub mark_count : length marks ≡ r.players_len
  pub all_marked :
      (j : ℕ) → j < r.players_len → Marks r glyph (pos top) (pos left) j (get_elem? marks j)
  pub marked :
      get_elem? marks r.player_self
      ≡ some (symbol (pos (me.y - top)) (pos (me.x - left)) glyph (color2attr me.color))
  pub on_window : (me.y - top < h) × (me.x - left < w)

-- A game that a client shows: the level has its size and known symbols, the client's own player is on it, and the
-- window is no larger than it.
pub record Shown (symbols : List ℕ) (r : Roster) (l : CLevel) (me : Player) (win : WinInfo)
    (h w : ℕ) : Type 0 where
  pub symbols_in : s_player < length symbols
  pub known : AllKnown symbols l.area
  pub sized : IsLevel l
  pub players_in : r.players_len ≤ length r.players
  pub self_in : r.player_self < r.players_len
  pub at : get_elem? r.players r.player_self ≡ some me
  pub height : win.max_y ≡ pos h
  pub width : win.max_x ≡ pos w
  pub some_rows : 0 < h
  pub some_columns : 0 < w
  pub rows_in : h ≤ l.max_y
  pub columns_in : w ≤ l.max_x
  pub on_y : me.y < l.max_y
  pub on_x : me.x < l.max_x

mark-in :
    (s t f : ℕ) (p : Player)
    → t ≤ p.y
    → f ≤ p.x
    → mark s (pos t) (pos f) p ≡ symbol (pos (p.y - t)) (pos (p.x - f)) s (color2attr p.color)
mark-in s t f p hy hx =
    ap₂ (λ y x. symbol y x s (color2attr p.color)) (plus-neg p.y t ∙ ground arith)
      (plus-neg p.x f ∙ ground arith)

module _ (translate : Bytes → Bytes) (conf : Lookup) (symbols : List ℕ) (st : Status) (r : Roster)
    (l : CLevel) (more : List CLevel) (me : Player) (win : WinInfo) (h w : ℕ)
    (centre : conf_ival conf (codes "player_camera") ≡ ok (pos 1))
    (g : Shown symbols r l me win h w) where
  draw_level-eq :
      (t f : ℕ) (tiles marks : List Ink)
      → camera_corner (pos 1) r (record { levels = l ∷ more; current = 0 }) win ≡ ok (pos t, pos f)
      → draw_tiles symbols l (pos t) (pos f) w 0 h ≡ ok tiles
      → draw_players symbols r (pos t) (pos f) 0 r.players_len ≡ ok marks
      → draw_level translate conf symbols st r (record { levels = l ∷ more; current = 0 }) win
        ≡ ok (tiles ++ (variable_lines translate st r win (pos t) (pos f) me ++ marks))
  unfolding draw_level draw_variables player_at area_of
  draw_level-eq t f tiles marks corner draws draws' =
      rw (centre, corner, g.height, g.width, draws, g.at, draws') refl

  draw_level-Picture :
      (levels_count : ℕ)
      → (inks : List Ink) × (draw_level translate conf symbols st r
            (record { levels = l ∷ more; current = 0 })
            win
          ≡ ok inks)
        × Picture translate st levels_count symbols r l me win h w
            (waiting_for_start translate levels_count r h ++ inks)
  draw_level-Picture levels_count =
      let (top, left, corner, in_y, in_x) =
        camera_corner-InView r (record { levels = l ∷ more; current = 0 }) win me l h w
          (λ e. omega (arith, e, g.self_in)) g.at refl g.height g.width g.some_rows g.some_columns
          (omega (arith, g.rows_in, g.sized.high)) (omega (arith, g.columns_in, g.sized.wide))
          g.rows_in g.columns_in g.on_y g.on_x (omega (arith, g.on_y, g.sized.high))
          (omega (arith, g.on_x, g.sized.wide)) in
      let t = in_y.top in
      let f = in_x.top in
      let (s, known) = get_elem?-of_lt symbols s_player g.symbols_in in
      let (tiles, draws, count, shown) =
        draw_tiles-Shows symbols l g.known g.sized t f w 0 h (omega (arith, in_y.inside))
          in_x.inside in
      let (marks, draws', long, marked) =
        draw_players-Marks symbols s known r (pos t) (pos f) 0 r.players_len
          (omega (arith, g.players_in)) in
      let (p, at, is) = marked r.player_self g.self_in in
      let at' : get_elem? r.players r.player_self ≡ some p =
        ap (get_elem? r.players) (omega arith) ∙ at in
      let same : p ≡ me = cc (at', g.at) in
      let marks_of : (j : ℕ)
          → Marks r s (pos t) (pos f) (0 + j) (get_elem? marks j)
          → Marks r s (pos t) (pos f) j (get_elem? marks j) =
        λ j m. subst (λ i. Marks r s (pos t) (pos f) i (get_elem? marks j)) (omega arith) m in
      let variables = variable_lines translate st r win (pos t) (pos f) me in
      (
        tiles ++ (variables ++ marks),
        draw_level-eq t f tiles marks
            (corner ∙ ap₂ (λ a b. ok (a, b)) in_y.corner_is in_x.corner_is) draws draws',
        record {
          top = t;
          left = f;
          tiles = tiles;
          marks = marks;
          inks_are = refl;
          inside = (in_y.inside, in_x.inside);
          count = count;
          shown = λ i j hi hj. moved_Shows (omega arith) (omega arith) refl (shown i j hi hj);
          glyph = s;
          glyph_is = known;
          mark_count = long;
          all_marked = λ j lt. marks_of j (marked j lt);
          marked =
              is
              ∙ ap (λ q. some (mark s (pos t) (pos f) q)) same
              ∙ ap some (mark-in s t f me in_y.from_top in_x.from_top);
          on_window = (
            omega (arith, in_y.from_top, in_y.to_end),
            omega (arith, in_x.from_top, in_x.to_end),
          );
        },
      )

  -- With the centred view and a game that a client shows (`Shown`): `draw_area` succeeds. It draws,
  -- in this order, what is shown before the start, if no level is counted (`waiting_for_start`);
  -- for each row and column of the window the symbol and the colour of the tile of the level at
  -- that distance from the corner of the view, all inside of the level; the variables
  -- (`variable_lines`); and for each player that counts its mark, at its place counted from that
  -- corner, of which the client's own is inside of the window.
  pub draw_area-Picture :
      (levels_count : ℕ)
      → (inks : List Ink) × (draw_area translate conf symbols st levels_count r
            (record { levels = l ∷ more; current = 0 })
            win
          ≡ ok inks)
        × Picture translate st levels_count symbols r l me win h w inks
  unfolding draw_area
  draw_area-Picture levels_count =
      let (inks, draws, picture) = draw_level-Picture levels_count in
      let last : int (win.max_y +ℤ negsuc 1) ≡ ok (difference h 2) =
        ap (λ y. int (y +ℤ negsuc 1)) g.height
        ∙ int-difference h (omega (arith, g.rows_in, g.sized.high)) in
      let names =
        draw_waiting-eq translate r win (difference h 2) 0 r.players_len last
          (omega (arith, g.players_in)) in
      (
        waiting_for_start translate levels_count r h ++ inks,
        elim (Bool-cases (levels_count == 0)) [
          | inl e ↦ rw (e, names, draws) refl
          | inr e ↦ rw (e, draws) refl
        ],
        picture,
      )

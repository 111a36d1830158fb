-- ===== src/Menu/Drawing/OnScreen.antt =====
-- Where the main menu of src/menu.c is drawn, and what its numbers stand for.
use mathlib.Core.Path.{subst}
use itmmorgue.Base.{
  ℕ, zero, suc, ◌+◌, ◌-◌, ◌/◌, ◌^◌, ◌≤◌, ◌<◌, ◌≡◌, refl, ◌∙◌, ap, arith, false, Option, some, List,
  [], ◌∷◌, ◌++◌, Result, ok, Bytes, get_elem?, get_elem?-of_lt, lt_of_get_elem?, length, All,
  All-get_elem?,
}
use itmmorgue.Config.Values.{ℤ, pos}
use itmmorgue.Windows.Ints.{InScreen}
use itmmorgue.Util.{anystrlen, anystrnlen}
use itmmorgue.Menu.{Menu, Answers, pick, choose, item_of, main_items, m_main_id}
use itmmorgue.Menu.Drawing.{
  Print, plain, item, captions, size_minus, size_plus, as_int, format_text, draw_line, draw_caption,
  draw_items, draw_message, draw_options, draw_main,
}

-- A print starts on the screen.
abbrev pub OnScreen : ℕ → ℕ → Print → Type 0
OnScreen max_y max_x (plain y x t) = InScreen y max_y × InScreen x max_x
OnScreen max_y max_x (item y x n t) = InScreen y max_y × InScreen x max_x

-- The text can be a format without arguments, and is four columns narrower than the screen.
pub record Fits (max_x : ℕ) (text : Bytes) : Type 0 where
  pub len : ℕ
  pub len_is : anystrlen (text ++ 0 ∷ []) ≡ ok len
  pub narrow : len + 4 ≤ max_x
  pub shown : Bytes
  pub shown_is : format_text false text ≡ ok shown

size_minus-eq : (a b : ℕ) → b ≤ a → a < 2 ^ 64 → size_minus a b ≡ a - b
size_minus-eq a b h lt = omega arith

as_int-InScreen : (n m limit : ℕ) → n ≡ m → m < limit → limit < 2 ^ 31 → InScreen (as_int n) limit
as_int-InScreen n m limit e h lt =
    let eq : as_int n ≡ pos n = ground (arith, e) in rw eq (omega (arith, e))

All-append : {A : Type 0} (P : A → Type 0) (xs ys : List A) → All P xs → All P ys → All P (xs ++ ys)
All-append P [] ys h k = k
All-append P (x ∷ xs) ys h k = (h.0, All-append P xs ys h.1 k)

get_elem?-behind :
    {A : Type 0} (xs ys : List A) (i : ℕ) → (k : ℕ) × (get_elem? (xs ++ ys) k ≡ get_elem? ys i)
get_elem?-behind [] ys i = (i, refl)
get_elem?-behind (x ∷ xs) ys i = let (k, e) = get_elem?-behind xs ys i in (suc k, e)

module _ (translate : Bytes → Bytes) (max_y max_x : ℕ) (rows : max_y < 2 ^ 31)
    (columns : max_x < 2 ^ 31) where
  draw_line-OnScreen :
      (y x i n : ℕ) → y < max_y → x + i + n ≤ max_x → All (OnScreen max_y max_x) (draw_line y x i n)
  draw_line-OnScreen y x i zero hy hx = tt
  draw_line-OnScreen y x i (suc n) hy hx = (
    (
      as_int-InScreen y y max_y refl hy rows,
      as_int-InScreen (size_plus x i) (x + i) max_x (omega arith) (omega arith) columns,
    ),
    draw_line-OnScreen y x (i + 1) n hy (omega arith),
  )

  -- The item with number `n` shows the caption of menu `id`.
  abbrev pub Names : ℕ → ℕ → Option Print → Type 0
  Names n id p =
      (y : ℤ) × (x : ℤ) × (name : Bytes) × (get_elem? captions id ≡ some name)
      × (p ≡ some (item y x n (translate name)))

  captioned :
      (i m id : ℕ) (ids : List ℕ) (rest : List Print) (y x : ℤ) (name : Bytes)
      → get_elem? captions m ≡ some name
      → ((j id : ℕ) → get_elem? ids j ≡ some id → Names (i + 1 + j + 1) id (get_elem? rest j))
      → (j : ℕ) → get_elem? (m ∷ ids) j ≡ some id
      → Names (i + j + 1) id (get_elem? (item y x (i + 1) (translate name) ∷ rest) j)
  captioned i m id ids rest y x name at names zero e = (
    y,
    x,
    name,
    ap (get_elem? captions) (cc e) ∙ at,
    ap (λ n. some (item y x n (translate name))) (omega arith),
  )
  captioned i m id ids rest y x name at names (suc j) e =
      subst (λ n. Names n id (get_elem? rest j)) (omega arith) (names j id e)

  module _
      (fits : (id : ℕ) (name : Bytes)
        → get_elem? captions id ≡ some name
        → Fits max_x (translate name)) where
    draw_caption-OnScreen :
        (id n : ℕ)
        → id < 6
        → n / 2 + 3 ≤ max_y / 2
        → (out : List Print) × (draw_caption translate max_y max_x id n ≡ ok out)
          × All (OnScreen max_y max_x) out
    unfolding draw_caption
    draw_caption-OnScreen id n h hy =
        let (name, at) = get_elem?-of_lt captions id h in
        let f = fits id name at in
        let y = size_minus-eq (max_y / 2) (n / 2) (omega arith) (omega arith) in
        let x = size_minus-eq (max_x / 2) (f.len / 2) (omega (arith, f.narrow)) (omega arith) in
        let y₃ : size_minus (size_minus (max_y / 2) (n / 2)) 3 ≡ max_y / 2 - n / 2 - 3 =
          omega (arith, y) in
        let y₂ : size_minus (size_minus (max_y / 2) (n / 2)) 2 ≡ max_y / 2 - n / 2 - 2 =
          omega (arith, y) in
        (
          plain (as_int (size_minus (size_minus (max_y / 2) (n / 2)) 3))
                (as_int (size_minus (max_x / 2) (f.len / 2))) f.shown
              ∷ draw_line (size_minus (size_minus (max_y / 2) (n / 2)) 2)
                  (size_minus (max_x / 2) (f.len / 2)) 0 f.len,
          rw (at, f.len_is, f.shown_is) refl,
          (
            (
              as_int-InScreen _ _ max_y y₃ (omega arith) rows,
              as_int-InScreen _ _ max_x x (omega (arith, f.narrow)) columns,
            ),
            draw_line-OnScreen _ _ 0 f.len (omega (arith, y₂)) (omega (arith, x, f.narrow)),
          ),
        )

    draw_items-OnScreen :
        (start i : ℕ) (ids : List ℕ)
        → All (λ id. id < 6) ids
        → start + i + length ids ≤ max_y
        → (out : List Print) × (draw_items translate max_y max_x start i ids ≡ ok out)
          × All (OnScreen max_y max_x) out
          × ((j id : ℕ) → get_elem? ids j ≡ some id → Names (i + j + 1) id (get_elem? out j))
    unfolding draw_items
    draw_items-OnScreen start i [] h hy = ([], refl, tt, λ j id e. absurd (cc e))
    draw_items-OnScreen start i (m ∷ ids) h hy =
        let (name, at) = get_elem?-of_lt captions m h.0 in
        let f = fits m name at in
        let (rest, draws, on, names) = draw_items-OnScreen start (i + 1) ids h.1 (omega arith) in
        let x = size_minus-eq (max_x / 2) (f.len / 2) (omega (arith, f.narrow)) (omega arith) in
        let x₂ : size_minus (size_minus (max_x / 2) (f.len / 2)) 2 ≡ max_x / 2 - f.len / 2 - 2 =
          omega (arith, x, f.narrow) in
        let y : size_plus start i ≡ start + i = omega arith in
        (
          item (as_int (size_plus start i))
                (as_int (size_minus (size_minus (max_x / 2) (f.len / 2)) 2)) (i + 1)
                (translate name)
              ∷ rest,
          rw (at, f.len_is, draws) refl,
          (
            (
              as_int-InScreen _ _ max_y y (omega arith) rows,
              as_int-InScreen _ _ max_x x₂ (omega (arith, f.narrow)) columns,
            ),
            on,
          ),
          λ j id e. captioned i m id ids rest _ _ name at names j e,
        )

pick-item :
    (a : Answers) (fuel : ℕ) (enter : ℕ → Menu → Result Menu) (ids : List ℕ) (s : Menu) (j id : ℕ)
    → get_elem? ids j ≡ some id
    → a.key s.asked ≡ pos (b'0' + (j + 1))
    → pick a (suc fuel) enter ids s ≡ enter id (record s { asked = s.asked + 1 })
unfolding pick choose
pick-item a fuel enter ids s j id at key =
    let is : item_of a (length ids) (pos (b'0' + (j + 1))) ≡ some j =
      ground (arith, lt_of_get_elem? ids j at) in
    rw (pick, choose, key, is, at) refl

module _ (translate : Bytes → Bytes) (max_y max_x : ℕ) (menu_msg : Bytes) (len : ℕ) (shown : Bytes)
    (a : Answers) (tall : 14 ≤ max_y) (rows : max_y < 2 ^ 31) (columns : max_x < 2 ^ 31)
    (all_fit : All (λ name. Fits max_x (translate name)) captions)
    (len_is : anystrnlen (translate menu_msg ++ 0 ∷ []) 8192 ≡ ok len) (narrow : len < max_x)
    (shown_is : format_text false (translate menu_msg) ≡ ok shown) where
  -- On a screen of at least 14 rows, with captions and a message that can be formats and fit in its
  -- width: the main menu is drawn, and every print of it starts on the screen. The item that stands
  -- in it with a number shows the caption of the menu that the key with that digit enters.
  pub draw_main-pick :
      (fuel : ℕ) (enter : ℕ → Menu → Result Menu) (s : Menu) (j id : ℕ)
      → get_elem? (main_items a) j ≡ some id
      → a.key s.asked ≡ pos (b'0' + (j + 1))
      → (out : List Print) × (draw_main translate max_y max_x menu_msg m_main_id (main_items a)
          ≡ ok out)
        × All (OnScreen max_y max_x) out
        × ((k : ℕ) × Names translate max_y max_x rows columns (j + 1) id (get_elem? out k))
        × (pick a (suc fuel) enter (main_items a) s ≡ enter id (record s { asked = s.asked + 1 }))
  unfolding draw_main draw_options draw_message
  draw_main-pick fuel enter s j id at key =
      let fits : (id : ℕ) (name : Bytes)
          → get_elem? captions id ≡ some name
          → Fits max_x (translate name) =
        λ id name e. All-get_elem? (λ name. Fits max_x (translate name)) captions id all_fit e in
      let (top, draws, on) =
        draw_caption-OnScreen translate max_y max_x rows columns fits m_main_id 5 (omega arith)
          (omega arith) in
      let y : size_minus (max_y / 2) 2 ≡ max_y / 2 - 2 = omega arith in
      let (items, draws', on', names) =
        draw_items-OnScreen translate max_y max_x rows columns fits (size_minus (max_y / 2) 2) 0
          (main_items a)
          (omega arith, (omega arith, (omega arith, (omega arith, (omega arith, tt)))))
          (omega (arith, y)) in
      let (k, same) = get_elem?-behind top items j in
      let (y', x', name, at', is) = names j id at in
      let row = size_minus (size_minus (max_y / 2) 2) 5 in
      let column = size_minus (max_x / 2) (len / 2) in
      let row_is : row ≡ max_y / 2 - 2 - 5 = omega (arith, y) in
      let column_is : column ≡ max_x / 2 - len / 2 = omega arith in
      (
        plain (as_int row) (as_int column) shown ∷ (top ++ items),
        rw (len_is, shown_is, draws, draws') refl,
        (
          (
            as_int-InScreen row _ max_y row_is (omega arith) rows,
            as_int-InScreen column _ max_x column_is (omega arith) columns,
          ),
          All-append (OnScreen max_y max_x) top items on on',
        ),
        (
          suc k,
          (
            y',
            x',
            name,
            at',
            same ∙ is ∙ ap (λ n. some (item y' x' n (translate name))) (omega arith),
          ),
        ),
        pick-item a fuel enter (main_items a) s j id at key,
      )

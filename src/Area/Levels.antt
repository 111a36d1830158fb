-- ===== src/Area/Levels.antt =====
-- The levels of the client: `c_level_add` and the level that is current, in src/area.c.
use itmmorgue.Base.{
  Option, none, some, ℕ, ◌+◌, ◌*◌, ◌^◌, List, [], ◌∷◌, ◌++◌, ◌==◌, leb, if◌then◌else◌, Result, ok,
  stop, undefined, or_undefined, ◌>>=◌, Bytes, length, get_elem?, set, replicate, take,
}
use itmmorgue.Level.{Level}
use itmmorgue.Area.{Cell, blank}

-- `level_t` on the client.
pub record CLevel : Type 0 where
  pub id : ℕ
  pub max_y : ℕ
  pub max_x : ℕ
  pub area : List Cell
  pub name : Bytes

-- `c_levels` and `c_levels_curr`; `c_curr` is the area of the current level, and null while there is none.
pub record CLevels : Type 0 where
  pub levels : List CLevel
  pub current : ℕ

-- The search for a level with that id, from index `i` on.
abbrev pub index_of : ℕ → List CLevel → ℕ → Option ℕ
index_of id [] i = none
index_of id (l ∷ ls) i = if l.id == id then some i else index_of id ls (i + 1)

abbrev pub max_level_name : ℕ
max_level_name = 32

-- What strncpy(3) copies of a name: what is before its NUL, then NULs.
abbrev pub before_nul : Bytes → Bytes
before_nul [] = []
before_nul (c ∷ cs) = if c == 0 then [] else c ∷ before_nul cs

-- A new level: its area is blank. The product of the two uint16_t is an int.
unfoldable pub new_level : Level → Result CLevel
new_level l =
    if leb (2 ^ 31) (l.max_y * l.max_x)
    then stop undefined
    else ok (record {
      id = l.id;
      max_y = l.max_y;
      max_x = l.max_x;
      area = replicate (l.max_y * l.max_x) blank;
      name = take max_level_name (before_nul l.name ++ replicate max_level_name 0);
    })

unfoldable pub c_level_add : CLevels → Level → Result CLevels
unfolding new_level
c_level_add c l = elim (index_of l.id c.levels 0) [
  | some i ↦ ok (record c { current = i })
  | none ↦ do
    new ← new_level l
    ok (record { levels = c.levels ++ new ∷ []; current = length c.levels })
]

-- The current level, and its area written back.
unfoldable pub area_of : CLevels → Result CLevel
area_of c = or_undefined (get_elem? c.levels c.current)

unfoldable pub put_area_of : CLevels → List Cell → Result CLevels
unfolding area_of
put_area_of c cells = do
  l ← area_of c
  ok (record c { levels = set c.levels c.current (record l { area = cells }) })

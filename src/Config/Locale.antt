-- ===== src/Config/Locale.antt =====
-- `locale_parse` of src/locale.c.
use itmmorgue.Base.{
  ℕ, ◌+◌, ◌*◌, ◌==◌, ◌||◌, not, Option, none, some, if◌then◌else◌, Result, ok, ◌>>=◌, Bytes,
  is_space,
}
use itmmorgue.Config.{
  Retval, cp_success, cp_no_key, cp_no_value, Pass, on, return, read, write, finish, parse,
}

-- `enum LOCALE_STATE`
pub data State : Type 0 where
  l_waitkey l_trimkey l_waitkeycomment l_inkey l_esckey : State
  l_waitval l_trimval l_waitvalcomment l_inval l_escval : State

pub record Parser : Type 0 where
  pub state : State
  pub off : ℕ
  pub pos : ℕ
  pub key : Bytes
  pub value : Bytes

-- `off++` and a new state; a character that is kept.
abbrev pub skip : State → Parser → Result (Pass Parser)
skip st s = ok (on (record s { state = st; off = s.off + 1 }))

unfoldable pub keep_key : ℕ → Parser → Result (Pass Parser)
keep_key c s = do
  k ← write s.key s.pos c
  ok (on (record s { state = l_inkey; key = k; pos = s.pos + 1; off = s.off + 1 }))

unfoldable pub keep_value : ℕ → Parser → Result (Pass Parser)
keep_value c s = do
  v ← write s.value s.pos c
  ok (on (record s { state = l_inval; value = v; pos = s.pos + 1; off = s.off + 1 }))

-- The closing brace cuts the spaces off the end.
unfoldable pub end_key : Parser → Result (Pass Parser)
end_key s = do
  r ← finish s.key s.pos
  ok (on (record s { state = l_waitval; key = r.0; pos = 0; off = s.off + 1 }))

unfoldable pub end_value : Parser → Result (Pass Parser)
end_value s = do
  r ← finish s.value s.pos
  let off = s.off + 1
  ok (return cp_success (some off) (record s { value = r.0; pos = r.1; off = off }))

-- The switch, by the character `c` at `off`.
unfoldable pub on_char : State → ℕ → Parser → Result (Pass Parser)
on_char l_waitkey c s =
    if c == b'#'
    then skip l_waitkeycomment s
    else if c == b'{'
    then skip l_trimkey s
    else if is_space c
    then skip l_waitkey s
    else if c == 0
    then ok (return cp_success none s)
    else ok (return cp_no_key none s)
on_char l_trimkey c s =
    if not (is_space c) then ok (on (record s { state = l_inkey })) else skip l_trimkey s
on_char l_waitkeycomment c s = if c == b'\n' then skip l_waitkey s else skip l_waitkeycomment s
on_char l_inkey c s =
    if c == b'\\' then skip l_esckey s else if c == b'}' then end_key s else keep_key c s
on_char l_esckey c s = keep_key c s
on_char l_waitval c s =
    if c == b'{'
    then skip l_trimval s
    else if c == b'#'
    then skip l_waitvalcomment s
    else if (c == b'=') || is_space c
    then skip l_waitval s
    else ok (return cp_no_value none s)
on_char l_trimval c s =
    if not (is_space c) then ok (on (record s { state = l_inval })) else skip l_trimval s
on_char l_waitvalcomment c s = if c == b'\n' then skip l_waitval s else skip l_waitvalcomment s
on_char l_inval c s =
    if c == b'\\' then skip l_escval s else if c == b'}' then end_value s else keep_value c s
on_char l_escval c s = keep_value c s

unfoldable pub switch : Bytes → Parser → Result (Pass Parser)
unfolding on_char keep_key keep_value end_key end_value
switch buf s = do c ← read buf s.off; on_char s.state c s

-- `locale_parse`, with the buffers for key and value as they are before the call. The fuel is shown to
-- be enough in Ends.
unfoldable pub locale_parse : Bytes → ℕ → Bytes → Bytes → Result (Retval × Option ℕ × Parser)
locale_parse buf len key value =
    parse (λ (s : Parser). s.off) (λ (s : Parser). s.pos) (switch buf) len (2 * len + 1)
      (record { state = l_waitkey; off = 0; pos = 0; key = key; value = value })

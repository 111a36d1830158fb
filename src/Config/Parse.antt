-- ===== src/Config/Parse.antt =====
-- `parse_option` of src/config.c. The trie of the options is in lib/trie, which is not part of this
-- repository's files, and so is a parameter: `T` is a trie, and `type_of` what it says of a key.
use itmmorgue.Base.{
  ℕ, ◌+◌, ◌*◌, ◌==◌, ◌||◌, ◌&&◌, Option, none, some, if◌then◌else◌, Result, ok, stop, panic,
  illegal_option, or_undefined, ◌>>=◌, Bytes, is_space, c_string, replicate, List, [], ◌∷◌, ltb,
  length, set, undefined,
}
use itmmorgue.Config.{
  Retval, cp_success, cp_no_key, cp_no_value, cp_undef, Pass, on, return, read, write, finish,
  parse, max_opt_len,
}

-- `enum conf_type`
pub data ConfType : Type 0 where
  conf_string conf_int conf_char : ConfType

-- `enum CONFIG_STATE`
pub data State : Type 0 where
  c_waitkey c_read_inc c_waitkeycomment c_inkey c_esckey : State
  c_waiteq c_waitval c_valcomment c_inval c_escval : State

-- The locals, the buffers, what `*type` was set to, and the trie, which an included file changes.
pub record Parser (T : Type 0) : Type 0 where
  pub state : State
  pub off : ℕ
  pub pos : ℕ
  pub include : List (Option ℕ)
  pub key : Bytes
  pub value : Bytes
  pub type : Option ConfType
  pub conf : T

-- The name in `include`: bytes that were written, and then the NUL.
unfoldable pub name_in : List (Option ℕ) → Result Bytes
name_in [] = stop undefined
name_in (none ∷ cs) = stop undefined
name_in (some c ∷ cs) = do
  let rest = name_in cs
  if c == 0 then ok [] else do name ← rest; ok (c ∷ name)

module _ {T : Type 0} where
  abbrev pub skip : State → Parser T → Result (Pass (Parser T))
  skip st s = ok (on (record s { state = st; off = s.off + 1 }))

  abbrev pub give_up : Retval → Parser T → Result (Pass (Parser T))
  give_up r s = ok (return r none s)

  unfoldable pub keep_key : ℕ → Parser T → Result (Pass (Parser T))
  keep_key c s = do
    k ← write s.key s.pos c
    ok (on (record s { state = c_inkey; key = k; pos = s.pos + 1; off = s.off + 1 }))

  unfoldable pub keep_value : ℕ → Parser T → Result (Pass (Parser T))
  keep_value c s = do
    v ← write s.value s.pos c
    ok (on (record s { state = c_inval; value = v; pos = s.pos + 1; off = s.off + 1 }))

  -- `include[pos++] = buf[off++]`
  unfoldable pub keep_include : ℕ → Parser T → Result (Pass (Parser T))
  keep_include c s =
      if ltb s.pos (length s.include)
      then ok (
          on
            (record s { include = set s.include s.pos (some c); pos = s.pos + 1; off = s.off + 1 }))
      else stop undefined

  -- A comment or an include leaves an empty key.
  unfoldable pub no_option : ℕ → Parser T → Result (Pass (Parser T))
  no_option off s = do
    k ← write s.key 0 0
    ok (return cp_success (some off) (record s { off = off; key = k }))

  -- The end of a value, at a comment or at the end of its line.
  unfoldable pub end_value : Parser T → Result (Option (Parser T))
  end_value s = do
    first ← read s.value 0
    if first == 0 then ok none else do
      r ← finish s.value s.pos
      ok (some (record s { value = r.0; pos = r.1; off = s.off + 1 }))

  unfoldable pub at_comment : Parser T → Result (Pass (Parser T))
  unfolding end_value
  at_comment s = do
    r ← end_value s
    elim r [ none ↦ give_up cp_undef s | some s' ↦ ok (on (record s' { state = c_valcomment })) ]

  unfoldable pub at_line_end : Parser T → Result (Pass (Parser T))
  unfolding end_value
  at_line_end s = do
    r ← end_value s
    elim r [ none ↦ give_up cp_undef s | some s' ↦ ok (return cp_success (some s'.off) s') ]

  module _ (parse_file : Bytes → T → Result T) (type_of : T → Bytes → Option ConfType) where
    -- The name of an included file ends: it is parsed on the spot.
    unfoldable pub end_include : Parser T → Result (Pass (Parser T))
    unfolding name_in no_option
    end_include s = do
      let include = set s.include s.pos (some 0)
      name ← if ltb s.pos (length s.include) then name_in include else stop undefined
      conf ← parse_file name s.conf
      no_option s.off (record s { include = include; conf = conf })

    -- The key ends: the trie must know it.
    unfoldable pub end_key : Parser T → Result (Pass (Parser T))
    end_key s = do
      k ← write s.key s.pos 0
      name ← or_undefined (c_string k)
      elim (type_of s.conf name) [
        | none ↦ stop (panic illegal_option)
        | some t ↦ ok (on (record s { state = c_waiteq; key = k; pos = 0; type = some t }))
      ]

    -- `C_WAITKEY`; only behind a dot the next character is looked at.
    unfoldable pub at_key : Bytes → ℕ → Parser T → Result (Pass (Parser T))
    at_key buf c s = do
      next ← if c == b'.' then read buf (s.off + 1) else ok 0
      if (c == b'.') && (next == b' ')
          then ok (
              on (record s {
                state = c_read_inc;
                pos = 0;
                include = replicate max_opt_len none;
                off = s.off + 2;
              }))
          else if c == b'#'
          then skip c_waitkeycomment s
          else if is_space c
          then skip c_waitkey s
          else if c == 0
          then give_up cp_success s
          else if c == b'='
          then give_up cp_no_key s
          else ok (on (record s { state = c_inkey }))

    -- The switch, by the character `c` at `off`.
    unfoldable pub on_char : Bytes → State → ℕ → Parser T → Result (Pass (Parser T))
    on_char buf c_waitkey c s = at_key buf c s
    on_char buf c_read_inc c s =
        if c == 0
        then give_up cp_undef s
        else if c == b'\n'
        then end_include s
        else keep_include c s
    on_char buf c_waitkeycomment c s =
        if c == b'\n' then no_option (s.off + 1) s else skip c_waitkeycomment s
    on_char buf c_inkey c s =
        if c == b'\\'
        then skip c_esckey s
        else if c == b'\n'
        then give_up cp_no_value s
        else if (c == b'=') || is_space c
        then end_key s
        else keep_key c s
    on_char buf c_esckey c s = keep_key c s
    on_char buf c_waiteq c s =
        if c == b'='
        then skip c_waitval s
        else if c == b'\n'
        then give_up cp_no_value s
        else if is_space c
        then skip c_waiteq s
        else give_up cp_no_value s
    on_char buf c_waitval c s =
        if c == b'\n'
        then give_up cp_no_value s
        else if is_space c
        then skip c_waitval s
        else if c == 0
        then give_up cp_no_value s
        else ok (on (record s { state = c_inval }))
    on_char buf c_inval c s =
        if c == b'#'
        then at_comment s
        else if c == b'\\'
        then skip c_escval s
        else if c == b'\n'
        then at_line_end s
        else keep_value c s
    on_char buf c_escval c s = keep_value c s
    on_char buf c_valcomment c s =
        if c == b'\n' then ok (return cp_success (some s.off) s) else skip c_valcomment s

    unfoldable pub switch : Bytes → Parser T → Result (Pass (Parser T))
    unfolding on_char keep_key keep_value keep_include no_option at_comment at_line_end end_include
        end_key at_key
    switch buf s = do c ← read buf s.off; on_char buf s.state c s

    -- `parse_option`, with the buffers for key and value as they are before the call. The fuel is shown
    -- to be enough in ParseEnds.
    unfoldable pub parse_option :
        Bytes → ℕ → Bytes → Bytes → Option ConfType → T → Result (Retval × Option ℕ × Parser T)
    parse_option buf len key value type conf =
        parse (λ (s : Parser T). s.off) (λ (s : Parser T). s.pos) (switch buf) len (3 * len + 1)
          (record {
            state = c_waitkey;
            off = 0;
            pos = 0;
            include = [];
            key = key;
            value = value;
            type = type;
            conf = conf;
          })

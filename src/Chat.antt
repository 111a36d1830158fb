-- ===== src/Chat.antt =====
-- The chat buffers of src/chat.c and the buffer of system messages of src/sysmsg.c: a heap block and the
-- string in it.
pub mod Append
pub mod Input
pub mod Erase
pub mod Draw
mod Tests
use itmmorgue.Base.{
  ℕ, ◌+◌, ◌^◌, [], ◌∷◌, ◌++◌, ◌==◌, leb, if◌then◌else◌, Result, ok, stop, undefined, ◌>>=◌, length,
  Bytes,
}

pub record TextBuf : Type 0 where
  pub size : ℕ
  pub string : Bytes

-- strcat(3): the string, the added one and a NUL must fit into the block.
unfoldable pub strcat : TextBuf → Bytes → Result TextBuf
strcat b str =
    if leb (length b.string + length str + 1) b.size
    then ok (record b { string = b.string ++ str })
    else stop undefined

-- `newsize`, an int: a length that it cannot hold is undefined.
unfoldable pub newsize : TextBuf → Bytes → Result ℕ
newsize b str =
    let n = length b.string + 1 + length str + 1 in if leb (2 ^ 31) n then stop undefined else ok n

-- `s_chat_add`: realloc, then strcat.
unfoldable pub s_chat_add : TextBuf → Bytes → Result TextBuf
unfolding strcat newsize
s_chat_add b str = do n ← newsize b str; strcat (record b { size = n }) str

-- The newlines of `str`, which `c_chat_add` adds to `chat_num_lines`.
abbrev pub lines_in : Bytes → ℕ
lines_in [] = 0
lines_in (c ∷ cs) = (if c == b'\n' then 1 else 0) + lines_in cs

-- The client's globals `chat` and `chat_num_lines`.
pub record ClientChat : Type 0 where
  pub chat : TextBuf
  pub chat_num_lines : ℕ

unfoldable pub c_chat_add : ClientChat → Bytes → Result ClientChat
unfolding s_chat_add
c_chat_add c str = do
  b ← s_chat_add c.chat str
  ok (record { chat = b; chat_num_lines = c.chat_num_lines + lines_in str })

-- `c_sysmsg_add` does to the system messages what `s_chat_add` does to the chat.
unfoldable pub c_sysmsg_add : TextBuf → Bytes → Result TextBuf
unfolding strcat newsize
c_sysmsg_add b str = do n ← newsize b str; strcat (record b { size = n }) str

-- ===== src/Chat/Append.antt =====
-- The buffers of src/chat.c and src/sysmsg.c are always large enough for what is appended.
use itmmorgue.Base.{◌+◌, ◌<◌, ◌≡◌, ◌^◌, arith, ◌++◌, ok, length, Bytes}
use itmmorgue.Chat.{TextBuf, s_chat_add, c_sysmsg_add}

module _ (b : TextBuf) (str : Bytes) where
  abbrev pub appended : TextBuf
  appended = record { size = length b.string + 1 + length str + 1; string = b.string ++ str }

  module _ (small : length b.string + length str + 2 < 2 ^ 31) where
    -- If the new size is below the limit of an int, `s_chat_add` succeeds: the block has the size
    -- for both texts and a NUL, and the string is the old one with the new one behind it.
    pub s_chat_add-appended : s_chat_add b str ≡ ok appended
    unfolding s_chat_add
    s_chat_add-appended = ground arith

    pub c_sysmsg_add-appended : c_sysmsg_add b str ≡ ok appended
    unfolding c_sysmsg_add
    c_sysmsg_add-appended = ground arith

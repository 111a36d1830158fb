-- ===== src/Protocol/Wire.antt =====
-- How a message goes over a socket: `send_mbuf` of src/protocol.c, for a payload that is a block of bytes. An
-- int has four bytes, a size_t eight, the low one first.
pub mod Numbers
use itmmorgue.Base.{
  ℕ, zero, suc, ◌+◌, ◌*◌, ◌/◌, ◌%◌, Option, none, List, [], ◌∷◌, ◌++◌, ◌==◌, leb, if◌then◌else◌,
  Result, ok, stop, undefined, ◌>>=◌, Bytes, length, take, get_elem?,
}
use itmmorgue.Protocol.Types.{
  Mbuf, MsgType, echo_request, echo_reply, report_nickname, error_nickname, put_level, put_area,
  get_chat, new_chat, put_chat, put_sysmsg, subscribe_sysmsg, put_players, put_players_full,
  move_player, put_status,
}

-- A number as it lies in memory, in `k` bytes.
abbrev pub bytes_of : ℕ → ℕ → Bytes
bytes_of zero n = []
bytes_of (suc k) n = n % 256 ∷ bytes_of k (n / 256)

abbrev pub number_of : Bytes → ℕ
number_of [] = 0
number_of (b ∷ bs) = b + 256 * number_of bs

-- The values of `enum msg_type`, in their order.
abbrev pub msg_types : List MsgType
msg_types =
    echo_request ∷ echo_reply ∷ report_nickname ∷ error_nickname ∷ put_level ∷ put_area ∷ get_chat
    ∷ new_chat ∷ put_chat ∷ put_sysmsg ∷ subscribe_sysmsg ∷ put_players ∷ put_players_full
    ∷ move_player ∷ put_status ∷ []

unfoldable pub type_number : MsgType → ℕ
type_number echo_request = 0
type_number echo_reply = 1
type_number report_nickname = 2
type_number error_nickname = 3
type_number put_level = 4
type_number put_area = 5
type_number get_chat = 6
type_number new_chat = 7
type_number put_chat = 8
type_number put_sysmsg = 9
type_number subscribe_sysmsg = 10
type_number put_players = 11
type_number put_players_full = 12
type_number move_player = 13
type_number put_status = 14

-- `msg_t` in memory.
unfoldable pub header : MsgType → ℕ → ℕ → Bytes
header t version size = bytes_of 4 (type_number t) ++ (bytes_of 4 version ++ bytes_of 8 size)

-- What write(2) and writev(2) answer, and `send_mbuf` returns: -1, or the bytes written.
pub data Written : Type 0 where
  failed : Written
  wrote : ℕ → Written

abbrev pub gone_out : Bytes → Written → Bytes
gone_out b failed = []
gone_out b (wrote k) = take k b

-- `send_mbuf` and `send_fat_mbuf`: what goes out, and what is returned.
unfoldable pub send_mbuf : (Bytes → Written) → Mbuf Bytes → Result (Bytes × Written)
send_mbuf write m = do
  let first = header m.type m.version m.size
  block ←
      if m.size == 0
      then ok first
      else if leb m.size (length m.payload)
      then ok (first ++ take m.size m.payload)
      else stop undefined
  ok (gone_out block (write block), write block)

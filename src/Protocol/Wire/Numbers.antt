-- ===== src/Protocol/Wire/Numbers.antt =====
-- The numbers of a header of src/protocol.h survive the way through memory.
use itmmorgue.Base.{
  ℕ, zero, suc, ◌*◌, ◌/◌, ◌<◌, ◌^◌, ◌≡◌, refl, arith, some, length, get_elem?, lt_of_get_elem?,
}
use itmmorgue.Protocol.Types.{
  MsgType, echo_request, echo_reply, report_nickname, error_nickname, put_level, put_area, get_chat,
  new_chat, put_chat, put_sysmsg, subscribe_sysmsg, put_players, put_players_full, move_player,
  put_status,
}
use itmmorgue.Protocol.Wire.{bytes_of, number_of, msg_types, type_number, header}

abbrev pub limit : ℕ → ℕ
limit zero = 1
limit (suc k) = 256 * limit k

pub number_of-bytes_of : (k n : ℕ) → n < limit k → number_of (bytes_of k n) ≡ n
number_of-bytes_of zero n h = omega arith
number_of-bytes_of (suc k) n h =
    let rest = number_of-bytes_of k (n / 256) (omega arith) in omega arith

pub msg_types-type_number : (t : MsgType) → get_elem? msg_types (type_number t) ≡ some t
unfolding type_number
msg_types-type_number echo_request = refl
msg_types-type_number echo_reply = refl
msg_types-type_number report_nickname = refl
msg_types-type_number error_nickname = refl
msg_types-type_number put_level = refl
msg_types-type_number put_area = refl
msg_types-type_number get_chat = refl
msg_types-type_number new_chat = refl
msg_types-type_number put_chat = refl
msg_types-type_number put_sysmsg = refl
msg_types-type_number subscribe_sysmsg = refl
msg_types-type_number put_players = refl
msg_types-type_number put_players_full = refl
msg_types-type_number move_player = refl
msg_types-type_number put_status = refl

pub type_number_lt : (t : MsgType) → type_number t < 2 ^ 32
type_number_lt t =
    omega (arith, lt_of_get_elem? msg_types (type_number t) (msg_types-type_number t))

pub length-header : (t : MsgType) (v n : ℕ) → length (header t v n) ≡ 16
unfolding header
length-header t v n = refl

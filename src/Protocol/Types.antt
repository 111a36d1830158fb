-- ===== src/Protocol/Types.antt =====
-- src/protocol.h: the messages and the buffers that carry them.
use itmmorgue.Base.{ℕ}

-- `enum msg_type`
pub data MsgType : Type 0 where
  echo_request echo_reply report_nickname error_nickname put_level put_area : MsgType
  get_chat new_chat put_chat put_sysmsg subscribe_sysmsg : MsgType
  put_players put_players_full move_player put_status : MsgType

abbrev pub protocol_version : ℕ
protocol_version = 2

-- `mbuf_t`, its `msg` laid open. `P` is what the payload pointer leads to.
pub record Mbuf (P : Type 0) : Type 0 where
  pub type : MsgType
  pub version : ℕ
  pub size : ℕ
  pub payload : P

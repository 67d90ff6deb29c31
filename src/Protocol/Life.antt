-- ===== src/Protocol/Life.antt =====
-- The start and the end of protocol/uni_communication.c. The statics of the receive path keep their
-- values: only `g_comm_protocol_business` is zeroed.
use lib_uart_comm_protocol_l.Prelude.{Bool, false, none}
use lib_uart_comm_protocol_l.Protocol.State.{CommProtocol}

-- `memset` of `g_comm_protocol_business`
zeroed : CommProtocol → CommProtocol
zeroed s = record s {
  on_write = false;
  on_recv_frame = false;
  acked = false;
  sequence = 0;
  current_acked_seq = 0;
  protocol_buffer = none;
}

-- `CommProtocolInit` with `_protocol_business_init`: whether each handler is not null. The number
-- acknowledged last starts at `((CommSequence)-1) >> 1`.
unfoldable pub protocol_init : Bool → Bool → CommProtocol → CommProtocol
unfolding zeroed
protocol_init write_handler recv_handler s = record (zeroed s) {
  current_acked_seq = 127;
  on_write = write_handler;
  on_recv_frame = recv_handler;
}

-- `CommProtocolFinal` with `_protocol_business_final`; the protocol buffer is freed.
unfoldable pub protocol_final : CommProtocol → CommProtocol
unfolding zeroed
protocol_final s = zeroed (record s { on_recv_frame = false; on_write = false })

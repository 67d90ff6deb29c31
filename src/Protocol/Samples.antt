-- ===== src/Protocol/Samples.antt =====
-- States of protocol/uni_communication.c to run it from, and an allocator.
use lib_uart_comm_protocol_l.Prelude.{
  ℕ, ◌<◌, ◌≡◌, refl, arith, true, false, none, some, List, [], ◌∷◌, inl, length, replicate,
  length-replicate,
}
use lib_uart_comm_protocol_l.Prelude.Int.{negsuc}
use lib_uart_comm_protocol_l.Protocol.State.{CommProtocol, Malloc, NeverFails}
use lib_uart_comm_protocol_l.Protocol.Buffer.{IsValid}
use lib_uart_comm_protocol_l.Protocol.RoundTrip.{IsIdle}
use lib_uart_comm_protocol_l.Protocol.Delivery.{IsReady}

-- An allocator that gives zeroed blocks.
pub zeroed : (t n : ℕ) (b : List ℕ) → some (replicate n 0) ≡ some b → length b ≡ n
zeroed t n b e = ground (arith, length-replicate {A = ℕ} n 0)

abbrev pub heap : Malloc
heap = record { block = λ t n. some (replicate n 0); sized = zeroed }

abbrev pub heap_available : NeverFails heap
heap_available t n = (replicate n 0, refl)

-- The state after `CommProtocolInit`, with this number for the next packet.
abbrev pub fresh : ℕ → CommProtocol
fresh sequence = record {
  on_write = true;
  on_recv_frame = true;
  acked = false;
  sequence = sequence;
  current_acked_seq = 127;
  protocol_buffer = none;
  index = 0;
  payload_left = 0;
  length_crc16 = 0;
  protocol_buffer_length = 16;
  last_recv_packet_seq = negsuc 0;
  allocs = 0;
  effects = [];
}

abbrev pub fresh_valid : (sequence : ℕ) → IsValid (fresh sequence)
fresh_valid sequence = record {
  capacity = inl refl;
  index_in = omega arith;
  buffer = refl;
  left_lt = omega arith;
  crc_lt = omega arith;
}

abbrev pub fresh_idle : (sequence : ℕ) → IsIdle (fresh sequence)
fresh_idle sequence = record { valid = fresh_valid sequence; start = refl; legal = omega arith }

abbrev pub fresh_ready : (sequence : ℕ) → sequence < 256 → IsReady (fresh sequence)
fresh_ready sequence h = record {
  idle = fresh_idle sequence;
  receiving = refl;
  writing = refl;
  numbered = h;
}

abbrev pub hello : List ℕ
hello = 0x68 ∷ 0x69 ∷ []

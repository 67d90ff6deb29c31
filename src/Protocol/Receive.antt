-- ===== src/Protocol/Receive.antt =====
-- The receiving half of protocol/uni_communication.c: the parser that takes one byte at a time, and
-- what is done with a whole frame. `none` is a fault: an access through a null pointer or outside the
-- heap block of the protocol buffer.
use mathlib.Core.Option
use lib_uart_comm_protocol_l.Prelude.{
  ℕ, suc, ◌+◌, ◌-◌, ◌*◌, ◌%◌, ◌^◌, Bool, true, false, not, ◌&&◌, Option, none, some, List, [], ◌∷◌,
  bind, ltb, leb, ◌==◌, if◌then◌else◌, length, get_or, set, take, ◌++◌, drop,
}
use lib_uart_comm_protocol_l.Prelude.Int.{pos, eq_ℕ}
use lib_uart_comm_protocol_l.Crc16.{crc16}
use lib_uart_comm_protocol_l.Protocol.State.{
  recv_frame, interrupt_break, CommProtocol, Malloc, emit, count_alloc,
}
use lib_uart_comm_protocol_l.Protocol.Packet.{
  header_size, g_sync, sequence_at, control_at, cmd_at, payload_len_at, payload_len_crc16_at, ack,
  high_byte, low_byte, u16_at, is_bit_setted, current_sequence_get, payload_len_get, payload_get,
  checksum_valid, is_acked_packet, is_nacked_packet,
}
use lib_uart_comm_protocol_l.Protocol.Send.{assemble_and_send_frame, is_protocol_buffer_overflow}

-- `CommPacket`, as the application gets it.
pub record CommPacket : Type 0 where
  pub cmd : ℕ
  pub payload : List ℕ

-- `DEFAULT_PROTOCOL_BUF_SIZE` and `PROTOCOL_BUF_GC_TRIGGER_SIZE`
abbrev pub default_size : ℕ
default_size = 16

abbrev pub gc_trigger_size : ℕ
gc_trigger_size = 1040

-- `_reset_protocol_buffer_status`
unfoldable pub reset_protocol_buffer_status : CommProtocol → CommProtocol
reset_protocol_buffer_status s = record s { index = 0; payload_left = 0; length_crc16 = 0 }

-- `_try_garbage_collection_protocol_buffer`: a large buffer is freed.
unfoldable pub try_garbage_collection : CommProtocol → CommProtocol
try_garbage_collection s =
    if ltb gc_trigger_size s.protocol_buffer_length
    then record s { protocol_buffer = none; protocol_buffer_length = default_size }
    else s

-- `_is_payload_len_crc16_valid`
unfoldable pub is_payload_len_crc16_valid : ℕ → ℕ → Bool
is_payload_len_crc16_valid len crc = crc == crc16 (high_byte len ∷ low_byte len ∷ [])

-- The write `protocol_buffer[index++] = recv_c`. `index` has 32 bits.
unfoldable pub buffer_write : ℕ → CommProtocol → Option CommProtocol
buffer_write c s = elim s.protocol_buffer [
  | none ↦ none
  | some b ↦
      if ltb s.index (length b)
      then some
          (record s { protocol_buffer = some (set b s.index c); index = (s.index + 1) % 2 ^ 32 })
      else none
]

-- `_is_duplicate_frame`: the answer, and the state with this packet's number as the last.
unfoldable pub is_duplicate_frame : List ℕ → CommProtocol → Bool × CommProtocol
is_duplicate_frame packet s =
    let seq = get_or packet sequence_at 0 in
    (eq_ℕ s.last_recv_packet_seq seq, record s { last_recv_packet_seq = pos seq })

-- An acknowledgement: it ends the wait for the current packet, once for each number.
unfoldable pub process_acked : List ℕ → CommProtocol → CommProtocol
process_acked packet s =
    let seq = get_or packet sequence_at 0 in
    if seq == current_sequence_get s && not (seq == s.current_acked_seq)
    then emit interrupt_break (record s { acked = true; current_acked_seq = seq })
    else s

-- A refusal of the current packet: the wait ends, and the packet is sent again.
unfoldable pub process_nacked : List ℕ → CommProtocol → CommProtocol
process_nacked packet s =
    if get_or packet sequence_at 0 == current_sequence_get s then emit interrupt_break s else s

-- A frame too long for the buffer: its bytes are dropped, and then all starts again.
unfoldable pub drop_byte : CommProtocol → CommProtocol
drop_byte s =
    if ltb 1 s.payload_left
    then record s { payload_left = s.payload_left - 1 }
    else try_garbage_collection (reset_protocol_buffer_status s)

module _ (m : Malloc) where
  -- An answer to the peer. It has no attribute, so its write does not wait.
  unfoldable pub reply : ℕ → Bool → Bool → CommProtocol → Option CommProtocol
  reply seq is_ack is_nack s =
      Option.map (λ r. r.1)
        (assemble_and_send_frame m (λ _. some) 0 none 0 none seq is_ack is_nack s)

  unfoldable pub send_nack_frame : ℕ → CommProtocol → Option CommProtocol
  send_nack_frame seq = reply seq false true

  unfoldable pub send_ack_frame : ℕ → CommProtocol → Option CommProtocol
  send_ack_frame seq = reply seq true false

  -- `_do_ack`
  unfoldable pub do_ack : List ℕ → CommProtocol → Option CommProtocol
  do_ack packet s =
      if is_bit_setted (get_or packet control_at 0) ack
      then send_ack_frame (get_or packet sequence_at 0) s
      else some s

  -- `_packet_disassemble`: the packet for the application, if the checksum holds and memory is left.
  -- The recomputed checksum stays in the protocol buffer.
  unfoldable pub packet_disassemble : List ℕ → CommProtocol → Option CommPacket × CommProtocol
  packet_disassemble packet s =
      let (valid, packet') = checksum_valid packet in
      let s' = record s { protocol_buffer = some packet' } in
      if valid
      then (
        Option.map (λ _. record { cmd = u16_at packet' cmd_at; payload = payload_get packet' })
            (m.block s.allocs (4 + payload_len_get packet')),
        count_alloc s',
      )
      else (none, s')

  -- The packet is for the application: `_do_ack`, and then the callback unless it came before.
  unfoldable pub deliver : List ℕ → CommPacket → CommProtocol → Option CommProtocol
  deliver packet p s = elim (do_ack packet s) [
    | none ↦ none
    | some s' ↦
        let (duplicate, s'') = is_duplicate_frame packet s' in
        some (if duplicate then s'' else emit (recv_frame p.cmd p.payload) s'')
  ]

  -- A packet of the application: refused, or delivered.
  unfoldable pub process_packet : List ℕ → CommProtocol → Option CommProtocol
  process_packet packet s =
      let (disassembled, s') = packet_disassemble packet s in
      elim disassembled [
        | none ↦ send_nack_frame (get_or packet sequence_at 0) s'
        | some p ↦ deliver packet p s'
      ]

  -- `_one_protocol_frame_process`
  unfoldable pub one_protocol_frame_process : List ℕ → CommProtocol → Option CommProtocol
  one_protocol_frame_process packet s =
      if not s.on_recv_frame
      then some s
      else if is_acked_packet packet
      then some (process_acked packet s)
      else if is_nacked_packet packet
      then some (process_nacked packet s)
      else process_packet packet s

  -- `_enlarge_protocol_buffer`: `realloc` keeps the bytes; on failure it gives NULL.
  unfoldable pub enlarge_protocol_buffer : List ℕ → CommProtocol → CommProtocol
  enlarge_protocol_buffer b s =
      let new_size = (s.protocol_buffer_length * 2 + header_size) % 2 ^ 16 in
      let moved = λ (fresh : List ℕ). take new_size b ++ drop (length (take new_size b)) fresh in
      record s {
        protocol_buffer = Option.map moved (m.block s.allocs new_size);
        protocol_buffer_length = new_size;
        allocs = suc s.allocs;
      }

  -- `_protocol_buffer_alloc`
  unfoldable pub protocol_buffer_alloc : CommProtocol → CommProtocol
  protocol_buffer_alloc s = elim s.protocol_buffer [
    | none ↦ record s {
      protocol_buffer = m.block s.allocs s.protocol_buffer_length;
      allocs = suc s.allocs;
    }
    | some b ↦ if leb s.protocol_buffer_length s.index then enlarge_protocol_buffer b s else s
  ]

  -- `L_END`: a whole frame is handed on.
  unfoldable pub end_of_byte : CommProtocol → Option CommProtocol
  end_of_byte s =
      if leb header_size s.index && s.payload_left == 0
      then elim s.protocol_buffer [
        | none ↦ none
        | some b ↦
            Option.map (λ s'. try_garbage_collection (reset_protocol_buffer_status s'))
              (one_protocol_frame_process b s)
      ]
      else some s

  -- `L_HEADER`: the byte is stored, in the header or in the payload.
  unfoldable pub store_byte : ℕ → CommProtocol → Option CommProtocol
  store_byte c s =
      if ltb s.index header_size
      then bind (buffer_write c s) end_of_byte
      else if leb header_size s.index && ltb 0 s.payload_left
      then bind (buffer_write c s)
          (λ s'. end_of_byte (record s' { payload_left = s'.payload_left - 1 }))
      else end_of_byte s

  -- The byte that completes the length's own CRC.
  unfoldable pub check_payload_len : ℕ → CommProtocol → Option CommProtocol
  check_payload_len c s =
      let s' = record s { length_crc16 = (s.length_crc16 + c) % 2 ^ 16 } in
      if is_payload_len_crc16_valid s'.payload_left s'.length_crc16
      then store_byte c s'
      else elim s'.protocol_buffer [
        | none ↦ none
        | some b ↦ send_nack_frame (get_or b sequence_at 0) (reset_protocol_buffer_status s')
      ]

  -- The part of the byte's processing that runs with a buffer of legal size.
  unfoldable pub accept_byte : ℕ → CommProtocol → Option CommProtocol
  accept_byte c s =
      if ltb s.index 6
      then (if c == get_or g_sync s.index 0
          then buffer_write c s
          else some (reset_protocol_buffer_status s))
      else if s.index == payload_len_at
      then store_byte c (record s { payload_left = c * 2 ^ 8 })
      else if s.index == payload_len_at + 1
      then store_byte c (record s { payload_left = (s.payload_left + c) % 2 ^ 16 })
      else if s.index == payload_len_crc16_at
      then store_byte c (record s { length_crc16 = c * 2 ^ 8 })
      else if s.index == payload_len_crc16_at + 1
      then check_payload_len c s
      else store_byte c s

  -- `_protocol_buffer_generate_byte_by_byte`
  unfoldable pub generate_byte_by_byte : ℕ → CommProtocol → Option CommProtocol
  generate_byte_by_byte c s =
      if is_protocol_buffer_overflow s.protocol_buffer_length
      then some (drop_byte s)
      else accept_byte c (protocol_buffer_alloc s)

  -- `CommProtocolReceiveUartData`
  unfoldable pub receive_uart_data : List ℕ → CommProtocol → Option CommProtocol
  receive_uart_data [] s = some s
  receive_uart_data (c ∷ rest) s = bind (generate_byte_by_byte c s) (receive_uart_data rest)

-- ===== src/Protocol/Send.antt =====
-- The sending half of protocol/uni_communication.c: waiting for an acknowledgement, resending, and
-- `CommProtocolPacketAssembleAndSend`.
-- `sleep n` is what the rest of the system does to the state while `InterruptableSleep` waits with
-- `n` resends left: the receive path runs, and the sleep ends by its break or its timeout.
use mathlib.Core.Option
use lib_uart_comm_protocol_l.Prelude.{
  ℕ, zero, suc, ◌+◌, ◌%◌, ◌^◌, Bool, false, Option, none, some, List, leb, if◌then◌else◌, take,
}
use lib_uart_comm_protocol_l.Protocol.State.{
  uart_write, Status, success, alloc_failed, payload_too_long, payload_ack_timeout, CommProtocol,
  Malloc, emit, count_alloc,
}
use lib_uart_comm_protocol_l.Protocol.Packet.{
  header_size, packet_len_get, zero_header, assemble_packet,
}

-- An action that may fault.
abbrev pub Action : Type 0 → Type 0
Action A = CommProtocol → Option (A × CommProtocol)

abbrev pub Sleep : Type 0
Sleep = ℕ → CommProtocol → Option CommProtocol

-- `attribute && attribute->reliable`, `none` for a null attribute.
abbrev pub is_reliable : Option Bool → Bool
is_reliable none = false
is_reliable (some reliable) = reliable

-- `_wait_ack`
unfoldable pub wait_ack : Sleep → ℕ → Option Bool → Action Status
wait_ack sleep resend_times attribute s =
    if is_reliable attribute
    then Option.map (λ s'. (if s'.acked then success else payload_ack_timeout, s'))
        (sleep resend_times s)
    else some (success, s)

-- `PROTOCOL_BUF_SUPPORT_MAX_SIZE`
abbrev pub max_size : ℕ
max_size = 8192

-- `_is_protocol_buffer_overflow`: its parameter has 16 bits.
unfoldable pub is_protocol_buffer_overflow : ℕ → Bool
is_protocol_buffer_overflow len = leb max_size (len % 2 ^ 16)

-- One round of the loop of `_write_uart`: the write, under its lock.
unfoldable pub write_packet : List ℕ → CommProtocol → CommProtocol
write_packet packet s = emit (uart_write (take (packet_len_get packet) packet)) s

-- The loop of `_write_uart` with `_resend_status`: after an unanswered write it goes on while resends
-- are left, and else returns what the wait returned.
unfoldable pub write_loop : Sleep → List ℕ → Option Bool → ℕ → Action Status
write_loop sleep packet attribute zero s = wait_ack sleep zero attribute (write_packet packet s)
write_loop sleep packet attribute (suc n) s =
    elim (wait_ack sleep (suc n) attribute (write_packet packet s)) [
      | none ↦ none
      | some (ret, s') ↦ elim ret [
        | success ↦ some (success, s')
        | _ ↦ write_loop sleep packet attribute n s'
      ]
    ]

-- `TRY_RESEND_TIMES`
abbrev pub try_resend_times : ℕ
try_resend_times = 5

-- `_write_uart`
unfoldable pub write_uart : Sleep → List ℕ → Option Bool → Action Status
write_uart sleep packet attribute s =
    if s.on_write
    then write_loop sleep packet attribute try_resend_times
        (if is_reliable attribute then record s { acked = false } else s)
    else some (success, s)

-- `_assemble_and_send_frame`
unfoldable pub assemble_and_send_frame :
    Malloc → Sleep → ℕ → Option (List ℕ) → ℕ → Option Bool → ℕ → Bool → Bool → Action Status
assemble_and_send_frame m sleep cmd payload payload_len attribute seq is_ack is_nack s =
    if is_protocol_buffer_overflow (header_size + payload_len)
    then some (payload_too_long, s)
    else elim (m.block s.allocs (header_size + payload_len)) [
      | none ↦ some (alloc_failed, count_alloc s)
      | some b ↦
          let (packet, s') =
            assemble_packet (zero_header b) cmd payload payload_len (is_reliable attribute) seq
              is_ack is_nack (count_alloc s) in
          write_uart sleep packet attribute s'
    ]

-- `CommProtocolPacketAssembleAndSend`. One sender at a time holds `app_send_sync_lock`.
unfoldable pub packet_assemble_and_send :
    Malloc → Sleep → ℕ → Option (List ℕ) → ℕ → Option Bool → Action Status
packet_assemble_and_send m sleep cmd payload payload_len attribute =
    assemble_and_send_frame m sleep cmd payload payload_len attribute 0 false false

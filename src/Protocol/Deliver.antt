-- ===== src/Protocol/Deliver.antt =====
-- What `_one_protocol_frame_process` does with each kind of frame that stands in the protocol buffer.
use lib_uart_comm_protocol_l.Prelude.{
  ℕ, ◌+◌, ◌<◌, ◌≡◌, ◌≢◌, refl, ap, ◌∙◌, arith, Bool, true, false, Option, none, some, List, ◌++◌,
  ◌==◌, length, get_or, if◌then◌else◌,
}
use lib_uart_comm_protocol_l.Prelude.Int.{pos, eq_ℕ}
use lib_uart_comm_protocol_l.Crc16.{crc16}
use lib_uart_comm_protocol_l.Crc16.Detect.{crc16-lt}
use lib_uart_comm_protocol_l.Protocol.State.{
  recv_frame, interrupt_break, CommProtocol, Malloc, NeverFails, emit, count_alloc,
}
use lib_uart_comm_protocol_l.Protocol.Packet.{
  sequence_at, control_at, is_reply, is_bit_setted, is_acked_packet, is_nacked_packet,
  payload_len_get,
}
use lib_uart_comm_protocol_l.Protocol.Receive.{
  send_nack_frame, packet_disassemble, do_ack, is_duplicate_frame, deliver, process_packet,
  one_protocol_frame_process, CommPacket,
}
use lib_uart_comm_protocol_l.Protocol.Frame.{
  layout, frame, control_byte, checksum_valid-buffered, payload_get-buffered, u16_at-cmd,
}
use lib_uart_comm_protocol_l.Protocol.Reply.{answered, send_ack_frame_lem, send_nack_frame_lem}

-- The state after a good frame of the application: acknowledged if it asks for that, and passed on
-- unless its number is that of the frame before.
abbrev pub handled : Bool → ℕ → ℕ → List ℕ → CommProtocol → CommProtocol
handled reliable seq cmd payload s =
    let s' = if reliable then answered seq 2 s else s in
    let noted = record s' { last_recv_packet_seq = pos seq } in
    if eq_ℕ s'.last_recv_packet_seq seq then noted else emit (recv_frame cmd payload) noted

-- The state after a frame of the right number of an acknowledgement or a refusal.
abbrev pub woken : CommProtocol → CommProtocol
woken s = emit interrupt_break s

bit_clear :
    (index : ℕ) (p : List ℕ)
    → is_bit_setted (get_or p control_at 0) index ≡ false
    → is_reply index p ≡ false
unfolding is_reply
bit_clear index p e = ground arith

==_refl : (n : ℕ) → (n == n) ≡ true
==_refl n = ground arith

-- The control byte of a packet of the application is no answer.
not_reply :
    (reliable : Bool)
    → (is_bit_setted (control_byte reliable false false) 1 ≡ false)
      × (is_bit_setted (control_byte reliable false false) 2 ≡ false)
unfolding is_bit_setted
not_reply true = (refl, refl)
not_reply false = (refl, refl)

module _ (m : Malloc) (available : NeverFails m) (s : CommProtocol) (seq cmd : ℕ)
    (payload tail : List ℕ) (short : length payload + 16 < 65536) where
  disassemble_good :
      (control : ℕ)
      → cmd < 65536
      → packet_disassemble m (frame seq control cmd payload ++ tail) s ≡ (
        some (record { cmd = cmd; payload = payload }),
        count_alloc (record s { protocol_buffer = some (frame seq control cmd payload ++ tail) }),
      )
  unfolding packet_disassemble
  disassemble_good control hc =
      let code = crc16 (layout seq control cmd 0 payload) in
      rw (
        checksum_valid-buffered seq control cmd code payload tail short
            (crc16-lt (layout seq control cmd 0 payload)),
        ==_refl code,
        (available s.allocs (4 + payload_len_get (frame seq control cmd payload ++ tail))).1,
        payload_get-buffered seq control cmd code payload tail short,
        u16_at-cmd seq control cmd code payload tail short hc,
      )

  do_ack_lem :
      (reliable : Bool)
      → do_ack m (frame seq (control_byte reliable false false) cmd payload ++ tail) s
        ≡ some (if reliable then answered seq 2 s else s)
  unfolding do_ack is_bit_setted
  do_ack_lem true = send_ack_frame_lem m available seq s
  do_ack_lem false = refl

  deliver_lem :
      (reliable : Bool)
      → deliver m
          (frame seq (control_byte reliable false false) cmd payload ++ tail)
          (record { cmd = cmd; payload = payload })
          s
        ≡ some (handled reliable seq cmd payload s)
  unfolding deliver is_duplicate_frame
  deliver_lem reliable = rw (do_ack_lem reliable, deliver)

  disassemble_bad :
      (control checksum : ℕ)
      → checksum < 65536
      → checksum ≢ crc16 (layout seq control cmd 0 payload)
      → packet_disassemble m (layout seq control cmd checksum payload ++ tail) s
        ≡ (none, record s { protocol_buffer = some (frame seq control cmd payload ++ tail) })
  unfolding packet_disassemble
  disassemble_bad control checksum small wrong =
      let differs : (checksum == crc16 (layout seq control cmd 0 payload)) ≡ false = ground arith in
      rw (checksum_valid-buffered seq control cmd checksum payload tail short small, differs)

-- What `process_packet` does with what `_packet_disassemble` made of the packet.
abbrev next_step : Malloc → List ℕ → Option CommPacket × CommProtocol → Option CommProtocol
next_step m packet r = elim r.0 [
  | none ↦ send_nack_frame m (get_or packet sequence_at 0) r.1
  | some p ↦ deliver m packet p r.1
]

-- A frame that is no answer goes to the application's half.
process_app :
    (m : Malloc) (s : CommProtocol) (p : List ℕ)
    → s.on_recv_frame ≡ true
    → is_reply 1 p ≡ false
    → is_reply 2 p ≡ false
    → one_protocol_frame_process m p s ≡ process_packet m p s
unfolding one_protocol_frame_process is_acked_packet is_nacked_packet
process_app m s p on e1 e2 = ground arith

module _ (m : Malloc) (available : NeverFails m) (s : CommProtocol) (on : s.on_recv_frame ≡ true)
    (seq cmd : ℕ) (payload tail : List ℕ) (short : length payload + 16 < 65536)
    (reliable : Bool) where
  abbrev control : ℕ
  control = control_byte reliable false false

  reaches_app :
      (checksum : ℕ)
      → let p = layout seq control cmd checksum payload ++ tail in
        one_protocol_frame_process m p s ≡ process_packet m p s
  reaches_app checksum =
      let p = layout seq control cmd checksum payload ++ tail in
      process_app m s p on (bit_clear 1 p (not_reply reliable).0)
        (bit_clear 2 p (not_reply reliable).1)

  -- A frame of the application with a good checksum.
  pub process_good :
      cmd < 65536
      → let bytes = frame seq (control_byte reliable false false) cmd payload ++ tail in
        one_protocol_frame_process m bytes s
        ≡ some (
            handled reliable seq cmd payload
              (count_alloc (record s { protocol_buffer = some bytes })))
  unfolding process_packet
  process_good hc =
      let bytes = frame seq control cmd payload ++ tail in
      reaches_app (crc16 (layout seq control cmd 0 payload))
      ∙ ap (next_step m bytes)
          (disassemble_good m available s seq cmd payload tail short control hc)
      ∙ (deliver_lem m available (count_alloc (record s { protocol_buffer = some bytes })) seq cmd
          payload tail short reliable)

  -- A frame of the application whose checksum field is wrong is refused.
  pub process_bad :
      (checksum : ℕ)
      → checksum < 65536
      → checksum ≢ crc16 (layout seq (control_byte reliable false false) cmd 0 payload)
      → one_protocol_frame_process m
          (layout seq (control_byte reliable false false) cmd checksum payload ++ tail)
          s
        ≡ some (
            answered seq 4 (record s {
              protocol_buffer =
                  some (frame seq (control_byte reliable false false) cmd payload ++ tail);
            }))
  unfolding process_packet
  process_bad checksum small wrong =
      let bytes = layout seq control cmd checksum payload ++ tail in
      reaches_app checksum
      ∙ ap (next_step m bytes)
          (disassemble_bad m available s seq cmd payload tail short control checksum small wrong)
      ∙ send_nack_frame_lem m available seq
          (record s { protocol_buffer = some (frame seq control cmd payload ++ tail) })

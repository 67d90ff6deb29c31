-- ===== src/Protocol/Frame.antt =====
-- The layout of a frame, as the comment at the head of protocol/uni_communication.c draws it, and the
-- proof that `assemble_packet` builds it.
use lib_uart_comm_protocol_l.Prelude.{
  ℕ, suc, ◌+◌, ◌%◌, ◌^◌, ◌<◌, ◌≡◌, refl, ap, arith, Bool, true, false, Option, none, some, List, [],
  ◌∷◌, ◌++◌, length, take, drop, lt→ltb, take_all, drop_all, take_of_length, take_append, ◌==◌,
  ◌++◌, length-drop, append-nil, ◌||◌, if◌then◌else◌,
}
use lib_uart_comm_protocol_l.Crc16.{crc16}
use lib_uart_comm_protocol_l.Crc16.Detect.{crc16-lt}
use lib_uart_comm_protocol_l.Protocol.State.{CommProtocol}
use lib_uart_comm_protocol_l.Protocol.Packet.{
  high_byte, low_byte, u16_2_byte2_big_endian, payload_set, payload_len_crc16_set, checksum_calc,
  zero_header, assemble_packet, packet_len_get, payload_len_get, payload_get, checksum_valid,
  u16_at, cmd_at, checksum_at,
}

-- "uArTcP", seq, ctrl, cmd, crc16, len, crc16 of len, payload.
abbrev pub layout : ℕ → ℕ → ℕ → ℕ → List ℕ → List ℕ
layout seq control cmd checksum payload =
    let len = length payload in
    let len_crc = crc16 (high_byte len ∷ low_byte len ∷ []) in
    0x75
    ∷ 0x41
    ∷ 0x72
    ∷ 0x54
    ∷ 0x63
    ∷ 0x50
    ∷ seq
    ∷ control
    ∷ high_byte cmd
    ∷ low_byte cmd
    ∷ high_byte checksum
    ∷ low_byte checksum
    ∷ high_byte len
    ∷ low_byte len
    ∷ high_byte len_crc
    ∷ low_byte len_crc
    ∷ payload

-- The whole frame: its checksum is the CRC of the layout with the checksum zero.
abbrev pub frame : ℕ → ℕ → ℕ → List ℕ → List ℕ
frame seq control cmd payload =
    layout seq control cmd (crc16 (layout seq control cmd 0 payload)) payload

-- The control byte of a packet: bit 0 asks for an acknowledgement, bit 1 is one, bit 2 is a refusal.
abbrev pub control_byte : Bool → Bool → Bool → ℕ
control_byte reliable is_ack is_nack =
    (if reliable then 1 else 0) + (if is_ack then 2 else 0) + (if is_nack then 4 else 0)

-- The payload behind a pointer: none behind the null pointer.
abbrev pub bytes_of : Option (List ℕ) → List ℕ
bytes_of none = []
bytes_of (some bytes) = bytes

-- The header while the fields behind the control byte are still zero, before the block's rest.
abbrev started : ℕ → ℕ → List ℕ → List ℕ
started seq control rest =
    0x75 ∷ 0x41 ∷ 0x72 ∷ 0x54 ∷ 0x63 ∷ 0x50 ∷ seq ∷ control ∷ 0 ∷ 0 ∷ 0 ∷ 0 ∷ 0 ∷ 0 ∷ 0 ∷ 0 ∷ rest

payload_set_lem :
    (seq control cmd : ℕ) (payload : Option (List ℕ)) (rest : List ℕ)
    → length rest ≡ length (bytes_of payload)
    → payload_set
        (u16_2_byte2_big_endian cmd (started seq control rest) 8)
        payload
        (length (bytes_of payload))
      ≡ u16_2_byte2_big_endian cmd (started seq control (bytes_of payload)) 8
unfolding payload_set u16_2_byte2_big_endian
payload_set_lem seq control cmd none [] e = refl
payload_set_lem seq control cmd none (x ∷ rest) e = absurd (omega arith)
payload_set_lem seq control cmd (some []) [] e = refl
payload_set_lem seq control cmd (some []) (x ∷ rest) e = absurd (omega arith)
payload_set_lem seq control cmd (some (y ∷ pay)) rest e = rw (
  lt→ltb 0 (suc (length pay)) (omega arith),
  take_all pay,
  drop_all rest (suc (length pay)) (omega arith),
  append-nil pay,
)

pub payload_len_get-layout :
    (seq control cmd checksum : ℕ) (payload : List ℕ)
    → length payload < 65536
    → payload_len_get (layout seq control cmd checksum payload) ≡ length payload
unfolding payload_len_get
payload_len_get-layout seq control cmd checksum payload h = omega arith

pub packet_len_get-layout :
    (seq control cmd checksum : ℕ) (payload : List ℕ)
    → length payload + 16 < 65536
    → packet_len_get (layout seq control cmd checksum payload)
      ≡ length (layout seq control cmd checksum payload)
unfolding packet_len_get
packet_len_get-layout seq control cmd checksum payload h = omega arith

pub take-layout :
    (seq control cmd checksum : ℕ) (payload : List ℕ)
    → length payload + 16 < 65536
    → let l = layout seq control cmd checksum payload in take (packet_len_get l) l ≡ l
take-layout seq control cmd checksum payload h =
    take_of_length _ _ (packet_len_get-layout seq control cmd checksum payload h)

-- The fields that are set last: the length, its CRC, and the checksum.
fields_lem :
    (seq control cmd : ℕ) (payload : List ℕ)
    → length payload + 16 < 65536
    → checksum_calc (
        payload_len_crc16_set (
          u16_2_byte2_big_endian
            (length payload)
            (u16_2_byte2_big_endian cmd (started seq control payload) 8)
            12))
      ≡ frame seq control cmd payload
unfolding checksum_calc payload_len_crc16_set
fields_lem seq control cmd payload h =
    ap (λ bytes. layout seq control cmd (crc16 bytes) payload)
      (take-layout seq control cmd 0 payload h)

-- `checksum_calc` restores the checksum of a frame, whatever stands in that field.
pub checksum_calc-layout :
    (seq control cmd checksum : ℕ) (payload : List ℕ)
    → length payload + 16 < 65536
    → checksum_calc (layout seq control cmd checksum payload) ≡ frame seq control cmd payload
unfolding checksum_calc
checksum_calc-layout seq control cmd checksum payload h =
    ap (λ bytes. layout seq control cmd (crc16 bytes) payload)
      (take-layout seq control cmd 0 payload h)

-- The rest of `assemble_packet`, from the packet with its number and its control bits.
finish_lem :
    (seq control cmd : ℕ) (payload : Option (List ℕ)) (rest : List ℕ)
    → length rest ≡ length (bytes_of payload)
    → length (bytes_of payload) + 16 < 65536
    → checksum_calc (
        payload_len_crc16_set (
          u16_2_byte2_big_endian
            (length (bytes_of payload))
            (payload_set
              (u16_2_byte2_big_endian cmd (started seq control rest) 8)
              payload
              (length (bytes_of payload)))
            12))
      ≡ frame seq control cmd (bytes_of payload)
finish_lem seq control cmd payload rest e h =
    rw (payload_set_lem seq control cmd payload rest e)
      (fields_lem seq control cmd (bytes_of payload) h)

finish_pair :
    (seq control cmd : ℕ) (payload : Option (List ℕ)) (b : List ℕ) (s : CommProtocol)
    → length b ≡ 16 + length (bytes_of payload)
    → length (bytes_of payload) + 16 < 65536
    → ◌≡◌ {A = List ℕ × CommProtocol}
        (
          checksum_calc (
              payload_len_crc16_set (
                u16_2_byte2_big_endian
                  (length (bytes_of payload))
                  (payload_set
                    (u16_2_byte2_big_endian cmd (started seq control (drop 16 b)) 8)
                    payload
                    (length (bytes_of payload)))
                  12)),
          s,
        )
        (frame seq control cmd (bytes_of payload), s)
finish_pair seq control cmd payload b s e h =
    ap (λ p. (p, s))
      (finish_lem seq control cmd payload (drop 16 b) (omega (arith, length-drop 16 b)) h)

-- _assmeble_packet fills a block of the packet's size, of less than 65536 bytes, with the fields
-- of the documented frame: sync word, number, control byte, command, checksum, length, the
-- length's CRC and the payload; an application's packet takes the next number, which counts on
-- modulo 256, and an answer takes the number given, with 2 for an ACK and 4 for a NACK as its
-- control byte.
pub assemble_packet_lem :
    (b : List ℕ) (cmd : ℕ) (payload : Option (List ℕ)) (reliable : Bool) (seq : ℕ)
    (is_ack is_nack : Bool) (s : CommProtocol)
    → length b ≡ 16 + length (bytes_of payload)
    → length (bytes_of payload) + 16 < 65536
    → assemble_packet
        (zero_header b)
        cmd
        payload
        (length (bytes_of payload))
        reliable
        seq
        is_ack
        is_nack
        s
      ≡ (
        frame
            (if is_ack || is_nack then seq else s.sequence)
            (control_byte reliable is_ack is_nack)
            cmd
            (bytes_of payload),
        (if is_ack || is_nack then s else record s { sequence = (s.sequence + 1) % 2 ^ 8 }),
      )
unfolding assemble_packet zero_header
assemble_packet_lem b cmd payload true seq true true s e h = finish_pair seq 7 cmd payload b (s) e h
assemble_packet_lem b cmd payload true seq true false s e h =
    finish_pair seq 3 cmd payload b (s) e h
assemble_packet_lem b cmd payload true seq false true s e h =
    finish_pair seq 5 cmd payload b (s) e h
assemble_packet_lem b cmd payload true seq false false s e h =
    finish_pair s.sequence 1 cmd payload b (record s { sequence = (s.sequence + 1) % 2 ^ 8 }) e h
assemble_packet_lem b cmd payload false seq true true s e h =
    finish_pair seq 6 cmd payload b (s) e h
assemble_packet_lem b cmd payload false seq true false s e h =
    finish_pair seq 2 cmd payload b (s) e h
assemble_packet_lem b cmd payload false seq false true s e h =
    finish_pair seq 4 cmd payload b (s) e h
assemble_packet_lem b cmd payload false seq false false s e h =
    finish_pair s.sequence 0 cmd payload b (record s { sequence = (s.sequence + 1) % 2 ^ 8 }) e h

u16_at-checksum :
    (seq control cmd checksum : ℕ) (payload tail : List ℕ)
    → checksum < 65536
    → u16_at (layout seq control cmd checksum payload ++ tail) checksum_at ≡ checksum
unfolding u16_at
u16_at-checksum seq control cmd checksum payload tail h = omega arith

-- The packet functions read a frame at the head of a larger buffer, and nothing behind it.
module _ (seq control cmd checksum : ℕ) (payload tail : List ℕ)
    (short : length payload + 16 < 65536) where
  abbrev buffered : List ℕ
  buffered = layout seq control cmd checksum payload ++ tail

  pub payload_len_get-buffered :
      payload_len_get (layout seq control cmd checksum payload ++ tail) ≡ length payload
  unfolding payload_len_get
  payload_len_get-buffered = omega arith

  pub payload_get-buffered : payload_get (layout seq control cmd checksum payload ++ tail) ≡ payload
  unfolding payload_get
  payload_get-buffered = take_append _ payload tail payload_len_get-buffered

  pub checksum_calc-buffered :
      checksum_calc (layout seq control cmd checksum payload ++ tail)
      ≡ frame seq control cmd payload ++ tail
  unfolding checksum_calc
  checksum_calc-buffered =
      let zeroed = layout seq control cmd 0 payload in
      let n : packet_len_get (zeroed ++ tail) ≡ length zeroed =
        packet_len_get-layout seq control cmd 0 payload short in
      ap (λ bytes. layout seq control cmd (crc16 bytes) payload ++ tail)
        (take_append _ zeroed tail n)

  -- The checksum of a buffered frame is found valid exactly when it is the CRC of the frame with the
  -- checksum zero.
  pub checksum_valid-buffered :
      checksum < 65536
      → checksum_valid (layout seq control cmd checksum payload ++ tail) ≡ (
        checksum == crc16 (layout seq control cmd 0 payload),
        frame seq control cmd payload ++ tail,
      )
  unfolding checksum_valid
  checksum_valid-buffered h =
      let code = crc16 (layout seq control cmd 0 payload) in
      rw (
        checksum_calc-buffered,
        u16_at-checksum seq control cmd checksum payload tail h,
        u16_at-checksum seq control cmd code payload tail
            (crc16-lt (layout seq control cmd 0 payload)),
      )

  pub u16_at-cmd :
      cmd < 65536 → u16_at (layout seq control cmd checksum payload ++ tail) cmd_at ≡ cmd
  unfolding u16_at
  u16_at-cmd h = omega arith

-- ===== src/Protocol/Reply.antt =====
-- One write without an attribute: what `_assemble_and_send_frame` does to the state, and so what
-- `_send_ack_frame` and `_send_nack_frame` do.
use lib_uart_comm_protocol_l.Prelude.{
  ℕ, suc, ◌+◌, ◌%◌, ◌^◌, ◌<◌, ◌≡◌, refl, arith, Bool, true, false, Option, none, some, List, [],
  ◌||◌, length, if◌then◌else◌, inl, inr, Bool-cases,
}
use lib_uart_comm_protocol_l.Crc16.{crc16}
use lib_uart_comm_protocol_l.Protocol.State.{
  uart_write, success, CommProtocol, Malloc, NeverFails, emit, count_alloc,
}
use lib_uart_comm_protocol_l.Protocol.Send.{
  Sleep, is_reliable, is_protocol_buffer_overflow, write_loop, write_uart, wait_ack, write_packet,
  assemble_and_send_frame,
}
use lib_uart_comm_protocol_l.Protocol.Receive.{reply, send_ack_frame, send_nack_frame}
use lib_uart_comm_protocol_l.Protocol.Frame.{
  layout, frame, bytes_of, control_byte, take-layout, assemble_packet_lem,
}

-- The state once the frame is built, in a fresh block: an application's packet takes a number.
abbrev pub numbered : Bool → CommProtocol → CommProtocol
numbered is_reply s =
    if is_reply
    then count_alloc s
    else record s { allocs = suc s.allocs; sequence = (s.sequence + 1) % 2 ^ 8 }

abbrev pub number : Bool → ℕ → CommProtocol → ℕ
number is_reply seq s = if is_reply then seq else s.sequence

module _ (m : Malloc) (available : NeverFails m) (sleep : Sleep) where
  -- A payload of legal size is framed, and the frame goes to `_write_uart`.
  pub assemble_and_send_frame_lem :
      (cmd : ℕ) (payload : Option (List ℕ)) (attribute : Option Bool) (seq : ℕ)
      (is_ack is_nack : Bool) (s : CommProtocol)
      → length (bytes_of payload) + 16 < 8192
      → assemble_and_send_frame m sleep cmd payload
          (length (bytes_of payload))
          attribute
          seq
          is_ack
          is_nack
          s
        ≡ write_uart sleep
            (frame
              (number (is_ack || is_nack) seq s)
              (control_byte (is_reliable attribute) is_ack is_nack)
              cmd
              (bytes_of payload))
            attribute
            (numbered (is_ack || is_nack) s)
  unfolding assemble_and_send_frame is_protocol_buffer_overflow
  assemble_and_send_frame_lem cmd payload attribute seq is_ack is_nack s h =
      let (b, e) = available s.allocs (16 + length (bytes_of payload)) in
      let fits : is_protocol_buffer_overflow (16 + length (bytes_of payload)) ≡ false =
        ground arith in
      rw (
        fits,
        e,
        assemble_packet_lem b cmd payload (is_reliable attribute) seq is_ack is_nack (count_alloc s)
            (m.sized _ _ b e) (omega arith),
      )

  -- Without a wait one write is made, if a write handler is registered.
  pub write_once :
      (packet : List ℕ) (s : CommProtocol)
      → write_uart sleep packet none s
        ≡ some (success, (if s.on_write then write_packet packet s else s))
  unfolding write_uart write_loop wait_ack
  write_once packet s = elim (Bool-cases s.on_write) [ inl e ↦ rw e | inr e ↦ rw e ]

-- The state after an answer with this number and control byte.
abbrev pub answered : ℕ → ℕ → CommProtocol → CommProtocol
answered seq control s =
    if s.on_write then emit (uart_write (frame seq control 0 [])) (count_alloc s) else count_alloc s

module _ (m : Malloc) (available : NeverFails m) (seq : ℕ) (s : CommProtocol) where
  reply_lem :
      (is_ack is_nack : Bool)
      → (is_ack || is_nack) ≡ true
      → reply m seq is_ack is_nack s ≡ some (answered seq (control_byte false is_ack is_nack) s)
  unfolding reply write_packet
  reply_lem is_ack is_nack e = rw (
    assemble_and_send_frame_lem m available (λ _. some) 0 none none seq is_ack is_nack s
        (omega arith),
    e,
    write_once m available (λ _. some) (frame seq (control_byte false is_ack is_nack) 0 [])
        (count_alloc s),
    take-layout seq (control_byte false is_ack is_nack) 0
        (crc16 (layout seq (control_byte false is_ack is_nack) 0 0 [])) [] (omega arith),
  )

  -- `_send_ack_frame` writes the frame of an acknowledgement of `seq`, once, and nothing else changes.
  pub send_ack_frame_lem : send_ack_frame m seq s ≡ some (answered seq 2 s)
  unfolding send_ack_frame
  send_ack_frame_lem = reply_lem true false refl

  -- `_send_nack_frame` likewise writes a refusal of `seq`.
  pub send_nack_frame_lem : send_nack_frame m seq s ≡ some (answered seq 4 s)
  unfolding send_nack_frame
  send_nack_frame_lem = reply_lem false true refl

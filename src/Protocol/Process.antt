-- ===== src/Protocol/Process.antt =====
-- `_one_protocol_frame_process` on any whole frame: it returns, and leaves a protocol buffer of the
-- same size.
use mathlib.Core.Option
use lib_uart_comm_protocol_l.Prelude.{
  ℕ, ◌≡◌, arith, Option, none, some, List, length, length-set, inl, inr, Bool-cases, Option-cases,
  get_or,
}
use lib_uart_comm_protocol_l.Protocol.State.{CommProtocol, Malloc, NeverFails}
use lib_uart_comm_protocol_l.Protocol.Packet.{
  checksum_calc, checksum_valid, u16_2_byte2_big_endian, sequence_at,
}
use lib_uart_comm_protocol_l.Protocol.Receive.{
  CommPacket, do_ack, is_duplicate_frame, packet_disassemble, process_acked, process_nacked,
  deliver, process_packet, one_protocol_frame_process,
}
use lib_uart_comm_protocol_l.Protocol.Reply.{answered, send_ack_frame_lem, send_nack_frame_lem}

-- A run that does not fault, and ends as `P` says.
abbrev pub Ensures : (CommProtocol → Type 0) → Option CommProtocol → Type 0
Ensures P none = ⊥
Ensures P (some s) = P s

pub Ensures-map :
    (P Q : CommProtocol → Type 0) (f : CommProtocol → CommProtocol) (o : Option CommProtocol)
    → ((s : CommProtocol) → P s → Q (f s))
    → Ensures P o
    → Ensures Q (Option.map f o)
Ensures-map P Q f none step h = h
Ensures-map P Q f (some s) step h = step s h

abbrev pub HasLength : ℕ → Option (List ℕ) → Type 0
HasLength n none = ⊥
HasLength n (some b) = length b ≡ n

pub record Kept (n size : ℕ) (s : CommProtocol) : Type 0 where
  pub block : HasLength n s.protocol_buffer
  pub same_size : s.protocol_buffer_length ≡ size

pub length-checksum_calc : (p : List ℕ) → length (checksum_calc p) ≡ length p
unfolding checksum_calc u16_2_byte2_big_endian
length-checksum_calc p = simp length-set

pub Kept-answered :
    (n size seq control : ℕ) (s : CommProtocol)
    → Kept n size s
    → Kept n size (answered seq control s)
Kept-answered n size seq control s k = elim (Bool-cases s.on_write) [
  | inl e ↦ rw e (record { block = k.block; same_size = k.same_size })
  | inr e ↦ rw e (record { block = k.block; same_size = k.same_size })
]

Kept-process_acked :
    (n size : ℕ) (p : List ℕ) (s : CommProtocol) → Kept n size s → Kept n size (process_acked p s)
unfolding process_acked
Kept-process_acked n size p s k = ground arith

Kept-process_nacked :
    (n size : ℕ) (p : List ℕ) (s : CommProtocol) → Kept n size s → Kept n size (process_nacked p s)
unfolding process_nacked
Kept-process_nacked n size p s k = ground arith

module _ (m : Malloc) (available : NeverFails m) (n size : ℕ) where
  Ensures-deliver :
      (p : List ℕ) (c : CommPacket) (s : CommProtocol)
      → Kept n size s
      → Ensures (Kept n size) (deliver m p c s)
  unfolding deliver do_ack is_duplicate_frame
  Ensures-deliver p c s k = ground (
    arith,
    send_ack_frame_lem m available (get_or p sequence_at 0) s,
    Kept-answered n size (get_or p sequence_at 0) 2 s k,
  )

  Kept-packet_disassemble :
      (p : List ℕ) (s : CommProtocol)
      → length p ≡ n
      → Kept n size s
      → Kept n size (packet_disassemble m p s).1
  unfolding packet_disassemble checksum_valid
  Kept-packet_disassemble p s e k = ground (arith, length-checksum_calc p)

  -- Any whole frame is processed without a fault.
  pub Ensures-process :
      (p : List ℕ) (s : CommProtocol)
      → length p ≡ n
      → Kept n size s
      → Ensures (Kept n size) (one_protocol_frame_process m p s)
  unfolding one_protocol_frame_process process_packet
  Ensures-process p s e k =
      let s' = (packet_disassemble m p s).1 in
      let seq = get_or p sequence_at 0 in
      let kept = Kept-packet_disassemble p s e k in
      let acked = Kept-process_acked n size p s k in
      let nacked = Kept-process_nacked n size p s k in
      elim (Option-cases (packet_disassemble m p s).0) [
        | inl bad ↦ ground (
          arith,
          acked,
          nacked,
          send_nack_frame_lem m available seq s',
          Kept-answered n size seq 4 s' kept,
        )
        | inr good ↦ ground (arith, acked, nacked, Ensures-deliver p good.0 s' kept)
      ]

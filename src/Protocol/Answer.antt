-- ===== src/Protocol/Answer.antt =====
-- The answers of the peer: what the parser does with an ACK frame and with a NACK frame.
use mathlib.Core.Option
use lib_uart_comm_protocol_l.Prelude.{
  ℕ, ◌≤◌, ◌≡◌, refl, sym, ap, arith, Bool, true, not, some, List, [], ◌∷◌, ◌++◌, append-nil, ◌&&◌,
  ◌==◌, if◌then◌else◌, Bool-cases, inl, inr,
}
use lib_uart_comm_protocol_l.Crc16.{crc16}
use lib_uart_comm_protocol_l.Protocol.State.{
  Effect, interrupt_break, CommProtocol, Malloc, NeverFails, emit,
}
use lib_uart_comm_protocol_l.Protocol.Packet.{
  high_byte, low_byte, u16_at, is_reply, is_bit_setted, is_acked_packet, is_nacked_packet,
  current_sequence_get,
}
use lib_uart_comm_protocol_l.Protocol.Receive.{
  try_garbage_collection, reset_protocol_buffer_status, process_acked, process_nacked,
  one_protocol_frame_process, receive_uart_data,
}
use lib_uart_comm_protocol_l.Protocol.Frame.{layout}
use lib_uart_comm_protocol_l.Protocol.Buffer.{IsCapacity}
use lib_uart_comm_protocol_l.Protocol.Process.{Kept}
use lib_uart_comm_protocol_l.Protocol.Safety.{restart, restart_valid}
use lib_uart_comm_protocol_l.Protocol.Parse.{parsing}
use lib_uart_comm_protocol_l.Protocol.RoundTrip.{IsIdle, receive_whole}

-- An ACK of `seq` is the awaited one: it is for the packet sent last, and its number is not that of the
-- ACK accepted last.
abbrev pub is_awaited : ℕ → CommProtocol → Bool
is_awaited seq s = seq == current_sequence_get s && not (seq == s.current_acked_seq)

-- What an answer has done to the state.
pub record Answered (s s' : CommProtocol) (acked : Bool) (acked_seq : ℕ) (effects : List Effect)
    : Type 0 where
  pub idle : IsIdle s'
  pub waiting : s'.acked ≡ acked
  pub last_acked : s'.current_acked_seq ≡ acked_seq
  pub done : s'.effects ≡ s.effects ++ effects
  pub numbering : s'.sequence ≡ s.sequence
  pub registered : (s'.on_recv_frame ≡ s.on_recv_frame) × (s'.on_write ≡ s.on_write)

process_acked_lem :
    (s : CommProtocol) (seq checksum : ℕ) (tail : List ℕ) (m : Malloc)
    → s.on_recv_frame ≡ true
    → let bytes = layout seq 2 0 checksum [] ++ tail in
      one_protocol_frame_process m bytes s
      ≡ some (
          if is_awaited seq s
          then emit interrupt_break (record s { acked = true; current_acked_seq = seq })
          else s)
unfolding one_protocol_frame_process is_acked_packet is_reply u16_at is_bit_setted process_acked
process_acked_lem s seq checksum tail m on = simp on

process_nacked_lem :
    (s : CommProtocol) (seq checksum : ℕ) (tail : List ℕ) (m : Malloc)
    → s.on_recv_frame ≡ true
    → let bytes = layout seq 4 0 checksum [] ++ tail in
      one_protocol_frame_process m bytes s
      ≡ some (if seq == current_sequence_get s then emit interrupt_break s else s)
unfolding one_protocol_frame_process is_acked_packet is_nacked_packet is_reply u16_at is_bit_setted
    process_nacked
process_nacked_lem s seq checksum tail m on = simp on

restart-Answered :
    (n : ℕ) (s u : CommProtocol) (a : Bool) (k : ℕ) (effects : List Effect)
    → IsCapacity n
    → n ≤ 8176
    → Kept n n u
    → u.acked ≡ a
    → u.current_acked_seq ≡ k
    → u.effects ≡ s.effects ++ effects
    → u.sequence ≡ s.sequence
    → (u.on_recv_frame ≡ s.on_recv_frame) × (u.on_write ≡ s.on_write)
    → Answered s (restart u) a k effects
unfolding try_garbage_collection reset_protocol_buffer_status
restart-Answered n s u a k effects c legal kept e1 e2 e3 e4 e5 =
    let valid = restart_valid n u c kept in
    record {
      idle = record { valid = valid; start = ground arith; legal = ground arith };
      waiting = ground arith;
      last_acked = ground arith;
      done = ground arith;
      numbering = ground arith;
      registered = ground arith;
    }

module _ (m : Malloc) (available : NeverFails m) (s : CommProtocol) (idle : IsIdle s)
    (on : s.on_recv_frame ≡ true) (seq checksum : ℕ) where
  -- A received ACK ends the wait exactly when it is for the packet sent last and its number is not
  -- the one acknowledged last, whatever its checksum field: the flag is set, the number noted and
  -- the sleep broken, else none of these changes; the parser is idle before and again after, a
  -- receive handler is registered and the allocator does not fail.
  pub receive-ack :
      let awaited = is_awaited seq s in
      (s' : CommProtocol) × (receive_uart_data m (layout seq 2 0 checksum []) s ≡ some s')
      × Answered s s'
          (if awaited then true else s.acked)
          (if awaited then seq else s.current_acked_seq)
          (if awaited then interrupt_break ∷ [] else [])
  unfolding current_sequence_get
  receive-ack =
      let awaited = is_awaited seq s in
      receive_whole m available s idle
        (λ r.
          (s' : CommProtocol) × (r ≡ some s')
          × Answered s s' (if awaited then true else s.acked)
              (if awaited then seq else s.current_acked_seq)
              (if awaited then interrupt_break ∷ [] else []))
        seq 2 0 checksum [] (omega arith)
        λ tail size calls fits c legal.
          let bytes = layout seq 2 0 checksum [] ++ tail in
          let t = parsing s (some bytes) size calls 16 0 (crc16 (high_byte 0 ∷ low_byte 0 ∷ [])) in
          let u =
            if awaited
            then emit interrupt_break (record t { acked = true; current_acked_seq = seq })
            else t in
          (
            restart u,
            ap (Option.map restart) (process_acked_lem t seq checksum tail m on),
            elim (Bool-cases awaited) [
              | inl e ↦ rw e (
                  restart-Answered size s
                    (emit interrupt_break (record t { acked = true; current_acked_seq = seq })) true
                    seq _ c legal (record { block = fits; same_size = refl }) refl refl refl refl
                    (refl, refl))
              | inr e ↦ rw e (
                  restart-Answered size s t s.acked s.current_acked_seq _ c legal
                    (record { block = fits; same_size = refl }) refl refl
                    (sym (append-nil s.effects)) refl (refl, refl))
            ],
          )

  -- A received NACK breaks the sender's sleep exactly when it is for the packet sent last, and
  -- leaves the flag and the noted number as they are; the parser is idle before and again after, a
  -- receive handler is registered and the allocator does not fail.
  pub receive-nack :
      (s' : CommProtocol) × (receive_uart_data m (layout seq 4 0 checksum []) s ≡ some s')
      × Answered s s' s.acked s.current_acked_seq
          (if seq == current_sequence_get s then interrupt_break ∷ [] else [])
  unfolding current_sequence_get
  receive-nack =
      let current = seq == current_sequence_get s in
      receive_whole m available s idle
        (λ r.
          (s' : CommProtocol) × (r ≡ some s')
          × Answered s s' s.acked s.current_acked_seq
              (if current then interrupt_break ∷ [] else []))
        seq 4 0 checksum [] (omega arith)
        λ tail size calls fits c legal.
          let bytes = layout seq 4 0 checksum [] ++ tail in
          let t = parsing s (some bytes) size calls 16 0 (crc16 (high_byte 0 ∷ low_byte 0 ∷ [])) in
          (
            restart (if current then emit interrupt_break t else t),
            ap (Option.map restart) (process_nacked_lem t seq checksum tail m on),
            elim (Bool-cases current) [
              | inl e ↦ rw e (
                  restart-Answered size s (emit interrupt_break t) s.acked s.current_acked_seq _ c
                    legal (record { block = fits; same_size = refl }) refl refl refl refl
                    (refl, refl))
              | inr e ↦ rw e (
                  restart-Answered size s t s.acked s.current_acked_seq _ c legal
                    (record { block = fits; same_size = refl }) refl refl
                    (sym (append-nil s.effects)) refl (refl, refl))
            ],
          )

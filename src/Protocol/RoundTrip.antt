-- ===== src/Protocol/RoundTrip.antt =====
-- A frame sent is a frame received: the parser of protocol/uni_communication.c on the bytes that its
-- sender writes.
use mathlib.Core.Option
use mathlib.Core.Path.{subst}
use lib_uart_comm_protocol_l.Prelude.{
  ℕ, suc, ◌≤◌, ◌<◌, ◌≡◌, ◌≢◌, refl, sym, ap, ◌∙◌, arith, Bool, true, false, Option, none, some,
  List, [], ◌∷◌, ◌++◌, append_assoc, append-nil, ◌&&◌, ◌==◌, length, drop, take-append-drop,
  if◌then◌else◌, Bool-cases, inl, inr, leb,
}
use lib_uart_comm_protocol_l.Prelude.Int.{ℤ, pos, eq_ℕ}
use lib_uart_comm_protocol_l.Crc16.{crc16}
use lib_uart_comm_protocol_l.Protocol.State.{
  Effect, uart_write, recv_frame, CommProtocol, Malloc, NeverFails, count_alloc,
}
use lib_uart_comm_protocol_l.Protocol.Packet.{high_byte, low_byte}
use lib_uart_comm_protocol_l.Protocol.Receive.{
  try_garbage_collection, reset_protocol_buffer_status, one_protocol_frame_process, end_of_byte,
  receive_uart_data,
}
use lib_uart_comm_protocol_l.Protocol.Frame.{layout, frame, control_byte}
use lib_uart_comm_protocol_l.Protocol.Reply.{answered}
use lib_uart_comm_protocol_l.Protocol.Buffer.{IsCapacity, IsValid, stored}
use lib_uart_comm_protocol_l.Protocol.Process.{Kept}
use lib_uart_comm_protocol_l.Protocol.Safety.{restart, restart_valid}
use lib_uart_comm_protocol_l.Protocol.Parse.{parsing, Holds}
use lib_uart_comm_protocol_l.Protocol.Whole.{Whole, feed_frame}
use lib_uart_comm_protocol_l.Protocol.Deliver.{handled, process_good, process_bad}

-- The parser waits for the first byte of a frame.
pub record IsIdle (s : CommProtocol) : Type 0 where
  pub valid : IsValid s
  pub start : s.index ≡ 0
  pub legal : s.protocol_buffer_length ≤ 8176

-- The acknowledgement that a packet asks for.
abbrev pub acknowledgement : Bool → ℕ → List Effect
acknowledgement asked seq = if asked then uart_write (frame seq 2 0 []) ∷ [] else []

-- The application gets a packet unless its number is that of the packet before.
abbrev pub delivery : ℤ → ℕ → ℕ → List ℕ → List Effect
delivery last seq cmd payload = if eq_ℕ last seq then [] else recv_frame cmd payload ∷ []

answered_lem :
    (seq control : ℕ) (s : CommProtocol)
    → answered seq control s ≡ record s {
      allocs = suc s.allocs;
      effects = s.effects ++ (if s.on_write then uart_write (frame seq control 0 []) ∷ [] else []);
    }
answered_lem seq control s = elim (Bool-cases s.on_write) [
  | inl e ↦ simp e
  | inr e ↦ simp (e, append-nil)
]

handled_lem :
    (reliable : Bool) (seq cmd : ℕ) (payload : List ℕ) (s : CommProtocol)
    → handled reliable seq cmd payload s ≡ record s {
      last_recv_packet_seq = pos seq;
      allocs = if reliable then suc s.allocs else s.allocs;
      effects =
          s.effects
          ++ (acknowledgement (reliable && s.on_write) seq
              ++ delivery s.last_recv_packet_seq seq cmd payload);
    }
handled_lem true seq cmd payload s = elim (Bool-cases s.on_write) [
  | inl e ↦ elim (Bool-cases (eq_ℕ s.last_recv_packet_seq seq)) [
    | inl d ↦ simp (e, d)
    | inr d ↦ simp (e, d, append_assoc)
  ]
  | inr e ↦ elim (Bool-cases (eq_ℕ s.last_recv_packet_seq seq)) [
    | inl d ↦ simp (e, d, append-nil)
    | inr d ↦ simp (e, d)
  ]
]
handled_lem false seq cmd payload s = elim (Bool-cases (eq_ℕ s.last_recv_packet_seq seq)) [
  | inl d ↦ simp (d, append-nil)
  | inr d ↦ simp d
]

-- What a whole frame has done: the parser is idle again, the frame's number is noted as `last`, and the
-- calls out are `effects`. What the sender half keeps is not touched.
pub record Received (s s' : CommProtocol) (last : ℤ) (effects : List Effect) : Type 0 where
  pub idle : IsIdle s'
  pub noted : s'.last_recv_packet_seq ≡ last
  pub done : s'.effects ≡ s.effects ++ effects
  pub numbering : s'.sequence ≡ s.sequence
  pub waiting : s'.acked ≡ s.acked
  pub registered : (s'.on_recv_frame ≡ s.on_recv_frame) × (s'.on_write ≡ s.on_write)

abbrev pub Receives : CommProtocol → ℤ → List Effect → Option CommProtocol → Type 0
Receives s last effects r = (s' : CommProtocol) × (r ≡ some s') × Received s s' last effects

restart-Received :
    (n : ℕ) (s u : CommProtocol) (last : ℤ) (effects : List Effect)
    → IsCapacity n
    → n ≤ 8176
    → Kept n n u
    → u.last_recv_packet_seq ≡ last
    → u.effects ≡ s.effects ++ effects
    → u.sequence ≡ s.sequence
    → u.acked ≡ s.acked
    → (u.on_recv_frame ≡ s.on_recv_frame) × (u.on_write ≡ s.on_write)
    → Received s (restart u) last effects
unfolding try_garbage_collection reset_protocol_buffer_status
restart-Received n s u last effects c legal k e1 e2 e3 e4 e5 =
    let valid = restart_valid n u c k in
    record {
      idle = record { valid = valid; start = ground arith; legal = ground arith };
      noted = ground arith;
      done = ground arith;
      numbering = ground arith;
      waiting = ground arith;
      registered = ground arith;
    }

empty_prefix : (buffer : Option (List ℕ)) → stored buffer 0 ≡ []
empty_prefix none = refl
empty_prefix (some b) = refl

end_of_byte_whole :
    (m : Malloc) (t : CommProtocol) (b : List ℕ)
    → t.protocol_buffer ≡ some b
    → 16 ≤ t.index
    → t.payload_left ≡ 0
    → end_of_byte m t ≡ Option.map restart (one_protocol_frame_process m b t)
unfolding end_of_byte
end_of_byte_whole m t b e h l =
    let whole : (leb 16 t.index && t.payload_left == 0) ≡ true = ground arith in simp (whole, e)

module _ (m : Malloc) (available : NeverFails m) (s : CommProtocol) (idle : IsIdle s) where
  -- From an idle state a frame is stored whole, in front of what else is in the buffer.
  pub receive_whole :
      (Q : Option CommProtocol → Type 0) (seq control cmd checksum : ℕ) (payload : List ℕ)
      → length payload ≤ 8160
      → ((tail : List ℕ) (size calls : ℕ)
          → let bytes = layout seq control cmd checksum payload ++ tail in
            let code = crc16 (high_byte (length payload) ∷ low_byte (length payload) ∷ []) in
            length bytes ≡ size
            → IsCapacity size
            → size ≤ 8176
            → Q (
                Option.map restart (
                  one_protocol_frame_process m bytes (
                    parsing s
                      (some bytes)
                      size
                      calls
                      (length (layout seq control cmd checksum payload))
                      0
                      code))))
      → Q (receive_uart_data m (layout seq control cmd checksum payload) s)
  receive_whole Q seq control cmd checksum payload short go =
      let v = idle.valid in
      let whole_frame = layout seq control cmd checksum payload in
      let n = length whole_frame in
      let code = crc16 (high_byte (length payload) ∷ low_byte (length payload) ∷ []) in
      let held : Holds [] s.protocol_buffer s.protocol_buffer_length = record {
        capacity = v.capacity;
        legal = idle.legal;
        fits = rw idle.start at v.buffer;
        index_in = omega arith;
        same = empty_prefix s.protocol_buffer;
      } in
      let last : Whole m available s Q whole_frame code = λ b size calls h.
        let split : b ≡ whole_frame ++ drop n b =
          sym (take-append-drop n b) ∙ ap (λ p. p ++ drop n b) h.same in
        let t = parsing s (some b) size calls n 0 code in
        rw (end_of_byte_whole m t b refl (omega arith) refl) (
          subst
            (λ p. Q (
              Option.map restart
                (one_protocol_frame_process m p (parsing s (some p) size calls n 0 code))))
            (sym split)
            (go (drop n b) size calls (ap (λ p. length p) (sym split) ∙ h.fits) h.capacity
              h.legal)) in
      subst (λ i. Q (receive_uart_data m whole_frame (record s { index = i }))) (sym idle.start)
        (feed_frame m available s Q seq control cmd checksum payload s.payload_left s.length_crc16
          s.protocol_buffer s.protocol_buffer_length s.allocs v.left_lt v.crc_lt short held last)

module _ (m : Malloc) (available : NeverFails m) (s : CommProtocol) (idle : IsIdle s)
    (on : s.on_recv_frame ≡ true) (reliable : Bool) (seq cmd : ℕ) (payload : List ℕ)
    (short : length payload ≤ 8160) where
  -- CommProtocolReceiveUartData on the bytes of a frame of at most 8176 bytes, from an idle
  -- parser: the ACK asked for is written, command and payload reach the application unless the
  -- number repeats the last one, the number is noted, and the parser is idle again; the allocator
  -- does not fail and a receive handler is registered.
  pub receive-frame :
      cmd < 65536
      → Receives s
          (pos seq)
          (acknowledgement (reliable && s.on_write) seq
            ++ delivery s.last_recv_packet_seq seq cmd payload)
          (receive_uart_data m (frame seq (control_byte reliable false false) cmd payload) s)
  receive-frame hc =
      let control = control_byte reliable false false in
      let code = crc16 (layout seq control cmd 0 payload) in
      receive_whole m available s idle (Receives s (pos seq) _) seq control cmd code payload short
        λ tail size calls fits c legal.
          let bytes = frame seq control cmd payload ++ tail in
          let t =
            parsing s (some bytes) size calls (length (frame seq control cmd payload)) 0
              (crc16 (high_byte (length payload) ∷ low_byte (length payload) ∷ [])) in
          let u = count_alloc t in
          (
            restart (handled reliable seq cmd payload u),
            ap (Option.map restart)
                (process_good m available t on seq cmd payload tail (omega arith) reliable hc),
            rw (handled_lem reliable seq cmd payload u) (
                restart-Received size s _ (pos seq) _ c legal
                  (record { block = fits; same_size = refl }) refl refl refl refl (refl, refl)),
          )

  -- A frame of an application's packet, which is neither an ACK nor a NACK, of at most 8176 bytes
  -- whose checksum field is wrong, received by an idle parser, reaches no application: a NACK of
  -- its number is written if a write handler is there, and the parser is idle again; the allocator
  -- does not fail and a receive handler is registered.
  pub receive-corrupt :
      (checksum : ℕ)
      → checksum < 65536
      → checksum ≢ crc16 (layout seq (control_byte reliable false false) cmd 0 payload)
      → Receives s s.last_recv_packet_seq
          (if s.on_write then uart_write (frame seq 4 0 []) ∷ [] else [])
          (receive_uart_data m
            (layout seq (control_byte reliable false false) cmd checksum payload)
            s)
  receive-corrupt checksum small wrong =
      let control = control_byte reliable false false in
      receive_whole m available s idle (Receives s s.last_recv_packet_seq _) seq control cmd
        checksum payload short
        λ tail size calls fits c legal.
          let bytes = layout seq control cmd checksum payload ++ tail in
          let good = frame seq control cmd payload ++ tail in
          let t =
            parsing s (some bytes) size calls (length (layout seq control cmd checksum payload)) 0
              (crc16 (high_byte (length payload) ∷ low_byte (length payload) ∷ [])) in
          let u = record t { protocol_buffer = some good } in
          (
            restart (answered seq 4 u),
            ap (Option.map restart) (
                process_bad m available t on seq cmd payload tail (omega arith) reliable checksum
                  small wrong),
            rw (answered_lem seq 4 u) (
                restart-Received size s _ s.last_recv_packet_seq _ c legal
                  (record { block = fits; same_size = refl }) refl refl refl refl (refl, refl)),
          )

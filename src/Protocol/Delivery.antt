-- ===== src/Protocol/Delivery.antt =====
-- `CommProtocolPacketAssembleAndSend` for a reliable packet, by what the peer answers in each wait.
use mathlib.Core.Path.{subst}
use lib_uart_comm_protocol_l.Prelude.{
  ℕ, suc, ◌+◌, ◌-◌, ◌%◌, ◌^◌, ◌≤◌, ◌<◌, ◌≡◌, ◌≢◌, refl, sym, ap, ◌∙◌, arith, true, false, Option,
  some, List, [], ◌∷◌, ◌++◌, append-nil, length, replicate, take, if◌then◌else◌, inl, inr, ◌⊎◌,
}
use lib_uart_comm_protocol_l.Crc16.{crc16}
use lib_uart_comm_protocol_l.Protocol.State.{
  uart_write, interrupt_break, success, payload_ack_timeout, CommProtocol, Malloc, NeverFails,
}
use lib_uart_comm_protocol_l.Protocol.Packet.{packet_len_get, current_sequence_get}
use lib_uart_comm_protocol_l.Protocol.Send.{Sleep, write_loop, write_uart, packet_assemble_and_send}
use lib_uart_comm_protocol_l.Protocol.Receive.{receive_uart_data}
use lib_uart_comm_protocol_l.Protocol.Frame.{layout, frame, bytes_of, take-layout}
use lib_uart_comm_protocol_l.Protocol.Reply.{assemble_and_send_frame_lem}
use lib_uart_comm_protocol_l.Protocol.RoundTrip.{IsIdle}
use lib_uart_comm_protocol_l.Protocol.Reliable.{
  Waiting, IsDeaf, IsAnswer, loop_unanswered, loop_answered,
}
use lib_uart_comm_protocol_l.Protocol.Answer.{is_awaited, receive-ack}

-- The bytes that arrive during each sleep.
abbrev pub arrivals : Malloc → (ℕ → List ℕ) → Sleep
arrivals m bytes n s = receive_uart_data m (bytes n) s

module _ (m : Malloc) (available : NeverFails m) (seq last : ℕ) where
  -- Nothing arrives.
  pub IsDeaf-silence : IsDeaf seq last (receive_uart_data m [])
  unfolding receive_uart_data
  IsDeaf-silence s w = (s, refl, w, refl)

  -- An ACK arrives that is not the awaited one: of another packet, or of a packet whose number is
  -- that of the one acknowledged last.
  pub IsDeaf-ack :
      (number checksum : ℕ)
      → (number ≢ seq) ⊎ (number ≡ last)
      → IsDeaf seq last (receive_uart_data m (layout number 2 0 checksum []))
  unfolding current_sequence_get
  IsDeaf-ack number checksum other s w =
      let missed : is_awaited number s ≡ false = ground (arith, w.current, w.last_acked) in
      let (s', result, a) = receive-ack m available s w.idle w.receiving number checksum in
      (
        s',
        result,
        record {
          idle = a.idle;
          receiving = a.registered.0 ∙ w.receiving;
          writing = a.registered.1 ∙ w.writing;
          unanswered = a.waiting ∙ ap (λ b. if b then true else s.acked) missed ∙ w.unanswered;
          current = ap (λ n. (n + 255) % 2 ^ 8) a.numbering ∙ w.current;
          last_acked =
              a.last_acked
              ∙ ap (λ b. if b then number else s.current_acked_seq) missed
              ∙ w.last_acked;
        },
        a.done
            ∙ ap (λ b. s.effects ++ (if b then interrupt_break ∷ [] else [])) missed
            ∙ append-nil s.effects,
      )

  -- The awaited ACK arrives.
  pub IsAnswer-ack :
      (checksum : ℕ)
      → seq ≢ last
      → IsAnswer seq last (receive_uart_data m (layout seq 2 0 checksum []))
  unfolding current_sequence_get
  IsAnswer-ack checksum fresh s w =
      let hit : is_awaited seq s ≡ true = ground (arith, w.current, w.last_acked) in
      let (s', result, a) = receive-ack m available s w.idle w.receiving seq checksum in
      (
        s',
        result,
        a.waiting ∙ ap (λ b. if b then true else s.acked) hit,
        a.last_acked ∙ ap (λ b. if b then seq else s.current_acked_seq) hit,
        a.done ∙ ap (λ b. s.effects ++ (if b then interrupt_break ∷ [] else [])) hit,
      )

-- The bytes bring no answer: there are none, or they are an ACK that is not the awaited one.
abbrev pub IsNoAnswer : ℕ → ℕ → List ℕ → Type 0
IsNoAnswer seq last bytes =
    (bytes ≡ [])
    ⊎ ((number : ℕ) × (checksum : ℕ) × (bytes ≡ layout number 2 0 checksum [])
        × ((number ≢ seq) ⊎ (number ≡ last)))

IsDeaf-IsNoAnswer :
    (m : Malloc) (available : NeverFails m) (seq last : ℕ) (bytes : List ℕ)
    → IsNoAnswer seq last bytes
    → IsDeaf seq last (receive_uart_data m bytes)
IsDeaf-IsNoAnswer m available seq last bytes (inl e) =
    subst (λ b. IsDeaf seq last (receive_uart_data m b)) (sym e)
      (IsDeaf-silence m available seq last)
IsDeaf-IsNoAnswer m available seq last bytes (inr (number, checksum, e, other)) =
    subst (λ b. IsDeaf seq last (receive_uart_data m b)) (sym e)
      (IsDeaf-ack m available seq last number checksum other)

-- A state in which the application may send: the parser is idle, and the handlers are registered.
pub record IsReady (s : CommProtocol) : Type 0 where
  pub idle : IsIdle s
  pub receiving : s.on_recv_frame ≡ true
  pub writing : s.on_write ≡ true
  pub numbered : s.sequence < 256

-- The state in which the loop of `_write_uart` starts.
abbrev pub begun : CommProtocol → CommProtocol
begun s = record s { allocs = suc s.allocs; sequence = (s.sequence + 1) % 2 ^ 8; acked = false }

pub Waiting-begun :
    (s : CommProtocol) → IsReady s → Waiting s.sequence s.current_acked_seq (begun s)
unfolding current_sequence_get
Waiting-begun s r = record {
  idle = record {
    valid = record {
      capacity = r.idle.valid.capacity;
      index_in = r.idle.valid.index_in;
      buffer = r.idle.valid.buffer;
      left_lt = r.idle.valid.left_lt;
      crc_lt = r.idle.valid.crc_lt;
    };
    start = r.idle.start;
    legal = r.idle.legal;
  };
  receiving = r.receiving;
  writing = r.writing;
  unanswered = refl;
  current = omega (arith, r.numbered);
  last_acked = refl;
}

module _ (m : Malloc) (available : NeverFails m) (bytes : ℕ → List ℕ) (s : CommProtocol)
    (ready : IsReady s) (cmd : ℕ) (payload : Option (List ℕ))
    (short : length (bytes_of payload) + 16 < 8192) where
  abbrev pub sent : List ℕ
  sent = frame s.sequence 1 cmd (bytes_of payload)

  pub enters_loop :
      packet_assemble_and_send m
        (arrivals m bytes)
        cmd
        payload
        (length (bytes_of payload))
        (some true)
        s
      ≡ write_loop (arrivals m bytes) sent (some true) 5 (begun s)
  unfolding packet_assemble_and_send write_uart
  enters_loop =
      assemble_and_send_frame_lem m available (arrivals m bytes) cmd payload (some true) 0 false
        false s short
      ∙ simp ready.writing

  pub whole : take (packet_len_get sent) sent ≡ sent
  whole =
      take-layout s.sequence 1 cmd (crc16 (layout s.sequence 1 cmd 0 (bytes_of payload)))
        (bytes_of payload) (omega arith)

  -- A reliable packet for which nothing arrives, or only ACKs that are not the awaited one, in any
  -- of its six waits is written six times, the same frame each time, and the call returns the
  -- timeout; the allocator does not fail, the frame is shorter than 8192 bytes, the handlers are
  -- registered and the parser is idle at the start.
  pub send-unanswered :
      ((k : ℕ) → k ≤ 5 → IsNoAnswer s.sequence s.current_acked_seq (bytes k))
      → (s' : CommProtocol) × (packet_assemble_and_send m
            (arrivals m bytes)
            cmd
            payload
            (length (bytes_of payload))
            (some true)
            s
          ≡ some (payload_ack_timeout, s'))
        × (s'.effects
            ≡ s.effects ++ replicate 6 (uart_write (frame s.sequence 1 cmd (bytes_of payload))))
  send-unanswered none_answers =
      let (s', result, w, done) =
        loop_unanswered s.sequence s.current_acked_seq (arrivals m bytes) sent 5 (begun s)
          (λ k h.
            IsDeaf-IsNoAnswer m available s.sequence s.current_acked_seq (bytes k)
              (none_answers k h))
          (Waiting-begun s ready) in
      (s', enters_loop ∙ result, done ∙ ap (λ p. s.effects ++ replicate 6 (uart_write p)) whole)

  -- CommProtocolPacketAssembleAndSend of a reliable packet: when each wait before the one with k
  -- resends left brings nothing or exactly one ACK frame that is not the awaited one, being for
  -- another number or for the number acknowledged last, and the wait with k resends left brings
  -- exactly the awaited ACK frame, the call returns success after 6 - k writes of the same frame
  -- and notes the number as acknowledged; the allocator does not fail, the frame is shorter than
  -- 8192 bytes, the handlers are registered, the parser is idle at the start, and the number is
  -- not the one acknowledged last.
  pub send-answered :
      (k checksum : ℕ)
      → k ≤ 5
      → ((j : ℕ) → k < j → j ≤ 5 → IsNoAnswer s.sequence s.current_acked_seq (bytes j))
      → bytes k ≡ layout s.sequence 2 0 checksum []
      → s.sequence ≢ s.current_acked_seq
      → (s' : CommProtocol) × (packet_assemble_and_send m
            (arrivals m bytes)
            cmd
            payload
            (length (bytes_of payload))
            (some true)
            s
          ≡ some (success, s'))
        × (s'.current_acked_seq ≡ s.sequence)
        × (s'.effects
            ≡ s.effects
              ++ (replicate (6 - k) (uart_write (frame s.sequence 1 cmd (bytes_of payload)))
                  ++ (interrupt_break ∷ [])))
  send-answered k checksum h before answer fresh =
      let (s', result, noted, done) =
        loop_answered s.sequence s.current_acked_seq (arrivals m bytes) sent (5 - k) 5 k (begun s)
          (omega arith)
          (λ j p q.
            IsDeaf-IsNoAnswer m available s.sequence s.current_acked_seq (bytes j) (before j p q))
          (subst (λ b. IsAnswer s.sequence s.current_acked_seq (receive_uart_data m b)) (sym answer)
            (IsAnswer-ack m available s.sequence s.current_acked_seq checksum fresh))
          (Waiting-begun s ready) in
      let count : suc (5 - k) ≡ 6 - k = omega arith in
      (
        s',
        enters_loop ∙ result,
        noted,
        done
            ∙ ap
                (λ p.
                  s.effects ++ (replicate (suc (5 - k)) (uart_write p) ++ (interrupt_break ∷ [])))
                whole
            ∙ ap (λ n. s.effects ++ (replicate n (uart_write sent) ++ (interrupt_break ∷ [])))
                count,
      )

  -- When the packet's number is the one acknowledged last, a reliable packet is written six times
  -- and the call returns the timeout although the peer acknowledges every write; the allocator
  -- does not fail, the frame is shorter than 8192 bytes, the handlers are registered and the
  -- parser is idle at the start.
  pub send-stale_number :
      (checksum : ℕ)
      → s.sequence ≡ s.current_acked_seq
      → ((k : ℕ) → k ≤ 5 → bytes k ≡ layout s.sequence 2 0 checksum [])
      → (s' : CommProtocol) × (packet_assemble_and_send m
            (arrivals m bytes)
            cmd
            payload
            (length (bytes_of payload))
            (some true)
            s
          ≡ some (payload_ack_timeout, s'))
        × (s'.effects
            ≡ s.effects ++ replicate 6 (uart_write (frame s.sequence 1 cmd (bytes_of payload))))
  send-stale_number checksum stale acks =
      send-unanswered (λ k h. inr (s.sequence, checksum, acks k h, inr stale))

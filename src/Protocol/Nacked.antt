-- ===== src/Protocol/Nacked.antt =====
-- `CommProtocolPacketAssembleAndSend` for a reliable packet that the peer refuses before it acknowledges it.
use mathlib.Core.Path.{subst}
use lib_uart_comm_protocol_l.Prelude.{
  ℕ, zero, suc, ◌+◌, ◌-◌, ◌%◌, ◌^◌, ◌≤◌, ◌<◌, ◌≡◌, ◌≢◌, refl, sym, ap, ◌∙◌, arith, true, Option,
  some, List, [], ◌∷◌, ◌++◌, append_assoc, length, if◌then◌else◌, ◌==◌,
}
use lib_uart_comm_protocol_l.Protocol.State.{
  Effect, uart_write, interrupt_break, success, CommProtocol, Malloc, NeverFails,
}
use lib_uart_comm_protocol_l.Protocol.Packet.{current_sequence_get}
use lib_uart_comm_protocol_l.Protocol.Send.{
  Sleep, write_loop, write_packet, packet_assemble_and_send,
}
use lib_uart_comm_protocol_l.Protocol.Receive.{receive_uart_data}
use lib_uart_comm_protocol_l.Protocol.Frame.{layout, frame, bytes_of}
use lib_uart_comm_protocol_l.Protocol.Reliable.{
  Waiting, IsAnswer, written, Waiting-write, effects-write, resend_step, answered_step,
}
use lib_uart_comm_protocol_l.Protocol.Answer.{receive-nack}
use lib_uart_comm_protocol_l.Protocol.Delivery.{
  arrivals, IsAnswer-ack, IsReady, begun, Waiting-begun, sent, enters_loop, whole,
}

-- A sleep that a refusal breaks: the sender still waits.
abbrev IsRefused : ℕ → ℕ → (CommProtocol → Option CommProtocol) → Type 0
IsRefused seq last sleep =
    (s : CommProtocol)
    → Waiting seq last s
    → (s' : CommProtocol) × (sleep s ≡ some s')
      × Waiting seq last s'
      × (s'.effects ≡ s.effects ++ (interrupt_break ∷ []))

-- So many writes of a packet, each with the end of the sleep after it
abbrev pub broken : ℕ → List ℕ → List Effect
broken zero packet = []
broken (suc n) packet = uart_write packet ∷ interrupt_break ∷ broken n packet

IsRefused-nack :
    (m : Malloc) (available : NeverFails m) (seq last checksum : ℕ)
    → IsRefused seq last (receive_uart_data m (layout seq 4 0 checksum []))
unfolding current_sequence_get
IsRefused-nack m available seq last checksum s w =
    let hit : (seq == current_sequence_get s) ≡ true = ground (arith, w.current) in
    let (s', result, a) = receive-nack m available s w.idle w.receiving seq checksum in
    (
      s',
      result,
      record {
        idle = a.idle;
        receiving = a.registered.0 ∙ w.receiving;
        writing = a.registered.1 ∙ w.writing;
        unanswered = a.waiting ∙ w.unanswered;
        current = ap (λ n. (n + 255) % 2 ^ 8) a.numbering ∙ w.current;
        last_acked = a.last_acked ∙ w.last_acked;
      },
      a.done ∙ ap (λ b. s.effects ++ (if b then interrupt_break ∷ [] else [])) hit,
    )

module _ (seq last : ℕ) (sleep : Sleep) (packet : List ℕ) where
  abbrev writes : ℕ → List Effect
  writes zero = []
  writes (suc n) = written seq last sleep packet ∷ interrupt_break ∷ writes n

  -- The first answer ends the loop with success: `missed` sleeps before it were refusals.
  loop_refused :
      (missed n k : ℕ) (s : CommProtocol)
      → n ≡ missed + k
      → ((j : ℕ) → k < j → j ≤ n → IsRefused seq last (sleep j))
      → IsAnswer seq last (sleep k)
      → Waiting seq last s
      → (s' : CommProtocol) × (write_loop sleep packet (some true) n s ≡ some (success, s'))
        × (s'.current_acked_seq ≡ seq)
        × (s'.effects ≡ s.effects ++ writes (suc missed))
  loop_refused zero n k s e refused answer w =
      let at : n ≡ k = omega arith in
      let (s', slept, got, noted, done) =
        answer (write_packet packet s) (Waiting-write seq last sleep packet s w) in
      (
        s',
        answered_step seq last sleep packet n s s'
            (ap (λ j. sleep j (write_packet packet s)) at ∙ slept) got,
        noted,
        done
            ∙ ap (λ l. l ++ (interrupt_break ∷ [])) (effects-write seq last sleep packet s)
            ∙ append_assoc s.effects (written seq last sleep packet ∷ []) (interrupt_break ∷ []),
      )
  loop_refused (suc missed) zero k s e refused answer w = absurd (omega arith)
  loop_refused (suc missed) (suc n) k s e refused answer w =
      let (s', slept, w', same) =
        refused (suc n) (omega arith) (omega arith) (write_packet packet s)
          (Waiting-write seq last sleep packet s w) in
      let (s'', result, noted, rest) =
        loop_refused missed n k s' (omega arith) (λ j h i. refused j h (omega arith)) answer w' in
      let one = written seq last sleep packet ∷ [] in
      (
        s'',
        resend_step seq last sleep packet n s s' slept w'.unanswered ∙ result,
        noted,
        rest
            ∙ ap (λ l. l ++ writes (suc missed))
                (same
                  ∙ ap (λ l. l ++ (interrupt_break ∷ [])) (effects-write seq last sleep packet s)
                  ∙ append_assoc s.effects one (interrupt_break ∷ []))
            ∙ append_assoc s.effects (one ++ (interrupt_break ∷ [])) (writes (suc missed)),
      )

  writes-broken :
      (p : List ℕ) (n : ℕ) → written seq last sleep packet ≡ uart_write p → writes n ≡ broken n p
  writes-broken p zero e = refl
  writes-broken p (suc n) e =
      ap (λ l. l ∷ interrupt_break ∷ writes n) e
      ∙ ap (λ l. uart_write p ∷ interrupt_break ∷ l) (writes-broken p n e)

module _ (m : Malloc) (available : NeverFails m) (bytes : ℕ → List ℕ) (s : CommProtocol)
    (ready : IsReady s) (cmd : ℕ) (payload : Option (List ℕ))
    (short : length (bytes_of payload) + 16 < 8192) where
  -- CommProtocolPacketAssembleAndSend of a reliable packet: when each wait before the one with k
  -- resends left brings exactly one NACK frame with the packet's number, and the wait with k
  -- resends left brings exactly the awaited ACK frame, the call writes the same frame 6 - k times,
  -- each write followed by the break of its sleep, returns success and notes the number as
  -- acknowledged; the allocator does not fail, the frame is shorter than 8192 bytes, the handlers
  -- are registered, the parser is idle at the start, and the number is not the one acknowledged
  -- last.
  pub send-nacked :
      (k checksum : ℕ) (wrong : ℕ → ℕ)
      → k ≤ 5
      → ((j : ℕ) → k < j → j ≤ 5 → bytes j ≡ layout s.sequence 4 0 (wrong j) [])
      → bytes k ≡ layout s.sequence 2 0 checksum []
      → s.sequence ≢ s.current_acked_seq
      → (s' : CommProtocol) × (packet_assemble_and_send m
            (arrivals m bytes)
            cmd
            payload
            (length (bytes_of payload))
            (some true)
            s
          ≡ some (success, s'))
        × (s'.current_acked_seq ≡ s.sequence)
        × (s'.effects ≡ s.effects ++ broken (6 - k) (frame s.sequence 1 cmd (bytes_of payload)))
  send-nacked k checksum wrong h before answer fresh =
      let seq = s.sequence in
      let last = s.current_acked_seq in
      let p = sent m available bytes s ready cmd payload short in
      let sleep = arrivals m bytes in
      let (s', result, noted, done) =
        loop_refused seq last sleep p (5 - k) 5 k (begun s) (omega arith)
          (λ j q r.
            subst (λ b. IsRefused seq last (receive_uart_data m b)) (sym (before j q r))
              (IsRefused-nack m available seq last (wrong j)))
          (subst (λ b. IsAnswer seq last (receive_uart_data m b)) (sym answer)
            (IsAnswer-ack m available seq last checksum fresh))
          (Waiting-begun s ready) in
      let count : suc (5 - k) ≡ 6 - k = omega arith in
      let once = ap uart_write (whole m available bytes s ready cmd payload short) in
      (
        s',
        enters_loop m available bytes s ready cmd payload short ∙ result,
        noted,
        done
            ∙ ap (λ l. s.effects ++ l)
                (writes-broken seq last sleep p p (suc (5 - k)) once ∙ ap (λ n. broken n p) count),
      )

-- ===== src/Protocol/Reliable.antt =====
-- Reliable transmission: how often `_write_uart` writes a packet, and what it returns, by what the peer
-- answers in each wait.
use lib_uart_comm_protocol_l.Prelude.{
  ℕ, zero, suc, ◌+◌, ◌≤◌, ◌<◌, ◌≡◌, refl, ap, ◌∙◌, arith, true, false, Option, some, List, [], ◌∷◌,
  ◌++◌, append_assoc, replicate, take,
}
use lib_uart_comm_protocol_l.Protocol.State.{
  Effect, uart_write, interrupt_break, success, payload_ack_timeout, CommProtocol,
}
use lib_uart_comm_protocol_l.Protocol.Packet.{packet_len_get, current_sequence_get}
use lib_uart_comm_protocol_l.Protocol.Send.{Sleep, wait_ack, write_packet, write_loop}
use lib_uart_comm_protocol_l.Protocol.RoundTrip.{IsIdle}

-- The sender waits for the acknowledgement of packet `seq`; `last` is the number acknowledged last.
pub record Waiting (seq last : ℕ) (s : CommProtocol) : Type 0 where
  pub idle : IsIdle s
  pub receiving : s.on_recv_frame ≡ true
  pub writing : s.on_write ≡ true
  pub unanswered : s.acked ≡ false
  pub current : current_sequence_get s ≡ seq
  pub last_acked : s.current_acked_seq ≡ last

-- What a sleep may do to a waiting sender: leave it waiting, having called nothing out.
abbrev pub IsDeaf : ℕ → ℕ → (CommProtocol → Option CommProtocol) → Type 0
IsDeaf seq last sleep =
    (s : CommProtocol)
    → Waiting seq last s
    → (s' : CommProtocol) × (sleep s ≡ some s') × Waiting seq last s' × (s'.effects ≡ s.effects)

-- Or end the wait.
abbrev pub IsAnswer : ℕ → ℕ → (CommProtocol → Option CommProtocol) → Type 0
IsAnswer seq last sleep =
    (s : CommProtocol)
    → Waiting seq last s
    → (s' : CommProtocol) × (sleep s ≡ some s')
      × (s'.acked ≡ true)
      × (s'.current_acked_seq ≡ seq)
      × (s'.effects ≡ s.effects ++ (interrupt_break ∷ []))

module _ (seq last : ℕ) (sleep : Sleep) (packet : List ℕ) where
  abbrev pub written : Effect
  written = uart_write (take (packet_len_get packet) packet)

  pub Waiting-write :
      (s : CommProtocol) → Waiting seq last s → Waiting seq last (write_packet packet s)
  unfolding write_packet current_sequence_get
  Waiting-write s w = record {
    idle = record {
      valid = record {
        capacity = w.idle.valid.capacity;
        index_in = w.idle.valid.index_in;
        buffer = w.idle.valid.buffer;
        left_lt = w.idle.valid.left_lt;
        crc_lt = w.idle.valid.crc_lt;
      };
      start = w.idle.start;
      legal = w.idle.legal;
    };
    receiving = w.receiving;
    writing = w.writing;
    unanswered = w.unanswered;
    current = w.current;
    last_acked = w.last_acked;
  }

  pub effects-write :
      (s : CommProtocol) → (write_packet packet s).effects ≡ s.effects ++ (written ∷ [])
  unfolding write_packet
  effects-write s = refl

  -- One round of the loop, by how the sleep ends.
  pub resend_step :
      (n : ℕ) (s s' : CommProtocol)
      → sleep (suc n) (write_packet packet s) ≡ some s'
      → s'.acked ≡ false
      → write_loop sleep packet (some true) (suc n) s ≡ write_loop sleep packet (some true) n s'
  unfolding write_loop wait_ack
  resend_step n s s' slept e = ground arith

  last_step :
      (s s' : CommProtocol)
      → sleep 0 (write_packet packet s) ≡ some s'
      → s'.acked ≡ false
      → write_loop sleep packet (some true) 0 s ≡ some (payload_ack_timeout, s')
  unfolding write_loop wait_ack
  last_step s s' slept e = ground arith

  pub answered_step :
      (n : ℕ) (s s' : CommProtocol)
      → sleep n (write_packet packet s) ≡ some s'
      → s'.acked ≡ true
      → write_loop sleep packet (some true) n s ≡ some (success, s')
  unfolding write_loop wait_ack
  answered_step zero s s' slept e = ground arith
  answered_step (suc n) s s' slept e = ground arith

  -- With no answer in any of the waits that are left, each resend is made, and the loop reports the
  -- timeout.
  pub loop_unanswered :
      (n : ℕ) (s : CommProtocol)
      → ((k : ℕ) → k ≤ n → IsDeaf seq last (sleep k))
      → Waiting seq last s
      → (s' : CommProtocol) × (write_loop sleep packet (some true) n s
          ≡ some (payload_ack_timeout, s'))
        × Waiting seq last s'
        × (s'.effects ≡ s.effects ++ replicate (suc n) written)
  loop_unanswered zero s deaf w =
      let (s', slept, w', same) =
        deaf zero (omega arith) (write_packet packet s) (Waiting-write s w) in
      (s', last_step s s' slept w'.unanswered, w', same ∙ effects-write s)
  loop_unanswered (suc n) s deaf w =
      let (s', slept, w', same) =
        deaf (suc n) (omega arith) (write_packet packet s) (Waiting-write s w) in
      let (s'', result, w'', rest) = loop_unanswered n s' (λ k h. deaf k (omega arith)) w' in
      (
        s'',
        resend_step n s s' slept w'.unanswered ∙ result,
        w'',
        rest
            ∙ ap (λ e. e ++ replicate (suc n) written) (same ∙ effects-write s)
            ∙ append_assoc s.effects (written ∷ []) (replicate (suc n) written),
      )

  -- The first answer ends the loop with success: `missed` waits before it brought none.
  pub loop_answered :
      (missed n k : ℕ) (s : CommProtocol)
      → n ≡ missed + k
      → ((j : ℕ) → k < j → j ≤ n → IsDeaf seq last (sleep j))
      → IsAnswer seq last (sleep k)
      → Waiting seq last s
      → (s' : CommProtocol) × (write_loop sleep packet (some true) n s ≡ some (success, s'))
        × (s'.current_acked_seq ≡ seq)
        × (s'.effects ≡ s.effects ++ (replicate (suc missed) written ++ (interrupt_break ∷ [])))
  loop_answered zero n k s e deaf answer w =
      let at : n ≡ k = omega arith in
      let (s', slept, got, noted, done) = answer (write_packet packet s) (Waiting-write s w) in
      (
        s',
        answered_step n s s' (ap (λ j. sleep j (write_packet packet s)) at ∙ slept) got,
        noted,
        done
            ∙ ap (λ l. l ++ (interrupt_break ∷ [])) (effects-write s)
            ∙ append_assoc s.effects (written ∷ []) (interrupt_break ∷ []),
      )
  loop_answered (suc missed) zero k s e deaf answer w = absurd (omega arith)
  loop_answered (suc missed) (suc n) k s e deaf answer w =
      let (s', slept, w', same) =
        deaf (suc n) (omega arith) (omega arith) (write_packet packet s) (Waiting-write s w) in
      let (s'', result, noted, rest) =
        loop_answered missed n k s' (omega arith) (λ j h i. deaf j h (omega arith)) answer w' in
      (
        s'',
        resend_step n s s' slept w'.unanswered ∙ result,
        noted,
        rest
            ∙ ap (λ l. l ++ (replicate (suc missed) written ++ (interrupt_break ∷ [])))
                (same ∙ effects-write s)
            ∙ append_assoc s.effects (written ∷ [])
                (replicate (suc missed) written ++ (interrupt_break ∷ [])),
      )

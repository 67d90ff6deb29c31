-- ===== src/Protocol/Exchange.antt =====
-- Two peers that run protocol/uni_communication.c: a reliable packet from one to the other.
use lib_uart_comm_protocol_l.Prelude.{
  ℕ, ◌≤◌, ◌<◌, ◌≡◌, ◌≢◌, refl, ap, ◌∙◌, arith, true, some, List, [], ◌∷◌, ◌++◌, length,
}
use lib_uart_comm_protocol_l.Crc16.{crc16}
use lib_uart_comm_protocol_l.Protocol.State.{
  uart_write, interrupt_break, success, CommProtocol, Malloc, NeverFails,
}
use lib_uart_comm_protocol_l.Protocol.Send.{packet_assemble_and_send}
use lib_uart_comm_protocol_l.Protocol.Receive.{receive_uart_data}
use lib_uart_comm_protocol_l.Protocol.Frame.{layout, frame}
use lib_uart_comm_protocol_l.Protocol.RoundTrip.{acknowledgement, delivery, receive-frame}
use lib_uart_comm_protocol_l.Protocol.Delivery.{arrivals, IsReady, send-answered}

module _ (m : Malloc) (available : NeverFails m) (s p : CommProtocol) (ready : IsReady s)
    (peer : IsReady p) where
  -- Between a ready sender and a ready peer, a reliable packet of at most 8160 payload bytes whose
  -- number is not the one acknowledged last: the peer, on the one frame that the sender writes,
  -- writes one answer and passes command and payload on unless the number repeats the last, and
  -- when that answer arrives in the first wait the sender's call returns success after that one
  -- write; the allocator does not fail.
  pub exchange :
      (cmd : ℕ) (payload : List ℕ)
      → cmd < 65536
      → length payload ≤ 8160
      → s.sequence ≢ s.current_acked_seq
      → (sent answer : List ℕ) × ((p' : CommProtocol) × (receive_uart_data m sent p ≡ some p')
          × (p'.effects
              ≡ p.effects
                ++ (uart_write answer ∷ delivery p.last_recv_packet_seq s.sequence cmd payload)))
        × ((s' : CommProtocol) × (packet_assemble_and_send m
                (arrivals m (λ _. answer))
                cmd
                (some payload)
                (length payload)
                (some true)
                s
              ≡ some (success, s'))
            × (s'.effects ≡ s.effects ++ (uart_write sent ∷ interrupt_break ∷ [])))
  exchange cmd payload hc short fresh =
      let answer = frame s.sequence 2 0 [] in
      let (p', taken, r) =
        receive-frame m available p peer.idle peer.receiving true s.sequence cmd payload short hc in
      let (s', result, noted, done) =
        send-answered m available (λ _. answer) s ready cmd (some payload) (omega arith) 5
          (crc16 (layout s.sequence 2 0 0 [])) (omega arith) (λ j a b. absurd (omega arith)) refl
          fresh in
      (
        frame s.sequence 1 cmd payload,
        answer,
        (
          p',
          taken,
          r.done
              ∙ ap
                  (λ b.
                    p.effects
                    ++ (acknowledgement b s.sequence
                        ++ delivery p.last_recv_packet_seq s.sequence cmd payload))
                  peer.writing,
        ),
        (s', result, done),
      )

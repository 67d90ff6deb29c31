-- ===== src/Protocol/Tests.antt =====
-- Runs of protocol/uni_communication.c from concrete states.
use lib_uart_comm_protocol_l.Prelude.{
  ℕ, ◌<◌, ◌≡◌, ◌≢◌, refl, arith, true, false, some, List, [], ◌∷◌, ◌++◌, inl, replicate,
  if◌then◌else◌, ◌==◌,
}
use lib_uart_comm_protocol_l.Prelude.Int.{pos, negsuc}
use lib_uart_comm_protocol_l.Crc16.{crc16tab, crc16_update, crc16_loop, crc16}
use lib_uart_comm_protocol_l.Protocol.State.{
  CommProtocol, uart_write, recv_frame, interrupt_break, success, payload_ack_timeout,
}
use lib_uart_comm_protocol_l.Protocol.Packet.{zero_header, assemble_packet, current_sequence_get}
use lib_uart_comm_protocol_l.Protocol.Send.{packet_assemble_and_send}
use lib_uart_comm_protocol_l.Protocol.Receive.{receive_uart_data}
use lib_uart_comm_protocol_l.Protocol.Frame.{layout, frame, assemble_packet_lem}
use lib_uart_comm_protocol_l.Protocol.Exchange.{exchange}
use lib_uart_comm_protocol_l.Protocol.Samples.{
  heap, heap_available, fresh, fresh_idle, fresh_ready, hello,
}
use lib_uart_comm_protocol_l.Protocol.RoundTrip.{Receives, receive-frame, receive-corrupt}
use lib_uart_comm_protocol_l.Protocol.Answer.{Answered, receive-ack, receive-nack}
use lib_uart_comm_protocol_l.Protocol.Delivery.{
  arrivals, send-unanswered, send-answered, send-stale_number,
}
use lib_uart_comm_protocol_l.Protocol.Nacked.{broken, send-nacked}

assemble_packet_lem_example :
    assemble_packet (zero_header (replicate 18 0)) 3 (some hello) 2 true 0 false false (fresh 4)
    ≡ (frame 4 1 3 hello, record (fresh 4) { sequence = 5 })
assemble_packet_lem_example =
    assemble_packet_lem (replicate 18 0) 3 (some hello) true 0 false false (fresh 4) refl
      (omega arith)

receive-frame_example :
    Receives
      (fresh 0)
      (pos 9)
      (uart_write (frame 9 2 0 []) ∷ recv_frame 3 hello ∷ [])
      (receive_uart_data heap (frame 9 1 3 hello) (fresh 0))
receive-frame_example =
    receive-frame heap heap_available (fresh 0) (fresh_idle 0) refl true 9 3 hello (omega arith)
      (omega arith)

zero_is_wrong : 0 ≢ crc16 (layout 9 1 3 0 hello)
unfolding crc16 crc16_loop crc16_update crc16tab
zero_is_wrong = omega arith

receive-corrupt_example :
    Receives
      (fresh 0)
      (negsuc 0)
      (uart_write (frame 9 4 0 []) ∷ [])
      (receive_uart_data heap (layout 9 1 3 0 hello) (fresh 0))
receive-corrupt_example =
    receive-corrupt heap heap_available (fresh 0) (fresh_idle 0) refl true 9 3 hello (omega arith) 0
      (omega arith) zero_is_wrong

receive-ack_example :
    (s' : CommProtocol) × (receive_uart_data heap (layout 3 2 0 0 []) (fresh 4) ≡ some s')
    × Answered (fresh 4) s' true 3 (interrupt_break ∷ [])
unfolding current_sequence_get
receive-ack_example = receive-ack heap heap_available (fresh 4) (fresh_idle 4) refl 3 0

receive-nack_example :
    (s' : CommProtocol) × (receive_uart_data heap (layout 3 4 0 0 []) (fresh 4) ≡ some s')
    × Answered (fresh 4) s' false 127 (interrupt_break ∷ [])
unfolding current_sequence_get
receive-nack_example = receive-nack heap heap_available (fresh 4) (fresh_idle 4) refl 3 0

send-unanswered_example :
    (s' : CommProtocol) × (packet_assemble_and_send heap
        (arrivals heap (λ _. []))
        3
        (some hello)
        2
        (some true)
        (fresh 4)
      ≡ some (payload_ack_timeout, s'))
    × (s'.effects ≡ replicate 6 (uart_write (frame 4 1 3 hello)))
send-unanswered_example =
    send-unanswered heap heap_available (λ _. []) (fresh 4) (fresh_ready 4 (omega arith)) 3
      (some hello) (omega arith) (λ k h. inl refl)

-- The first write is lost, and the second is acknowledged.
abbrev second_answer : ℕ → List ℕ
second_answer k = if k == 4 then layout 4 2 0 0 [] else []

second_silent : (j : ℕ) → 4 < j → second_answer j ≡ []
second_silent j h = ground arith

send-answered_example :
    (s' : CommProtocol) × (packet_assemble_and_send heap
        (arrivals heap second_answer)
        3
        (some hello)
        2
        (some true)
        (fresh 4)
      ≡ some (success, s'))
    × (s'.current_acked_seq ≡ 4)
    × (s'.effects ≡ replicate 2 (uart_write (frame 4 1 3 hello)) ++ (interrupt_break ∷ []))
send-answered_example =
    send-answered heap heap_available second_answer (fresh 4) (fresh_ready 4 (omega arith)) 3
      (some hello) (omega arith) 4 0 (omega arith) (λ j p q. inl (second_silent j p)) refl
      (omega arith)

-- The first write arrives with a wrong checksum, and the second one is acknowledged.
abbrev second_right : ℕ → List ℕ
second_right k = if k == 4 then layout 4 2 0 0 [] else layout 4 4 0 7 []

first_wrong : (j : ℕ) → 4 < j → second_right j ≡ layout 4 4 0 7 []
first_wrong j h = ground arith

send-nacked_example :
    (s' : CommProtocol) × (packet_assemble_and_send heap
        (arrivals heap second_right)
        3
        (some hello)
        2
        (some true)
        (fresh 4)
      ≡ some (success, s'))
    × (s'.current_acked_seq ≡ 4)
    × (s'.effects ≡ broken 2 (frame 4 1 3 hello))
send-nacked_example =
    send-nacked heap heap_available second_right (fresh 4) (fresh_ready 4 (omega arith)) 3
      (some hello) (omega arith) 4 0 (λ _. 7) (omega arith) (λ j p q. first_wrong j p) refl
      (omega arith)

-- The 128th packet, after 127 packets that asked for no acknowledgement.
send-stale_number_example :
    (s' : CommProtocol) × (packet_assemble_and_send heap
        (arrivals heap (λ _. layout 127 2 0 5 []))
        3
        (some hello)
        2
        (some true)
        (fresh 127)
      ≡ some (payload_ack_timeout, s'))
    × (s'.effects ≡ replicate 6 (uart_write (frame 127 1 3 hello)))
send-stale_number_example =
    send-stale_number heap heap_available (λ _. layout 127 2 0 5 []) (fresh 127)
      (fresh_ready 127 (omega arith)) 3 (some hello) (omega arith) 5 refl (λ k h. refl)

exchange_example :
    (sent answer : List ℕ) × ((p' : CommProtocol) × (receive_uart_data heap sent (fresh 0)
        ≡ some p')
      × (p'.effects ≡ uart_write answer ∷ recv_frame 3 hello ∷ []))
    × ((s' : CommProtocol) × (packet_assemble_and_send heap
            (arrivals heap (λ _. answer))
            3
            (some hello)
            2
            (some true)
            (fresh 4)
          ≡ some (success, s'))
        × (s'.effects ≡ uart_write sent ∷ interrupt_break ∷ []))
exchange_example =
    exchange heap heap_available (fresh 4) (fresh 0) (fresh_ready 4 (omega arith))
      (fresh_ready 0 (omega arith)) 3 hello (omega arith) (omega arith) (omega arith)

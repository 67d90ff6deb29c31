-- ===== src/Uart/Whole.antt =====
-- uart/uni_uart.c, between the device and the application: what comes from the device reaches the parser of
-- protocol/uni_communication.c whole, as long as the ring has room for it.
use mathlib.Core.Option
use lib_uart_comm_protocol_l.Prelude.{
  ℕ, ◌≤◌, ◌<◌, ◌≡◌, ap, ◌∙◌, arith, Bool, true, false, some, List, [], ◌++◌, length, ◌&&◌,
}
use lib_uart_comm_protocol_l.RingBuf.{RingBuf, ring_buffer_create}
use lib_uart_comm_protocol_l.RingBuf.Calls.{ring_buffer_create-Holds}
use lib_uart_comm_protocol_l.Protocol.State.{CommProtocol, Malloc, NeverFails}
use lib_uart_comm_protocol_l.Prelude.Int.{pos}
use lib_uart_comm_protocol_l.Protocol.Frame.{frame, control_byte}
use lib_uart_comm_protocol_l.Protocol.RoundTrip.{
  IsIdle, Received, acknowledgement, delivery, receive-frame,
}
use lib_uart_comm_protocol_l.Uart.{measuring, Line, ring_size, Turn, run}
use lib_uart_comm_protocol_l.Uart.ByteQueue.{IsSound, queue_run}
use lib_uart_comm_protocol_l.Uart.Stream.{line, fed, run-queue_run}
use lib_uart_comm_protocol_l.Uart.Ahead.{joined}
use lib_uart_comm_protocol_l.Uart.Drain.{last_turns, started, queue_run-joined}

-- When the reads of the device give the bytes of one frame of at most 8176 bytes, in any pieces:
-- after any turns of the two threads, two more turns of the reading thread for each read and
-- fourteen of the parsing thread end without a fault of the ring that UartInitialize creates, with
-- the ACK asked for written, command and payload passed to the application unless the number
-- repeats the last one, the number noted and the parser idle again. The parser is idle before, the
-- allocators do not fail and give blocks of the size asked for, the command has 16 bits, and a
-- receive handler is registered.
pub run-receive-frame :
    (m : Malloc) (block : ℕ → List ℕ) (s : CommProtocol) (reliable : Bool) (seq cmd : ℕ)
    (payload : List ℕ) (ts : List Turn) (device : List (List ℕ))
    → NeverFails m
    → ((n : ℕ) → length (block n) ≡ n)
    → IsIdle s
    → s.on_recv_frame ≡ true
    → length payload ≤ 8160
    → cmd < 65536
    → joined device ≡ frame seq (control_byte reliable false false) cmd payload
    → (r : RingBuf) × (l : Line) × (ring_buffer_create block (pos ring_size) ≡ some r)
      × (run m (ts ++ last_turns device) (record {
        ringbuf = r;
        protocol = s;
        device = device;
        buffer = [];
        parse_task = measuring;
      })
          ≡ some l)
      × Received s l.protocol (pos seq) (
          acknowledgement (reliable && s.on_write) seq
          ++ delivery s.last_recv_packet_seq seq cmd payload)
run-receive-frame m block s reliable seq cmd payload ts device available sized idle on short hc
      whole =
    let size : length (joined device) < ring_size = omega (arith, short, ap length whole) in
    let (r, created, empty) =
      ring_buffer_create-Holds block ring_size sized (omega arith) (omega arith) in
    let sound : IsSound (started device) = record { room = omega arith; measured = tt } in
    let (r', left, fed_to) =
      run-queue_run m (ts ++ last_turns device) r (started device) empty sound in
    let (s', parsed, received) =
      receive-frame m available s idle on reliable seq cmd payload short hc in
    let k' = (queue_run (ts ++ last_turns device) (started device)).1 in
    (
      r,
      line m r' k' s',
      created,
      fed_to s
          ∙ ap (λ bytes. fed m r' k' bytes s) (queue_run-joined ts device size ∙ whole)
          ∙ ap (Option.map (line m r' k')) parsed,
      received,
    )

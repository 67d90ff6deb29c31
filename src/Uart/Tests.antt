-- ===== src/Uart/Tests.antt =====
-- Runs of uart/uni_uart.c.
use lib_uart_comm_protocol_l.Prelude.{
  ℕ, ◌≡◌, refl, arith, true, some, List, [], ◌∷◌, ◌++◌, length, take, drop, replicate,
  length-replicate,
}
use lib_uart_comm_protocol_l.Prelude.Int.{pos}
use lib_uart_comm_protocol_l.RingBuf.{RingBuf, ring_buffer_create}
use lib_uart_comm_protocol_l.RingBuf.Refine.{Holds}
use lib_uart_comm_protocol_l.Protocol.State.{CommProtocol, uart_write, recv_frame}
use lib_uart_comm_protocol_l.Protocol.Frame.{frame}
use lib_uart_comm_protocol_l.Protocol.RoundTrip.{Received}
use lib_uart_comm_protocol_l.Protocol.Samples.{heap, heap_available, fresh, fresh_idle, hello}
use lib_uart_comm_protocol_l.Uart.{Line, ring_size, measuring, recv, parse, run}
use lib_uart_comm_protocol_l.Uart.Drain.{last_turns}
use lib_uart_comm_protocol_l.Uart.ByteQueue.{ByteQueue}
use lib_uart_comm_protocol_l.Uart.Stream.{line, fed, run-queue_run}
use lib_uart_comm_protocol_l.Uart.Whole.{run-receive-frame}

abbrev block : ℕ → List ℕ
block n = replicate n 0

block_sized : (n : ℕ) → length (block n) ≡ n
block_sized n = length-replicate n 0

-- A frame that comes in two reads, with an empty one between them.
abbrev sample : List ℕ
sample = frame 9 1 3 hello

abbrev two_reads : List (List ℕ)
two_reads = take 5 sample ∷ [] ∷ drop 5 sample ∷ []

run-receive-frame_example :
    (r : RingBuf) × (l : Line) × (ring_buffer_create block (pos ring_size) ≡ some r)
    × (run heap ((parse ∷ recv ∷ parse ∷ recv ∷ parse ∷ []) ++ last_turns two_reads) (record {
      ringbuf = r;
      protocol = fresh 0;
      device = two_reads;
      buffer = [];
      parse_task = measuring;
    })
        ≡ some l)
    × Received (fresh 0) l.protocol (pos 9) (uart_write (frame 9 2 0 []) ∷ recv_frame 3 hello ∷ [])
run-receive-frame_example =
    run-receive-frame heap block (fresh 0) true 9 3 hello (parse ∷ recv ∷ parse ∷ recv ∷ parse ∷ [])
      two_reads heap_available block_sized (fresh_idle 0) refl (omega arith) (omega arith) refl

-- The ring as UartInitialize creates it.
abbrev empty : RingBuf
empty = record { size = 8193; buf = block 8193; head = 0; tail = 0 }

empty-Holds : Holds ring_size empty []
empty-Holds = record {
  valid = record { block = block_sized 8193; head_in = omega arith; tail_in = omega arith };
  sized = refl;
  small = omega arith;
  same = refl;
}

abbrev bytes_come : ByteQueue
bytes_come = record {
  waiting = [];
  device = (4 ∷ 5 ∷ []) ∷ (6 ∷ []) ∷ [];
  buffer = [];
  parse_task = measuring;
}

-- The second read is not yet in the ring.
abbrev bytes_parsed : ByteQueue
bytes_parsed = record { waiting = []; device = []; buffer = 6 ∷ []; parse_task = measuring }

run-queue_run_example :
    (r' : RingBuf) × Holds ring_size r' []
    × ((s : CommProtocol)
        → run heap (recv ∷ recv ∷ parse ∷ parse ∷ recv ∷ parse ∷ []) (line heap empty bytes_come s)
          ≡ fed heap r' bytes_parsed (4 ∷ 5 ∷ []) s)
run-queue_run_example =
    run-queue_run heap (recv ∷ recv ∷ parse ∷ parse ∷ recv ∷ parse ∷ []) empty bytes_come
      empty-Holds (record { room = omega arith; measured = tt })

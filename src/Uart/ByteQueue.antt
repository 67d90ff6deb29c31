-- ===== src/Uart/ByteQueue.antt =====
-- The queue that the ring of uart/uni_uart.c stands for, between its two threads.
use lib_uart_comm_protocol_l.Prelude.{
  ℕ, ◌+◌, ◌≤◌, List, [], ◌∷◌, ◌++◌, ltb, if◌then◌else◌, length, take, drop,
}
use lib_uart_comm_protocol_l.Uart.{
  ParseTask, measuring, reading, parsing, buf_size, ring_size, Turn, recv, parse,
}

-- The line without the parser's state, and with a queue in place of the ring.
pub record ByteQueue : Type 0 where
  pub waiting : List ℕ
  pub device : List (List ℕ)
  pub buffer : List ℕ
  pub parse_task : ParseTask

-- How many of these waiting bytes the parser's thread takes.
abbrev pub batch : List ℕ → ℕ
batch q = if ltb buf_size (length q) then buf_size else length q

-- A read for which there is no room is dropped whole.
abbrev pub admitted : List ℕ → List ℕ → List ℕ
admitted bytes q = if ltb (length q + length bytes) ring_size then bytes else []

abbrev pub polled : List (List ℕ) → ByteQueue → ByteQueue
polled [] k = k
polled (bytes ∷ rest) k = record k { device = rest; buffer = admitted bytes k.waiting }

abbrev pub queue_recv : List ℕ → ByteQueue → ByteQueue
queue_recv [] k = polled k.device k
queue_recv (c ∷ rest) k = record k { waiting = k.waiting ++ (c ∷ rest); buffer = [] }

-- What a turn gives the parser, and the queue after it.
abbrev pub queue_parse : ParseTask → ByteQueue → List ℕ × ByteQueue
queue_parse measuring k = ([], record k { parse_task = reading (batch k.waiting) })
queue_parse (reading n) k =
    ([], record k { waiting = drop n k.waiting; parse_task = parsing (take n k.waiting) })
queue_parse (parsing bytes) k = (bytes, record k { parse_task = measuring })

abbrev pub queue_turn : Turn → ByteQueue → List ℕ × ByteQueue
queue_turn recv k = ([], queue_recv k.buffer k)
queue_turn parse k = queue_parse k.parse_task k

abbrev pub queue_run : List Turn → ByteQueue → List ℕ × ByteQueue
queue_run [] k = ([], k)
queue_run (t ∷ rest) k =
    let (now, k') = queue_turn t k in let (later, k'') = queue_run rest k' in (now ++ later, k'')

-- What the parser's thread goes on to read is there.
abbrev pub Measured : ParseTask → ℕ → Type 0
Measured measuring held = Unit {0}
Measured (reading n) held = n ≤ held
Measured (parsing bytes) held = Unit {0}

-- There is room for what `_recv_task` goes on to write.
pub record IsSound (k : ByteQueue) : Type 0 where
  pub room : length k.waiting + length k.buffer ≤ ring_size
  pub measured : Measured k.parse_task (length k.waiting)

-- ===== src/Uart.antt =====
-- uart/uni_uart.c: two threads between the serial device and the parser of protocol/uni_communication.c, with
-- a ring of utils/uni_ringbuf.c between them. A turn of a thread goes up to its next call of the ring or of
-- the parser, and the threads take turns in any order. What the reads of the device give is a parameter.
-- `none` is a fault of the ring or of the parser.
pub mod ByteQueue
pub mod Stream
pub mod Ahead
pub mod Drain
pub mod Whole
pub mod Open
mod Tests
use lib_uart_comm_protocol_l.Prelude.{
  ℕ, Option, none, some, List, [], ◌∷◌, ltb, if◌then◌else◌, length, bind,
}
use lib_uart_comm_protocol_l.Prelude.Int.{pos}
use lib_uart_comm_protocol_l.RingBuf.{
  RingBuf, get_data_size, get_free_size, ring_buffer_read, ring_buffer_write,
}
use lib_uart_comm_protocol_l.Protocol.State.{CommProtocol, Malloc}
use lib_uart_comm_protocol_l.Protocol.Receive.{receive_uart_data}

-- Where `_protocol_stack_parse_task` is: before its look at the data size, with the `len` to read, or with the
-- bytes in `buf`.
pub data ParseTask : Type 0 where
  measuring : ParseTask
  reading : ℕ → ParseTask
  parsing : List ℕ → ParseTask

-- The ring, the parser's state, what the next waits of `_recv_task` read from the device, with `[]` for one
-- that reads nothing, the bytes in its `buffer` for which there is room in the ring, and the other thread.
pub record Line : Type 0 where
  pub ringbuf : RingBuf
  pub protocol : CommProtocol
  pub device : List (List ℕ)
  pub buffer : List ℕ
  pub parse_task : ParseTask

-- `sizeof(buf)` of `_protocol_stack_parse_task`
abbrev pub buf_size : ℕ
buf_size = 2048

-- The size that `UartInitialize` creates the ring with
abbrev pub ring_size : ℕ
ring_size = 8192

-- `_recv_task` from the wait to the look at the free size: the bytes that it goes on to write.
unfoldable pub recv_wait : List ℕ → RingBuf → List ℕ
recv_wait bytes ringbuf =
    if ltb 0 (length bytes)
    then (if ltb (length bytes) (get_free_size ringbuf) then bytes else [])
    else []

unfoldable pub recv_poll : List (List ℕ) → Line → Line
unfolding recv_wait
recv_poll [] l = l
recv_poll (bytes ∷ rest) l = record l { device = rest; buffer = recv_wait bytes l.ringbuf }

-- A turn of `_recv_task`
unfoldable pub recv_turn : List ℕ → Line → Option Line
unfolding recv_poll
recv_turn [] l = some (recv_poll l.device l)
recv_turn (c ∷ rest) l =
    bind (ring_buffer_write (c ∷ rest) (pos (length (c ∷ rest))) l.ringbuf)
      λ (code, stored, ring). some (record l { ringbuf = ring; buffer = [] })

-- The `len` that a round of `_protocol_stack_parse_task` reads
unfoldable pub parse_len : RingBuf → ℕ
parse_len ringbuf = let len = get_data_size ringbuf in if ltb buf_size len then buf_size else len

-- A turn of `_protocol_stack_parse_task`
unfoldable pub parse_turn : Malloc → ParseTask → Line → Option Line
unfolding parse_len
parse_turn m measuring l = some (record l { parse_task = reading (parse_len l.ringbuf) })
parse_turn m (reading len) l =
    bind (ring_buffer_read (pos len) l.ringbuf)
      λ (code, bytes, ring). some (record l { ringbuf = ring; parse_task = parsing bytes })
parse_turn m (parsing buf) l =
    bind (receive_uart_data m buf l.protocol)
      λ protocol. some (record l { protocol = protocol; parse_task = measuring })

-- Whose turn it is.
pub data Turn : Type 0 where
  recv parse : Turn

unfoldable pub turn : Malloc → Turn → Line → Option Line
unfolding recv_turn parse_turn
turn m recv l = recv_turn l.buffer l
turn m parse l = parse_turn m l.parse_task l

-- The threads, in this order.
unfoldable pub run : Malloc → List Turn → Line → Option Line
unfolding turn
run m [] l = some l
run m (t ∷ rest) l = bind (turn m t l) (run m rest)

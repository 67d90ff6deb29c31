-- ===== src/Uart/Ahead.antt =====
-- The bytes that are on their way from the device of uart/uni_uart.c to the parser: no turn of a thread loses
-- one or changes their order, as long as they all fit the ring.
use lib_uart_comm_protocol_l.Prelude.{
  ℕ, ◌+◌, ◌<◌, ◌≡◌, refl, sym, ap, ◌∙◌, arith, true, List, [], ◌∷◌, ◌++◌, append_assoc, ltb, length,
  take, drop, length-append, take-append-drop,
}
use lib_uart_comm_protocol_l.Uart.{
  ParseTask, measuring, reading, parsing, ring_size, Turn, recv, parse,
}
use lib_uart_comm_protocol_l.Uart.ByteQueue.{
  ByteQueue, admitted, queue_recv, queue_parse, queue_turn, queue_run,
}

-- What the reads give, in one.
abbrev pub joined : List (List ℕ) → List ℕ
joined [] = []
joined (bytes ∷ rest) = bytes ++ joined rest

-- The bytes that are with the parser's thread.
abbrev pub in_buf : ParseTask → List ℕ
in_buf measuring = []
in_buf (reading n) = []
in_buf (parsing bytes) = bytes

-- The bytes that have not reached the parser, in order.
abbrev pub ahead : ByteQueue → List ℕ
ahead k = in_buf k.parse_task ++ (k.waiting ++ (k.buffer ++ joined k.device))

-- A read fits where all that is on its way fits.
admitted-all : (bytes q : List ℕ) → length q + length bytes < ring_size → admitted bytes q ≡ bytes
admitted-all bytes q h =
    let fits : ltb (length q + length bytes) ring_size ≡ true = ground (arith, h) in rw fits refl

-- No turn loses a byte, or changes the order.
recv-ahead :
    (q : List ℕ) (device : List (List ℕ)) (buffer : List ℕ) (task : ParseTask)
    → let k : ByteQueue = record {
      waiting = q;
      device = device;
      buffer = buffer;
      parse_task = task;
    } in
      length q + length (joined device) < ring_size → ahead (queue_recv buffer k) ≡ ahead k
recv-ahead q [] [] task h = refl
recv-ahead q (bytes ∷ rest) [] task h =
    rw (admitted-all bytes q (omega (arith, h, length-append bytes (joined rest)))) refl
recv-ahead q device (c ∷ rest) task h =
    ap (λ more. in_buf task ++ more) (append_assoc q (c ∷ rest) (joined device))

parse-ahead :
    (q : List ℕ) (device : List (List ℕ)) (buffer : List ℕ) (task : ParseTask)
    → let k : ByteQueue = record {
      waiting = q;
      device = device;
      buffer = buffer;
      parse_task = task;
    } in
      (queue_parse task k).0 ++ ahead (queue_parse task k).1 ≡ ahead k
parse-ahead q device buffer measuring = refl
parse-ahead q device buffer (reading n) =
    sym (append_assoc (take n q) (drop n q) (buffer ++ joined device))
    ∙ ap (λ all. all ++ (buffer ++ joined device)) (take-append-drop n q)
parse-ahead q device buffer (parsing bytes) = refl

turn-ahead :
    (t : Turn) (k : ByteQueue)
    → length (ahead k) < ring_size
    → (queue_turn t k).0 ++ ahead (queue_turn t k).1 ≡ ahead k
turn-ahead recv k h =
    let small = length-append (in_buf k.parse_task) (k.waiting ++ (k.buffer ++ joined k.device)) in
    let smaller = length-append k.waiting (k.buffer ++ joined k.device) in
    let smallest = length-append k.buffer (joined k.device) in
    recv-ahead k.waiting k.device k.buffer k.parse_task (omega (arith, h, small, smaller, smallest))
turn-ahead parse k h = parse-ahead k.waiting k.device k.buffer k.parse_task

pub queue_run-ahead :
    (ts : List Turn) (k : ByteQueue)
    → length (ahead k) < ring_size
    → (queue_run ts k).0 ++ ahead (queue_run ts k).1 ≡ ahead k
queue_run-ahead [] k h = refl
queue_run-ahead (t ∷ rest) k h =
    let (now, k') = queue_turn t k in
    let same = turn-ahead t k h in
    let shorter = length-append now (ahead k') in
    append_assoc now (queue_run rest k').0 (ahead (queue_run rest k').1)
    ∙ ap (λ later. now ++ later)
        (queue_run-ahead rest k' (omega (arith, h, ap length same, shorter)))
    ∙ same

pub queue_run-append :
    (ts us : List Turn) (k : ByteQueue)
    → queue_run (ts ++ us) k ≡ (
      (queue_run ts k).0 ++ (queue_run us (queue_run ts k).1).0,
      (queue_run us (queue_run ts k).1).1,
    )
queue_run-append [] us k = refl
queue_run-append (t ∷ rest) us k =
    let after = queue_turn t k in
    rw
      (
        queue_run-append rest us after.1,
        append_assoc after.0 (queue_run rest after.1).0 (queue_run us (queue_run rest after.1).1).0,
      )
      refl

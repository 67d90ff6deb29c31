-- ===== src/Uart/Drain.antt =====
-- How many turns the threads of uart/uni_uart.c need until nothing is left between the device and the parser.
use lib_uart_comm_protocol_l.Prelude.{
  ℕ, suc, zero, ◌+◌, ◌-◌, ◌*◌, ◌≤◌, ◌<◌, ◌≡◌, refl, sym, ap, ◌∙◌, arith, List, [], ◌∷◌, ◌++◌,
  append-nil, length, drop, length-append, length-drop, take-append-drop, replicate,
}
use lib_uart_comm_protocol_l.Uart.{
  ParseTask, measuring, reading, parsing, buf_size, ring_size, Turn, recv, parse,
}
use lib_uart_comm_protocol_l.Uart.ByteQueue.{
  ByteQueue, batch, admitted, queue_recv, queue_parse, queue_turn, queue_run,
}
use lib_uart_comm_protocol_l.Uart.Ahead.{joined, in_buf, ahead, queue_run-ahead, queue_run-append}

-- How many turns the thread that reads the device needs at most.
abbrev pub held : List ℕ → ℕ
held [] = 0
held (c ∷ rest) = 1

abbrev pub turns_left : ByteQueue → ℕ
turns_left k = 2 * length k.device + held k.buffer

held-le : (bytes : List ℕ) → held bytes ≤ 1
held-le [] = omega arith
held-le (c ∷ rest) = omega arith

-- A turn of that thread does some of its turns_left, if there is any.
recv-turns_left :
    (q : List ℕ) (device : List (List ℕ)) (buffer : List ℕ) (task : ParseTask)
    → let k : ByteQueue = record {
      waiting = q;
      device = device;
      buffer = buffer;
      parse_task = task;
    } in
      turns_left (queue_recv buffer k) ≤ turns_left k - 1
recv-turns_left q [] [] task = omega arith
recv-turns_left q (bytes ∷ rest) [] task = omega (arith, held-le (admitted bytes q))
recv-turns_left q device (c ∷ rest) task = omega arith

parse-turns_left :
    (task : ParseTask) (k : ByteQueue) → turns_left (queue_parse task k).1 ≡ turns_left k
parse-turns_left measuring k = refl
parse-turns_left (reading n) k = refl
parse-turns_left (parsing bytes) k = refl

turn-turns_left : (t : Turn) (k : ByteQueue) → turns_left (queue_turn t k).1 ≤ turns_left k
turn-turns_left recv k =
    let less = recv-turns_left k.waiting k.device k.buffer k.parse_task in omega (arith, less)
turn-turns_left parse k = omega (arith, parse-turns_left k.parse_task k)

queue_run-turns_left :
    (ts : List Turn) (k : ByteQueue) → turns_left (queue_run ts k).1 ≤ turns_left k
queue_run-turns_left [] k = omega arith
queue_run-turns_left (t ∷ rest) k =
    omega (arith, turn-turns_left t k, queue_run-turns_left rest (queue_turn t k).1)

recv_all :
    (n : ℕ) (k : ByteQueue) → turns_left k ≤ n → turns_left (queue_run (replicate n recv) k).1 ≡ 0
recv_all zero k h = omega (arith, h)
recv_all (suc n) k h =
    let less = recv-turns_left k.waiting k.device k.buffer k.parse_task in
    recv_all n (queue_recv k.buffer k) (omega (arith, less, h))

-- Three turns of the other thread, so many times.
abbrev rounds : ℕ → List Turn
rounds zero = []
rounds (suc n) = parse ∷ parse ∷ parse ∷ rounds n

-- With nothing more to come, that empties the queue.
queue_run-rounds :
    (n : ℕ) (q : List ℕ) (device : List (List ℕ)) (buffer : List ℕ)
    → length q ≤ n * buf_size
    → queue_run
        (rounds n)
        (record { waiting = q; device = device; buffer = buffer; parse_task = measuring })
      ≡ (q, record { waiting = []; device = device; buffer = buffer; parse_task = measuring })
queue_run-rounds zero [] device buffer h = refl
queue_run-rounds zero (c ∷ q) device buffer h = absurd (omega arith)
queue_run-rounds (suc n) q device buffer h =
    let left = length-drop (batch q) q in
    let less : length (drop (batch q) q) ≤ n * buf_size = ground (arith, left, h) in
    rw (queue_run-rounds n (drop (batch q) q) device buffer less, take-append-drop (batch q) q) refl

append_empty : (xs ys : List ℕ) → xs ++ ys ≡ [] → ys ≡ []
append_empty [] ys e = e
append_empty (x ∷ xs) ys e = absurd (omega (arith, ap length e))

-- What is empty stays empty.
ahead-empty : (ts : List Turn) (k : ByteQueue) → ahead k ≡ [] → ahead (queue_run ts k).1 ≡ []
ahead-empty ts k e =
    append_empty (queue_run ts k).0 (ahead (queue_run ts k).1)
      (queue_run-ahead ts k (omega (arith, ap length e)) ∙ e)

-- Fourteen turns are four times three, and two more for a round that has begun.
flushed :
    (q : List ℕ) (device : List (List ℕ)) (buffer : List ℕ) (task : ParseTask)
    → let k : ByteQueue = record {
      waiting = q;
      device = device;
      buffer = buffer;
      parse_task = task;
    } in
      turns_left k ≡ 0 → length q ≤ 4 * buf_size → ahead (queue_run (replicate 14 parse) k).1 ≡ []
flushed q [] [] measuring e h =
    let k : ByteQueue = record { waiting = q; device = []; buffer = []; parse_task = measuring } in
    let two : List Turn = parse ∷ parse ∷ [] in
    ap (λ p. ahead p.1) (queue_run-append (rounds 4) two k)
    ∙ ahead-empty two (queue_run (rounds 4) k).1
        (ap (λ p. ahead p.1) (queue_run-rounds 4 q [] [] h))
flushed q [] [] (reading n) e h =
    ap (λ p. ahead p.1) (queue_run-rounds 4 (drop n q) [] [] (omega (arith, h, length-drop n q)))
flushed q [] [] (parsing bytes) e h =
    let k : ByteQueue = record { waiting = q; device = []; buffer = []; parse_task = measuring } in
    let one : List Turn = parse ∷ [] in
    ap (λ p. ahead p.1) (queue_run-append (rounds 4) one k)
    ∙ ahead-empty one (queue_run (rounds 4) k).1
        (ap (λ p. ahead p.1) (queue_run-rounds 4 q [] [] h))
flushed q (bytes ∷ rest) buffer task e h = absurd (omega (arith, e))
flushed q device (c ∷ rest) task e h = absurd (omega (arith, e))

-- The turns that end it: all reads, and four full rounds of the parser.
abbrev pub last_turns : List (List ℕ) → List Turn
last_turns device = replicate (2 * length device) recv ++ replicate 14 parse

-- The threads have just been started on an empty ring.
abbrev pub started : List (List ℕ) → ByteQueue
started device = record { waiting = []; device = device; buffer = []; parse_task = measuring }

ahead-le :
    (ts : List Turn) (k : ByteQueue)
    → length (ahead k) < ring_size
    → length (ahead (queue_run ts k).1) ≤ length (ahead k)
ahead-le ts k h = omega (
  arith,
  ap length (queue_run-ahead ts k h),
  length-append (queue_run ts k).0 (ahead (queue_run ts k).1),
)

waiting-le : (k : ByteQueue) → length k.waiting ≤ length (ahead k)
waiting-le k = omega (
  arith,
  length-append (in_buf k.parse_task) (k.waiting ++ (k.buffer ++ joined k.device)),
  length-append k.waiting (k.buffer ++ joined k.device),
)

-- Nothing is left at the end.
ahead-last_turns :
    (ts : List Turn) (device : List (List ℕ))
    → length (joined device) < ring_size
    → ahead (queue_run (ts ++ last_turns device) (started device)).1 ≡ []
ahead-last_turns ts device h =
    let k = started device in
    let reads = replicate (2 * length device) recv in
    let k1 = (queue_run ts k).1 in
    let k2 = (queue_run reads k1).1 in
    let small = ahead-le ts k (omega (arith, h)) in
    let smaller = ahead-le reads k1 (omega (arith, h, small)) in
    let idle : turns_left k2 ≡ 0 =
      recv_all (2 * length device) k1 (omega (arith, queue_run-turns_left ts k)) in
    ap (λ p. ahead p.1) (queue_run-append ts (last_turns device) k)
    ∙ ap (λ p. ahead p.1) (queue_run-append reads (replicate 14 parse) k1)
    ∙ flushed k2.waiting k2.device k2.buffer k2.parse_task idle
        (omega (arith, h, small, smaller, waiting-le k2))

-- All that the reads give comes out.
pub queue_run-joined :
    (ts : List Turn) (device : List (List ℕ))
    → length (joined device) < ring_size
    → (queue_run (ts ++ last_turns device) (started device)).0 ≡ joined device
queue_run-joined ts device h =
    let k = started device in
    let out = (queue_run (ts ++ last_turns device) k).0 in
    sym (append-nil out)
    ∙ ap (λ left. out ++ left) (sym (ahead-last_turns ts device h))
    ∙ queue_run-ahead (ts ++ last_turns device) k (omega (arith, h))

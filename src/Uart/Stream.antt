-- ===== src/Uart/Stream.antt =====
-- What the parser gets from the serial device of uart/uni_uart.c, as a stream of bytes: the ring between the
-- two threads is a bounded queue, and the parser does not see how the stream is cut into turns.
use mathlib.Core.Option
use lib_uart_comm_protocol_l.Prelude.{
  ℕ, ◌+◌, ◌≤◌, ◌≡◌, refl, sym, ap, ◌∙◌, arith, true, false, Option, none, some, List, [], ◌∷◌, ◌++◌,
  ltb, Bool-cases, inl, inr, length, bind, length-append, length-drop,
}
use lib_uart_comm_protocol_l.Prelude.Binds.{bind_assoc, bind_ext, bind-map}
use lib_uart_comm_protocol_l.RingBuf.{RingBuf, get_free_size}
use lib_uart_comm_protocol_l.RingBuf.Refine.{Holds}
use lib_uart_comm_protocol_l.RingBuf.Calls.{
  get_data_size-Holds, get_free_size-Holds, ring_buffer_read-Holds, ring_buffer_write-Holds,
}
use lib_uart_comm_protocol_l.Protocol.State.{CommProtocol, Malloc}
use lib_uart_comm_protocol_l.Protocol.Receive.{generate_byte_by_byte, receive_uart_data}
use lib_uart_comm_protocol_l.Uart.{
  ParseTask, measuring, reading, parsing, Line, ring_size, recv_wait, recv_poll, recv_turn,
  parse_len, parse_turn, Turn, recv, parse, turn, run,
}
use lib_uart_comm_protocol_l.Uart.ByteQueue.{
  ByteQueue, admitted, queue_turn, queue_run, Measured, IsSound,
}

Measured-more : (task : ParseTask) (a b : ℕ) → a ≤ b → Measured task a → Measured task b
Measured-more measuring a b le h = tt
Measured-more (reading n) a b le h = omega (arith, le, h)
Measured-more (parsing bytes) a b le h = tt

module _ (m : Malloc) where
  pub receive_uart_data-append :
      (a b : List ℕ) (s : CommProtocol)
      → receive_uart_data m (a ++ b) s ≡ bind (receive_uart_data m a s) (receive_uart_data m b)
  unfolding receive_uart_data
  receive_uart_data-append [] b s = refl
  receive_uart_data-append (c ∷ rest) b s =
      bind_ext (generate_byte_by_byte m c s) (receive_uart_data m (rest ++ b))
        (λ t. bind (receive_uart_data m rest t) (receive_uart_data m b))
        (receive_uart_data-append rest b)
      ∙ sym (
          bind_assoc (generate_byte_by_byte m c s) (receive_uart_data m rest)
            (receive_uart_data m b))

  -- The line with this ring in place of the queue
  abbrev pub line : RingBuf → ByteQueue → CommProtocol → Line
  line r k s = record {
    ringbuf = r;
    protocol = s;
    device = k.device;
    buffer = k.buffer;
    parse_task = k.parse_task;
  }

  -- ... once the parser has had these bytes.
  abbrev pub fed : RingBuf → ByteQueue → List ℕ → CommProtocol → Option Line
  fed r k bytes s = Option.map (line r k) (receive_uart_data m bytes s)

  -- A turn gives the parser what the queue gives, and the ring is the queue after it, whatever state the parser
  -- is in.
  abbrev pub Follows : Turn → RingBuf → ByteQueue → Type 0
  Follows t r k =
      (r' : RingBuf) × Holds ring_size r' (queue_turn t k).1.waiting
      × IsSound (queue_turn t k).1
      × ((s : CommProtocol)
          → turn m t (line r k s) ≡ fed r' (queue_turn t k).1 (queue_turn t k).0 s)

  module _ (r : RingBuf) (q : List ℕ) (h : Holds ring_size r q) where
    -- The thread that reads the device admits what the queue admits.
    recv_wait-admitted : (bytes : List ℕ) → recv_wait bytes r ≡ admitted bytes q
    unfolding recv_wait
    recv_wait-admitted [] = elim (Bool-cases (ltb (length q + 0) ring_size)) [
      | inl e ↦ rw e refl
      | inr e ↦ rw e refl
    ]
    recv_wait-admitted (c ∷ rest) =
        let free = get_free_size-Holds ring_size r q h in
        let some_bytes : ltb 0 (length (c ∷ rest)) ≡ true = ground arith in
        elim (Bool-cases (ltb (length q + length (c ∷ rest)) ring_size)) [
          | inl fits ↦
              let roomy : ltb (length (c ∷ rest)) (get_free_size r) ≡ true =
                ground (arith, free, fits) in
              rw (some_bytes, fits, roomy) refl
          | inr full ↦
              let short : ltb (length (c ∷ rest)) (get_free_size r) ≡ false =
                ground (arith, free, full) in
              rw (some_bytes, full, short) refl
        ]

    admitted-room :
        (bytes : List ℕ) → length q ≤ ring_size → length q + length (admitted bytes q) ≤ ring_size
    admitted-room bytes room = elim (Bool-cases (ltb (length q + length bytes) ring_size)) [
      | inl fits ↦ rw fits (ground (arith, fits))
      | inr full ↦ rw full (omega (arith, room))
    ]

    recv-Follows :
        (device : List (List ℕ)) (buffer : List ℕ) (task : ParseTask)
        → let k : ByteQueue = record {
          waiting = q;
          device = device;
          buffer = buffer;
          parse_task = task;
        } in
          IsSound k → Follows recv r k
    unfolding turn recv_turn recv_poll receive_uart_data
    recv-Follows [] [] task sound = (r, h, sound, λ s. refl)
    recv-Follows (bytes ∷ rest) [] task sound = (
      r,
      h,
      record { room = admitted-room bytes (omega (arith, sound.room)); measured = sound.measured },
      λ s.
          ap
            (λ buffer. some (record {
              ringbuf = r;
              protocol = s;
              device = rest;
              buffer = buffer;
              parse_task = task;
            }))
            (recv_wait-admitted bytes),
    )
    recv-Follows device (c ∷ rest) task sound =
        let (r', stored, h') = ring_buffer_write-Holds ring_size r q h (c ∷ rest) sound.room in
        let longer = length-append q (c ∷ rest) in
        (
          r',
          h',
          record {
            room = omega (arith, longer, sound.room);
            measured =
                Measured-more task (length q) (length (q ++ (c ∷ rest))) (omega (arith, longer))
                  sound.measured;
          },
          λ s. rw stored refl,
        )

    parse-Follows :
        (device : List (List ℕ)) (buffer : List ℕ) (task : ParseTask)
        → let k : ByteQueue = record {
          waiting = q;
          device = device;
          buffer = buffer;
          parse_task = task;
        } in
          IsSound k → Follows parse r k
    unfolding turn parse_turn parse_len receive_uart_data
    parse-Follows device buffer measuring sound = (
      r,
      h,
      record { room = sound.room; measured = ground arith },
      λ s. rw (get_data_size-Holds ring_size r q h) refl,
    )
    parse-Follows device buffer (reading n) sound =
        let (r', taken, h') = ring_buffer_read-Holds ring_size r q h n sound.measured in
        (
          r',
          h',
          record { room = omega (arith, sound.room, length-drop n q); measured = tt },
          λ s. rw taken refl,
        )
    parse-Follows device buffer (parsing bytes) sound = (
      r,
      h,
      record { room = sound.room; measured = tt },
      λ s. bind-map (receive_uart_data m bytes s) _,
    )

  turn-Follows :
      (t : Turn) (r : RingBuf) (k : ByteQueue)
      → Holds ring_size r k.waiting
      → IsSound k
      → Follows t r k
  turn-Follows recv r k h sound = recv-Follows r k.waiting h k.device k.buffer k.parse_task sound
  turn-Follows parse r k h sound = parse-Follows r k.waiting h k.device k.buffer k.parse_task sound

  -- The rest of a run, once its first turn has fed the parser.
  fed-append :
      (r' r'' : RingBuf) (k' k'' : ByteQueue) (now later : List ℕ) (rest : List Turn)
      → ((s : CommProtocol) → run m rest (line r' k' s) ≡ fed r'' k'' later s)
      → (s : CommProtocol) → bind (fed r' k' now s) (run m rest) ≡ fed r'' k'' (now ++ later) s
  fed-append r' r'' k' k'' now later rest h s =
      rw (receive_uart_data-append now later s) (after (receive_uart_data m now s))
    where
      after :
          (x : Option CommProtocol)
          → bind (Option.map (line r' k') x) (run m rest)
            ≡ Option.map (line r'' k'') (bind x (receive_uart_data m later))
      after none = refl
      after (some t) = h t

  -- From a ring that stands for the waiting bytes of a queue, with room in it for what the reading
  -- thread is about to write and all there that the parsing thread is about to read, any order of
  -- turns of the two threads has no fault of the ring, gives the parser the bytes that come out of
  -- the queue, as if they came in one call, and leaves in the ring what waits in the queue, where
  -- a read that does not leave a byte of its 8192 free is dropped whole.
  pub run-queue_run :
      (ts : List Turn) (r : RingBuf) (k : ByteQueue)
      → Holds ring_size r k.waiting
      → IsSound k
      → (r' : RingBuf) × Holds ring_size r' (queue_run ts k).1.waiting
        × ((s : CommProtocol)
            → run m ts (line r k s) ≡ fed r' (queue_run ts k).1 (queue_run ts k).0 s)
  unfolding run receive_uart_data
  run-queue_run [] r k h sound = (r, h, λ s. refl)
  run-queue_run (t ∷ rest) r k h sound =
      let k' = (queue_turn t k).1 in
      let (r', h', sound', now) = turn-Follows t r k h sound in
      let (r'', h'', later) = run-queue_run rest r' k' h' sound' in
      (r'', h'', λ s. rw (now s) (fed-append r' r'' k' (queue_run rest k').1 _ _ rest later s))

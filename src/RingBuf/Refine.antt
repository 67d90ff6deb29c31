-- ===== src/RingBuf/Refine.antt =====
-- The ring of utils/uni_ringbuf.c against a bounded queue of bytes, over any sequence of calls.
use lib_uart_comm_protocol_l.Prelude.{
  ℕ, suc, ◌+◌, ◌%◌, ◌^◌, ◌<◌, ◌≡◌, ap, ◌∙◌, refl, arith, true, false, Option, some, List, [], ◌∷◌,
  ◌++◌, ltb, leb, ◌==◌, if◌then◌else◌, length, take, drop, bind,
}
use lib_uart_comm_protocol_l.Prelude.Int.{ℤ, pos, negsuc}
use native.Mathlib.Decide.{dec_le}
use lib_uart_comm_protocol_l.RingBuf.{
  RingBuf, Result, int_max, get_data_size, get_free_size, is_attr_setted, read_internal,
  write_internal, read_with, write_with, ring_buffer_peek, ring_buffer_read, ring_buffer_write,
  ring_buffer_clear, ring_buffer_create,
}
use lib_uart_comm_protocol_l.RingBuf.Inv.{
  IsRing, contents, get_data_size-contents, get_free_size-contents,
}
use lib_uart_comm_protocol_l.RingBuf.Read.{read_bytes_lem}
use lib_uart_comm_protocol_l.RingBuf.Write.{write_bytes_lem}

-- A call, with its arguments.
pub data Call : Type 0 where
  peek read : ℕ → Call
  write : List ℕ → Call
  clear : Call

-- What a call returns, and the bytes that it stores.
abbrev pub Answer : Type 0
Answer = ℤ × List ℕ

-- The queue: it holds no more than `capacity` bytes, and a call that asks for too much is refused.
unfoldable pub queue_step : ℕ → Call → List ℕ → Answer × List ℕ
queue_step capacity (peek n) xs =
    if leb n (length xs) then ((pos n, take n xs), xs) else ((negsuc 0, []), xs)
queue_step capacity (read n) xs =
    if leb n (length xs) then ((pos n, take n xs), drop n xs) else ((negsuc 0, []), xs)
queue_step capacity (write src) xs =
    if leb (length xs + length src) capacity
    then ((pos (length src), []), xs ++ src)
    else ((negsuc 0, []), xs)
queue_step capacity clear xs = ((pos 0, []), [])

unfoldable pub queue_run : ℕ → List Call → List ℕ → List Answer
unfolding queue_step
queue_run capacity [] xs = []
queue_run capacity (call ∷ rest) xs =
    let (answer, xs') = queue_step capacity call xs in answer ∷ queue_run capacity rest xs'

-- The same calls of the ring.
unfoldable pub ring_step : Call → RingBuf → Result
unfolding ring_buffer_peek ring_buffer_read ring_buffer_write ring_buffer_clear
ring_step (peek n) r = ring_buffer_peek (pos n) r
ring_step (read n) r = ring_buffer_read (pos n) r
ring_step (write src) r = ring_buffer_write src (pos (length src)) r
ring_step clear r = some (pos 0, [], ring_buffer_clear r)

pub ring_run : List Call → RingBuf → Option (List Answer)
unfolding ring_step
ring_run [] r = some []
ring_run (call ∷ rest) r =
    bind (ring_step call r)
      λ (code, bytes, r'). bind (ring_run rest r') λ answers. some ((code, bytes) ∷ answers)

-- The ring stands for the queue `xs`.
pub record Holds (capacity : ℕ) (r : RingBuf) (xs : List ℕ) : Type 0 where
  pub valid : IsRing r
  pub sized : r.size ≡ suc capacity
  pub small : capacity < 2 ^ 30
  pub same : contents r ≡ xs

-- A call of the ring gives what the queue gives, and the ring stands for the queue after it.
abbrev pub Agrees : ℕ → Result → Answer × List ℕ → Type 0
Agrees capacity result ((code, bytes), xs) =
    (r : RingBuf) × (result ≡ some (code, bytes, r)) × Holds capacity r xs

module _ (capacity : ℕ) (r : RingBuf) (v : IsRing r) (z : r.size ≡ suc capacity)
    (small : capacity < 2 ^ 30) where
  -- The sums of the ring's positions are within an `int`.
  size_fits : ltb int_max (r.head + r.size) ≡ false
  size_fits = ground (arith, v.head_in)

  unchanged : Holds capacity r (contents r)
  unchanged = record { valid = v; sized = z; small = small; same = refl }

  peek-Agrees :
      (n : ℕ) → Agrees capacity (ring_step (peek n) r) (queue_step capacity (peek n) (contents r))
  unfolding ring_step ring_buffer_peek read_with read_internal is_attr_setted queue_step
  peek-Agrees n = elim (dec_le n (length (contents r))) [
    | yes h ↦
        let fits : ltb (get_data_size r) n ≡ false = ground (arith, get_data_size-contents r v) in
        let held : leb n (length (contents r)) ≡ true = ground arith in
        let end_fits : ltb int_max (r.tail + n) ≡ false =
          ground (arith, v.tail_in, get_free_size-contents r v) in
        rw (size_fits, fits, end_fits, held) (r, rw ((read_bytes_lem r v n h).1), unchanged)
    | no h ↦
        let long : ltb (get_data_size r) n ≡ true = ground (arith, get_data_size-contents r v) in
        let short : leb n (length (contents r)) ≡ false = ground arith in
        rw (size_fits, long, short) (r, refl, unchanged)
  ]

  read-Agrees :
      (n : ℕ) → Agrees capacity (ring_step (read n) r) (queue_step capacity (read n) (contents r))
  unfolding ring_step ring_buffer_read read_with read_internal is_attr_setted queue_step
  read-Agrees n = elim (dec_le n (length (contents r))) [
    | yes h ↦
        let fits : ltb (get_data_size r) n ≡ false = ground (arith, get_data_size-contents r v) in
        let held : leb n (length (contents r)) ≡ true = ground arith in
        let (inside, taken, left) = read_bytes_lem r v n h in
        let end_fits : ltb int_max (r.tail + n) ≡ false =
          ground (arith, v.tail_in, get_free_size-contents r v) in
        rw (size_fits, fits, end_fits, held)
          (
            record r { tail = (r.tail + n) % r.size },
            rw taken,
            record {
              valid = record { block = v.block; head_in = v.head_in; tail_in = inside };
              sized = z;
              small = small;
              same = left;
            },
          )
    | no h ↦
        let long : ltb (get_data_size r) n ≡ true = ground (arith, get_data_size-contents r v) in
        let short : leb n (length (contents r)) ≡ false = ground arith in
        rw (size_fits, long, short) (r, refl, unchanged)
  ]

  write-Agrees :
      (src : List ℕ)
      → Agrees capacity (ring_step (write src) r) (queue_step capacity (write src) (contents r))
  unfolding ring_step ring_buffer_write write_with write_internal is_attr_setted queue_step
  write-Agrees src = elim (dec_le (length src) (get_free_size r)) [
    | yes h ↦
        let fits : ltb (get_free_size r) (length src) ≡ false = ground arith in
        let room : leb (length (contents r) + length src) capacity ≡ true =
          ground (arith, get_free_size-contents r v) in
        let (block, inside, written, same_size, longer) = write_bytes_lem r v src h in
        let end_fits : ltb int_max (r.head + length src) ≡ false =
          ground (arith, v.head_in, get_free_size-contents r v) in
        rw (size_fits, fits, end_fits, room)
          (
            record r { buf = block; head = (r.head + length src) % r.size },
            rw written,
            record {
              valid = record { block = same_size; head_in = inside; tail_in = v.tail_in };
              sized = z;
              small = small;
              same = longer;
            },
          )
    | no h ↦
        let long : ltb (get_free_size r) (length src) ≡ true = ground arith in
        let full : leb (length (contents r) + length src) capacity ≡ false =
          ground (arith, get_free_size-contents r v) in
        rw (size_fits, long, full) (r, refl, unchanged)
  ]

  clear-Agrees : Agrees capacity (ring_step clear r) (queue_step capacity clear (contents r))
  unfolding ring_step ring_buffer_clear queue_step
  clear-Agrees = (
    ring_buffer_clear r,
    refl,
    record {
      valid = record { block = v.block; head_in = omega (arith, z); tail_in = omega (arith, z) };
      sized = z;
      small = small;
      same = refl;
    },
  )

  pub step-Agrees :
      (call : Call) → Agrees capacity (ring_step call r) (queue_step capacity call (contents r))
  step-Agrees (peek n) = peek-Agrees n
  step-Agrees (read n) = read-Agrees n
  step-Agrees (write src) = write-Agrees src
  step-Agrees clear = clear-Agrees

run_agrees :
    (capacity : ℕ) (calls : List Call) (r : RingBuf) (xs : List ℕ)
    → Holds capacity r xs
    → ring_run calls r ≡ some (queue_run capacity calls xs)
unfolding ring_run queue_run
run_agrees capacity [] r xs h = refl
run_agrees capacity (call ∷ rest) r xs h =
    let (r', result, after) = step-Agrees capacity r h.valid h.sized h.small call in
    ap
      (λ t.
        bind t
          λ (code, bytes, r''). bind (ring_run rest r'') λ answers. some ((code, bytes) ∷ answers))
      result
    ∙ ap (λ t. bind t λ answers. some ((queue_step capacity call (contents r)).0 ∷ answers))
        (run_agrees capacity rest r' _ after)
    ∙ ap (λ ys. some (queue_run capacity (call ∷ rest) ys)) h.same

-- A ring created for capacity bytes, which is above 0 and below 2^30, answers every sequence of
-- peeks, reads, writes and clears, no length being negative, as the empty first-in first-out queue
-- of that capacity does, a call for more than is there or free returning -1 and changing nothing,
-- and no access leaves the block and no sum overflows; the allocator gives blocks of the size
-- asked for.
pub ring_run-queue_run :
    (block : ℕ → List ℕ) (capacity : ℕ) (calls : List Call)
    → ((n : ℕ) → length (block n) ≡ n)
    → 0 < capacity
    → capacity < 2 ^ 30
    → bind (ring_buffer_create block (pos capacity)) (ring_run calls)
      ≡ some (queue_run capacity calls [])
unfolding ring_buffer_create
ring_run-queue_run block capacity calls sized h below =
    let some_size : (capacity == 0) ≡ false = ground arith in
    rw some_size (
      run_agrees capacity calls _ [] (record {
        valid = record {
          block = sized (capacity + 1);
          head_in = omega arith;
          tail_in = omega arith;
        };
        sized = omega arith;
        small = below;
        same = refl;
      }))

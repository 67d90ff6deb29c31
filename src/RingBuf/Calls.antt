-- ===== src/RingBuf/Calls.antt =====
-- A read and a write of utils/uni_ringbuf.c that have what they need, for the ring's callers.
use lib_uart_comm_protocol_l.Prelude.{
  ℕ, ◌+◌, ◌≤◌, ◌<◌, ◌^◌, ◌≡◌, refl, ap, ◌∙◌, arith, true, false, some, List, [], ◌++◌, leb, ◌==◌,
  if◌then◌else◌, length, take, drop,
}
use mathlib.Core.Path.{subst}
use lib_uart_comm_protocol_l.Prelude.Int.{pos, negsuc}
use lib_uart_comm_protocol_l.RingBuf.{
  RingBuf, get_data_size, get_free_size, ring_buffer_read, ring_buffer_write, ring_buffer_create,
}
use lib_uart_comm_protocol_l.RingBuf.Inv.{get_data_size-contents, get_free_size-contents}
use lib_uart_comm_protocol_l.RingBuf.Refine.{
  Holds, Agrees, read, write, queue_step, ring_step, step-Agrees,
}

module _ (capacity : ℕ) (r : RingBuf) (xs : List ℕ) (h : Holds capacity r xs) where
  pub get_data_size-Holds : get_data_size r ≡ length xs
  get_data_size-Holds = get_data_size-contents r h.valid ∙ ap length h.same

  pub get_free_size-Holds : length xs + get_free_size r ≡ capacity
  get_free_size-Holds = omega (arith, get_free_size-contents r h.valid, ap length h.same, h.sized)

  pub ring_buffer_read-Holds :
      (n : ℕ)
      → n ≤ length xs
      → (r' : RingBuf) × (ring_buffer_read (pos n) r ≡ some (pos n, take n xs, r'))
        × Holds capacity r' (drop n xs)
  unfolding ring_step queue_step
  ring_buffer_read-Holds n le =
      let fits : leb n (length xs) ≡ true = ground arith in
      let step : Agrees capacity (ring_step (read n) r) (queue_step capacity (read n) xs) =
        subst (λ ys. Agrees capacity (ring_step (read n) r) (queue_step capacity (read n) ys))
          h.same (step-Agrees capacity r h.valid h.sized h.small (read n)) in
      subst
        (λ b.
          Agrees capacity (ring_step (read n) r)
            (if b then ((pos n, take n xs), drop n xs) else ((negsuc 0, []), xs)))
        fits step

  pub ring_buffer_write-Holds :
      (src : List ℕ)
      → length xs + length src ≤ capacity
      → (r' : RingBuf) × (ring_buffer_write src (pos (length src)) r
          ≡ some (pos (length src), [], r'))
        × Holds capacity r' (xs ++ src)
  unfolding ring_step queue_step
  ring_buffer_write-Holds src le =
      let fits : leb (length xs + length src) capacity ≡ true = ground arith in
      let step : Agrees capacity (ring_step (write src) r) (queue_step capacity (write src) xs) =
        subst (λ ys. Agrees capacity (ring_step (write src) r) (queue_step capacity (write src) ys))
          h.same (step-Agrees capacity r h.valid h.sized h.small (write src)) in
      subst
        (λ b.
          Agrees capacity (ring_step (write src) r)
            (if b then ((pos (length src), []), xs ++ src) else ((negsuc 0, []), xs)))
        fits step

pub ring_buffer_create-Holds :
    (block : ℕ → List ℕ) (capacity : ℕ)
    → ((n : ℕ) → length (block n) ≡ n)
    → 0 < capacity
    → capacity < 2 ^ 30
    → (r : RingBuf) × (ring_buffer_create block (pos capacity) ≡ some r) × Holds capacity r []
unfolding ring_buffer_create
ring_buffer_create-Holds block capacity sized h below =
    let some_size : (capacity == 0) ≡ false = ground arith in
    (
      record { size = capacity + 1; buf = block (capacity + 1); head = 0; tail = 0 },
      rw some_size refl,
      record {
        valid = record {
          block = sized (capacity + 1);
          head_in = omega arith;
          tail_in = omega arith;
        };
        sized = omega arith;
        small = below;
        same = refl;
      },
    )

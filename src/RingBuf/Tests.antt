-- ===== src/RingBuf/Tests.antt =====
-- Runs of utils/uni_ringbuf.c on a ring of three bytes, round the end of its block.
use lib_uart_comm_protocol_l.Prelude.{
  ℕ, ◌≡◌, arith, some, List, [], ◌∷◌, bind, replicate, length-replicate,
}
use lib_uart_comm_protocol_l.Prelude.Int.{pos, negsuc}
use lib_uart_comm_protocol_l.RingBuf.{ring_buffer_create}
use lib_uart_comm_protocol_l.RingBuf.Refine.{
  Call, peek, read, write, clear, queue_step, queue_run, ring_run, ring_run-queue_run,
}

abbrev zeroed : ℕ → List ℕ
zeroed n = replicate n 0

abbrev calls : List Call
calls =
    write (1 ∷ 2 ∷ [])
    ∷ read 1
    ∷ write (3 ∷ 4 ∷ [])
    ∷ write (5 ∷ [])
    ∷ peek 2
    ∷ read 3
    ∷ read 1
    ∷ clear
    ∷ []

ring_run-queue_run_example :
    bind (ring_buffer_create zeroed (pos 3)) (ring_run calls)
    ≡ some (
        (pos 2, [])
        ∷ (pos 1, 1 ∷ [])
        ∷ (pos 2, [])
        ∷ (negsuc 0, [])
        ∷ (pos 2, 2 ∷ 3 ∷ [])
        ∷ (pos 3, 2 ∷ 3 ∷ 4 ∷ [])
        ∷ (negsuc 0, [])
        ∷ (pos 0, [])
        ∷ [])
unfolding queue_run queue_step
ring_run-queue_run_example =
    ring_run-queue_run zeroed 3 calls (λ n. length-replicate {A = ℕ} n 0) (omega arith)
      (omega arith)

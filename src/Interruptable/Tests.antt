-- ===== src/Interruptable/Tests.antt =====
-- Runs of utils/uni_interruptable.c.
use lib_uart_comm_protocol_l.Prelude.{◌≡◌, refl, arith, List, [], ◌∷◌}
use lib_uart_comm_protocol_l.Prelude.Int.{pos, negsuc}
use lib_uart_comm_protocol_l.Interruptable.{Interruptable, arrived, Select}
use lib_uart_comm_protocol_l.Interruptable.Latch.{Call, sleep, break, run, latch, few, run-latch}

abbrev fresh : Interruptable
fresh = record { read_fd = 5; write_fd = 6; flag = 0; waiting = [] }

-- Nothing arrives during the sleep.
abbrev alone : Select
alone timeout = arrived []

-- Two breaks, and two sleeps of five seconds; a third one is for a negative time.
abbrev calls : List Call
calls =
    break ∷ break ∷ sleep alone (pos 5000) ∷ sleep alone (pos 5000) ∷ sleep alone (negsuc 0) ∷ []

run-latch_example : run 65536 calls fresh ≡ pos 0 ∷ pos 0 ∷ pos 1 ∷ pos 0 ∷ negsuc 0 ∷ []
unfolding latch few
run-latch_example = run-latch 65536 (omega arith) calls fresh refl

-- ===== src/Prelude/Int.antt =====
-- Signed integers over the native numbers, under the library's names, with the tests that the code
-- makes on an `int`.
use lib_uart_comm_protocol_l.Prelude.{ℕ, Bool, false, ◌==◌}

-- `negsuc n` is -(n + 1).
pub data ℤ : Type 0 where
  pos : ℕ → ℤ
  negsuc : ℕ → ℤ

-- An `int` against an unsigned value that fits an `int`.
abbrev pub eq_ℕ : ℤ → ℕ → Bool
eq_ℕ (pos n) m = n == m
eq_ℕ (negsuc n) m = false

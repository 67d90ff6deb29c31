-- ===== src/Protocol/State.antt =====
-- The state behind protocol/uni_communication.c: the global `g_comm_protocol_business`, the function
-- statics of the receive path, and what the code does to the outside, in order.
use mathlib.Core.Path.{◌≡◌}
use lib_uart_comm_protocol_l.Prelude.{ℕ, suc, Bool, Option, some, List, [], ◌∷◌, ◌++◌, length}
use lib_uart_comm_protocol_l.Prelude.Int.{ℤ}

-- One call out of the protocol: `on_write`, `on_recv_frame`, `InterruptableBreak`.
pub data Effect : Type 0 where
  uart_write : List ℕ → Effect
  recv_frame : ℕ → List ℕ → Effect
  interrupt_break : Effect

-- What the functions return: 0, the codes of `CommProtocolErrorCode`, and `RESENDING`.
pub data Status : Type 0 where
  success alloc_failed buffer_ptr_null payload_too_long payload_ack_timeout resending : Status

-- `on_write` and `on_recv_frame` say whether a handler is registered. `protocol_buffer` is `none`
-- for NULL, else the bytes of its heap block. The five fields from `index` on are the statics of
-- `_protocol_buffer_generate_byte_by_byte` and `_is_duplicate_frame`. `allocs` counts the calls of
-- the allocator, and `effects` lists the calls out, the oldest first.
pub record CommProtocol : Type 0 where
  pub on_write : Bool
  pub on_recv_frame : Bool
  pub acked : Bool
  pub sequence : ℕ
  pub current_acked_seq : ℕ
  pub protocol_buffer : Option (List ℕ)
  pub index : ℕ
  pub payload_left : ℕ
  pub length_crc16 : ℕ
  pub protocol_buffer_length : ℕ
  pub last_recv_packet_seq : ℤ
  pub allocs : ℕ
  pub effects : List Effect

-- The C library's allocator: what call number `t` gives for `n` bytes, `none` for NULL. A block has
-- the size asked for; its bytes are whatever they were.
pub record Malloc : Type 0 where
  pub block : ℕ → ℕ → Option (List ℕ)
  pub sized : (t n : ℕ) (b : List ℕ) → block t n ≡ some b → length b ≡ n

-- An allocator that never runs out.
abbrev pub NeverFails : Malloc → Type 0
NeverFails m = (t n : ℕ) → (b : List ℕ) × (m.block t n ≡ some b)

abbrev pub emit : Effect → CommProtocol → CommProtocol
emit e s = record s { effects = s.effects ++ (e ∷ []) }

abbrev pub count_alloc : CommProtocol → CommProtocol
count_alloc s = record s { allocs = suc s.allocs }

-- ===== src/Interruptable.antt =====
-- utils/uni_interruptable.c: a sleep that another thread ends early, by a byte in a pipe.
-- What the system's calls give is a parameter. The address of a handle's block is not modelled, nor is
-- what is printed.
pub mod Latch
pub mod Life
mod Tests
use lib_uart_comm_protocol_l.Prelude.{
  ℕ, zero, suc, ◌*◌, ◌/◌, ◌%◌, Bool, true, false, not, Option, none, some, List, [], ◌∷◌, ◌++◌,
  bit_and, bit_or, bit_xor, ltb, ◌==◌, if◌then◌else◌, length, drop,
}
use lib_uart_comm_protocol_l.Prelude.Int.{ℤ, pos, negsuc}

-- `Interruptable`, with the bytes that wait in its pipe.
pub record Interruptable : Type 0 where
  pub read_fd : ℕ
  pub write_fd : ℕ
  pub flag : ℕ
  pub waiting : List ℕ

-- How a `select` on the read end alone comes back: it fails, or it ends with these bytes written to the
-- pipe since it began.
pub data Wake : Type 0 where
  failed : Wake
  arrived : List ℕ → Wake

-- `select`, by its `tv_sec` and `tv_usec`
abbrev pub Select : Type 0
Select = ℕ × ℕ → Wake

-- The size of `t`
abbrev pub read_size : ℕ
read_size = 64

abbrev pub break_byte : ℕ
break_byte = 0x5A

-- The `struct timeval` of `_select`, for a timeout that is not negative
abbrev pub timeval : ℕ → ℕ × ℕ
timeval timeout_ms = (timeout_ms / 1000, timeout_ms % 1000 * 1000)

-- What `_interruptable_select` does once `select` has come back. The read end is readable where bytes wait in
-- the pipe, and a read of them does not fail.
unfoldable pub selected : Wake → Interruptable → Interruptable
selected failed i = record i { flag = 0 }
selected (arrived bytes) i =
    let all = i.waiting ++ bytes in
    if ltb 0 (length all)
    then record i { waiting = drop read_size all; flag = 1 }
    else record i { waiting = all; flag = 0 }

-- `_interruptable_select` for `InterruptableSleep`, which has no other descriptor and does not look at what it
-- returns.
unfoldable pub interruptable_select : Select → ℕ → Interruptable → Interruptable
unfolding selected
interruptable_select select timeout_ms i = selected (select (timeval timeout_ms)) i

-- `InterruptableSleep`
unfoldable pub interruptable_sleep : Select → ℤ → Interruptable → ℤ × Interruptable
unfolding interruptable_select
interruptable_sleep select (negsuc n) i = (negsuc 0, i)
interruptable_sleep select (pos sleep_msec) i =
    let i' = interruptable_select select sleep_msec i in (pos i'.flag, i')

-- `InterruptableBreak`, with how many bytes the pipe can hold: a write to a full one fails.
unfoldable pub interruptable_break : ℕ → Interruptable → ℤ × Interruptable
interruptable_break capacity i =
    if ltb (length i.waiting) capacity
    then (pos 0, record i { waiting = i.waiting ++ (break_byte ∷ []) })
    else (negsuc 0, i)

-- What is open and allocated.
pub record Resources : Type 0 where
  pub descriptors : List ℕ
  pub blocks : ℕ

-- The calls that `InterruptCreate` makes: whether there is memory, what `pipe` gives, and for each of the two
-- descriptors its flags, if it gives them, and whether it takes others.
pub record System : Type 0 where
  pub o_nonblock : ℕ
  pub has_memory : Bool
  pub pipe : Option (ℕ × ℕ)
  pub get_flags : ℕ → Option ℕ
  pub takes_flags : ℕ → ℕ → Bool

-- `_socket_set_block_mode`: true where it returns 0.
unfoldable pub socket_set_block_mode : System → ℕ → Bool → Bool
socket_set_block_mode sys sockfd block = elim (sys.get_flags sockfd) [
  | none ↦ false
  | some flags ↦ sys.takes_flags sockfd (
      if block
      then (if bit_and flags sys.o_nonblock == 0 then flags else bit_xor flags sys.o_nonblock)
      else bit_or flags sys.o_nonblock)
]

-- `_socket_set_nonblocking`
unfoldable pub socket_set_nonblocking : System → ℕ → Bool
unfolding socket_set_block_mode
socket_set_nonblocking sys sockfd = socket_set_block_mode sys sockfd false

-- `_async_pipe`: the two ends, or none for -1.
unfoldable pub async_pipe : System → Resources → Option (ℕ × ℕ) × Resources
unfolding socket_set_nonblocking
async_pipe sys os = elim sys.pipe [
  | none ↦ (none, os)
  | some (r, w) ↦
      let piped = record os { descriptors = r ∷ w ∷ os.descriptors } in
      if not (socket_set_nonblocking sys r)
      then (none, piped)
      else if not (socket_set_nonblocking sys w)
      then (none, piped)
      else (some (r, w), piped)
]

-- `free`, on how many blocks there are
unfoldable pub free : ℕ → ℕ
free zero = zero
free (suc n) = n

-- The end of `InterruptCreate`, by what `_async_pipe` gave.
unfoldable pub created : Option (ℕ × ℕ) × Resources → Option Interruptable × Resources
unfolding free
created (none, os) = (none, record os { blocks = free os.blocks })
created (some (r, w), os) =
    (some (record { read_fd = r; write_fd = w; flag = 0; waiting = [] }), os)

-- `InterruptCreate`, none for NULL
unfoldable pub interrupt_create : System → Resources → Option Interruptable × Resources
unfolding async_pipe created
interrupt_create sys os =
    if not sys.has_memory
    then (none, os)
    else created (async_pipe sys (record os { blocks = suc os.blocks }))

-- `close`
pub close : ℕ → List ℕ → List ℕ
close fd [] = []
close fd (d ∷ rest) = let others = close fd rest in if d == fd then rest else d ∷ others

-- `InterruptDestroy`
unfoldable pub interrupt_destroy : Interruptable → Resources → ℤ × Resources
unfolding close free
interrupt_destroy i os = (
  pos 0,
  record {
    descriptors = close i.write_fd (close i.read_fd os.descriptors);
    blocks = free os.blocks;
  },
)

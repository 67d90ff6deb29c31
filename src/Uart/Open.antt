-- ===== src/Uart/Open.antt =====
-- uart/uni_uart.c: how the device is opened, set up, written to and closed. What the system's calls give, and
-- the flags of its termios.h, are parameters.
use lib_uart_comm_protocol_l.Prelude.{
  ℕ, suc, ◌-◌, ◌^◌, ◌≡◌, inl, inr, refl, Bool, true, false, not, Option, none, some, List, ◌∷◌,
  bit_and, bit_or, bit_xor, ◌==◌, if◌then◌else◌, take, Bool-cases,
}
use lib_uart_comm_protocol_l.Prelude.Int.{ℤ, pos, negsuc}
use lib_uart_comm_protocol_l.RingBuf.{RingBuf, ring_buffer_create}
use lib_uart_comm_protocol_l.Uart.{ring_size}

-- `UartConfig`
pub record UartConfig : Type 0 where
  pub device : List ℕ
  pub speed : ℕ

-- What the file sets of a `struct termios`.
pub record Termios : Type 0 where
  pub c_iflag : ℕ
  pub c_cflag : ℕ
  pub c_ispeed : ℕ
  pub c_ospeed : ℕ
  pub vtime : ℕ
  pub vmin : ℕ

-- The system's flags, and what its calls give: `open` a descriptor, or none for -1, `tcgetattr` the device's settings
-- unless its call number `k` fails, and `tcsetattr` a change of them unless it refuses. `unset` is what an
-- uninitialized `struct termios` holds.
pub record System : Type 0 where
  pub csize : ℕ
  pub cs8 : ℕ
  pub inpck : ℕ
  pub cstopb : ℕ
  pub cfmakeraw : Termios → Termios
  pub open_device : List ℕ → Option ℕ
  pub gives : ℕ → Bool
  pub accepts : Termios → Bool
  pub unset : Termios

-- The file's variables, with the device's settings, the descriptors that `close` was called for, and how
-- often the two threads have been started.
pub record Uart : Type 0 where
  pub uart_fd : ℤ
  pub is_running : Bool
  pub ringbuf : Option RingBuf
  pub settings : Termios
  pub closed : List ℤ
  pub started : ℕ

-- `~` on 32 bits
pub complement : ℕ → ℕ
complement bits = bit_xor bits (2 ^ 32 - 1)

-- `_set_speed`: true where it returns 0.
unfoldable pub set_speed : System → ℕ → Uart → Bool × Uart
set_speed sys speed u =
    let options = record (if sys.gives 0 then u.settings else sys.unset) {
      c_ispeed = speed;
      c_ospeed = speed;
    } in
    if sys.accepts options then (true, record u { settings = options }) else (false, u)

-- `_set_option`
unfoldable pub set_option : System → Termios → Termios
unfolding complement
set_option sys options =
    let raw = sys.cfmakeraw options in
    record raw {
      c_cflag =
          bit_and (bit_or (bit_and raw.c_cflag (complement sys.csize)) sys.cs8)
            (complement sys.cstopb);
      c_iflag = bit_or raw.c_iflag sys.inpck;
      vtime = 0;
      vmin = 0;
    }

-- `_set_parity`: true where it returns 0.
unfoldable pub set_parity : System → Uart → Bool × Uart
unfolding set_option
set_parity sys u =
    if not (sys.gives 1)
    then (false, u)
    else let options = set_option sys u.settings in
      if sys.accepts options then (true, record u { settings = options }) else (false, u)

-- `_free_all`, which `_recv_task` calls when its loop has ended.
unfoldable pub free_all : Uart → Uart
free_all u = elim u.uart_fd [
  | pos n ↦ if n == 0 then u else record u { uart_fd = pos 0; closed = pos n ∷ u.closed }
  | negsuc n ↦ record u { uart_fd = pos 0; closed = negsuc n ∷ u.closed }
]

-- `_create_worker_thread`
unfoldable pub create_worker_thread : Uart → Uart
create_worker_thread u = record u { started = suc u.started }

-- The end of `UartInitialize`, when the device is set up; `block n` is what the allocator gives.
unfoldable pub start_running : (ℕ → List ℕ) → Uart → ℤ × Uart
unfolding create_worker_thread
start_running block u = (
  pos 0,
  create_worker_thread
      (record u { ringbuf = ring_buffer_create block (pos ring_size); is_running = true }),
)

unfoldable pub set_up : System → (ℕ → List ℕ) → ℕ → Uart → ℤ × Uart
unfolding set_speed set_parity start_running
set_up sys block speed u =
    let (fast, u1) = set_speed sys speed u in
    if not fast
    then (negsuc 0, u1)
    else let (plain, u2) = set_parity sys u1 in
      if not plain then (negsuc 0, u2) else start_running block u2

-- `UartInitialize`
unfoldable pub uart_initialize : System → (ℕ → List ℕ) → UartConfig → Uart → ℤ × Uart
unfolding set_up
uart_initialize sys block config u = elim (sys.open_device config.device) [
  | some n ↦ set_up sys block config.speed (record u { uart_fd = pos n })
  | none ↦ (negsuc 0, record u { uart_fd = negsuc 0 })
]

-- `UartFinalize`
unfoldable pub uart_finalize : Uart → ℤ × Uart
uart_finalize u = (pos 0, record u { is_running = false })

-- `UartWrite`, with the system's `write`
unfoldable pub uart_write : (ℤ → List ℕ → ℤ) → List ℕ → ℕ → Uart → ℤ
uart_write write buf len u = write u.uart_fd (take len buf)

-- The two outcomes of `UartInitialize`.
pub data Started (speed : ℕ) (block : ℕ → List ℕ) (u : Uart) : ℤ × Uart → Type 0 where
  works :
      (u' : Uart)
      → u'.is_running ≡ true
      → u'.ringbuf ≡ ring_buffer_create block (pos ring_size)
      → u'.started ≡ suc u.started
      → (u'.settings.c_ispeed ≡ speed) × (u'.settings.c_ospeed ≡ speed)
      → (u'.settings.vtime ≡ 0) × (u'.settings.vmin ≡ 0)
      → Started speed block u (pos 0, u')
  fails :
      (u' : Uart)
      → u'.is_running ≡ u.is_running
      → u'.ringbuf ≡ u.ringbuf
      → u'.started ≡ u.started
      → u'.closed ≡ u.closed
      → Started speed block u (negsuc 0, u')

module _ (sys : System) (block : ℕ → List ℕ) (speed : ℕ)
    (keeps : (t : Termios)
      → ((sys.cfmakeraw t).c_ispeed ≡ t.c_ispeed) × ((sys.cfmakeraw t).c_ospeed ≡ t.c_ospeed)) where
  set_up-Started :
      (fd : ℤ) (u : Uart)
      → Started speed block u (set_up sys block speed (record u { uart_fd = fd }))
  unfolding set_up set_speed set_parity start_running create_worker_thread set_option
  set_up-Started fd u =
      let options = record (if sys.gives 0 then u.settings else sys.unset) {
        c_ispeed = speed;
        c_ospeed = speed;
      } in
      elim (Bool-cases (sys.accepts options)) [
        | inl fast ↦ elim (Bool-cases (sys.gives 1)) [
          | inl given ↦ elim (Bool-cases (sys.accepts (set_option sys options))) [
            | inl plain ↦
                rw (fast, given, plain) (works _ refl refl refl (keeps options) (refl, refl))
            | inr wrong ↦ rw (fast, given, wrong) (fails _ refl refl refl refl)
          ]
          | inr kept ↦ rw (fast, kept) (fails _ refl refl refl refl)
        ]
        | inr slow ↦ rw slow (fails _ refl refl refl refl)
      ]

-- UartInitialize either returns 0 with the threads started once, the running flag set, the ring created empty for
-- 8192 bytes, and the device at the speed asked for with reads that do not wait, or returns -1 with the flag,
-- the ring and the threads as they were and nothing closed; cfmakeraw keeps the speeds.
pub uart_initialize-Started :
    (sys : System) (block : ℕ → List ℕ) (config : UartConfig) (u : Uart)
    → ((t : Termios)
        → ((sys.cfmakeraw t).c_ispeed ≡ t.c_ispeed) × ((sys.cfmakeraw t).c_ospeed ≡ t.c_ospeed))
    → Started config.speed block u (uart_initialize sys block config u)
unfolding uart_initialize
uart_initialize-Started sys block config u keeps = opened (sys.open_device config.device)
  where
    opened :
        (fd : Option ℕ)
        → Started config.speed block u (elim fd [
          | some n ↦ set_up sys block config.speed (record u { uart_fd = pos n })
          | none ↦ (negsuc 0, record u { uart_fd = negsuc 0 })
        ])
    opened none = fails _ refl refl refl refl
    opened (some n) = set_up-Started sys block config.speed keeps (pos n) u

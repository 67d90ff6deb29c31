-- ===== src/Protocol/Buffer.antt =====
-- The protocol buffer of protocol/uni_communication.c: the sizes that it takes, the invariant of the
-- parser's state, and the steps that store a byte.
use lib_uart_comm_protocol_l.Prelude.{
  ℕ, suc, ◌+◌, ◌*◌, ◌%◌, ◌^◌, ◌≤◌, ◌<◌, ◌≡◌, ◌⊎◌, arith, true, false, Option, none, some, List, [],
  ◌++◌, length, set, take, drop, length-append, length-drop, take_ge, take_append, take_of_length,
  sym, ◌∙◌, inl, inr, Option-cases, lt→ltb, leb,
}
use native.Mathlib.Decide.{dec_lt}
use lib_uart_comm_protocol_l.Protocol.State.{CommProtocol, Malloc, NeverFails}
use lib_uart_comm_protocol_l.Protocol.Receive.{
  buffer_write, enlarge_protocol_buffer, protocol_buffer_alloc,
}

-- The sizes that doubling and 16 more lead to from 16: the last is too large and is never grown.
abbrev pub IsCapacity : ℕ → Type 0
IsCapacity n =
    (n ≡ 16)
    ⊎ (n ≡ 48)
    ⊎ (n ≡ 112)
    ⊎ (n ≡ 240)
    ⊎ (n ≡ 496)
    ⊎ (n ≡ 1008)
    ⊎ (n ≡ 2032)
    ⊎ (n ≡ 4080)
    ⊎ (n ≡ 8176)
    ⊎ (n ≡ 16368)

IsCapacity-grow : (n : ℕ) → IsCapacity n → n < 8192 → IsCapacity ((n * 2 + 16) % 2 ^ 16)
IsCapacity-grow n c h = ground arith

-- A null buffer is met only before the first byte of a frame.
abbrev pub Fits : Option (List ℕ) → ℕ → ℕ → Type 0
Fits none index size = index ≡ 0
Fits (some b) index size = length b ≡ size

-- The state between two bytes.
pub record IsValid (s : CommProtocol) : Type 0 where
  pub capacity : IsCapacity s.protocol_buffer_length
  pub index_in : s.index ≤ s.protocol_buffer_length
  pub buffer : Fits s.protocol_buffer s.index s.protocol_buffer_length
  pub left_lt : s.payload_left < 2 ^ 16
  pub crc_lt : s.length_crc16 < 2 ^ 16

-- The bytes of the current frame that are in the buffer.
abbrev pub stored : Option (List ℕ) → ℕ → List ℕ
stored none index = []
stored (some b) index = take index b

-- What `_protocol_buffer_alloc` does to a valid state of legal size: a buffer with room for a byte is
-- there, it holds the bytes stored so far, and nothing else is changed.
pub record Allocated (m : Malloc) (s : CommProtocol) : Type 0 where
  pub block : List ℕ
  pub size : ℕ
  pub calls : ℕ
  pub result :
      protocol_buffer_alloc m s
      ≡ record s { protocol_buffer = some block; protocol_buffer_length = size; allocs = calls }
  pub block_size : length block ≡ size
  pub room : s.index < size
  pub capacity : IsCapacity size
  pub kept : take s.index block ≡ stored s.protocol_buffer s.index
  pub bounded : s.protocol_buffer_length ≤ 8176 → s.index < 8176 → size ≤ 8176

IsCapacity-pos : (n : ℕ) → IsCapacity n → 16 ≤ n
IsCapacity-pos n c = omega arith

IsCapacity-below : (n : ℕ) → IsCapacity n → n < 8176 → n ≤ 4080
IsCapacity-below n c h = omega arith

module _ (m : Malloc) (available : NeverFails m) (s : CommProtocol) (v : IsValid s) where
  open s use {protocol_buffer as buffer, protocol_buffer_length as size, index}

  alloc_fresh : buffer ≡ none → Allocated m s
  unfolding protocol_buffer_alloc
  alloc_fresh e =
      let (b, eb) = available s.allocs size in
      let at_start : index ≡ 0 = rw e at v.buffer in
      record {
        block = b;
        size = size;
        calls = suc s.allocs;
        result = rw (e, eb);
        block_size = m.sized _ _ b eb;
        room = omega (arith, IsCapacity-pos size v.capacity);
        capacity = v.capacity;
        kept = rw (at_start, e);
        bounded = λ h i. h;
      }

  alloc_kept : (b : List ℕ) → buffer ≡ some b → index < size → Allocated m s
  unfolding protocol_buffer_alloc
  alloc_kept b e h =
      let fits : length b ≡ size = rw e at v.buffer in
      let inside : leb size index ≡ false = ground arith in
      record {
        block = b;
        size = size;
        calls = s.allocs;
        result = rw (e, inside);
        block_size = fits;
        room = h;
        capacity = v.capacity;
        kept = rw e;
        bounded = λ p i. p;
      }

  alloc_grown : (b : List ℕ) → buffer ≡ some b → size ≤ index → size < 8192 → Allocated m s
  unfolding protocol_buffer_alloc enlarge_protocol_buffer
  alloc_grown b e full small =
      let fits : length b ≡ size = rw e at v.buffer in
      let new = (size * 2 + 16) % 2 ^ 16 in
      let (fresh, ef) = available s.allocs new in
      let full_test : leb size index ≡ true = ground arith in
      let whole : take new b ≡ b = take_ge new b (omega arith) in
      let at_end : index ≡ size = omega (arith, v.index_in) in
      record {
        block = b ++ drop (length b) fresh;
        size = new;
        calls = suc s.allocs;
        result = rw (e, full_test, ef, whole);
        block_size = omega (
          arith,
          length-append b (drop (length b) fresh),
          length-drop (length b) fresh,
          m.sized _ _ fresh ef,
        );
        room = omega arith;
        capacity = IsCapacity-grow size v.capacity small;
        kept =
            rw (e, at_end)
              (take_append size b (drop (length b) fresh) (sym fits)
                ∙ sym (take_of_length size b (sym fits)));
        bounded = λ p i. omega (arith, IsCapacity-below size v.capacity);
      }

  pub protocol_buffer_alloc_lem : size < 8192 → Allocated m s
  protocol_buffer_alloc_lem small = elim (Option-cases buffer) [
    | inl e ↦ alloc_fresh e
    | inr found ↦ elim (dec_lt index size) [
      | yes inside ↦ alloc_kept found.0 found.1 inside
      | no full ↦ alloc_grown found.0 found.1 (omega arith) small
    ]
  ]

pub buffer_write_lem :
    (c : ℕ) (s : CommProtocol) (b : List ℕ)
    → s.protocol_buffer ≡ some b
    → s.index < length b
    → s.index < 2 ^ 16
    → buffer_write c s
      ≡ some (record s { protocol_buffer = some (set b s.index c); index = s.index + 1 })
unfolding buffer_write
buffer_write_lem c s b e inside small =
    let next : (s.index + 1) % 2 ^ 32 ≡ s.index + 1 = omega arith in
    rw (e, lt→ltb s.index (length b) inside, next)

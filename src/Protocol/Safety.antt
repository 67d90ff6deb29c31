-- ===== src/Protocol/Safety.antt =====
-- The receive path never leaves the protocol buffer: no byte makes it fault, and each keeps the
-- invariant of the parser's state.
use mathlib.Core.Option
use lib_uart_comm_protocol_l.Prelude.{
  ℕ, ◌+◌, ◌*◌, ◌%◌, ◌^◌, ◌≤◌, ◌<◌, ◌≡◌, refl, arith, true, false, Option, none, some, List, length,
  set, length-set, inl, inr, Bool-cases, get_or, leb, ltb, ◌==◌, ◌&&◌, ◌-◌, ◌∙◌,
}
use native.Mathlib.Decide.{dec_lt}
use lib_uart_comm_protocol_l.Protocol.State.{CommProtocol, Malloc, NeverFails}
use lib_uart_comm_protocol_l.Protocol.Packet.{sequence_at}
use lib_uart_comm_protocol_l.Protocol.Send.{is_protocol_buffer_overflow}
use lib_uart_comm_protocol_l.Protocol.Receive.{
  reset_protocol_buffer_status, try_garbage_collection, is_payload_len_crc16_valid, buffer_write,
  one_protocol_frame_process, end_of_byte, store_byte, check_payload_len, accept_byte, drop_byte,
  generate_byte_by_byte,
}
use lib_uart_comm_protocol_l.Protocol.Reply.{answered, send_nack_frame_lem}
use lib_uart_comm_protocol_l.Protocol.Buffer.{
  IsCapacity, IsValid, Fits, protocol_buffer_alloc_lem, buffer_write_lem,
}
use lib_uart_comm_protocol_l.Protocol.Process.{
  Ensures, Ensures-map, HasLength, Kept, Ensures-process,
}

-- The state in which a byte can be stored: a buffer is there, and `index` is inside it.
record HasRoom (b : List ℕ) (s : CommProtocol) : Type 0 where
  here : s.protocol_buffer ≡ some b
  size : length b ≡ s.protocol_buffer_length
  room : s.index < s.protocol_buffer_length
  capacity : IsCapacity s.protocol_buffer_length
  left_lt : s.payload_left < 2 ^ 16
  crc_lt : s.length_crc16 < 2 ^ 16

-- The state after a byte is stored.
record HasBuffer (b : List ℕ) (s : CommProtocol) : Type 0 where
  here : s.protocol_buffer ≡ some b
  size : length b ≡ s.protocol_buffer_length
  index_in : s.index ≤ s.protocol_buffer_length
  capacity : IsCapacity s.protocol_buffer_length
  left_lt : s.payload_left < 2 ^ 16
  crc_lt : s.length_crc16 < 2 ^ 16

IsValid-HasBuffer : (b : List ℕ) (s : CommProtocol) → HasBuffer b s → IsValid s
IsValid-HasBuffer b s h = record {
  capacity = h.capacity;
  index_in = h.index_in;
  buffer = rw h.here h.size;
  left_lt = h.left_lt;
  crc_lt = h.crc_lt;
}

Fits-HasLength : (n i : ℕ) (o : Option (List ℕ)) → HasLength n o → Fits o i n
Fits-HasLength n i none h = absurd h
Fits-HasLength n i (some b) h = h

-- Starting over, with or without the buffer, is valid.
reset_kept :
    (n : ℕ) (s : CommProtocol)
    → IsCapacity n
    → Kept n n s
    → IsValid (reset_protocol_buffer_status s)
unfolding reset_protocol_buffer_status
reset_kept n s c k = ground (arith, Fits-HasLength n 0 s.protocol_buffer k.block)

collect_valid : (s : CommProtocol) → IsValid s → s.index ≡ 0 → IsValid (try_garbage_collection s)
unfolding try_garbage_collection
collect_valid s v e = ground arith

abbrev pub restart : CommProtocol → CommProtocol
restart s = try_garbage_collection (reset_protocol_buffer_status s)

pub restart_valid : (n : ℕ) (s : CommProtocol) → IsCapacity n → Kept n n s → IsValid (restart s)
unfolding reset_protocol_buffer_status
restart_valid n s c k = collect_valid _ (reset_kept n s c k) refl

answered_valid : (seq control : ℕ) (s : CommProtocol) → IsValid s → IsValid (answered seq control s)
answered_valid seq control s v = elim (Bool-cases s.on_write) [
  | inl e ↦ rw e (record {
    capacity = v.capacity;
    index_in = v.index_in;
    buffer = v.buffer;
    left_lt = v.left_lt;
    crc_lt = v.crc_lt;
  })
  | inr e ↦ rw e (record {
    capacity = v.capacity;
    index_in = v.index_in;
    buffer = v.buffer;
    left_lt = v.left_lt;
    crc_lt = v.crc_lt;
  })
]

module _ (m : Malloc) (available : NeverFails m) where
  -- The end of a byte's processing: a whole frame is handled, and the parser starts over.
  Ensures-end_of_byte :
      (b : List ℕ) (s : CommProtocol) → HasBuffer b s → Ensures IsValid (end_of_byte m s)
  unfolding end_of_byte
  Ensures-end_of_byte b s h =
      let n = s.protocol_buffer_length in
      let kept : Kept n n s = record { block = rw h.here h.size; same_size = refl } in
      let over : Ensures IsValid (Option.map restart (one_protocol_frame_process m b s)) =
        Ensures-map (Kept n n) IsValid restart (one_protocol_frame_process m b s)
          (λ s' k. restart_valid n s' h.capacity k)
          (Ensures-process m available n n b s h.size kept) in
      elim (Bool-cases (leb 16 s.index && s.payload_left == 0)) [
        | inl whole ↦ rw (whole, h.here) over
        | inr more ↦ rw more (IsValid-HasBuffer b s h)
      ]

  -- A byte is stored where there is room.
  Ensures-store_byte :
      (c : ℕ) (b : List ℕ) (s : CommProtocol) → HasRoom b s → Ensures IsValid (store_byte m c s)
  unfolding store_byte
  Ensures-store_byte c b s h =
      let small : s.index < 2 ^ 16 = omega arith in
      let wrote = buffer_write_lem c s b h.here (omega (arith, h.size)) small in
      let s' = record s { protocol_buffer = some (set b s.index c); index = s.index + 1 } in
      let after : HasBuffer (set b s.index c) s' = record {
        here = refl;
        size = length-set b s.index c ∙ h.size;
        index_in = omega arith;
        capacity = h.capacity;
        left_lt = h.left_lt;
        crc_lt = h.crc_lt;
      } in
      let counted : HasBuffer (set b s.index c) (record s' { payload_left = s.payload_left - 1 }) =
        record {
          here = refl;
          size = after.size;
          index_in = after.index_in;
          capacity = h.capacity;
          left_lt = omega arith;
          crc_lt = h.crc_lt;
        } in
      let idle : HasBuffer b s = record {
        here = h.here;
        size = h.size;
        index_in = omega arith;
        capacity = h.capacity;
        left_lt = h.left_lt;
        crc_lt = h.crc_lt;
      } in
      elim (Bool-cases (ltb s.index 16)) [
        | inl header ↦ rw (header, wrote) (Ensures-end_of_byte (set b s.index c) s' after)
        | inr beyond ↦ elim (Bool-cases (leb 16 s.index && ltb 0 s.payload_left)) [
          | inl payload ↦
              rw (beyond, payload, wrote) (Ensures-end_of_byte (set b s.index c) _ counted)
          | inr done ↦ rw (beyond, done) (Ensures-end_of_byte b s idle)
        ]
      ]

  Ensures-check_payload_len :
      (c : ℕ) (b : List ℕ) (s : CommProtocol)
      → c < 256
      → HasRoom b s
      → Ensures IsValid (check_payload_len m c s)
  unfolding check_payload_len
  Ensures-check_payload_len c b s hc h =
      let s' = record s { length_crc16 = (s.length_crc16 + c) % 2 ^ 16 } in
      let reset = reset_protocol_buffer_status s' in
      let seq = get_or b sequence_at 0 in
      let n = s.protocol_buffer_length in
      let kept : Kept n n s' = record { block = rw h.here h.size; same_size = refl } in
      let room : HasRoom b s' = record {
        here = h.here;
        size = h.size;
        room = h.room;
        capacity = h.capacity;
        left_lt = h.left_lt;
        crc_lt = omega arith;
      } in
      elim (Bool-cases (is_payload_len_crc16_valid s'.payload_left s'.length_crc16)) [
        | inl good ↦ rw good (Ensures-store_byte c b s' room)
        | inr bad ↦
            rw (bad, h.here, send_nack_frame_lem m available seq reset)
              (answered_valid seq 4 reset (reset_kept n s' h.capacity kept))
      ]

  sync_byte :
      (c : ℕ) (b : List ℕ) (s : CommProtocol) → HasRoom b s → Ensures IsValid (buffer_write c s)
  sync_byte c b s h =
      rw (buffer_write_lem c s b h.here (omega (arith, h.size)) (omega arith)) (record {
        capacity = h.capacity;
        index_in = omega arith;
        buffer = length-set b s.index c ∙ h.size;
        left_lt = h.left_lt;
        crc_lt = h.crc_lt;
      })

  -- The length and its CRC change, and then the byte is stored.
  counted_byte :
      (c left crc : ℕ) (b : List ℕ) (s : CommProtocol)
      → left < 2 ^ 16
      → crc < 2 ^ 16
      → HasRoom b s
      → Ensures IsValid (store_byte m c (record s { payload_left = left; length_crc16 = crc }))
  counted_byte c left crc b s hl hc h =
      Ensures-store_byte c b (record s { payload_left = left; length_crc16 = crc })
        (record {
          here = h.here;
          size = h.size;
          room = h.room;
          capacity = h.capacity;
          left_lt = hl;
          crc_lt = hc;
        })

  Ensures-accept_byte :
      (c : ℕ) (b : List ℕ) (s : CommProtocol)
      → c < 256
      → HasRoom b s
      → Ensures IsValid (accept_byte m c s)
  unfolding accept_byte
  Ensures-accept_byte c b s hc h =
      let n = s.protocol_buffer_length in
      let kept : Kept n n s = record { block = rw h.here h.size; same_size = refl } in
      ground (
        arith,
        sync_byte c b s h,
        reset_kept n s h.capacity kept,
        counted_byte c (c * 2 ^ 8) s.length_crc16 b s (omega arith) h.crc_lt h,
        counted_byte c ((s.payload_left + c) % 2 ^ 16) s.length_crc16 b s (omega arith) h.crc_lt h,
        counted_byte c s.payload_left (c * 2 ^ 8) b s h.left_lt (omega arith) h,
        Ensures-check_payload_len c b s hc h,
        Ensures-store_byte c b s h,
      )

drop_valid : (s : CommProtocol) → IsValid s → IsValid (drop_byte s)
unfolding drop_byte reset_protocol_buffer_status try_garbage_collection
drop_valid s v = ground arith

module _ (m : Malloc) (available : NeverFails m) where
  -- One byte: no access leaves the protocol buffer, and the state stays valid.
  pub generate_byte-IsValid :
      (c : ℕ) (s : CommProtocol)
      → c < 256
      → IsValid s
      → Ensures IsValid (generate_byte_by_byte m c s)
  unfolding generate_byte_by_byte is_protocol_buffer_overflow
  generate_byte-IsValid c s hc v = elim (dec_lt s.protocol_buffer_length 8192) [
    | no large ↦
        let over : leb 8192 (s.protocol_buffer_length % 2 ^ 16) ≡ true = ground arith in
        rw over (drop_valid s v)
    | yes small ↦
        let below : leb 8192 (s.protocol_buffer_length % 2 ^ 16) ≡ false = ground arith in
        let a = protocol_buffer_alloc_lem m available s v small in
        rw (below, a.result)
          (Ensures-accept_byte m available c a.block _ hc (record {
            here = refl;
            size = a.block_size;
            room = a.room;
            capacity = a.capacity;
            left_lt = v.left_lt;
            crc_lt = v.crc_lt;
          }))
  ]

-- ===== src/RingBuf.antt =====
-- utils/uni_ringbuf.c: a ring of bytes, of which one always stays free.
-- The fields of a ring are never negative, so they are natural numbers. `none` is a fault: an access
-- outside the ring's block or outside the caller's buffer, or a sum that overflows an `int` of 32 bits.
pub mod Inv
pub mod Read
pub mod Write
pub mod Refine
pub mod Calls
mod Tests
use lib_uart_comm_protocol_l.Prelude.{
  ℕ, ◌+◌, ◌-◌, ◌%◌, bit_and, bit_or, Bool, not, ◌&&◌, Option, none, some, List, [], ◌++◌, ltb, leb,
  ◌==◌, if◌then◌else◌, length, take, drop, memcpy, bind,
}
use lib_uart_comm_protocol_l.Prelude.Int.{ℤ, pos, negsuc}

-- `RingBuf`, with `size` one more than the bytes that the ring can hold.
pub record RingBuf : Type 0 where
  pub size : ℕ
  pub buf : List ℕ
  pub head : ℕ
  pub tail : ℕ

-- `RINGBBUF_FILL_BYTE_SIZE`
abbrev pub fill_byte_size : ℕ
fill_byte_size = 1

-- The largest `int`
abbrev pub int_max : ℕ
int_max = 2147483647

-- The bits of `RingBufferAttr`.
abbrev pub attr_read : ℕ
attr_read = 1

abbrev pub attr_sync : ℕ
attr_sync = 2

abbrev pub attr_write : ℕ
attr_write = 4

-- `_read_attr_setted`, `_write_attr_setted` and `_sync_attr_setted`
pub is_attr_setted : ℕ → ℕ → Bool
is_attr_setted bit attr = not (bit_and attr bit == 0)

-- `_get_data_size`, where head + size is no more than `int_max`
pub get_data_size : RingBuf → ℕ
get_data_size r = (r.head + r.size - r.tail) % r.size

-- `_get_free_size`
pub get_free_size : RingBuf → ℕ
unfolding get_data_size
get_free_size r = r.size - get_data_size r - fill_byte_size

-- `memcpy` out of the block, from `at` on.
pub copy_out : List ℕ → ℕ → ℕ → Option (List ℕ)
copy_out buf at n = if leb (at + n) (length buf) then some (take n (drop at buf)) else none

-- `memcpy` of the first `n` bytes of `src` into the block, from `at` on.
pub copy_in : List ℕ → ℕ → List ℕ → ℕ → Option (List ℕ)
copy_in buf at src n =
    if leb (at + n) (length buf) && leb n (length src) then some (memcpy buf at src n) else none

-- The bytes that `_read_internal` copies, up to the position after them.
pub read_bytes : RingBuf → ℕ → ℕ → Option (List ℕ)
unfolding copy_out
read_bytes r n end =
    if leb r.tail end
    then copy_out r.buf r.tail n
    else bind (copy_out r.buf r.tail (r.size - r.tail))
        λ first. bind (copy_out r.buf 0 (n - (r.size - r.tail))) λ second. some (first ++ second)

-- The block after the copies of `_write_internal`.
pub write_bytes : RingBuf → List ℕ → ℕ → ℕ → Option (List ℕ)
unfolding copy_in
write_bytes r src n end =
    if leb r.head end
    then copy_in r.buf r.head src n
    else bind (copy_in r.buf r.head src (r.size - r.head))
        λ first. copy_in first 0 (drop (r.size - r.head) src) (n - (r.size - r.head))

-- What an operation gives: its `int`, the bytes that it stores at `dst`, and the ring.
abbrev pub Result : Type 0
Result = Option (ℤ × List ℕ × RingBuf)

-- `_read_internal`
pub read_internal : ℕ → RingBuf → ℕ → Result
unfolding read_bytes is_attr_setted
read_internal n r attr =
    let end = (r.tail + n) % r.size in
    if ltb int_max (r.tail + n)
    then none
    else bind (if is_attr_setted attr_read attr then read_bytes r n end else some []) λ bytes.
      some (pos n, bytes, (if is_attr_setted attr_sync attr then record r { tail = end } else r))

-- `_write_internal`
pub write_internal : List ℕ → ℕ → RingBuf → ℕ → Result
unfolding write_bytes is_attr_setted
write_internal src n r attr =
    let end = (r.head + n) % r.size in
    if ltb int_max (r.head + n)
    then none
    else bind (if is_attr_setted attr_write attr then write_bytes r src n end else some r.buf)
        λ buf.
          let written = record r { buf = buf } in
          some (
            pos n,
            [],
            (if is_attr_setted attr_sync attr then record written { head = end } else written),
          )

-- `_ring_buffer_read` and `_ring_buffer_write`. A negative length passes their test, and `memcpy` takes it for
-- a huge one: all callers ask for the copy.
pub read_with : ℤ → RingBuf → ℕ → Result
unfolding get_data_size read_internal
read_with (pos n) r attr =
    if ltb int_max (r.head + r.size)
    then none
    else if ltb (get_data_size r) n
    then some (negsuc 0, [], r)
    else read_internal n r attr
read_with (negsuc n) r attr = none

pub write_with : List ℕ → ℤ → RingBuf → ℕ → Result
unfolding get_free_size write_internal
write_with src (pos n) r attr =
    if ltb int_max (r.head + r.size)
    then none
    else if ltb (get_free_size r) n
    then some (negsuc 0, [], r)
    else write_internal src n r attr
write_with src (negsuc n) r attr = none

-- `RingBufferPeek`, `RingBufferRead` and `RingBufferWrite`
pub ring_buffer_peek : ℤ → RingBuf → Result
unfolding read_with
ring_buffer_peek n r = read_with n r attr_read

pub ring_buffer_read : ℤ → RingBuf → Result
unfolding read_with
ring_buffer_read n r = read_with n r (bit_or attr_read attr_sync)

pub ring_buffer_write : List ℕ → ℤ → RingBuf → Result
unfolding write_with
ring_buffer_write src n r = write_with src n r (bit_or attr_write attr_sync)

-- `RingBufferClear`
pub ring_buffer_clear : RingBuf → RingBuf
ring_buffer_clear r = record r { head = 0; tail = 0 }

-- `RingBufferCreate` with `_create_ring_buf` and `_init_ring_buf`; `block n` is what the allocator
-- gives for `n` bytes, and `none` is the null handle. The size is below `int_max`.
pub ring_buffer_create : (ℕ → List ℕ) → ℤ → Option RingBuf
ring_buffer_create block (negsuc size) = none
ring_buffer_create block (pos size) =
    if size == 0
    then none
    else some (record {
      size = size + fill_byte_size;
      buf = block (size + fill_byte_size);
      head = 0;
      tail = 0;
    })

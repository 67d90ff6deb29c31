-- ===== src/RingBuf/Inv.antt =====
-- The invariant of a ring of utils/uni_ringbuf.c, and the bytes that a ring holds.
use lib_uart_comm_protocol_l.Prelude.{
  ℕ, ◌+◌, ◌-◌, ◌%◌, ◌≤◌, ◌<◌, ◌≡◌, ap, ◌∙◌, arith, true, false, List, ◌++◌, leb, if◌then◌else◌,
  length, take, drop, length-append, length-take, length-drop,
}
use native.Mathlib.Nat.{mod-eq_of_lt, add-mod_right}
use native.Mathlib.Decide.{dec_le}
use lib_uart_comm_protocol_l.RingBuf.{RingBuf, get_data_size, get_free_size}

pub record IsRing (r : RingBuf) : Type 0 where
  pub block : length r.buf ≡ r.size
  pub head_in : r.head < r.size
  pub tail_in : r.tail < r.size

-- The bytes from the tail to the head, round the end of the block if the head is before the tail.
abbrev pub contents : RingBuf → List ℕ
contents r =
    if leb r.tail r.head
    then take (r.head - r.tail) (drop r.tail r.buf)
    else drop r.tail r.buf ++ take r.head r.buf

-- A sum of two positions, less than twice the size.
pub mod_below : (n size : ℕ) → n < size → n % size ≡ n
mod_below n size h = mod-eq_of_lt h

pub mod_above : (n size : ℕ) → size ≤ n → n < size + size → n % size ≡ n - size
mod_above n size h below =
    let split : n ≡ n - size + size = omega arith in
    ap (λ k. k % size) split
    ∙ add-mod_right (n - size) size
    ∙ mod_below (n - size) size (omega arith)

le→leb : (a b : ℕ) → a ≤ b → leb a b ≡ true
le→leb a b h = ground arith

lt→leb_false : (a b : ℕ) → a < b → leb b a ≡ false
lt→leb_false a b h = ground arith

module _ (r : RingBuf) (v : IsRing r) where
  open r use {size, buf, head, tail}

  pub contents_ahead : tail ≤ head → contents r ≡ take (head - tail) (drop tail buf)
  contents_ahead h = simp (le→leb tail head h)

  pub contents_behind : head < tail → contents r ≡ drop tail buf ++ take head buf
  contents_behind h = simp (lt→leb_false head tail h)

  pub get_data_size-ahead : tail ≤ head → get_data_size r ≡ head - tail
  unfolding get_data_size
  get_data_size-ahead h =
      let wrapped =
        mod_above (head + size - tail) size (omega (arith, v.head_in, v.tail_in))
          (omega (arith, v.head_in, v.tail_in)) in
      wrapped ∙ omega (arith, v.head_in, v.tail_in)

  pub get_data_size-behind : head < tail → get_data_size r ≡ head + size - tail
  unfolding get_data_size
  get_data_size-behind h = mod_below (head + size - tail) size (omega (arith, v.head_in, v.tail_in))

  -- The data size is the number of bytes held, and one byte of the block stays free.
  pub get_data_size-contents : get_data_size r ≡ length (contents r)
  get_data_size-contents = elim (dec_le tail head) [
    | yes h ↦ ground (
      arith,
      get_data_size-ahead h,
      v.block,
      v.head_in,
      v.tail_in,
      length-take (head - tail) (drop tail buf),
      length-drop tail buf,
    )
    | no h ↦ ground (
      arith,
      get_data_size-behind (omega arith),
      v.block,
      v.head_in,
      v.tail_in,
      length-append (drop tail buf) (take head buf),
      length-take head buf,
      length-drop tail buf,
    )
  ]

  pub get_free_size-contents : length (contents r) + get_free_size r + 1 ≡ size
  unfolding get_free_size
  get_free_size-contents = elim (dec_le tail head) [
    | yes h ↦ omega (arith, get_data_size-contents, get_data_size-ahead h, v.head_in, v.tail_in)
    | no h ↦
        omega
          (arith, get_data_size-contents, get_data_size-behind (omega arith), v.head_in, v.tail_in)
  ]

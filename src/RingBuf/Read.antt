-- ===== src/RingBuf/Read.antt =====
-- `_read_internal` of utils/uni_ringbuf.c: it takes bytes from the front of what the ring holds.
use lib_uart_comm_protocol_l.Prelude.{
  ℕ, ◌+◌, ◌-◌, ◌%◌, ◌≤◌, ◌<◌, ◌≡◌, ap, arith, true, false, some, leb, length, take, drop,
  length-append, length-take, length-drop, take_of_length,
}
use lib_uart_comm_protocol_l.Prelude.Slices.{
  take-take, drop-drop, drop-take, take_within, take_beyond, drop_within, drop_beyond,
}
use native.Mathlib.Decide.{dec_le, dec_lt}
use lib_uart_comm_protocol_l.RingBuf.{RingBuf, read_bytes, copy_out}
use lib_uart_comm_protocol_l.RingBuf.Inv.{
  IsRing, contents, contents_ahead, contents_behind, mod_below, mod_above,
}

module _ (r : RingBuf) (v : IsRing r) (n : ℕ) where
  open r use {size, buf, head, tail}

  -- What a read gives, and what it leaves, if it ends at `end`.
  abbrev Takes : ℕ → Type 0
  Takes end =
      (end < size)
      × (read_bytes r n end ≡ some (take n (contents r)))
      × (contents (record r { tail = end }) ≡ drop n (contents r))

  Takes-ahead : tail ≤ head → n ≤ head - tail → Takes (tail + n)
  unfolding read_bytes copy_out
  Takes-ahead h k =
      let here : leb tail (tail + n) ≡ true = ground arith in
      let inside : leb (tail + n) (length buf) ≡ true = ground (arith, v.block, v.head_in) in
      let later : leb (tail + n) head ≡ true = ground arith in
      (
        omega (arith, v.head_in),
        rw (contents_ahead r v h, take-take n (head - tail) (drop tail buf) k, here, inside),
        rw (
          contents_ahead r v h,
          later,
          drop-take n (head - tail) (head - (tail + n)) (drop tail buf) (omega arith),
          drop-drop n tail (tail + n) buf (omega arith),
        ),
      )

  Takes-behind : head < tail → tail + n < size → Takes (tail + n)
  unfolding read_bytes copy_out
  Takes-behind h k =
      let here : leb tail (tail + n) ≡ true = ground arith in
      let inside : leb (tail + n) (length buf) ≡ true = ground (arith, v.block) in
      let later : leb (tail + n) head ≡ false = ground arith in
      let long : n ≤ length (drop tail buf) = omega (arith, length-drop tail buf, v.block) in
      (
        k,
        rw (
          contents_behind r v h,
          take_within n (drop tail buf) (take head buf) long,
          here,
          inside,
        ),
        rw (
          contents_behind r v h,
          later,
          drop_within n (drop tail buf) (take head buf) long,
          drop-drop n tail (tail + n) buf (omega arith),
        ),
      )

  Takes-round : head < tail → size ≤ tail + n → n ≤ head + size - tail → Takes (tail + n - size)
  unfolding read_bytes copy_out
  Takes-round h k fits =
      let rest = n - (size - tail) in
      let start : tail + n - size ≡ rest = omega (arith, v.tail_in) in
      let here : leb tail rest ≡ false = ground (arith, v.tail_in) in
      let inside : leb (tail + (size - tail)) (length buf) ≡ true =
        ground (arith, v.block, v.tail_in) in
      let inside_rest : leb (0 + rest) (length buf) ≡ true = ground (arith, v.block, v.head_in) in
      let later : leb rest head ≡ true = ground (arith, v.tail_in) in
      let joined : n ≡ length (drop tail buf) + rest =
        omega (arith, length-drop tail buf, v.block, v.tail_in) in
      (
        omega (arith, v.head_in),
        rw (
          start,
          contents_behind r v h,
          take_beyond n rest (drop tail buf) (take head buf) joined,
          take-take rest head buf (omega (arith, v.tail_in)),
          here,
          inside,
          inside_rest,
          take_of_length (size - tail) (drop tail buf)
              (omega (arith, length-drop tail buf, v.block)),
        ),
        rw (
          start,
          contents_behind r v h,
          later,
          drop_beyond n rest (drop tail buf) (take head buf) joined,
          drop-take rest head (head - rest) buf (omega arith),
        ),
      )

  -- A read of no more than the ring holds gives the first bytes, and moving the tail there drops them.
  pub read_bytes_lem :
      n ≤ length (contents r)
      → ((tail + n) % size < size)
        × (read_bytes r n ((tail + n) % size) ≡ some (take n (contents r)))
        × (contents (record r { tail = (tail + n) % size }) ≡ drop n (contents r))
  read_bytes_lem short = elim (dec_le tail head) [
    | yes h ↦
        let k : n ≤ head - tail = omega (
          arith,
          short,
          ap (λ l. length l) (contents_ahead r v h),
          length-take (head - tail) (drop tail buf),
        ) in
        rw (mod_below (tail + n) size (omega (arith, v.head_in))) (Takes-ahead h k)
    | no h ↦
        let k : n ≤ head + size - tail = omega (
          arith,
          short,
          ap (λ l. length l) (contents_behind r v (omega arith)),
          length-append (drop tail buf) (take head buf),
          length-take head buf,
          length-drop tail buf,
          v.block,
          v.tail_in,
        ) in
        elim (dec_lt (tail + n) size) [
          | yes before ↦ rw (mod_below (tail + n) size before) (Takes-behind (omega arith) before)
          | no past ↦
              rw (mod_above (tail + n) size (omega arith) (omega (arith, v.tail_in)))
                (Takes-round (omega arith) (omega arith) k)
        ]
  ]

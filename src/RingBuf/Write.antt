-- ===== src/RingBuf/Write.antt =====
-- `_write_internal` of utils/uni_ringbuf.c: it appends bytes to what the ring holds.
use lib_uart_comm_protocol_l.Prelude.{
  ℕ, ◌+◌, ◌-◌, ◌%◌, ◌≤◌, ◌<◌, ◌≡◌, sym, ap, ◌∙◌, refl, arith, true, false, some, List, ◌++◌, leb,
  length, take, drop, memcpy, length-append, length-take, length-drop, take_of_length,
  take-append-drop, append_assoc,
}
use lib_uart_comm_protocol_l.Prelude.Slices.{
  drop-drop, drop-take, take_within, take_beyond, drop_within, drop_beyond,
}
use native.Mathlib.Decide.{dec_le, dec_lt}
use lib_uart_comm_protocol_l.RingBuf.{RingBuf, write_bytes, copy_in, get_free_size}
use lib_uart_comm_protocol_l.RingBuf.Inv.{
  IsRing, contents, contents_ahead, contents_behind, mod_below, mod_above, get_data_size-contents,
  get_data_size-ahead, get_data_size-behind, get_free_size-contents,
}

-- A block into which a source is copied.
abbrev copied : List ℕ → ℕ → List ℕ → List ℕ
copied buf at src = take at buf ++ (src ++ drop (length src) (drop at buf))

memcpy_lem :
    (buf : List ℕ) (at : ℕ) (src : List ℕ) (n : ℕ)
    → n ≤ length src
    → memcpy buf at src n ≡ copied buf at (take n src)
memcpy_lem buf at src n h =
    ap (λ k. take at buf ++ (take n src ++ drop k (drop at buf))) (omega (arith, length-take n src))

copy_in_lem :
    (buf : List ℕ) (at : ℕ) (src : List ℕ) (n : ℕ)
    → n ≤ length src
    → at + n ≤ length buf
    → copy_in buf at src n ≡ some (copied buf at (take n src))
unfolding copy_in
copy_in_lem buf at src n h fits =
    let inside : leb (at + n) (length buf) ≡ true = ground arith in
    let all : leb n (length src) ≡ true = ground arith in
    rw (inside, all, memcpy_lem buf at src n h)

-- The parts of a block into which a source is copied.
module _ (buf : List ℕ) (at : ℕ) (src : List ℕ) (fits : at + length src ≤ length buf) where
  before_copy : length (take at buf) ≡ at
  before_copy = omega (arith, length-take at buf)

  length-copied : length (copied buf at src) ≡ length buf
  length-copied = omega (
    arith,
    length-append (take at buf) (src ++ drop (length src) (drop at buf)),
    length-append src (drop (length src) (drop at buf)),
    length-drop (length src) (drop at buf),
    length-drop at buf,
    before_copy,
  )

  -- Up to the end of the copy: the block before it, and the source.
  take-copied : take (at + length src) (copied buf at src) ≡ take at buf ++ src
  take-copied =
      take_beyond (at + length src) (length src) (take at buf)
        (src ++ drop (length src) (drop at buf)) (omega (arith, before_copy))
      ∙ ap (λ l. take at buf ++ l)
          (take_within (length src) src (drop (length src) (drop at buf)) (omega arith)
            ∙ take_of_length (length src) src refl)

  -- From behind the copy on nothing has changed.
  drop-copied : (i : ℕ) → at + length src ≤ i → drop i (copied buf at src) ≡ drop i buf
  drop-copied i h =
      drop_beyond i (i - at) (take at buf) (src ++ drop (length src) (drop at buf))
        (omega (arith, before_copy))
      ∙ drop_beyond (i - at) (i - at - length src) src (drop (length src) (drop at buf))
          (omega arith)
      ∙ drop-drop (i - at - length src) (length src) (i - at) (drop at buf) (omega arith)
      ∙ drop-drop (i - at) at i buf (omega arith)

module _ (r : RingBuf) (v : IsRing r) (src : List ℕ) where
  open r use {size, buf, head, tail}

  -- What a write gives if it ends at `end`: a block of the same size, that holds the source behind
  -- what was there.
  abbrev Appends : ℕ → Type 0
  Appends end =
      (block : List ℕ) × (end < size)
      × (write_bytes r src (length src) end ≡ some block)
      × (length block ≡ size)
      × (contents (record r { buf = block; head = end }) ≡ contents r ++ src)

  straight :
      head + length src < size
      → write_bytes r src (length src) (head + length src) ≡ some (copied buf head src)
  unfolding write_bytes
  straight h =
      let here : leb head (head + length src) ≡ true = ground arith in
      rw here (
        copy_in_lem buf head src (length src) (omega arith) (omega (arith, v.block))
        ∙ ap (λ l. some (copied buf head l)) (take_of_length (length src) src refl))

  Appends-ahead : tail ≤ head → head + length src < size → Appends (head + length src)
  Appends-ahead h k =
      let fits : head + length src ≤ length buf = omega (arith, v.block) in
      let later : leb tail (head + length src) ≡ true = ground arith in
      (
        copied buf head src,
        k,
        straight k,
        length-copied buf head src fits ∙ v.block,
        rw later (
            sym (
              drop-take tail (head + length src) (head + length src - tail) (copied buf head src)
                refl)
            ∙ ap (λ l. drop tail l) (take-copied buf head src fits)
            ∙ drop_within tail (take head buf) src (omega (arith, before_copy buf head src fits))
            ∙ ap (λ l. l ++ src)
                (drop-take tail head (head - tail) buf refl ∙ sym (contents_ahead r v h))),
      )

  Appends-behind : head < tail → head + length src < tail → Appends (head + length src)
  Appends-behind h k =
      let fits : head + length src ≤ length buf = omega (arith, v.block, v.tail_in) in
      let later : leb tail (head + length src) ≡ false = ground arith in
      (
        copied buf head src,
        omega (arith, v.tail_in),
        straight (omega (arith, v.tail_in)),
        length-copied buf head src fits ∙ v.block,
        rw (
          later,
          take-copied buf head src fits,
          drop-copied buf head src fits tail (omega arith),
          contents_behind r v h,
          append_assoc (drop tail buf) (take head buf) src,
        ),
      )

  Appends-round :
      tail ≤ head
      → size ≤ head + length src
      → head + length src < tail + size
      → Appends (head + length src - size)
  unfolding write_bytes
  Appends-round h k free =
      let room = size - head in
      let first = take room src in
      let rest = drop room src in
      let n_first : length first ≡ room = omega (arith, length-take room src, v.head_in) in
      let n_rest : length rest ≡ head + length src - size =
        omega (arith, length-drop room src, v.head_in) in
      let fits : head + length first ≤ length buf = omega (arith, v.block, v.head_in) in
      let b1 = copied buf head first in
      let n_b1 : length b1 ≡ size = length-copied buf head first fits ∙ v.block in
      let fits_rest : 0 + length rest ≤ length b1 = omega (arith, v.head_in, v.tail_in) in
      let b2 = copied b1 0 rest in
      let here : leb head (head + length src - size) ≡ false =
        ground (arith, v.head_in, v.tail_in) in
      let later : leb tail (head + length src - size) ≡ false = ground (arith, v.head_in) in
      let last : length src - room ≡ length rest = omega (arith, v.head_in) in
      let kept : drop tail b1 ≡ contents r ++ first =
        ap (λ l. drop tail l)
          (sym (take_of_length (head + length first) b1 (omega (arith, v.head_in)))
            ∙ take-copied buf head first fits)
        ∙ drop_within tail (take head buf) first (omega (arith, before_copy buf head first fits))
        ∙ ap (λ l. l ++ first)
            (drop-take tail head (head - tail) buf refl ∙ sym (contents_ahead r v h)) in
      (
        b2,
        omega (arith, v.tail_in),
        rw (
          here,
          copy_in_lem buf head src room (omega (arith, v.head_in))
              (omega (arith, v.block, v.head_in)),
          copy_in_lem b1 0 rest (length src - room) (omega arith) (omega arith),
          take_of_length (length src - room) rest last,
        ),
        length-copied b1 0 rest fits_rest ∙ n_b1,
        rw later (
            ap (λ l. l ++ take (head + length src - size) b2)
              (drop-copied b1 0 rest fits_rest tail (omega (arith, v.head_in)) ∙ kept)
            ∙ ap (λ l. (contents r ++ first) ++ l)
                (ap (λ i. take i b2) (omega arith) ∙ take-copied b1 0 rest fits_rest)
            ∙ append_assoc (contents r) first rest
            ∙ ap (λ l. contents r ++ l) (take-append-drop room src)),
      )

  -- A write of no more than the free size appends the source, in a block of the same size.
  pub write_bytes_lem : length src ≤ get_free_size r → Appends ((head + length src) % size)
  write_bytes_lem short = elim (dec_le tail head) [
    | yes h ↦ elim (dec_lt (head + length src) size) [
      | yes before ↦ rw (mod_below (head + length src) size before) (Appends-ahead h before)
      | no past ↦
          let free : head + length src < tail + size = omega (
            arith,
            short,
            get_free_size-contents r v,
            get_data_size-contents r v,
            get_data_size-ahead r v h,
          ) in
          rw (mod_above (head + length src) size (omega arith) (omega (arith, v.tail_in)))
            (Appends-round h (omega arith) free)
    ]
    | no h ↦
        let free : head + length src < tail = omega (
          arith,
          short,
          get_free_size-contents r v,
          get_data_size-contents r v,
          get_data_size-behind r v (omega arith),
          v.tail_in,
        ) in
        rw (mod_below (head + length src) size (omega (arith, v.tail_in)))
          (Appends-behind (omega arith) free)
  ]

-- ===== src/Protocol/Parse.antt =====
-- The parser on the bytes of a frame: which state it is in after each of them.
use lib_uart_comm_protocol_l.Prelude.{
  ℕ, suc, ◌+◌, ◌-◌, ◌*◌, ◌%◌, ◌^◌, ◌≤◌, ◌<◌, ◌≡◌, refl, sym, ap, ◌∙◌, arith, true, false, Option,
  some, List, [], ◌∷◌, ◌++◌, length, set, take, take-set, length-set, length-append, leb, ltb,
  lt→ltb, ◌==◌, bind, get_or, ◌⊎◌, inl,
}
use lib_uart_comm_protocol_l.Protocol.State.{CommProtocol, Malloc, NeverFails}
use lib_uart_comm_protocol_l.Protocol.Packet.{g_sync}
use lib_uart_comm_protocol_l.Protocol.Send.{is_protocol_buffer_overflow}
use lib_uart_comm_protocol_l.Protocol.Receive.{
  is_payload_len_crc16_valid, check_payload_len, end_of_byte, store_byte, accept_byte,
  generate_byte_by_byte, receive_uart_data,
}
use lib_uart_comm_protocol_l.Protocol.Buffer.{
  IsCapacity, IsValid, Fits, stored, protocol_buffer_alloc_lem, buffer_write_lem,
}

-- The state in the middle of a frame, started from `s`.
abbrev pub parsing : CommProtocol → Option (List ℕ) → ℕ → ℕ → ℕ → ℕ → ℕ → CommProtocol
parsing s buffer size calls index left crc = record s {
  protocol_buffer = buffer;
  protocol_buffer_length = size;
  allocs = calls;
  index = index;
  payload_left = left;
  length_crc16 = crc;
}

-- The buffer holds the bytes `pre`, and can grow to any legal size.
pub record Holds (pre : List ℕ) (buffer : Option (List ℕ)) (size : ℕ) : Type 0 where
  pub capacity : IsCapacity size
  pub legal : size ≤ 8176
  pub fits : Fits buffer (length pre) size
  pub index_in : length pre ≤ size
  pub same : stored buffer (length pre) ≡ pre

module _ (m : Malloc) (available : NeverFails m) (s : CommProtocol) where
  -- With room made for it, the byte `c` behind `pre` is stored, and the counters become `left'` and
  -- `crc'`.
  abbrev pub Accepts : ℕ → List ℕ → ℕ → ℕ → ℕ → ℕ → Type 0
  Accepts c pre left crc left' crc' =
      (b : List ℕ) (size calls : ℕ)
      → length b ≡ size
      → length pre < size
      → length pre < 8176
      → accept_byte m c (parsing s (some b) size calls (length pre) left crc)
        ≡ end_of_byte m
            (parsing s (some (set b (length pre) c)) size calls (length pre + 1) left' crc')

  -- One byte of a frame, with what the rest of the bytes leads to.
  pub feed :
      (Q : Option CommProtocol → Type 0) (c : ℕ) (rest pre : List ℕ) (left crc left' crc' : ℕ)
      (buffer : Option (List ℕ)) (size calls : ℕ)
      → left < 2 ^ 16
      → crc < 2 ^ 16
      → length pre < 8176
      → Accepts c pre left crc left' crc'
      → Holds pre buffer size
      → ((b : List ℕ) (n k : ℕ)
          → Holds (pre ++ (c ∷ [])) (some b) n
          → Q (
              bind
                (end_of_byte m (parsing s (some b) n k (length pre + 1) left' crc'))
                (receive_uart_data m rest)))
      → Q (receive_uart_data m (c ∷ rest) (parsing s buffer size calls (length pre) left crc))
  unfolding receive_uart_data generate_byte_by_byte is_protocol_buffer_overflow
  feed Q c rest pre left crc left' crc' buffer size calls hl hc short accepts h go =
      let t = parsing s buffer size calls (length pre) left crc in
      let v : IsValid t = record {
        capacity = h.capacity;
        index_in = h.index_in;
        buffer = h.fits;
        left_lt = hl;
        crc_lt = hc;
      } in
      let a = protocol_buffer_alloc_lem m available t v (omega (arith, h.legal)) in
      let small : leb 8192 (size % 2 ^ 16) ≡ false = ground arith in
      let b' = set a.block (length pre) c in
      let one_more : length (pre ++ (c ∷ [])) ≡ suc (length pre) =
        omega (arith, length-append pre (c ∷ [])) in
      let held : Holds (pre ++ (c ∷ [])) (some b') a.size = record {
        capacity = a.capacity;
        legal = a.bounded h.legal short;
        fits = length-set a.block (length pre) c ∙ a.block_size;
        index_in = omega (arith, a.room, length-append pre (c ∷ []));
        same =
            ap (λ i. take i b') one_more
            ∙ take-set a.block (length pre) c (omega (arith, a.room, a.block_size))
            ∙ ap (λ p. p ++ (c ∷ [])) (a.kept ∙ h.same);
      } in
      rw (small, a.result, accepts a.block a.size a.calls a.block_size a.room short)
        (go b' a.size a.calls held)

  -- Before the header is complete, or while payload is missing, nothing more happens.
  pub end_of_byte_early :
      (t : CommProtocol) → (t.index < 16) ⊎ (0 < t.payload_left) → end_of_byte m t ≡ some t
  unfolding end_of_byte
  end_of_byte_early t h = ground arith

  module _ (c left crc : ℕ) (pre : List ℕ) where
    pub sync_byte :
        length pre < 6
        → (c == get_or g_sync (length pre) 0) ≡ true
        → Accepts c pre left crc left crc
    unfolding accept_byte
    sync_byte h e b size calls fits room short =
        let t = parsing s (some b) size calls (length pre) left crc in
        let low : ltb (length pre) 6 ≡ true = lt→ltb _ _ h in
        let stored = buffer_write_lem c t b refl (omega arith) (omega arith) in
        rw (low, e) (stored ∙ sym (end_of_byte_early _ (inl (omega arith))))

    pub header_byte : 6 ≤ length pre → length pre < 12 → Accepts c pre left crc left crc
    unfolding accept_byte store_byte
    header_byte low high b size calls fits room short =
        ground
          (arith, buffer_write_lem c (parsing s (some b) size calls (length pre) left crc) b refl)

    pub len_high_byte : length pre ≡ 12 → Accepts c pre left crc (c * 2 ^ 8) crc
    unfolding accept_byte store_byte
    len_high_byte e b size calls fits room short = ground (
      arith,
      buffer_write_lem c (parsing s (some b) size calls (length pre) (c * 2 ^ 8) crc) b refl,
    )

    pub len_low_byte : length pre ≡ 13 → Accepts c pre left crc ((left + c) % 2 ^ 16) crc
    unfolding accept_byte store_byte
    len_low_byte e b size calls fits room short = ground (
      arith,
      buffer_write_lem c (parsing s (some b) size calls (length pre) ((left + c) % 2 ^ 16) crc) b
          refl,
    )

    pub crc_high_byte : length pre ≡ 14 → Accepts c pre left crc left (c * 2 ^ 8)
    unfolding accept_byte store_byte
    crc_high_byte e b size calls fits room short = ground (
      arith,
      buffer_write_lem c (parsing s (some b) size calls (length pre) left (c * 2 ^ 8)) b refl,
    )

    pub crc_low_byte :
        length pre ≡ 15
        → is_payload_len_crc16_valid left ((crc + c) % 2 ^ 16) ≡ true
        → Accepts c pre left crc left ((crc + c) % 2 ^ 16)
    unfolding accept_byte check_payload_len store_byte
    crc_low_byte e good b size calls fits room short = ground (
      arith,
      buffer_write_lem c (parsing s (some b) size calls (length pre) left ((crc + c) % 2 ^ 16)) b
          refl,
    )

    pub payload_byte : 16 ≤ length pre → 0 < left → Accepts c pre left crc (left - 1) crc
    unfolding accept_byte store_byte
    payload_byte low more b size calls fits room short =
        ground
          (arith, buffer_write_lem c (parsing s (some b) size calls (length pre) left crc) b refl)

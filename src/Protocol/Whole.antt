-- ===== src/Protocol/Whole.antt =====
-- A whole frame through the parser: every byte of a well-formed frame is stored, and its last byte
-- hands the frame on.
use lib_uart_comm_protocol_l.Prelude.{
  ℕ, suc, ◌+◌, ◌-◌, ◌*◌, ◌%◌, ◌^◌, ◌≤◌, ◌<◌, ◌≡◌, refl, sym, arith, true, Option, none, some, List,
  [], ◌∷◌, ◌++◌, append_assoc, append-nil, length, length-append, bind, inl, inr,
}
use mathlib.Core.Path.{subst}
use lib_uart_comm_protocol_l.Crc16.{crc16}
use lib_uart_comm_protocol_l.Crc16.Detect.{crc16-lt}
use lib_uart_comm_protocol_l.Protocol.State.{CommProtocol, Malloc, NeverFails}
use lib_uart_comm_protocol_l.Protocol.Packet.{g_sync, high_byte, low_byte}
use lib_uart_comm_protocol_l.Protocol.Receive.{
  is_payload_len_crc16_valid, end_of_byte, receive_uart_data,
}
use lib_uart_comm_protocol_l.Protocol.Frame.{layout}
use lib_uart_comm_protocol_l.Protocol.Parse.{
  parsing, Holds, Accepts, feed, end_of_byte_early, sync_byte, header_byte, len_high_byte,
  len_low_byte, crc_high_byte, crc_low_byte, payload_byte,
}

bind-some : (o : Option CommProtocol) → bind o some ≡ o
bind-some none = refl
bind-some (some s) = refl

regroup :
    (pre rest : List ℕ) (a b c d : ℕ)
    → pre ++ (a ∷ b ∷ c ∷ d ∷ rest)
      ≡ (((pre ++ (a ∷ [])) ++ (b ∷ [])) ++ (c ∷ [])) ++ (d ∷ []) ++ rest
regroup pre rest a b c d = simp append_assoc

len_crc_good :
    (len : ℕ) → is_payload_len_crc16_valid len (crc16 (high_byte len ∷ low_byte len ∷ [])) ≡ true
unfolding is_payload_len_crc16_valid
len_crc_good len = ground arith

module _ (m : Malloc) (available : NeverFails m) (s : CommProtocol) where
  -- The state in which the last byte of a frame is stored, in a buffer that begins with the frame.
  abbrev pub Whole : (Option CommProtocol → Type 0) → List ℕ → ℕ → Type 0
  Whole Q bytes crc =
      (b : List ℕ) (size calls : ℕ)
      → Holds bytes (some b) size
      → Q (end_of_byte m (parsing s (some b) size calls (length bytes) 0 crc))

  receive_nil : (t : Option CommProtocol) → bind t (receive_uart_data m []) ≡ t
  unfolding receive_uart_data
  receive_nil t = bind-some t

  feed_payload :
      (Q : Option CommProtocol → Type 0) (rest pre : List ℕ) (crc : ℕ) (b : List ℕ) (size calls : ℕ)
      → crc < 2 ^ 16
      → 16 ≤ length pre
      → length pre + length rest ≤ 8176
      → Whole Q (pre ++ rest) crc
      → Holds pre (some b) size
      → Q (
          bind
            (end_of_byte m (parsing s (some b) size calls (length pre) (length rest) crc))
            (receive_uart_data m rest))
  feed_payload Q [] pre crc b size calls hc low short whole h =
      rw (receive_nil (end_of_byte m (parsing s (some b) size calls (length pre) 0 crc)))
        (subst (λ p. Whole Q p crc) (append-nil pre) whole b size calls h)
  feed_payload Q (c ∷ rest) pre crc b size calls hc low short whole h =
      let all = pre ++ (c ∷ []) in
      let one_more : length pre + 1 ≡ length all = omega (arith, length-append pre (c ∷ [])) in
      let minus_one : suc (length rest) - 1 ≡ length rest = omega arith in
      rw
        (end_of_byte_early m available s
          (parsing s (some b) size calls (length pre) (suc (length rest)) crc) (inr (omega arith)))
        (feed m available s Q c rest pre (suc (length rest)) crc (suc (length rest) - 1) crc
          (some b) size calls (omega arith) hc (omega arith)
          (payload_byte m available s c (suc (length rest)) crc pre low (omega arith)) h
          (λ b' n k held.
            rw (one_more, minus_one)
              (feed_payload Q rest all crc b' n k hc (omega (arith, one_more))
                (omega (arith, one_more))
                (subst (λ p. Whole Q p crc) (sym (append_assoc pre (c ∷ []) rest)) whole) held)))

  -- A byte of the header, before its last one.
  feed_on :
      (Q : Option CommProtocol → Type 0) (c : ℕ) (rest pre : List ℕ) (left crc left' crc' : ℕ)
      (buffer : Option (List ℕ)) (size calls : ℕ)
      → left < 2 ^ 16
      → crc < 2 ^ 16
      → length pre < 15
      → Accepts m available s c pre left crc left' crc'
      → Holds pre buffer size
      → ((b : List ℕ) (n k : ℕ)
          → Holds (pre ++ (c ∷ [])) (some b) n
          → Q (
              receive_uart_data m rest
                (parsing s (some b) n k (length (pre ++ (c ∷ []))) left' crc')))
      → Q (receive_uart_data m (c ∷ rest) (parsing s buffer size calls (length pre) left crc))
  feed_on Q c rest pre left crc left' crc' buffer size calls hl hc short accepts h go =
      let one_more : length (pre ++ (c ∷ [])) ≡ length pre + 1 =
        omega (arith, length-append pre (c ∷ [])) in
      feed m available s Q c rest pre left crc left' crc' buffer size calls hl hc (omega arith)
        accepts h
        (λ b n k held.
          rw
            (end_of_byte_early m available s (parsing s (some b) n k (length pre + 1) left' crc')
              (inl (omega arith)))
            (rw one_more at (go b n k held)))

  -- The bytes between the sync bytes and the length are taken as they are.
  feed_plain :
      (Q : Option CommProtocol → Type 0) (bytes rest pre : List ℕ) (left crc : ℕ) (b : List ℕ)
      (size calls : ℕ)
      → left < 2 ^ 16
      → crc < 2 ^ 16
      → 6 ≤ length pre
      → length pre + length bytes ≤ 12
      → Holds pre (some b) size
      → ((b : List ℕ) (n k : ℕ)
          → Holds (pre ++ bytes) (some b) n
          → Q (receive_uart_data m rest (parsing s (some b) n k (length (pre ++ bytes)) left crc)))
      → Q (
          receive_uart_data m (bytes ++ rest) (parsing s (some b) size calls (length pre) left crc))
  feed_plain Q [] rest pre left crc b size calls hl hc low high h go =
      subst
        (λ p.
          Holds p (some b) size
          → Q (receive_uart_data m rest (parsing s (some b) size calls (length p) left crc)))
        (append-nil pre) (go b size calls) h
  feed_plain Q (c ∷ bytes) rest pre left crc b size calls hl hc low high h go =
      let all = pre ++ (c ∷ []) in
      let one_more : length all ≡ length pre + 1 = omega (arith, length-append pre (c ∷ [])) in
      feed_on Q c (bytes ++ rest) pre left crc left crc (some b) size calls hl hc (omega arith)
        (header_byte m available s c left crc pre low (omega arith)) h
        (λ b' n k held.
          feed_plain Q bytes rest all left crc b' n k hl hc (omega arith) (omega arith) held (
            subst
              (λ p.
                (b : List ℕ) (n k : ℕ)
                → Holds p (some b) n
                → Q (receive_uart_data m rest (parsing s (some b) n k (length p) left crc)))
              (sym (append_assoc pre (c ∷ []) bytes)) go))

  -- "uArTcP"
  feed_sync :
      (Q : Option CommProtocol → Type 0) (rest : List ℕ) (left crc : ℕ) (buffer : Option (List ℕ))
      (size calls : ℕ)
      → left < 2 ^ 16
      → crc < 2 ^ 16
      → Holds [] buffer size
      → ((b : List ℕ) (n k : ℕ)
          → Holds g_sync (some b) n
          → Q (receive_uart_data m rest (parsing s (some b) n k 6 left crc)))
      → Q (receive_uart_data m (g_sync ++ rest) (parsing s buffer size calls 0 left crc))
  feed_sync Q rest left crc buffer size calls hl hc h go =
      feed_on Q 0x75 _ [] left crc left crc buffer size calls hl hc (omega arith)
        (sync_byte m available s 0x75 left crc [] (omega arith) refl) h
        λ b1 n1 k1 h1.
          feed_on Q 0x41 _ (0x75 ∷ []) left crc left crc (some b1) n1 k1 hl hc (omega arith)
            (sync_byte m available s 0x41 left crc (0x75 ∷ []) (omega arith) refl) h1
            λ b2 n2 k2 h2.
              feed_on Q 0x72 _ (0x75 ∷ 0x41 ∷ []) left crc left crc (some b2) n2 k2 hl hc
                (omega arith)
                (sync_byte m available s 0x72 left crc (0x75 ∷ 0x41 ∷ []) (omega arith) refl) h2
                λ b3 n3 k3 h3.
                  feed_on Q 0x54 _ (0x75 ∷ 0x41 ∷ 0x72 ∷ []) left crc left crc (some b3) n3 k3 hl hc
                    (omega arith)
                    (sync_byte m available s 0x54 left crc (0x75 ∷ 0x41 ∷ 0x72 ∷ []) (omega arith)
                      refl)
                    h3
                    λ b4 n4 k4 h4.
                      feed_on Q 0x63 _ (0x75 ∷ 0x41 ∷ 0x72 ∷ 0x54 ∷ []) left crc left crc (some b4)
                        n4 k4 hl hc (omega arith)
                        (sync_byte m available s 0x63 left crc (0x75 ∷ 0x41 ∷ 0x72 ∷ 0x54 ∷ [])
                          (omega arith) refl)
                        h4
                        λ b5 n5 k5 h5.
                          feed_on Q 0x50 _ (0x75 ∷ 0x41 ∷ 0x72 ∷ 0x54 ∷ 0x63 ∷ []) left crc left crc
                            (some b5) n5 k5 hl hc (omega arith)
                            (sync_byte m available s 0x50 left crc
                              (0x75 ∷ 0x41 ∷ 0x72 ∷ 0x54 ∷ 0x63 ∷ []) (omega arith) refl)
                            h5 go

  -- The length of the payload and its CRC, and then the payload.
  feed_length :
      (Q : Option CommProtocol → Type 0) (payload pre : List ℕ) (left crc : ℕ) (b : List ℕ)
      (size calls : ℕ)
      → left < 2 ^ 16
      → crc < 2 ^ 16
      → length pre ≡ 12
      → length payload ≤ 8160
      → Holds pre (some b) size
      → let len = length payload in
        let code = crc16 (high_byte len ∷ low_byte len ∷ []) in
        let numbers = high_byte len ∷ low_byte len ∷ high_byte code ∷ low_byte code ∷ [] in
        Whole Q (pre ++ (numbers ++ payload)) code
        → Q (
            receive_uart_data m
              (numbers ++ payload)
              (parsing s (some b) size calls (length pre) left crc))
  feed_length Q payload pre left crc b size calls hl hc e short h whole =
      let len = length payload in
      let code = crc16 (high_byte len ∷ low_byte len ∷ []) in
      let p1 = pre ++ (high_byte len ∷ []) in
      let p2 = p1 ++ (low_byte len ∷ []) in
      let p3 = p2 ++ (high_byte code ∷ []) in
      let p4 = p3 ++ (low_byte code ∷ []) in
      let e1 : length p1 ≡ 13 = omega (arith, length-append pre (high_byte len ∷ [])) in
      let e2 : length p2 ≡ 14 = omega (arith, length-append p1 (low_byte len ∷ [])) in
      let e3 : length p3 ≡ 15 = omega (arith, length-append p2 (high_byte code ∷ [])) in
      let e4 : length p3 + 1 ≡ length p4 = omega (arith, length-append p3 (low_byte code ∷ [])) in
      let len_back : (high_byte len * 2 ^ 8 + low_byte len) % 2 ^ 16 ≡ len = omega arith in
      let small = crc16-lt (high_byte len ∷ low_byte len ∷ []) in
      let code_back : (high_byte code * 2 ^ 8 + low_byte code) % 2 ^ 16 ≡ code =
        omega (arith, small) in
      feed_on Q _ _ pre left crc (high_byte len * 2 ^ 8) crc (some b) size calls hl hc (omega arith)
        (len_high_byte m available s (high_byte len) left crc pre e) h
        λ b1 n1 k1 h1.
          feed_on Q _ _ p1 (high_byte len * 2 ^ 8) crc len crc (some b1) n1 k1 (omega arith) hc
            (omega arith)
            (subst (λ l. Accepts m available s (low_byte len) p1 (high_byte len * 2 ^ 8) crc l crc)
              len_back
              (len_low_byte m available s (low_byte len) (high_byte len * 2 ^ 8) crc p1 e1))
            h1
            λ b2 n2 k2 h2.
              feed_on Q _ _ p2 len crc len (high_byte code * 2 ^ 8) (some b2) n2 k2 (omega arith) hc
                (omega arith) (crc_high_byte m available s (high_byte code) len crc p2 e2) h2
                λ b3 n3 k3 h3.
                  feed m available s Q _ _ p3 len (high_byte code * 2 ^ 8) len code (some b3) n3 k3
                    (omega arith) (omega (arith, small)) (omega arith)
                    (subst
                      (λ c.
                        Accepts m available s (low_byte code) p3 len (high_byte code * 2 ^ 8) len c)
                      code_back
                      (crc_low_byte m available s (low_byte code) len (high_byte code * 2 ^ 8) p3 e3
                        (rw code_back (len_crc_good len))))
                    h3
                    λ b4 n4 k4 h4. rw e4 (
                      feed_payload Q payload p4 code b4 n4 k4 small (omega arith) (omega arith)
                        (subst (λ p. Whole Q p code)
                          (regroup pre payload (high_byte len) (low_byte len) (high_byte code)
                            (low_byte code))
                          whole)
                        h4)

  -- All the bytes of a frame, from a state at the start of a frame.
  pub feed_frame :
      (Q : Option CommProtocol → Type 0) (seq control cmd checksum : ℕ) (payload : List ℕ)
      (left crc : ℕ) (buffer : Option (List ℕ)) (size calls : ℕ)
      → left < 2 ^ 16
      → crc < 2 ^ 16
      → length payload ≤ 8160
      → Holds [] buffer size
      → Whole Q
          (layout seq control cmd checksum payload)
          (crc16 (high_byte (length payload) ∷ low_byte (length payload) ∷ []))
      → Q (
          receive_uart_data m
            (layout seq control cmd checksum payload)
            (parsing s buffer size calls 0 left crc))
  feed_frame Q seq control cmd checksum payload left crc buffer size calls hl hc short h whole =
      feed_sync Q _ left crc buffer size calls hl hc h λ b n k held.
        feed_plain Q
          (seq
            ∷ control
            ∷ high_byte cmd
            ∷ low_byte cmd
            ∷ high_byte checksum
            ∷ low_byte checksum
            ∷ [])
          _ g_sync left crc b n k hl hc (omega arith) (omega arith) held
          λ b' n' k' held'. feed_length Q payload _ left crc b' n' k' hl hc refl short held' whole

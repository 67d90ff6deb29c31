-- ===== src/Log/Ending.antt =====
-- The end of a line of utils/uni_log.c: the message, cut off where the buffer ends, and the newline.
use lib_uart_comm_protocol_l.Prelude.{
  ℕ, ◌+◌, ◌-◌, ◌≤◌, ◌≡◌, refl, sym, ap, ◌∙◌, arith, min, true, false, some, List, [], ◌∷◌, ◌++◌,
  append_assoc, leb, ◌==◌, length, take, drop, set, memcpy, length-append, length-take, take_ge,
  take_append, Bool-cases, inl, inr,
}
use native.Mathlib.Decide.{dec_le}
use lib_uart_comm_protocol_l.Prelude.Slices.{drop_beyond}
use lib_uart_comm_protocol_l.NetHelper.Messages.{NoNul}
use lib_uart_comm_protocol_l.Log.{log_buffer_len, feed, strncat_feed, fill_customer_info}
use lib_uart_comm_protocol_l.Log.Lines.{Starts, Ended-Starts, snprintf-Ended, snprintf-full}
use lib_uart_comm_protocol_l.Log.Bytes.{
  set_last_but_one, c_string-NoNul, Fed, cut_line, last_two-Fed, same_start,
}

module _ (message text : List ℕ) (buf : List ℕ) (len : ℕ) (s : Starts text (buf, len)) where
  ends :
      len ≤ 1024
      → (len + (log_buffer_len - len) - 2 ≡ 1022) × (len + (log_buffer_len - len) - 1 ≡ 1023)
  ends h = (omega arith, omega arith)

  -- What is left of the buffer is taken, up to its last byte.
  remain_none :
      len ≤ 1024
      → 1024 ≤ len + length message
      → (log_buffer_len - len - min (length message) (log_buffer_len - len) == 0) ≡ true
  remain_none h k = ground arith

  remain_some :
      (left : ℕ)
      → len + length message + left ≡ 1024
      → log_buffer_len - len - min (length message) (log_buffer_len - len) ≡ left
  remain_some left h = omega arith

  -- No byte is left for the message.
  feed-full :
      length text ≡ 1024
      → (buf' : List ℕ) × (fill_customer_info message true (buf, len) ≡ some buf')
        × Fed (cut_line (text ++ message)) buf'
  unfolding fill_customer_info
  feed-full h =
      let small : len ≤ 1024 = omega (arith, s.taken, h) in
      let (at, last) = ends small in
      let (done, starts) = snprintf-full message text buf len s h in
      let total = length-append text message in
      let same = same_start (text ++ message) buf starts.start (omega (arith, total, h)) in
      (
        set (set buf 1022 feed) 1023 0,
        rw done (rw (remain_none small (omega (arith, s.taken, h)), at, last) refl),
        last_two-Fed (text ++ message) buf s.whole same,
      )

  module _ (h : length text ≤ 1023) where
    total : len + length message ≡ length (text ++ message)
    total = omega (arith, s.taken, length-append text message)

    small : len ≤ 1024
    small = omega (arith, s.taken, h)

    -- The message takes all that is left, or more.
    feed-long :
        1024 ≤ len + length message
        → (buf' : List ℕ) × (fill_customer_info message true (buf, len) ≡ some buf')
          × Fed (cut_line (text ++ message)) buf'
    unfolding fill_customer_info
    feed-long k =
        let (at, last) = ends small in
        let (b, done, e) = snprintf-Ended message text buf len s h in
        let starts = Ended-Starts (text ++ message) b e in
        let same = same_start (text ++ message) b starts.start (omega (arith, total, k)) in
        (
          set (set b 1022 feed) 1023 0,
          rw done (rw (remain_none small k, at, last) refl),
          last_two-Fed (text ++ message) b starts.whole same,
        )

    -- The message leaves the one byte of its NUL.
    feed-exact :
        len + length message ≡ 1023
        → (buf' : List ℕ) × (fill_customer_info message true (buf, len) ≡ some buf')
          × Fed (cut_line (text ++ message)) buf'
    unfolding fill_customer_info
    feed-exact k =
        let (at, last) = ends small in
        let (b, done, (rest, e, whole)) = snprintf-Ended message text buf len s h in
        let starts = Ended-Starts (text ++ message) b (rest, e, whole) in
        let same = same_start (text ++ message) b starts.start (omega (arith, total, k)) in
        let end : drop 1023 b ≡ 0 ∷ rest =
          ap (drop 1023) e
          ∙ drop_beyond 1023 0 (take 1023 (text ++ message)) (0 ∷ rest)
              (omega (arith, length-take 1023 (text ++ message), total, k)) in
        (
          set b 1022 feed,
          rw done (rw (remain_some 1 (omega (arith, k)), at) refl),
          (
            rest,
            set_last_but_one 1022 b feed (omega (arith, whole))
                ∙ ap (λ front. front ++ (feed ∷ drop 1023 b)) same
                ∙ ap (λ back. take 1022 (text ++ message) ++ (feed ∷ back)) end
                ∙ sym (append_assoc (take 1022 (text ++ message)) (feed ∷ []) (0 ∷ rest)),
          ),
        )

    -- There is room for the newline.
    feed-short :
        NoNul message
        → len + length message ≤ 1022
        → (buf' : List ℕ) × (fill_customer_info message true (buf, len) ≡ some buf')
          × Fed (cut_line (text ++ message)) buf'
    unfolding fill_customer_info strncat_feed
    feed-short no_nul k =
        let left = 1024 - (len + length message) in
        let remain = remain_some left (omega (arith, k)) in
        let some_left : (left == 0) ≡ false = ground (arith, k) in
        let more_left : (left == 1) ≡ false = ground (arith, k) in
        let (b, done, (rest, e, whole)) = snprintf-Ended message text buf len s h in
        let uncut : take 1023 (text ++ message) ≡ text ++ message =
          take_ge 1023 (text ++ message) (omega (arith, total, k)) in
        let b_is : b ≡ (text ++ message) ++ (0 ∷ rest) =
          e ∙ ap (λ front. front ++ (0 ∷ rest)) uncut in
        let b_split : b ≡ text ++ (message ++ (0 ∷ rest)) =
          b_is ∙ append_assoc text message (0 ∷ rest) in
        let back : drop len b ≡ message ++ (0 ∷ rest) =
          ap (drop len) b_split
          ∙ drop_beyond len 0 text (message ++ (0 ∷ rest)) (omega (arith, s.taken)) in
        let at : take (len + length message) b ≡ text ++ message =
          ap (take (len + length message)) b_is
          ∙ take_append (len + length message) (text ++ message) (0 ∷ rest) total in
        let room : leb (len + length message + 2) (length b) ≡ true = ground (arith, whole, k) in
        let cut : take 1022 (text ++ message) ≡ text ++ message =
          take_ge 1022 (text ++ message) (omega (arith, total, k)) in
        (
          memcpy b (len + length message) (feed ∷ 0 ∷ []) 2,
          rw done (
              rw (remain, some_left, more_left)
                (rw (back, c_string-NoNul message rest no_nul) (rw room refl))),
          (
            drop 2 (drop (len + length message) b),
            ap (λ front. front ++ (feed ∷ 0 ∷ drop 2 (drop (len + length message) b)))
                  (at ∙ sym cut)
                ∙ sym (
                    append_assoc (take 1022 (text ++ message)) (feed ∷ [])
                      (0 ∷ drop 2 (drop (len + length message) b))),
          ),
        )

    -- Without a newline.
    plain-long :
        1024 ≤ len + length message
        → (buf' : List ℕ) × (fill_customer_info message false (buf, len) ≡ some buf')
          × Fed (take 1023 (text ++ message)) buf'
    unfolding fill_customer_info
    plain-long k =
        let (at, last) = ends small in
        let (b, done, (rest, e, whole)) = snprintf-Ended message text buf len s h in
        let cut =
          take_append 1023 (take 1023 (text ++ message)) (0 ∷ rest)
            (omega (arith, length-take 1023 (text ++ message), total, k)) in
        (
          set b 1023 0,
          rw done (rw (remain_none small k, last) refl),
          (
            drop 1024 b,
            set_last_but_one 1023 b 0 (omega (arith, whole))
                ∙ ap (λ front. front ++ (0 ∷ drop 1024 b)) (ap (take 1023) e ∙ cut),
          ),
        )

    plain-short :
        len + length message ≤ 1023
        → (buf' : List ℕ) × (fill_customer_info message false (buf, len) ≡ some buf')
          × Fed (take 1023 (text ++ message)) buf'
    unfolding fill_customer_info
    plain-short k =
        let left = 1024 - (len + length message) in
        let remain = remain_some left (omega (arith, k)) in
        let some_left : (left == 0) ≡ false = ground (arith, k) in
        let (b, done, (rest, e, whole)) = snprintf-Ended message text buf len s h in
        elim (Bool-cases (left == 1)) [
          | inl one ↦ (b, rw done (rw (remain, some_left, one) refl), (rest, e))
          | inr more ↦ (b, rw done (rw (remain, some_left, more) refl), (rest, e))
        ]

  -- The message is added to a line of at most 1024 bytes, then a newline; what goes beyond byte 1021 is cut off.
  pub fill_customer_info-feed :
      NoNul message
      → length text ≤ 1024
      → (buf' : List ℕ) × (fill_customer_info message true (buf, len) ≡ some buf')
        × Fed (cut_line (text ++ message)) buf'
  fill_customer_info-feed no_nul h = elim (dec_le (length text) 1023) [
    | no full ↦ feed-full (omega (arith, h, full))
    | yes fits ↦ elim (dec_le (len + length message) 1022) [
      | yes short ↦ feed-short fits no_nul short
      | no long ↦ elim (dec_le 1024 (len + length message)) [
        | yes beyond ↦ feed-long fits beyond
        | no exact ↦ feed-exact fits (omega (arith, long, exact))
      ]
    ]
  ]

  -- The message is added to a line of at most 1023 bytes; what goes beyond byte 1022 is cut off.
  pub fill_customer_info-plain :
      length text ≤ 1023
      → (buf' : List ℕ) × (fill_customer_info message false (buf, len) ≡ some buf')
        × Fed (take 1023 (text ++ message)) buf'
  fill_customer_info-plain fits = elim (dec_le 1024 (len + length message)) [
    | yes long ↦ plain-long fits long
    | no short ↦ plain-short fits (omega (arith, short))
  ]

-- ===== src/Log/Write.antt =====
-- What a call of utils/uni_log.c prints and saves, against a description of its line.
use mathlib.Core.Path.{subst}
use lib_uart_comm_protocol_l.Prelude.{
  ℕ, zero, suc, ◌+◌, ◌≤◌, ◌≡◌, refl, sym, ap, ◌∙◌, arith, Bool, true, false, not, Option, some,
  List, [], ◌∷◌, ◌++◌, append_assoc, if◌then◌else◌, length, take, bind, length-append, take_append,
  Bool-cases, inl, inr, ◌&&◌, append-nil, ltb,
}
use lib_uart_comm_protocol_l.Prelude.Int.{ℤ, pos, negsuc}
use lib_uart_comm_protocol_l.NetHelper.Messages.{c_string, NoNul}
use lib_uart_comm_protocol_l.Log.{
  LogLevel, n_log_none, n_log_error, n_log_warn, n_log_track, n_log_debug, n_log_raw, n_log_all,
  LogConfig, Log, Texts, Entry, log_buffer_len, feed, Filled, level_tostring, fill, fill_log_level,
  fill_time, fill_thread_id, fill_tag, fill_function_line, fill_customer_info, is_raw, fill_prefix,
  log_assemble, save_log_2_file, log_write, log_level_valid, log, level_number,
}
use lib_uart_comm_protocol_l.Log.Lines.{Starts, Adds, fill-Adds, some-Adds, if-Adds, bind-Adds}
use lib_uart_comm_protocol_l.Log.Bytes.{Fed, cut_line, c_string-NoNul}
use lib_uart_comm_protocol_l.Log.Ending.{fill_customer_info-feed, fill_customer_info-plain}

-- The level in front of a line.
abbrev pub level_part : LogConfig → LogLevel → List ℕ
level_part config n_log_debug = level_tostring config n_log_debug ++ (32 ∷ [])
level_part config n_log_track = level_tostring config n_log_track ++ (32 ∷ [])
level_part config n_log_warn = level_tostring config n_log_warn ++ (32 ∷ [])
level_part config n_log_error = level_tostring config n_log_error ++ (32 ∷ [])
level_part config _ = []

-- All that stands in front of the message.
abbrev pub prefix : LogConfig → Texts → Entry → List ℕ
prefix config texts entry =
    if is_raw entry.level
    then []
    else level_part config entry.level
      ++ ((if config.enable_time then texts.now else [])
          ++ ((if config.enable_thread_id then texts.thread_id else [])
              ++ ((60 ∷ (entry.tags ++ (62 ∷ [])))
                  ++ (if config.enable_function_line
                      then entry.function ++ (58 ∷ (texts.line ++ (45 ∷ 62 ∷ [])))
                      else []))))

-- The line: a raw message alone, or the parts and a newline, cut off to fit a buffer of 1024 bytes.
abbrev pub log_line : LogConfig → Texts → Entry → List ℕ
log_line config texts entry =
    if is_raw entry.level
    then take 1023 entry.message
    else take 1022 (prefix config texts entry ++ entry.message) ++ (feed ∷ [])

-- What an open file gets: the line with its NUL. A descriptor above 0 is an open file.
abbrev pub file_part : ℤ → List ℕ → List ℕ
file_part (pos (suc n)) line = line ++ (0 ∷ [])
file_part _ line = []

-- The line is printed, and it goes to the file if there is one.
abbrev pub with_line : List ℕ → Log → Log
with_line line s = record s { printed = s.printed ++ line; saved = s.saved ++ file_part s.fd line }

save_log_2_file-file_part :
    (line printed saved : List ℕ) (config : LogConfig) (fd : ℤ)
    → save_log_2_file
        (line ++ (0 ∷ []))
        (record { config = config; fd = fd; printed = printed; saved = saved })
      ≡ record { config = config; fd = fd; printed = printed; saved = saved ++ file_part fd line }
unfolding save_log_2_file
save_log_2_file-file_part line printed saved config (pos zero) = rw (append-nil saved) refl
save_log_2_file-file_part line printed saved config (pos (suc n)) =
    let open_file : (ltb 0 (suc n) && ltb 0 (length (line ++ (0 ∷ [])))) ≡ true =
      ground (arith, length-append line (0 ∷ [])) in
    rw open_file refl
save_log_2_file-file_part line printed saved config (negsuc n) = rw (append-nil saved) refl

fill_log_level-Adds :
    (config : LogConfig) (level : LogLevel)
    → Adds (fill_log_level config level) (level_part config level)
unfolding fill_log_level
fill_log_level-Adds config n_log_none = some-Adds
fill_log_level-Adds config n_log_error = fill-Adds _
fill_log_level-Adds config n_log_warn = fill-Adds _
fill_log_level-Adds config n_log_track = fill-Adds _
fill_log_level-Adds config n_log_debug = fill-Adds _
fill_log_level-Adds config n_log_raw = some-Adds
fill_log_level-Adds config n_log_all = some-Adds

unless-Adds :
    (test : Bool) (step : Filled → Option Filled) (t : List ℕ)
    → Adds step t
    → Adds (λ f. if not test then some f else step f) (if test then t else [])
unless-Adds true step t h = h
unless-Adds false step t h = some-Adds

fill_prefix-Adds :
    (config : LogConfig) (texts : Texts) (entry : Entry)
    → is_raw entry.level ≡ false
    → Adds (fill_prefix config texts entry) (prefix config texts entry)
unfolding fill_prefix fill_time fill_thread_id fill_tag fill_function_line
fill_prefix-Adds config texts entry cooked = rw cooked (
    bind-Adds (fill_log_level config entry.level) _ _ _ (fill_log_level-Adds config entry.level) (
      bind-Adds (fill_time config texts) _ _ _
        (unless-Adds config.enable_time (fill texts.now) texts.now (fill-Adds texts.now))
        (bind-Adds (fill_thread_id config texts) _ _ _
          (unless-Adds config.enable_thread_id (fill texts.thread_id) texts.thread_id
            (fill-Adds texts.thread_id))
          (bind-Adds (fill_tag entry.tags) _ _ _ (fill-Adds _)
            (if-Adds config.enable_function_line (fill _) _ (fill-Adds _))))))

NoNul-append : (a b : List ℕ) → NoNul (a ++ b) → NoNul a × NoNul b
NoNul-append [] b h = (tt, h)
NoNul-append (x ∷ a) b h = let (ha, hb) = NoNul-append a b h.1 in ((h.0, ha), hb)

append-NoNul : (a b : List ℕ) → NoNul a → NoNul b → NoNul (a ++ b)
append-NoNul [] b ha hb = hb
append-NoNul (x ∷ a) b ha hb = (ha.0, append-NoNul a b ha.1 hb)

take-NoNul : (n : ℕ) (a : List ℕ) → NoNul a → NoNul (take n a)
take-NoNul zero a h = tt
take-NoNul (suc n) [] h = tt
take-NoNul (suc n) (x ∷ a) h = (h.0, take-NoNul n a h.1)

module _ (texts : Texts) (entry : Entry) (buf : List ℕ) (s : Log)
    (sized : length buf ≡ log_buffer_len)
    (fits : length (prefix s.config texts entry) ≤ log_buffer_len)
    (no_nul : NoNul (prefix s.config texts entry ++ entry.message)) where
  log_line-cooked :
      is_raw entry.level ≡ false
      → log_line s.config texts entry ≡ cut_line (prefix s.config texts entry ++ entry.message)
  log_line-cooked cooked =
      ap
        (λ raw.
          if raw
          then take 1023 entry.message
          else cut_line (prefix s.config texts entry ++ entry.message))
        cooked

  log_line-NoNul : NoNul (log_line s.config texts entry)
  log_line-NoNul =
      let (front, message) = NoNul-append (prefix s.config texts entry) entry.message no_nul in
      let all = prefix s.config texts entry ++ entry.message in
      elim (Bool-cases (is_raw entry.level)) [
        | inl raw ↦ rw raw (take-NoNul 1023 entry.message message)
        | inr cooked ↦ subst NoNul (sym (log_line-cooked cooked)) (
            append-NoNul (take 1022 all) (feed ∷ []) (take-NoNul 1022 all no_nul)
              ((λ e. omega (arith, e)), tt))
      ]

  log_assemble-log_line :
      (buf' : List ℕ) × (log_assemble s.config texts entry buf ≡ some buf')
      × Fed (log_line s.config texts entry) buf'
  unfolding log_assemble
  log_assemble-log_line =
      let start : Starts [] (buf, 0) = record { taken = refl; whole = sized; start = refl } in
      let (front, message) = NoNul-append (prefix s.config texts entry) entry.message no_nul in
      elim (Bool-cases (is_raw entry.level)) [
        | inl raw ↦ rw raw (fill_customer_info-plain entry.message [] buf 0 start (omega arith))
        | inr cooked ↦
            let (f, done, starts) =
              fill_prefix-Adds s.config texts entry cooked [] (buf, 0) start
                (omega (arith, fits)) in
            let (buf', ended, fed) =
              fill_customer_info-feed entry.message (prefix s.config texts entry) f.0 f.1 starts
                message fits in
            (
              buf',
              ap
                    (λ raw.
                      bind
                        (if not raw
                          then fill_prefix s.config texts entry (buf, 0)
                          else some (buf, 0))
                        λ f. fill_customer_info entry.message (not raw) f)
                    cooked
                  ∙ ap (λ filled. bind filled (fill_customer_info entry.message true)) done
                  ∙ ended,
              subst (λ line. Fed line buf') (sym (log_line-cooked cooked)) fed,
            )
      ]

-- For parts in front of the message of at most 1024 bytes together, with no NUL in them or in the
-- message, the macro LOG prints the line and appends it with its NUL to an open file if the
-- entry's level is at most the one set, and does nothing otherwise: a raw message alone up to 1023
-- bytes, else the parts that the configuration asks for, the message and a newline, the newline at
-- byte 1022 at the latest. No size given to snprintf is negative, and the line ends within the
-- buffer.
pub log-log_line :
    (texts : Texts) (entry : Entry) (buf : List ℕ) (s : Log)
    → length buf ≡ log_buffer_len
    → length (prefix s.config texts entry) ≤ log_buffer_len
    → NoNul (prefix s.config texts entry ++ entry.message)
    → log texts entry buf s
      ≡ some (
          if ltb (level_number s.config.set_level) (level_number entry.level)
          then s
          else with_line (log_line s.config texts entry) s)
unfolding log log_write log_level_valid
log-log_line texts entry buf s sized fits no_nul =
    let line = log_line s.config texts entry in
    let (buf', done, (rest, e)) = log_assemble-log_line texts entry buf s sized fits no_nul in
    let ended : c_string buf' ≡ some line =
      ap c_string e
      ∙ c_string-NoNul line rest (log_line-NoNul texts entry buf s sized fits no_nul) in
    let saved : take (length line + 1) buf' ≡ line ++ (0 ∷ []) =
      ap (take (length line + 1)) (e ∙ sym (append_assoc line (0 ∷ []) rest))
      ∙ take_append (length line + 1) (line ++ (0 ∷ [])) rest (sym (length-append line (0 ∷ []))) in
    let above = ltb (level_number s.config.set_level) (level_number entry.level) in
    let valid : log_level_valid entry.level s ≡ not above = ground arith in
    elim (Bool-cases above) [
      | inl quiet ↦ rw valid (rw quiet refl)
      | inr loud ↦ rw valid (
          rw loud (
            rw done (
              rw ended (
                ap
                  (λ bytes. some (save_log_2_file bytes (record s { printed = s.printed ++ line })))
                  saved
                ∙ ap some
                    (save_log_2_file-file_part line (s.printed ++ line) s.saved s.config s.fd)))))
    ]

-- ===== src/Log/Tests.antt =====
-- Runs of utils/uni_log.c.
use lib_uart_comm_protocol_l.Prelude.{
  ℕ, ◌≡◌, refl, Bool, ltb, ◌&&◌, arith, true, false, some, List, [], ◌∷◌, ◌++◌, replicate,
  length-replicate,
}
use lib_uart_comm_protocol_l.Prelude.Int.{pos}
use lib_uart_comm_protocol_l.NetHelper.Messages.{NoNul}
use lib_uart_comm_protocol_l.Log.{
  n_log_track, LogConfig, Log, Texts, Entry, level_tostring, log, log_level_valid, save_log_2_file,
  is_raw, level_number,
}
use lib_uart_comm_protocol_l.Log.Write.{prefix, log-log_line}

-- The level and the tag alone, without color, with a file.
abbrev plain : LogConfig
plain = record {
  enable_time = false;
  enable_thread_id = false;
  enable_function_line = false;
  enable_color = false;
  enable_file = true;
  set_level = n_log_track;
}

abbrev quiet : Log
quiet = record { config = plain; fd = pos 3; printed = []; saved = [] }

abbrev texts : Texts
texts = record { now = []; thread_id = []; line = [] }

-- "hi" with the tag "a"
abbrev entry : Entry
entry = record { level = n_log_track; tags = 97 ∷ []; function = []; message = 104 ∷ 105 ∷ [] }

-- "[T] <a>hi\n"
abbrev line : List ℕ
line = 91 ∷ 84 ∷ 93 ∷ 32 ∷ 60 ∷ 97 ∷ 62 ∷ 104 ∷ 105 ∷ 10 ∷ []

abbrev has_no_nul : List ℕ → Bool
has_no_nul [] = true
has_no_nul (x ∷ rest) = ltb 0 x && has_no_nul rest

has_no_nul-NoNul : (text : List ℕ) → has_no_nul text ≡ true → NoNul text
has_no_nul-NoNul [] h = tt
has_no_nul-NoNul (x ∷ rest) h =
    ((λ e. ground (arith, e, h)), has_no_nul-NoNul rest (ground (arith, h)))

entry-NoNul : NoNul (prefix plain texts entry ++ entry.message)
unfolding is_raw level_tostring
entry-NoNul = has_no_nul-NoNul (prefix plain texts entry ++ entry.message) refl

log-log_line_example :
    log texts entry (replicate 1024 0) quiet
    ≡ some (record quiet { printed = line; saved = line ++ (0 ∷ []) })
unfolding log_level_valid save_log_2_file is_raw level_number level_tostring
log-log_line_example =
    log-log_line texts entry (replicate 1024 0) quiet (length-replicate {A = ℕ} 1024 0)
      (omega arith) entry-NoNul

-- ===== src/Program/Commands.antt =====
-- main.c: the commands that are typed, and what starts the program. `none` is a read of the line without its
-- end.
use lib_uart_comm_protocol_l.Prelude.{
  ℕ, ◌+◌, ◌-◌, ◌<◌, ◌≡◌, refl, ap, arith, Bool, true, false, ◌&&◌, Option, none, some, List, [],
  ◌∷◌, ◌++◌, ◌==◌, if◌then◌else◌, leb, length, bind, set,
}
use lib_uart_comm_protocol_l.Prelude.Int.{ℤ, pos, negsuc}
use lib_uart_comm_protocol_l.NetHelper.Messages.{Message, c_string, NoNul}
use lib_uart_comm_protocol_l.Log.Bytes.{c_string-NoNul}
use lib_uart_comm_protocol_l.Channel.Speech.{
  recognize_request, pull_noise_reduction_data_request, challenge_pack_request,
}

-- What a command does: a request with its return, the list of commands, or the end of the program.
pub data Outcome : Type 0 where
  requested : ℤ → Outcome
  usage quits : Outcome

-- `strcmp` gives 0.
unfoldable pub same_text : List ℕ → List ℕ → Bool
same_text [] [] = true
same_text (x ∷ xs) (y ∷ ys) = let rest = same_text xs ys in x == y && rest
same_text _ _ = false

-- "--wakeup", "--command", "--start", "--stop", "--conn", "--help" and "--quit"
abbrev pub text_wakeup : List ℕ
text_wakeup = 45 ∷ 45 ∷ 119 ∷ 97 ∷ 107 ∷ 101 ∷ 117 ∷ 112 ∷ []

abbrev pub text_command : List ℕ
text_command = 45 ∷ 45 ∷ 99 ∷ 111 ∷ 109 ∷ 109 ∷ 97 ∷ 110 ∷ 100 ∷ []

abbrev pub text_start : List ℕ
text_start = 45 ∷ 45 ∷ 115 ∷ 116 ∷ 97 ∷ 114 ∷ 116 ∷ []

abbrev pub text_stop : List ℕ
text_stop = 45 ∷ 45 ∷ 115 ∷ 116 ∷ 111 ∷ 112 ∷ []

abbrev pub text_conn : List ℕ
text_conn = 45 ∷ 45 ∷ 99 ∷ 111 ∷ 110 ∷ 110 ∷ []

abbrev pub text_help : List ℕ
text_help = 45 ∷ 45 ∷ 104 ∷ 101 ∷ 108 ∷ 112 ∷ []

abbrev pub text_quit : List ℕ
text_quit = 45 ∷ 45 ∷ 113 ∷ 117 ∷ 105 ∷ 116 ∷ []

-- The functions that send, over `CommProtocolPacketAssembleAndSend` of a reliable packet.
module _ (send : Message → ℤ) where
  -- `_do_wakeup_mode`, `_do_cmd_mode`, `_do_pull_raw_data`, `_stop_raw_data_recv` and `_challenge`
  unfoldable pub do_wakeup_mode : Outcome
  do_wakeup_mode = requested (recognize_request send 0)

  unfoldable pub do_cmd_mode : Outcome
  do_cmd_mode = requested (recognize_request send 1)

  unfoldable pub do_pull_raw_data : Outcome
  do_pull_raw_data = requested (pull_noise_reduction_data_request send 1)

  unfoldable pub stop_raw_data_recv : Outcome
  stop_raw_data_recv = requested (pull_noise_reduction_data_request send 0)

  unfoldable pub challenge : Outcome
  challenge = requested (challenge_pack_request send 0)

  -- The comparisons of `_parse_command_line`
  unfoldable pub do_command : List ℕ → Outcome
  unfolding same_text do_wakeup_mode do_cmd_mode do_pull_raw_data stop_raw_data_recv challenge
  do_command cmd =
      if same_text cmd text_wakeup
      then do_wakeup_mode
      else if same_text cmd text_command
      then do_cmd_mode
      else if same_text cmd text_start
      then do_pull_raw_data
      else if same_text cmd text_stop
      then stop_raw_data_recv
      else if same_text cmd text_conn
      then challenge
      else if same_text cmd text_help
      then usage
      else if same_text cmd text_quit
      then quits
      else usage

  -- `_parse_command_line`, on the buffer and the bytes read
  unfoldable pub parse_command_line : List ℕ → ℕ → Option Outcome
  unfolding do_command c_string
  parse_command_line cmd len = bind (c_string (set cmd (len - 1) 0)) λ text. some (do_command text)

  -- What `main` does with what a read of the terminal gives: a read of one byte or less is passed over, and
  -- so is a failed one.
  unfoldable pub read_command : List ℕ → ℤ → Option (Option Outcome)
  unfolding parse_command_line
  read_command cmd (negsuc n) = some none
  read_command cmd (pos nread) =
      if leb nread 1
      then some none
      else bind (parse_command_line cmd nread) λ done. some (some done)

set_behind :
    (text rest : List ℕ) (x v : ℕ) → set (text ++ (x ∷ rest)) (length text) v ≡ text ++ (v ∷ rest)
set_behind [] rest x v = refl
set_behind (c ∷ text) rest x v = ap (λ more. c ∷ more) (set_behind text rest x v)

-- A line of at least one byte, which has no NUL, is the command without its newline, whatever else is in the
-- buffer.
read_command-line :
    (send : Message → ℤ) (text rest : List ℕ)
    → NoNul text
    → 0 < length text
    → read_command send (text ++ (10 ∷ rest)) (pos (length text + 1))
      ≡ some (some (do_command send text))
unfolding read_command parse_command_line
read_command-line send text rest no_nul h =
    let long : leb (length text + 1) 1 ≡ false = ground (arith, h) in
    let last : length text + 1 - 1 ≡ length text = omega arith in
    rw (long, last) (rw (set_behind text rest 10 0) (rw (c_string-NoNul text rest no_nul) refl))

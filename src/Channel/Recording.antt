-- ===== src/Channel/Recording.antt =====
-- The sound that channel/uni_asr_business.c writes to its file.
use mathlib.Core.Path.{subst}
use lib_uart_comm_protocol_l.Prelude.{
  ℕ, ◌≡◌, refl, ap, ◌∙◌, arith, true, false, Option, some, List, [], ◌∷◌, ◌++◌, ◌==◌, append-nil,
  append_assoc, bind, length,
}
use lib_uart_comm_protocol_l.Prelude.Int.{pos}
use lib_uart_comm_protocol_l.NetHelper.Messages.{
  Message, minus_one, is_positive, read_bytes, read_bytes_all,
}
use lib_uart_comm_protocol_l.Channel.Speech.{
  Speech, speech_start, payload_len, noise_reduction_raw_data, speech_handler, speech_receive,
}
use lib_uart_comm_protocol_l.Channel.Codes

-- A packet of sound.
abbrev pub sound : List ℕ → Message
sound pcm = record { cmd = Codes.noise_reduction_raw_data; payload = pcm }

-- Each of these is a whole packet of sound.
abbrev pub Whole : List (List ℕ) → Type 0
Whole [] = Unit {0}
Whole (pcm ∷ rest) = (length pcm ≡ payload_len) × Whole rest

module _ (open_file : ℕ → ℕ) where
  -- These packets arrive one after the other.
  abbrev pub sound_run : List (List ℕ) → Speech → Option Speech
  sound_run [] s = some s
  sound_run (pcm ∷ rest) s =
      bind (speech_receive open_file (sound pcm) s) λ (code, s'). sound_run rest s'

  -- The file, once it is open, and what has been written to it.
  abbrev pub recorded : List (List ℕ) → Speech
  recorded written = record { fd = open_file 0; opens = 1; written = written }

  first_lem :
      (pcm : List ℕ)
      → is_positive (open_file 0) ≡ true
      → length pcm ≡ payload_len
      → speech_receive open_file (sound pcm) speech_start ≡ some (pos 0, recorded (pcm ∷ []))
  unfolding speech_receive speech_handler noise_reduction_raw_data
  first_lem pcm ok whole =
      let all : read_bytes payload_len pcm ≡ some pcm =
        subst (λ n. read_bytes n pcm ≡ some pcm) whole (read_bytes_all pcm) in
      rw ok (rw all refl)

  next_lem :
      (pcm : List ℕ) (written : List (List ℕ))
      → is_positive (open_file 0) ≡ true
      → length pcm ≡ payload_len
      → speech_receive open_file (sound pcm) (recorded written)
        ≡ some (pos 0, recorded (written ++ (pcm ∷ [])))
  unfolding speech_receive speech_handler noise_reduction_raw_data
  next_lem pcm written ok whole =
      let all : read_bytes payload_len pcm ≡ some pcm =
        subst (λ n. read_bytes n pcm ≡ some pcm) whole (read_bytes_all pcm) in
      let opened : (open_file 0 == minus_one) ≡ false = ground (arith, ok) in
      rw opened (rw ok (rw all refl))

  more_lem :
      (packets written : List (List ℕ))
      → is_positive (open_file 0) ≡ true
      → Whole packets
      → sound_run packets (recorded written) ≡ some (recorded (written ++ packets))
  more_lem [] written ok whole = rw (append-nil written) refl
  more_lem (pcm ∷ rest) written ok whole = rw (next_lem pcm written ok whole.0) (
      more_lem rest (written ++ (pcm ∷ [])) ok whole.1
      ∙ ap (λ l. some (recorded l)) (append_assoc written (pcm ∷ []) rest))

  -- When the file can be opened with a descriptor above 0, the first packet of sound opens it, and
  -- every packet of sound, of 2048 bytes each, is written to it, in order; it is opened once.
  pub sound-recorded :
      (pcm : List ℕ) (rest : List (List ℕ))
      → is_positive (open_file 0) ≡ true
      → Whole (pcm ∷ rest)
      → sound_run (pcm ∷ rest) speech_start ≡ some (recorded (pcm ∷ rest))
  sound-recorded pcm rest ok whole =
      rw (first_lem pcm ok whole.0) (more_lem rest (pcm ∷ []) ok whole.1)

-- ===== src/Channel/Playing.antt =====
-- What channel/uni_audio_control_server.c says has been played.
use mathlib.Core.Option
use lib_uart_comm_protocol_l.Prelude.{
  ℕ, ◌%◌, ◌^◌, ◌<◌, ◌≡◌, refl, ap, ◌∙◌, arith, Bool, true, false, Option, none, some, List, [], ◌∷◌,
  ◌++◌, ◌==◌, ltb, if◌then◌else◌, bind, length,
}
use lib_uart_comm_protocol_l.Prelude.Int.{pos}
use lib_uart_comm_protocol_l.NetHelper.Messages.{
  Message, put_int, read_int-put_int, NoNul, c_string-append, c_string-put_int,
}
use lib_uart_comm_protocol_l.NetHelper.Ensures.{by_number}
use lib_uart_comm_protocol_l.Channel.Audio.{
  AudioControl, file_name_size, transmit, audio_end_callback, take_name, do_start, do_stop,
  do_pause, do_resume, do_volume, audio_handler, audio_receive,
}
use lib_uart_comm_protocol_l.Channel.Codes

-- These messages, handled one after the other.
abbrev pub audio_run : List Message → AudioControl → Option AudioControl
audio_run [] s = some s
audio_run (m ∷ rest) s = bind (audio_receive m s) λ (code, s'). audio_run rest s'

-- A message that names a file.
abbrev pub names_file : ℕ → Bool
names_file cmd = if cmd == Codes.start then true else cmd == Codes.resume

-- None of these messages names a file.
abbrev pub NoFile : List Message → Type 0
NoFile [] = Unit {0}
NoFile (m ∷ rest) = (names_file m.cmd ≡ false) × NoFile rest

-- The request to play this file.
abbrev pub start_request : ℕ → List ℕ → Message
start_request type name = record { cmd = Codes.start; payload = put_int type ++ (name ++ (0 ∷ [])) }

-- The message that this file has been played.
abbrev pub audio_end_of : ℕ → List ℕ → Message
audio_end_of type name = record {
  cmd = Codes.audio_end;
  payload = put_int type ++ (name ++ (0 ∷ []));
}

take_name_lem :
    (type : ℕ) (name : List ℕ) (s : AudioControl)
    → type < 2 ^ 32
    → NoNul name
    → length name < file_name_size
    → take_name (put_int type ++ (name ++ (0 ∷ []))) s
      ≡ some (record s { file_name = name; audio_source_type = type })
unfolding take_name
take_name_lem type name s ht text room =
    let fits : ltb (length name) file_name_size ≡ true = ground (arith, room) in
    rw (read_int-put_int type (name ++ (0 ∷ [])) ht) (rw (c_string-append name text) (rw fits refl))

-- The server once it has been asked to play this file.
abbrev pub started : ℕ → List ℕ → AudioControl → AudioControl
started type name s = record {
  file_name = name;
  audio_source_type = type;
  sent =
      s.sent
      ++ (record { cmd = Codes.start_ack; payload = put_int 0 } ∷ [])
      ++ (audio_end_of type name ∷ []);
}

pub start-answers :
    (type : ℕ) (name : List ℕ) (s : AudioControl)
    → type < 2 ^ 32
    → NoNul name
    → length name < file_name_size
    → audio_receive (start_request type name) s ≡ some (pos 0, started type name s)
unfolding audio_receive audio_handler do_start transmit audio_end_callback
start-answers type name s ht text room = rw (take_name_lem type name s ht text room) refl

-- The file is as before.
abbrev Same : AudioControl → AudioControl → Type 0
Same s t = (t.file_name ≡ s.file_name) × (t.audio_source_type ≡ s.audio_source_type)

-- A handler that leaves the file.
abbrev Quiet : Option (List ℕ → AudioControl → Option AudioControl) → Type 0
Quiet none = Unit {0}
Quiet (some handle) =
    (packet : List ℕ) (s : AudioControl)
    → (t : AudioControl) × ((handle packet s ≡ some t) × Same s t)

handler-Quiet : (cmd : ℕ) → names_file cmd ≡ false → Quiet (audio_handler cmd)
unfolding audio_handler do_stop do_pause do_volume transmit
handler-Quiet cmd h =
    by_number Quiet cmd Codes.start do_start _ (λ e. absurd (ground (arith, h, e)))
      (by_number Quiet cmd Codes.stop do_stop _ (λ e. λ packet. λ s. (_, (refl, (refl, refl))))
        (by_number Quiet cmd Codes.pause do_pause _ (λ e. λ packet. λ s. (_, (refl, (refl, refl))))
          (by_number Quiet cmd Codes.resume do_resume _ (λ e. absurd (ground (arith, h, e)))
            (by_number Quiet cmd Codes.volume do_volume _
              (λ e. λ packet. λ s. (_, (refl, (refl, refl)))) tt))))

received-Same :
    (m : Message) (s : AudioControl) (h : Option (List ℕ → AudioControl → Option AudioControl))
    → audio_handler m.cmd ≡ h
    → Quiet h
    → (t : AudioControl) × ((audio_receive m s ≡ some (pos 0, t)) × Same s t)
unfolding audio_receive
received-Same m s none e k = (s, (rw (e, audio_receive) refl, (refl, refl)))
received-Same m s (some handle) e k =
    let (t, (done, same)) = k m.payload s in
    (t, (rw (e, audio_receive) (ap (Option.map (λ s'. (pos 0, s'))) done), same))

run-Same :
    (ms : List Message) (s : AudioControl)
    → NoFile ms
    → (t : AudioControl) × ((audio_run ms s ≡ some t) × Same s t)
run-Same [] s h = (s, (refl, (refl, refl)))
run-Same (m ∷ rest) s h =
    let (t, (now, same)) = received-Same m s (audio_handler m.cmd) refl (handler-Quiet m.cmd h.0) in
    let (t', (later, same')) = run-Same rest t h.1 in
    (t', (rw now later, (same'.0 ∙ same.0, same'.1 ∙ same.1)))

-- After a start request for a file and then any messages that are no start and no resume request,
-- all of which are handled, the message at the end of the playing names that file and its type;
-- the name has no NUL and fewer than 1024 bytes.
pub start-end :
    (type : ℕ) (name : List ℕ) (ms : List Message) (s : AudioControl)
    → type < 2 ^ 32
    → NoNul name
    → length name < file_name_size
    → NoFile ms
    → (t : AudioControl) × ((audio_run (start_request type name ∷ ms) s ≡ some t)
        × ((audio_end_callback t).sent ≡ t.sent ++ (audio_end_of type name ∷ [])))
unfolding audio_end_callback transmit
start-end type name ms s ht text room quiet =
    let (t, (done, same)) = run-Same ms (started type name s) quiet in
    (
      t,
      (
        rw (start-answers type name s ht text room) done,
        ap (λ ty. t.sent ++ (audio_end_of ty t.file_name ∷ [])) same.1
            ∙ ap (λ nm. t.sent ++ (audio_end_of type nm ∷ [])) same.0,
      ),
    )

-- A request to go on with this file from this place.
abbrev pub resume_request : ℕ → ℕ → List ℕ → Message
resume_request type offset name = record {
  cmd = Codes.resume;
  payload = put_int type ++ (put_int offset ++ (name ++ (0 ∷ [])));
}

-- A resume request from an offset whose lowest byte is 0, as an offset of 0 is, is handled with
-- the empty name in place of its file's.
pub resume-forgets :
    (type offset : ℕ) (name : List ℕ) (s : AudioControl)
    → type < 2 ^ 32
    → offset % 2 ^ 8 ≡ 0
    → Option.map (λ r. r.1.file_name) (audio_receive (resume_request type offset name) s) ≡ some []
unfolding audio_receive audio_handler do_resume take_name transmit audio_end_callback
resume-forgets type offset name s ht h =
    rw (read_int-put_int type (put_int offset ++ (name ++ (0 ∷ []))) ht)
      (rw (c_string-put_int offset (name ++ (0 ∷ [])) h) refl)

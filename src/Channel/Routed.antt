-- ===== src/Channel/Routed.antt =====
-- Which part a packet of the peer goes to in channel/uni_channel.c.
use mathlib.Core.Option
use lib_uart_comm_protocol_l.Prelude.{
  ℕ, ◌≡◌, refl, arith, Bool, true, false, ◌&&◌, Option, Bool-cases, inl, inr, none, some, List, leb,
  if◌then◌else◌, bind,
}
use lib_uart_comm_protocol_l.Prelude.Int.{ℤ, pos, negsuc, eq_ℕ}
use lib_uart_comm_protocol_l.NetHelper.Messages.{Message}
use lib_uart_comm_protocol_l.NetHelper.System.{Os}
use lib_uart_comm_protocol_l.NetHelper.Server.{server_receive}
use lib_uart_comm_protocol_l.NetHelper.Ensures.{Ensures}
use lib_uart_comm_protocol_l.NetHelper.Answers.{
  is_request, server_receive-other, server_receive-request,
}
use lib_uart_comm_protocol_l.Channel.Audio.{AudioControl, audio_handler, audio_receive}
use lib_uart_comm_protocol_l.Channel.Speech.{Speech, speech_handler, speech_receive}
use lib_uart_comm_protocol_l.Channel.Routing.{Parts, event_handler}
use lib_uart_comm_protocol_l.Channel.Codes

-- The messages of the speech requests.
abbrev pub is_speech : ℕ → Bool
is_speech cmd = leb Codes.challenge_pack cmd && leb cmd Codes.pull_noise_reduction_data_request

-- What the packet's own part does with it, and no other part does anything.
abbrev pub routed : Os → (ℕ → ℕ) → Message → Parts → Option (Bool × Parts)
routed os open_file packet s =
    if is_request packet.cmd
    then Option.map (λ r. (true, record s { server = r.1 })) (server_receive os packet s.server)
    else if is_speech packet.cmd
    then Option.map (λ r. (true, record s { speech = r.1 }))
        (speech_receive open_file packet s.speech)
    else Option.map (λ r. (true, record s { audio = r.1 })) (audio_receive packet s.audio)

-- A handler's 0
ends_well :
    {A : Type 0} (o : Option A)
    → Ensures {A = ℤ × A} (λ r. r.0 ≡ pos 0) (Option.map (λ t. (pos 0, t)) o)
ends_well none = tt
ends_well (some t) = refl

-- The first part that returns 0 ends the search.
stops :
    {A B : Type 0} (o : Option (ℤ × A)) (f : A → B) (g : ℤ → A → Option B)
    → Ensures (λ r. r.0 ≡ pos 0) o
    → bind o (λ (a, x). if eq_ℕ a 0 then some (f x) else g a x) ≡ Option.map (λ r. f r.1) o
stops none f g h = refl
stops (some (a, x)) f g h = rw h refl

module _ (open_file : ℕ → ℕ) where
  speech_handler-other : (cmd : ℕ) → is_speech cmd ≡ false → speech_handler open_file cmd ≡ none
  unfolding speech_handler
  speech_handler-other cmd h = ground (arith, h)

  speech_handler-speech : (cmd : ℕ) → speech_handler open_file cmd ≡ none → is_speech cmd ≡ false
  unfolding speech_handler
  speech_handler-speech cmd h = ground (arith, h)

  speech_receive-other :
      (m : Message) (s : Speech)
      → is_speech m.cmd ≡ false
      → speech_receive open_file m s ≡ some (negsuc 0, s)
  unfolding speech_receive
  speech_receive-other m s h = rw (speech_handler-other m.cmd h, speech_receive) refl

  speech_lem :
      (m : Message) (s : Speech) (h : Option (List ℕ → Speech → Option Speech))
      → speech_handler open_file m.cmd ≡ h
      → is_speech m.cmd ≡ true
      → Ensures (λ r. r.0 ≡ pos 0) (speech_receive open_file m s)
  unfolding speech_receive
  speech_lem m s none e is = cc (speech_handler-speech m.cmd e)
  speech_lem m s (some handle) e is = rw (e, speech_receive) (ends_well (handle m.payload s))

audio_lem :
    (m : Message) (s : AudioControl) (h : Option (List ℕ → AudioControl → Option AudioControl))
    → audio_handler m.cmd ≡ h
    → Ensures (λ r. r.0 ≡ pos 0) (audio_receive m s)
unfolding audio_receive
audio_lem m s none e = rw (e, audio_receive) refl
audio_lem m s (some handle) e = rw (e, audio_receive) (ends_well (handle m.payload s))

-- The last part of the search.
last :
    {A B : Type 0} (o : Option (ℤ × A)) (f : A → B)
    → Ensures (λ r. r.0 ≡ pos 0) o
    → bind {B = Bool × B} o (λ (d, x). some (eq_ℕ d 0, f x)) ≡ Option.map (λ r. (true, f r.1)) o
last none f h = refl
last (some (d, x)) f h = rw h refl

-- For any packet and any states of the parts: the channel's search for a part is the routing by
-- the packet's number, in which a network request goes to the network server, a speech message to
-- the speech handler and any other to the playback control, no other part's state changes, and the
-- packet counts as taken.
pub event_handler-routed :
    (os : Os) (open_file : ℕ → ℕ) (packet : Message) (s : Parts)
    → event_handler os open_file packet s ≡ routed os open_file packet s
unfolding event_handler
event_handler-routed os open_file packet s = elim (Bool-cases (is_request packet.cmd)) [
  | inl is ↦ rw is (
      stops (server_receive os packet s.server) (λ server. (true, record s { server = server })) _
        (server_receive-request os packet s.server is))
  | inr isnt ↦ rw isnt (
      rw (server_receive-other os packet s.server isnt) (elim (Bool-cases (is_speech packet.cmd)) [
        | inl speech ↦ rw speech (
            stops (speech_receive open_file packet s.speech)
              (λ speech. (true, record s { speech = speech })) _
              (speech_lem open_file packet s.speech (speech_handler open_file packet.cmd) refl
                speech))
        | inr other ↦ rw other (
            rw (speech_receive-other open_file packet s.speech other) (
              last (audio_receive packet s.audio) (λ audio. record s { audio = audio })
                (audio_lem packet s.audio (audio_handler packet.cmd) refl)))
      ]))
]

-- ===== src/Channel/Tests.antt =====
-- Runs of the parts under channel/.
use lib_uart_comm_protocol_l.Prelude.{
  ℕ, ◌≡◌, refl, arith, true, some, List, [], ◌∷◌, ◌++◌, replicate,
}
use lib_uart_comm_protocol_l.NetHelper.Messages.{Message}
use lib_uart_comm_protocol_l.NetHelper.System.{Os}
use lib_uart_comm_protocol_l.Channel.Audio.{AudioControl, audio_end_callback}
use lib_uart_comm_protocol_l.Channel.Playing.{audio_run, start_request, audio_end_of, start-end}
use lib_uart_comm_protocol_l.Channel.Speech.{speech_start}
use lib_uart_comm_protocol_l.Channel.Recording.{sound_run, recorded, sound-recorded}
use lib_uart_comm_protocol_l.Channel.Routing.{Parts, event_handler}
use lib_uart_comm_protocol_l.Channel.Routed.{routed, event_handler-routed}
use lib_uart_comm_protocol_l.EventList.{highest, event_list_create}
use lib_uart_comm_protocol_l.Channel.Queue.{Channel, chnl_init}
use lib_uart_comm_protocol_l.Channel.Queued.{
  Turn, arrive, work, turns, handed, waiting, arrivals-handed,
}
use lib_uart_comm_protocol_l.Channel.Handed.{all_handed}
use lib_uart_comm_protocol_l.Channel.Codes

abbrev silent : AudioControl
silent = record { file_name = []; audio_source_type = 0; sent = [] }

abbrev stop_request : Message
stop_request = record { cmd = Codes.stop; payload = [] }

start-end_example :
    (t : AudioControl) × ((audio_run (start_request 1 (97 ∷ 98 ∷ []) ∷ stop_request ∷ []) silent
        ≡ some t)
      × ((audio_end_callback t).sent ≡ t.sent ++ (audio_end_of 1 (97 ∷ 98 ∷ []) ∷ [])))
start-end_example =
    start-end 1 (97 ∷ 98 ∷ []) (stop_request ∷ []) silent (omega arith)
      (omega arith, (omega arith, tt)) (omega arith) (refl, tt)

abbrev noise : List ℕ
noise = replicate 2048 7

sound-recorded_example :
    sound_run (λ n. 3) (noise ∷ noise ∷ []) speech_start
    ≡ some (recorded (λ n. 3) (noise ∷ noise ∷ []))
sound-recorded_example = sound-recorded (λ n. 3) noise (noise ∷ []) refl (refl, (refl, tt))

abbrev quiet_os : Os
quiet_os = record {
  answer = λ before c. record { ret = 0; errno = 0; bytes = []; ready = true; addresses = [] };
  ret_lt = λ before c. omega arith;
  errno_lt = λ before c. omega arith;
}

abbrev parts : Parts
parts = record {
  server = record { calls = []; errno = 0; sent = [] };
  speech = speech_start;
  audio = silent;
}

event_handler-routed_example :
    event_handler quiet_os (λ n. 3) stop_request parts ≡ routed quiet_os (λ n. 3) stop_request parts
event_handler-routed_example = event_handler-routed quiet_os (λ n. 3) stop_request parts

abbrev no_packets : Channel
no_packets = record {
  packets = [];
  event_handle = record {
    highest = record { items = []; count = 0 };
    medium = record { items = []; count = 0 };
    lowest = record { items = []; count = 0 };
    handles = true;
    frees = true;
    interrupts = true;
    running = true;
    effects = [];
  };
}

abbrev two_packets : List Turn
two_packets = arrive stop_request ∷ work highest ∷ arrive (start_request 1 []) ∷ []

arrivals-handed_example :
    let t = turns two_packets no_packets in
    (t.packets ≡ stop_request ∷ start_request 1 [] ∷ [])
    × (handed t.event_handle.effects ++ waiting t.event_handle.highest.items ≡ 0 ∷ 1 ∷ [])
unfolding chnl_init event_list_create
arrivals-handed_example = arrivals-handed two_packets no_packets refl

all_handed_example :
    handed
      (turns (two_packets ++ (work highest ∷ work highest ∷ [])) no_packets).event_handle.effects
    ≡ 0 ∷ 1 ∷ []
unfolding chnl_init event_list_create
all_handed_example = all_handed two_packets no_packets refl

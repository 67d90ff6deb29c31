-- ===== src/Channel/Routing.antt =====
-- channel/uni_channel.c: each packet of the peer goes to the first part that takes it.
use lib_uart_comm_protocol_l.Prelude.{ℕ, Bool, true, Option, some, bind, if◌then◌else◌}
use lib_uart_comm_protocol_l.Prelude.Int.{eq_ℕ}
use lib_uart_comm_protocol_l.NetHelper.Messages.{Message}
use lib_uart_comm_protocol_l.NetHelper.System.{Os, Server}
use lib_uart_comm_protocol_l.NetHelper.Server.{server_receive}
use lib_uart_comm_protocol_l.Channel.Audio.{AudioControl, audio_receive}
use lib_uart_comm_protocol_l.Channel.Speech.{Speech, speech_receive}

-- The states of the three parts.
pub record Parts : Type 0 where
  pub server : Server
  pub speech : Speech
  pub audio : AudioControl

module _ (os : Os) (open_file : ℕ → ℕ) where
  -- `_event_list_event_handler`; whether a part took the packet, which it only logs.
  unfoldable pub event_handler : Message → Parts → Option (Bool × Parts)
  event_handler packet s = bind (server_receive os packet s.server) λ (a, server).
      if eq_ℕ a 0
      then some (true, record s { server = server })
      else (bind (speech_receive open_file packet s.speech) λ (b, speech).
          if eq_ℕ b 0
          then some (true, record s { server = server; speech = speech })
          else (bind (audio_receive packet s.audio) λ (d, audio).
              some (eq_ℕ d 0, record { server = server; speech = speech; audio = audio })))

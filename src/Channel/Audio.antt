-- ===== src/Channel/Audio.antt =====
-- channel/uni_audio_control_server.c: which file the peer plays. `none` is a fault: a read behind the end of
-- a packet, or a name that `g_file_name` has no room for. Memory for messages is taken to be left.
use mathlib.Core.Option
use lib_uart_comm_protocol_l.Prelude.{
  ℕ, Option, none, some, List, [], ◌∷◌, ◌++◌, ◌==◌, ltb, if◌then◌else◌, bind, length,
}
use lib_uart_comm_protocol_l.Prelude.Int.{ℤ, pos}
use lib_uart_comm_protocol_l.NetHelper.Messages.{Message, put_int, read_int, c_string}
use lib_uart_comm_protocol_l.Channel.Codes

-- `g_file_name` up to its NUL, `g_audio_source_type`, and the messages sent, the oldest first.
pub record AudioControl : Type 0 where
  pub file_name : List ℕ
  pub audio_source_type : ℕ
  pub sent : List Message

-- The size of `g_file_name`
abbrev pub file_name_size : ℕ
file_name_size = 1024

-- `CommProtocolPacketAssembleAndSend`, reliable; the handlers only log what it returns.
unfoldable pub transmit : ℕ → List ℕ → AudioControl → AudioControl
transmit cmd payload s = record s {
  sent = s.sent ++ (record { cmd = cmd; payload = payload } ∷ []);
}

-- `AudioCtrlMp3PlayerAudioEndCallBack`
unfoldable pub audio_end_callback : AudioControl → AudioControl
unfolding transmit
audio_end_callback s =
    transmit Codes.audio_end (put_int s.audio_source_type ++ (s.file_name ++ (0 ∷ []))) s

-- The part of `_do_start` and of `_do_resume` under the lock: the name stands behind an
-- `AudioCtrlStartRequest`.
unfoldable pub take_name : List ℕ → AudioControl → Option AudioControl
take_name packet s = bind (read_int packet) λ (type, bytes). bind (c_string bytes) λ name.
    if ltb (length name) file_name_size
    then some (record s { file_name = name; audio_source_type = type })
    else none

-- `_do_start`
unfoldable pub do_start : List ℕ → AudioControl → Option AudioControl
unfolding take_name transmit audio_end_callback
do_start packet s =
    bind (take_name packet s)
      λ s'. some (audio_end_callback (transmit Codes.start_ack (put_int 0) s'))

-- `_do_stop`
unfoldable pub do_stop : List ℕ → AudioControl → Option AudioControl
unfolding transmit
do_stop packet s = some (transmit Codes.stop_ack (put_int 0) s)

-- `_do_pause`
unfoldable pub do_pause : List ℕ → AudioControl → Option AudioControl
unfolding transmit
do_pause packet s = some (transmit Codes.pause_ack (put_int 0) s)

-- `_do_resume`
unfoldable pub do_resume : List ℕ → AudioControl → Option AudioControl
unfolding take_name transmit audio_end_callback
do_resume packet s =
    bind (take_name packet s)
      λ s'. some (audio_end_callback (transmit Codes.resume_ack (put_int 0) s'))

-- `_do_volume`
unfoldable pub do_volume : List ℕ → AudioControl → Option AudioControl
unfolding transmit
do_volume packet s = some (transmit Codes.volume_ack (put_int 0) s)

-- The handler of a message; `none` for any other.
unfoldable pub audio_handler : ℕ → Option (List ℕ → AudioControl → Option AudioControl)
audio_handler cmd =
    if cmd == Codes.start
    then some do_start
    else if cmd == Codes.stop
    then some do_stop
    else if cmd == Codes.pause
    then some do_pause
    else if cmd == Codes.resume
    then some do_resume
    else if cmd == Codes.volume
    then some do_volume
    else none

-- `AudioCtrlSerRpcReceiveCommProtocolPacket`, which returns 0 for any message.
unfoldable pub audio_receive : Message → AudioControl → Option (ℤ × AudioControl)
unfolding audio_handler
audio_receive packet s = elim (audio_handler packet.cmd) [
  | none ↦ some (pos 0, s)
  | some handle ↦ Option.map (λ s'. (pos 0, s')) (handle packet.payload s)
]

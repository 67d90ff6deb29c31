-- ===== src/Channel/Codes.antt =====
-- The numbers of the messages of channel/uni_audio_control.h and of channel/uni_asr_business.h.
use lib_uart_comm_protocol_l.Prelude.{ℕ}

-- `AudioControlMessageType`
abbrev pub start : ℕ
start = 3000

abbrev pub start_ack : ℕ
start_ack = 3001

abbrev pub stop : ℕ
stop = 3002

abbrev pub stop_ack : ℕ
stop_ack = 3003

abbrev pub pause : ℕ
pause = 3004

abbrev pub pause_ack : ℕ
pause_ack = 3005

abbrev pub resume : ℕ
resume = 3006

abbrev pub resume_ack : ℕ
resume_ack = 3007

abbrev pub volume : ℕ
volume = 3008

abbrev pub volume_ack : ℕ
volume_ack = 3009

abbrev pub audio_end : ℕ
audio_end = 3010

-- `AsrBusMessageType`
abbrev pub challenge_pack : ℕ
challenge_pack = 1000

abbrev pub challenge_pack_ack : ℕ
challenge_pack_ack = 1001

abbrev pub noise_reduction_raw_data : ℕ
noise_reduction_raw_data = 1002

abbrev pub rasr_result : ℕ
rasr_result = 1003

abbrev pub lasr_result_request : ℕ
lasr_result_request = 1004

abbrev pub recognize_request : ℕ
recognize_request = 1005

abbrev pub pull_noise_reduction_data_request : ℕ
pull_noise_reduction_data_request = 1006

-- ===== src/Channel/Speech.antt =====
-- channel/uni_asr_business.c: the speech requests, and the sound of the peer, which is written to a file.
-- `none` is a fault: a read behind the end of a packet.
use mathlib.Core.Option
use lib_uart_comm_protocol_l.Prelude.{
  ℕ, ◌+◌, Option, none, some, List, [], ◌∷◌, ◌++◌, ◌==◌, if◌then◌else◌, bind,
}
use lib_uart_comm_protocol_l.Prelude.Int.{ℤ, pos, negsuc}
use lib_uart_comm_protocol_l.NetHelper.Messages.{
  Message, put_int, minus_one, is_positive, read_int, read_bytes, c_string,
}
use lib_uart_comm_protocol_l.Channel.Codes

-- `PAYLOAD_LEN`
abbrev pub payload_len : ℕ
payload_len = 2048

-- The static `fd` of `_noise_reduction_raw_data`, how often the file has been opened, and the bytes of
-- each write.
pub record Speech : Type 0 where
  pub fd : ℕ
  pub opens : ℕ
  pub written : List (List ℕ)

-- At the start of the program
abbrev pub speech_start : Speech
speech_start = record { fd = minus_one; opens = 0; written = [] }

-- `open_file` gives the system's answer to each opening, the first being 0.
module _ (open_file : ℕ → ℕ) where
  -- `_noise_reduction_raw_data`
  unfoldable pub noise_reduction_raw_data : List ℕ → Speech → Option Speech
  noise_reduction_raw_data packet s =
      let s' =
        if s.fd == minus_one then record s { fd = open_file s.opens; opens = s.opens + 1 } else s in
      if is_positive s'.fd
      then (bind (read_bytes payload_len packet)
          λ pcm. some (record s' { written = s'.written ++ (pcm ∷ []) }))
      else some s'

  -- `_challenge_pack`, `_challenge_pack_ack` and `_rasr_result` log a text of their own. What is logged is not
  -- modelled.
  unfoldable pub only_logged : List ℕ → Speech → Option Speech
  only_logged packet s = some s

  -- `_recognize_request` and `_pull_noise_reduction_data_request` log the `mode` of the packet. LOGT evaluates
  -- its arguments, as `main` sets the level that it needs.
  unfoldable pub mode_logged : List ℕ → Speech → Option Speech
  mode_logged packet s = bind (read_int packet) λ (mode, rest). some s

  -- `_lasr_result_request` logs the `session_id`, and `content` up to its NUL, which %s looks for behind the 64
  -- bytes as well.
  unfoldable pub lasr_result_logged : List ℕ → Speech → Option Speech
  lasr_result_logged packet s =
      bind (read_int packet) λ (session_id, rest). bind (c_string rest) λ content. some s

  -- The handler of a message; `none` for any other.
  unfoldable pub speech_handler : ℕ → Option (List ℕ → Speech → Option Speech)
  speech_handler cmd =
      if cmd == Codes.challenge_pack
      then some only_logged
      else if cmd == Codes.challenge_pack_ack
      then some only_logged
      else if cmd == Codes.noise_reduction_raw_data
      then some noise_reduction_raw_data
      else if cmd == Codes.rasr_result
      then some only_logged
      else if cmd == Codes.lasr_result_request
      then some lasr_result_logged
      else if cmd == Codes.recognize_request
      then some mode_logged
      else if cmd == Codes.pull_noise_reduction_data_request
      then some mode_logged
      else none

  -- `AsrBusReceiveCommProtocolPacket`
  unfoldable pub speech_receive : Message → Speech → Option (ℤ × Speech)
  unfolding speech_handler
  speech_receive packet s = elim (speech_handler packet.cmd) [
    | none ↦ some (negsuc 0, s)
    | some handle ↦ Option.map (λ s'. (pos 0, s')) (handle packet.payload s)
  ]

-- The functions that send, over `CommProtocolPacketAssembleAndSend` of a reliable packet.
module _ (send : Message → ℤ) where
  -- `AsrBusChallengePackRequest`
  unfoldable pub challenge_pack_request : ℕ → ℤ
  challenge_pack_request sequence =
      send (record { cmd = Codes.challenge_pack; payload = put_int sequence })

  -- `AsrBusChallengePackResponse`
  unfoldable pub challenge_pack_response : ℕ → ℤ
  challenge_pack_response sequence =
      send (record { cmd = Codes.challenge_pack_ack; payload = put_int sequence })

  -- `AsrBusLasrResultRequest`, with the 64 bytes of `content`
  unfoldable pub lasr_result_request : ℕ → List ℕ → ℤ
  lasr_result_request session content =
      send (record { cmd = Codes.lasr_result_request; payload = put_int session ++ content })

  -- `AsrBusRecognizeRequest`
  unfoldable pub recognize_request : ℕ → ℤ
  recognize_request mode = send (record { cmd = Codes.recognize_request; payload = put_int mode })

  -- `AsrBusPullNoiseReductionDataRequest`
  unfoldable pub pull_noise_reduction_data_request : ℕ → ℤ
  pull_noise_reduction_data_request mode =
      send (record { cmd = Codes.pull_noise_reduction_data_request; payload = put_int mode })

  -- `AsrBusNoiseReductionPcmDataPush`, with the `PAYLOAD_LEN` bytes of sound
  unfoldable pub noise_reduction_pcm_data_push : List ℕ → ℤ
  noise_reduction_pcm_data_push pcm =
      send (record { cmd = Codes.noise_reduction_raw_data; payload = pcm })

  -- `AsrBusOnlineAsrResultResponse`
  unfoldable pub online_asr_result_response : ℕ → ℕ → List ℕ → ℤ
  online_asr_result_response id max_id result =
      send (record { cmd = Codes.rasr_result; payload = id ∷ max_id ∷ result })

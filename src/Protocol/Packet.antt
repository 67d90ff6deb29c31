-- ===== src/Protocol/Packet.antt =====
-- Building and reading a packet, protocol/uni_communication.c: `CommProtocolPacket` is the list of
-- its bytes, and a field of the packed struct is its offset. A setter returns the changed bytes.
use lib_uart_comm_protocol_l.Prelude.{
  ℕ, suc, ◌+◌, ◌*◌, ◌/◌, ◌%◌, ◌^◌, bit_or, Bool, ◌&&◌, ◌||◌, Option, none, some, List, [], ◌∷◌,
  ◌++◌, ltb, ◌==◌, if◌then◌else◌, get_or, set, take, drop, replicate, memcpy,
}
use lib_uart_comm_protocol_l.Crc16.{crc16}
use lib_uart_comm_protocol_l.Protocol.State.{CommProtocol}

-- `sizeof(CommProtocolPacket)`
abbrev pub header_size : ℕ
header_size = 16

-- `g_sync`: "uArTcP"
abbrev pub g_sync : List ℕ
g_sync = 0x75 ∷ 0x41 ∷ 0x72 ∷ 0x54 ∷ 0x63 ∷ 0x50 ∷ []

-- The offsets of the fields.
abbrev pub sequence_at : ℕ
sequence_at = 6

abbrev pub control_at : ℕ
control_at = 7

abbrev pub cmd_at : ℕ
cmd_at = 8

abbrev pub checksum_at : ℕ
checksum_at = 10

abbrev pub payload_len_at : ℕ
payload_len_at = 12

abbrev pub payload_len_crc16_at : ℕ
payload_len_crc16_at = 14

-- The bits of the control byte: `Control`.
abbrev pub ack : ℕ
ack = 0

abbrev pub acked : ℕ
acked = 1

abbrev pub nack : ℕ
nack = 2

unfoldable pub byte2_big_endian_2_u16 : ℕ → ℕ → ℕ
byte2_big_endian_2_u16 high low = (high * 2 ^ 8 + low) % 2 ^ 16

-- The two bytes of `_u16_2_byte2_big_endian`.
abbrev pub high_byte : ℕ → ℕ
high_byte value = value / 2 ^ 8 % 2 ^ 8

abbrev pub low_byte : ℕ → ℕ
low_byte value = value % 2 ^ 8

unfoldable pub u16_2_byte2_big_endian : ℕ → List ℕ → ℕ → List ℕ
u16_2_byte2_big_endian value p at = set (set p at (high_byte value)) (suc at) (low_byte value)

-- A two-byte field.
unfoldable pub u16_at : List ℕ → ℕ → ℕ
unfolding byte2_big_endian_2_u16
u16_at p at = byte2_big_endian_2_u16 (get_or p at 0) (get_or p (suc at) 0)

-- `_bit_set` and `_is_bit_setted`
unfoldable pub bit_set : ℕ → ℕ → ℕ
bit_set control index = bit_or control (2 ^ index)

unfoldable pub is_bit_setted : ℕ → ℕ → Bool
is_bit_setted control index = control / 2 ^ index % 2 == 1

-- `_sync_set`, its loop at `i`
unfoldable pub sync_set_from : ℕ → List ℕ → List ℕ → List ℕ
sync_set_from i [] p = p
sync_set_from i (x ∷ xs) p = sync_set_from (suc i) xs (set p i x)

unfoldable pub sync_set : List ℕ → List ℕ
unfolding sync_set_from
sync_set p = sync_set_from 0 g_sync p

-- `_sequence_set`: an application's packet takes the next number, which then counts on in 8 bits.
unfoldable pub sequence_set : List ℕ → ℕ → Bool → Bool → CommProtocol → List ℕ × CommProtocol
sequence_set p seq is_ack is_nack s =
    if is_ack || is_nack
    then (set p sequence_at seq, s)
    else (set p sequence_at s.sequence, record s { sequence = (s.sequence + 1) % 2 ^ 8 })

-- `_current_sequence_get`: `sequence - 1`, in 8 bits.
unfoldable pub current_sequence_get : CommProtocol → ℕ
current_sequence_get s = (s.sequence + 255) % 2 ^ 8

set_control_bit : ℕ → List ℕ → List ℕ
unfolding bit_set
set_control_bit index p = set p control_at (bit_set (get_or p control_at 0) index)

-- `_control_set`
unfoldable pub control_set : List ℕ → Bool → Bool → Bool → List ℕ
unfolding set_control_bit
control_set p reliable is_ack is_nack =
    let a = if reliable then set_control_bit ack p else p in
    let b = if is_ack then set_control_bit acked a else a in
    if is_nack then set_control_bit nack b else b

-- `_payload_set`; `none` is the null pointer.
unfoldable pub payload_set : List ℕ → Option (List ℕ) → ℕ → List ℕ
payload_set p none len = p
payload_set p (some buf) len = if ltb 0 len then memcpy p header_size buf len else p

-- `_payload_len_crc16_set`
unfoldable pub payload_len_crc16_set : List ℕ → List ℕ
unfolding u16_2_byte2_big_endian
payload_len_crc16_set p =
    u16_2_byte2_big_endian (crc16 (take 2 (drop payload_len_at p))) p payload_len_crc16_at

-- `_payload_len_get`, `_packet_len_get`, `_payload_get`
unfoldable pub payload_len_get : List ℕ → ℕ
unfolding u16_at
payload_len_get p = u16_at p payload_len_at

unfoldable pub packet_len_get : List ℕ → ℕ
unfolding payload_len_get
packet_len_get p = (payload_len_get p + header_size) % 2 ^ 16

unfoldable pub payload_get : List ℕ → List ℕ
unfolding payload_len_get
payload_get p = take (payload_len_get p) (drop header_size p)

-- `_checksum_calc`: the CRC of the packet with its checksum field zero, stored in that field.
unfoldable pub checksum_calc : List ℕ → List ℕ
unfolding u16_2_byte2_big_endian packet_len_get
checksum_calc p =
    let z = set (set p checksum_at 0) (suc checksum_at) 0 in
    u16_2_byte2_big_endian (crc16 (take (packet_len_get z) z)) z checksum_at

-- `_checksum_valid`: it also leaves the recomputed checksum in the packet.
unfoldable pub checksum_valid : List ℕ → Bool × List ℕ
checksum_valid p = let p' = checksum_calc p in (u16_at p checksum_at == u16_at p' checksum_at, p')

-- `_is_acked_packet` and `_is_nacked_packet`
unfoldable pub is_reply : ℕ → List ℕ → Bool
unfolding u16_at is_bit_setted
is_reply index p =
    u16_at p cmd_at == 0
    && (u16_at p payload_len_at == 0 && is_bit_setted (get_or p control_at 0) index)

unfoldable pub is_acked_packet : List ℕ → Bool
unfolding is_reply
is_acked_packet p = is_reply acked p

unfoldable pub is_nacked_packet : List ℕ → Bool
unfolding is_reply
is_nacked_packet p = is_reply nack p

-- `_packet_alloc`'s `memset`: the header of the block is zeroed.
unfoldable pub zero_header : List ℕ → List ℕ
zero_header b = replicate header_size 0 ++ drop header_size b

-- `_assmeble_packet`, into an allocated packet.
unfoldable pub assemble_packet :
    List ℕ → ℕ → Option (List ℕ) → ℕ → Bool → ℕ → Bool → Bool → CommProtocol → List ℕ × CommProtocol
unfolding sync_set sequence_set control_set payload_set payload_len_crc16_set checksum_calc
assemble_packet packet cmd payload payload_len reliable seq is_ack is_nack s =
    let synced = sync_set packet in
    let (numbered, s') = sequence_set synced seq is_ack is_nack s in
    let controlled = control_set numbered reliable is_ack is_nack in
    let commanded = u16_2_byte2_big_endian cmd controlled cmd_at in
    let filled = payload_set commanded payload payload_len in
    let sized = u16_2_byte2_big_endian payload_len filled payload_len_at in
    (checksum_calc (payload_len_crc16_set sized), s')

-- ===== src/NetHelper/System.antt =====
-- The system under channel/uni_network_helper_server.c, and what the server has done so far.
use lib_uart_comm_protocol_l.Prelude.{
  ℕ, ◌^◌, ◌<◌, Bool, Option, List, [], ◌∷◌, ◌++◌, ◌==◌, if◌then◌else◌,
}
use lib_uart_comm_protocol_l.NetHelper.Messages.{Message, minus_one, put_int}

-- A call of the system, with its arguments. A `select` has its one descriptor, and a time in seconds
-- and microseconds or none.
pub data Call : Type 0 where
  socket : ℕ → ℕ → ℕ → Call
  close : ℕ → Call
  send : ℕ → List ℕ → ℕ → Call
  recv : ℕ → ℕ → ℕ → Call
  setsockopt : ℕ → ℕ → ℕ → Option (List ℕ) → ℕ → Call
  fcntl : ℕ → ℕ → ℕ → Call
  select : Bool → ℕ → Option (ℕ × ℕ) → Call
  getaddrinfo : List ℕ → ℕ → Call
  connect : ℕ → ℕ → Call
  freeaddrinfo : Call

-- An address that `getaddrinfo` finds, as `struct addrinfo`.
pub record Node : Type 0 where
  pub family : ℕ
  pub socktype : ℕ
  pub protocol : ℕ
  pub address : ℕ

-- What a call gives: the value returned, `errno` after it, and, where the call has them, the bytes
-- received, whether the descriptor is ready, and the addresses found.
pub record Answer : Type 0 where
  pub ret : ℕ
  pub errno : ℕ
  pub bytes : List ℕ
  pub ready : Bool
  pub addresses : List Node

-- The system: the answer to a call, after the calls before it, the oldest first.
pub record Os : Type 0 where
  pub answer : List Call → Call → Answer
  pub ret_lt : (before : List Call) (c : Call) → (answer before c).ret < 2 ^ 32
  pub errno_lt : (before : List Call) (c : Call) → (answer before c).errno < 2 ^ 32

-- The calls made and the messages sent, the oldest first, and `errno`.
pub record Server : Type 0 where
  pub calls : List Call
  pub errno : ℕ
  pub sent : List Message

-- The calls of `CommProtocolPacketAssembleAndSend`, reliable, are noted; the handlers only log what it returns. It
-- refuses a payload that is too long: then nothing arrives at the peer, as `Exchange.direct` has it.
unfoldable pub transmit : ℕ → List ℕ → Server → Server
transmit cmd payload s = record s {
  sent = s.sent ++ (record { cmd = cmd; payload = payload } ∷ []);
}

-- `err_code = (ret == -1 ? errno : 0)`
abbrev pub err_code : ℕ → Server → ℕ
err_code ret s = if ret == minus_one then s.errno else 0

-- The answers' structs: two or three numbers.
abbrev pub put_two : ℕ → ℕ → List ℕ
put_two a b = put_int a ++ put_int b

abbrev pub put_three : ℕ → ℕ → ℕ → List ℕ
put_three a b c = put_int a ++ (put_int b ++ put_int c)

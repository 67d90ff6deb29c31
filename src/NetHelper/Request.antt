-- ===== src/NetHelper/Request.antt =====
-- What a program asks of a socket, and what it gets when it calls its own system: the description that
-- the remote calls of channel/uni_network_helper_client.c are held against.
use lib_uart_comm_protocol_l.Prelude.{
  ℕ, ◌+◌, ◌*◌, ◌/◌, ◌%◌, ◌<◌, ◌^◌, true, false, ◌&&◌, Option, none, some, List, [], ◌∷◌, ◌++◌, ◌==◌,
  if◌then◌else◌, length,
}
use lib_uart_comm_protocol_l.NetHelper.Messages.{is_positive, put_int, NoNul}
use lib_uart_comm_protocol_l.NetHelper.System.{Call, Os, Server, err_code, put_two, put_three}
use lib_uart_comm_protocol_l.NetHelper.System
use lib_uart_comm_protocol_l.NetHelper.Server.{call, socket_connect}
use lib_uart_comm_protocol_l.NetHelper.Client.{Semaphores, Client, Link}
use lib_uart_comm_protocol_l.NetHelper.Calls
use lib_uart_comm_protocol_l.NetHelper.Codes

-- A call on a socket that is open, less the socket.
pub data Request : Type 0 where
  connect : List ℕ → ℕ → Request
  send : List ℕ → ℕ → Request
  set_sock_option : ℕ → ℕ → List ℕ → Request
  fcntl : ℕ → ℕ → Request
  select_write select_read : ℕ → Request

-- The arguments are of their types in C.
abbrev pub Fits : Request → Type 0
Fits (connect host port) = NoNul host × (port < 2 ^ 32)
Fits (send bytes flags) = (length bytes < 2 ^ 32) × (flags < 2 ^ 32)
Fits (set_sock_option level optname optval) =
    (level < 2 ^ 32) × ((optname < 2 ^ 32) × (length optval < 2 ^ 32))
Fits (fcntl cmd val) = (cmd < 2 ^ 32) × (val < 2 ^ 32)
Fits (select_write timeout) = timeout < 2 ^ 32
Fits (select_read timeout) = timeout < 2 ^ 32

-- The request as a call of the client.
abbrev pub perform :
    (u : Semaphores) → Link u.Sem → ℕ → Request → Client u.Sem → Option (ℕ × Client u.Sem)
perform u link i (connect host port) = Calls.socket_connect u link i host port
perform u link i (send bytes flags) = Calls.send u link i bytes flags
perform u link i (set_sock_option level optname optval) =
    Calls.set_sock_option u link i level optname optval
perform u link i (fcntl cmd val) = Calls.fcntl u link i cmd val
perform u link i (select_write timeout) = Calls.client_select u link true i timeout
perform u link i (select_read timeout) = Calls.client_select u link false i timeout

-- The time that a `select` of so many milliseconds waits at most.
abbrev pub timeval : ℕ → Option (ℕ × ℕ)
timeval timeout = if is_positive timeout then some (timeout / 1000, timeout % 1000 * 1000) else none

-- The request as calls of the system, on this descriptor: the value returned, and the state after them.
abbrev pub local : Os → ℕ → Request → Server → ℕ × Server
unfolding socket_connect call
local os fd (connect host port) s = socket_connect os fd host port s
local os fd (send bytes flags) s =
    let (a, s') = call os (System.send fd bytes flags) s in (a.ret, s')
local os fd (set_sock_option level optname optval) s =
    let n = length optval in
    let (a, s') =
      call os (System.setsockopt fd level optname (if n == 0 then none else some optval) n) s in
    (a.ret, s')
local os fd (fcntl cmd val) s = let (a, s') = call os (System.fcntl fd cmd val) s in (a.ret, s')
local os fd (select_write timeout) s =
    let (a, s') = call os (System.select true fd (timeval timeout)) s in
    ((if is_positive a.ret && a.ready then 1 else 0), s')
local os fd (select_read timeout) s =
    let (a, s') = call os (System.select false fd (timeval timeout)) s in
    ((if is_positive a.ret && a.ready then 1 else 0), s')

-- The request on the line, and the number of its answer.
abbrev pub cmd_of : Request → ℕ
cmd_of (connect host port) = Codes.client_conn
cmd_of (send bytes flags) = Codes.client_send
cmd_of (set_sock_option level optname optval) = Codes.client_setoption
cmd_of (fcntl cmd val) = Codes.client_fcntl
cmd_of (select_write timeout) = Codes.client_select_write
cmd_of (select_read timeout) = Codes.client_select_read

abbrev pub payload_of : ℕ → Request → List ℕ
payload_of fd (connect host port) = put_int fd ++ (put_int port ++ (host ++ (0 ∷ [])))
payload_of fd (send bytes flags) =
    put_int fd ++ (put_int flags ++ (put_int (length bytes) ++ bytes))
payload_of fd (set_sock_option level optname optval) =
    put_int fd ++ (put_int level ++ (put_int optname ++ (put_int (length optval) ++ optval)))
payload_of fd (fcntl cmd val) = put_three fd cmd val
payload_of fd (select_write timeout) = put_two fd timeout
payload_of fd (select_read timeout) = put_two fd timeout

abbrev pub answer_of : Request → ℕ
answer_of r = cmd_of r + 1

-- The two numbers behind the descriptor in the answer.
abbrev pub numbers_of : Request → ℕ × Server → ℕ × ℕ
numbers_of (connect host port) (ret, s) = (ret, err_code ret s)
numbers_of (send bytes flags) (ret, s) = (ret, err_code ret s)
numbers_of (set_sock_option level optname optval) (ret, s) = (ret, err_code ret s)
numbers_of (fcntl cmd val) (ret, s) = (ret, err_code ret s)
numbers_of (select_write timeout) (able, s) = (0, able)
numbers_of (select_read timeout) (able, s) = (able, 0)

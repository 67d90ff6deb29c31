-- ===== src/NetHelper/Server.antt =====
-- channel/uni_network_helper_server.c: each request of the peer is a call of the system's sockets, and
-- what the call gives is sent back. `none` is a fault: a read behind the end of the packet. Memory is
-- taken to be left.
use mathlib.Core.Option
use lib_uart_comm_protocol_l.Prelude.{
  ℕ, ◌*◌, ◌/◌, ◌%◌, Bool, true, false, ◌&&◌, Option, none, some, List, [], ◌∷◌, ◌++◌, ◌==◌,
  if◌then◌else◌, bind, take,
}
use lib_uart_comm_protocol_l.Prelude.Int.{ℤ, pos, negsuc}
use lib_uart_comm_protocol_l.NetHelper.Messages.{
  Message, minus_one, is_positive, put_int, read_int, read_bytes, c_string,
}
use lib_uart_comm_protocol_l.NetHelper.System.{
  Call, socket, close, send, recv, setsockopt, fcntl, select, getaddrinfo, connect, freeaddrinfo,
  Node, Answer, Os, Server, transmit, err_code, put_two, put_three,
}
use lib_uart_comm_protocol_l.NetHelper.Codes

module _ (os : Os) where
  unfoldable pub call : Call → Server → Answer × Server
  call c s =
      let a = os.answer s.calls c in (a, record s { calls = s.calls ++ (c ∷ []); errno = a.errno })

  -- `_server_do_socket_init`
  unfoldable pub do_init : List ℕ → Server → Option Server
  unfolding call transmit
  do_init packet s = bind (read_int packet) λ (session, p). bind (read_int p) λ (domain, p').
      bind (read_int p') λ (type, p''). bind (read_int p'') λ (protocol, rest).
        let (a, s') = call (socket domain type protocol) s in
        some (transmit Codes.server_init (put_three session a.ret (err_code a.ret s')) s')

  -- `_server_do_socket_close`
  unfoldable pub do_close : List ℕ → Server → Option Server
  unfolding call transmit
  do_close packet s = bind (read_int packet) λ (fd, rest).
      let (a, s') = call (close fd) s in
      some (transmit Codes.server_close (put_three fd a.ret (err_code a.ret s')) s')

  -- `_server_do_socket_send`: the system reads `size` bytes behind the struct.
  unfoldable pub do_send : List ℕ → Server → Option Server
  unfolding call transmit
  do_send packet s = bind (read_int packet) λ (fd, p). bind (read_int p) λ (flags, p').
      bind (read_int p') λ (size, bytes). bind (read_bytes size bytes) λ content.
        let (a, s') = call (send fd content flags) s in
        some (transmit Codes.server_send (put_three fd a.ret (err_code a.ret s')) s')

  -- `_server_do_socket_recv`
  unfoldable pub do_recv : List ℕ → Server → Option Server
  unfolding call transmit
  do_recv packet s = bind (read_int packet) λ (fd, p). bind (read_int p) λ (len, p').
      bind (read_int p') λ (flags, rest).
        let (a, s') = call (recv fd len flags) s in
        let bytes = if is_positive a.ret then take a.ret a.bytes else [] in
        some (
          transmit Codes.server_recv
            (put_int fd ++ (put_int a.ret ++ (put_int (err_code a.ret s') ++ bytes))) s')

  -- `_server_do_socket_setoption`
  unfoldable pub do_setoption : List ℕ → Server → Option Server
  unfolding call transmit
  do_setoption packet s = bind (read_int packet) λ (fd, p). bind (read_int p) λ (level, p').
      bind (read_int p') λ (optname, p''). bind (read_int p'') λ (optlen, bytes).
        bind (read_bytes optlen bytes) λ optval.
          let value = if optlen == 0 then none else some optval in
          let (a, s') = call (setsockopt fd level optname value optlen) s in
          some (transmit Codes.server_setoption (put_three fd a.ret (err_code a.ret s')) s')

  -- `_server_do_socket_fcntl`
  unfoldable pub do_fcntl : List ℕ → Server → Option Server
  unfolding call transmit
  do_fcntl packet s = bind (read_int packet) λ (fd, p). bind (read_int p) λ (cmd, p').
      bind (read_int p') λ (val, rest).
        let (a, s') = call (fcntl fd cmd val) s in
        some (transmit Codes.server_fcntl (put_three fd a.ret (err_code a.ret s')) s')

  -- `_server_select`, for `write` or for read, of a descriptor that an `fd_set` can hold
  unfoldable pub do_select : Bool → List ℕ → Server → Option Server
  unfolding call transmit
  do_select write packet s = bind (read_int packet) λ (fd, p). bind (read_int p) λ (timeout, rest).
      let tv = if is_positive timeout then some (timeout / 1000, timeout % 1000 * 1000) else none in
      let (a, s') = call (select write fd tv) s in
      let able = if is_positive a.ret && a.ready then 1 else 0 in
      some (
        if write
        then transmit Codes.server_select_write (put_three fd 0 able) s'
        else transmit Codes.server_select_read (put_three fd able 0) s')

  -- The loop of `_websock_connect` over the addresses: the first socket that connects.
  unfoldable pub websock_nodes : List Node → Server → ℕ × Server
  unfolding call
  websock_nodes [] s = (minus_one, s)
  websock_nodes (node ∷ rest) s =
      let (a, s') = call (socket node.family node.socktype node.protocol) s in
      let (b, s'') = call (connect a.ret node.address) s' in
      let failed = websock_nodes rest (call (close a.ret) s'').1 in
      let none_made = websock_nodes rest s' in
      if a.ret == minus_one then none_made else if b.ret == minus_one then failed else (a.ret, s'')

  -- `_websock_connect`
  unfoldable pub websock_connect : List ℕ → ℕ → Server → ℕ × Server
  unfolding call websock_nodes
  websock_connect host port s =
      let (a, s') = call (getaddrinfo host port) s in
      let (fd, s'') = websock_nodes a.addresses s' in
      if a.ret == 0 then (fd, (call freeaddrinfo s'').1) else (minus_one, s')

  -- `_server_do_socket_websock_connect`
  unfoldable pub do_websock_connect : List ℕ → Server → Option Server
  unfolding websock_connect transmit
  do_websock_connect packet s = bind (read_int packet) λ (session, p).
      bind (read_int p) λ (port, bytes). bind (c_string bytes) λ host.
        let (fd, s') = websock_connect host port s in
        some (transmit Codes.server_websock_conn (put_two session fd) s')

  -- The loop of `_server_do_socket_socket_connect` over the addresses: 0 if one connects.
  unfoldable pub connect_nodes : ℕ → List Node → Server → ℕ × Server
  unfolding call
  connect_nodes fd [] s = (minus_one, s)
  connect_nodes fd (node ∷ rest) s =
      let (a, s') = call (connect fd node.address) s in
      let failed = connect_nodes fd rest s' in if a.ret == minus_one then failed else (0, s')

  -- The connection of `_server_do_socket_socket_connect`
  unfoldable pub socket_connect : ℕ → List ℕ → ℕ → Server → ℕ × Server
  unfolding call connect_nodes
  socket_connect fd host port s =
      let (a, s') = call (getaddrinfo host port) s in
      let (ret, s'') = connect_nodes fd a.addresses s' in
      if a.ret == 0 then (ret, (call freeaddrinfo s'').1) else (minus_one, s')

  -- `_server_do_socket_socket_connect`
  unfoldable pub do_connect : List ℕ → Server → Option Server
  unfolding socket_connect transmit
  do_connect packet s = bind (read_int packet) λ (fd, p). bind (read_int p) λ (port, bytes).
      bind (c_string bytes) λ host.
        let (ret, s') = socket_connect fd host port s in
        some (transmit Codes.server_conn (put_three fd ret (err_code ret s')) s')

  -- `_server_do_network_status_check`: always connected, which is 0.
  unfoldable pub do_status_check : List ℕ → Server → Option Server
  unfolding transmit
  do_status_check packet s = some (transmit Codes.server_status_response (put_int 0) s)

  -- The handler of a request; `none` for any other message.
  unfoldable pub handler : ℕ → Option (List ℕ → Server → Option Server)
  handler cmd =
      if cmd == Codes.client_init
      then some do_init
      else if cmd == Codes.client_close
      then some do_close
      else if cmd == Codes.client_send
      then some do_send
      else if cmd == Codes.client_recv
      then some do_recv
      else if cmd == Codes.client_setoption
      then some do_setoption
      else if cmd == Codes.client_fcntl
      then some do_fcntl
      else if cmd == Codes.client_select_read
      then some (do_select false)
      else if cmd == Codes.client_select_write
      then some (do_select true)
      else if cmd == Codes.client_websock_conn
      then some do_websock_connect
      else if cmd == Codes.client_conn
      then some do_connect
      else if cmd == Codes.client_status_request
      then some do_status_check
      else none

  -- `NetHelperSerRpcReceiveCommProtocolPacket`
  unfoldable pub server_receive : Message → Server → Option (ℤ × Server)
  unfolding handler
  server_receive packet s = elim (handler packet.cmd) [
    | none ↦ some (negsuc 0, s)
    | some handle ↦ Option.map (λ s'. (pos 0, s')) (handle packet.payload s)
  ]

-- `NetHelperSerRpcNetStatusBroadCast`, with what the transmission returns.
unfoldable pub net_status_broadcast : ℤ → ℕ → Server → ℤ × Server
unfolding transmit
net_status_broadcast ret status s = (ret, transmit Codes.server_status_broadcast (put_int status) s)

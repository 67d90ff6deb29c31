-- ===== src/NetHelper/Responses.antt =====
-- What channel/uni_network_helper_client.c does with the answers of its peer: each is filed with its
-- socket, and the call that waits there goes on.
use mathlib.Core.Option
use lib_uart_comm_protocol_l.Prelude.{
  ℕ, Bool, true, false, ◌&&◌, Option, none, some, List, [], ◌∷◌, ◌++◌, ◌==◌, bind, if◌then◌else◌,
  leb, length, memcpy,
}
use lib_uart_comm_protocol_l.Prelude.Int.{ℤ, pos, negsuc}
use lib_uart_comm_protocol_l.NetHelper.Messages.{Message, read_int, read_bytes, is_positive}
use lib_uart_comm_protocol_l.NetHelper.Client.{
  Semaphores, done, is_done, SocketResource, Client, get_sem_index_by_client_msg, posted,
}
use lib_uart_comm_protocol_l.NetHelper.Codes

-- The first socket that passes a test is changed; `none` if the change is a fault.
unfoldable pub change_first :
    {S : Type 0}
    → (SocketResource S → Bool)
    → (SocketResource S → Option (SocketResource S))
    → List (SocketResource S)
    → Option (List (SocketResource S))
change_first test change [] = some []
change_first test change (q ∷ rest) = elim (test q) [
  | true ↦ Option.map (λ q'. q' ∷ rest) (change q)
  | false ↦ Option.map (λ rest'. q ∷ rest') (change_first test change rest)
]

-- Every socket that passes a test is changed.
unfoldable pub change_all :
    {S : Type 0}
    → (SocketResource S → Bool)
    → (SocketResource S → SocketResource S)
    → List (SocketResource S)
    → List (SocketResource S)
change_all test change [] = []
change_all test change (q ∷ rest) = (if test q then change q else q) ∷ change_all test change rest

abbrev pub in_session : {S : Type 0} → ℕ → SocketResource S → Bool
in_session session q = q.session_id == session

-- The test of all other answers: a socket in use with this descriptor.
abbrev pub has_fd : {S : Type 0} → ℕ → SocketResource S → Bool
has_fd fd q = is_done q.status && q.sock_fd == fd

module _ (u : Semaphores) where
  abbrev Handler : Type 0
  Handler = List ℕ → Client u.Sem → Option (Client u.Sem)

  -- A call of this kind may go on.
  unfoldable pub wake : ℕ → SocketResource u.Sem → SocketResource u.Sem
  unfolding get_sem_index_by_client_msg
  wake cmd = posted u (get_sem_index_by_client_msg cmd)

  -- The first socket with this descriptor takes an answer, and its call goes on.
  unfoldable pub file :
      ℕ
      → ℕ
      → (SocketResource u.Sem → Option (SocketResource u.Sem))
      → Client u.Sem
      → Option (Client u.Sem)
  unfolding change_first wake
  file fd cmd change c =
      Option.map (λ socks. record c { socks = socks })
        (change_first (has_fd fd) (λ q. Option.map (wake cmd) (change q)) c.socks)

  -- An answer of three numbers, the first a descriptor.
  unfoldable pub file_three : ℕ → (ℕ → ℕ → SocketResource u.Sem → SocketResource u.Sem) → Handler
  unfolding file
  file_three cmd change packet c = bind (read_int packet) λ (fd, p).
      bind (read_int p)
        λ (a, p'). bind (read_int p') λ (b, rest). file fd cmd (λ q. some (change a b q)) c

  -- `_client_do_socket_init_response`
  unfoldable pub init_response : Handler
  unfolding change_first wake
  init_response packet c = bind (read_int packet) λ (session, p). bind (read_int p) λ (fd, p').
      bind (read_int p') λ (err, rest).
        Option.map (λ socks. record c { socks = socks })
          (change_first (in_session session)
            (λ q. some (
              wake Codes.client_init
                (record q { sock_fd = fd; sock_init_errno = err; status = done })))
            c.socks)

  -- `_client_do_socket_websock_connect_response`
  unfoldable pub websock_connect_response : Handler
  unfolding change_first wake
  websock_connect_response packet c = bind (read_int packet) λ (session, p).
      bind (read_int p) λ (fd, rest).
        Option.map (λ socks. record c { socks = socks })
          (change_first (in_session session)
            (λ q. some (wake Codes.client_websock_conn (record q { sock_fd = fd; status = done })))
            c.socks)

  -- `_client_do_socket_send_response`
  unfoldable pub send_response : Handler
  unfolding file_three
  send_response =
      file_three Codes.client_send (λ ret err q. record q { send_len = ret; send_errno = err })

  -- The caller's memory after `memcpy`; `none` if the bytes do not fit or are not in the packet.
  unfoldable pub received : ℕ → List ℕ → List ℕ → Option (List ℕ)
  received len bytes mem =
      if is_positive len
      then (bind (read_bytes len bytes)
          λ content. if leb len (length mem) then some (memcpy mem 0 content len) else none)
      else some mem

  -- `_client_do_socket_recv_response`
  unfoldable pub recv_response : Handler
  unfolding file received
  recv_response packet c = bind (read_int packet) λ (fd, p). bind (read_int p) λ (len, p').
      bind (read_int p') λ (err, bytes).
        file fd Codes.client_recv
          (λ q.
            Option.map (λ mem. record q { recv_len = len; recv_errno = err; recv_buf = mem })
              (received len bytes q.recv_buf))
          c

  -- `_client_do_socket_writeable_response` and `_client_do_socket_readable_response`
  unfoldable pub writeable_response : Handler
  unfolding file_three
  writeable_response = file_three Codes.client_select_write (λ r w q. record q { writeable = w })

  unfoldable pub readable_response : Handler
  unfolding file_three
  readable_response = file_three Codes.client_select_read (λ r w q. record q { readable = r })

  -- `_client_do_socket_connect_response`
  unfoldable pub connect_response : Handler
  unfolding file_three
  connect_response =
      file_three Codes.client_conn (λ ret err q. record q { conn_ret = ret; conn_errno = err })

  -- `_client_do_socket_setsockoption_response`: the error goes to another field than the others'.
  unfoldable pub setsockoption_response : Handler
  unfolding file_three
  setsockoption_response =
      file_three Codes.client_setoption
        (λ ret err q. record q { socksetopt_ret = ret; sock_init_errno = err })

  -- `_client_do_socket_fcntl_response`
  unfoldable pub fcntl_response : Handler
  unfolding file_three
  fcntl_response =
      file_three Codes.client_fcntl (λ ret err q. record q { fnctl_ret = ret; fnctl_errno = err })

  -- `_client_do_socket_close_response`: its loop does not stop at the first socket.
  unfoldable pub close_response : Handler
  unfolding change_all wake
  close_response packet c = bind (read_int packet) λ (fd, p). bind (read_int p) λ (ret, p').
      bind (read_int p') λ (err, rest). some (record c {
        socks =
            change_all (has_fd fd)
              (λ q. wake Codes.client_close (record q { close_ret = ret; close_errno = err }))
              c.socks;
      })

  -- `_client_do_net_status_response` and `_client_do_net_status_broadcast`
  unfoldable pub net_status_response : Handler
  net_status_response packet c = bind (read_int packet) λ (status, rest).
      some (record c { net_status = status; net_status_sem = u.post c.net_status_sem })

  unfoldable pub net_status_broadcast : Handler
  net_status_broadcast packet c = bind (read_int packet) λ (status, rest). some (record c {
    net_status = status;
    changes = if c.hook then c.changes ++ (status ∷ []) else c.changes;
  })

  unfoldable pub response : ℕ → Option Handler
  response cmd =
      if cmd == Codes.server_init
      then some init_response
      else if cmd == Codes.server_send
      then some send_response
      else if cmd == Codes.server_recv
      then some recv_response
      else if cmd == Codes.server_select_write
      then some writeable_response
      else if cmd == Codes.server_select_read
      then some readable_response
      else if cmd == Codes.server_websock_conn
      then some websock_connect_response
      else if cmd == Codes.server_conn
      then some connect_response
      else if cmd == Codes.server_setoption
      then some setsockoption_response
      else if cmd == Codes.server_fcntl
      then some fcntl_response
      else if cmd == Codes.server_close
      then some close_response
      else if cmd == Codes.server_status_response
      then some net_status_response
      else if cmd == Codes.server_status_broadcast
      then some net_status_broadcast
      else none

  -- `NetHelperCliRpcReceiveCommProtocolPacket`
  unfoldable pub client_receive : Message → Client u.Sem → Option (ℤ × Client u.Sem)
  unfolding response
  client_receive packet c = elim (response packet.cmd) [
    | none ↦ some (negsuc 0, c)
    | some handle ↦ Option.map (λ c'. (pos 0, c')) (handle packet.payload c)
  ]

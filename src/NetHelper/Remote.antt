-- ===== src/NetHelper/Remote.antt =====
-- A remote call is the peer's call: the client of channel/uni_network_helper_client.c against the server
-- of channel/uni_network_helper_server.c, over a line that loses nothing.
use lib_uart_comm_protocol_l.Prelude.{
  length, ℕ, ◌<◌, ◌^◌, ◌≡◌, refl, true, false, some, [], ◌∷◌, ◌++◌,
}
use lib_uart_comm_protocol_l.Prelude.Int.{pos}
use lib_uart_comm_protocol_l.NetHelper.Messages.{
  put_int, read_int-put_int, read_int-put_int_last, read_bytes_all, c_string-append,
}
use lib_uart_comm_protocol_l.NetHelper.System.{Os, Server, transmit, put_three}
use lib_uart_comm_protocol_l.NetHelper.Server.{
  server_receive, handler, do_fcntl, do_send, do_setoption, do_select, do_connect, call,
  socket_connect,
}
use lib_uart_comm_protocol_l.NetHelper.Client.{SocketResource, Client}
use lib_uart_comm_protocol_l.NetHelper.Calls
use lib_uart_comm_protocol_l.NetHelper.Exchange.{served_by}
use lib_uart_comm_protocol_l.NetHelper.Request.{
  Request, connect, send, set_sock_option, fcntl, select_write, select_read, Fits, local, cmd_of,
  payload_of, answer_of, numbers_of,
}
use lib_uart_comm_protocol_l.NetHelper.Codes

-- The server after it has answered.
abbrev pub answered : Os → ℕ → Request → Server → Server
unfolding transmit
answered os fd r s =
    let n = numbers_of r (local os fd r s) in
    transmit (answer_of r) (put_three fd n.0 n.1) (local os fd r s).1

pub serves :
    (os : Os) (fd : ℕ) (r : Request) (s : Server)
    → fd < 2 ^ 32
    → Fits r
    → server_receive os (record { cmd = cmd_of r; payload = payload_of fd r }) s
      ≡ some (pos 0, answered os fd r s)
unfolding handler do_fcntl do_send do_setoption do_select do_connect call transmit socket_connect
serves os fd (connect host port) s hf h =
    served_by os Codes.client_conn _ (do_connect os) s (answered os fd (connect host port) s) refl (
      rw (read_int-put_int fd (put_int port ++ (host ++ (0 ∷ []))) hf)
        (rw (read_int-put_int port (host ++ (0 ∷ [])) h.1) (rw (c_string-append host h.0) refl)))
serves os fd (send bytes flags) s hf h =
    served_by os Codes.client_send _ (do_send os) s (answered os fd (send bytes flags) s) refl (
      rw (read_int-put_int fd (put_int flags ++ (put_int (length bytes) ++ bytes)) hf) (
        rw (read_int-put_int flags (put_int (length bytes) ++ bytes) h.1)
          (rw (read_int-put_int (length bytes) bytes h.0) (rw (read_bytes_all bytes) refl))))
serves os fd (set_sock_option level optname optval) s hf h =
    served_by os Codes.client_setoption _ (do_setoption os) s
      (answered os fd (set_sock_option level optname optval) s) refl
      (rw
        (read_int-put_int fd
          (put_int level ++ (put_int optname ++ (put_int (length optval) ++ optval))) hf)
        (rw (read_int-put_int level (put_int optname ++ (put_int (length optval) ++ optval)) h.0) (
          rw (read_int-put_int optname (put_int (length optval) ++ optval) h.1.0) (
            rw (read_int-put_int (length optval) optval h.1.1) (rw (read_bytes_all optval) refl)))))
serves os fd (fcntl cmd val) s hf h =
    served_by os Codes.client_fcntl _ (do_fcntl os) s (answered os fd (fcntl cmd val) s) refl (
      rw (read_int-put_int fd (put_int cmd ++ put_int val) hf)
        (rw (read_int-put_int cmd (put_int val) h.0) (rw (read_int-put_int_last val h.1) refl)))
serves os fd (select_write timeout) s hf h =
    served_by os Codes.client_select_write _ (do_select os true) s
      (answered os fd (select_write timeout) s) refl
      (rw (read_int-put_int fd (put_int timeout) hf) (rw (read_int-put_int_last timeout h) refl))
serves os fd (select_read timeout) s hf h =
    served_by os Codes.client_select_read _ (do_select os false) s
      (answered os fd (select_read timeout) s) refl
      (rw (read_int-put_int fd (put_int timeout) hf) (rw (read_int-put_int_last timeout h) refl))

-- The answer's place in the client, and what the call reads there.
abbrev change_of : {S : Type 0} → Request → ℕ → ℕ → SocketResource S → SocketResource S
change_of (connect host port) a b p = record p { conn_ret = a; conn_errno = b }
change_of (send bytes flags) a b p = record p { send_len = a; send_errno = b }
change_of (set_sock_option level optname optval) a b p = record p {
  socksetopt_ret = a;
  sock_init_errno = b;
}
change_of (fcntl cmd val) a b p = record p { fnctl_ret = a; fnctl_errno = b }
change_of (select_write timeout) a b p = record p { writeable = b }
change_of (select_read timeout) a b p = record p { readable = a }

abbrev result_of : {S : Type 0} → Request → SocketResource S → ℕ
result_of (connect host port) p = p.conn_ret
result_of (send bytes flags) p = p.send_len
result_of (set_sock_option level optname optval) p = p.socksetopt_ret
result_of (fcntl cmd val) p = p.fnctl_ret
result_of (select_write timeout) p = p.writeable
result_of (select_read timeout) p = p.readable

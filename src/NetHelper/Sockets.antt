-- ===== src/NetHelper/Sockets.antt =====
-- Opening a socket of channel/uni_network_helper_client.c is opening one at the peer, whose side is
-- channel/uni_network_helper_server.c.
use lib_uart_comm_protocol_l.Prelude.{
  ℕ, ◌+◌, ◌^◌, ◌<◌, ◌≡◌, refl, sym, ap, arith, some, [], ◌∷◌, ◌++◌, append-nil, ◌==◌, if◌then◌else◌,
  ◌≤◌, length,
}
use lib_uart_comm_protocol_l.NetHelper.Messages.{
  minus_one, put_int, read_int-put_int, length-put_int,
}
use lib_uart_comm_protocol_l.NetHelper.System.{Os, Server, transmit, err_code, put_three}
use lib_uart_comm_protocol_l.NetHelper.System
use lib_uart_comm_protocol_l.NetHelper.Server.{handler, do_init, call}
use lib_uart_comm_protocol_l.NetHelper.Client.{Semaphores, SocketResource, Client, get_fds_idx}
use lib_uart_comm_protocol_l.NetHelper.Calls.{socket_init}
use lib_uart_comm_protocol_l.NetHelper.Responses.{response, init_response}
use lib_uart_comm_protocol_l.NetHelper.Owner.{First, First-lt-length}
use lib_uart_comm_protocol_l.NetHelper.Exchange.{
  max_payload, direct, served_by, received_by, arrives, length-put_three,
}
use lib_uart_comm_protocol_l.NetHelper.Sessions.{idle_at, ids, UpTo, taken}
use lib_uart_comm_protocol_l.NetHelper.Opening.{with_socket, in_use, opened, init_filed, begins}
use lib_uart_comm_protocol_l.NetHelper.Codes

module _ (u : Semaphores) where
  -- Opening a socket with an idle one in the table, over a line that loses nothing: the call
  -- returns the index of the first idle socket, which is then in use for the new session with the
  -- descriptor and the error that the peer's socket() gave, and nothing else of the table changes;
  -- no session of the table is later than the last one begun, and fewer than 2^32 - 2 have begun.
  pub socket_init-opens :
      (os : Os) (s : Server) (c : Client u.Sem) (i domain type protocol : ℕ)
      → get_fds_idx c.socks ≡ some i
      → UpTo c.session_id (ids c.socks)
      → c.session_id + 1 < minus_one
      → (domain < 2 ^ 32) × ((type < 2 ^ 32) × (protocol < 2 ^ 32))
      → s.sent ≡ []
      → let a = os.answer s.calls (System.socket domain type protocol) in
        (q : SocketResource u.Sem) × (First idle_at c.socks i q
          × (socket_init u (direct u os s) domain type protocol c
              ≡ some (
                i,
                with_socket u i
                    (in_use u Codes.client_init
                      (c.session_id + 1)
                      a.ret
                      (if a.ret == minus_one then a.errno else 0)
                      q)
                    (c.session_id + 1)
                    c,
              )))
  unfolding socket_init handler do_init call transmit response
  socket_init-opens os s c i domain type protocol e up small args none_sent =
      let n = c.session_id + 1 in
      let (q, (f, (take, own))) = begins u c i e up small in
      let hn : n < 2 ^ 32 = omega (arith, small) in
      let m = System.socket domain type protocol in
      let a = os.answer s.calls m in
      let err = if a.ret == minus_one then a.errno else 0 in
      let payload = put_int n ++ (put_int domain ++ (put_int type ++ put_int protocol)) in
      let s' = transmit Codes.server_init (put_three n a.ret err) (call os m s).1 in
      let served = served_by os Codes.client_init payload (do_init os) s s' refl (
        rw (read_int-put_int n (put_int domain ++ (put_int type ++ put_int protocol)) hn) (
          rw (read_int-put_int domain (put_int type ++ put_int protocol) args.0) (
            rw (read_int-put_int type (put_int protocol) args.1.0) (
              rw (sym (append-nil (put_int protocol)))
                (rw (read_int-put_int protocol [] args.1.1) refl))))) in
      let small_err : err < 2 ^ 32 = ground (arith, os.errno_lt s.calls m) in
      let short : length payload ≤ max_payload = omega (
        arith,
        length-put_int n (put_three domain type protocol),
        length-put_three domain type protocol,
      ) in
      let brief : length (put_three n a.ret err) ≤ max_payload =
        omega (arith, length-put_three n a.ret err) in
      let filed =
        received_by u Codes.server_init (put_three n a.ret err) (init_response u) (taken i q n c) _
          refl (init_filed u c i n a.ret err q own hn (os.ret_lt s.calls m) small_err) in
      (
        q,
        (
          f,
          opened u (direct u os s) Codes.client_init n i _ c q _ take
              (First-lt-length idle_at c.socks i q f)
              (arrives u os s s' _ _ (taken i q n c) _ served
                (ap
                  (λ l.
                    l ++ (record { cmd = Codes.server_init; payload = put_three n a.ret err } ∷ []))
                  none_sent)
                filed short brief),
        ),
      )

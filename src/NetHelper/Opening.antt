-- ===== src/NetHelper/Opening.antt =====
-- A socket that the client of channel/uni_network_helper_client.c opens, against the server of
-- channel/uni_network_helper_server.c.
use lib_uart_comm_protocol_l.Prelude.{
  ℕ, ◌+◌, ◌%◌, ◌^◌, ◌<◌, ◌≡◌, refl, sym, ap, ◌∙◌, arith, some, List, [], ◌++◌, append-nil, length,
  set, set-set, get_elem?-set_self,
}
use lib_uart_comm_protocol_l.NetHelper.Messages.{minus_one, put_int, read_int-put_int}
use lib_uart_comm_protocol_l.NetHelper.System.{put_two, put_three}
use lib_uart_comm_protocol_l.NetHelper.Client.{
  Semaphores, done, waiting, SocketResource, Client, Link, get_fds_idx, take_socket,
}
use lib_uart_comm_protocol_l.NetHelper.Calls.{open_session}
use lib_uart_comm_protocol_l.NetHelper.Responses.{
  wake, init_response, websock_connect_response, in_session,
}
use lib_uart_comm_protocol_l.NetHelper.Owner.{
  First, First-lt-length, change_first-First, woken, sem_wait_lem,
}
use lib_uart_comm_protocol_l.NetHelper.Sessions.{
  idle_at, get_fds_idx-First, ids, UpTo, begun, taken, take_socket_lem,
}
use lib_uart_comm_protocol_l.NetHelper.Codes

module _ (u : Semaphores) where
  -- The client once socket `i` is `q`, and session `n` has begun.
  abbrev pub with_socket : ℕ → SocketResource u.Sem → ℕ → Client u.Sem → Client u.Sem
  with_socket i q n c = record c { session_id = n; socks = set c.socks i q }

  -- Socket `q` in use for session `n`, once its opening has been woken and has gone on.
  abbrev pub in_use : ℕ → ℕ → ℕ → ℕ → SocketResource u.Sem → SocketResource u.Sem
  in_use cmd n fd err q =
      woken u cmd (record q { session_id = n; status = done; sock_fd = fd; sock_init_errno = err })

  pub opened :
      (link : Link u.Sem) (cmd n i : ℕ) (payload : ℕ → List ℕ) (c : Client u.Sem)
      (q p : SocketResource u.Sem)
      → take_socket c ≡ some (i, taken i q n c)
      → i < length c.socks
      → link (record { cmd = cmd; payload = payload n }) (taken i q n c)
        ≡ some (0, with_socket i (wake u cmd p) n (taken i q n c))
      → open_session u link cmd payload c ≡ some (i, with_socket i (woken u cmd p) n c)
  unfolding open_session
  opened link cmd n i payload c q p e lt answered =
      let one =
        set-set c.socks i (record q { session_id = n; status = waiting; sock_fd = minus_one }) in
      let t = with_socket i (wake u cmd p) n c in
      let same : with_socket i (wake u cmd p) n (taken i q n c) ≡ t =
        ap (λ l. record c { session_id = n; socks = l }) (one (wake u cmd p)) in
      rw (e, open_session)
        (rw (answered ∙ ap (λ t. some (0, t)) same) (
          rw (sem_wait_lem u cmd i t p (get_elem?-set_self c.socks i (wake u cmd p) lt)) (
            ap (λ l. some (i, record c { session_id = n; socks = l }))
              (set-set c.socks i (wake u cmd p) (woken u cmd p)))))

  pub init_filed :
      (c : Client u.Sem) (i n fd err : ℕ) (q : SocketResource u.Sem)
      → First
          (in_session n)
          (taken i q n c).socks
          i
          (record q { session_id = n; status = waiting; sock_fd = minus_one })
      → n < 2 ^ 32
      → fd < 2 ^ 32
      → err < 2 ^ 32
      → init_response u (put_three n fd err) (taken i q n c)
        ≡ some (
            with_socket i
              (wake u Codes.client_init
                (record q { session_id = n; status = done; sock_fd = fd; sock_init_errno = err }))
              n
              (taken i q n c))
  unfolding init_response
  init_filed c i n fd err q f hn hf he = rw (read_int-put_int n (put_int fd ++ put_int err) hn) (
      rw (read_int-put_int fd (put_int err) hf) (
        rw (sym (append-nil (put_int err))) (
          rw (read_int-put_int err [] he) (
            rw (
              change_first-First (in_session n) (taken i q n c).socks i _ _
                (λ p. some (
                  wake u Codes.client_init
                    (record p { sock_fd = fd; sock_init_errno = err; status = done })))
                f refl)))))

  pub websock_filed :
      (c : Client u.Sem) (i n fd : ℕ) (q : SocketResource u.Sem)
      → First
          (in_session n)
          (taken i q n c).socks
          i
          (record q { session_id = n; status = waiting; sock_fd = minus_one })
      → n < 2 ^ 32
      → fd < 2 ^ 32
      → websock_connect_response u (put_two n fd) (taken i q n c)
        ≡ some (
            with_socket i
              (wake u Codes.client_websock_conn
                (record q { session_id = n; status = done; sock_fd = fd }))
              n
              (taken i q n c))
  unfolding websock_connect_response
  websock_filed c i n fd q f hn hf = rw (read_int-put_int n (put_int fd) hn) (
      rw (sym (append-nil (put_int fd))) (
        rw (read_int-put_int fd [] hf) (
          rw (
            change_first-First (in_session n) (taken i q n c).socks i _ _
              (λ p.
                some (wake u Codes.client_websock_conn (record p { sock_fd = fd; status = done })))
              f refl))))

  -- Socket `i` is taken for a new session, whose number no other socket has.
  pub begins :
      (c : Client u.Sem) (i : ℕ)
      → get_fds_idx c.socks ≡ some i
      → UpTo c.session_id (ids c.socks)
      → c.session_id + 1 < minus_one
      → (q : SocketResource u.Sem) × (First idle_at c.socks i q
          × ((take_socket c ≡ some (i, taken i q (c.session_id + 1) c))
              × First
                  (in_session (c.session_id + 1))
                  (taken i q (c.session_id + 1) c).socks
                  i
                  (record q {
                    session_id = c.session_id + 1;
                    status = waiting;
                    sock_fd = minus_one;
                  })))
  begins c i e up small =
      let (q, f) = get_fds_idx-First c.socks i e in
      let same : (c.session_id + 1) % 2 ^ 32 ≡ c.session_id + 1 = omega (arith, small) in
      (
        q,
        (
          f,
          (
            take_socket_lem c i q e f ∙ ap (λ n. some (i, taken i q n c)) same,
            begun c.socks i c.session_id _ up small (First-lt-length idle_at c.socks i q f) refl,
          ),
        ),
      )

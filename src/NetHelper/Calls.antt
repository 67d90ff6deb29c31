-- ===== src/NetHelper/Calls.antt =====
-- The calls of channel/uni_network_helper_client.c, which stand for the calls of the system's sockets.
-- `link` is the transmission of the request, with all that arrives until the wait for the answer ends.
use lib_uart_comm_protocol_l.Prelude.{
  ℕ, Bool, Option, none, some, List, [], ◌∷◌, ◌++◌, ◌==◌, bind, if◌then◌else◌, get_elem?, length,
}
use lib_uart_comm_protocol_l.NetHelper.Messages.{minus_one, put_int}
use lib_uart_comm_protocol_l.NetHelper.System.{put_two, put_three}
use lib_uart_comm_protocol_l.NetHelper.Client.{
  Semaphores, idle, Client, get_sem_index_by_client_msg, update, take_socket, release, Link,
  sem_wait, transact,
}
use lib_uart_comm_protocol_l.NetHelper.Codes

module _ (u : Semaphores) (link : Link u.Sem) where
  abbrev Action : Type 0
  Action = Client u.Sem → Option (ℕ × Client u.Sem)

  -- A socket taken for a session, whose request is then sent; the result is the socket's index.
  unfoldable pub open_session : ℕ → (ℕ → List ℕ) → Action
  unfolding take_socket release sem_wait get_sem_index_by_client_msg
  open_session cmd payload c = elim (take_socket c) [
    | none ↦ some (minus_one, c)
    | some (i, c') ↦
        bind (link (record { cmd = cmd; payload = payload c'.session_id }) c') λ (ret, c'').
          if ret == 0
          then (bind (sem_wait u i (get_sem_index_by_client_msg cmd) c'') λ t. some (i, t))
          else some (minus_one, release i c'')
  ]

  -- `NetHelperCliRpcSocketInit`
  unfoldable pub socket_init : ℕ → ℕ → ℕ → Action
  unfolding open_session
  socket_init domain type protocol =
      open_session Codes.client_init
        (λ session. put_int session ++ (put_int domain ++ (put_int type ++ put_int protocol)))

  -- `NetHelperCliRpcConnectWebSocket`
  unfoldable pub connect_web_socket : List ℕ → ℕ → Action
  unfolding open_session
  connect_web_socket host port =
      open_session Codes.client_websock_conn
        (λ session. put_int session ++ (put_int port ++ (host ++ (0 ∷ []))))

  -- `NetHelperCliRpcSocketClose`: the socket is idle again once the answer is there.
  unfoldable pub socket_close : ℕ → Action
  unfolding transact update
  socket_close i c = bind (get_elem? c.socks i) λ q.
      bind (link (record { cmd = Codes.client_close; payload = put_int q.sock_fd }) c) λ (ret, c').
        if ret == 0
        then (bind (sem_wait u i (get_sem_index_by_client_msg Codes.client_close) c') λ c''.
            let t = update i (λ p. record p { status = idle; sock_fd = minus_one }) c'' in
            bind (get_elem? t.socks i) λ p. some (p.close_ret, t))
        else some (minus_one, c')

  -- `NetHelperCliRpcSocketConnect`
  unfoldable pub socket_connect : ℕ → List ℕ → ℕ → Action
  unfolding transact
  socket_connect i host port c = bind (get_elem? c.socks i) λ q.
      transact u link Codes.client_conn (put_int q.sock_fd ++ (put_int port ++ (host ++ (0 ∷ []))))
        i (λ p. p.conn_ret) c

  -- `NetHelperCliRpcSend`; the list holds the `size` bytes.
  unfoldable pub send : ℕ → List ℕ → ℕ → Action
  unfolding transact
  send i bytes flags c = bind (get_elem? c.socks i) λ q.
      transact u link Codes.client_send
        (put_int q.sock_fd ++ (put_int flags ++ (put_int (length bytes) ++ bytes))) i
        (λ p. p.send_len) c

  -- `NetHelperCliRpcRecv`; the list is the caller's memory of `len` bytes.
  unfoldable pub recv : ℕ → List ℕ → ℕ → Action
  unfolding transact update
  recv i mem flags c = bind (get_elem? c.socks i) λ q.
      transact u link Codes.client_recv (put_three q.sock_fd (length mem) flags) i (λ p. p.recv_len)
        (update i (λ p. record p { recv_buf = mem }) c)

  -- `NetHelperCliRpcSetSockOption`
  unfoldable pub set_sock_option : ℕ → ℕ → ℕ → List ℕ → Action
  unfolding transact
  set_sock_option i level optname optval c = bind (get_elem? c.socks i) λ q.
      transact u link Codes.client_setoption
        (put_int q.sock_fd
          ++ (put_int level ++ (put_int optname ++ (put_int (length optval) ++ optval))))
        i (λ p. p.socksetopt_ret) c

  -- `NetHelperCliRpcFcntl`
  unfoldable pub fcntl : ℕ → ℕ → ℕ → Action
  unfolding transact
  fcntl i cmd val c =
      bind (get_elem? c.socks i)
        λ q. transact u link Codes.client_fcntl (put_three q.sock_fd cmd val) i (λ p. p.fnctl_ret) c

  -- `_client_select`, with `NetHelperCliRpcSelectWrite` and `NetHelperCliRpcSelectRead`
  unfoldable pub client_select : Bool → ℕ → ℕ → Action
  unfolding transact
  client_select write i timeout c = bind (get_elem? c.socks i) λ q.
      let payload = put_two q.sock_fd timeout in
      if write
      then transact u link Codes.client_select_write payload i (λ p. p.writeable) c
      else transact u link Codes.client_select_read payload i (λ p. p.readable) c

  -- `NetHelperCliRpcNetStatusGet`
  unfoldable pub net_status_get : Action
  net_status_get c =
      bind (link (record { cmd = Codes.client_status_request; payload = [] }) c) λ (ret, c').
        if ret == 0
        then (bind (u.wait c'.net_status_sem)
            λ s. some (c'.net_status, record c' { net_status_sem = s }))
        else some (minus_one, c')

  -- `NetHelperCliRpcSoftApEnable`: it posts its semaphore, which nothing creates.
  unfoldable pub softap_enable : Action
  softap_enable c =
      bind (link (record { cmd = Codes.softap_enable_request; payload = [] }) c) λ (ret, c').
        if ret == 0
        then (bind c'.softap_sem
            λ s. some (c'.softap_enable_ret, record c' { softap_sem = some (u.post s) }))
        else some (minus_one, c')

-- `NetHelperCliRpcNetStatusChangeHookRegister`: whether the hook is not null.
unfoldable pub hook_register : {S : Type 0} → Bool → Client S → Client S
hook_register hook c = record c { hook = hook }

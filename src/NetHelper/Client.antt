-- ===== src/NetHelper/Client.antt =====
-- The client of channel/uni_network_helper_client.c: the table `g_socks` of its sockets, and how a call
-- waits for its answer. `none` is a fault, or a wait that never ends.
use mathlib.Core.Option
use lib_uart_comm_protocol_l.Prelude.{
  ℕ, suc, ◌+◌, ◌-◌, ◌/◌, ◌%◌, ◌^◌, ◌≡◌, Bool, true, false, Option, none, some, List, [], ◌∷◌, ◌==◌,
  bind, if◌then◌else◌, get_elem?, set, replicate,
}
use lib_uart_comm_protocol_l.NetHelper.Messages.{Message, minus_one}
use lib_uart_comm_protocol_l.NetHelper.Codes

-- The platform's counting semaphores, `uni_sem_t`: `wait` is `none` while it blocks.
pub record Semaphores : Type 1 where
  pub Sem : Type 0
  pub fresh : Sem
  pub post : Sem → Sem
  pub wait : Sem → Option Sem
  pub wait-fresh : wait fresh ≡ none
  pub wait-post : (s : Sem) → wait (post s) ≡ some s

-- `SockStatus`
pub data SockStatus : Type 0 where
  idle waiting done : SockStatus

abbrev pub is_idle : SockStatus → Bool
is_idle idle = true
is_idle waiting = false
is_idle done = false

abbrev pub is_done : SockStatus → Bool
is_done idle = false
is_done waiting = false
is_done done = true

-- `SocketResource`. `recv_buf` is the caller's memory that it points at. The semaphores are by index.
pub record SocketResource (S : Type 0) : Type 0 where
  pub sem : ℕ → S
  pub session_id : ℕ
  pub status : SockStatus
  pub sock_fd : ℕ
  pub sock_init_errno : ℕ
  pub recv_buf : List ℕ
  pub recv_len : ℕ
  pub recv_errno : ℕ
  pub send_len : ℕ
  pub send_errno : ℕ
  pub readable : ℕ
  pub writeable : ℕ
  pub conn_ret : ℕ
  pub conn_errno : ℕ
  pub socksetopt_ret : ℕ
  pub socksetopt_errno : ℕ
  pub fnctl_ret : ℕ
  pub fnctl_errno : ℕ
  pub close_ret : ℕ
  pub close_errno : ℕ

-- The globals. `session_id` is the static of `_get_current_session_id`, `hook` says whether a status
-- hook is registered, and `changes` are the calls of it, the oldest first.
pub record Client (S : Type 0) : Type 0 where
  pub socks : List (SocketResource S)
  pub session_id : ℕ
  pub net_status_sem : S
  pub net_status : ℕ
  pub hook : Bool
  pub changes : List ℕ
  pub softap_sem : Option S
  pub softap_enable_ret : ℕ

-- `FD_SIZE_MAX`
abbrev pub fd_size_max : ℕ
fd_size_max = 8

-- `_get_sem_index_by_client_msg`
unfoldable pub get_sem_index_by_client_msg : ℕ → ℕ
get_sem_index_by_client_msg type = (type - Codes.base) / 2

-- A socket that is not in use, less its semaphores: zero, but for what `_sock_fds_init` sets.
unfoldable pub unused : {S : Type 0} → S → SocketResource S
unused s = record {
  sem = λ k. s;
  session_id = minus_one;
  status = idle;
  sock_fd = minus_one;
  sock_init_errno = 0;
  recv_buf = [];
  recv_len = 0;
  recv_errno = 0;
  send_len = 0;
  send_errno = 0;
  readable = 0;
  writeable = 0;
  conn_ret = 0;
  conn_errno = 0;
  socksetopt_ret = 0;
  socksetopt_errno = 0;
  fnctl_ret = 0;
  fnctl_errno = 0;
  close_ret = 0;
  close_errno = 0;
}

-- `_get_fds_idx`: the first idle socket.
unfoldable pub get_fds_idx : {S : Type 0} → List (SocketResource S) → Option ℕ
get_fds_idx [] = none
get_fds_idx (q ∷ rest) = if is_idle q.status then some 0 else Option.map suc (get_fds_idx rest)

-- `_get_current_session_id`
unfoldable pub current_session_id : {S : Type 0} → Client S → ℕ × Client S
current_session_id c = let n = (c.session_id + 1) % 2 ^ 32 in (n, record c { session_id = n })

-- A socket of the table is changed.
unfoldable pub update :
    {S : Type 0} → ℕ → (SocketResource S → SocketResource S) → Client S → Client S
update i f c = elim (get_elem? c.socks i) [
  | none ↦ c
  | some q ↦ record c { socks = set c.socks i (f q) }
]

-- The part of `NetHelperCliRpcSocketInit` and `NetHelperCliRpcConnectWebSocket` under the lock: an idle
-- socket is taken for a new session.
unfoldable pub take_socket : {S : Type 0} → Client S → Option (ℕ × Client S)
unfolding get_fds_idx current_session_id update
take_socket c =
    Option.map
      (λ i.
        let (n, c') = current_session_id c in
        (i, update i (λ q. record q { session_id = n; status = waiting; sock_fd = minus_one }) c'))
      (get_fds_idx c.socks)

-- After a failed transmission the socket is idle again.
unfoldable pub release : {S : Type 0} → ℕ → Client S → Client S
unfolding update
release i = update i (λ q. record q { status = idle })

-- What `CommProtocolPacketAssembleAndSend` of a message returns, and the state when the wait after it
-- ends: the answers that arrive meanwhile are in it.
abbrev pub Link : Type 0 → Type 0
Link S = Message → Client S → Option (ℕ × Client S)

module _ (u : Semaphores) where
  abbrev pub posted : ℕ → SocketResource u.Sem → SocketResource u.Sem
  posted k q = record q { sem = λ j. if j == k then u.post (q.sem j) else q.sem j }

  -- `uni_sem_wait` on a semaphore of a socket
  unfoldable pub sem_wait : ℕ → ℕ → Client u.Sem → Option (Client u.Sem)
  sem_wait i k c = bind (get_elem? c.socks i) λ q. bind (u.wait (q.sem k)) λ s.
      some
        (record c { socks = set c.socks i (record q { sem = λ j. if j == k then s else q.sem j }) })

  -- The end of each call: the request is sent, its answer awaited, and read from the socket.
  unfoldable pub transact :
      Link u.Sem
      → ℕ
      → List ℕ
      → ℕ
      → (SocketResource u.Sem → ℕ)
      → Client u.Sem
      → Option (ℕ × Client u.Sem)
  unfolding sem_wait get_sem_index_by_client_msg
  transact link cmd payload i result c =
      bind (link (record { cmd = cmd; payload = payload }) c) λ (ret, c').
        if ret == 0
        then (bind (sem_wait i (get_sem_index_by_client_msg cmd) c')
            λ c''. bind (get_elem? c''.socks i) λ q. some (result q, c''))
        else some (minus_one, c')

-- `NetHelperCliInit` with `_sock_fds_init`, at the start of the program
unfoldable pub net_helper_cli_init : (u : Semaphores) → Client u.Sem
unfolding unused
net_helper_cli_init u = record {
  socks = replicate fd_size_max (unused u.fresh);
  session_id = 0;
  net_status_sem = u.fresh;
  net_status = 3;
  hook = false;
  changes = [];
  softap_sem = none;
  softap_enable_ret = 0;
}

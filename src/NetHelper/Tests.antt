-- ===== src/NetHelper/Tests.antt =====
-- Runs of channel/uni_network_helper_client.c against channel/uni_network_helper_server.c.
use mathlib.Core.Option
use lib_uart_comm_protocol_l.Prelude.{
  ℕ, zero, suc, ◌<◌, ◌^◌, ◌≡◌, refl, arith, inl, inr, true, false, Option, none, some, [], ◌∷◌,
  get_elem?, set,
}
use lib_uart_comm_protocol_l.NetHelper.System.{Call, Node, Answer, Os, Server}
use lib_uart_comm_protocol_l.NetHelper.System
use lib_uart_comm_protocol_l.NetHelper.Server.{server_receive}
use lib_uart_comm_protocol_l.NetHelper.Client.{
  Semaphores, done, SocketResource, Client, unused, net_helper_cli_init, take_socket, get_fds_idx,
  current_session_id, update,
}
use lib_uart_comm_protocol_l.NetHelper.Calls.{socket_init, recv, socket_close}
use lib_uart_comm_protocol_l.NetHelper.Owner.{First}
use lib_uart_comm_protocol_l.NetHelper.Exchange.{direct, at_rest}
use lib_uart_comm_protocol_l.NetHelper.Request.{Request, send}
use lib_uart_comm_protocol_l.NetHelper.Ensures.{Ensures}
use lib_uart_comm_protocol_l.NetHelper.Answers.{Handled, request-answered}
use lib_uart_comm_protocol_l.NetHelper.Sessions.{idle_at, taken}
use lib_uart_comm_protocol_l.NetHelper.Opening.{with_socket, in_use}
use lib_uart_comm_protocol_l.NetHelper.Sockets.{socket_init-opens}
use lib_uart_comm_protocol_l.NetHelper.Reading.{recv-receives}
use lib_uart_comm_protocol_l.NetHelper.Closing.{closed, socket_close-closes}
use lib_uart_comm_protocol_l.NetHelper.Table.{take, start, then_step, IsTable, one_session}
use lib_uart_comm_protocol_l.NetHelper.Limits.{sem_index-own, refusing, socket_init-refused}
use lib_uart_comm_protocol_l.NetHelper.Reuse.{close-open}
use lib_uart_comm_protocol_l.NetHelper.Messages.{minus_one}
use lib_uart_comm_protocol_l.NetHelper.Client.{get_sem_index_by_client_msg}
use lib_uart_comm_protocol_l.Prelude.{◌≢◌, ◌≤◌}
use lib_uart_comm_protocol_l.NetHelper.Codes

abbrev wait_one : ℕ → Option ℕ
wait_one zero = none
wait_one (suc n) = some n

-- A semaphore is its count.
abbrev counted : Semaphores
counted = record {
  Sem = ℕ;
  fresh = 0;
  post = suc;
  wait = wait_one;
  wait-fresh = refl;
  wait-post = λ s. refl;
}

-- Two bytes are there to receive, and the only address found takes the connection.
abbrev reply : Call → ℕ
reply (System.socket domain type protocol) = 5
reply (System.recv fd len flags) = 2
reply (System.send fd bytes flags) = 3
reply _ = 0

reply_lt : (c : Call) → reply c < 2 ^ 32
reply_lt (System.socket domain type protocol) = omega arith
reply_lt (System.recv fd len flags) = omega arith
reply_lt (System.send fd bytes flags) = omega arith
reply_lt (System.close fd) = omega arith
reply_lt (System.setsockopt fd level optname optval optlen) = omega arith
reply_lt (System.fcntl fd cmd val) = omega arith
reply_lt (System.select write fd timeout) = omega arith
reply_lt (System.getaddrinfo host port) = omega arith
reply_lt (System.connect fd address) = omega arith
reply_lt System.freeaddrinfo = omega arith

abbrev small_os : Os
small_os = record {
  answer = λ before c. record {
    ret = reply c;
    errno = 11;
    bytes = 104 ∷ 105 ∷ [];
    ready = true;
    addresses = record { family = 2; socktype = 1; protocol = 6; address = 9 } ∷ [];
  };
  ret_lt = λ before c. reply_lt c;
  errno_lt = λ before c. omega arith;
}

-- Socket 0 is in use at the peer as 5.
abbrev open_socket : SocketResource ℕ
open_socket = record (unused 0) { session_id = 1; status = done; sock_fd = 5 }

abbrev one_open : Client ℕ
one_open = record {
  socks = open_socket ∷ unused 0 ∷ [];
  session_id = 1;
  net_status_sem = 0;
  net_status = 3;
  hook = false;
  changes = [];
  softap_sem = none;
  softap_enable_ret = 0;
}

abbrev hello : Request
hello = send (104 ∷ 101 ∷ 121 ∷ []) 0

request-answered_example :
    Ensures
      (Handled (record { cmd = 2002; payload = 5 ∷ 0 ∷ 0 ∷ 0 ∷ [] }) (at_rest [] 0))
      (server_receive small_os (record { cmd = 2002; payload = 5 ∷ 0 ∷ 0 ∷ 0 ∷ [] }) (at_rest [] 0))
request-answered_example =
    request-answered small_os (record { cmd = 2002; payload = 5 ∷ 0 ∷ 0 ∷ 0 ∷ [] }) (at_rest [] 0)

socket_init-opens_example :
    (q : SocketResource ℕ) × (First idle_at one_open.socks 1 q
      × (socket_init counted (direct counted small_os (at_rest [] 0)) 2 1 6 one_open
          ≡ some (1, with_socket counted 1 (in_use counted Codes.client_init 2 5 0 q) 2 one_open)))
unfolding get_fds_idx unused
socket_init-opens_example =
    socket_init-opens counted small_os (at_rest [] 0) one_open 1 2 1 6 refl
      (inl (omega arith), (inr refl, tt)) (omega arith) (omega arith, (omega arith, omega arith))
      refl

recv-receives_example :
    (c' : Client ℕ) × ((recv counted
          (direct counted small_os (at_rest [] 0))
          0
          (0 ∷ 0 ∷ 0 ∷ [])
          0
          one_open
        ≡ some (2, c'))
      × (Option.map (λ p. p.recv_buf) (get_elem? c'.socks 0) ≡ some (104 ∷ 105 ∷ 0 ∷ [])))
recv-receives_example =
    recv-receives counted small_os (at_rest [] 0) one_open 0 open_socket (0 ∷ 0 ∷ 0 ∷ []) 0
      (refl, refl) (omega arith) (omega arith, omega arith) refl (inr (omega arith, omega arith))

socket_close-closes_example :
    socket_close counted (direct counted small_os (at_rest [] 0)) 0 one_open
    ≡ some (0, record one_open { socks = set one_open.socks 0 (closed counted 0 0 open_socket) })
unfolding unused
socket_close-closes_example =
    socket_close-closes counted small_os (at_rest [] 0) one_open 0 open_socket
      (refl, (refl, (refl, tt))) (omega arith) refl

abbrev fresh_client : Client ℕ
fresh_client = net_helper_cli_init counted

one_session_example : IsTable (taken 0 (unused 0) 1 fresh_client)
unfolding net_helper_cli_init take_socket get_fds_idx current_session_id update unused
one_session_example = one_session counted (then_step start (take 0 (omega arith) refl))

sem_index-own_example :
    (get_sem_index_by_client_msg 2004 < get_sem_index_by_client_msg Codes.count)
    × (get_sem_index_by_client_msg 2004 ≢ get_sem_index_by_client_msg 2006)
sem_index-own_example = sem_index-own 2004 2006 refl refl (omega arith)

socket_init-refused_example :
    (c' : Client ℕ) × ((socket_init counted (refusing 1) 2 1 6 one_open ≡ some (minus_one, c'))
      × (get_fds_idx c'.socks ≡ get_fds_idx one_open.socks))
socket_init-refused_example = socket_init-refused counted 1 2 1 6 one_open refl

close-open_example :
    (ret : ℕ) × ((c' : Client ℕ) × ((j : ℕ) × ((c'' : Client ℕ) × ((socket_close counted
                (direct counted small_os (at_rest [] 0))
                0
                one_open
              ≡ some (ret, c'))
            × ((socket_init counted (direct counted small_os (at_rest [] 7)) 2 1 6 c'
                  ≡ some (j, c''))
                × (j ≤ 0))))))
unfolding unused
close-open_example =
    close-open counted small_os (at_rest [] 0) (at_rest [] 7) one_open 0 2 1 6 open_socket
      (refl, (refl, (refl, tt))) (omega arith) (inl (omega arith), (inr refl, tt)) (omega arith)
      (omega arith, (omega arith, omega arith)) (refl, refl)

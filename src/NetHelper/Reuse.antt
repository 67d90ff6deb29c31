-- ===== src/NetHelper/Reuse.antt =====
-- A socket of channel/uni_network_helper_client.c that has been closed can be opened again.
use lib_uart_comm_protocol_l.Prelude.{
  ℕ, ◌+◌, ◌^◌, ◌<◌, ◌≤◌, ◌≡◌, refl, some, [], ◌==◌, if◌then◌else◌, set,
}
use lib_uart_comm_protocol_l.NetHelper.Messages.{minus_one}
use lib_uart_comm_protocol_l.NetHelper.System.{Os, Server}
use lib_uart_comm_protocol_l.NetHelper.System
use lib_uart_comm_protocol_l.NetHelper.Client.{Semaphores, SocketResource, Client}
use lib_uart_comm_protocol_l.NetHelper.Calls.{socket_init, socket_close}
use lib_uart_comm_protocol_l.NetHelper.Responses.{has_fd}
use lib_uart_comm_protocol_l.NetHelper.Owner.{First-lt-length, get_elem?-First}
use lib_uart_comm_protocol_l.NetHelper.Exchange.{direct}
use lib_uart_comm_protocol_l.NetHelper.Sessions.{ids, UpTo}
use lib_uart_comm_protocol_l.NetHelper.Kept.{ids-set_same}
use lib_uart_comm_protocol_l.NetHelper.Sockets.{socket_init-opens}
use lib_uart_comm_protocol_l.NetHelper.Closing.{Alone, Alone-First, closed, socket_close-closes}
use lib_uart_comm_protocol_l.NetHelper.Limits.{idle_again}

-- After a close of a socket that alone is in use with its descriptor, an opening ends and gets a
-- socket, at its index or before it, over a line that loses nothing and whatever other requests
-- the server has answered meanwhile; no session of the table is later than the last one begun, and
-- fewer than 2^32 - 2 have begun.
pub close-open :
    (u : Semaphores) (os : Os) (s s' : Server) (c : Client u.Sem) (i domain type protocol : ℕ)
    (q : SocketResource u.Sem)
    → Alone (has_fd q.sock_fd) c.socks i q
    → q.sock_fd < 2 ^ 32
    → UpTo c.session_id (ids c.socks)
    → c.session_id + 1 < minus_one
    → (domain < 2 ^ 32) × ((type < 2 ^ 32) × (protocol < 2 ^ 32))
    → (s.sent ≡ []) × (s'.sent ≡ [])
    → (ret : ℕ) × ((c' : Client u.Sem) × ((j : ℕ) × ((c'' : Client u.Sem) × ((socket_close u
                  (direct u os s)
                  i
                  c
                ≡ some (ret, c'))
              × ((socket_init u (direct u os s') domain type protocol c' ≡ some (j, c''))
                  × (j ≤ i))))))
close-open u os s s' c i domain type protocol q o hf up small args none_sent =
    let a = os.answer s.calls (System.close q.sock_fd) in
    let z = closed u a.ret (if a.ret == minus_one then a.errno else 0) q in
    let c' = record c { socks = set c.socks i z } in
    let own = Alone-First (has_fd q.sock_fd) c.socks i q o in
    let lt = First-lt-length (has_fd q.sock_fd) c.socks i q own in
    let same =
      ids-set_same c.socks i q z (get_elem?-First (has_fd q.sock_fd) c.socks i q own) refl in
    let up' : UpTo c'.session_id (ids c'.socks) = rw same up in
    let (j, (found, le)) = idle_again c.socks i z lt refl in
    let (p, (f, opened)) =
      socket_init-opens u os s' c' j domain type protocol found up' small args none_sent.1 in
    (a.ret, (c', (j, (_, (socket_close-closes u os s c i q o hf none_sent.0, (opened, le))))))

-- ===== src/NetHelper/Closing.antt =====
-- Closing a socket through channel/uni_network_helper_client.c is closing it at the peer, whose side is
-- channel/uni_network_helper_server.c.
use lib_uart_comm_protocol_l.Prelude.{
  ℕ, ◌^◌, ◌<◌, ◌≡◌, refl, sym, ap, arith, Bool, true, false, some, List, [], ◌∷◌, ◌++◌, zero, suc,
  append-nil, ◌==◌, if◌then◌else◌, set, set-set, get_elem?-set_self, length,
}
use lib_uart_comm_protocol_l.NetHelper.Messages.{
  minus_one, put_int, read_int-put_int, read_int-put_int_last, length-put_int,
}
use lib_uart_comm_protocol_l.NetHelper.System.{Os, Server, transmit, err_code, put_two, put_three}
use lib_uart_comm_protocol_l.NetHelper.System
use lib_uart_comm_protocol_l.NetHelper.Server.{handler, do_close, call}
use lib_uart_comm_protocol_l.NetHelper.Client.{Semaphores, idle, SocketResource, Client, update}
use lib_uart_comm_protocol_l.NetHelper.Calls.{socket_close}
use lib_uart_comm_protocol_l.NetHelper.Responses.{
  response, wake, close_response, has_fd, change_all,
}
use lib_uart_comm_protocol_l.NetHelper.Owner.{
  First, get_elem?-First, First-lt-length, woken, sem_wait_lem,
}
use lib_uart_comm_protocol_l.NetHelper.Exchange.{
  direct, served_by, received_by, arrives, length-put_three,
}
use lib_uart_comm_protocol_l.NetHelper.Codes

-- No socket passes the test.
abbrev pub Without : {S : Type 0} → (SocketResource S → Bool) → List (SocketResource S) → Type 0
Without test [] = Unit {0}
Without test (p ∷ rest) = (test p ≡ false) × Without test rest

-- Socket `i` is `q`, which passes the test, and no other socket does.
abbrev pub Alone :
    {S : Type 0}
    → (SocketResource S → Bool)
    → List (SocketResource S)
    → ℕ
    → SocketResource S
    → Type 0
Alone test [] i q = ⊥
Alone test (p ∷ rest) zero q = (p ≡ q) × ((test q ≡ true) × Without test rest)
Alone test (p ∷ rest) (suc i) q = (test p ≡ false) × Alone test rest i q

module _ {S : Type 0} (test : SocketResource S → Bool) where
  pub Alone-First :
      (socks : List (SocketResource S)) (i : ℕ) (q : SocketResource S)
      → Alone test socks i q
      → First test socks i q
  Alone-First [] i q a = absurd a
  Alone-First (p ∷ rest) zero q a = (a.0, a.1.0)
  Alone-First (p ∷ rest) (suc i) q a = (a.0, Alone-First rest i q a.1)

  change_all-Without :
      (change : SocketResource S → SocketResource S) (socks : List (SocketResource S))
      → Without test socks
      → change_all test change socks ≡ socks
  unfolding change_all
  change_all-Without change [] w = refl
  change_all-Without change (p ∷ rest) w =
      rw w.0 (ap (λ l. p ∷ l) (change_all-Without change rest w.1))

  change_all-Alone :
      (change : SocketResource S → SocketResource S) (socks : List (SocketResource S)) (i : ℕ)
      (q : SocketResource S)
      → Alone test socks i q
      → change_all test change socks ≡ set socks i (change q)
  unfolding change_all
  change_all-Alone change [] i q a = absurd a
  change_all-Alone change (p ∷ rest) zero q a =
      rw a.0 (rw a.1.0 (ap (λ l. change q ∷ l) (change_all-Without change rest a.1.1)))
  change_all-Alone change (p ∷ rest) (suc i) q a =
      rw a.0 (ap (λ l. p ∷ l) (change_all-Alone change rest i q a.1))

module _ (u : Semaphores) where
  -- The socket once its close has been answered, and once the call has gone on.
  abbrev answered_close : ℕ → ℕ → SocketResource u.Sem → SocketResource u.Sem
  answered_close ret err q = record q { close_ret = ret; close_errno = err }

  abbrev pub closed : ℕ → ℕ → SocketResource u.Sem → SocketResource u.Sem
  closed ret err q = record (woken u Codes.client_close (answered_close ret err q)) {
    status = idle;
    sock_fd = minus_one;
  }

  close_filed :
      (c : Client u.Sem) (i ret err : ℕ) (q : SocketResource u.Sem)
      → Alone (has_fd q.sock_fd) c.socks i q
      → q.sock_fd < 2 ^ 32
      → ret < 2 ^ 32
      → err < 2 ^ 32
      → close_response u (put_three q.sock_fd ret err) c
        ≡ some (record c {
          socks = set c.socks i (wake u Codes.client_close (answered_close ret err q));
        })
  unfolding close_response
  close_filed c i ret err q o hf hr he =
      rw (read_int-put_int q.sock_fd (put_int ret ++ put_int err) hf) (
        rw (read_int-put_int ret (put_int err) hr) (
          rw (sym (append-nil (put_int err))) (
            rw (read_int-put_int err [] he) (
              ap (λ l. some (record c { socks = l }))
                (change_all-Alone (has_fd q.sock_fd)
                  (λ p. wake u Codes.client_close (answered_close ret err p)) c.socks i q o)))))

  -- Closing a socket that alone is in use with its descriptor, over a line that loses nothing,
  -- ends and returns what the peer's close() gave; the socket is then idle without a descriptor,
  -- with that result and its error, and nothing else of the table changes.
  pub socket_close-closes :
      (os : Os) (s : Server) (c : Client u.Sem) (i : ℕ) (q : SocketResource u.Sem)
      → Alone (has_fd q.sock_fd) c.socks i q
      → q.sock_fd < 2 ^ 32
      → s.sent ≡ []
      → let a = os.answer s.calls (System.close q.sock_fd) in
        socket_close u (direct u os s) i c
        ≡ some (
          a.ret,
          record c {
            socks = set c.socks i (closed a.ret (if a.ret == minus_one then a.errno else 0) q);
          },
        )
  unfolding socket_close update handler do_close call transmit response
  socket_close-closes os s c i q o hf none_sent =
      let m = System.close q.sock_fd in
      let a = os.answer s.calls m in
      let err = if a.ret == minus_one then a.errno else 0 in
      let own = Alone-First (has_fd q.sock_fd) c.socks i q o in
      let lt = First-lt-length (has_fd q.sock_fd) c.socks i q own in
      let request = put_int q.sock_fd in
      let packet = put_three q.sock_fd a.ret err in
      let s' = transmit Codes.server_close packet (call os m s).1 in
      let served =
        served_by os Codes.client_close request (do_close os) s s' refl
          (rw (read_int-put_int_last q.sock_fd hf) refl) in
      let small_err : err < 2 ^ 32 = ground (arith, os.errno_lt s.calls m) in
      let p = answered_close a.ret err q in
      let t = record c { socks = set c.socks i (wake u Codes.client_close p) } in
      let filed =
        received_by u Codes.server_close packet (close_response u) c t refl
          (close_filed c i a.ret err q o hf (os.ret_lt s.calls m) small_err) in
      let arrived =
        arrives u os s s' _ _ c t served
          (ap (λ l. l ++ (record { cmd = Codes.server_close; payload = packet } ∷ [])) none_sent)
          filed
          (omega (arith, length-put_int q.sock_fd [], ap length (append-nil (put_int q.sock_fd))))
          (omega (arith, length-put_three q.sock_fd a.ret err)) in
      let w = woken u Codes.client_close p in
      let z = closed a.ret err q in
      let there = get_elem?-set_self c.socks i (wake u Codes.client_close p) lt in
      let one = set-set c.socks i (wake u Codes.client_close p) w in
      let two = set-set c.socks i w z in
      rw (get_elem?-First (has_fd q.sock_fd) c.socks i q own) (
        rw arrived (
          rw (sem_wait_lem u Codes.client_close i t p there) (
            rw one (
              rw (get_elem?-set_self c.socks i w lt, update)
                (rw two (rw (get_elem?-set_self c.socks i z lt) refl))))))

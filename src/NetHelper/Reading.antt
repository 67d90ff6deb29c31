-- ===== src/NetHelper/Reading.antt =====
-- Receiving from a socket through channel/uni_network_helper_client.c is receiving at the peer, whose side
-- is channel/uni_network_helper_server.c.
use mathlib.Core.Option
use mathlib.Core.Path.{subst}
use lib_uart_comm_protocol_l.Prelude.{
  ℕ, ◌^◌, ◌<◌, ◌≡◌, refl, sym, ap, arith, Bool, true, false, none, some, List, [], ◌∷◌, ◌++◌, ◌⊎◌,
  inl, inr, zero, suc, ◌≤◌, leb, take, length-take, memcpy, append-nil, ◌==◌, if◌then◌else◌, bind,
  length, get_elem?, set, length-set, get_elem?-set_self,
}
use lib_uart_comm_protocol_l.NetHelper.Messages.{
  minus_one, put_int, read_int-put_int, read_bytes, read_bytes_all, is_positive, length-put_int,
}
use lib_uart_comm_protocol_l.NetHelper.System.{Os, Server, transmit, err_code, put_two, put_three}
use lib_uart_comm_protocol_l.NetHelper.System
use lib_uart_comm_protocol_l.NetHelper.Server.{handler, do_recv, call}
use lib_uart_comm_protocol_l.NetHelper.Client.{Semaphores, SocketResource, Client, update}
use lib_uart_comm_protocol_l.NetHelper.Calls.{recv}
use lib_uart_comm_protocol_l.NetHelper.Responses.{
  response, wake, recv_response, received, file, has_fd,
}
use lib_uart_comm_protocol_l.NetHelper.Owner.{
  First, Owns, transact_answered, get_elem?-First, First-lt-length, change_first-First, woken,
}
use lib_uart_comm_protocol_l.NetHelper.Exchange.{
  max_payload, direct, served_by, received_by, arrives, length-put_three,
}
use lib_uart_comm_protocol_l.NetHelper.Codes

-- `recv` of the system gives at most as many bytes as there is room for, and all that it counts.
abbrev pub Received : ℕ → ℕ → List ℕ → Type 0
Received room ret bytes = (is_positive ret ≡ false) ⊎ ((ret ≤ room) × (ret ≤ length bytes))

-- The bytes of an answer, and the caller's memory after it.
abbrev pub content : ℕ → List ℕ → List ℕ
content ret bytes = if is_positive ret then take ret bytes else []

abbrev pub memory : ℕ → List ℕ → List ℕ → List ℕ
memory ret bytes mem = if is_positive ret then memcpy mem 0 (take ret bytes) ret else mem

read_bytes-take :
    (n : ℕ) (bytes : List ℕ) → n ≤ length bytes → read_bytes n (take n bytes) ≡ some (take n bytes)
read_bytes-take n bytes h =
    let same : length (take n bytes) ≡ n = omega (arith, length-take n bytes) in
    subst (λ k. read_bytes k (take n bytes) ≡ some (take n bytes)) same
      (read_bytes_all (take n bytes))

received_lem :
    (u : Semaphores) (ret : ℕ) (bytes mem : List ℕ)
    → Received (length mem) ret bytes
    → received u ret (content ret bytes) mem ≡ some (memory ret bytes mem)
unfolding received
received_lem u ret bytes mem (inl none_got) = rw none_got refl
received_lem u ret bytes mem (inr (room, all)) =
    elim (is_positive ret)
      as (λ b.
        (if b
          then (bind (read_bytes ret (if b then take ret bytes else []))
              λ content. if leb ret (length mem) then some (memcpy mem 0 content ret) else none)
          else some mem)
        ≡ some (if b then memcpy mem 0 (take ret bytes) ret else mem)) [
          | true ↦
              let fits : leb ret (length mem) ≡ true = ground (arith, room) in
              rw (read_bytes-take ret bytes all) (rw fits refl)
          | false ↦ refl
        ]

length-content :
    (room ret : ℕ) (bytes : List ℕ) → Received room ret bytes → length (content ret bytes) ≤ room
length-content room ret bytes (inl none_got) = rw none_got (omega arith)
length-content room ret bytes (inr (fits, all)) =
    elim (is_positive ret) as (λ b. length (if b then take ret bytes else []) ≤ room) [
      | true ↦ omega (arith, length-take ret bytes, fits, all)
      | false ↦ omega arith
    ]

First-set :
    {S : Type 0} (test : SocketResource S → Bool) (socks : List (SocketResource S)) (i : ℕ)
    (q q' : SocketResource S)
    → First test socks i q
    → test q' ≡ true
    → First test (set socks i q') i q'
First-set test [] i q q' f h = absurd f
First-set test (p ∷ rest) zero q q' f h = (refl, h)
First-set test (p ∷ rest) (suc i) q q' f h = (f.0, First-set test rest i q q' f.1 h)

has_fd-First :
    {S : Type 0} (q : SocketResource S) (socks : List (SocketResource S)) (i : ℕ)
    → Owns socks i q
    → has_fd q.sock_fd q ≡ true
has_fd-First q [] i f = absurd f
has_fd-First q (p ∷ rest) zero f = f.1
has_fd-First q (p ∷ rest) (suc i) f = has_fd-First q rest i f.1

module _ (u : Semaphores) where
  -- The socket once its call of this kind has got this answer.
  abbrev got : ℕ → ℕ → List ℕ → SocketResource u.Sem → SocketResource u.Sem
  got ret err mem q = record q { recv_len = ret; recv_errno = err; recv_buf = mem }

  recv_filed :
      (c : Client u.Sem) (i ret err : ℕ) (bytes : List ℕ) (q : SocketResource u.Sem)
      → Owns c.socks i q
      → q.sock_fd < 2 ^ 32
      → ret < 2 ^ 32
      → err < 2 ^ 32
      → Received (length q.recv_buf) ret bytes
      → recv_response u (put_int q.sock_fd ++ (put_int ret ++ (put_int err ++ content ret bytes))) c
        ≡ some (record c {
          socks =
              set c.socks i
                (wake u Codes.client_recv (got ret err (memory ret bytes q.recv_buf) q));
        })
  unfolding recv_response file
  recv_filed c i ret err bytes q o hf hr he given =
      rw (read_int-put_int q.sock_fd (put_int ret ++ (put_int err ++ content ret bytes)) hf) (
        rw (read_int-put_int ret (put_int err ++ content ret bytes) hr) (
          rw (read_int-put_int err (content ret bytes) he) (
            ap (Option.map (λ socks. record c { socks = socks })) (
              change_first-First (has_fd q.sock_fd) c.socks i q
                (wake u Codes.client_recv (got ret err (memory ret bytes q.recv_buf) q))
                (λ p. Option.map (wake u Codes.client_recv) (
                  Option.map (λ mem. record p { recv_len = ret; recv_errno = err; recv_buf = mem })
                    (received u ret (content ret bytes) p.recv_buf)))
                o (rw (received_lem u ret bytes q.recv_buf given) refl)))))

  -- Receiving into a memory of at most 8148 bytes through a socket that is the first in use with
  -- its descriptor, over a line that loses nothing but what the protocol refuses as too long, ends
  -- and returns what the peer's recv() gave, and the caller's memory then starts with the bytes
  -- that it counts, or is as before where it gave none; the peer's recv() gives no more bytes than
  -- there is room for.
  pub recv-receives :
      (os : Os) (s : Server) (c : Client u.Sem) (i : ℕ) (q : SocketResource u.Sem) (mem : List ℕ)
      (flags : ℕ)
      → Owns c.socks i q
      → q.sock_fd < 2 ^ 32
      → (length mem ≤ 8148) × (flags < 2 ^ 32)
      → s.sent ≡ []
      → let a = os.answer s.calls (System.recv q.sock_fd (length mem) flags) in
        Received (length mem) a.ret a.bytes
        → (c' : Client u.Sem) × ((recv u (direct u os s) i mem flags c ≡ some (a.ret, c'))
            × (Option.map (λ p. p.recv_buf) (get_elem? c'.socks i)
                ≡ some (memory a.ret a.bytes mem)))
  unfolding recv update handler do_recv call transmit response
  recv-receives os s c i q mem flags o hf args none_sent given =
      let m = System.recv q.sock_fd (length mem) flags in
      let a = os.answer s.calls m in
      let err = if a.ret == minus_one then a.errno else 0 in
      let p = record q { recv_buf = mem } in
      let c1 = record c { socks = set c.socks i p } in
      let own : Owns c1.socks i p =
        First-set (has_fd q.sock_fd) c.socks i q p o (has_fd-First q c.socks i o) in
      let request = put_three q.sock_fd (length mem) flags in
      let packet = put_int q.sock_fd ++ (put_int a.ret ++ (put_int err ++ content a.ret a.bytes)) in
      let s' = transmit Codes.server_recv packet (call os m s).1 in
      let served = served_by os Codes.client_recv request (do_recv os) s s' refl (
        rw (read_int-put_int q.sock_fd (put_int (length mem) ++ put_int flags) hf) (
          rw (read_int-put_int (length mem) (put_int flags) (omega (arith, args.0))) (
            rw (sym (append-nil (put_int flags))) (rw (read_int-put_int flags [] args.1) refl)))) in
      let brief : length packet ≤ max_payload = omega (
        arith,
        length-put_int q.sock_fd (put_int a.ret ++ (put_int err ++ content a.ret a.bytes)),
        length-put_int a.ret (put_int err ++ content a.ret a.bytes),
        length-put_int err (content a.ret a.bytes),
        length-content (length mem) a.ret a.bytes given,
        args.0,
      ) in
      let small_err : err < 2 ^ 32 = ground (arith, os.errno_lt s.calls m) in
      let r = got a.ret err (memory a.ret a.bytes mem) p in
      let t = record c1 { socks = set c1.socks i (wake u Codes.client_recv r) } in
      let filed =
        received_by u Codes.server_recv packet (recv_response u) c1 t refl
          (recv_filed c1 i a.ret err a.bytes p own hf (os.ret_lt s.calls m) small_err given) in
      let arrived =
        arrives u os s s' _ _ c1 t served
          (ap (λ l. l ++ (record { cmd = Codes.server_recv; payload = packet } ∷ [])) none_sent)
          filed (omega (arith, length-put_three q.sock_fd (length mem) flags)) brief in
      let lt = First-lt-length (has_fd q.sock_fd) c1.socks i p own in
      let there = get_elem?-set_self c1.socks i (wake u Codes.client_recv r) lt in
      let waited =
        transact_answered u (direct u os s) Codes.client_recv request i (λ p. p.recv_len) c1 t r
          arrived there in
      let still : i < length t.socks =
        omega (arith, lt, length-set c1.socks i (wake u Codes.client_recv r)) in
      (
        record t { socks = set t.socks i (woken u Codes.client_recv r) },
        (
          rw (get_elem?-First (has_fd q.sock_fd) c.socks i q o, update) waited,
          ap (Option.map (λ p. p.recv_buf))
              (get_elem?-set_self t.socks i (woken u Codes.client_recv r) still),
        ),
      )

-- ===== src/NetHelper/Exchange.antt =====
-- The exchange of a request and its answer: the client of channel/uni_network_helper_client.c against the
-- server of channel/uni_network_helper_server.c, over a line that loses nothing.
use mathlib.Core.Option
use lib_uart_comm_protocol_l.Prelude.{
  ℕ, ◌<◌, ◌≤◌, arith, true, leb, length, if◌then◌else◌, ◌^◌, ◌≡◌, refl, sym, ap, Option, some, List,
  [], ◌∷◌, ◌++◌, append-nil, bind, set, get_elem?-set_self,
}
use lib_uart_comm_protocol_l.Prelude.Int.{pos}
use lib_uart_comm_protocol_l.NetHelper.Messages.{Message, put_int, length-put_int, read_int-put_int}
use lib_uart_comm_protocol_l.NetHelper.System.{Call, Os, Server, put_two, put_three}
use lib_uart_comm_protocol_l.NetHelper.Server.{server_receive, handler}
use lib_uart_comm_protocol_l.NetHelper.Client.{Semaphores, SocketResource, Client, Link, transact}
use lib_uart_comm_protocol_l.NetHelper.Responses.{
  client_receive, response, wake, file, file_three, has_fd,
}
use lib_uart_comm_protocol_l.NetHelper.Owner.{
  Owns, First-lt-length, change_first-First, woken, transact_answered,
}

-- The answers arrive at the client, in order.
pub deliver : (u : Semaphores) → List Message → Client u.Sem → Option (Client u.Sem)
deliver u [] c = some c
deliver u (m ∷ rest) c = bind (client_receive u m c) λ (code, c'). deliver u rest c'

-- The server before a request, after these calls.
abbrev pub at_rest : List Call → ℕ → Server
at_rest calls errno = record { calls = calls; errno = errno; sent = [] }

-- The most bytes of a payload that the protocol gets across: its parser takes frames of at most 8176 bytes, of which
-- 16 are the header.
abbrev pub max_payload : ℕ
max_payload = 8160

-- The messages that are short enough
abbrev pub carried : List Message → List Message
carried [] = []
carried (m ∷ rest) =
    let others = carried rest in if leb (length m.payload) max_payload then m ∷ others else others

-- The line: the server gets the request, and the client what the server sends, unless it is too long for the
-- protocol. Then the client's transmission fails, and an answer does not come.
pub direct : (u : Semaphores) → Os → Server → Link u.Sem
unfolding deliver
direct u os s message c =
    if leb (length message.payload) max_payload
    then (bind (server_receive os message s)
        λ (code, s'). Option.map (λ c'. (0, c')) (deliver u (carried s'.sent) c))
    else some (1, c)

pub length-put_two : (a b : ℕ) → length (put_two a b) ≡ 8
length-put_two a b =
    omega
      (arith, length-put_int a (put_int b), length-put_int b [], ap length (append-nil (put_int b)))

pub length-put_three : (a b c : ℕ) → length (put_three a b c) ≡ 12
length-put_three a b c = omega (arith, length-put_int a (put_two b c), length-put_two b c)

pub served_by :
    (os : Os) (cmd : ℕ) (payload : List ℕ) (handle : List ℕ → Server → Option Server)
    (s s' : Server)
    → handler os cmd ≡ some handle
    → handle payload s ≡ some s'
    → server_receive os (record { cmd = cmd; payload = payload }) s ≡ some (pos 0, s')
unfolding server_receive
served_by os cmd payload handle s s' h e =
    rw (h, server_receive) (ap (Option.map (λ t. (pos 0, t))) e)

module _ (u : Semaphores) where
  pub received_by :
      (cmd : ℕ) (payload : List ℕ) (handle : List ℕ → Client u.Sem → Option (Client u.Sem))
      (c c' : Client u.Sem)
      → response u cmd ≡ some handle
      → handle payload c ≡ some c'
      → client_receive u (record { cmd = cmd; payload = payload }) c ≡ some (pos 0, c')
  unfolding client_receive
  received_by cmd payload handle c c' h e =
      rw (h, client_receive) (ap (Option.map (λ t. (pos 0, t))) e)

  -- The one answer of the server, filed, is all that happens until the call goes on.
  pub arrives :
      (os : Os) (s s' : Server) (request answer : Message) (c c' : Client u.Sem)
      → server_receive os request s ≡ some (pos 0, s')
      → s'.sent ≡ answer ∷ []
      → client_receive u answer c ≡ some (pos 0, c')
      → length request.payload ≤ max_payload
      → length answer.payload ≤ max_payload
      → direct u os s request c ≡ some (0, c')
  unfolding direct deliver
  arrives os s s' request answer c c' served answered filed short brief =
      let sends : leb (length request.payload) max_payload ≡ true = ground (arith, short) in
      let answers : leb (length answer.payload) max_payload ≡ true = ground (arith, brief) in
      rw (sends, direct)
        (rw served (
          rw answered
            (rw answers (ap (λ t. Option.map (λ c'. (0, c')) (bind t λ r. some r.1)) filed))))

module _ (u : Semaphores) (os : Os) (s : Server) (c : Client u.Sem) (i : ℕ)
    (q : SocketResource u.Sem) (owner : Owns c.socks i q) (fd_lt : q.sock_fd < 2 ^ 32) where
  -- An answer of three numbers is filed with its socket.
  filed :
      (cmd : ℕ) (change : ℕ → ℕ → SocketResource u.Sem → SocketResource u.Sem) (a b : ℕ)
      → a < 2 ^ 32
      → b < 2 ^ 32
      → file_three u cmd change (put_three q.sock_fd a b) c
        ≡ some (record c { socks = set c.socks i (wake u cmd (change a b q)) })
  unfolding file_three file
  filed cmd change a b ha hb = rw (read_int-put_int q.sock_fd (put_int a ++ put_int b) fd_lt) (
      rw (read_int-put_int a (put_int b) ha) (
        rw (sym (append-nil (put_int b))) (
          rw (read_int-put_int b [] hb) (
            rw (
              change_first-First (has_fd q.sock_fd) c.socks i q (wake u cmd (change a b q))
                (λ p. some (wake u cmd (change a b p))) owner refl)))))

  -- A call whose request the server answers with three numbers.
  pub exchanged :
      (cmd server_cmd : ℕ) (payload : List ℕ)
      (change : ℕ → ℕ → SocketResource u.Sem → SocketResource u.Sem) (a b : ℕ) (s' : Server)
      (result : SocketResource u.Sem → ℕ)
      → server_receive os (record { cmd = cmd; payload = payload }) s ≡ some (pos 0, s')
      → s'.sent ≡ record { cmd = server_cmd; payload = put_three q.sock_fd a b } ∷ []
      → response u server_cmd ≡ some (file_three u cmd change)
      → length payload ≤ max_payload
      → a < 2 ^ 32
      → b < 2 ^ 32
      → (c' : Client u.Sem) × (transact u (direct u os s) cmd payload i result c
          ≡ some (result (woken u cmd (change a b q)), c'))
  exchanged cmd server_cmd payload change a b s' result served answered known short ha hb =
      let t = record c { socks = set c.socks i (wake u cmd (change a b q)) } in
      let filed_t =
        received_by u server_cmd (put_three q.sock_fd a b) _ c t known
          (filed cmd change a b ha hb) in
      (
        _,
        transact_answered u (direct u os s) cmd payload i result c t (change a b q)
            (arrives u os s s' _ _ c t served answered filed_t short
              (omega (arith, length-put_three q.sock_fd a b)))
            (get_elem?-set_self c.socks i (wake u cmd (change a b q))
              (First-lt-length (has_fd q.sock_fd) c.socks i q owner)),
      )

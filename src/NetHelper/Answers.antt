-- ===== src/NetHelper/Answers.antt =====
-- Each request of channel/uni_network_helper_server.c gets one answer.
use lib_uart_comm_protocol_l.Prelude.{
  ℕ, ◌+◌, ◌%◌, ◌≡◌, refl, sym, ap, ◌∙◌, arith, Bool, true, false, ◌&&◌, Option, none, some, List,
  [], ◌∷◌, ◌++◌, ◌==◌, Option-cases, Bool-cases, inl, inr, if◌then◌else◌, leb,
}
use mathlib.Core.Path.{subst}
use lib_uart_comm_protocol_l.Prelude.Int.{ℤ, pos, negsuc}
use lib_uart_comm_protocol_l.NetHelper.Messages.{Message, read_int, read_bytes, c_string}
use lib_uart_comm_protocol_l.NetHelper.System.{Os, Server, transmit}
use lib_uart_comm_protocol_l.NetHelper.Server.{
  server_receive, handler, do_init, do_close, do_send, do_recv, do_fcntl, do_setoption, do_select,
  do_websock_connect, do_connect, do_status_check, call, socket_connect, websock_connect,
}
use lib_uart_comm_protocol_l.NetHelper.Local.{socket_connect-sent, websock_connect-sent}
use lib_uart_comm_protocol_l.NetHelper.Ensures.{Ensures, Ensures_some, bind-Ensures, by_number}
use lib_uart_comm_protocol_l.NetHelper.Codes

-- After one message of this number has been sent.
abbrev pub Sent : ℕ → Server → Server → Type 0
Sent cmd s t =
    (payload : List ℕ) × (t.sent ≡ s.sent ++ (record { cmd = cmd; payload = payload } ∷ []))

transmit-Sent :
    (cmd : ℕ) (payload : List ℕ) (s t : Server)
    → t.sent ≡ s.sent
    → Sent cmd s (transmit cmd payload t)
unfolding transmit
transmit-Sent cmd payload s t e =
    (payload, ap (λ l. l ++ (record { cmd = cmd; payload = payload } ∷ [])) e)

module _ (os : Os) where
  -- A handler that answers with a message of this number.
  abbrev Answers : ℕ → (List ℕ → Server → Option Server) → Type 0
  Answers cmd handle = (packet : List ℕ) (s : Server) → Ensures (Sent cmd s) (handle packet s)

  init-Answers : Answers Codes.server_init (do_init os)
  unfolding do_init call transmit
  init-Answers packet s =
      let P = Sent Codes.server_init s in
      bind-Ensures P (read_int packet) _ λ a.
        bind-Ensures P (read_int a.1) _
          λ b. bind-Ensures P (read_int b.1) _ λ c. bind-Ensures P (read_int c.1) _ λ d. (_, refl)

  close-Answers : Answers Codes.server_close (do_close os)
  unfolding do_close call transmit
  close-Answers packet s =
      let P = Sent Codes.server_close s in bind-Ensures P (read_int packet) _ λ a. (_, refl)

  send-Answers : Answers Codes.server_send (do_send os)
  unfolding do_send call transmit
  send-Answers packet s =
      let P = Sent Codes.server_send s in
      bind-Ensures P (read_int packet) _ λ a. bind-Ensures P (read_int a.1) _ λ b.
        bind-Ensures P (read_int b.1) _ λ c. bind-Ensures P (read_bytes c.0 c.1) _ λ d. (_, refl)

  recv-Answers : Answers Codes.server_recv (do_recv os)
  unfolding do_recv call transmit
  recv-Answers packet s =
      let P = Sent Codes.server_recv s in
      bind-Ensures P (read_int packet) _
        λ a. bind-Ensures P (read_int a.1) _ λ b. bind-Ensures P (read_int b.1) _ λ c. (_, refl)

  setoption-Answers : Answers Codes.server_setoption (do_setoption os)
  unfolding do_setoption call transmit
  setoption-Answers packet s =
      let P = Sent Codes.server_setoption s in
      bind-Ensures P (read_int packet) _ λ a. bind-Ensures P (read_int a.1) _ λ b.
        bind-Ensures P (read_int b.1) _ λ c.
          bind-Ensures P (read_int c.1) _ λ d. bind-Ensures P (read_bytes d.0 d.1) _ λ e. (_, refl)

  fcntl-Answers : Answers Codes.server_fcntl (do_fcntl os)
  unfolding do_fcntl call transmit
  fcntl-Answers packet s =
      let P = Sent Codes.server_fcntl s in
      bind-Ensures P (read_int packet) _
        λ a. bind-Ensures P (read_int a.1) _ λ b. bind-Ensures P (read_int b.1) _ λ c. (_, refl)

  select_read-Answers : Answers Codes.server_select_read (do_select os false)
  unfolding do_select call transmit
  select_read-Answers packet s =
      let P = Sent Codes.server_select_read s in
      bind-Ensures P (read_int packet) _ λ a. bind-Ensures P (read_int a.1) _ λ b. (_, refl)

  select_write-Answers : Answers Codes.server_select_write (do_select os true)
  unfolding do_select call transmit
  select_write-Answers packet s =
      let P = Sent Codes.server_select_write s in
      bind-Ensures P (read_int packet) _ λ a. bind-Ensures P (read_int a.1) _ λ b. (_, refl)

  websock_connect-Answers : Answers Codes.server_websock_conn (do_websock_connect os)
  unfolding do_websock_connect
  websock_connect-Answers packet s =
      let P = Sent Codes.server_websock_conn s in
      bind-Ensures P (read_int packet) _ λ a. bind-Ensures P (read_int a.1) _ λ b.
        bind-Ensures P (c_string b.1) _ λ c.
          transmit-Sent Codes.server_websock_conn _ s (websock_connect os c b.0 s).1
            (websock_connect-sent os c b.0 s)

  connect-Answers : Answers Codes.server_conn (do_connect os)
  unfolding do_connect
  connect-Answers packet s =
      let P = Sent Codes.server_conn s in
      bind-Ensures P (read_int packet) _ λ a. bind-Ensures P (read_int a.1) _ λ b.
        bind-Ensures P (c_string b.1) _ λ c.
          transmit-Sent Codes.server_conn _ s (socket_connect os a.0 c b.0 s).1
            (socket_connect-sent os a.0 c b.0 s)

  status_check-Answers : Answers Codes.server_status_response (do_status_check os)
  unfolding do_status_check transmit
  status_check-Answers packet s = (_, refl)

  handler-Answers : (cmd : ℕ) → Ensures (Answers (cmd + 1)) (handler os cmd)
  unfolding handler
  handler-Answers cmd =
      let P = Ensures (Answers (cmd + 1)) in
      let at : (k : ℕ) (handle : List ℕ → Server → Option Server)
          → Answers (k + 1) handle
          → cmd ≡ k
          → Answers (cmd + 1) handle =
        λ k. λ handle. λ h. λ e. subst (λ n. Answers (n + 1) handle) (sym e) h in
      by_number P cmd Codes.client_init (do_init os) _
        (at Codes.client_init (do_init os) init-Answers)
        (by_number P cmd Codes.client_close (do_close os) _
          (at Codes.client_close (do_close os) close-Answers)
          (by_number P cmd Codes.client_send (do_send os) _
            (at Codes.client_send (do_send os) send-Answers)
            (by_number P cmd Codes.client_recv (do_recv os) _
              (at Codes.client_recv (do_recv os) recv-Answers)
              (by_number P cmd Codes.client_setoption (do_setoption os) _
                (at Codes.client_setoption (do_setoption os) setoption-Answers)
                (by_number P cmd Codes.client_fcntl (do_fcntl os) _
                  (at Codes.client_fcntl (do_fcntl os) fcntl-Answers)
                  (by_number P cmd Codes.client_select_read (do_select os false) _
                    (at Codes.client_select_read (do_select os false) select_read-Answers)
                    (by_number P cmd Codes.client_select_write (do_select os true) _
                      (at Codes.client_select_write (do_select os true) select_write-Answers)
                      (by_number P cmd Codes.client_websock_conn (do_websock_connect os) _
                        (at Codes.client_websock_conn (do_websock_connect os)
                          websock_connect-Answers)
                        (by_number P cmd Codes.client_conn (do_connect os) _
                          (at Codes.client_conn (do_connect os) connect-Answers)
                          (by_number P cmd Codes.client_status_request (do_status_check os) _
                            (at Codes.client_status_request (do_status_check os)
                              status_check-Answers)
                            (tt)))))))))))

-- The requests: the even numbers from `client_init` to `client_status_request`.
abbrev pub is_request : ℕ → Bool
is_request cmd = leb Codes.client_init cmd && (leb cmd Codes.client_status_request && cmd % 2 == 0)

handler-other : (os : Os) (cmd : ℕ) → is_request cmd ≡ false → handler os cmd ≡ none
unfolding handler
handler-other os cmd h = ground (arith, h)

handler-request : (os : Os) (cmd : ℕ) → handler os cmd ≡ none → is_request cmd ≡ false
unfolding handler
handler-request os cmd h = ground (arith, h)

-- A request that is not a fault has been answered, and any other message has changed nothing.
abbrev pub Handled : Message → Server → ℤ × Server → Type 0
Handled m s r =
    if is_request m.cmd
    then (r.0 ≡ pos 0) × Sent (m.cmd + 1) s r.1
    else (r.0 ≡ negsuc 0) × (r.1 ≡ s)

handled_lem :
    (os : Os) (m : Message) (s : Server) (h : Option (List ℕ → Server → Option Server))
    → handler os m.cmd ≡ h
    → Ensures (Answers os (m.cmd + 1)) h
    → Ensures (Handled m s) (server_receive os m s)
unfolding server_receive
handled_lem os m s none e a = rw (e, server_receive) (rw (handler-request os m.cmd e) (refl, refl))
handled_lem os m s (some handle) e a =
    rw (e, server_receive)
      (elim (Option-cases (handle m.payload s)) [
        | inl fault ↦ rw fault tt
        | inr (t, done) ↦ rw done (elim (Bool-cases (is_request m.cmd)) [
          | inl is ↦ rw is (refl, subst (Ensures (Sent (m.cmd + 1) s)) done (a m.payload s))
          | inr isnt ↦ cc (sym e ∙ handler-other os m.cmd isnt)
        ])
      ])

-- Whatever bytes the peer sends: a message with the number of a request that is served without a
-- read behind its end gets exactly one answer, whose number is the next one, and a return of 0,
-- and any other message gets none, a return of -1 and changes nothing.
pub request-answered :
    (os : Os) (m : Message) (s : Server) → Ensures (Handled m s) (server_receive os m s)
request-answered os m s = handled_lem os m s (handler os m.cmd) refl (handler-Answers os m.cmd)

pub server_receive-other :
    (os : Os) (m : Message) (s : Server)
    → is_request m.cmd ≡ false
    → server_receive os m s ≡ some (negsuc 0, s)
unfolding server_receive
server_receive-other os m s h = rw (handler-other os m.cmd h, server_receive) refl

pub server_receive-request :
    (os : Os) (m : Message) (s : Server)
    → is_request m.cmd ≡ true
    → Ensures (λ r. r.0 ≡ pos 0) (server_receive os m s)
server_receive-request os m s h = elim (Option-cases (server_receive os m s)) [
  | inl fault ↦ rw fault tt
  | inr (r, done) ↦ rw done (
      Ensures_some (λ r. r.0 ≡ pos 0) (some r) r
        (handled_code m s r h
          (Ensures_some (Handled m s) (server_receive os m s) r (request-answered os m s) done))
        refl)
]
  where
    handled_code :
        (m : Message) (s : Server) (r : ℤ × Server)
        → is_request m.cmd ≡ true
        → Handled m s r
        → r.0 ≡ pos 0
    handled_code m s r h k =
        (subst
          (λ b. if b then (r.0 ≡ pos 0) × Sent (m.cmd + 1) s r.1 else (r.0 ≡ negsuc 0) × (r.1 ≡ s))
          h k).0

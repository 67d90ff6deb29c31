-- ===== src/NetHelper/Kept.antt =====
-- The answers that channel/uni_network_helper_client.c files do not change whose session a socket is in.
use mathlib.Core.Option
use lib_uart_comm_protocol_l.Prelude.{
  ℕ, zero, suc, ◌≡◌, refl, ap, Bool, true, false, Option, none, some, List, [], ◌∷◌, if◌then◌else◌,
  get_elem?, set,
}
use lib_uart_comm_protocol_l.Prelude.Int.{ℤ, pos}
use lib_uart_comm_protocol_l.NetHelper.Messages.{Message, read_int}
use lib_uart_comm_protocol_l.NetHelper.Client.{Semaphores, done, SocketResource, Client}
use lib_uart_comm_protocol_l.NetHelper.Responses
use lib_uart_comm_protocol_l.NetHelper.Responses.{
  change_first, change_all, client_receive, response, wake, received,
}
use lib_uart_comm_protocol_l.NetHelper.Sessions.{ids}
use lib_uart_comm_protocol_l.NetHelper.Ensures.{
  Ensures, bind-Ensures, map-Ensures, Ensures_some, by_number,
}
use lib_uart_comm_protocol_l.NetHelper.Codes

-- The sessions are as before.
abbrev pub Kept : {S : Type 0} → Client S → Client S → Type 0
Kept c c' = (ids c'.socks ≡ ids c.socks) × (c'.session_id ≡ c.session_id)

pub ids-set :
    {S : Type 0} (socks : List (SocketResource S)) (i : ℕ) (q : SocketResource S)
    → ids (set socks i q) ≡ set (ids socks) i q.session_id
ids-set [] i q = refl
ids-set (p ∷ rest) zero q = refl
ids-set (p ∷ rest) (suc i) q = ap (λ l. p.session_id ∷ l) (ids-set rest i q)

pub ids-set_same :
    {S : Type 0} (socks : List (SocketResource S)) (i : ℕ) (q q' : SocketResource S)
    → get_elem? socks i ≡ some q
    → q'.session_id ≡ q.session_id
    → ids (set socks i q') ≡ ids socks
ids-set_same [] i q q' e h = refl
ids-set_same (p ∷ rest) zero q q' e h =
    let same : q'.session_id ≡ p.session_id = cc in ap (λ n. n ∷ ids rest) same
ids-set_same (p ∷ rest) (suc i) q q' e h = ap (λ l. p.session_id ∷ l) (ids-set_same rest i q q' e h)

change_first-ids :
    {S : Type 0} (test : SocketResource S → Bool)
    (change : SocketResource S → Option (SocketResource S)) (socks : List (SocketResource S))
    → ((q : SocketResource S) → Ensures (λ q'. q'.session_id ≡ q.session_id) (change q))
    → Ensures (λ l. ids l ≡ ids socks) (change_first test change socks)
unfolding change_first
change_first-ids test change [] h = refl
change_first-ids test change (q ∷ rest) h =
    elim (test q)
      as (λ b.
        Ensures (λ l. ids l ≡ ids (q ∷ rest))
          (elim b [
            | true ↦ Option.map (λ q'. q' ∷ rest) (change q)
            | false ↦ Option.map (λ rest'. q ∷ rest') (change_first test change rest)
          ])) [
            | true ↦ map-Ensures _ _ (change q) _ (h q) λ q'. λ e. ap (λ n. n ∷ ids rest) e
            | false ↦
                map-Ensures _ _ (change_first test change rest) _
                  (change_first-ids test change rest h) λ l. λ e. ap (λ r. q.session_id ∷ r) e
          ]

change_all-ids :
    {S : Type 0} (test : SocketResource S → Bool) (change : SocketResource S → SocketResource S)
    (socks : List (SocketResource S))
    → ((q : SocketResource S) → (change q).session_id ≡ q.session_id)
    → ids (change_all test change socks) ≡ ids socks
unfolding change_all
change_all-ids test change [] h = refl
change_all-ids test change (q ∷ rest) h =
    elim (test q)
      as (λ b.
        let p : SocketResource _ = if b then change q else q in
        p.session_id ∷ ids (change_all test change rest) ≡ q.session_id ∷ ids rest) [
          | true ↦ rw (h q) (ap (λ r. q.session_id ∷ r) (change_all-ids test change rest h))
          | false ↦ ap (λ r. q.session_id ∷ r) (change_all-ids test change rest h)
        ]

module _ (u : Semaphores) where
  -- A handler that keeps the sessions.
  abbrev Keeping : (List ℕ → Client u.Sem → Option (Client u.Sem)) → Type 0
  Keeping handle = (packet : List ℕ) (c : Client u.Sem) → Ensures (Kept c) (handle packet c)

  file-Kept :
      (fd cmd : ℕ) (change : SocketResource u.Sem → Option (SocketResource u.Sem))
      (c : Client u.Sem)
      → ((q : SocketResource u.Sem) → Ensures (λ q'. q'.session_id ≡ q.session_id) (change q))
      → Ensures (Kept c) (Responses.file u fd cmd change c)
  unfolding Responses.file wake
  file-Kept fd cmd change c h =
      map-Ensures _ (Kept c)
        (change_first (Responses.has_fd fd) (λ q. Option.map (wake u cmd) (change q)) c.socks) _
        (change_first-ids _ _ c.socks λ q. map-Ensures _ _ (change q) _ (h q) λ q'. λ e. e)
        λ l. λ e. (e, refl)

  file_three-Keeping :
      (cmd : ℕ) (change : ℕ → ℕ → SocketResource u.Sem → SocketResource u.Sem)
      → ((a b : ℕ) (q : SocketResource u.Sem) → (change a b q).session_id ≡ q.session_id)
      → Keeping (Responses.file_three u cmd change)
  unfolding Responses.file_three
  file_three-Keeping cmd change h packet c = bind-Ensures (Kept c) (read_int packet) _ λ a.
      bind-Ensures (Kept c) (read_int a.1) _ λ b.
        bind-Ensures (Kept c) (read_int b.1) _
          λ d. file-Kept a.0 cmd (λ q. some (change b.0 d.0 q)) c λ q. h b.0 d.0 q

  recv-Keeping : Keeping (Responses.recv_response u)
  unfolding Responses.recv_response
  recv-Keeping packet c = bind-Ensures (Kept c) (read_int packet) _ λ a.
      bind-Ensures (Kept c) (read_int a.1) _ λ b. bind-Ensures (Kept c) (read_int b.1) _ λ d.
        file-Kept a.0 Codes.client_recv _ c λ q.
          elim (received u b.0 d.1 q.recv_buf)
            as (λ o.
              Ensures (λ q'. q'.session_id ≡ q.session_id)
                (Option.map (λ mem. record q { recv_len = b.0; recv_errno = d.0; recv_buf = mem })
                  o)) [ none ↦ tt | some mem ↦ refl ]

  init-Keeping : Keeping (Responses.init_response u)
  unfolding Responses.init_response wake
  init-Keeping packet c = bind-Ensures (Kept c) (read_int packet) _ λ a.
      bind-Ensures (Kept c) (read_int a.1) _ λ b. bind-Ensures (Kept c) (read_int b.1) _ λ d.
        map-Ensures _ (Kept c) _ _
          (change_first-ids (Responses.in_session a.0)
            (λ q. some (
              wake u Codes.client_init
                (record q { sock_fd = b.0; sock_init_errno = d.0; status = done })))
            c.socks (λ q. refl))
          λ l. λ e. (e, refl)

  websock_connect-Keeping : Keeping (Responses.websock_connect_response u)
  unfolding Responses.websock_connect_response wake
  websock_connect-Keeping packet c = bind-Ensures (Kept c) (read_int packet) _ λ a.
      bind-Ensures (Kept c) (read_int a.1) _ λ b.
        map-Ensures _ (Kept c) _ _
          (change_first-ids (Responses.in_session a.0)
            (λ q.
              some (wake u Codes.client_websock_conn (record q { sock_fd = b.0; status = done })))
            c.socks (λ q. refl))
          λ l. λ e. (e, refl)

  close-Keeping : Keeping (Responses.close_response u)
  unfolding Responses.close_response wake
  close-Keeping packet c = bind-Ensures (Kept c) (read_int packet) _ λ a.
      bind-Ensures (Kept c) (read_int a.1) _ λ b. bind-Ensures (Kept c) (read_int b.1) _ λ d. (
        change_all-ids (Responses.has_fd a.0)
            (λ q. wake u Codes.client_close (record q { close_ret = b.0; close_errno = d.0 }))
            c.socks (λ q. refl),
        refl,
      )

  net_status-Keeping : Keeping (Responses.net_status_response u)
  unfolding Responses.net_status_response
  net_status-Keeping packet c = bind-Ensures (Kept c) (read_int packet) _ λ a. (refl, refl)

  broadcast-Keeping : Keeping (Responses.net_status_broadcast u)
  unfolding Responses.net_status_broadcast
  broadcast-Keeping packet c = bind-Ensures (Kept c) (read_int packet) _ λ a. (refl, refl)

  response-Keeping : (cmd : ℕ) → Ensures Keeping (response u cmd)
  unfolding response Responses.send_response Responses.writeable_response
      Responses.readable_response Responses.connect_response Responses.setsockoption_response
      Responses.fcntl_response
  response-Keeping cmd =
      let P = Ensures Keeping in
      by_number P cmd Codes.server_init _ _ (λ e. init-Keeping)
        (by_number P cmd Codes.server_send _ _
          (λ e.
            (file_three-Keeping Codes.client_send
              (λ ret err q. record q { send_len = ret; send_errno = err }) (λ a b q. refl)))
          (by_number P cmd Codes.server_recv _ _ (λ e. recv-Keeping)
            (by_number P cmd Codes.server_select_write _ _
              (λ e.
                (file_three-Keeping Codes.client_select_write (λ r w q. record q { writeable = w })
                  (λ a b q. refl)))
              (by_number P cmd Codes.server_select_read _ _
                (λ e.
                  (file_three-Keeping Codes.client_select_read (λ r w q. record q { readable = r })
                    (λ a b q. refl)))
                (by_number P cmd Codes.server_websock_conn _ _ (λ e. websock_connect-Keeping)
                  (by_number P cmd Codes.server_conn _ _
                    (λ e.
                      (file_three-Keeping Codes.client_conn
                        (λ ret err q. record q { conn_ret = ret; conn_errno = err })
                        (λ a b q. refl)))
                    (by_number P cmd Codes.server_setoption _ _
                      (λ e.
                        (file_three-Keeping Codes.client_setoption
                          (λ ret err q. record q { socksetopt_ret = ret; sock_init_errno = err })
                          (λ a b q. refl)))
                      (by_number P cmd Codes.server_fcntl _ _
                        (λ e.
                          (file_three-Keeping Codes.client_fcntl
                            (λ ret err q. record q { fnctl_ret = ret; fnctl_errno = err })
                            (λ a b q. refl)))
                        (by_number P cmd Codes.server_close _ _ (λ e. close-Keeping)
                          (by_number P cmd Codes.server_status_response _ _
                            (λ e. net_status-Keeping)
                            (by_number P cmd Codes.server_status_broadcast _ _
                              (λ e. broadcast-Keeping) (tt))))))))))))

  received-Kept :
      (m : Message) (c : Client u.Sem) (h : Option (List ℕ → Client u.Sem → Option (Client u.Sem)))
      → response u m.cmd ≡ h
      → Ensures Keeping h
      → Ensures (λ r. Kept c r.1) (client_receive u m c)
  unfolding client_receive
  received-Kept m c none e k = rw (e, client_receive) (refl, refl)
  received-Kept m c (some handle) e k =
      rw (e, client_receive)
        (map-Ensures (Kept c) (λ r. Kept c r.1) (handle m.payload c) (λ c'. (pos 0, c'))
          (k m.payload c) (λ t. λ h. h))

  pub client_receive-Kept :
      (m : Message) (c c' : Client u.Sem) (code : ℤ)
      → client_receive u m c ≡ some (code, c')
      → Kept c c'
  client_receive-Kept m c c' code e =
      Ensures_some (λ r. Kept c r.1) (client_receive u m c) (code, c')
        (received-Kept m c (response u m.cmd) refl (response-Keeping m.cmd)) e

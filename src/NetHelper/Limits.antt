-- ===== src/NetHelper/Limits.antt =====
-- The limits of channel/uni_network_helper_client.c: its eight sockets, their semaphores, and a transmission
-- that fails.
use mathlib.Core.Option
use lib_uart_comm_protocol_l.Prelude.{
  ℕ, zero, suc, ◌+◌, ◌%◌, ◌^◌, ◌<◌, ◌≤◌, ◌≡◌, ◌≢◌, refl, sym, ap, ◌∙◌, arith, true, false,
  Option-cases, inl, inr, none, some, List, [], ◌∷◌, ◌==◌, if◌then◌else◌, length, set, set-set,
  get_elem?-set_self,
}
use lib_uart_comm_protocol_l.NetHelper.Messages.{minus_one}
use lib_uart_comm_protocol_l.NetHelper.Client.{
  Semaphores, idle, waiting, SocketResource, Client, Link, is_idle, get_fds_idx,
  get_sem_index_by_client_msg, take_socket, update, release,
}
use lib_uart_comm_protocol_l.NetHelper.Calls.{socket_init, open_session}
use lib_uart_comm_protocol_l.NetHelper.Owner.{First, First-lt-length}
use lib_uart_comm_protocol_l.NetHelper.Sessions.{
  idle_at, get_fds_idx-First, taken, take_socket_lem, take_socket-none,
}
use lib_uart_comm_protocol_l.NetHelper.Answers.{is_request}
use lib_uart_comm_protocol_l.NetHelper.Codes

in_range : (a : ℕ) → is_request a ≡ true → (2000 ≤ a) × ((a ≤ 2020) × (a % 2 ≡ 0))
in_range a h = ground (arith, h)

-- Two different requests of the server's switch wait on different semaphores of a socket, and
-- their indices are within its array.
pub sem_index-own :
    (a b : ℕ)
    → is_request a ≡ true
    → is_request b ≡ true
    → a ≢ b
    → (get_sem_index_by_client_msg a < get_sem_index_by_client_msg Codes.count)
      × (get_sem_index_by_client_msg a ≢ get_sem_index_by_client_msg b)
unfolding get_sem_index_by_client_msg
sem_index-own a b ha hb ne =
    let (a_ge, (a_le, a_even)) = in_range a ha in
    let (b_ge, (b_le, b_even)) = in_range b hb in
    (omega (arith, a_ge, a_le), λ e. ne (omega (arith, e, a_ge, a_even, b_ge, b_even)))

-- A transmission that fails with this code.
abbrev pub refusing : {S : Type 0} → ℕ → Link S
refusing code m c = some (code, c)

refused_opening :
    (u : Semaphores) (code i n domain type protocol : ℕ) (c : Client u.Sem)
    (q : SocketResource u.Sem)
    → (code == 0) ≡ false
    → take_socket c ≡ some (i, taken i q n c)
    → i < length c.socks
    → socket_init u (refusing code) domain type protocol c
      ≡ some (
        minus_one,
        record c {
          session_id = n;
          socks = set c.socks i (record q { session_id = n; status = idle; sock_fd = minus_one });
        },
      )
unfolding socket_init open_session release update
refused_opening u code i n domain type protocol c q h e lt =
    let p = record q { session_id = n; status = waiting; sock_fd = minus_one } in
    rw (e, open_session)
      (rw h (
        rw (get_elem?-set_self c.socks i p lt, update)
          (ap (λ l. some (minus_one, record c { session_id = n; socks = l }))
            (set-set c.socks i p (record p { status = idle })))))

-- The table has no idle socket.
full_opening :
    (u : Semaphores) (link : Link u.Sem) (domain type protocol : ℕ) (c : Client u.Sem)
    → get_fds_idx c.socks ≡ none
    → socket_init u link domain type protocol c ≡ some (minus_one, c)
unfolding socket_init open_session
full_opening u link domain type protocol c full = rw (take_socket-none c full, open_session) refl

pub idle_again :
    {S : Type 0} (socks : List (SocketResource S)) (i : ℕ) (q : SocketResource S)
    → i < length socks
    → is_idle q.status ≡ true
    → (j : ℕ) × ((get_fds_idx (set socks i q) ≡ some j) × (j ≤ i))
unfolding get_fds_idx
idle_again [] i q h e = absurd (omega (arith, h))
idle_again (p ∷ rest) zero q h e = (0, (rw e refl, omega arith))
idle_again (p ∷ rest) (suc i) q h e =
    let (j, (found, le)) = idle_again rest i q (omega (arith, h)) e in
    elim (is_idle p.status)
      as (λ b.
        (k : ℕ) × (((if b then some 0 else Option.map suc (get_fds_idx (set rest i q))) ≡ some k)
          × (k ≤ suc i))) [
            | true ↦ (0, (refl, omega arith))
            | false ↦ (suc j, (ap (Option.map suc) found, omega (arith, le)))
          ]

idle_first :
    {S : Type 0} (socks : List (SocketResource S)) (i : ℕ) (q q' : SocketResource S)
    → First idle_at socks i q
    → is_idle q'.status ≡ true
    → get_fds_idx (set socks i q') ≡ some i
unfolding get_fds_idx
idle_first [] i q q' f e = absurd f
idle_first (p ∷ rest) zero q q' f e = rw e refl
idle_first (p ∷ rest) (suc i) q q' f e = rw f.0 (ap (Option.map suc) (idle_first rest i q q' f.1 e))

-- If the transmission of an opening fails, the call ends, returns -1 and leaves the same socket to
-- be taken next; with no idle socket it returns -1 too.
pub socket_init-refused :
    (u : Semaphores) (code domain type protocol : ℕ) (c : Client u.Sem)
    → (code == 0) ≡ false
    → (c' : Client u.Sem) × ((socket_init u (refusing code) domain type protocol c
          ≡ some (minus_one, c'))
        × (get_fds_idx c'.socks ≡ get_fds_idx c.socks))
socket_init-refused u code domain type protocol c h = elim (Option-cases (get_fds_idx c.socks)) [
  | inl full ↦ (c, (full_opening u (refusing code) domain type protocol c full, refl))
  | inr (i, found) ↦
      let (q, f) = get_fds_idx-First c.socks i found in
      let n = (c.session_id + 1) % 2 ^ 32 in
      (
        _,
        (
          refused_opening u code i n domain type protocol c q h (take_socket_lem c i q found f)
              (First-lt-length idle_at c.socks i q f),
          idle_first c.socks i q (record q { session_id = n; status = idle; sock_fd = minus_one }) f
                refl
              ∙ sym found,
        ),
      )
]

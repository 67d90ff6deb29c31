-- ===== src/NetHelper/Table.antt =====
-- The table of sockets of channel/uni_network_helper_client.c in every state that its threads bring about:
-- whatever they do and in any order, each session has one socket.
use mathlib.Core.Path.{subst}
use lib_uart_comm_protocol_l.Prelude.{
  ℕ, zero, suc, ◌+◌, ◌%◌, ◌^◌, ◌<◌, ◌≤◌, ◌≡◌, ◌≢◌, ◌⊎◌, inl, inr, refl, sym, ap, ◌∙◌, arith, some,
  Option-cases, List, [], ◌∷◌, ◌==◌, if◌then◌else◌, length, get_elem?, set, length-set, replicate,
}
use lib_uart_comm_protocol_l.Prelude.Int.{ℤ}
use lib_uart_comm_protocol_l.NetHelper.Messages.{Message, minus_one}
use lib_uart_comm_protocol_l.NetHelper.Client.{
  Semaphores, idle, waiting, SocketResource, Client, fd_size_max, get_fds_idx, take_socket, update,
  release, sem_wait, unused, net_helper_cli_init,
}
use lib_uart_comm_protocol_l.NetHelper.Responses.{client_receive}
use lib_uart_comm_protocol_l.NetHelper.Sessions.{
  get_fds_idx-First, ids, UpTo, taken, take_socket_lem, take_socket-none,
}
use lib_uart_comm_protocol_l.NetHelper.Ensures.{Ensures, bind-Ensures, Ensures_some}
use lib_uart_comm_protocol_l.NetHelper.Kept.{Kept, ids-set, ids-set_same, client_receive-Kept}

-- This session, if it is one, is none of these.
abbrev Other : ℕ → List ℕ → Type 0
Other x [] = Unit {0}
Other x (y ∷ rest) = ((x ≢ y) ⊎ (x ≡ minus_one)) × Other x rest

abbrev pub Distinct : List ℕ → Type 0
Distinct [] = Unit {0}
Distinct (x ∷ rest) = Other x rest × Distinct rest

-- Eight sockets, no two of one session, and no session after the last one begun.
pub record IsTable {S : Type 0} (c : Client S) : Type 0 where
  pub count : length (ids c.socks) ≡ fd_size_max
  pub begun : UpTo c.session_id (ids c.socks)
  pub distinct : Distinct (ids c.socks)

-- What a thread does with the table under its lock, or between two locks.
pub data Step (u : Semaphores) : Client u.Sem → Client u.Sem → Type 0 where
  take :
      {c c' : Client u.Sem} (i : ℕ)
      → c.session_id + 1 < minus_one
      → take_socket c ≡ some (i, c')
      → Step u c c'
  give_back : {c : Client u.Sem} (i : ℕ) → Step u c (release i c)
  close :
      {c : Client u.Sem} (i : ℕ)
      → Step u c (update i (λ q. record q { status = idle; sock_fd = minus_one }) c)
  lend :
      {c : Client u.Sem} (i : ℕ) (mem : List ℕ)
      → Step u c (update i (λ q. record q { recv_buf = mem }) c)
  wait : {c c' : Client u.Sem} (i k : ℕ) → sem_wait u i k c ≡ some c' → Step u c c'
  receive :
      {c c' : Client u.Sem} (m : Message) (code : ℤ)
      → client_receive u m c ≡ some (code, c')
      → Step u c c'

pub data Steps (u : Semaphores) : Client u.Sem → Client u.Sem → Type 0 where
  start : {c : Client u.Sem} → Steps u c c
  then_step : {a b c : Client u.Sem} → Steps u a b → Step u b c → Steps u a c

IsTable-Kept : {S : Type 0} (c c' : Client S) → Kept c c' → IsTable c → IsTable c'
IsTable-Kept c c' k h = record {
  count = ap length k.0 ∙ h.count;
  begun = rw k.0 (rw k.1 h.begun);
  distinct = rw k.0 h.distinct;
}

-- Session `n` begins at socket `i`.
UpTo-set : (n i : ℕ) (xs : List ℕ) → UpTo n xs → UpTo (n + 1) (set xs i (n + 1))
UpTo-set n i [] h = tt
UpTo-set n zero (x ∷ rest) h = (inl (omega arith), UpTo_next n rest h.1)
  where
    UpTo_next : (n : ℕ) (xs : List ℕ) → UpTo n xs → UpTo (n + 1) xs
    UpTo_next n [] h = tt
    UpTo_next n (x ∷ rest) h =
        (elim h.0 [ inl a ↦ inl (omega (arith, a)) | inr b ↦ inr b ], UpTo_next n rest h.1)
UpTo-set n (suc i) (x ∷ rest) h =
    (elim h.0 [ inl a ↦ inl (omega (arith, a)) | inr b ↦ inr b ], UpTo-set n i rest h.1)

Other-new : (n : ℕ) (xs : List ℕ) → n + 1 < minus_one → UpTo n xs → Other (n + 1) xs
Other-new n [] small h = tt
Other-new n (x ∷ rest) small h = (
  inl (elim h.0 [
    | inl a ↦ λ e. absurd (omega (arith, a, e))
    | inr b ↦ λ e. absurd (omega (arith, b, e, small))
  ]),
  Other-new n rest small h.1,
)

Other-set :
    (x n i : ℕ) (xs : List ℕ)
    → n + 1 < minus_one
    → ((x ≤ n) ⊎ (x ≡ minus_one))
    → Other x xs
    → Other x (set xs i (n + 1))
Other-set x n i [] small old h = tt
Other-set x n zero (y ∷ rest) small old h =
    (elim old [ inl a ↦ inl (λ e. absurd (omega (arith, a, e))) | inr b ↦ inr b ], h.1)
Other-set x n (suc i) (y ∷ rest) small old h = (h.0, Other-set x n i rest small old h.1)

Distinct-set :
    (n i : ℕ) (xs : List ℕ)
    → n + 1 < minus_one
    → UpTo n xs
    → Distinct xs
    → Distinct (set xs i (n + 1))
Distinct-set n i [] small up d = tt
Distinct-set n zero (x ∷ rest) small up d = (Other-new n rest small up.1, d.1)
Distinct-set n (suc i) (x ∷ rest) small up d =
    (Other-set x n i rest small up.0 d.0, Distinct-set n i rest small up.1 d.1)

UpTo-replicate : (n k : ℕ) → UpTo n (replicate k minus_one)
UpTo-replicate n zero = tt
UpTo-replicate n (suc k) = (inr refl, UpTo-replicate n k)

Other-replicate : (k : ℕ) → Other minus_one (replicate k minus_one)
Other-replicate zero = tt
Other-replicate (suc k) = (inr refl, Other-replicate k)

Distinct-replicate : (k : ℕ) → Distinct (replicate k minus_one)
Distinct-replicate zero = tt
Distinct-replicate (suc k) = (Other-replicate k, Distinct-replicate k)

module _ (u : Semaphores) where
  update-Kept :
      (i : ℕ) (f : SocketResource u.Sem → SocketResource u.Sem) (c : Client u.Sem)
      → ((q : SocketResource u.Sem) → (f q).session_id ≡ q.session_id)
      → Kept c (update i f c)
  unfolding update
  update-Kept i f c h = elim (Option-cases (get_elem? c.socks i)) [
    | inl nothing ↦ rw (nothing, update) (refl, refl)
    | inr (q, found) ↦ rw (found, update) (ids-set_same c.socks i q (f q) found (h q), refl)
  ]

  sem_wait-Kept : (i k : ℕ) (c : Client u.Sem) → Ensures (Kept c) (sem_wait u i k c)
  unfolding sem_wait
  sem_wait-Kept i k c = elim (Option-cases (get_elem? c.socks i)) [
    | inl nothing ↦ rw nothing tt
    | inr (q, found) ↦ rw found (
        bind-Ensures (Kept c) (u.wait (q.sem k)) _ λ s. (
          ids-set_same c.socks i q (record q { sem = λ j. if j == k then s else q.sem j }) found
              refl,
          refl,
        ))
  ]

  taken-IsTable :
      (c : Client u.Sem) (i : ℕ) (q : SocketResource u.Sem)
      → c.session_id + 1 < minus_one
      → IsTable c
      → IsTable (taken i q (c.session_id + 1) c)
  taken-IsTable c i q small h =
      let n = c.session_id in
      let p = record q { session_id = n + 1; status = waiting; sock_fd = minus_one } in
      let same = ids-set c.socks i p in
      record {
        count = ap length same ∙ length-set (ids c.socks) i (n + 1) ∙ h.count;
        begun = rw same (UpTo-set n i (ids c.socks) h.begun);
        distinct = rw same (Distinct-set n i (ids c.socks) small h.begun h.distinct);
      }

  take_socket-IsTable :
      (c c' : Client u.Sem) (i : ℕ)
      → c.session_id + 1 < minus_one
      → take_socket c ≡ some (i, c')
      → IsTable c
      → IsTable c'
  take_socket-IsTable c c' i small e h = elim (Option-cases (get_fds_idx c.socks)) [
    | inl full ↦ cc (take_socket-none c full)
    | inr (j, found) ↦
        let (q, f) = get_fds_idx-First c.socks j found in
        let same : (c.session_id + 1) % 2 ^ 32 ≡ c.session_id + 1 = omega (arith, small) in
        let done : some (j, taken j q (c.session_id + 1) c) ≡ some (i, c') =
          sym (take_socket_lem c j q found f ∙ ap (λ n. some (j, taken j q n c)) same) ∙ e in
        subst IsTable (pair_second done) (taken-IsTable c j q small h)
  ]
    where
      pair_second : {a b : ℕ × Client u.Sem} → some a ≡ some b → a.1 ≡ b.1
      pair_second e = cc

  Step-IsTable : {c c' : Client u.Sem} → Step u c c' → IsTable c → IsTable c'
  unfolding release
  Step-IsTable {c} {c'} (take i small e) h = take_socket-IsTable c c' i small e h
  Step-IsTable {c} {c'} (give_back i) h =
      IsTable-Kept c _ (update-Kept i (λ q. record q { status = idle }) c (λ q. refl)) h
  Step-IsTable {c} {c'} (close i) h =
      IsTable-Kept c _
        (update-Kept i (λ q. record q { status = idle; sock_fd = minus_one }) c (λ q. refl)) h
  Step-IsTable {c} {c'} (lend i mem) h =
      IsTable-Kept c _ (update-Kept i (λ q. record q { recv_buf = mem }) c (λ q. refl)) h
  Step-IsTable {c} {c'} (wait i k e) h =
      IsTable-Kept c c' (Ensures_some (Kept c) (sem_wait u i k c) c' (sem_wait-Kept i k c) e) h
  Step-IsTable {c} {c'} (receive m code e) h =
      IsTable-Kept c c' (client_receive-Kept u m c c' code e) h

  Steps-IsTable : {c c' : Client u.Sem} → Steps u c c' → IsTable c → IsTable c'
  Steps-IsTable start h = h
  Steps-IsTable (then_step before step) h = Step-IsTable step (Steps-IsTable before h)

  -- From the start, whatever the threads of the client do with its table and whatever messages
  -- arrive, in any order and with fewer than 2^32 - 2 sessions begun: the table has eight sockets,
  -- no two of them are in the same session, and none is in a session that has not begun.
  pub one_session : {c : Client u.Sem} → Steps u (net_helper_cli_init u) c → IsTable c
  unfolding net_helper_cli_init unused
  one_session steps = Steps-IsTable steps (record {
    count = refl;
    begun = UpTo-replicate 0 fd_size_max;
    distinct = Distinct-replicate fd_size_max;
  })

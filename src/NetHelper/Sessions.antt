-- ===== src/NetHelper/Sessions.antt =====
-- The sessions of channel/uni_network_helper_client.c: which socket a new one takes, and that no other
-- socket has its number.
use mathlib.Core.Option
use mathlib.Core.Path.{subst}
use lib_uart_comm_protocol_l.Prelude.{
  ℕ, zero, suc, ◌+◌, ◌%◌, ◌^◌, ◌<◌, ◌≤◌, ◌≡◌, refl, sym, ap, ◌∙◌, arith, Bool, true, false, none,
  some, Option-cases, inl, inr, ◌⊎◌, List, [], ◌∷◌, if◌then◌else◌, length, set,
}
use lib_uart_comm_protocol_l.NetHelper.Messages.{minus_one}
use lib_uart_comm_protocol_l.NetHelper.Client.{
  SocketResource, Client, is_idle, waiting, get_fds_idx, take_socket, update, current_session_id,
}
use lib_uart_comm_protocol_l.NetHelper.Responses.{in_session}
use lib_uart_comm_protocol_l.NetHelper.Owner.{First, get_elem?-First}

abbrev pub idle_at : {S : Type 0} → SocketResource S → Bool
idle_at q = is_idle q.status

pub get_fds_idx-First :
    {S : Type 0} (socks : List (SocketResource S)) (i : ℕ)
    → get_fds_idx socks ≡ some i
    → (q : SocketResource S) × First idle_at socks i q
unfolding get_fds_idx
get_fds_idx-First [] i e = cc
get_fds_idx-First (p ∷ rest) i e =
    (elim (is_idle p.status)
        as (λ b.
          (is_idle p.status ≡ b)
          → (if b then some 0 else Option.map suc (get_fds_idx rest)) ≡ some i
          → (q : _) × First idle_at (p ∷ rest) i q) [
            | true ↦ λ h. λ e.
                elim i as (λ i. (some 0 ≡ some i) → (q : _) × First idle_at (p ∷ rest) i q) [
                  | zero ↦ λ e. (p, (refl, h))
                  | suc j ↦ λ e. cc
                ]
                  e
            | false ↦ λ h. λ e. elim (Option-cases (get_fds_idx rest)) [
              | inl nothing ↦ cc
              | inr (j, found) ↦
                  let next = get_fds_idx-First rest j found in
                  let same : some (suc j) ≡ some i = ap (Option.map suc) (sym found) ∙ e in
                  subst (λ i. (q : _) × First idle_at (p ∷ rest) i q) {x = suc j} (cc same)
                    (next.0, (h, next.1))
            ]
          ])
      refl e

-- The sessions of the sockets.
abbrev pub ids : {S : Type 0} → List (SocketResource S) → List ℕ
ids [] = []
ids (q ∷ rest) = q.session_id ∷ ids rest

-- No session has begun after this number.
abbrev pub UpTo : ℕ → List ℕ → Type 0
UpTo n [] = Unit {0}
UpTo n (x ∷ rest) = ((x ≤ n) ⊎ (x ≡ minus_one)) × UpTo n rest

pub begun :
    {S : Type 0} (socks : List (SocketResource S)) (i n : ℕ) (q : SocketResource S)
    → UpTo n (ids socks)
    → n + 1 < minus_one
    → i < length socks
    → q.session_id ≡ n + 1
    → First (in_session (n + 1)) (set socks i q) i q
begun [] i n q up small h e = absurd (omega (arith, h))
begun (p ∷ rest) zero n q up small h e = (refl, ground (arith, e))
begun (p ∷ rest) (suc i) n q up small h e = (
  elim up.0 [ inl old ↦ ground (arith, old) | inr none_yet ↦ ground (arith, none_yet, small) ],
  begun rest i n q up.1 small (omega (arith, h)) e,
)

-- The client once socket `i`, which was `q`, has been taken for session `n`.
abbrev pub taken : {S : Type 0} → ℕ → SocketResource S → ℕ → Client S → Client S
taken i q n c = record c {
  session_id = n;
  socks = set c.socks i (record q { session_id = n; status = waiting; sock_fd = minus_one });
}

pub take_socket_lem :
    {S : Type 0} (c : Client S) (i : ℕ) (q : SocketResource S)
    → get_fds_idx c.socks ≡ some i
    → First idle_at c.socks i q
    → take_socket c ≡ some (i, taken i q ((c.session_id + 1) % 2 ^ 32) c)
unfolding take_socket current_session_id update
take_socket_lem c i q e f = rw e (rw (get_elem?-First idle_at c.socks i q f) refl)

pub take_socket-none :
    {S : Type 0} (c : Client S) → get_fds_idx c.socks ≡ none → take_socket c ≡ none
unfolding take_socket
take_socket-none c e = rw e refl

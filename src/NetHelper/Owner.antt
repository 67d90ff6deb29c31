-- ===== src/NetHelper/Owner.antt =====
-- Which socket of the client an answer is for: the first one in use with the answer's descriptor.
use mathlib.Core.Path.{subst}
use lib_uart_comm_protocol_l.Prelude.{
  ℕ, zero, suc, ◌<◌, ◌≡◌, sym, ap, arith, Bool, true, false, Option, some, List, [], ◌∷◌, ◌==◌,
  if◌then◌else◌, length, get_elem?, set, get_elem?-set_self,
}
use lib_uart_comm_protocol_l.NetHelper.Client.{
  Semaphores, SocketResource, Client, get_sem_index_by_client_msg, Link, sem_wait, transact,
}
use lib_uart_comm_protocol_l.NetHelper.Responses.{change_first, has_fd, wake}

-- Socket `i` is `q`, which passes the test, and no socket before it does.
abbrev pub First :
    {S : Type 0}
    → (SocketResource S → Bool)
    → List (SocketResource S)
    → ℕ
    → SocketResource S
    → Type 0
First test [] i q = ⊥
First test (p ∷ rest) zero q = (p ≡ q) × (test q ≡ true)
First test (p ∷ rest) (suc i) q = (test p ≡ false) × First test rest i q

-- Socket `i` is `q`, in use, and no socket before it is in use with the same descriptor.
abbrev pub Owns : {S : Type 0} → List (SocketResource S) → ℕ → SocketResource S → Type 0
Owns socks i q = First (has_fd q.sock_fd) socks i q

module _ {S : Type 0} (test : SocketResource S → Bool) where
  pub First-lt-length :
      (socks : List (SocketResource S)) (i : ℕ) (q : SocketResource S)
      → First test socks i q
      → i < length socks
  First-lt-length [] i q o = absurd o
  First-lt-length (p ∷ rest) zero q o = omega arith
  First-lt-length (p ∷ rest) (suc i) q o = omega (arith, First-lt-length rest i q o.1)

  pub get_elem?-First :
      (socks : List (SocketResource S)) (i : ℕ) (q : SocketResource S)
      → First test socks i q
      → get_elem? socks i ≡ some q
  get_elem?-First [] i q o = absurd o
  get_elem?-First (p ∷ rest) zero q o = ap some o.0
  get_elem?-First (p ∷ rest) (suc i) q o = get_elem?-First rest i q o.1

  change_first_here :
      (change : SocketResource S → Option (SocketResource S)) (p p' : SocketResource S)
      (rest : List (SocketResource S))
      → test p ≡ true
      → change p ≡ some p'
      → change_first test change (p ∷ rest) ≡ some (p' ∷ rest)
  unfolding change_first
  change_first_here change p p' rest h e = rw (h, change_first) (rw e)

  change_first_later :
      (change : SocketResource S → Option (SocketResource S)) (p : SocketResource S)
      (rest rest' : List (SocketResource S))
      → test p ≡ false
      → change_first test change rest ≡ some rest'
      → change_first test change (p ∷ rest) ≡ some (p ∷ rest')
  unfolding change_first
  change_first_later change p rest rest' h e = rw (h, change_first) (rw e)

  pub change_first-First :
      (socks : List (SocketResource S)) (i : ℕ) (q q' : SocketResource S)
      (change : SocketResource S → Option (SocketResource S))
      → First test socks i q
      → change q ≡ some q'
      → change_first test change socks ≡ some (set socks i q')
  change_first-First [] i q q' change o e = absurd o
  change_first-First (p ∷ rest) zero q q' change o e =
      subst (λ p. change_first test change (p ∷ rest) ≡ some (q' ∷ rest)) (sym o.0)
        (change_first_here change q q' rest o.1 e)
  change_first-First (p ∷ rest) (suc i) q q' change o e =
      change_first_later change p rest (set rest i q') o.0
        (change_first-First rest i q q' change o.1 e)

module _ (u : Semaphores) where
  -- A socket whose call of this kind has been woken and has gone on.
  abbrev pub woken : ℕ → SocketResource u.Sem → SocketResource u.Sem
  woken cmd q =
      let k = get_sem_index_by_client_msg cmd in
      record q {
        sem = λ j. if j == k then q.sem k else (if j == k then u.post (q.sem j) else q.sem j);
      }

  self_eq : (k : ℕ) → (k == k) ≡ true
  self_eq k = ground arith

  pub sem_wait_lem :
      (cmd i : ℕ) (t : Client u.Sem) (q : SocketResource u.Sem)
      → get_elem? t.socks i ≡ some (wake u cmd q)
      → sem_wait u i (get_sem_index_by_client_msg cmd) t
        ≡ some (record t { socks = set t.socks i (woken cmd q) })
  unfolding sem_wait wake
  sem_wait_lem cmd i t q f =
      let k = get_sem_index_by_client_msg cmd in rw f (rw (self_eq k) (rw (u.wait-post (q.sem k))))

  in_range :
      (socks : List (SocketResource u.Sem)) (i : ℕ) (q : SocketResource u.Sem)
      → get_elem? socks i ≡ some q
      → i < length socks
  in_range [] i q e = cc
  in_range (p ∷ rest) zero q e = omega arith
  in_range (p ∷ rest) (suc i) q e = omega (arith, in_range rest i q e)

  -- A call whose answer has been filed with its socket returns what was filed.
  pub transact_answered :
      (link : Link u.Sem) (cmd : ℕ) (payload : List ℕ) (i : ℕ) (result : SocketResource u.Sem → ℕ)
      (c t : Client u.Sem) (q : SocketResource u.Sem)
      → link (record { cmd = cmd; payload = payload }) c ≡ some (0, t)
      → get_elem? t.socks i ≡ some (wake u cmd q)
      → transact u link cmd payload i result c
        ≡ some (result (woken cmd q), record t { socks = set t.socks i (woken cmd q) })
  unfolding transact
  transact_answered link cmd payload i result c t q e f = rw e (
      rw (sem_wait_lem cmd i t q f)
        (rw (get_elem?-set_self t.socks i (woken cmd q) (in_range t.socks i _ f))))

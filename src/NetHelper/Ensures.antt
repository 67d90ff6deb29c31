-- ===== src/NetHelper/Ensures.antt =====
-- What every result of a handler has, and the handler of a message by its number, as the `switch` of
-- channel/uni_network_helper_server.c and channel/uni_network_helper_client.c chooses it.
use mathlib.Core.Option
use mathlib.Core.Path.{subst}
use lib_uart_comm_protocol_l.Prelude.{
  ℕ, ◌≡◌, refl, true, false, Option, none, some, ◌==◌, ==_iff, if◌then◌else◌, bind,
}

-- Every result has this property; a fault has no result.
abbrev pub Ensures : {A : Type 0} → (A → Type 0) → Option A → Type 0
Ensures P none = Unit {0}
Ensures P (some x) = P x

pub bind-Ensures :
    {A B : Type 0} (P : B → Type 0) (x : Option A) (f : A → Option B)
    → ((a : A) → Ensures P (f a))
    → Ensures P (bind x f)
bind-Ensures P none f h = tt
bind-Ensures P (some a) f h = h a

pub map-Ensures :
    {A B : Type 0} (P : A → Type 0) (Q : B → Type 0) (x : Option A) (f : A → B)
    → Ensures P x
    → ((a : A) → P a → Q (f a))
    → Ensures Q (Option.map f x)
map-Ensures P Q none f e h = tt
map-Ensures P Q (some a) f e h = h a e

pub Ensures_some :
    {A : Type 0} (P : A → Type 0) (x : Option A) (a : A) → Ensures P x → x ≡ some a → P a
Ensures_some P x a e h = subst (Ensures P) h e

pub by_number :
    {A : Type 0} (P : Option A → Type 0) (cmd k : ℕ) (handle : A) (rest : Option A)
    → (cmd ≡ k → P (some handle))
    → P rest
    → P (if cmd == k then some handle else rest)
by_number P cmd k handle rest here later =
    elim (cmd == k) as (λ b. ((cmd == k) ≡ b) → P (if b then some handle else rest)) [
      | true ↦ λ e. here ((==_iff cmd k).0 e)
      | false ↦ λ e. later
    ]
      refl

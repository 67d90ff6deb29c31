-- ===== src/Interruptable/Life.antt =====
-- What utils/uni_interruptable.c takes from the system, and gives back.
use lib_uart_comm_protocol_l.Prelude.{
  ℕ, suc, ◌≡◌, refl, ap, ◌∙◌, arith, true, Option, none, some, List, [], ◌∷◌, ◌==◌, Bool-cases, inl,
  inr,
}
use lib_uart_comm_protocol_l.Prelude.Int.{pos}
use lib_uart_comm_protocol_l.Interruptable.{
  Interruptable, Resources, System, socket_set_nonblocking, async_pipe, created, interrupt_create,
  interrupt_destroy, free, close,
}

close-first : (fd : ℕ) (rest : List ℕ) → close fd (fd ∷ rest) ≡ rest
unfolding close
close-first fd rest = let same : (fd == fd) ≡ true = ground arith in rw same refl

-- The two outcomes of `InterruptCreate`.
pub data Created (os : Resources) : Option Interruptable × Resources → Type 0 where
  works :
      (i : Interruptable) (os' : Resources)
      → i.flag ≡ 0
      → i.waiting ≡ []
      → interrupt_destroy i os' ≡ (pos 0, os)
      → Created os (some i, os')
  fails : (os' : Resources) → os'.blocks ≡ os.blocks → Created os (none, os')

-- The two outcomes of `_async_pipe`, for a handle whose block is allocated.
data Piped (os : Resources) : Option (ℕ × ℕ) × Resources → Type 0 where
  both_ends :
      (r w : ℕ)
      → Piped os
          (some (r, w), record { descriptors = r ∷ w ∷ os.descriptors; blocks = suc os.blocks })
  no_ends : (fds : List ℕ) → Piped os (none, record { descriptors = fds; blocks = suc os.blocks })

async_pipe-Piped :
    (sys : System) (os : Resources) (ends : Option (ℕ × ℕ))
    → sys.pipe ≡ ends
    → Piped os (async_pipe sys (record os { blocks = suc os.blocks }))
unfolding async_pipe
async_pipe-Piped sys os none e = rw e (no_ends os.descriptors)
async_pipe-Piped sys os (some (r, w)) e = elim (Bool-cases (socket_set_nonblocking sys r)) [
  | inl reads ↦ elim (Bool-cases (socket_set_nonblocking sys w)) [
    | inl writes ↦ rw (e, reads, writes) (both_ends r w)
    | inr blocks ↦ rw (e, reads, blocks) (no_ends (r ∷ w ∷ os.descriptors))
  ]
  | inr blocks ↦ rw (e, blocks) (no_ends (r ∷ w ∷ os.descriptors))
]

created-Created :
    (os : Resources) (p : Option (ℕ × ℕ) × Resources) → Piped os p → Created os (created p)
unfolding created interrupt_destroy free
created-Created os _ (both_ends r w) = works _ _ refl refl (
    ap (λ fds. (pos 0, record os { descriptors = close w fds }))
      (close-first r (w ∷ os.descriptors))
    ∙ ap (λ fds. (pos 0, record os { descriptors = fds })) (close-first w os.descriptors))
created-Created os _ (no_ends fds) = fails _ refl

-- InterruptCreate either gives a handle with an empty pipe, which InterruptDestroy takes back with all that was
-- opened and allocated for it, or NULL, and then no memory is kept.
pub interrupt_create-Created :
    (sys : System) (os : Resources) → Created os (interrupt_create sys os)
unfolding interrupt_create
interrupt_create-Created sys os = elim (Bool-cases sys.has_memory) [
  | inl memory ↦ rw memory (created-Created os _ (async_pipe-Piped sys os sys.pipe refl))
  | inr full ↦ rw full (fails os refl)
]

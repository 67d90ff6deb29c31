-- ===== src/Interruptable/Latch.antt =====
-- The sleep and the break of utils/uni_interruptable.c against a latch, over any sequence of calls.
use lib_uart_comm_protocol_l.Prelude.{
  ℕ, ◌+◌, ◌≤◌, ◌≡◌, refl, ap, ◌∙◌, arith, Bool, true, false, ◌&&◌, ◌||◌, List, [], ◌∷◌, ◌++◌, ltb,
  leb, if◌then◌else◌, length, drop_all, length-append, Bool-cases, inl, inr,
}
use lib_uart_comm_protocol_l.Prelude.Int.{ℤ, pos, negsuc}
use lib_uart_comm_protocol_l.Interruptable.{
  Interruptable, Wake, failed, arrived, Select, read_size, break_byte, timeval, selected,
  interruptable_select, interruptable_sleep, interruptable_break,
}

-- A call, with what the system gives it.
pub data Call : Type 0 where
  sleep : Select → ℤ → Call
  break : Call

unfoldable pub perform : ℕ → Call → Interruptable → ℤ × Interruptable
unfolding interruptable_sleep interruptable_break
perform capacity (sleep select msec) i = interruptable_sleep select msec i
perform capacity break i = interruptable_break capacity i

unfoldable pub run : ℕ → List Call → Interruptable → List ℤ
unfolding perform
run capacity [] i = []
run capacity (call ∷ rest) i =
    let (code, i') = perform capacity call i in code ∷ run capacity rest i'

-- A latch: a break sets it, and a sleep that is not refused says whether it was set before or during the
-- sleep, and clears it.
unfoldable pub woken : Wake → Bool → ℤ × Bool
woken failed set = (pos 0, set)
woken (arrived bytes) set = (pos (if set || ltb 0 (length bytes) then 1 else 0), false)

unfoldable pub latch_call : Call → Bool → ℤ × Bool
unfolding woken
latch_call (sleep select (negsuc n)) set = (negsuc 0, set)
latch_call (sleep select (pos msec)) set = woken (select (timeval msec)) set
latch_call break set = (pos 0, true)

unfoldable pub latch : List Call → Bool → List ℤ
unfolding latch_call
latch [] set = []
latch (call ∷ rest) set = let (code, set') = latch_call call set in code ∷ latch rest set'

-- Whether no sleep finds more than 64 bytes in the pipe, and no break finds 64 there, if this many are.
unfoldable pub few_after : Wake → ℕ → Bool × ℕ
few_after failed n = (true, n)
few_after (arrived bytes) n = (leb (n + length bytes) read_size, 0)

unfoldable pub few : List Call → ℕ → Bool
unfolding few_after
few [] n = true
few (sleep select (negsuc k) ∷ rest) n = few rest n
few (sleep select (pos msec) ∷ rest) n =
    let (fits, left) = few_after (select (timeval msec)) n in fits && few rest left
few (break ∷ rest) n = ltb n read_size && few rest (n + 1)

-- The latch that stands for the pipe.
abbrev pub pending : Interruptable → Bool
pending i = ltb 0 (length i.waiting)

both : (a b : Bool) → (a && b) ≡ true → (a ≡ true) × (b ≡ true)
both true b e = (refl, e)
both false b e = ground (arith, e)

-- What a sleep does, once the system has answered.
selected-woken :
    (i : Interruptable) (w : Wake)
    → (few_after w (length i.waiting)).0 ≡ true
    → ((pos (selected w i).flag, pending (selected w i)) ≡ woken w (pending i))
      × (length (selected w i).waiting ≡ (few_after w (length i.waiting)).1)
unfolding selected woken few_after
selected-woken i failed fits = (refl, refl)
selected-woken i (arrived bytes) fits =
    let all = i.waiting ++ bytes in
    let total = length-append i.waiting bytes in
    let short : length all ≤ read_size = ground (arith, total, fits) in
    let set : (pending i || ltb 0 (length bytes)) ≡ ltb 0 (length all) = ground (arith, total) in
    elim (Bool-cases (ltb 0 (length all))) [
      | inl some_byte ↦ rw (set, some_byte, drop_all all read_size short) (refl, refl)
      | inr no_byte ↦
          let none_left : length all ≡ 0 = ground (arith, no_byte) in
          rw (set, no_byte) (rw none_left (refl, refl))
    ]

module _ (capacity : ℕ) (enough : read_size ≤ capacity) where
  -- With a pipe that holds 64 bytes or more, and no sleep that finds more than 64 there and no
  -- break that finds 64, any sequence of breaks and sleeps gives what a latch gives: a break
  -- returns 0 and sets it, a sleep for a negative time returns -1, one whose select fails returns
  -- 0, and any other returns 1 if the latch was set before or during it, else 0, and clears it.
  pub run-latch :
      (calls : List Call) (i : Interruptable)
      → few calls (length i.waiting) ≡ true
      → run capacity calls i ≡ latch calls (pending i)
  unfolding run perform latch latch_call few interruptable_sleep interruptable_select
      interruptable_break
  run-latch [] i h = refl
  run-latch (sleep select (negsuc k) ∷ rest) i h =
      ap (λ codes. negsuc 0 ∷ codes) (run-latch rest i h)
  run-latch (sleep select (pos msec) ∷ rest) i h =
      let w = select (timeval msec) in
      let (fits, after) =
        both (few_after w (length i.waiting)).0 (few rest (few_after w (length i.waiting)).1) h in
      let (same, left) = selected-woken i w fits in
      let later : few rest (length (selected w i).waiting) ≡ true = ap (few rest) left ∙ after in
      ap (λ codes. pos (selected w i).flag ∷ codes) (run-latch rest (selected w i) later)
      ∙ ap (λ p. p.0 ∷ latch rest p.1) same
  run-latch (break ∷ rest) i h =
      let (fits, after) =
        both (ltb (length i.waiting) read_size) (few rest (length i.waiting + 1)) h in
      let room : ltb (length i.waiting) capacity ≡ true = ground (arith, enough, fits) in
      let more = length-append i.waiting (break_byte ∷ []) in
      let written = record i { waiting = i.waiting ++ (break_byte ∷ []) } in
      let later : few rest (length written.waiting) ≡ true = ap (few rest) more ∙ after in
      let set : pending written ≡ true = ground (arith, more) in
      rw room (ap (λ codes. pos 0 ∷ codes) (run-latch rest written later ∙ ap (latch rest) set))

-- ===== src/Program/Order.antt =====
-- Numbers of packets, in order, and what is taken from a list one by one.
use lib_uart_comm_protocol_l.Prelude.{
  ℕ, zero, suc, ◌<◌, ◌≡◌, refl, sym, ap, ◌∙◌, arith, some, List, [], ◌∷◌, ◌++◌, length, get_elem?,
  take, length-append,
}
use native.Mathlib.Decide.{dec_le}
use lib_uart_comm_protocol_l.Channel.Queued.{numbers}
use lib_uart_comm_protocol_l.Channel.Handed.{length-numbers}

module _ {A : Type 0} where
  get_at : (a b : List A) (e : A) → get_elem? (a ++ (e ∷ b)) (length a) ≡ some e
  get_at [] b e = refl
  get_at (x ∷ a) b e = get_at a b e

  get_within : (a b : List A) (i : ℕ) → i < length a → get_elem? (a ++ b) i ≡ get_elem? a i
  get_within [] b i h = absurd (omega (arith, h))
  get_within (x ∷ a) b zero h = refl
  get_within (x ∷ a) b (suc i) h = get_within a b i (omega (arith, h))

  -- The next element
  pub take-get_elem? :
      (xs : List A) (n : ℕ)
      → n < length xs
      → (x : A) × (get_elem? xs n ≡ some x) × (take (suc n) xs ≡ take n xs ++ (x ∷ []))
  take-get_elem? [] n h = absurd (omega (arith, h))
  take-get_elem? (x ∷ xs) zero h = (x, refl, refl)
  take-get_elem? (x ∷ xs) (suc n) h =
      let (y, found, taken) = take-get_elem? xs n (omega (arith, h)) in
      (y, found, ap (λ l. x ∷ l) taken)

get_elem?-numbers : (n i : ℕ) → i < n → get_elem? (numbers n) i ≡ some i
get_elem?-numbers zero i h = absurd (omega (arith, h))
get_elem?-numbers (suc n) i h = elim (dec_le n i) [
  | no below ↦
      get_within (numbers n) (n ∷ []) i (omega (arith, below, length-numbers n))
      ∙ get_elem?-numbers n i (omega (arith, below))
  | yes above ↦
      let same : i ≡ length (numbers n) = omega (arith, h, above, length-numbers n) in
      let last : n ≡ i = omega (arith, h, above) in
      ap (get_elem? (numbers n ++ (n ∷ []))) same ∙ get_at (numbers n) [] n ∙ ap some last
]

-- The number behind the first ones is how many they are.
pub numbers_next :
    (n : ℕ) (a b : List ℕ) (e : ℕ) → a ++ (e ∷ b) ≡ numbers n → (e ≡ length a) × (length a < n)
numbers_next n a b e h =
    let size : length a < n =
      omega (arith, ap length h, length-append a (e ∷ b), length-numbers n) in
    (
      some_inj (
          sym (get_at a b e)
          ∙ ap (λ l. get_elem? l (length a)) h
          ∙ get_elem?-numbers n (length a) size),
      size,
    )
  where
    some_inj : {a b : ℕ} → some a ≡ some b → a ≡ b
    some_inj e = cc

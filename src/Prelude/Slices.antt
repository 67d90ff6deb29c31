-- ===== src/Prelude/Slices.antt =====
-- How `take` and `drop` go through one another and through `++`.
use Prim.Native.Nat.{ℕ, zero, suc, ◌+◌, ◌-◌, ◌≤◌}
use mathlib.Core.Path.{◌≡◌, refl, ap}
use mathlib.Core.List.{List, [], ◌∷◌, ◌++◌}
use native.Mathlib.Omega.{arith}
use lib_uart_comm_protocol_l.Prelude.Lists.{length, take, drop}

module _ {ℓ} {A : Type ℓ} where
  take_none : (n : ℕ) → take {A = A} n [] ≡ []
  take_none zero = refl
  take_none (suc n) = refl

  drop_none : (n : ℕ) → drop {A = A} n [] ≡ []
  drop_none zero = refl
  drop_none (suc n) = refl

module _ {ℓ} {A : Type ℓ} where
  pub take-take : (n k : ℕ) (xs : List A) → n ≤ k → take n (take k xs) ≡ take n xs
  take-take zero k xs h = refl
  take-take (suc n) zero xs h = absurd (omega arith)
  take-take (suc n) (suc k) [] h = refl
  take-take (suc n) (suc k) (x ∷ xs) h = ap (λ l. x ∷ l) (take-take n k xs (omega arith))

  pub drop-drop : (n k j : ℕ) (xs : List A) → j ≡ k + n → drop n (drop k xs) ≡ drop j xs
  drop-drop n zero j xs e = ap (λ i. drop i xs) (omega arith)
  drop-drop n (suc k) j [] e = rw (drop_none {A = A} n, drop_none {A = A} j)
  drop-drop n (suc k) zero (x ∷ xs) e = absurd (omega arith)
  drop-drop n (suc k) (suc j) (x ∷ xs) e = drop-drop n k j xs (omega arith)

  pub drop-take : (n k j : ℕ) (xs : List A) → j ≡ k - n → drop n (take k xs) ≡ take j (drop n xs)
  drop-take zero k j xs e = ap (λ i. take i xs) (omega arith)
  drop-take (suc n) zero zero xs e = refl
  drop-take (suc n) zero (suc j) xs e = absurd (omega arith)
  drop-take (suc n) (suc k) j [] e = rw (take_none {A = A} j)
  drop-take (suc n) (suc k) j (x ∷ xs) e = drop-take n k j xs (omega arith)

  pub take_within : (n : ℕ) (xs ys : List A) → n ≤ length xs → take n (xs ++ ys) ≡ take n xs
  take_within zero xs ys h = refl
  take_within (suc n) [] ys h = absurd (omega arith)
  take_within (suc n) (x ∷ xs) ys h = ap (λ l. x ∷ l) (take_within n xs ys (omega arith))

  pub take_beyond :
      (n j : ℕ) (xs ys : List A) → n ≡ length xs + j → take n (xs ++ ys) ≡ xs ++ take j ys
  take_beyond n j [] ys e = ap (λ i. take i ys) (omega arith)
  take_beyond zero j (x ∷ xs) ys e = absurd (omega arith)
  take_beyond (suc n) j (x ∷ xs) ys e = ap (λ l. x ∷ l) (take_beyond n j xs ys (omega arith))

  pub drop_within : (n : ℕ) (xs ys : List A) → n ≤ length xs → drop n (xs ++ ys) ≡ drop n xs ++ ys
  drop_within zero xs ys h = refl
  drop_within (suc n) [] ys h = absurd (omega arith)
  drop_within (suc n) (x ∷ xs) ys h = drop_within n xs ys (omega arith)

  pub drop_beyond : (n j : ℕ) (xs ys : List A) → n ≡ length xs + j → drop n (xs ++ ys) ≡ drop j ys
  drop_beyond n j [] ys e = ap (λ i. drop i ys) (omega arith)
  drop_beyond zero j (x ∷ xs) ys e = absurd (omega arith)
  drop_beyond (suc n) j (x ∷ xs) ys e = drop_beyond n j xs ys (omega arith)

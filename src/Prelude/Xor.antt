-- ===== src/Prelude/Xor.antt =====
-- Exclusive or of native numbers at variables: the law for the lowest digit, and what follows.
use Prim.Native.Nat.{
  ℕ, zero, suc, ◌+◌, ◌*◌, ◌/◌, ◌%◌, ◌^◌, ◌≤◌, ◌<◌, bit_xor, digits, differ, bit_xor-bitwise,
}
use mathlib.Core.Path.{◌≡◌, refl, ap}
use native.Mathlib.Nat.{pow-suc}
use native.Mathlib.Omega.{arith}

-- The digits of an exclusive or, with fuel as the native operation's definition has it.
abbrev xor_digits : ℕ → ℕ → ℕ → ℕ
xor_digits fuel x y = digits (λ d. d) differ fuel x y

-- Any fuel that is enough gives the same.
xor_digits_fuel :
    (x y fuel more : ℕ) → x ≤ more → x ≤ fuel → xor_digits fuel x y ≡ xor_digits more x y
xor_digits_fuel zero y zero zero small enough = refl
xor_digits_fuel zero y (suc fuel) zero small enough = refl
xor_digits_fuel zero y zero (suc more) small enough = refl
xor_digits_fuel zero y (suc fuel) (suc more) small enough = refl
xor_digits_fuel (suc x) y (suc fuel) (suc more) small enough =
    ap (λ d. d * 2 + differ (suc x % 2) (y % 2))
      (xor_digits_fuel (suc x / 2) (y / 2) fuel more (omega arith) (omega arith))
xor_digits_fuel (suc x) y zero more small enough = absurd (omega arith)
xor_digits_fuel (suc x) y (suc fuel) zero small enough = absurd (omega arith)

pub zero-bit_xor : (b : ℕ) → bit_xor 0 b ≡ b
zero-bit_xor b = bit_xor-bitwise 0 b

differ_digit : (a b : ℕ) → a < 2 → b < 2 → differ a b ≡ (a + b) % 2
differ_digit zero zero p q = refl
differ_digit zero (suc zero) p q = refl
differ_digit (suc zero) zero p q = refl
differ_digit (suc zero) (suc zero) p q = refl
differ_digit zero (suc (suc b)) p q = absurd (omega arith)
differ_digit (suc zero) (suc (suc b)) p q = absurd (omega arith)
differ_digit (suc (suc a)) b p q = absurd (omega arith)

differ_sum : (a b : ℕ) → differ (a % 2) (b % 2) ≡ (a + b) % 2
differ_sum a b = ground (arith, differ_digit (a % 2) (b % 2) (omega arith) (omega arith))

-- The lowest digit of an exclusive or, and the rest of it.
pub bit_xor_step : (a b : ℕ) → bit_xor a b ≡ bit_xor (a / 2) (b / 2) * 2 + (a + b) % 2
bit_xor_step zero b = omega (arith, zero-bit_xor b, zero-bit_xor (b / 2))
bit_xor_step (suc a) b = omega (
  arith,
  bit_xor-bitwise (suc a) b,
  bit_xor-bitwise (suc a / 2) (b / 2),
  differ_sum (suc a) b,
  xor_digits_fuel (suc a / 2) (b / 2) a (suc a / 2) (omega arith) (omega arith),
)

-- The two parts of the step, which `omega` reads at each call.
pub bit_xor-div : (a b : ℕ) → bit_xor a b / 2 ≡ bit_xor (a / 2) (b / 2)
bit_xor-div a b = omega (arith, bit_xor_step a b)

pub bit_xor-mod : (a b : ℕ) → bit_xor a b % 2 ≡ (a + b) % 2
bit_xor-mod a b = omega (arith, bit_xor_step a b)

self_fuel : (n a : ℕ) → a ≤ n → bit_xor a a ≡ 0
self_fuel zero zero h = refl
self_fuel zero (suc a) h = absurd (omega arith)
self_fuel (suc n) zero h = refl
self_fuel (suc n) (suc a) h =
    omega (arith, bit_xor_step (suc a) (suc a), self_fuel n (suc a / 2) (omega arith))

pub bit_xor_self : (a : ℕ) → bit_xor a a ≡ 0
bit_xor_self a = self_fuel a a (omega arith)

cancel_fuel : (n a b : ℕ) → a ≤ n → bit_xor a (bit_xor a b) ≡ b
cancel_fuel n zero b h = omega (arith, zero-bit_xor b, zero-bit_xor (bit_xor 0 b))
cancel_fuel zero (suc a) b h = absurd (omega arith)
cancel_fuel (suc n) (suc a) b h = ground (
  arith,
  bit_xor_step (suc a) b,
  bit_xor_step (suc a) (bit_xor (suc a) b),
  bit_xor-div (suc a) b,
  cancel_fuel n (suc a / 2) (b / 2) (omega arith),
)

-- Exclusive or with the same number twice changes nothing.
pub bit_xor_cancel : (a b : ℕ) → bit_xor a (bit_xor a b) ≡ b
bit_xor_cancel a b = cancel_fuel a a b (omega arith)

comm_fuel : (n a b : ℕ) → a ≤ n → b ≤ n → bit_xor a b ≡ bit_xor b a
comm_fuel zero zero zero p q = refl
comm_fuel zero zero (suc b) p q = absurd (omega arith)
comm_fuel zero (suc a) b p q = absurd (omega arith)
comm_fuel (suc n) a b p q = omega (
  arith,
  bit_xor_step a b,
  bit_xor_step b a,
  comm_fuel n (a / 2) (b / 2) (omega arith) (omega arith),
)

pub bit_xor_comm : (a b : ℕ) → bit_xor a b ≡ bit_xor b a
bit_xor_comm a b = comm_fuel (a + b) a b (omega arith) (omega arith)

assoc_fuel : (n a b c : ℕ) → a ≤ n → b ≤ n → bit_xor (bit_xor a b) c ≡ bit_xor a (bit_xor b c)
assoc_fuel zero zero b c p q =
    omega
      (arith, zero-bit_xor b, zero-bit_xor (bit_xor b c), ap (λ t. bit_xor t c) (zero-bit_xor b))
assoc_fuel zero (suc a) b c p q = absurd (omega arith)
assoc_fuel (suc n) a b c p q = ground (
  arith,
  bit_xor_step (bit_xor a b) c,
  bit_xor_step a (bit_xor b c),
  bit_xor-div a b,
  bit_xor-div b c,
  bit_xor-mod a b,
  bit_xor-mod b c,
  assoc_fuel n (a / 2) (b / 2) (c / 2) (omega arith) (omega arith),
)

pub bit_xor_assoc : (a b c : ℕ) → bit_xor (bit_xor a b) c ≡ bit_xor a (bit_xor b c)
bit_xor_assoc a b c = assoc_fuel (a + b) a b c (omega arith) (omega arith)

pub bit_xor-injective : (a b c : ℕ) → bit_xor a b ≡ bit_xor a c → b ≡ c
bit_xor-injective a b c h = ground (arith, bit_xor_cancel a b, bit_xor_cancel a c)

-- One more place to the left doubles a number.
shift_double : (bits x : ℕ) → 2 * (x * 2 ^ bits) ≡ x * 2 ^ suc bits
shift_double bits x = grind (arith, pow-suc 2 bits)

-- The fields above and below bit `k` are combined apart.
pub bit_xor_fields :
    (k a b c d : ℕ)
    → c < 2 ^ k
    → d < 2 ^ k
    → bit_xor (a * 2 ^ k + c) (b * 2 ^ k + d) ≡ bit_xor a b * 2 ^ k + bit_xor c d
bit_xor_fields zero a b c d p q =
    let ec : c ≡ 0 = omega arith in let ed : d ≡ 0 = omega arith in ground (arith, zero-bit_xor 0)
bit_xor_fields (suc k) a b c d p q = ground (
  arith,
  bit_xor_step (a * 2 ^ suc k + c) (b * 2 ^ suc k + d),
  bit_xor_step c d,
  shift_double k a,
  shift_double k b,
  shift_double k (bit_xor a b),
  bit_xor_fields k a b (c / 2) (d / 2) (omega (arith, pow-suc 2 k)) (omega (arith, pow-suc 2 k)),
)

pub bit_xor-lt : (k a b : ℕ) → a < 2 ^ k → b < 2 ^ k → bit_xor a b < 2 ^ k
bit_xor-lt zero a b p q =
    let ea : a ≡ 0 = omega arith in let eb : b ≡ 0 = omega arith in ground (arith, zero-bit_xor 0)
bit_xor-lt (suc k) a b p q = omega (
  arith,
  bit_xor_step a b,
  pow-suc 2 k,
  bit_xor-lt k (a / 2) (b / 2) (omega (arith, pow-suc 2 k)) (omega (arith, pow-suc 2 k)),
)

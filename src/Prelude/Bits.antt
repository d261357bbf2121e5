-- ===== src/Prelude/Bits.antt =====
-- Masks of a machine word as `/`, `*` and `%`, for every width, from the digit recursion that the
-- native `bit_and` stands for.
use Prim.Native.Nat.{
  ℕ, zero, suc, ◌+◌, ◌-◌, ◌*◌, ◌/◌, ◌%◌, ◌^◌, ◌≤◌, ◌<◌, min, bit_and, digits, bit_and-bitwise,
}
use mathlib.Core.Path.{◌≡◌, refl, ◌∙◌, ap}
use native.Mathlib.Nat.{
  pow-suc, mul_comm, one-le-pow, mod-lt, mod-eq_of_lt, div-add-mod, mul-add-mod_self_left,
  div-div-eq-div-mul,
}
use mathlib.Core.Logic.{◌⊎◌, inl, inr}
use mathlib.Core.Bool.{true, false}
use native.Mathlib.Omega.{arith}
use yakuza_dead_souls_ex.Prelude.Tests.{◌==◌, Bool-cases}

abbrev min_digits : ℕ → ℕ → ℕ → ℕ
min_digits n a b = digits (λ _. zero) min n a b

-- Spare fuel changes nothing.
min_digits_enough : (n m a b : ℕ) → a ≤ n → a ≤ m → min_digits n a b ≡ min_digits m a b
min_digits_enough zero zero a b p q = refl
min_digits_enough zero (suc m) zero b p q = refl
min_digits_enough zero (suc m) (suc a) b p q = absurd (omega arith)
min_digits_enough (suc n) zero zero b p q = refl
min_digits_enough (suc n) zero (suc a) b p q = absurd (omega arith)
min_digits_enough (suc n) (suc m) zero b p q = refl
min_digits_enough (suc n) (suc m) (suc a) b p q =
    omega (arith, min_digits_enough n m (suc a / 2) (b / 2) (omega arith) (omega arith))

-- The lowest digit, and the rest.
pub bit_and_halves : (a b : ℕ) → bit_and a b ≡ 2 * bit_and (a / 2) (b / 2) + min (a % 2) (b % 2)
bit_and_halves zero b = omega (arith, bit_and-bitwise 0 b, bit_and-bitwise 0 (b / 2))
bit_and_halves (suc a) b = omega (
  arith,
  bit_and-bitwise (suc a) b,
  bit_and-bitwise (suc a / 2) (b / 2),
  min_digits_enough a (suc a / 2) (suc a / 2) (b / 2) (omega arith) (omega arith),
)

bit_and_zero_below : (n a : ℕ) → a ≤ n → bit_and a 0 ≡ 0
bit_and_zero_below n zero h = refl
bit_and_zero_below zero (suc a) h = absurd (omega arith)
bit_and_zero_below (suc n) (suc a) h =
    omega (arith, bit_and_halves (suc a) 0, bit_and_zero_below n (suc a / 2) (omega arith))

pub bit_and_zero : (a : ℕ) → bit_and a 0 ≡ 0
bit_and_zero a = bit_and_zero_below a a (omega arith)

-- The remainder by an even number, from the half's.
mod_double : (a p : ℕ) → 0 < p → a % (2 * p) ≡ 2 * (a / 2 % p) + a % 2
mod_double a p h =
    ap (λ t. t % (2 * p)) whole
    ∙ mul-add-mod_self_left (2 * p) (a / 2 / p) (2 * (a / 2 % p) + a % 2)
    ∙ mod-eq_of_lt (omega (arith, mod-lt (a / 2) h))
  where
    whole : a ≡ 2 * p * (a / 2 / p) + (2 * (a / 2 % p) + a % 2)
    whole = omega (arith, div-add-mod (a / 2) p)

pub two_pow_pos : (k : ℕ) → 0 < 2 ^ k
two_pow_pos k = one-le-pow k 2 (omega arith)

-- `a & (2^k - 1)` is `a % 2^k`.
pub bit_and_ones : (k a : ℕ) → bit_and a (2 ^ k - 1) ≡ a % 2 ^ k
bit_and_ones zero a = omega (arith, bit_and_zero a)
bit_and_ones (suc k) a =
    rw (pow-suc, mul_comm (2 ^ k) 2, mod_double a (2 ^ k) (two_pow_pos k), bit_and_halves, half)
      (omega (arith, bit_and_ones k (a / 2), two_pow_pos k))
  where
    half : (2 * 2 ^ k - 1) / 2 ≡ 2 ^ k - 1
    half = omega (arith, two_pow_pos k)

bit_and_even : (a t : ℕ) → bit_and a (2 * t) ≡ 2 * bit_and (a / 2) t
bit_and_even a t = rw (bit_and_halves a (2 * t), half) (omega arith)
  where
    half : 2 * t / 2 ≡ t
    half = omega arith

-- A mask whose `k` low bits are clear keeps what is above them.
pub bit_and_high : (k a m : ℕ) → bit_and a (2 ^ k * m) ≡ 2 ^ k * bit_and (a / 2 ^ k) m
bit_and_high zero a m = rw (plain, whole) (omega arith)
  where
    plain : 1 * m ≡ m
    plain = omega arith

    whole : a / 1 ≡ a
    whole = omega arith
bit_and_high (suc k) a m =
    ap (bit_and a) regroup
    ∙ bit_and_even a (2 ^ k * m)
    ∙ ap (λ t. 2 * t) (bit_and_high k (a / 2) m)
    ∙ back
  where
    regroup : 2 ^ suc k * m ≡ 2 * (2 ^ k * m)
    regroup = rw (pow-suc) (grind arith)

    back : 2 * (2 ^ k * bit_and (a / 2 / 2 ^ k) m) ≡ 2 ^ suc k * bit_and (a / 2 ^ suc k) m
    back = rw (div-div-eq-div-mul, pow-suc, mul_comm (2 ^ k) 2) (grind arith)

pub bit_and_self : (n a : ℕ) → a ≤ n → bit_and a a ≡ a
bit_and_self n zero h = refl
bit_and_self zero (suc a) h = absurd (omega arith)
bit_and_self (suc n) (suc a) h =
    omega (arith, bit_and_halves (suc a) (suc a), bit_and_self n (suc a / 2) (omega arith))

-- For `n` above 1 the test `n & (n - 1)` passes on to the half, and `n` is even.
test_halves :
    (n : ℕ) → 1 < n → bit_and n (n - 1) ≡ 0 → (n % 2 ≡ 0) × (bit_and (n / 2) (n / 2 - 1) ≡ 0)
test_halves n h e = elim (Bool-cases (n % 2 == 0)) [
  | inl even ↦ (ground arith, rest (ground arith))
  | inr odd ↦ absurd (odd_fails (ground arith))
]
  where
    rest : n % 2 ≡ 0 → bit_and (n / 2) (n / 2 - 1) ≡ 0
    rest even =
        let shift : (n - 1) / 2 ≡ n / 2 - 1 = omega arith in
        omega (arith, bit_and_halves n (n - 1), ap (bit_and (n / 2)) shift)

    odd_fails : n % 2 ≡ 1 → ⊥
    odd_fails odd =
        let same : (n - 1) / 2 ≡ n / 2 = omega arith in
        omega (
          arith,
          bit_and_halves n (n - 1),
          ap (bit_and (n / 2)) same,
          bit_and_self (n / 2) (n / 2) (omega arith),
        )

-- `n & (n - 1)` is 0 at powers of two only: the test that the source makes of a size.
pub pow_of_test : (f n : ℕ) → n ≤ f → 0 < n → bit_and n (n - 1) ≡ 0 → (k : ℕ) × (n ≡ 2 ^ k)
pow_of_test zero n h p e = absurd (omega arith)
pow_of_test (suc f) n h p e = go (pow_of_test f (n / 2) (omega arith)) (Bool-cases (n == 1))
  where
    go :
        (0 < n / 2 → bit_and (n / 2) (n / 2 - 1) ≡ 0 → (k : ℕ) × (n / 2 ≡ 2 ^ k))
        → ((n == 1) ≡ true) ⊎ ((n == 1) ≡ false)
        → (k : ℕ) × (n ≡ 2 ^ k)
    go ih (inl one) = (0, ground arith)
    go ih (inr more) =
        let big : 1 < n = ground arith in
        let halves : (n % 2 ≡ 0) × (bit_and (n / 2) (n / 2 - 1) ≡ 0) = test_halves n big e in
        let (k, q) = ih (omega arith) halves.1 in (suc k, rw (pow-suc) (omega (arith, halves.0)))

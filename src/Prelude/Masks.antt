-- ===== src/Prelude/Masks.antt =====
-- Setting and clearing the bits of a mask, from the same digit recursion as `Bits`.
use Prim.Native.Nat.{
  ℕ, zero, suc, ◌+◌, ◌-◌, ◌*◌, ◌/◌, ◌%◌, ◌^◌, ◌≤◌, ◌<◌, max, bit_and, bit_or, digits,
  bit_or-bitwise,
}
use mathlib.Core.Path.{◌≡◌, refl, ap}
use native.Mathlib.Nat.{pow-suc}
use native.Mathlib.Omega.{arith}
use yakuza_dead_souls_ex.Prelude.Bits.{bit_and_halves, bit_and_zero, two_pow_pos}

abbrev max_digits : ℕ → ℕ → ℕ → ℕ
max_digits n a b = digits (λ b. b) max n a b

max_digits_enough : (n m a b : ℕ) → a ≤ n → a ≤ m → max_digits n a b ≡ max_digits m a b
max_digits_enough zero zero a b p q = refl
max_digits_enough zero (suc m) zero b p q = refl
max_digits_enough zero (suc m) (suc a) b p q = absurd (omega arith)
max_digits_enough (suc n) zero zero b p q = refl
max_digits_enough (suc n) zero (suc a) b p q = absurd (omega arith)
max_digits_enough (suc n) (suc m) zero b p q = refl
max_digits_enough (suc n) (suc m) (suc a) b p q =
    omega (arith, max_digits_enough n m (suc a / 2) (b / 2) (omega arith) (omega arith))

pub bit_or_halves : (a b : ℕ) → bit_or a b ≡ 2 * bit_or (a / 2) (b / 2) + max (a % 2) (b % 2)
bit_or_halves zero b = omega (arith, bit_or-bitwise 0 b, bit_or-bitwise 0 (b / 2))
bit_or_halves (suc a) b = omega (
  arith,
  bit_or-bitwise (suc a) b,
  bit_or-bitwise (suc a / 2) (b / 2),
  max_digits_enough a (suc a / 2) (suc a / 2) (b / 2) (omega arith) (omega arith),
)

-- The bits of `b` are set in `a | b`.
pub bit_and-bit_or : (n a b : ℕ) → b ≤ n → bit_and (bit_or a b) b ≡ b
bit_and-bit_or n a zero h = bit_and_zero (bit_or a 0)
bit_and-bit_or zero a (suc b) h = absurd (omega arith)
bit_and-bit_or (suc n) a (suc b) h =
    let or_half : bit_or a (suc b) / 2 ≡ bit_or (a / 2) (suc b / 2) =
      omega (arith, bit_or_halves a (suc b)) in
    omega (
      arith,
      bit_and_halves (bit_or a (suc b)) (suc b),
      ap (λ k. bit_and k (suc b / 2)) or_half,
      bit_or_halves a (suc b),
      bit_and-bit_or n (a / 2) (suc b / 2) (omega arith),
    )

-- No bit of `b` is set in `a & ~b`.
pub bit_and-complement : (k a b : ℕ) → b < 2 ^ k → bit_and (bit_and a (2 ^ k - 1 - b)) b ≡ 0
bit_and-complement zero a zero h = bit_and_zero (bit_and a 0)
bit_and-complement zero a (suc b) h = absurd (omega arith)
bit_and-complement (suc k) a b h =
    let half : (2 ^ suc k - 1 - b) / 2 ≡ 2 ^ k - 1 - b / 2 =
      omega (arith, pow-suc 2 k, two_pow_pos k) in
    let and_half : bit_and a (2 ^ suc k - 1 - b) / 2 ≡ bit_and (a / 2) (2 ^ k - 1 - b / 2) =
      omega (arith, bit_and_halves a (2 ^ suc k - 1 - b), ap (bit_and (a / 2)) half) in
    omega (
      arith,
      bit_and_halves (bit_and a (2 ^ suc k - 1 - b)) b,
      ap (λ m. bit_and m (b / 2)) and_half,
      bit_and_halves a (2 ^ suc k - 1 - b),
      pow-suc 2 k,
      bit_and-complement k (a / 2) (b / 2) (omega (arith, pow-suc 2 k)),
    )

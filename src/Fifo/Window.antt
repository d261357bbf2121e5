-- ===== src/Fifo/Window.antt =====
-- Distances on a ring whose size is a power of two.
use native.Mathlib.Nat.{
  mod-lt, mod-eq_of_lt, mod-eq-sub-mod, mul-add-mod_self_left, mul-le-mul_left, pow-suc,
  pow-le-pow_right, mul_assoc,
}
use yakuza_dead_souls_ex.Prelude.{
  ℕ, zero, suc, ◌*◌, subst, inl, inr, ◌+◌, ◌-◌, ◌%◌, ◌^◌, ◌≤◌, ◌<◌, ◌≡◌, ◌∙◌, false, arith,
}
use yakuza_dead_souls_ex.Prelude.Tests.{leb, ltb, Bool-cases}
use yakuza_dead_souls_ex.Prelude.Bits.{bit_and_ones, pow_of_test}
use yakuza_dead_souls_ex.Fifo.{u32, sub32, not_ring, masked, distance}

ring_power : (n : ℕ) → not_ring n ≡ false → (k : ℕ) × (n ≡ 2 ^ k)
unfolding not_ring
ring_power n e = pow_of_test n n (omega arith) (ground arith) (ground arith)

pub masked_lem : (n x : ℕ) → not_ring n ≡ false → masked n x ≡ x % n
unfolding masked
masked_lem n x e = let (k, p) = ring_power n e in rw p (bit_and_ones k x)

pub ring_pos : (n : ℕ) → not_ring n ≡ false → 0 < n
unfolding not_ring
ring_pos n e = ground arith

pub masked_lt : (n x : ℕ) → not_ring n ≡ false → masked n x < n
masked_lt n x e = rw (masked_lem n x e) (mod-lt x (ring_pos n e))

-- A smaller power of two divides a larger one.
power_split : (k j : ℕ) → (m : ℕ) × (2 ^ (k + j) ≡ 2 ^ k * m)
power_split k zero = (1, let e : k + 0 ≡ k = omega arith in rw e (omega arith))
power_split k (suc j) =
    let (m, e) = power_split k j in
    let s : k + suc j ≡ suc (k + j) = omega arith in
    (m * 2, rw (s, pow-suc, e) (mul_assoc (2 ^ k) m 2))

-- The words are a whole number of rounds, and at least two.
rounds : (n : ℕ) → not_ring n ≡ false → n < 2 ^ 32 → (m : ℕ) × (2 ^ 32 ≡ n * m) × (2 ≤ m)
rounds n e word =
    let (k, p) = ring_power n e in
    elim (Bool-cases (leb k 32)) [
      | inl small ↦
          let (m, split) = power_split k (32 - k) in
          let s : k + (32 - k) ≡ 32 = ground arith in
          let whole : 2 ^ 32 ≡ n * m = rw p (subst (λ i. 2 ^ i ≡ 2 ^ k * m) s split) in
          (m, whole, many n m word whole)
      | inr large ↦
          let le : 2 ^ 32 ≤ 2 ^ k =
            pow-le-pow_right {n = 2} (omega arith) {i = 32} {j = k} (ground arith) in
          absurd (omega (arith, le, p))
    ]
  where
    many : (n m : ℕ) → n < 2 ^ 32 → 2 ^ 32 ≡ n * m → 2 ≤ m
    many n zero lt whole = absurd (omega (arith, whole))
    many n (suc zero) lt whole = absurd (omega (arith, whole))
    many n (suc (suc m)) lt whole = omega arith

last_round : (n m : ℕ) → 1 ≤ m → n * m ≡ n * (m - 1) + n
last_round n zero h = absurd (omega arith)
last_round n (suc m) h = let e : suc m - 1 ≡ m = omega arith in rw e (omega arith)

-- A cursor moved on by less than a round is that far ahead.
pub distance-step :
    (n get d : ℕ)
    → not_ring n ≡ false
    → n < 2 ^ 32
    → get < n
    → d < n
    → distance n get (masked n (u32 (get + d))) ≡ d
unfolding distance
distance-step n get d e word lt small =
    let (m, whole, two) = rounds n e word in
    let half : n * 2 ≤ n * m = mul-le-mul_left n two in
    let plain : u32 (get + d) ≡ get + d = mod-eq_of_lt (omega (arith, whole, half)) in
    rw (masked_lem n (u32 (get + d)) e, plain, masked_lem n (sub32 ((get + d) % n) get) e)
      (elim (Bool-cases (ltb (get + d) n)) [
        | inl short ↦
            let r : (get + d) % n ≡ get + d = mod-eq_of_lt (ground arith) in
            let s : sub32 (get + d) get ≡ d = omega (arith, lt, word, whole, half) in
            rw (r, s) (mod-eq_of_lt small)
        | inr round ↦
            let over : n ≤ get + d = ground arith in
            let r : (get + d) % n ≡ get + d - n =
              mod-eq-sub-mod over ∙ mod-eq_of_lt (omega (arith, over)) in
            let s : sub32 (get + d - n) get ≡ n * (m - 1) + d =
              omega (arith, last_round n m (omega (arith, two)), whole, over, word, small) in
            rw (r, s) (mul-add-mod_self_left n (m - 1) d ∙ mod-eq_of_lt small)
      ])

pub distance_lt : (n from to : ℕ) → not_ring n ≡ false → distance n from to < n
unfolding distance
distance_lt n from to e = masked_lt n (sub32 to from) e

-- What lies ahead inside the ring, without going round.
pub distance-ahead :
    (n from to : ℕ)
    → not_ring n ≡ false
    → n < 2 ^ 32
    → from ≤ to
    → to < n
    → distance n from to ≡ to - from
unfolding distance
distance-ahead n from to e word le lt =
    let s : sub32 to from ≡ to - from = omega (arith, le, lt, word) in
    masked_lem n (sub32 to from) e ∙ rw s (mod-eq_of_lt (omega arith))

-- ===== src/Guest/Words.antt =====
-- What the byte swaps, the stores and the alignment of `Guest` compute.
use Prim.Native.Nat.{bit_and}
use native.Mathlib.Nat.{mul-sub}
use yakuza_dead_souls_ex.Prelude.{
  ℕ, ◌+◌, ◌-◌, ◌*◌, ◌/◌, ◌%◌, ◌^◌, ◌≤◌, ◌<◌, ◌≡◌, refl, ◌∙◌, ap, ◌≢◌, ◌⊎◌, inl, arith,
}
use yakuza_dead_souls_ex.Prelude.Bits.{bit_and_ones, bit_and_high}
use yakuza_dead_souls_ex.Guest.{
  Memory, bswap32, store32, load32, write_be32, vm_read32, align_up, write_out, bswap64, store64,
  load64, write_be64, vm_read64,
}

-- The swap is its own inverse on words.
pub bswap32-bswap32 : (v : ℕ) → v < 2 ^ 32 → bswap32 (bswap32 v) ≡ v
unfolding bswap32
bswap32-bswap32 v h = omega arith

pub bswap32-lt : (v : ℕ) → bswap32 v < 2 ^ 32
unfolding bswap32
bswap32-lt v = omega arith

pub load32-store32 : (m : Memory) (p v : ℕ) → v < 2 ^ 32 → load32 (store32 m p v) p ≡ v
unfolding load32 store32
load32-store32 m p v h = ground arith

-- A word that ends before the store or begins after it is untouched.
pub load32-store32_apart :
    (m : Memory) (p q v : ℕ) → (q + 4 ≤ p) ⊎ (p + 4 ≤ q) → load32 (store32 m p v) q ≡ load32 m q
unfolding load32 store32
load32-store32_apart m p q v h = ground arith

-- The guest reads back the word that a system call writes through an output pointer, and every word
-- that does not overlap it keeps its value.
pub vm_read32-write_be32 :
    (m : Memory) (addr v : ℕ)
    → v < 2 ^ 32
    → (vm_read32 (write_be32 m addr v) addr ≡ v)
      × ((q : ℕ)
          → (q + 4 ≤ addr) ⊎ (addr + 4 ≤ q)
          → vm_read32 (write_be32 m addr v) q ≡ vm_read32 m q)
unfolding vm_read32 write_be32
vm_read32-write_be32 m addr v h = (
  ap bswap32 (load32-store32 m addr (bswap32 v) (bswap32-lt v)) ∙ bswap32-bswap32 v h,
  λ q apart. ap bswap32 (load32-store32_apart m addr q (bswap32 v) apart),
)

-- A word written through an output pointer that is not null is read back.
pub vm_read32-write_out :
    (m : Memory) (out v : ℕ) → v < 2 ^ 32 → out ≢ 0 → vm_read32 (write_out m out v) out ≡ v
vm_read32-write_out m out v word ne = ground (arith, (vm_read32-write_be32 m out v word).0)

bswap64-bswap64 : (v : ℕ) → v < 2 ^ 64 → bswap64 (bswap64 v) ≡ v
unfolding bswap64 bswap32
bswap64-bswap64 v h = omega arith

bswap64-lt : (v : ℕ) → bswap64 v < 2 ^ 64
unfolding bswap64
bswap64-lt v = omega (arith, bswap32-lt (v % 2 ^ 32), bswap32-lt (v / 2 ^ 32 % 2 ^ 32))

load64-store64 : (m : Memory) (p v : ℕ) → v < 2 ^ 64 → load64 (store64 m p v) p ≡ v
unfolding load64 store64
load64-store64 m p v h = omega (
  arith,
  load32-store32 (store32 m p (v % 2 ^ 32)) (p + 4) (v / 2 ^ 32 % 2 ^ 32) (omega arith),
  load32-store32_apart (store32 m p (v % 2 ^ 32)) (p + 4) p (v / 2 ^ 32 % 2 ^ 32)
      (inl (omega arith)),
  load32-store32 m p (v % 2 ^ 32) (omega arith),
)

-- The guest reads back the 64-bit word that a system call writes.
pub vm_read64-write_be64 :
    (m : Memory) (addr v : ℕ) → v < 2 ^ 64 → vm_read64 (write_be64 m addr v) addr ≡ v
unfolding vm_read64 write_be64
vm_read64-write_be64 m addr v h =
    ap bswap64 (load64-store64 m addr (bswap64 v) (bswap64-lt v)) ∙ bswap64-bswap64 v h

-- With a power of two the mask clears the low bits of the wrapped sum.
pub align_up_lem :
    (k j v : ℕ)
    → 2 ^ k * 2 ^ j ≡ 2 ^ 32
    → align_up v (2 ^ k) ≡ 2 ^ k * ((v + 2 ^ k + 2 ^ 32 - 1) % 2 ^ 32 / 2 ^ k % 2 ^ j)
unfolding align_up
align_up_lem k j v width =
    ap (bit_and sum) mask ∙ bit_and_high k sum (2 ^ j - 1) ∙ ap (λ t. 2 ^ k * t) (bit_and_ones j _)
  where
    sum : ℕ
    sum = (v + 2 ^ k + 2 ^ 32 - 1) % 2 ^ 32

    mask : 2 ^ 32 - 2 ^ k ≡ 2 ^ k * (2 ^ j - 1)
    mask = omega (arith, width, mul-sub (2 ^ k) (2 ^ j) 1)

-- Rounding up to a page size of the source, for the values that do not wrap.
abbrev pub RoundsUp : ℕ → ℕ → Type 0
RoundsUp v align =
    (v ≤ align_up v align) × (align_up v align < v + align) × (align_up v align % align ≡ 0)

pub align_up_4k : (v : ℕ) → v + 0xfff < 2 ^ 32 → RoundsUp v 0x1000
align_up_4k v h = omega (arith, align_up_lem 12 20 v refl)

pub align_up_64k : (v : ℕ) → v + 0xffff < 2 ^ 32 → RoundsUp v 0x1_0000
align_up_64k v h = omega (arith, align_up_lem 16 16 v refl)

pub align_up_1m : (v : ℕ) → v + 0xf_ffff < 2 ^ 32 → RoundsUp v 0x10_0000
align_up_1m v h = omega (arith, align_up_lem 20 12 v refl)

-- Whatever the value, the result is a multiple of the size and a word.
pub align_up_any :
    (v : ℕ)
    → (align_up v 0x1000 % 0x1000 ≡ 0)
      × (align_up v 0x1_0000 % 0x1_0000 ≡ 0)
      × (align_up v 0x10_0000 % 0x10_0000 ≡ 0)
      × (align_up v 0x1000 < 2 ^ 32)
      × (align_up v 0x1_0000 < 2 ^ 32)
      × (align_up v 0x10_0000 < 2 ^ 32)
align_up_any v =
    omega (arith, align_up_lem 12 20 v refl, align_up_lem 16 16 v refl, align_up_lem 20 12 v refl)

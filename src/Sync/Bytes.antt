-- ===== src/Sync/Bytes.antt =====
-- Memory behind a pointer, and `memcpy`, which the calls of libs/sync/cellSync.c move elements with.
use yakuza_dead_souls_ex.Prelude.{
  ℕ, zero, suc, ◌+◌, ◌-◌, ◌≤◌, ◌<◌, ◌≡◌, refl, ap, ◌⊎◌, ◌&&◌, List, [], ◌∷◌, arith,
}
use yakuza_dead_souls_ex.Prelude.Tests.{ltb, leb, if◌then◌else◌}

-- The bytes from a pointer on.
abbrev pub Bytes : Type 0
Bytes = ℕ → ℕ

unfoldable pub memcpy : Bytes → ℕ → Bytes → ℕ → Bytes
memcpy dst at src n j = if leb at j && ltb j (at + n) then src (j - at) else dst j

-- `n` bytes from position `at` on.
unfoldable pub slice : Bytes → ℕ → ℕ → List ℕ
slice m at zero = []
slice m at (suc n) = m at ∷ slice m (at + 1) n

-- Only the bytes that are passed matter.
pub slice_agree :
    (m m' : Bytes) (at n : ℕ)
    → ((j : ℕ) → at ≤ j → j < at + n → m j ≡ m' j)
    → slice m at n ≡ slice m' at n
unfolding slice
slice_agree m m' at zero same = refl
slice_agree m m' at (suc n) same =
    let first = same at (omega arith) (omega arith) in
    let rest = slice_agree m m' (at + 1) n (λ j l h. same j (omega arith) (omega arith)) in
    rw (first, rest) refl

memcpy_within :
    (dst src : Bytes) (at n j k : ℕ) → j ≡ at + k → k < n → memcpy dst at src n j ≡ src k
unfolding memcpy
memcpy_within dst src at n j k e lt =
    let back : at + k - at ≡ k = omega arith in rw e (ground (arith, ap src back))

memcpy_outside :
    (dst src : Bytes) (at n j : ℕ) → (j < at) ⊎ (at + n ≤ j) → memcpy dst at src n j ≡ dst j
unfolding memcpy
memcpy_outside dst src at n j out = ground arith

-- A copy that is read back from its position `k` on.
pub slice-memcpy_within :
    (dst src : Bytes) (at n a k r : ℕ)
    → a ≡ at + k
    → k + r ≤ n
    → slice (memcpy dst at src n) a r ≡ slice src k r
unfolding slice
slice-memcpy_within dst src at n a k zero e h = refl
slice-memcpy_within dst src at n a k (suc r) e h =
    let first = memcpy_within dst src at n a k e (omega arith) in
    let rest = slice-memcpy_within dst src at n (a + 1) (k + 1) r (omega arith) (omega arith) in
    rw (first, rest) refl

pub slice-memcpy_outside :
    (dst src : Bytes) (at n a r : ℕ)
    → (a + r ≤ at) ⊎ (at + n ≤ a)
    → slice (memcpy dst at src n) a r ≡ slice dst a r
unfolding slice
slice-memcpy_outside dst src at n a zero h = refl
slice-memcpy_outside dst src at n a (suc r) h =
    let first = memcpy_outside dst src at n a (ground arith) in
    let rest = slice-memcpy_outside dst src at n (a + 1) r (ground arith) in rw (first, rest) refl

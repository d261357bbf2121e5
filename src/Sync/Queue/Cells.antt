-- ===== src/Sync/Queue/Cells.antt =====
-- The buffer of a queue, cut into cells of `elem_size` bytes.
use native.Mathlib.Nat.{mul-le-mul_right}
use yakuza_dead_souls_ex.Prelude.{ℕ, ◌+◌, ◌*◌, ◌≤◌, ◌≡◌, ◌≢◌, ◌⊎◌, inl, inr, List, arith}
use yakuza_dead_souls_ex.Prelude.Tests.{ltb, Bool-cases}
use yakuza_dead_souls_ex.Sync.Bytes.{slice-memcpy_within, slice-memcpy_outside}
use yakuza_dead_souls_ex.Sync.Queue.{Bytes, memcpy, slice, Queue}

abbrev pub cell : Queue → ℕ → List ℕ
cell q k = slice q.buffer (k * q.elem_size) q.elem_size

cells_apart : (j k size : ℕ) → j ≢ k → (j * size + size ≤ k * size) ⊎ (k * size + size ≤ j * size)
cells_apart j k size ne = elim (Bool-cases (ltb j k)) [
  | inl below ↦ let lt : j + 1 ≤ k = ground arith in inl (omega (arith, mul-le-mul_right size lt))
  | inr above ↦ let gt : k + 1 ≤ j = ground arith in inr (omega (arith, mul-le-mul_right size gt))
]

-- The cell that a copy fills, and the others.
pub cell_filled :
    (m src : Bytes) (t size : ℕ)
    → slice (memcpy m (t * size) src size) (t * size) size ≡ slice src 0 size
cell_filled m src t size =
    slice-memcpy_within m src (t * size) size (t * size) 0 size (omega arith) (omega arith)

pub cell_kept :
    (m src : Bytes) (t j size : ℕ)
    → j ≢ t
    → slice (memcpy m (t * size) src size) (j * size) size ≡ slice m (j * size) size
cell_kept m src t j size ne =
    slice-memcpy_outside m src (t * size) size (j * size) size (cells_apart j t size ne)

-- ===== src/Lv2/Memory/Queries.antt =====
-- The two queries of sys_memory.c: the user memory left, and the page size at an address.
use yakuza_dead_souls_ex.Prelude.{
  ℕ, ◌+◌, ◌-◌, ◌^◌, ◌≤◌, ◌<◌, ◌≡◌, refl, ◌∙◌, ◌≢◌, inl, inr, true, false, some, arith,
}
use yakuza_dead_souls_ex.Prelude.Tests.{◌==◌, if◌then◌else◌, Bool-cases}
use yakuza_dead_souls_ex.Prelude.Lists.{get_elem?, find_index-some, find_index_total}
use yakuza_dead_souls_ex.Guest.{ok, Memory, u32, vm_read32, write_be32}
use yakuza_dead_souls_ex.Guest.Words.{vm_read32-write_be32}
use yakuza_dead_souls_ex.Lv2.Memory.{
  State, AllocInfo, user_total, elf_footprint, available, charge_elf,
  sys_memory_get_user_memory_size, covers, page_size_at, write_page_attr,
  sys_memory_get_page_attribute,
}
use yakuza_dead_souls_ex.Lv2.Memory.Invariant.{IsValid}

-- Two blocks that cover one address are one.
same_cover :
    (s : State) (i j : ℕ) (a b : AllocInfo) (addr : ℕ)
    → IsValid s
    → get_elem? s.allocs i ≡ some a
    → get_elem? s.allocs j ≡ some b
    → covers addr a ≡ true
    → covers addr b ≡ true
    → i ≡ j
same_cover s i j a b addr v ei ej ca cb = elim (Bool-cases (i == j)) [
  | inl e ↦ ground arith
  | inr ne ↦
      let ha = v.held i a ei (ground arith) in
      let hb = v.held j b ej (ground arith) in
      let apart = v.apart i j a b ei ej (ground arith) (ground arith) (ground arith) in
      absurd (ground (arith, ha.below, hb.below, apart, v.end))
]

-- The page size that is reported inside an active allocation is the one it was allocated with,
-- whatever else the table holds.
pub page_size_at_lem :
    (s : State) (slot addr : ℕ) (a : AllocInfo)
    → IsValid s
    → get_elem? s.allocs slot ≡ some a
    → a.active ≡ true
    → a.addr ≤ addr
    → addr < a.addr + a.size
    → page_size_at s addr ≡ a.page_size
unfolding page_size_at
page_size_at_lem s slot addr a v e t lo hi =
    let h = v.held slot a e t in
    let inside : covers addr a ≡ true = ground (arith, h.below, v.end) in
    let (j, found) = find_index_total (covers addr) s.allocs slot e inside in
    let (b, ej, cb) = find_index-some (covers addr) s.allocs j found in
    let one : j ≡ slot = same_cover s j slot b a addr v ej e cb inside in
    rw (found, one, e, page_size_at) (ground (arith, h.page))

-- The reply's words at `p` and `p + 4`.
two_words :
    (m : Memory) (p x y : ℕ)
    → p + 4 < 2 ^ 32
    → x < 2 ^ 32
    → y < 2 ^ 32
    → let m' = write_be32 (write_be32 m p x) (u32 (p + 4)) y in
      (vm_read32 m' p ≡ x) × (vm_read32 m' (p + 4) ≡ y)
two_words m p x y small hx hy =
    let next : u32 (p + 4) ≡ p + 4 = omega arith in
    rw next (
      (vm_read32-write_be32 (write_be32 m p x) (p + 4) y hy).1 p (inl (omega arith))
          ∙ (vm_read32-write_be32 m p x hx).0,
      (vm_read32-write_be32 (write_be32 m p x) (p + 4) y hy).0,
    )

charge_elf_lem :
    (s : State)
    → s.external_consumed < 2 ^ 62
    → ((charge_elf s).elf_charged ≡ true)
      × ((charge_elf s).total_allocated ≡ s.total_allocated)
      × ((charge_elf s).external_consumed
          ≡ s.external_consumed + (if s.elf_charged then 0 else elf_footprint))
unfolding charge_elf
charge_elf_lem s h = ground arith

available_lem :
    (s : State)
    → s.total_allocated + s.external_consumed < 2 ^ 63
    → available s ≡ user_total - (s.total_allocated + s.external_consumed)
unfolding available
available_lem s h = ground arith

-- A query of the user memory always returns CELL_OK. The guest reads the total of 213 MB, and as
-- available what the allocations, the external charges and the ELF footprint leave of it, or 0; the
-- footprint is charged by the first query and by no later one. The sums stay below 2^63 and the
-- reply below 4 GiB.
pub sys_memory_get_user_memory_size_lem :
    (s : State) (out : ℕ)
    → s.total_allocated < 2 ^ 32
    → s.external_consumed < 2 ^ 62
    → out ≢ 0
    → out + 4 < 2 ^ 32
    → let (status, t) = sys_memory_get_user_memory_size s out in
      (status ≡ ok)
      × (t.elf_charged ≡ true)
      × (t.total_allocated ≡ s.total_allocated)
      × (t.external_consumed ≡ s.external_consumed + (if s.elf_charged then 0 else elf_footprint))
      × (vm_read32 t.mem out ≡ user_total)
      × (vm_read32 t.mem (out + 4) ≡ user_total - (t.total_allocated + t.external_consumed))
unfolding sys_memory_get_user_memory_size
sys_memory_get_user_memory_size_lem s out ht he ne small =
    rw nonnull (refl, c.0, c.1, c.2, words.0, words.1 ∙ left)
  where
    nonnull : (out == 0) ≡ false
    nonnull = ground arith

    t : State
    t = charge_elf s

    c :
        (t.elf_charged ≡ true)
        × (t.total_allocated ≡ s.total_allocated)
        × (t.external_consumed ≡ s.external_consumed + (if s.elf_charged then 0 else elf_footprint))
    c = charge_elf_lem s he

    left : available t ≡ user_total - (t.total_allocated + t.external_consumed)
    left = available_lem t (ground (arith, c))

    words :
        let m = write_be32 (write_be32 t.mem out user_total) (u32 (out + 4)) (available t) in
        (vm_read32 m out ≡ user_total) × (vm_read32 m (out + 4) ≡ available t)
    words = two_words t.mem out user_total (available t) small (omega arith) (omega (arith, left))

-- The page size stays readable under the padding word that is written after it.
write_page_attr_size :
    (m : Memory) (p n : ℕ)
    → p + 0x18 ≤ 2 ^ 32
    → n < 2 ^ 32
    → vm_read32 (write_page_attr m p n) (p + 0x10) ≡ n
unfolding write_page_attr
write_page_attr_size m p n small word =
    let at : u32 (p + 0x10) ≡ p + 0x10 = omega arith in
    let pad : u32 (p + 0x14) ≡ p + 0x14 = omega arith in
    rw (at, pad)
      ((vm_read32-write_be32 _ (p + 0x14) 0 (omega arith)).1 (p + 0x10) (inl (omega arith))
        ∙ (vm_read32-write_be32 _ (p + 0x10) n word).0)

-- For an address inside an active allocation the guest reads, 16 bytes into the reply of
-- `sys_memory_get_page_attribute`, the page size that the allocation was made with. The reply is not
-- null and ends at or below 4 GiB.
pub sys_memory_get_page_attribute_lem :
    (s : State) (slot addr attr_out : ℕ) (a : AllocInfo)
    → IsValid s
    → get_elem? s.allocs slot ≡ some a
    → a.active ≡ true
    → a.addr ≤ addr
    → addr < a.addr + a.size
    → attr_out ≢ 0
    → attr_out + 0x18 ≤ 2 ^ 32
    → let (status, t) = sys_memory_get_page_attribute s addr attr_out in
      (status ≡ ok) × (vm_read32 t.mem (attr_out + 0x10) ≡ a.page_size)
unfolding sys_memory_get_page_attribute
sys_memory_get_page_attribute_lem s slot addr p a v e t lo hi ne small =
    rw (nonnull, page_size_at_lem s slot addr a v e t lo hi)
      (
        refl,
        write_page_attr_size s.mem p a.page_size small (ground (arith, (v.held slot a e t).page)),
      )
  where
    nonnull : (p == 0) ≡ false
    nonnull = ground arith

-- ===== src/Lv2/Memory/Free.antt =====
-- What `sys_memory_free` takes back.
use yakuza_dead_souls_ex.Prelude.{
  ℕ, ◌+◌, ◌-◌, ◌^◌, ◌<◌, ◌≡◌, refl, sym, ◌≢◌, ◌⊎◌, inl, inr, true, false, none, some, arith,
}
use yakuza_dead_souls_ex.Prelude.Tests.{◌==◌, Bool-cases, Option-cases}
use yakuza_dead_souls_ex.Prelude.Lists.{
  set, get_elem?, find_index, find_index-some, find_index_total, total-set, le-total,
  get_elem?-set_cases,
}
use yakuza_dead_souls_ex.Guest.{ok, einval, vm_read32}
use yakuza_dead_souls_ex.Lv2.Memory.{
  State, AllocInfo, Host, is_at, sys_memory_allocate, sys_memory_free, free_slot,
}
use yakuza_dead_souls_ex.Lv2.Memory.Invariant.{IsValid, Apart, charge}
use yakuza_dead_souls_ex.Lv2.Memory.Allocate.{clear-IsValid}
use yakuza_dead_souls_ex.Lv2.Memory.Grant.{sys_memory_allocate_ok, sys_memory_allocate-IsValid}

-- Two allocations that share an address are one.
pub same_slot :
    (s : State) (i j : ℕ) (a b : AllocInfo)
    → IsValid s
    → get_elem? s.allocs i ≡ some a
    → get_elem? s.allocs j ≡ some b
    → a.active ≡ true
    → b.active ≡ true
    → a.addr ≡ b.addr
    → i ≡ j
same_slot s i j a b v ei ej ti tj same = elim (Bool-cases (i == j)) [
  | inl e ↦ ground arith
  | inr ne ↦ absurd (
      clash (v.apart i j a b ei ej ti tj (ground arith)) (v.held i a ei ti).inhabited
        (v.held j b ej tj).inhabited)
]
  where
    clash : Apart a b → 0 < a.size → 0 < b.size → ⊥
    clash (inl h) p q = omega arith
    clash (inr h) p q = omega arith

abbrev pub freed : State → ℕ → AllocInfo → State
freed s slot a = record s {
  total_allocated = s.total_allocated - a.size;
  allocs = set s.allocs slot (record a { active = false });
}

free_slot_lem :
    (s : State) (slot : ℕ) (a : AllocInfo)
    → IsValid s
    → get_elem? s.allocs slot ≡ some a
    → a.active ≡ true
    → free_slot s slot (some a) ≡ (ok, freed s slot a)
unfolding free_slot
free_slot_lem s slot a v e t = ground (arith, le-total charge s.allocs slot e, v.paid, v.budget)

-- Freeing the address of an active allocation clears that slot alone, and gives back its charge
-- without a wrap of the 32-bit total.
pub sys_memory_free_lem :
    (s : State) (slot : ℕ) (a : AllocInfo)
    → IsValid s
    → get_elem? s.allocs slot ≡ some a
    → a.active ≡ true
    → sys_memory_free s a.addr ≡ (ok, freed s slot a)
unfolding sys_memory_free
sys_memory_free_lem s slot a v e t =
    let (j, found) = find_index_total (is_at a.addr) s.allocs slot e (ground arith) in
    let (b, ej, at) = find_index-some (is_at a.addr) s.allocs j found in
    let one : j ≡ slot = same_slot s j slot b a v ej e (ground arith) t (ground arith) in
    rw (found, one, e, sys_memory_free) (free_slot_lem s slot a v e t)

-- An address at which no allocation is active is refused, and changes nothing.
pub sys_memory_free_unknown :
    (s : State) (addr : ℕ)
    → find_index (is_at addr) s.allocs ≡ none
    → sys_memory_free s addr ≡ (einval, s)
unfolding sys_memory_free
sys_memory_free_unknown s addr h = rw (h, sys_memory_free)

freed-IsValid :
    (s : State) (slot : ℕ) (a : AllocInfo)
    → IsValid s
    → get_elem? s.allocs slot ≡ some a
    → a.active ≡ true
    → IsValid (freed s slot a)
freed-IsValid s slot a v e t =
    clear-IsValid s slot (s.total_allocated - a.size) a e
      (ground (arith, total-set charge s.allocs slot (record a { active = false }) e, v.paid))
      (omega (arith, v.budget)) v

-- `sys_memory_free` keeps the invariant for every address.
pub sys_memory_free-IsValid :
    (s : State) (addr : ℕ) → IsValid s → IsValid (sys_memory_free s addr).1
sys_memory_free-IsValid s addr v = elim (Option-cases (find_index (is_at addr) s.allocs)) [
  | inl missing ↦ rw (sys_memory_free_unknown s addr missing) v
  | inr (j, found) ↦
      let (b, ej, at) = find_index-some (is_at addr) s.allocs j found in
      let here : b.addr ≡ addr = ground arith in
      rw (← here, sys_memory_free_lem s j b v ej (ground arith))
        (freed-IsValid s j b v ej (ground arith))
]

freed_again :
    (s : State) (slot : ℕ) (a : AllocInfo)
    → IsValid s
    → get_elem? s.allocs slot ≡ some a
    → a.active ≡ true
    → sys_memory_free (freed s slot a) a.addr ≡ (einval, freed s slot a)
freed_again s slot a v e t =
    elim (Option-cases (find_index (is_at a.addr) (freed s slot a).allocs)) [
      | inl missing ↦ sys_memory_free_unknown (freed s slot a) a.addr missing
      | inr (j, found) ↦
          let (b, ej, at) = find_index-some (is_at a.addr) (freed s slot a).allocs j found in
          absurd
            (clash j b (ground arith) (ground arith) (get_elem?-set_cases s.allocs slot j _ ej))
    ]
  where
    clash :
        (j : ℕ) (b : AllocInfo)
        → b.active ≡ true
        → b.addr ≡ a.addr
        → ((slot ≡ j) × (b ≡ record a { active = false }))
          ⊎ ((slot ≢ j) × (get_elem? s.allocs j ≡ some b))
        → ⊥
    clash j b tb same (inl (_, cleared)) = ground arith
    clash j b tb same (inr (ne, old)) = ne (same_slot s slot j a b v e old t tb (sym same))

-- The whole life of a block whose slot is known.
module _ (t : State) (slot : ℕ) (a : AllocInfo) (charge_before : ℕ) where
  block_life :
      IsValid t
      → get_elem? t.allocs slot ≡ some a
      → a.active ≡ true
      → t.total_allocated ≡ charge_before + a.size
      → let u = (sys_memory_free t a.addr).1 in
        ((sys_memory_free t a.addr).0 ≡ ok)
        × (u.total_allocated ≡ charge_before)
        × (sys_memory_free u a.addr ≡ (einval, u))
  block_life v e active sum =
      rw (sys_memory_free_lem t slot a v e active)
        (refl, omega arith, freed_again t slot a v e active)

-- The address that a successful `sys_memory_allocate` writes out is good for one `sys_memory_free`:
-- that call returns CELL_OK and brings the total back to what it was before the allocation, and
-- freeing the same address again is refused with CELL_EINVAL and changes nothing. The size is a
-- 32-bit register, the output pointer is not null, and the external charges are below 2^63.
pub free-allocate :
    (host : Host) (s : State) (size flags out : ℕ)
    → IsValid s
    → size < 2 ^ 32
    → s.external_consumed < 2 ^ 63
    → out ≢ 0
    → (sys_memory_allocate host s size flags out).0 ≡ ok
    → let t = (sys_memory_allocate host s size flags out).1 in
      let addr = vm_read32 t.mem out in
      let u = (sys_memory_free t addr).1 in
      ((sys_memory_free t addr).0 ≡ ok)
      × (u.total_allocated ≡ s.total_allocated)
      × (sys_memory_free u addr ≡ (einval, u))
free-allocate host s size flags out v word small ne h =
    let g = sys_memory_allocate_ok host s size flags out v word small h in
    rw (g.told ne) (
      block_life (sys_memory_allocate host s size flags out).1 g.slot g.a s.total_allocated
        (sys_memory_allocate-IsValid host s size flags out v small) g.entry.0 g.entry.1 g.charged)

-- ===== src/Lv2/Memory/Mapper/Address.antt =====
-- `sys_mmapper_allocate_address`: it shares the bump pointer, and not the budget's guard.
use yakuza_dead_souls_ex.Prelude.{
  ℕ, ◌+◌, ◌-◌, ◌%◌, ◌^◌, ◌≤◌, ◌<◌, ◌≡◌, refl, ◌≢◌, inl, inr, true, some, arith,
}
use yakuza_dead_souls_ex.Prelude.Tests.{ltb, Bool-cases}
use yakuza_dead_souls_ex.Prelude.Lists.{get_elem?}
use yakuza_dead_souls_ex.Guest.{ok, u32, align_up, vm_read32}
use yakuza_dead_souls_ex.Guest.Words.{vm_read32-write_out}
use yakuza_dead_souls_ex.Lv2.Memory.{State, AllocInfo, alloc_base, alloc_end, place}
use yakuza_dead_souls_ex.Lv2.Memory.Invariant.{
  IsPage, IsValid, place-IsValid, place_bump, IsHeld-mono,
}
use yakuza_dead_souls_ex.Lv2.Memory.Mapper.{reserve, or_64k, sys_mmapper_allocate_address}

reserve-IsValid :
    (s : State) (size out : ℕ)
    → IsValid s
    → alloc_base ≤ s.bump_ptr
    → s.bump_ptr + size < 2 ^ 32
    → IsValid (reserve s size out).1
unfolding reserve
reserve-IsValid s size out v based small =
    elim (Bool-cases (ltb alloc_end (u32 (s.bump_ptr + size)))) [
      | inl full ↦ rw full v
      | inr room ↦ rw room (record {
        window = inr (omega arith);
        end = ground arith;
        held = λ i a e t. IsHeld-mono s.bump_ptr _ a (omega arith) (v.held i a e t);
        apart = v.apart;
        paid = v.paid;
        budget = v.budget;
      })
    ]

reserve_ok :
    (s : State) (size out : ℕ)
    → s.bump_ptr + size < 2 ^ 32
    → out ≢ 0
    → (reserve s size out).0 ≡ ok
    → ((reserve s size out).1.bump_ptr ≡ s.bump_ptr + size)
      × ((reserve s size out).1.bump_ptr ≤ alloc_end)
      × (vm_read32 (reserve s size out).1.mem out ≡ s.bump_ptr)
unfolding reserve
reserve_ok s size out small ne h =
    ground (arith, vm_read32-write_out s.mem out s.bump_ptr (omega arith) ne)

-- For an alignment of one of the two page sizes (0 stands for 64K) and a rounded size that does not
-- exceed the address window, the call keeps the invariant, granted or refused.
pub sys_mmapper_allocate_address-IsValid :
    (s : State) (size alignment out : ℕ)
    → IsValid s
    → IsPage (or_64k alignment)
    → align_up size (or_64k alignment) ≤ alloc_end - alloc_base
    → IsValid (sys_mmapper_allocate_address s size alignment out).1
unfolding sys_mmapper_allocate_address
sys_mmapper_allocate_address-IsValid s size alignment out v page small =
    let b = place_bump s (or_64k alignment) page v in
    reserve-IsValid (place s (or_64k alignment)) (align_up size (or_64k alignment)) out
      (place-IsValid s (or_64k alignment) page v) b.0 (omega (arith, b, small))

-- For an alignment of one of the two page sizes (0 stands for 64K), a rounded size that does not
-- exceed the address window and an output pointer that is not null: after a call that returns CELL_OK
-- from a valid state, the guest reads back the aligned bump pointer as its address, which lies in the
-- window at or above the end of every active allocation, and the rounded size from there on is
-- reserved, up to a bump pointer inside the window.
pub sys_mmapper_allocate_address_ok :
    (s : State) (size alignment out : ℕ)
    → IsValid s
    → IsPage (or_64k alignment)
    → align_up size (or_64k alignment) ≤ alloc_end - alloc_base
    → out ≢ 0
    → (sys_mmapper_allocate_address s size alignment out).0 ≡ ok
    → let t = (sys_mmapper_allocate_address s size alignment out).1 in
      let addr = vm_read32 t.mem out in
      (addr ≡ (place s (or_64k alignment)).bump_ptr)
      × (addr % or_64k alignment ≡ 0)
      × (alloc_base ≤ addr)
      × (t.bump_ptr ≡ addr + align_up size (or_64k alignment))
      × (t.bump_ptr ≤ alloc_end)
      × ((i : ℕ) (a : AllocInfo)
          → get_elem? s.allocs i ≡ some a
          → a.active ≡ true
          → a.addr + a.size ≤ addr)
unfolding sys_mmapper_allocate_address
sys_mmapper_allocate_address_ok s size alignment out v page small ne done =
    let b = place_bump s (or_64k alignment) page v in
    let r =
      reserve_ok (place s (or_64k alignment)) (align_up size (or_64k alignment)) out
        (omega (arith, b, small)) ne done in
    rw (r.2) (refl, b.3, b.0, r.0, r.1, λ i a e t. omega (arith, (v.held i a e t).below, b))

-- The guard adds in 32 bits, and nothing bounds the size: where bump pointer and size reach 2^32, the
-- call returns CELL_OK with a bump pointer that has wrapped: it is below the one it started from, and
-- below the end of the window.
pub reserve_wraps :
    (s : State) (size out : ℕ)
    → IsValid s
    → size < 2 ^ 32
    → 2 ^ 32 ≤ s.bump_ptr + size
    → let (status, t) = reserve s size out in
      (status ≡ ok)
      × (t.bump_ptr + 2 ^ 32 ≡ s.bump_ptr + size)
      × (t.bump_ptr < s.bump_ptr)
      × (t.bump_ptr < alloc_end)
unfolding reserve
reserve_wraps s size out v word wraps = ground (arith, v.end)

-- ===== src/Lv2/Memory/Mapper/Handles.antt =====
-- Shared memory and container handles: a handle that a call wrote out names the object it made.
use yakuza_dead_souls_ex.Prelude.{
  ℕ, ◌+◌, ◌-◌, ◌<◌, ◌≡◌, refl, ◌≢◌, inl, inr, true, false, some, arith,
}
use yakuza_dead_souls_ex.Prelude.Tests.{Option-cases}
use yakuza_dead_souls_ex.Prelude.Lists.{
  get_elem?, find_index, find_index-some, get_elem?-set_self, get_elem?_lt, length,
}
use yakuza_dead_souls_ex.Guest.{ok, align_up, vm_read32}
use yakuza_dead_souls_ex.Guest.Words.{vm_read32-write_out}
use yakuza_dead_souls_ex.Lv2.Memory.{State, Host, SharedInfo, vm_commit}
use yakuza_dead_souls_ex.Lv2.Memory.Mapper.{
  free_shared, shared_max, bad_handle, zero_range, sys_mmapper_allocate_shared_memory,
  sys_mmapper_map_shared_memory,
}

-- The slot that a successful creation took.
created_shared :
    (s : State) (size id_out : ℕ)
    → length s.shared ≡ shared_max
    → (sys_mmapper_allocate_shared_memory s size id_out).0 ≡ ok
    → let t = (sys_mmapper_allocate_shared_memory s size id_out).1 in
      (slot : ℕ) × (slot < shared_max)
      × (get_elem? t.shared slot ≡ some (record { active = true; size = align_up size 0x1000 }))
      × (id_out ≢ 0 → vm_read32 t.mem id_out ≡ slot + 1)
unfolding sys_mmapper_allocate_shared_memory
created_shared s size id_out full h = elim (Option-cases (find_index free_shared s.shared)) [
  | inl e ↦ absurd (ground arith)
  | inr (slot, e) ↦
      let (c, ec, _) = find_index-some free_shared s.shared slot e in
      let lt = get_elem?_lt s.shared slot ec in
      rw (e, sys_mmapper_allocate_shared_memory)
        (
          slot,
          omega arith,
          get_elem?-set_self s.shared slot _ lt,
          λ ne. vm_read32-write_out s.mem id_out (slot + 1) (omega arith) ne,
        )
]

map_known :
    (host : Host) (t : State) (addr slot : ℕ) (c : SharedInfo)
    → slot < shared_max
    → get_elem? t.shared slot ≡ some c
    → c.active ≡ true
    → vm_commit host addr c.size ≡ ok
    → sys_mmapper_map_shared_memory host t addr (slot + 1)
      ≡ (ok, record t { mem = zero_range t.mem addr c.size })
unfolding sys_mmapper_map_shared_memory
map_known host t addr slot c lt e active commit =
    rw (good, back, e, active, commit, sys_mmapper_map_shared_memory)
  where
    good : bad_handle (slot + 1) shared_max ≡ false
    good = ground arith

    back : slot + 1 - 1 ≡ slot
    back = omega arith

-- The handle that `sys_mmapper_allocate_shared_memory` writes out maps: where the host commits the
-- pages, `sys_mmapper_map_shared_memory` returns CELL_OK at any address and clears there exactly the
-- requested size rounded up to pages of 4K. The table has its 64 entries, and the output pointer is
-- not null.
pub map-allocate_shared :
    (host : Host) (s : State) (size id_out addr : ℕ)
    → length s.shared ≡ shared_max
    → id_out ≢ 0
    → (sys_mmapper_allocate_shared_memory s size id_out).0 ≡ ok
    → vm_commit host addr (align_up size 0x1000) ≡ ok
    → let t = (sys_mmapper_allocate_shared_memory s size id_out).1 in
      sys_mmapper_map_shared_memory host t addr (vm_read32 t.mem id_out)
      ≡ (ok, record t { mem = zero_range t.mem addr (align_up size 0x1000) })
map-allocate_shared host s size id_out addr full ne h commit =
    let (slot, lt, e, told) = created_shared s size id_out full h in
    rw (told ne) (
      map_known host (sys_mmapper_allocate_shared_memory s size id_out).1 addr slot _ lt e refl
        commit)

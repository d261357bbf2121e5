-- ===== src/Lv2/Memory/Tests.antt =====
-- runtime/syscalls/sys_memory.c at concrete inputs: a table of two slots, of which one holds a block of
-- 1 MB.
use yakuza_dead_souls_ex.Prelude.{
  ℕ, zero, suc, ◌+◌, ◌-◌, ◌%◌, ◌^◌, ◌≤◌, ◌<◌, ◌≡◌, refl, ◌≢◌, inl, inr, true, false, some, [], ◌∷◌,
  arith,
}
use yakuza_dead_souls_ex.Prelude.Lists.{get_elem?, find_index, total, replicate}
use yakuza_dead_souls_ex.Guest.{ok, esrch, einval, enomem, align_up, vm_read32}
use yakuza_dead_souls_ex.Lv2.Memory.{
  State, AllocInfo, Host, alloc_base, alloc_end, user_total, elf_footprint, block, place, vm_commit,
  page_alignment, claim, finish, allocate_placed, sys_memory_allocate, sys_memory_free, page_1m,
  sys_memory_get_user_memory_size, sys_memory_get_page_attribute,
}
use yakuza_dead_souls_ex.Lv2.Memory.Invariant.{IsValid, IsHeld, Apart, Fits, charge}
use yakuza_dead_souls_ex.Lv2.Memory.Grant.{sys_memory_allocate-IsValid, finish_refused_leaks}
use yakuza_dead_souls_ex.Lv2.Memory.Free.{
  sys_memory_free-IsValid, sys_memory_free_lem, free-allocate, freed,
}
use yakuza_dead_souls_ex.Lv2.Memory.Queries.{
  sys_memory_get_user_memory_size_lem, sys_memory_get_page_attribute_lem,
}
use yakuza_dead_souls_ex.Lv2.Memory.Mapper.{
  reserve, sys_mmapper_allocate_address, zero_range, shared_max, sys_mmapper_allocate_shared_memory,
  sys_mmapper_map_shared_memory,
}
use yakuza_dead_souls_ex.Lv2.Memory.Mapper.{
  container_max, sys_memory_container_create, sys_memory_container_get_size,
  sys_memory_container_destroy,
}
use yakuza_dead_souls_ex.Lv2.Memory.Mapper.Containers.{get_size-create}
use yakuza_dead_souls_ex.Lv2.Memory.Mapper.Address.{
  sys_mmapper_allocate_address-IsValid, sys_mmapper_allocate_address_ok, reserve_wraps,
}
use yakuza_dead_souls_ex.Lv2.Memory.Mapper.Handles.{map-allocate_shared}

abbrev empty_slot : AllocInfo
empty_slot = record { active = false; addr = 0; size = 0; page_size = 0 }

abbrev first_block : AllocInfo
first_block = block alloc_base page_1m page_1m

abbrev one_block : State
one_block = record {
  allocs = first_block ∷ empty_slot ∷ [];
  containers = [];
  shared = replicate shared_max (record { active = false; size = 0 });
  bump_ptr = alloc_base + page_1m;
  total_allocated = page_1m;
  external_consumed = 0;
  elf_charged = false;
  mem = λ _. 0;
}

abbrev willing : Host
willing = record { reserved = true; commits = λ _ _. true }

abbrev unwilling : Host
unwilling = record { reserved = true; commits = λ _ _. false }

one_block-held :
    (i : ℕ) (a : AllocInfo)
    → get_elem? one_block.allocs i ≡ some a
    → a.active ≡ true
    → IsHeld (alloc_base + page_1m) a
one_block-held zero a e t =
    let same : first_block ≡ a = cc in
    rw (← same) (record {
      above = omega arith;
      below = omega arith;
      inhabited = omega arith;
      page = inl refl;
      addr_aligned = refl;
      size_aligned = refl;
    })
one_block-held (suc zero) a e t = ground arith
one_block-held (suc (suc i)) a e t = ground arith

one_block-Apart :
    (i j : ℕ) (a b : AllocInfo)
    → get_elem? one_block.allocs i ≡ some a
    → get_elem? one_block.allocs j ≡ some b
    → a.active ≡ true
    → b.active ≡ true
    → i ≢ j
    → Apart a b
one_block-Apart zero zero a b ei ej ta tb ne = absurd (ne refl)
one_block-Apart zero (suc zero) a b ei ej ta tb ne = ground arith
one_block-Apart zero (suc (suc j)) a b ei ej ta tb ne = ground arith
one_block-Apart (suc zero) j a b ei ej ta tb ne = ground arith
one_block-Apart (suc (suc i)) j a b ei ej ta tb ne = ground arith

one_block-IsValid : IsValid one_block
unfolding total
one_block-IsValid = record {
  window = inr (omega arith);
  end = omega arith;
  held = one_block-held;
  apart = one_block-Apart;
  paid = omega arith;
  budget = omega arith;
}

two_blocks : (sys_memory_allocate willing one_block 0x10_0000 0 0x100).0 ≡ ok
unfolding sys_memory_allocate allocate_placed finish find_index page_alignment align_up place claim
    vm_commit
two_blocks = refl

sys_memory_allocate-IsValid_example :
    IsValid (sys_memory_allocate unwilling one_block 0x10_0000 0 0x100).1
sys_memory_allocate-IsValid_example =
    sys_memory_allocate-IsValid unwilling one_block 0x10_0000 0 0x100 one_block-IsValid
      (omega arith)

free-allocate_example :
    let t = (sys_memory_allocate willing one_block 0x10_0000 0 0x100).1 in
    let addr = vm_read32 t.mem 0x100 in
    let u = (sys_memory_free t addr).1 in
    ((sys_memory_free t addr).0 ≡ ok)
    × (u.total_allocated ≡ page_1m)
    × (sys_memory_free u addr ≡ (einval, u))
free-allocate_example =
    free-allocate willing one_block 0x10_0000 0 0x100 one_block-IsValid (omega arith) (omega arith)
      (omega arith) two_blocks

sys_memory_free-IsValid_example : IsValid (sys_memory_free one_block alloc_base).1
sys_memory_free-IsValid_example = sys_memory_free-IsValid one_block alloc_base one_block-IsValid

sys_memory_free_lem_example :
    sys_memory_free one_block alloc_base ≡ (ok, freed one_block 0 first_block)
sys_memory_free_lem_example =
    sys_memory_free_lem one_block 0 first_block one_block-IsValid refl refl

sys_memory_get_user_memory_size_lem_example :
    let (status, t) = sys_memory_get_user_memory_size one_block 0x100 in
    (status ≡ ok)
    × (t.elf_charged ≡ true)
    × (t.total_allocated ≡ page_1m)
    × (t.external_consumed ≡ elf_footprint)
    × (vm_read32 t.mem 0x100 ≡ user_total)
    × (vm_read32 t.mem 0x104 ≡ user_total - (t.total_allocated + t.external_consumed))
sys_memory_get_user_memory_size_lem_example =
    sys_memory_get_user_memory_size_lem one_block 0x100 (omega arith) (omega arith) (omega arith)
      (omega arith)

sys_memory_get_page_attribute_lem_example :
    let (status, t) = sys_memory_get_page_attribute one_block (alloc_base + 5) 0x100 in
    (status ≡ ok) × (vm_read32 t.mem 0x110 ≡ page_1m)
sys_memory_get_page_attribute_lem_example =
    sys_memory_get_page_attribute_lem one_block 0 (alloc_base + 5) 0x100 first_block
      one_block-IsValid refl refl (omega arith) (omega arith) (omega arith) (omega arith)

rounded : align_up 0x1234 0x1_0000 ≡ 0x1_0000
unfolding align_up
rounded = refl

sys_mmapper_allocate_address-IsValid_example :
    IsValid (sys_mmapper_allocate_address one_block 0x1234 0 0x100).1
sys_mmapper_allocate_address-IsValid_example =
    sys_mmapper_allocate_address-IsValid one_block 0x1234 0 0x100 one_block-IsValid (inr refl)
      (omega (arith, rounded))

reserved_address : (sys_mmapper_allocate_address one_block 0x1234 0 0x100).0 ≡ ok
unfolding sys_mmapper_allocate_address reserve align_up place
reserved_address = refl

sys_mmapper_allocate_address_ok_example :
    let t = (sys_mmapper_allocate_address one_block 0x1234 0 0x100).1 in
    let addr = vm_read32 t.mem 0x100 in
    (addr ≡ (place one_block 0x1_0000).bump_ptr)
    × (addr % 0x1_0000 ≡ 0)
    × (alloc_base ≤ addr)
    × (t.bump_ptr ≡ addr + align_up 0x1234 0x1_0000)
    × (t.bump_ptr ≤ alloc_end)
    × ((i : ℕ) (a : AllocInfo)
        → get_elem? one_block.allocs i ≡ some a
        → a.active ≡ true
        → a.addr + a.size ≤ addr)
sys_mmapper_allocate_address_ok_example =
    sys_mmapper_allocate_address_ok one_block 0x1234 0 0x100 one_block-IsValid (inr refl)
      (omega (arith, rounded)) (λ z. omega (arith, z)) reserved_address

reserve_wraps_example :
    let (status, t) = reserve one_block 0xf000_0000 0x100 in
    (status ≡ ok)
    × (t.bump_ptr + 2 ^ 32 ≡ one_block.bump_ptr + 0xf000_0000)
    × (t.bump_ptr < one_block.bump_ptr)
    × (t.bump_ptr < alloc_end)
reserve_wraps_example =
    reserve_wraps one_block 0xf000_0000 0x100 one_block-IsValid (omega arith) (omega arith)

created : (sys_mmapper_allocate_shared_memory one_block 0x1234 0x100).0 ≡ ok
unfolding sys_mmapper_allocate_shared_memory find_index
created = refl

committed : vm_commit willing 0x5000_0000 (align_up 0x1234 0x1000) ≡ ok
unfolding vm_commit align_up
committed = refl

map-allocate_shared_example :
    let t = (sys_mmapper_allocate_shared_memory one_block 0x1234 0x100).1 in
    sys_mmapper_map_shared_memory willing t 0x5000_0000 (vm_read32 t.mem 0x100)
    ≡ (ok, record t { mem = zero_range t.mem 0x5000_0000 (align_up 0x1234 0x1000) })
map-allocate_shared_example =
    map-allocate_shared willing one_block 0x1234 0x100 0x5000_0000 refl (omega arith) created
      committed

fits : Fits one_block page_1m page_1m
fits = record {
  page = inl refl;
  positive = omega arith;
  aligned = refl;
  size_aligned = refl;
  base = omega arith;
  room = omega arith;
  payable = omega arith;
}

refused : vm_commit unwilling (alloc_base + page_1m) page_1m ≢ ok
unfolding vm_commit
refused = λ e. cc

finish_refused_leaks_example :
    let (status, t) =
      finish unwilling
        (claim one_block 1 page_1m page_1m)
        1
        (block (alloc_base + page_1m) page_1m page_1m)
        0x100 in
    (status ≡ enomem)
    × (total charge t.allocs ≡ total charge one_block.allocs)
    × (t.total_allocated ≡ page_1m + page_1m)
finish_refused_leaks_example =
    finish_refused_leaks unwilling one_block 1 page_1m page_1m 0x100 empty_slot one_block-IsValid
      fits refl refl refused

abbrev with_containers : State
with_containers = record one_block {
  containers = replicate container_max (record { active = false; total_size = 0 });
}

container_made : (sys_memory_container_create with_containers 0x100 0x10_0000).0 ≡ ok
unfolding sys_memory_container_create find_index
container_made = refl

get_size-create_example :
    let t = (sys_memory_container_create with_containers 0x100 0x10_0000).1 in
    let id = vm_read32 t.mem 0x100 in
    let u = (sys_memory_container_get_size t 0x200 id).1 in
    let v = (sys_memory_container_destroy t id).1 in
    ((sys_memory_container_get_size t 0x200 id).0 ≡ ok)
    × (vm_read32 u.mem 0x200 ≡ 0x10_0000)
    × (vm_read32 u.mem 0x204 ≡ 0x10_0000)
    × ((sys_memory_container_destroy t id).0 ≡ ok)
    × (sys_memory_container_destroy v id ≡ (esrch, v))
get_size-create_example =
    get_size-create with_containers 0x100 0x10_0000 0x200 refl (omega arith) (omega arith)
      (omega arith) (omega arith) container_made

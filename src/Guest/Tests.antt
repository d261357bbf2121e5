-- ===== src/Guest/Tests.antt =====
-- Guest memory and the stack allocator at concrete inputs.
use yakuza_dead_souls_ex.Prelude.{◌+◌, ◌%◌, ◌≤◌, ◌<◌, ◌≡◌, refl, ◌⊎◌, arith}
use yakuza_dead_souls_ex.Guest.{Memory, vm_read64, write_be64}
use yakuza_dead_souls_ex.Guest.Words.{vm_read64-write_be64}
use yakuza_dead_souls_ex.Guest.Stack.{
  StackAlloc, vm_page_size, vm_stack_base, vm_stack_region, vm_stack_allocate, IsValid,
  vm_stack_allocate_lem, vm_stack_allocate_wraps,
}

abbrev zeros : Memory
zeros = λ _. 0

vm_read64-write_be64_example :
    vm_read64 (write_be64 zeros 0x100 0x1234_5678_9abc_def0) 0x100 ≡ 0x1234_5678_9abc_def0
vm_read64-write_be64_example = vm_read64-write_be64 zeros 0x100 0x1234_5678_9abc_def0 (omega arith)

abbrev used : StackAlloc
used = record { next_addr = vm_stack_base + 0x1_1000; region_end = vm_stack_base + vm_stack_region }

used-IsValid : IsValid used
used-IsValid = record { above = omega arith; below = omega arith; end = refl; aligned = refl }

vm_stack_allocate_lem_example :
    let (base, sa') = vm_stack_allocate used 0x1_0001 in
    ((base ≡ 0) × (sa'.next_addr ≡ used.next_addr) × (sa'.region_end ≡ used.region_end))
    ⊎ ((base ≡ used.next_addr + vm_page_size)
        × (base % vm_page_size ≡ 0)
        × (base + 0x1_0001 ≤ sa'.next_addr)
        × (sa'.next_addr ≤ used.region_end)
        × IsValid sa')
vm_stack_allocate_lem_example = vm_stack_allocate_lem used 0x1_0001 used-IsValid (omega arith)

vm_stack_allocate_wraps_example :
    let (base, sa') = vm_stack_allocate used 0x3000_0000 in
    (base ≡ used.next_addr + vm_page_size)
    × (used.region_end < base + 0x3000_0000)
    × (sa'.next_addr < used.next_addr)
vm_stack_allocate_wraps_example =
    vm_stack_allocate_wraps used 0x3000_0000 used-IsValid (omega arith) (omega arith)

-- ===== src/Guest/Stack.antt =====
-- The PPU stack allocator of runtime/memory/vm.h: a bump allocator with a guard page under each
-- stack.
use yakuza_dead_souls_ex.Prelude.{ℕ, ◌+◌, ◌*◌, ◌%◌, ◌^◌, ◌≤◌, ◌<◌, ◌≡◌, arith, ◌⊎◌}
use yakuza_dead_souls_ex.Prelude.Tests.{ltb, if◌then◌else◌}
use yakuza_dead_souls_ex.Guest.{u32, align_up}
use yakuza_dead_souls_ex.Guest.Words.{align_up_4k, align_up_any}

abbrev pub vm_page_size : ℕ
vm_page_size = 0x1000

abbrev pub vm_stack_base : ℕ
vm_stack_base = 0xd000_0000

abbrev pub vm_stack_region : ℕ
vm_stack_region = 0x1000_0000

-- `vm_stack_alloc`
pub record StackAlloc : Type 0 where
  pub next_addr : ℕ
  pub region_end : ℕ

pub vm_stack_alloc_init : StackAlloc
vm_stack_alloc_init = record {
  next_addr = vm_stack_base;
  region_end = u32 (vm_stack_base + vm_stack_region);
}

-- The first part is the value that the C function returns, 0 on failure. The guard page is protected
-- by the host, which keeps no state here.
pub vm_stack_allocate : StackAlloc → ℕ → ℕ × StackAlloc
vm_stack_allocate sa stack_size =
    let total = u32 (align_up stack_size vm_page_size + vm_page_size) in
    if ltb sa.region_end (u32 (sa.next_addr + total))
    then (0, sa)
    else (u32 (sa.next_addr + vm_page_size), record sa { next_addr = u32 (sa.next_addr + total) })

-- Between the base and the end, and page aligned.
pub record IsValid (sa : StackAlloc) : Type 0 where
  pub above : vm_stack_base ≤ sa.next_addr
  pub below : sa.next_addr ≤ sa.region_end
  pub end : sa.region_end ≡ vm_stack_base + vm_stack_region
  pub aligned : sa.next_addr % vm_page_size ≡ 0

pub vm_stack_alloc_init-IsValid : IsValid vm_stack_alloc_init
unfolding vm_stack_alloc_init
vm_stack_alloc_init-IsValid = omega arith

-- A request of at most the region's size either fails, with result 0 and the allocator as it was, or
-- returns a page-aligned base. Then a guard page lies between the old top of the allocator and the
-- base, the stack ends at or below the new top, which is inside the region, and the allocator stays
-- valid.
pub vm_stack_allocate_lem :
    (sa : StackAlloc) (stack_size : ℕ)
    → IsValid sa
    → stack_size ≤ vm_stack_region
    → let (base, sa') = vm_stack_allocate sa stack_size in
      ((base ≡ 0) × (sa'.next_addr ≡ sa.next_addr) × (sa'.region_end ≡ sa.region_end))
      ⊎ ((base ≡ sa.next_addr + vm_page_size)
          × (base % vm_page_size ≡ 0)
          × (base + stack_size ≤ sa'.next_addr)
          × (sa'.next_addr ≤ sa.region_end)
          × IsValid sa')
unfolding vm_stack_allocate
vm_stack_allocate_lem sa stack_size v small =
    ground (arith, align_up_4k stack_size, align_up_any stack_size)

-- A request that the 32-bit sum wraps is granted although it does not fit: from a valid allocator, for a
-- size that leaves two pages to 2^32, the call returns the usual base, the stack from there runs past the
-- end of the region, and the allocator's next address is below the old one.
pub vm_stack_allocate_wraps :
    (sa : StackAlloc) (stack_size : ℕ)
    → IsValid sa
    → 2 ^ 32 ≤ sa.next_addr + stack_size
    → stack_size + 2 * vm_page_size ≤ 2 ^ 32
    → let (base, sa') = vm_stack_allocate sa stack_size in
      (base ≡ sa.next_addr + vm_page_size)
      × (sa.region_end < base + stack_size)
      × (sa'.next_addr < sa.next_addr)
unfolding vm_stack_allocate
vm_stack_allocate_wraps sa stack_size v big fits = ground (arith, align_up_4k stack_size)

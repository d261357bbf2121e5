-- ===== src/Lv2/Memory.antt =====
-- runtime/syscalls/sys_memory.c: the bump allocator of user memory, with its budget and its table of
-- allocations. The handlers of sys_mmapper and of memory containers are in `Memory.Mapper`.
pub mod Mapper
pub mod Invariant
pub mod Allocate
pub mod Grant
pub mod Free
pub mod Queries
mod Tests
use yakuza_dead_souls_ex.Prelude.{
  ℕ, ◌+◌, ◌-◌, ◌*◌, ◌%◌, ◌^◌, Bool, true, false, not, ◌&&◌, Option, none, some, List,
}
use yakuza_dead_souls_ex.Prelude.Tests.{◌==◌, ltb, leb, if◌then◌else◌}
use yakuza_dead_souls_ex.Prelude.Lists.{set, get_elem?, find_index}
use yakuza_dead_souls_ex.Guest.{
  Status, ok, einval, enomem, efault, Memory, u32, align_up, write_out, write_be32,
}

-- `sys_mem_alloc_info`
pub record AllocInfo : Type 0 where
  pub active : Bool
  pub addr : ℕ
  pub size : ℕ
  pub page_size : ℕ

-- `sys_mem_container_info`
pub record ContainerInfo : Type 0 where
  pub active : Bool
  pub total_size : ℕ

-- `sys_mmapper_shared_info`
pub record SharedInfo : Type 0 where
  pub active : Bool
  pub size : ℕ

-- The file's globals, with the guest memory that the handlers write.
pub record State : Type 0 where
  pub allocs : List AllocInfo
  pub containers : List ContainerInfo
  pub shared : List SharedInfo
  pub bump_ptr : ℕ
  pub total_allocated : ℕ
  pub external_consumed : ℕ
  pub elf_charged : Bool
  pub mem : Memory

-- What the host answers: whether the 4 GiB range is reserved, and whether it commits a range of
-- pages (`VirtualAlloc`, `mprotect`).
pub record Host : Type 0 where
  pub reserved : Bool
  pub commits : ℕ → ℕ → Bool

abbrev pub user_total : ℕ
user_total = 213 * 1024 * 1024

abbrev pub alloc_base : ℕ
alloc_base = 0x4000_0000

abbrev pub alloc_end : ℕ
alloc_end = 0x5000_0000

abbrev pub elf_footprint : ℕ
elf_footprint = 0x17e_0000

abbrev pub page_1m : ℕ
page_1m = 0x10_0000

abbrev pub page_64k : ℕ
page_64k = 0x1_0000

unfoldable pub vm_commit : Host → ℕ → ℕ → Status
vm_commit host addr size =
    if not host.reserved
    then efault
    else if host.commits addr (align_up size 0x1000)
    then ok
    else enomem

-- The page size that the flags ask for; `none` is CELL_EINVAL.
unfoldable pub page_alignment : ℕ → Option ℕ
page_alignment flags =
    if flags == 0
    then some page_1m
    else if flags == 0x400
    then some page_1m
    else if flags == 0x200
    then some page_64k
    else none

-- The bump pointer is set on first use, then aligned; a later refusal keeps both.
unfoldable pub place : State → ℕ → State
place s alignment = record s {
  bump_ptr = align_up (if s.bump_ptr == 0 then alloc_base else s.bump_ptr) alignment;
}

abbrev pub block : ℕ → ℕ → ℕ → AllocInfo
block addr size alignment = record {
  active = true;
  addr = addr;
  size = size;
  page_size = alignment;
}

abbrev pub is_free : AllocInfo → Bool
is_free a = not a.active

-- The slot is claimed, and the sums are charged, before the lock is dropped.
unfoldable pub claim : State → ℕ → ℕ → ℕ → State
claim s slot size alignment = record s {
  bump_ptr = u32 (s.bump_ptr + size);
  total_allocated = u32 (s.total_allocated + size);
  allocs = set s.allocs slot (block s.bump_ptr size alignment);
}

-- After the lock: the pages are committed, and the address is written out. A refused commit clears
-- `active` only.
unfoldable pub finish : Host → State → ℕ → AllocInfo → ℕ → Status × State
finish host s slot a addr_out = elim (vm_commit host a.addr a.size) [
  | Status.ok ↦ (ok, record s { mem = write_out s.mem addr_out a.addr })
  | _ ↦ (enomem, record s { allocs = set s.allocs slot (record a { active = false }) })
]

unfoldable pub allocate_placed : Host → State → ℕ → ℕ → ℕ → Status × State
allocate_placed host s size alignment addr_out =
    if ltb alloc_end (u32 (s.bump_ptr + size))
    then (enomem, s)
    else if ltb user_total ((s.total_allocated + s.external_consumed + size) % 2 ^ 64)
    then (enomem, s)
    else elim (find_index is_free s.allocs) [
      | none ↦ (enomem, s)
      | some slot ↦
          finish host (claim s slot size alignment) slot (block s.bump_ptr size alignment) addr_out
    ]

pub sys_memory_allocate : Host → State → ℕ → ℕ → ℕ → Status × State
sys_memory_allocate host s size flags addr_out = elim (page_alignment flags) [
  | none ↦ (einval, s)
  | some alignment ↦
      if align_up size alignment == 0
      then (einval, s)
      else allocate_placed host (place s alignment) (align_up size alignment) alignment addr_out
]

abbrev pub is_at : ℕ → AllocInfo → Bool
is_at addr a = a.active && (a.addr == addr)

-- The entry that the loop of `sys_memory_free` stops at gives its charge back.
unfoldable pub free_slot : State → ℕ → Option AllocInfo → Status × State
free_slot s slot none = (einval, s)
free_slot s slot (some a) = (
  ok,
  record s {
    total_allocated = u32 (s.total_allocated + 2 ^ 32 - a.size);
    allocs = set s.allocs slot (record a { active = false });
  },
)

pub sys_memory_free : State → ℕ → Status × State
unfolding free_slot
sys_memory_free s addr = elim (find_index (is_at addr) s.allocs) [
  | none ↦ (einval, s)
  | some slot ↦ free_slot s slot (get_elem? s.allocs slot)
]

unfoldable pub sys_memory_account : State → ℕ → State
sys_memory_account s bytes = record s { external_consumed = (s.external_consumed + bytes) % 2 ^ 64 }

-- The ELF footprint is charged on the first query only.
unfoldable pub charge_elf : State → State
unfolding sys_memory_account
charge_elf s =
    if s.elf_charged then s else sys_memory_account (record s { elf_charged = true }) elf_footprint

-- The second word of the reply, floored at 0.
unfoldable pub available : State → ℕ
available s =
    let consumed = (s.total_allocated + s.external_consumed) % 2 ^ 64 in
    if leb user_total consumed then 0 else user_total - consumed

pub sys_memory_get_user_memory_size : State → ℕ → Status × State
sys_memory_get_user_memory_size s out_addr =
    let s' = charge_elf s in
    (
      ok,
      record s' {
        mem =
            if out_addr == 0
            then s'.mem
            else write_be32 (write_be32 s'.mem out_addr user_total) (u32 (out_addr + 4))
                (available s');
      },
    )

abbrev pub covers : ℕ → AllocInfo → Bool
covers addr a = a.active && (leb a.addr addr && ltb addr (u32 (a.addr + a.size)))

unfoldable pub page_size_of : Option AllocInfo → ℕ
page_size_of none = page_64k
page_size_of (some a) = if a.page_size == 0 then page_64k else a.page_size

-- The page size that the query reports: that of the first allocation over the address, else 64K.
unfoldable pub page_size_at : State → ℕ → ℕ
unfolding page_size_of
page_size_at s addr = elim (find_index (covers addr) s.allocs) [
  | none ↦ page_64k
  | some slot ↦ page_size_of (get_elem? s.allocs slot)
]

-- `sys_page_attr_t` at `p`: the attribute, the access right, the page size and the padding
unfoldable pub write_page_attr : Memory → ℕ → ℕ → Memory
write_page_attr m p page_size =
    let m0 = write_be32 m p 0 in
    let m1 = write_be32 m0 (u32 (p + 0x04)) 0x4_0000 in
    let m2 = write_be32 m1 (u32 (p + 0x08)) 0 in
    let m3 = write_be32 m2 (u32 (p + 0x0c)) 8 in
    let m4 = write_be32 m3 (u32 (p + 0x10)) page_size in write_be32 m4 (u32 (p + 0x14)) 0

pub sys_memory_get_page_attribute : State → ℕ → ℕ → Status × State
sys_memory_get_page_attribute s addr attr_out = (
  ok,
  record s {
    mem = if attr_out == 0 then s.mem else write_page_attr s.mem attr_out (page_size_at s addr);
  },
)

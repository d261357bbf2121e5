-- ===== src/Lv2/Memory/Mapper.antt =====
-- runtime/syscalls/sys_memory.c: memory containers and sys_mmapper, on the state of `Memory`.
pub mod Address
pub mod Handles
pub mod Containers
use yakuza_dead_souls_ex.Prelude.{
  ℕ, ◌+◌, ◌-◌, ◌%◌, ◌^◌, Bool, true, false, not, ◌&&◌, ◌||◌, Option, none, some,
}
use yakuza_dead_souls_ex.Prelude.Tests.{◌==◌, ltb, leb, if◌then◌else◌}
use yakuza_dead_souls_ex.Prelude.Lists.{set, get_elem?, find_index, replicate}
use yakuza_dead_souls_ex.Guest.{
  Status, ok, eagain, enomem, esrch, Memory, u32, align_up, write_out, write_be32,
}
use yakuza_dead_souls_ex.Lv2.Memory.{
  State, Host, AllocInfo, ContainerInfo, SharedInfo, alloc_end, page_64k, place, vm_commit,
}

abbrev pub container_max : ℕ
container_max = 16

abbrev pub shared_max : ℕ
shared_max = 64

-- The handlers of `sys_memory_init`: empty tables. The external charges and the ELF flag are left as
-- they are.
pub sys_memory_init : State → State
sys_memory_init s = record s {
  allocs = replicate 1024 (record { active = false; addr = 0; size = 0; page_size = 0 });
  containers = replicate container_max (record { active = false; total_size = 0 });
  shared = replicate shared_max (record { active = false; size = 0 });
  bump_ptr = 0;
  total_allocated = 0;
}

-- Handles are slot numbers from 1 on.
abbrev pub bad_handle : ℕ → ℕ → Bool
bad_handle id max = (id == 0) || ltb max id

abbrev pub free_container : ContainerInfo → Bool
free_container c = not c.active

unfoldable pub sys_memory_container_create : State → ℕ → ℕ → Status × State
sys_memory_container_create s id_out_addr size = elim (find_index free_container s.containers) [
  | none ↦ (eagain, s)
  | some slot ↦ (
    ok,
    record s {
      containers = set s.containers slot (record { active = true; total_size = size });
      mem = write_out s.mem id_out_addr (slot + 1);
    },
  )
]

unfoldable pub destroy_container : State → ℕ → Option ContainerInfo → Status × State
destroy_container s slot none = (esrch, s)
destroy_container s slot (some c) =
    if not c.active
    then (esrch, s)
    else (ok, record s { containers = set s.containers slot (record c { active = false }) })

unfoldable pub sys_memory_container_destroy : State → ℕ → Status × State
unfolding destroy_container
sys_memory_container_destroy s id =
    if bad_handle id container_max
    then (esrch, s)
    else destroy_container s (id - 1) (get_elem? s.containers (id - 1))

-- Total and available are the same number.
unfoldable pub report_container : State → ℕ → Option ContainerInfo → Status × State
report_container s out_addr none = (esrch, s)
report_container s out_addr (some c) = if not c.active then (esrch, s) else (
  ok,
  record s {
    mem =
        if out_addr == 0
        then s.mem
        else write_be32 (write_be32 s.mem out_addr c.total_size) (u32 (out_addr + 4)) c.total_size;
  },
)

unfoldable pub sys_memory_container_get_size : State → ℕ → ℕ → Status × State
unfolding report_container
sys_memory_container_get_size s out_addr id =
    if bad_handle id container_max
    then (esrch, s)
    else report_container s out_addr (get_elem? s.containers (id - 1))

-- `sys_mmapper_allocate_address` past its alignment: the host's answer to the commit is not read.
unfoldable pub reserve : State → ℕ → ℕ → Status × State
reserve s size addr_out = if ltb alloc_end (u32 (s.bump_ptr + size)) then (enomem, s) else (
  ok,
  record s { bump_ptr = u32 (s.bump_ptr + size); mem = write_out s.mem addr_out s.bump_ptr },
)

abbrev pub or_64k : ℕ → ℕ
or_64k alignment = if alignment == 0 then page_64k else alignment

unfoldable pub sys_mmapper_allocate_address : State → ℕ → ℕ → ℕ → Status × State
unfolding reserve
sys_mmapper_allocate_address s size alignment addr_out =
    reserve (place s (or_64k alignment)) (align_up size (or_64k alignment)) addr_out

pub sys_mmapper_free_address : State → ℕ → Status × State
sys_mmapper_free_address s addr = (ok, s)

abbrev pub free_shared : SharedInfo → Bool
free_shared c = not c.active

unfoldable pub sys_mmapper_allocate_shared_memory : State → ℕ → ℕ → Status × State
sys_mmapper_allocate_shared_memory s size id_out = elim (find_index free_shared s.shared) [
  | none ↦ (eagain, s)
  | some slot ↦ (
    ok,
    record s {
      shared = set s.shared slot (record { active = true; size = align_up size 0x1000 });
      mem = write_out s.mem id_out (slot + 1);
    },
  )
]

-- `memset(vm_to_host(addr), 0, size)`
unfoldable pub zero_range : Memory → ℕ → ℕ → Memory
zero_range m addr size q = if leb addr q && ltb q (addr + size) then 0 else m q

-- A refused commit is the call's status.
unfoldable pub map_object : Host → State → ℕ → Option SharedInfo → Status × State
map_object host s addr none = (esrch, s)
map_object host s addr (some c) =
    if not c.active then (esrch, s) else elim (vm_commit host addr c.size) [
      | Status.ok ↦ (ok, record s { mem = zero_range s.mem addr c.size })
      | rc ↦ (rc, s)
    ]

pub sys_mmapper_map_shared_memory : Host → State → ℕ → ℕ → Status × State
unfolding map_object
sys_mmapper_map_shared_memory host s addr shm_id =
    if bad_handle shm_id shared_max
    then (esrch, s)
    else map_object host s addr (get_elem? s.shared (shm_id - 1))

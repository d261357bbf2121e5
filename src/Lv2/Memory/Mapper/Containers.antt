-- ===== src/Lv2/Memory/Mapper/Containers.antt =====
-- runtime/syscalls/sys_memory.c: the life of a memory container.
use yakuza_dead_souls_ex.Prelude.{
  ℕ, ◌+◌, ◌-◌, ◌^◌, ◌≤◌, ◌<◌, ◌≡◌, refl, ◌∙◌, ◌≢◌, inl, inr, true, false, some, arith,
}
use yakuza_dead_souls_ex.Prelude.Tests.{◌==◌, Option-cases}
use yakuza_dead_souls_ex.Prelude.Lists.{
  length, get_elem?, find_index, find_index-some, get_elem?-set_self, get_elem?_lt,
}
use yakuza_dead_souls_ex.Guest.{ok, esrch, u32, vm_read32, write_be32}
use yakuza_dead_souls_ex.Guest.Words.{vm_read32-write_be32, vm_read32-write_out}
use yakuza_dead_souls_ex.Lv2.Memory.{State, ContainerInfo}
use yakuza_dead_souls_ex.Lv2.Memory.Mapper.{
  container_max, bad_handle, free_container, sys_memory_container_create, destroy_container,
  sys_memory_container_destroy, report_container, sys_memory_container_get_size,
}

-- The handle `id` names the active container `c`.
record Names (s : State) (id : ℕ) (c : ContainerInfo) : Type 0 where
  pub low : 0 < id
  pub high : id ≤ container_max
  pub entry : get_elem? s.containers (id - 1) ≡ some c
  pub live : c.active ≡ true

in_range :
    (s : State) (id : ℕ) (c : ContainerInfo) → Names s id c → bad_handle id container_max ≡ false
in_range s id c n = ground (arith, n.low, n.high)

-- What a creation that succeeds leaves behind.
created :
    (s : State) (id_out size : ℕ)
    → length s.containers ≡ container_max
    → id_out ≢ 0
    → (sys_memory_container_create s id_out size).0 ≡ ok
    → let t = (sys_memory_container_create s id_out size).1 in
      Names t (vm_read32 t.mem id_out) (record { active = true; total_size = size })
unfolding sys_memory_container_create
created s id_out size full ne h = elim (Option-cases (find_index free_container s.containers)) [
  | inl e ↦ absurd (ground arith)
  | inr (slot, e) ↦
      let (c, ec, _) = find_index-some free_container s.containers slot e in
      let lt = get_elem?_lt s.containers slot ec in
      let told = vm_read32-write_out s.mem id_out (slot + 1) (omega arith) ne in
      let back : slot + 1 - 1 ≡ slot = omega arith in
      rw (e, sys_memory_container_create)
        (record {
          low = omega (arith, told);
          high = omega (arith, told);
          entry = rw (told, back) (get_elem?-set_self s.containers slot _ lt);
          live = refl;
        })
]

get_size_lem :
    (t : State) (out id : ℕ) (c : ContainerInfo)
    → Names t id c
    → out ≢ 0
    → out + 4 < 2 ^ 32
    → c.total_size < 2 ^ 32
    → let u = (sys_memory_container_get_size t out id).1 in
      ((sys_memory_container_get_size t out id).0 ≡ ok)
      × (vm_read32 u.mem out ≡ c.total_size)
      × (vm_read32 u.mem (out + 4) ≡ c.total_size)
unfolding sys_memory_container_get_size report_container
get_size_lem t out id c n ne small word =
    let nonnull : (out == 0) ≡ false = ground arith in
    let next : u32 (out + 4) ≡ out + 4 = omega arith in
    rw (in_range t id c n, n.entry, n.live, nonnull, next)
      (
        refl,
        (vm_read32-write_be32 (write_be32 t.mem out c.total_size) (out + 4) c.total_size word).1 out
              (inl (omega arith))
            ∙ (vm_read32-write_be32 t.mem out c.total_size word).0,
        (vm_read32-write_be32 (write_be32 t.mem out c.total_size) (out + 4) c.total_size word).0,
      )

destroy_twice :
    (t : State) (id : ℕ) (c : ContainerInfo)
    → Names t id c
    → let u = (sys_memory_container_destroy t id).1 in
      ((sys_memory_container_destroy t id).0 ≡ ok)
      × (sys_memory_container_destroy u id ≡ (esrch, u))
unfolding sys_memory_container_destroy destroy_container
destroy_twice t id c n =
    rw
      (
        in_range t id c n,
        n.entry,
        n.live,
        get_elem?-set_self t.containers (id - 1) (record c { active = false })
            (get_elem?_lt t.containers (id - 1) n.entry),
      )
      (refl, refl)

-- The handle that `sys_memory_container_create` writes out lives until it is destroyed: its size query
-- writes the size it was created with as total and as available, one destruction returns CELL_OK, and a
-- second is refused with CELL_ESRCH and changes nothing. The table has its 16 entries, the size is a
-- 32-bit register, and the pointers are neither null nor near 4 GiB.
pub get_size-create :
    (s : State) (id_out size out : ℕ)
    → length s.containers ≡ container_max
    → id_out ≢ 0
    → out ≢ 0
    → out + 4 < 2 ^ 32
    → size < 2 ^ 32
    → (sys_memory_container_create s id_out size).0 ≡ ok
    → let t = (sys_memory_container_create s id_out size).1 in
      let id = vm_read32 t.mem id_out in
      let u = (sys_memory_container_get_size t out id).1 in
      let v = (sys_memory_container_destroy t id).1 in
      ((sys_memory_container_get_size t out id).0 ≡ ok)
      × (vm_read32 u.mem out ≡ size)
      × (vm_read32 u.mem (out + 4) ≡ size)
      × ((sys_memory_container_destroy t id).0 ≡ ok)
      × (sys_memory_container_destroy v id ≡ (esrch, v))
get_size-create s id_out size out full ne ne' small word h =
    let t = (sys_memory_container_create s id_out size).1 in
    let n = created s id_out size full ne h in
    let (told, total, left) = get_size_lem t out (vm_read32 t.mem id_out) _ n ne' small word in
    let (once, again) = destroy_twice t (vm_read32 t.mem id_out) _ n in
    (told, total, left, once, again)

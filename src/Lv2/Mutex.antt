-- ===== src/Lv2/Mutex.antt =====
-- runtime/syscalls/sys_mutex.c, in the Windows build: a slot says who owns the mutex and how often, and
-- a host lock, a CRITICAL_SECTION, makes the threads wait.
--
-- The host lock is not of this repository: `HostLock` states what its documentation promises. Thread
-- identifiers are not 0, which stands for no owner. Fields of 32 bits hold their bit patterns.
pub mod Threads
pub mod Invariant
pub mod Moves
pub mod Ownership
mod Tests
use yakuza_dead_souls_ex.Prelude.{
  ℕ, ◌+◌, ◌-◌, ◌^◌, ◌<◌, ◌≡◌, ◌≢◌, Bool, true, false, not, ◌&&◌, ◌||◌, Option, none, some, List,
}
use yakuza_dead_souls_ex.Prelude.Tests.{◌==◌, ltb, if◌then◌else◌}
use yakuza_dead_souls_ex.Prelude.Lists.{get_elem?, set, find_index}
use yakuza_dead_souls_ex.Guest.{
  Status, ok, eagain, esrch, edeadlk, eperm, ebusy, Memory, u32, vm_read32, write_out,
}

-- A lock that its owner may enter again, and leaves once for each entry: `depth s t` entries of
-- thread `t` are open. `try_enter` fails exactly while another thread is inside, and a blocking entry
-- waits until it would succeed.
pub record HostLock : Type 1 where
  pub State : Type 0
  pub fresh : State
  pub try_enter : State → ℕ → Option State
  pub leave : State → ℕ → State
  pub depth : State → ℕ → ℕ
  pub depth-fresh : (t : ℕ) → depth fresh t ≡ 0
  pub depth-enter : {s s' : State} {t : ℕ} → try_enter s t ≡ some s' → depth s' t ≡ depth s t + 1
  pub enter-alone :
      {s s' : State} {t u : ℕ}
      → try_enter s t ≡ some s'
      → u ≢ t
      → (depth s u ≡ 0) × (depth s' u ≡ 0)
  pub enter-busy : {s : State} {t : ℕ} → try_enter s t ≡ none → (u : ℕ) × (u ≢ t) × (0 < depth s u)
  pub depth-leave : {s : State} {t : ℕ} → 0 < depth s t → depth (leave s t) t + 1 ≡ depth s t
  pub leave-others : {s : State} {t u : ℕ} → 0 < depth s t → u ≢ t → depth (leave s t) u ≡ depth s u

-- `sys_mutex_info` without the host lock
pub record MutexInfo : Type 0 where
  pub active : Bool
  pub recursive : Bool
  pub owner_tid : ℕ
  pub lock_count : ℕ
  pub cond_count : ℕ

pub record State : Type 0 where
  pub mutexes : List MutexInfo
  pub mem : Memory

abbrev pub mutex_max : ℕ
mutex_max = 256

abbrev pub bad_handle : ℕ → Bool
bad_handle id = (id == 0) || ltb mutex_max id

-- `> 0` of an `int`
abbrev pub positive : ℕ → Bool
positive n = ltb 0 n && ltb n (2 ^ 31)

abbrev pub free_mutex : MutexInfo → Bool
free_mutex m = not m.active

-- The attribute's recursive flag, at offset 4.
unfoldable pub is_recursive : Memory → ℕ → Bool
is_recursive mem attr_addr = not (attr_addr == 0) && (vm_read32 mem (attr_addr + 4) == 0x10)

abbrev pub fresh_mutex : Bool → MutexInfo
fresh_mutex recursive = record {
  active = true;
  recursive = recursive;
  owner_tid = 0;
  lock_count = 0;
  cond_count = 0;
}

unfoldable pub put_mutex : State → ℕ → ℕ → Option ℕ → Status × State
put_mutex s id_out_addr attr_addr none = (eagain, s)
put_mutex s id_out_addr attr_addr (some slot) = (
  ok,
  record {
    mutexes = set s.mutexes slot (fresh_mutex (is_recursive s.mem attr_addr));
    mem = write_out s.mem id_out_addr (slot + 1);
  },
)

unfoldable pub sys_mutex_create : State → ℕ → ℕ → Status × State
sys_mutex_create s id_out_addr attr_addr =
    put_mutex s id_out_addr attr_addr (find_index free_mutex s.mutexes)

unfoldable pub destroy_mutex : State → ℕ → Option MutexInfo → Status × State
destroy_mutex s slot none = (esrch, s)
destroy_mutex s slot (some m) =
    if not m.active
    then (esrch, s)
    else if not (m.owner_tid == 0)
    then (ebusy, s)
    else if positive m.cond_count
    then (eperm, s)
    else (ok, record s { mutexes = set s.mutexes slot (record m { active = false }) })

unfoldable pub sys_mutex_destroy : State → ℕ → Status × State
sys_mutex_destroy s id =
    if bad_handle id then (esrch, s) else destroy_mutex s (id - 1) (get_elem? s.mutexes (id - 1))

-- `!m->recursive && m->owner_tid == caller_tid && m->lock_count > 0`
abbrev pub relocks : MutexInfo → ℕ → Bool
relocks m caller = not m.recursive && (m.owner_tid == caller) && positive m.lock_count

-- `m->recursive && m->owner_tid == caller_tid && m->lock_count > 0`
abbrev pub reenters : MutexInfo → ℕ → Bool
reenters m caller = m.recursive && (m.owner_tid == caller) && positive m.lock_count

-- After the host lock was entered, in lock and in trylock.
unfoldable pub taken : MutexInfo → ℕ → MutexInfo
taken m caller = record m { owner_tid = caller; lock_count = u32 (m.lock_count + 1) }

-- After trylock has entered it again.
unfoldable pub retaken : MutexInfo → MutexInfo
retaken m = record m { lock_count = u32 (m.lock_count + 1) }

-- What unlock does before it leaves the host lock: `none` for CELL_EPERM.
unfoldable pub given : MutexInfo → ℕ → Option MutexInfo
given m caller =
    if not (m.owner_tid == caller)
    then none
    else let count = u32 (m.lock_count + 2 ^ 32 - 1) in
      some (record m { owner_tid = if count == 0 then 0 else m.owner_tid; lock_count = count })

-- ===== src/Lv2/Cond.antt =====
-- runtime/syscalls/sys_cond.c, in the Windows build: condition variables as a rendezvous of the waiters
-- that have committed themselves and the signals that are held for them.
--
-- Each function is what a call does under the table lock or under the signal lock of one slot; the wait
-- is cut before it takes the signal lock, and where it gives it back. Fields of 32 bits hold their bit patterns, and the
-- conversion of a timeout into slices of sleep is left out.
pub mod Contract
pub mod Threads
pub mod Rendezvous
mod Tests
use yakuza_dead_souls_ex.Prelude.{
  ℕ, ◌+◌, ◌-◌, ◌%◌, ◌^◌, Bool, true, false, not, ◌&&◌, ◌||◌, Option, none, some, List,
}
use yakuza_dead_souls_ex.Prelude.Tests.{◌==◌, ltb, if◌then◌else◌}
use yakuza_dead_souls_ex.Prelude.Lists.{get_elem?, set, find_index, replicate}
use yakuza_dead_souls_ex.Guest.{Status, ok, eagain, esrch, eperm, ebusy, Memory, u32, write_out}
use yakuza_dead_souls_ex.Lv2.Mutex.{MutexInfo, positive}
use yakuza_dead_souls_ex.Lv2.Mutex

-- `sys_cond_info` without the host's condition variable and signal lock
pub record CondInfo : Type 0 where
  pub active : Bool
  pub mutex_id : ℕ
  pub committed : ℕ
  pub pending : ℕ
  pub waiter_tids : List ℕ

pub record State : Type 0 where
  pub conds : List CondInfo
  pub mutexes : List MutexInfo
  pub mem : Memory

abbrev pub cond_max : ℕ
cond_max = 256

abbrev pub waiter_tids_max : ℕ
waiter_tids_max = 32

abbrev pub bad_handle : ℕ → Bool
bad_handle id = (id == 0) || ltb cond_max id

-- `a > b` of two `int`s
abbrev pub greater : ℕ → ℕ → Bool
greater a b = ltb (u32 (b + 2 ^ 31)) (u32 (a + 2 ^ 31))

abbrev pub put_tid : List ℕ → ℕ → Option ℕ → List ℕ
put_tid tids tid none = tids
put_tid tids tid (some i) = set tids i tid

-- A full table leaves the waiter untracked.
unfoldable pub cond_waiter_add : List ℕ → ℕ → List ℕ
cond_waiter_add tids tid = put_tid tids tid (find_index (λ t. t == 0) tids)

unfoldable pub cond_waiter_remove : List ℕ → ℕ → List ℕ
cond_waiter_remove tids tid = put_tid tids 0 (find_index (λ t. t == tid) tids)

abbrev pub is_some : Option ℕ → Bool
is_some none = false
is_some (some i) = true

unfoldable pub cond_waiter_present : List ℕ → ℕ → Bool
cond_waiter_present tids tid = is_some (find_index (λ t. t == tid) tids)

abbrev pub free_cond : CondInfo → Bool
free_cond c = not c.active

abbrev pub fresh_cond : ℕ → CondInfo
fresh_cond mutex_id = record {
  active = true;
  mutex_id = mutex_id;
  committed = 0;
  pending = 0;
  waiter_tids = replicate waiter_tids_max 0;
}

unfoldable pub put_cond : State → ℕ → ℕ → MutexInfo → Option ℕ → Status × State
put_cond s id_out_addr mutex_id m none = (eagain, s)
put_cond s id_out_addr mutex_id m (some slot) = (
  ok,
  record {
    conds = set s.conds slot (fresh_cond mutex_id);
    mutexes = set s.mutexes (mutex_id - 1) (record m { cond_count = u32 (m.cond_count + 1) });
    mem = write_out s.mem id_out_addr (slot + 1);
  },
)

unfoldable pub create_on : State → ℕ → ℕ → Option MutexInfo → Status × State
create_on s id_out_addr mutex_id none = (esrch, s)
create_on s id_out_addr mutex_id (some m) =
    if not m.active
    then (esrch, s)
    else put_cond s id_out_addr mutex_id m (find_index free_cond s.conds)

unfoldable pub sys_cond_create : State → ℕ → ℕ → Status × State
sys_cond_create s id_out_addr mutex_id =
    if Mutex.bad_handle mutex_id
    then (esrch, s)
    else create_on s id_out_addr mutex_id (get_elem? s.mutexes (mutex_id - 1))

-- The cond's claim on its mutex is given back, unless the slot was recycled.
abbrev pub unclaim : List MutexInfo → ℕ → Option MutexInfo → List MutexInfo
unclaim mutexes slot none = mutexes
unclaim mutexes slot (some m) =
    if m.active && positive m.cond_count
    then set mutexes slot (record m { cond_count = m.cond_count - 1 })
    else mutexes

unfoldable pub destroy_cond : State → ℕ → Option CondInfo → Status × State
destroy_cond s slot none = (esrch, s)
destroy_cond s slot (some c) =
    if not c.active then (esrch, s) else if positive c.committed then (ebusy, s) else (
      ok,
      record s {
        conds = set s.conds slot (record c { active = false });
        mutexes =
            if Mutex.bad_handle c.mutex_id
            then s.mutexes
            else unclaim s.mutexes (c.mutex_id - 1) (get_elem? s.mutexes (c.mutex_id - 1));
      },
    )

unfoldable pub sys_cond_destroy : State → ℕ → Status × State
sys_cond_destroy s id =
    if bad_handle id then (esrch, s) else destroy_cond s (id - 1) (get_elem? s.conds (id - 1))

-- `sys_cond_wait` before it takes the signal lock, by an owner of the mutex (`none` for CELL_EPERM): the
-- depth it saves, and the mutex it gives up.
unfoldable pub wait_claim : MutexInfo → ℕ → Option (ℕ × MutexInfo)
wait_claim m caller =
    if not (m.owner_tid == caller)
    then none
    else some (m.lock_count, record m { owner_tid = 0; lock_count = 0 })

-- Under the signal lock the waiter commits itself, whether the slot is still active or not.
unfoldable pub commit : CondInfo → ℕ → CondInfo
commit c caller = record c {
  committed = u32 (c.committed + 1);
  waiter_tids = cond_waiter_add c.waiter_tids caller;
}

-- The end of the wait under the signal lock, and the ownership it restores.
unfoldable pub wait_end : CondInfo → ℕ → Bool → CondInfo
wait_end c caller served = record c {
  pending = if served then u32 (c.pending + 2 ^ 32 - 1) else c.pending;
  committed = u32 (c.committed + 2 ^ 32 - 1);
  waiter_tids = cond_waiter_remove c.waiter_tids caller;
}

unfoldable pub wait_restore : MutexInfo → ℕ → ℕ → MutexInfo
wait_restore m caller saved_count = record m { owner_tid = caller; lock_count = saved_count }

unfoldable pub signal : CondInfo → CondInfo
signal c = if greater c.committed c.pending then record c { pending = u32 (c.pending + 1) } else c

unfoldable pub signal_all : CondInfo → CondInfo
signal_all c = record c { pending = c.committed }

-- `none` for CELL_EPERM
unfoldable pub signal_to : CondInfo → ℕ → Option CondInfo
signal_to c target_tid =
    if not (cond_waiter_present c.waiter_tids target_tid) then none else some (signal c)

-- The slot that a signal call works on: CELL_ESRCH where there is none.
abbrev pub on_active : State → (CondInfo → Status × State) → Option CondInfo → Status × State
on_active s work none = (esrch, s)
on_active s work (some c) = if not c.active then (esrch, s) else work c

abbrev pub on_cond : State → ℕ → (CondInfo → Status × State) → Status × State
on_cond s id work =
    if bad_handle id then (esrch, s) else on_active s work (get_elem? s.conds (id - 1))

abbrev pub store_cond : State → ℕ → CondInfo → State
store_cond s id c = record s { conds = set s.conds (id - 1) c }

unfoldable pub sys_cond_signal : State → ℕ → Status × State
sys_cond_signal s id = on_cond s id (λ c. (ok, store_cond s id (signal c)))

unfoldable pub sys_cond_signal_all : State → ℕ → Status × State
sys_cond_signal_all s id = on_cond s id (λ c. (ok, store_cond s id (signal_all c)))

abbrev pub signalled_to : State → ℕ → Option CondInfo → Status × State
signalled_to s id none = (eperm, s)
signalled_to s id (some c) = (ok, store_cond s id c)

unfoldable pub sys_cond_signal_to : State → ℕ → ℕ → Status × State
sys_cond_signal_to s id target_tid = on_cond s id (λ c. signalled_to s id (signal_to c target_tid))

-- `sys_cond_wait` up to the signal lock, with the mutex that the condition variable was created for.
-- None of its tests is under a lock.
abbrev pub claimed : State → ℕ → Option (ℕ × MutexInfo) → Status × State
claimed s mutex_id none = (eperm, s)
claimed s mutex_id (some (saved_count, m)) =
    (ok, record s { mutexes = set s.mutexes (mutex_id - 1) m })

abbrev pub begin_on : State → ℕ → ℕ → Option MutexInfo → Status × State
begin_on s mutex_id caller none = (esrch, s)
begin_on s mutex_id caller (some m) =
    if not m.active then (esrch, s) else claimed s mutex_id (wait_claim m caller)

unfoldable pub sys_cond_wait_begin : State → ℕ → ℕ → Status × State
sys_cond_wait_begin s id caller = on_cond s id (λ c.
    if Mutex.bad_handle c.mutex_id
    then (esrch, s)
    else begin_on s c.mutex_id caller (get_elem? s.mutexes (c.mutex_id - 1)))

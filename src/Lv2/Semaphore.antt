-- ===== src/Lv2/Semaphore.antt =====
-- runtime/syscalls/sys_semaphore.c: the slots, and what each call does to one under a lock.
--
-- This is the Windows build, whose host semaphore is a wake channel only: the count of the slot is
-- `value`. A call other than create and destroy first takes a reference to its slot under the table lock, works
-- on the slot under the slot's own lock, and gives the reference back under the table lock;
-- `Semaphore.Threads` interleaves these parts. `wait` is cut wherever it gives the slot's lock back:
-- before its sleep, and after it has counted itself out of the waiters. The 32-bit fields hold their
-- bit patterns.
pub mod Threads
pub mod Pinning
pub mod Bounds
mod Tests
use yakuza_dead_souls_ex.Prelude.{
  ℕ, ◌+◌, ◌-◌, ◌*◌, ◌/◌, ◌%◌, ◌^◌, Bool, true, false, not, ◌&&◌, ◌||◌, Option, none, some, List,
}
use yakuza_dead_souls_ex.Prelude.Tests.{◌==◌, ltb, leb, if◌then◌else◌}
use yakuza_dead_souls_ex.Prelude.Lists.{get_elem?, set, find_index}
use yakuza_dead_souls_ex.Guest.{
  Status, ok, eagain, einval, esrch, ebusy, etimedout, Memory, u32, write_out,
}

-- `sys_semaphore_info`; the host's primitives keep no number.
pub record SemInfo : Type 0 where
  pub active : Bool
  pub references : ℕ
  pub value : ℕ
  pub max_value : ℕ
  pub waiters : ℕ

pub record State : Type 0 where
  pub sems : List SemInfo
  pub mem : Memory

abbrev pub sem_max : ℕ
sem_max = 256

abbrev pub bad_handle : ℕ → Bool
bad_handle id = (id == 0) || ltb sem_max id

-- `> 0` of an `int32_t`
abbrev pub positive : ℕ → Bool
positive n = ltb 0 n && ltb n (2 ^ 31)

-- `sem_ref_acquire`, from the slot it looks at: `none` for a null pointer.
unfoldable pub acquire : List SemInfo → ℕ → Option SemInfo → Option (List SemInfo)
acquire sems id none = none
acquire sems id (some s) =
    if not s.active
    then none
    else some (set sems (id - 1) (record s { references = u32 (s.references + 1) }))

unfoldable pub sem_ref_acquire : List SemInfo → ℕ → Option (List SemInfo)
sem_ref_acquire sems id = if bad_handle id then none else acquire sems id (get_elem? sems (id - 1))

-- `sem_ref_release`
unfoldable pub sem_ref_release : SemInfo → SemInfo
sem_ref_release s = if s.references == 0 then s else record s { references = s.references - 1 }

abbrev pub free_sem : SemInfo → Bool
free_sem s = not s.active

abbrev pub fresh_sem : ℕ → ℕ → SemInfo
fresh_sem initial max_val = record {
  active = true;
  references = 0;
  value = initial;
  max_value = max_val;
  waiters = 0;
}

-- `created` is the host's answer to CreateSemaphore: without its semaphore the slot is given up.
unfoldable pub put_sem : Bool → State → ℕ → ℕ → ℕ → Option ℕ → Status × State
put_sem created s id_out_addr initial max_val none = (eagain, s)
put_sem created s id_out_addr initial max_val (some slot) =
    if not created
    then (
      eagain,
      record s { sems = set s.sems slot (record (fresh_sem initial max_val) { active = false }) },
    )
    else (
      ok,
      record s {
        sems = set s.sems slot (fresh_sem initial max_val);
        mem = write_out s.mem id_out_addr (slot + 1);
      },
    )

unfoldable pub sys_semaphore_create : Bool → State → ℕ → ℕ → ℕ → Status × State
sys_semaphore_create created s id_out_addr initial max_val =
    if not (positive max_val) || leb (2 ^ 31) initial || ltb max_val initial
    then (einval, s)
    else put_sem created s id_out_addr initial max_val (find_index free_sem s.sems)

unfoldable pub destroy_sem : State → ℕ → Option SemInfo → Status × State
destroy_sem s id none = (esrch, s)
destroy_sem s id (some q) =
    if not q.active
    then (esrch, s)
    else if not (q.references == 0) || not (q.waiters == 0)
    then (ebusy, s)
    else (ok, record s { sems = set s.sems (id - 1) (record q { active = false }) })

unfoldable pub sys_semaphore_destroy : State → ℕ → Status × State
sys_semaphore_destroy s id =
    if bad_handle id then (esrch, s) else destroy_sem s id (get_elem? s.sems (id - 1))

-- What a call does under the slot's lock either ends it or puts it to sleep.
pub data Outcome : Type 0 where
  finished : Status → Outcome
  sleeps : Outcome

-- The head of the loop of `sys_semaphore_wait`: a token that is there is taken, whether or not the
-- deadline has passed; else a wait whose deadline has passed ends, or the caller is counted in.
unfoldable pub wait_look : Bool → SemInfo → Outcome × SemInfo
wait_look expired s =
    if positive s.value
    then (finished ok, record s { value = s.value - 1 })
    else if expired
    then (finished etimedout, s)
    else (sleeps, record s { waiters = u32 (s.waiters + 1) })

-- What a thread does under the lock when its sleep is over, before the loop looks again.
unfoldable pub leave : SemInfo → SemInfo
leave s = if positive s.waiters then record s { waiters = s.waiters - 1 } else s

unfoldable pub trywait_body : SemInfo → Outcome × SemInfo
trywait_body s =
    if not (positive s.value)
    then (finished ebusy, s)
    else (finished ok, record s { value = s.value - 1 })

-- An `int32_t` moved up by 2^31, which keeps the order.
abbrev pub biased : ℕ → ℕ
biased n = u32 (n + 2 ^ 31)

-- `wake` of the tokens go to the threads that wait already; the sums are taken in 64 bits.
abbrev pub wake_count : ℕ → ℕ → ℕ
wake_count count waiters = if ltb (biased count) (biased waiters) then count else waiters

unfoldable pub post_body : ℕ → SemInfo → Outcome × SemInfo
post_body count s =
    if ltb (biased s.max_value + biased (wake_count count s.waiters))
      (biased s.value + biased count)
    then (finished ebusy, s)
    else (finished ok, record s { value = u32 (s.value + count) })

-- The calls that hold a reference. `get_value` only reads.
pub data Job : Type 0 where
  wait : (timed : Bool) → Job
  trywait : Job
  post : (count : ℕ) → Job
  get_value : (out_addr : ℕ) → Job

-- `expired` is whether the deadline of a timed wait has passed.
unfoldable pub body : Bool → Job → SemInfo → Outcome × SemInfo
body expired (wait timed) s = wait_look (timed && expired) s
body expired trywait s = trywait_body s
body expired (post count) s = post_body count s
body expired (get_value out_addr) s = (finished ok, s)

-- `sys_semaphore_get_value` writes the value out before it gives its reference back.
unfoldable pub body_mem : Job → SemInfo → Memory → Memory
body_mem (wait timed) s m = m
body_mem trywait s m = m
body_mem (post count) s m = m
body_mem (get_value out_addr) s m = write_out m out_addr s.value

-- `sys_semaphore_post` refuses a count that is not positive before it looks for the slot.
unfoldable pub admitted : Job → Bool
admitted (wait timed) = true
admitted trywait = true
admitted (post count) = positive count
admitted (get_value out_addr) = true

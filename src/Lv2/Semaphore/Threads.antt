-- ===== src/Lv2/Semaphore/Threads.antt =====
-- runtime/syscalls/sys_semaphore.c: guest threads inside the semaphore calls, each call in its parts.
-- A sleep may end at any time, with or without a token for it.
use yakuza_dead_souls_ex.Prelude.{ℕ, ◌-◌, ◌≡◌, Bool, true, false, ◌&&◌, some, List}
use yakuza_dead_souls_ex.Prelude.Lists.{get_elem?, set}
use yakuza_dead_souls_ex.Guest.{Status, Memory}
use yakuza_dead_souls_ex.Lv2.Semaphore.{
  SemInfo, State, Job, wait, Outcome, finished, sleeps, sem_ref_acquire, sem_ref_release,
  sys_semaphore_create, sys_semaphore_destroy, wait_look, leave, body, body_mem, admitted,
}

-- Where a thread is: outside, inside with a reference to a slot, asleep in `wait`, awake and about to
-- look again, or about to give the reference back.
pub data Pc : Type 0 where
  idle : Pc
  entered : (slot : ℕ) → Job → Pc
  parked : (slot : ℕ) → (timed : Bool) → Pc
  woken : (slot : ℕ) → (timed : Bool) → Pc
  leaving : (slot : ℕ) → Status → Pc

pub record Machine : Type 0 where
  pub state : State
  pub threads : List Pc

-- Where a thread goes when its work under the slot's lock is done.
unfoldable pub after : ℕ → Bool → Outcome → Pc
after slot timed (finished status) = leaving slot status
after slot timed sleeps = parked slot timed

abbrev pub is_timed : Job → Bool
is_timed (wait timed) = timed
is_timed _ = false

abbrev pub place : Machine → ℕ → Pc → ℕ → SemInfo → Memory → Machine
place m t pc slot s mem = record {
  state = record { sems = set m.state.sems slot s; mem = mem };
  threads = set m.threads t pc;
}

pub data Step (m : Machine) : Machine → Type 0 where
  create :
      (t : ℕ) (created : Bool) (id_out_addr initial max_val : ℕ)
      → get_elem? m.threads t ≡ some idle
      → Step m (record m {
        state = (sys_semaphore_create created m.state id_out_addr initial max_val).1;
      })
  destroy :
      (t id : ℕ)
      → get_elem? m.threads t ≡ some idle
      → Step m (record m { state = (sys_semaphore_destroy m.state id).1 })
  enter :
      (t id : ℕ) (job : Job) (sems : List SemInfo)
      → get_elem? m.threads t ≡ some idle
      → admitted job ≡ true
      → sem_ref_acquire m.state.sems id ≡ some sems
      → Step m (record {
        state = record { sems = sems; mem = m.state.mem };
        threads = set m.threads t (entered (id - 1) job);
      })
  work :
      (t slot : ℕ) (expired : Bool) (job : Job) (s : SemInfo)
      → get_elem? m.threads t ≡ some (entered slot job)
      → get_elem? m.state.sems slot ≡ some s
      → Step m (
          place m t
            (after slot (is_timed job) (body expired job s).0)
            slot
            (body expired job s).1
            (body_mem job s m.state.mem))
  wake :
      (t slot : ℕ) (timed : Bool) (s : SemInfo)
      → get_elem? m.threads t ≡ some (parked slot timed)
      → get_elem? m.state.sems slot ≡ some s
      → Step m (place m t (woken slot timed) slot (leave s) m.state.mem)
  look :
      (t slot : ℕ) (expired timed : Bool) (s : SemInfo)
      → get_elem? m.threads t ≡ some (woken slot timed)
      → get_elem? m.state.sems slot ≡ some s
      → Step m (
          place m t
            (after slot timed (wait_look (timed && expired) s).0)
            slot
            (wait_look (timed && expired) s).1
            m.state.mem)
  release :
      (t slot : ℕ) (status : Status) (s : SemInfo)
      → get_elem? m.threads t ≡ some (leaving slot status)
      → get_elem? m.state.sems slot ≡ some s
      → Step m (place m t idle slot (sem_ref_release s) m.state.mem)

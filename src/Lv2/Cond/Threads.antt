-- ===== src/Lv2/Cond/Threads.antt =====
-- runtime/syscalls/sys_cond.c: threads that wait on one condition variable and signal it, while others
-- destroy it. The slot is not created again in such a run.
use yakuza_dead_souls_ex.Prelude.{ℕ, suc, ◌≡◌, ◌≢◌, Bool, true, false, some, List, [], ◌∷◌}
use yakuza_dead_souls_ex.Prelude.Lists.{get_elem?, set, replicate}
use yakuza_dead_souls_ex.Guest.{ok}
use yakuza_dead_souls_ex.Lv2.Mutex.{MutexInfo}
use yakuza_dead_souls_ex.Lv2.Cond.{
  State, CondInfo, fresh_cond, destroy_cond, wait_claim, commit, wait_end, wait_restore, signal,
  signal_all, signal_to,
}
use yakuza_dead_souls_ex.Lv2.Cond.Contract.{
  Act, wait_joins, wait_served, wait_expires, one_signalled, all_signalled, unobserved,
}

-- Where a thread stands: outside, past the tests of the wait, between its commitment and the end of the
-- wait, or on the way to the mutex again.
pub data Pc : Type 0 where
  outside : Pc
  claiming : (saved_count : ℕ) → Pc
  parked : (saved_count : ℕ) → Pc
  returning : (saved_count : ℕ) (served : Bool) → Pc

pub record Machine : Type 0 where
  pub cond : CondInfo
  pub mutex : MutexInfo
  pub threads : List Pc

-- Threads are numbered from 1, as their identifiers are. A parked thread may look at any time; it
-- gives up only when it sees no signal. In the steps of the mutex any owner may come and go. The tests
-- of the slot's `active` in the wait and in the signal calls are under no lock: a thread may commit
-- itself, and a signal may arrive, after the destruction.
pub data Step (s : Machine) : Act → Machine → Type 0 where
  claim :
      (t : ℕ) {saved : ℕ} {m : MutexInfo}
      → get_elem? s.threads t ≡ some outside
      → s.cond.active ≡ true
      → s.mutex.active ≡ true
      → wait_claim s.mutex (suc t) ≡ some (saved, m)
      → Step s unobserved (record s { mutex = m; threads = set s.threads t (claiming saved) })
  park :
      (t : ℕ) {saved : ℕ}
      → get_elem? s.threads t ≡ some (claiming saved)
      → Step s wait_joins
          (record s { cond = commit s.cond (suc t); threads = set s.threads t (parked saved) })
  serve :
      (t : ℕ) {saved : ℕ}
      → get_elem? s.threads t ≡ some (parked saved)
      → s.cond.pending ≢ 0
      → Step s wait_served (record s {
        cond = wait_end s.cond (suc t) true;
        threads = set s.threads t (returning saved true);
      })
  time_out :
      (t : ℕ) {saved : ℕ}
      → get_elem? s.threads t ≡ some (parked saved)
      → s.cond.pending ≡ 0
      → Step s wait_expires (record s {
        cond = wait_end s.cond (suc t) false;
        threads = set s.threads t (returning saved false);
      })
  return_to :
      (t : ℕ) {saved : ℕ} {served : Bool}
      → get_elem? s.threads t ≡ some (returning saved served)
      → Step s unobserved (record s {
        mutex = wait_restore s.mutex (suc t) saved;
        threads = set s.threads t outside;
      })
  send : Step s one_signalled (record s { cond = signal s.cond })
  send_all : Step s all_signalled (record s { cond = signal_all s.cond })
  send_to :
      (target_tid : ℕ) {c : CondInfo}
      → signal_to s.cond target_tid ≡ some c
      → Step s one_signalled (record s { cond = c })
  destroy :
      (st st' : State) (slot : ℕ) {c : CondInfo}
      → destroy_cond st slot (some s.cond) ≡ (ok, st')
      → get_elem? st'.conds slot ≡ some c
      → Step s unobserved (record s { cond = c })
  lock_or_unlock : (m : MutexInfo) → Step s unobserved (record s { mutex = m })

-- `sys_cond_create` has just returned.
abbrev pub created : ℕ → MutexInfo → ℕ → Machine
created mutex_id m n = record {
  cond = fresh_cond mutex_id;
  mutex = m;
  threads = replicate n outside;
}

-- The runs of `n` threads, with what was observed of them, the last act first.
pub data Reach (mutex_id n : ℕ) : List Act → Machine → Type 0 where
  start : (m : MutexInfo) → Reach mutex_id n [] (created mutex_id m n)
  after :
      {acts : List Act} {act : Act} {s t : Machine}
      → Reach mutex_id n acts s
      → Step s act t
      → Reach mutex_id n (act ∷ acts) t

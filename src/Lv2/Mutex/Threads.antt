-- ===== src/Lv2/Mutex/Threads.antt =====
-- runtime/syscalls/sys_mutex.c: threads that lock and unlock one mutex, from its creation on. A step
-- is a test of the slot, an entry of the host lock or the work after it, so that another thread may
-- act between them. While any of them runs, the mutex is not destroyed.
use yakuza_dead_souls_ex.Prelude.{ℕ, suc, ◌≡◌, ◌≢◌, Bool, true, false, none, some}
use yakuza_dead_souls_ex.Prelude.Tests.{◌==◌, if◌then◌else◌}
use yakuza_dead_souls_ex.Lv2.Mutex.{
  HostLock, MutexInfo, fresh_mutex, relocks, reenters, taken, retaken, given,
}

-- Where a thread stands.
pub data Pc : Type 0 where
  idle : Pc  -- outside, or returned
  entering : Pc  -- in lock, before the host lock
  attempting : Pc  -- in trylock, before the host lock
  reentering : Pc  -- in trylock by the owner of a recursive mutex, before the host lock
  entered : Pc  -- inside the host lock, before the slot is written
  reentered : Pc  -- the same after `reentering`
  leaving : Pc  -- in unlock, the slot is written

module _ (H : HostLock) where
  pub record System : Type 0 where
    pub info : MutexInfo
    pub host : H.State
    pub pc : ℕ → Pc

  -- `Move t m h p m' h' p'`: one part of a call by thread `t`.
  pub data Move (t : ℕ) (m : MutexInfo) (h : H.State) : Pc → MutexInfo → H.State → Pc → Type 0 where
    lock_deadlock : relocks m t ≡ true → Move t m h idle m h idle
    lock_call : relocks m t ≡ false → Move t m h idle m h entering
    lock_enter : {h' : H.State} → H.try_enter h t ≡ some h' → Move t m h entering m h' entered
    lock_time_out : H.try_enter h t ≡ none → Move t m h entering m h idle
    lock_done : Move t m h entered (taken m t) h idle
    trylock_deadlock : relocks m t ≡ true → Move t m h idle m h idle
    trylock_reenter : relocks m t ≡ false → reenters m t ≡ true → Move t m h idle m h reentering
    trylock_call : relocks m t ≡ false → reenters m t ≡ false → Move t m h idle m h attempting
    trylock_enter : {h' : H.State} → H.try_enter h t ≡ some h' → Move t m h attempting m h' entered
    trylock_busy : H.try_enter h t ≡ none → Move t m h attempting m h idle
    reenter : {h' : H.State} → H.try_enter h t ≡ some h' → Move t m h reentering m h' reentered
    reenter_done : Move t m h reentered (retaken m) h idle
    unlock_refused : given m t ≡ none → Move t m h idle m h idle
    unlock_call : {m' : MutexInfo} → given m t ≡ some m' → Move t m h idle m' h leaving
    unlock_leave : Move t m h leaving m (H.leave h t) idle

  abbrev pub move_to : (ℕ → Pc) → ℕ → Pc → ℕ → Pc
  move_to pc i p j = if j == i then p else pc j

  pub data Step (s : System) (t : ℕ) : System → Type 0 where
    act :
        {m : MutexInfo} {h : H.State} {p : Pc}
        → t ≢ 0
        → Move t s.info s.host (s.pc t) m h p
        → Step s t (record { info = m; host = h; pc = move_to s.pc t p })

  -- The states after `n` steps.
  pub data Reach (recursive : Bool) : ℕ → System → Type 0 where
    start :
        Reach recursive 0 (record { info = fresh_mutex recursive; host = H.fresh; pc = λ _. idle })
    after :
        {n t : ℕ} {s s' : System} → Reach recursive n s → Step s t s' → Reach recursive (suc n) s'

-- ===== src/Lv2/Semaphore/Pinning/Safety.antt =====
-- runtime/syscalls/sys_semaphore.c: no slot is destroyed or recycled under a thread that is inside a
-- call on it, whatever the threads do and in whatever order.
use yakuza_dead_souls_ex.Prelude.{
  ℕ, ◌+◌, ◌-◌, ◌<◌, ◌≡◌, refl, sym, ◌∙◌, ◌≢◌, inl, inr, ◌↔◌, Bool, true, false, ◌&&◌, some, arith,
}
use yakuza_dead_souls_ex.Prelude.Tests.{◌==◌, Bool-cases}
use yakuza_dead_souls_ex.Prelude.Lists.{get_elem?, le-total}
use yakuza_dead_souls_ex.Guest.{ok, ebusy}
use yakuza_dead_souls_ex.Lv2.Semaphore.{
  SemInfo, State, Job, sem_max, bad_handle, destroy_sem, sys_semaphore_destroy, body, wait_look,
}
use yakuza_dead_souls_ex.Lv2.Semaphore.Threads.{
  Pc, entered, woken, Machine, is_timed, Step, create, destroy, enter, work, wake, look, release,
}
use yakuza_dead_souls_ex.Lv2.Semaphore.Pinning.{pins, pinned, parked-le-pinned, IsCounted, IsValid}
use yakuza_dead_souls_ex.Lv2.Semaphore.Pinning.Steps.{
  SlotOf, body-Works, wait_look-Works, pinned-active, waiters_small, Works-IsValid, leave-IsValid,
}
use yakuza_dead_souls_ex.Lv2.Semaphore.Pinning.Lifetime.{
  sem_ref_acquire-Acquired, enter-IsValid, release-IsValid, create-IsValid, destroy-IsValid,
}

entered-SlotOf : (slot : ℕ) (job : Job) → SlotOf slot (entered slot job)
entered-SlotOf slot job = (ground arith, λ other ne. ground arith)

woken-SlotOf : (slot : ℕ) (timed : Bool) → SlotOf slot (woken slot timed)
woken-SlotOf slot timed = (ground arith, λ other ne. ground arith)

-- Every part of every call keeps the slots' bookkeeping.
pub Step-IsValid : (m m' : Machine) → Step m m' → IsValid m → IsValid m'
Step-IsValid m _ (create t created out initial max_val et) v =
    create-IsValid m created out initial max_val v
Step-IsValid m _ (destroy t id et) v = destroy-IsValid m id v
Step-IsValid m _ (enter t id job sems et ok_job h) v =
    enter-IsValid m t id job sems v et (sem_ref_acquire-Acquired m.state.sems sems id h)
Step-IsValid m _ (work t slot expired job s et es) v =
    Works-IsValid m v slot s es t (entered slot job) (is_timed job) (body expired job s) 0 _ et
      (entered-SlotOf slot job) refl
      (body-Works expired job s (omega (arith, waiters_small m v slot s es)))
Step-IsValid m _ (wake t slot timed s et es) v = leave-IsValid m v slot s es t timed et
Step-IsValid m _ (look t slot expired timed s et es) v =
    Works-IsValid m v slot s es t (woken slot timed) timed (wait_look (timed && expired) s) 0 _ et
      (woken-SlotOf slot timed) refl
      (wait_look-Works (timed && expired) s (omega (arith, waiters_small m v slot s es)))
Step-IsValid m _ (release t slot status s et es) v = release-IsValid m t slot status s v et es

-- What the calls of any number of threads can lead to.
pub data Reach (m : Machine) : Machine → Type 0 where
  start : Reach m m
  step : {m' m'' : Machine} → Reach m m' → Step m' m'' → Reach m m''

pub Reach-IsValid : (m m' : Machine) → Reach m m' → IsValid m → IsValid m'
Reach-IsValid m m' start v = v
Reach-IsValid m m' (step {m' = k} r st) v = Step-IsValid k m' st (Reach-IsValid m k r v)

-- What destruction does to an active slot.
destroy_busy :
    (st : State) (slot : ℕ) (s : SemInfo)
    → get_elem? st.sems slot ≡ some s
    → slot < sem_max
    → s.active ≡ true
    → s.references ≢ 0
    → sys_semaphore_destroy st (slot + 1) ≡ (ebusy, st)
unfolding sys_semaphore_destroy destroy_sem
destroy_busy st slot s es lt on ne =
    let in_range : bad_handle (slot + 1) ≡ false = ground arith in
    let at : slot + 1 - 1 ≡ slot = omega arith in
    let used : (s.references == 0) ≡ false = ground arith in rw (in_range, at, es, on, used) refl

destroy_free :
    (st : State) (slot : ℕ) (s : SemInfo)
    → get_elem? st.sems slot ≡ some s
    → slot < sem_max
    → s.active ≡ true
    → s.references ≡ 0
    → s.waiters ≡ 0
    → (sys_semaphore_destroy st (slot + 1)).0 ≡ ok
unfolding sys_semaphore_destroy destroy_sem
destroy_free st slot s es lt on unused empty =
    let in_range : bad_handle (slot + 1) ≡ false = ground arith in
    let at : slot + 1 - 1 ≡ slot = omega arith in rw (in_range, at, es, on, unused, empty) refl

-- However the threads interleave, a thread inside a call pins its slot: the slot is active, and
-- `sys_semaphore_destroy` of its handle returns CELL_EBUSY and changes nothing, so the slot cannot be
-- recycled before the thread has given its reference back. The start satisfies the bookkeeping of the
-- slots, and there are fewer than 2^31 threads.
pub destroy_pinned :
    (m m' : Machine) (t slot : ℕ) (pc : Pc) (s : SemInfo)
    → IsValid m
    → Reach m m'
    → get_elem? m'.threads t ≡ some pc
    → pins slot pc ≡ 1
    → get_elem? m'.state.sems slot ≡ some s
    → slot < sem_max
    → (s.active ≡ true) × (sys_semaphore_destroy m'.state (slot + 1) ≡ (ebusy, m'.state))
destroy_pinned m m' t slot pc s v r et one es lt =
    let c = (Reach-IsValid m m' r v).slots slot s es in
    let on = pinned-active m'.threads t slot pc s c et one in
    (
      on,
      destroy_busy m'.state slot s es lt on
          (omega (arith, c.references_are, le-total (pins slot) m'.threads t et, one)),
    )

-- However the threads interleave, `sys_semaphore_destroy` of an active slot succeeds exactly when no
-- thread is inside a call on it: no reference is ever lost or left behind.
pub destroy_iff :
    (m m' : Machine) (slot : ℕ) (s : SemInfo)
    → IsValid m
    → Reach m m'
    → get_elem? m'.state.sems slot ≡ some s
    → slot < sem_max
    → s.active ≡ true
    → ((sys_semaphore_destroy m'.state (slot + 1)).0 ≡ ok) ↔ (pinned m'.threads slot ≡ 0)
destroy_iff m m' slot s v r es lt on =
    let c = (Reach-IsValid m m' r v).slots slot s es in
    (
      (λ h. elim (Bool-cases (s.references == 0)) [
        | inl unused ↦ sym c.references_are ∙ ground arith
        | inr used ↦ absurd (refused c (ground arith) h)
      ]),
      λ none_in.
          destroy_free m'.state slot s es lt on (c.references_are ∙ none_in)
            (omega (arith, c.waiters_are, none_in, parked-le-pinned m'.threads slot)),
    )
  where
    refused :
        IsCounted m'.threads slot s
        → s.references ≢ 0
        → (sys_semaphore_destroy m'.state (slot + 1)).0 ≡ ok
        → ⊥
    refused c ne h = ground (arith, destroy_busy m'.state slot s es lt on ne)

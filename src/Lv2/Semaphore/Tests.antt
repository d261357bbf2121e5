-- ===== src/Lv2/Semaphore/Tests.antt =====
-- runtime/syscalls/sys_semaphore.c at concrete inputs: two threads and one semaphore with no token.
use yakuza_dead_souls_ex.Prelude.{
  ℕ, ◌+◌, ◌^◌, ◌≤◌, ◌<◌, ◌≡◌, refl, ◌↔◌, true, false, some, [], ◌∷◌, arith, zero, suc,
}
use yakuza_dead_souls_ex.Prelude.Lists.{get_elem?, length, total}
use yakuza_dead_souls_ex.Guest.{ok, ebusy}
use yakuza_dead_souls_ex.Lv2.Semaphore.{
  SemInfo, wait, acquire, sem_ref_acquire, sys_semaphore_destroy, wait_look, post, sem_ref_release,
  post_body, body, body_mem, admitted,
}
use yakuza_dead_souls_ex.Lv2.Semaphore.Threads.{
  Pc, idle, parked, Machine, after, enter, work, release,
}
use yakuza_dead_souls_ex.Lv2.Semaphore.Bounds.{waits, allowed, IsBounded}
use yakuza_dead_souls_ex.Lv2.Semaphore.Bounds.Runs.{value_bounded}
use yakuza_dead_souls_ex.Lv2.Semaphore.Pinning.{IsCounted, IsValid, pinned}
use yakuza_dead_souls_ex.Lv2.Semaphore.Pinning.Safety.{
  Reach, start, step, destroy_pinned, destroy_iff,
}

abbrev free_one : SemInfo
free_one = record { active = true; references = 0; value = 0; max_value = 1; waiters = 0 }

abbrev machine_of : SemInfo → Pc → Machine
machine_of s pc = record {
  state = record { sems = s ∷ []; mem = λ _. 0 };
  threads = pc ∷ idle ∷ [];
}

abbrev quiet : Machine
quiet = machine_of free_one idle

abbrev waiting : Machine
waiting = machine_of (record free_one { references = 1; waiters = 1 }) (parked 0 true)

quiet-slots :
    (slot : ℕ) (s : SemInfo)
    → get_elem? quiet.state.sems slot ≡ some s
    → IsCounted quiet.threads slot s
unfolding total
quiet-slots zero s e =
    let same : free_one ≡ s = cc in
    rw (← same) (record { references_are = refl; waiters_are = refl; idle_when_off = λ off. refl })
quiet-slots (suc slot) s e = ground arith

quiet-IsValid : IsValid quiet
quiet-IsValid = record { few = omega arith; slots = quiet-slots }

waiting-Reach : Reach quiet waiting
unfolding sem_ref_acquire acquire body wait_look after body_mem admitted
waiting-Reach =
    step
      (step start (enter 0 1 (wait true) (record free_one { references = 1 } ∷ []) refl refl refl))
      (work 0 0 false (wait true) (record free_one { references = 1 }) refl refl)

destroy_pinned_example :
    (true ≡ true) × (sys_semaphore_destroy waiting.state 1 ≡ (ebusy, waiting.state))
destroy_pinned_example =
    destroy_pinned quiet waiting 0 0 (parked 0 true)
      (record free_one { references = 1; waiters = 1 }) quiet-IsValid waiting-Reach refl refl refl
      (omega arith)

destroy_iff_example :
    ((sys_semaphore_destroy waiting.state 1).0 ≡ ok) ↔ (pinned waiting.threads 0 ≡ 0)
destroy_iff_example =
    destroy_iff quiet waiting 0 (record free_one { references = 1; waiters = 1 }) quiet-IsValid
      waiting-Reach refl (omega arith) refl

quiet-jobs : (t : ℕ) (pc : Pc) → get_elem? quiet.threads t ≡ some pc → allowed pc ≡ true
quiet-jobs zero pc e = let same : idle ≡ pc = cc in rw (← same) refl
quiet-jobs (suc zero) pc e = let same : idle ≡ pc = cc in rw (← same) refl
quiet-jobs (suc (suc t)) pc e = ground arith

quiet-bound :
    (slot : ℕ) (s : SemInfo)
    → get_elem? quiet.state.sems slot ≡ some s
    → s.max_value + length quiet.threads < 2 ^ 31
    → s.value ≤ s.max_value + total (waits slot) quiet.threads
quiet-bound zero s e small = let same : free_one ≡ s = cc in rw (← same) (omega arith)
quiet-bound (suc slot) s e small = ground arith

quiet-IsBounded : IsBounded quiet
quiet-IsBounded = record { valid = quiet-IsValid; jobs = quiet-jobs; bound = quiet-bound }

-- Thread 0 sleeps, and thread 1 posts one token twice: the one sleeper is credited both times, and the
-- value passes the maximum.
abbrev sem_with : ℕ → ℕ → SemInfo
sem_with references value = record free_one { references = references; value = value; waiters = 1 }

abbrev doubly_posted : Machine
doubly_posted = machine_of (sem_with 1 2) (parked 0 true)

doubly_posted-Reach : Reach quiet doubly_posted
unfolding sem_ref_acquire sem_ref_release acquire body post_body after body_mem admitted
doubly_posted-Reach =
    step
      (step
        (step
          (step
            (step (step waiting-Reach (enter 1 1 (post 1) (sem_with 2 0 ∷ []) refl refl refl))
              (work 1 0 false (post 1) (sem_with 2 0) refl refl))
            (release 1 0 ok (sem_with 2 1) refl refl))
          (enter 1 1 (post 1) (sem_with 2 1 ∷ []) refl refl refl))
        (work 1 0 false (post 1) (sem_with 2 1) refl refl))
      (release 1 0 ok (sem_with 2 2) refl refl)

value_bounded_example : 2 ≤ 1 + total (waits 0) doubly_posted.threads
value_bounded_example =
    value_bounded quiet doubly_posted 0 (sem_with 1 2) quiet-IsBounded doubly_posted-Reach refl
      (omega arith)

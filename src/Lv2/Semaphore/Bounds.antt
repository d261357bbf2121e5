-- ===== src/Lv2/Semaphore/Bounds.antt =====
-- runtime/syscalls/sys_semaphore.c: how far the count of a semaphore can pass its maximum.
--
-- A post credits the waiters that are counted in, and the same waiter may be credited by several posts
-- before it looks again. The excess is bounded by the threads that are inside a sleep or have just left
-- one.
pub mod Runs
use yakuza_dead_souls_ex.Prelude.{
  ℕ, ◌+◌, ◌-◌, ◌^◌, ◌≤◌, ◌<◌, ◌≡◌, refl, sym, ◌∙◌, ap, ◌≢◌, ◌⊎◌, inl, inr, Bool, true, false, not,
  ◌&&◌, ◌||◌, Option, none, some, List, arith,
}
use yakuza_dead_souls_ex.Prelude.Tests.{◌==◌, ltb, leb, Bool-cases}
use yakuza_dead_souls_ex.Prelude.Lists.{
  length, get_elem?, set, find_index, total, total-set, le-total, total_mono, total-le-length,
  length-set, get_elem?-set_cases,
}
use yakuza_dead_souls_ex.Guest.{Status, Memory, u32}
use yakuza_dead_souls_ex.Lv2.Semaphore.{
  SemInfo, State, Job, wait, trywait, post, get_value, Outcome, finished, sleeps, positive,
  admitted, fresh_sem, free_sem, put_sem, sys_semaphore_create, destroy_sem, sys_semaphore_destroy,
  sem_ref_release, wait_look, leave, trywait_body, post_body, body,
}
use yakuza_dead_souls_ex.Lv2.Semaphore.Threads.{
  Pc, idle, entered, parked, woken, leaving, Machine, place, after, is_timed, Step, create, destroy,
  enter, work, wake, look, release,
}
use yakuza_dead_souls_ex.Lv2.Semaphore.Pinning.{count_if, parks, IsValid}
use yakuza_dead_souls_ex.Lv2.Semaphore.Pinning.Lifetime.{sem_ref_acquire-Acquired}
use yakuza_dead_souls_ex.Lv2.Semaphore.Pinning.Safety.{Step-IsValid, Reach, start, step}

-- Whether a thread sleeps at the slot, or has woken and not looked yet.
abbrev pub waits : ℕ → Pc → ℕ
waits slot idle = 0
waits slot (entered k job) = 0
waits slot (parked k timed) = count_if (k == slot)
waits slot (woken k timed) = count_if (k == slot)
waits slot (leaving k status) = 0

abbrev pub waiting : List Pc → ℕ → ℕ
waiting threads slot = total (waits slot) threads

waits-le : (slot : ℕ) (pc : Pc) → waits slot pc ≤ 1
waits-le slot idle = omega arith
waits-le slot (entered k job) = omega arith
waits-le slot (parked k timed) = ground arith
waits-le slot (woken k timed) = ground arith
waits-le slot (leaving k status) = omega arith

parks-le-waits : (slot : ℕ) (pc : Pc) → parks slot pc ≤ waits slot pc
parks-le-waits slot idle = omega arith
parks-le-waits slot (entered k job) = omega arith
parks-le-waits slot (parked k timed) = omega arith
parks-le-waits slot (woken k timed) = ground arith
parks-le-waits slot (leaving k status) = omega arith

-- Whether the arguments of the thread's call have passed their test.
abbrev pub allowed : Pc → Bool
allowed (entered k job) = admitted job
allowed _ = true

pub record IsBounded (m : Machine) : Type 0 where
  pub valid : IsValid m
  pub jobs : (t : ℕ) (pc : Pc) → get_elem? m.threads t ≡ some pc → allowed pc ≡ true
  pub bound :
      (slot : ℕ) (s : SemInfo)
      → get_elem? m.state.sems slot ≡ some s
      → s.max_value + length m.threads < 2 ^ 31
      → s.value ≤ s.max_value + waiting m.threads slot

-- One thread's move at one slot, with the value that it leaves.
pub record Keeps (slot : ℕ) (pc pc' : Pc) (s s' : SemInfo) : Type 0 where
  pub same_max : s'.max_value ≡ s.max_value
  pub kept :
      (w : ℕ)
      → s.waiters ≤ w
      → waits slot pc ≤ w
      → s.max_value + w < 2 ^ 31
      → s.value ≤ s.max_value + w
      → s'.value + waits slot pc ≤ s.max_value + w + waits slot pc'
  pub elsewhere : (k : ℕ) → k ≢ slot → waits k pc ≡ waits k pc'
  pub allows : allowed pc' ≡ true

-- A move in the machine: what the invariant keeps besides the bookkeeping.
pub Keeps-bound :
    (m : Machine) (t slot : ℕ) (pc pc' : Pc) (s s' : SemInfo)
    → IsBounded m
    → get_elem? m.threads t ≡ some pc
    → get_elem? m.state.sems slot ≡ some s
    → Keeps slot pc pc' s s'
    → (k : ℕ) (q : SemInfo) → get_elem? (set m.state.sems slot s') k ≡ some q
    → q.max_value + length (set m.threads t pc') < 2 ^ 31
    → q.value ≤ q.max_value + waiting (set m.threads t pc') k
Keeps-bound m t slot pc pc' s s' v et es c k q eq small =
    elim (get_elem?-set_cases m.state.sems slot k s' eq) [
      | inl (at, same) ↦ here at same
      | inr (ne, old) ↦ omega (
        arith,
        v.bound k q old (omega (arith, small, length-set m.threads t pc')),
        total-set (waits k) m.threads t pc' et,
        c.elsewhere k (λ same. ne (sym same)),
      )
    ]
  where
    here : slot ≡ k → q ≡ s' → q.value ≤ q.max_value + waiting (set m.threads t pc') k
    here at same =
        let fits : s.max_value + length m.threads < 2 ^ 31 =
          omega
            (arith, small, length-set m.threads t pc', ap (λ p. p.max_value) same, c.same_max) in
        let w = waiting m.threads slot in
        let parked_few : s.waiters ≤ w =
          rw ((v.valid.slots slot s es).waiters_are)
            (total_mono (parks slot) (waits slot) m.threads (parks-le-waits slot)) in
        let few = total-le-length (waits slot) m.threads (waits-le slot) in
        let now =
          c.kept w parked_few (le-total (waits slot) m.threads t et) (omega (arith, few, fits))
            (v.bound slot s es fits) in
        rw (← at, same) (omega (arith, now, total-set (waits slot) m.threads t pc' et, c.same_max))

pub Keeps-jobs :
    (m : Machine) (t : ℕ) (pc' : Pc)
    → IsBounded m
    → allowed pc' ≡ true
    → (k : ℕ) (pc : Pc) → get_elem? (set m.threads t pc') k ≡ some pc
    → allowed pc ≡ true
Keeps-jobs m t pc' v ok_pc k pc e = elim (get_elem?-set_cases m.threads t k pc' e) [
  | inl (_, same) ↦ rw same ok_pc
  | inr (_, old) ↦ v.jobs k pc old
]

after-waits :
    (slot : ℕ) (timed : Bool) (o : Outcome)
    → ((o ≡ sleeps) × (waits slot (after slot timed o) ≡ 1))
      ⊎ ((o ≢ sleeps) × (waits slot (after slot timed o) ≡ 0))
unfolding after
after-waits slot timed (finished status) = inr (λ e. ground arith, refl)
after-waits slot timed sleeps = inl (refl, ground arith)

after-elsewhere :
    (slot k : ℕ) (timed : Bool) (o : Outcome) → k ≢ slot → waits k (after slot timed o) ≡ 0
unfolding after
after-elsewhere slot k timed (finished status) ne = refl
after-elsewhere slot k timed sleeps ne = ground arith

after-allowed : (slot : ℕ) (timed : Bool) (o : Outcome) → allowed (after slot timed o) ≡ true
unfolding after
after-allowed slot timed (finished status) = refl
after-allowed slot timed sleeps = refl

-- The parts of a call keep the bound.
pub wait_look-Keeps :
    (slot : ℕ) (timed expired : Bool) (pc : Pc) (s : SemInfo)
    → ((k : ℕ) → k ≢ slot → waits k pc ≡ 0)
    → Keeps slot pc (after slot timed (wait_look expired s).0) s (wait_look expired s).1
unfolding wait_look
wait_look-Keeps slot timed expired pc s off =
    let o = (wait_look expired s).0 in
    record {
      same_max = ground arith;
      kept = λ w few self fits le. ground (arith, after-waits slot timed o, waits-le slot pc);
      elsewhere = λ k ne. off k ne ∙ sym (after-elsewhere slot k timed o ne);
      allows = after-allowed slot timed o;
    }

pub body-Keeps :
    (slot : ℕ) (expired : Bool) (job : Job) (s : SemInfo)
    → admitted job ≡ true
    → Keeps slot
        (entered slot job)
        (after slot (is_timed job) (body expired job s).0)
        s
        (body expired job s).1
unfolding body after trywait_body post_body admitted
body-Keeps slot expired (wait timed) s ok_job =
    wait_look-Keeps slot timed (timed && expired) (entered slot (wait timed)) s (λ k ne. refl)
body-Keeps slot expired trywait s ok_job = record {
  same_max = ground arith;
  kept = λ w few self fits le. ground arith;
  elsewhere = λ k ne. ground arith;
  allows = ground arith;
}
body-Keeps slot expired (post count) s ok_job = record {
  same_max = ground arith;
  kept = λ w few self fits le. ground (arith, ok_job);
  elsewhere = λ k ne. ground arith;
  allows = ground arith;
}
body-Keeps slot expired (get_value out_addr) s ok_job = record {
  same_max = refl;
  kept = λ w few self fits le. omega arith;
  elsewhere = λ k ne. refl;
  allows = refl;
}

pub enter-Keeps :
    (slot : ℕ) (job : Job) (s : SemInfo)
    → admitted job ≡ true
    → Keeps slot idle (entered slot job) s (record s { references = u32 (s.references + 1) })
enter-Keeps slot job s ok_job = record {
  same_max = refl;
  kept = λ w few self fits le. omega arith;
  elsewhere = λ k ne. refl;
  allows = ok_job;
}

pub leave-Keeps :
    (slot : ℕ) (timed : Bool) (s : SemInfo)
    → Keeps slot (parked slot timed) (woken slot timed) s (leave s)
unfolding leave
leave-Keeps slot timed s = record {
  same_max = ground arith;
  kept = λ w few self fits le. ground arith;
  elsewhere = λ k ne. refl;
  allows = refl;
}

pub release-Keeps :
    (slot : ℕ) (status : Status) (s : SemInfo)
    → Keeps slot (leaving slot status) idle s (sem_ref_release s)
unfolding sem_ref_release
release-Keeps slot status s = record {
  same_max = ground arith;
  kept = λ w few self fits le. ground arith;
  elsewhere = λ k ne. refl;
  allows = refl;
}

-- ===== src/Lv2/Semaphore/Bounds/Runs.antt =====
-- runtime/syscalls/sys_semaphore.c: the bound on the count, over all interleavings of the calls.
use yakuza_dead_souls_ex.Prelude.{
  ℕ, ◌+◌, ◌-◌, ◌^◌, ◌≤◌, ◌<◌, ◌≡◌, refl, inl, inr, Bool, true, false, not, ◌&&◌, ◌||◌, Option, none,
  some, List, arith,
}
use yakuza_dead_souls_ex.Prelude.Tests.{ltb, leb, Bool-cases}
use yakuza_dead_souls_ex.Prelude.Lists.{length, get_elem?, set, find_index, get_elem?-set_cases}
use yakuza_dead_souls_ex.Guest.{Memory}
use yakuza_dead_souls_ex.Lv2.Semaphore.{
  SemInfo, positive, fresh_sem, free_sem, put_sem, sys_semaphore_create, destroy_sem,
  sys_semaphore_destroy,
}
use yakuza_dead_souls_ex.Lv2.Semaphore.Threads.{
  Pc, idle, entered, parked, woken, leaving, Machine, place, Step, create, destroy, enter, work,
  wake, look, release,
}
use yakuza_dead_souls_ex.Lv2.Semaphore.Pinning.{IsValid}
use yakuza_dead_souls_ex.Lv2.Semaphore.Pinning.Lifetime.{sem_ref_acquire-Acquired}
use yakuza_dead_souls_ex.Lv2.Semaphore.Pinning.Safety.{Step-IsValid, Reach, start, step}
use yakuza_dead_souls_ex.Lv2.Semaphore.Bounds.{
  waiting, IsBounded, Keeps, Keeps-bound, Keeps-jobs, wait_look-Keeps, body-Keeps, enter-Keeps,
  leave-Keeps, release-Keeps,
}

-- A write of one slot by a thread that stays outside.
abbrev BoundOf : Machine → List SemInfo → Type 0
BoundOf m sems =
    (slot : ℕ) (s : SemInfo)
    → get_elem? sems slot ≡ some s
    → s.max_value + length m.threads < 2 ^ 31
    → s.value ≤ s.max_value + waiting m.threads slot

write-BoundOf :
    (m : Machine) (slot : ℕ) (s' : SemInfo)
    → IsBounded m
    → (s'.max_value + length m.threads < 2 ^ 31 → s'.value ≤ s'.max_value + waiting m.threads slot)
    → BoundOf m (set m.state.sems slot s')
write-BoundOf m slot s' v low k q eq small = elim (get_elem?-set_cases m.state.sems slot k s' eq) [
  | inl (at, same) ↦ rw (← at, same) (low (rw (← same) small))
  | inr (ne, old) ↦ v.bound k q old small
]

put_sem-BoundOf :
    (m : Machine) (created : Bool) (out initial max_val : ℕ) (o : Option ℕ)
    → IsBounded m
    → initial ≤ max_val
    → BoundOf m (put_sem created m.state out initial max_val o).1.sems
unfolding put_sem
put_sem-BoundOf m created out initial max_val none v le = v.bound
put_sem-BoundOf m true out initial max_val (some slot) v le =
    write-BoundOf m slot (fresh_sem initial max_val) v (λ small. omega (arith, le))
put_sem-BoundOf m false out initial max_val (some slot) v le =
    write-BoundOf m slot (record (fresh_sem initial max_val) { active = false }) v
      (λ small. omega (arith, le))

create-BoundOf :
    (m : Machine) (created : Bool) (out initial max_val : ℕ)
    → IsBounded m
    → BoundOf m (sys_semaphore_create created m.state out initial max_val).1.sems
unfolding sys_semaphore_create
create-BoundOf m created out initial max_val v =
    elim (Bool-cases (not (positive max_val) || leb (2 ^ 31) initial || ltb max_val initial)) [
      | inl bad ↦ rw bad v.bound
      | inr good ↦ rw good (
          put_sem-BoundOf m created out initial max_val (find_index free_sem m.state.sems) v
            (ground (arith, good)))
    ]

destroy_sem-BoundOf :
    (m : Machine) (id : ℕ) (o : Option SemInfo)
    → IsBounded m
    → get_elem? m.state.sems (id - 1) ≡ o
    → BoundOf m (destroy_sem m.state id o).1.sems
unfolding destroy_sem
destroy_sem-BoundOf m id none v e = v.bound
destroy_sem-BoundOf m id (some q) v e =
    ground (arith, write-BoundOf m (id - 1) (record q { active = false }) v (v.bound (id - 1) q e))

destroy-BoundOf :
    (m : Machine) (id : ℕ) → IsBounded m → BoundOf m (sys_semaphore_destroy m.state id).1.sems
unfolding sys_semaphore_destroy
destroy-BoundOf m id v =
    ground (arith, v.bound, destroy_sem-BoundOf m id (get_elem? m.state.sems (id - 1)) v refl)

Keeps-IsBounded :
    (m : Machine) (t slot : ℕ) (pc pc' : Pc) (s s' : SemInfo) (mem : Memory)
    → IsBounded m
    → get_elem? m.threads t ≡ some pc
    → get_elem? m.state.sems slot ≡ some s
    → IsValid (place m t pc' slot s' mem)
    → Keeps slot pc pc' s s'
    → IsBounded (place m t pc' slot s' mem)
Keeps-IsBounded m t slot pc pc' s s' mem v et es w c = record {
  valid = w;
  jobs = Keeps-jobs m t pc' v c.allows;
  bound = Keeps-bound m t slot pc pc' s s' v et es c;
}

Step-IsBounded : (m m' : Machine) → Step m m' → IsBounded m → IsBounded m'
Step-IsBounded m m' st v = go m' st (Step-IsValid m m' st v.valid)
  where
    go : (n : Machine) → Step m n → IsValid n → IsBounded n
    go _ (create t created out initial max_val et) w = record {
      valid = w;
      jobs = v.jobs;
      bound = create-BoundOf m created out initial max_val v;
    }
    go _ (destroy t id et) w = record { valid = w; jobs = v.jobs; bound = destroy-BoundOf m id v }
    go _ (enter t id job sems et ok_job h) w =
        let a = sem_ref_acquire-Acquired m.state.sems sems id h in
        record {
          valid = w;
          jobs = Keeps-jobs m t (entered (id - 1) job) v ok_job;
          bound = rw a.grown (
              Keeps-bound m t (id - 1) idle (entered (id - 1) job) a.s _ v et a.entry
                (enter-Keeps (id - 1) job a.s ok_job));
        }
    go _ (work t slot expired job s et es) w =
        Keeps-IsBounded m t slot (entered slot job) _ s _ _ v et es w
          (body-Keeps slot expired job s (v.jobs t (entered slot job) et))
    go _ (wake t slot timed s et es) w =
        Keeps-IsBounded m t slot (parked slot timed) _ s _ _ v et es w (leave-Keeps slot timed s)
    go _ (look t slot expired timed s et es) w =
        Keeps-IsBounded m t slot (woken slot timed) _ s _ _ v et es w (
          wait_look-Keeps slot timed (timed && expired) (woken slot timed) s (λ k ne. ground arith))
    go _ (release t slot status s et es) w =
        Keeps-IsBounded m t slot (leaving slot status) _ s _ _ v et es w
          (release-Keeps slot status s)

Reach-IsBounded : (m m' : Machine) → Reach m m' → IsBounded m → IsBounded m'
Reach-IsBounded m m' start v = v
Reach-IsBounded m m' (step {m' = k} r st) v = Step-IsBounded k m' st (Reach-IsBounded m k r v)

-- However the threads interleave, posts never raise a semaphore further than the sleepers allow: from
-- a start that satisfies the invariant, for a slot where the maximum and the number of threads add up
-- to less than 2^31, the value is at most the maximum plus the number of threads that sleep at the slot
-- or have just woken there, and so within the maximum where there are none.
pub value_bounded :
    (m m' : Machine) (slot : ℕ) (s : SemInfo)
    → IsBounded m
    → Reach m m'
    → get_elem? m'.state.sems slot ≡ some s
    → s.max_value + length m'.threads < 2 ^ 31
    → s.value ≤ s.max_value + waiting m'.threads slot
value_bounded m m' slot s v r es small = (Reach-IsBounded m m' r v).bound slot s es small

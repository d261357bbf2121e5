-- ===== src/Lv2/Semaphore/Pinning/Lifetime.antt =====
-- runtime/syscalls/sys_semaphore.c: creating, destroying, entering and leaving keep the slots' bookkeeping.
use yakuza_dead_souls_ex.Prelude.{
  ℕ, ◌+◌, ◌-◌, ◌<◌, ◌≡◌, refl, sym, ◌∙◌, ◌≢◌, ◌⊎◌, inl, inr, Bool, true, false, Option, none, some,
  List, arith,
}
use yakuza_dead_souls_ex.Prelude.Lists.{
  get_elem?, set, find_index, find_index-some, le-total, length-set, get_elem?-set_cases,
}
use yakuza_dead_souls_ex.Guest.{Status, u32, Memory}
use yakuza_dead_souls_ex.Lv2.Semaphore.{
  SemInfo, Job, acquire, sem_ref_acquire, sem_ref_release, free_sem, fresh_sem, put_sem,
  sys_semaphore_create, destroy_sem, sys_semaphore_destroy,
}
use yakuza_dead_souls_ex.Lv2.Semaphore.Threads.{idle, entered, leaving, Machine, place}
use yakuza_dead_souls_ex.Lv2.Semaphore.Pinning.{
  pins, parked-le-pinned, IsCounted, IsValid, Move, Move-slots,
}
use yakuza_dead_souls_ex.Lv2.Semaphore.Pinning.Steps.{pinned-active, references_small}

-- What `sem_ref_acquire` has found when it does not fail.
pub record Acquired (sems : List SemInfo) (id : ℕ) (sems' : List SemInfo) : Type 0 where
  pub s : SemInfo
  pub entry : get_elem? sems (id - 1) ≡ some s
  pub on : s.active ≡ true
  pub grown : sems' ≡ set sems (id - 1) (record s { references = u32 (s.references + 1) })

acquire-Acquired :
    (sems sems' : List SemInfo) (id : ℕ) (o : Option SemInfo)
    → get_elem? sems (id - 1) ≡ o
    → acquire sems id o ≡ some sems'
    → Acquired sems id sems'
unfolding acquire
acquire-Acquired sems sems' id none e h = ground arith
acquire-Acquired sems sems' id (some s) e h = record {
  s = s;
  entry = e;
  on = ground arith;
  grown = ground arith;
}

pub sem_ref_acquire-Acquired :
    (sems sems' : List SemInfo) (id : ℕ)
    → sem_ref_acquire sems id ≡ some sems'
    → Acquired sems id sems'
unfolding sem_ref_acquire
sem_ref_acquire-Acquired sems sems' id h =
    acquire-Acquired sems sems' id (get_elem? sems (id - 1)) refl (ground arith)

pub enter-IsValid :
    (m : Machine) (t id : ℕ) (job : Job) (sems : List SemInfo)
    → IsValid m
    → get_elem? m.threads t ≡ some idle
    → Acquired m.state.sems id sems
    → IsValid (record {
      state = record { sems = sems; mem = m.state.mem };
      threads = set m.threads t (entered (id - 1) job);
    })
enter-IsValid m t id job sems v et a = record {
  few = rw (length-set m.threads t (entered (id - 1) job)) v.few;
  slots = rw a.grown (
      Move-slots m.threads m.state.sems t (id - 1) idle (entered (id - 1) job) a.s _ v.slots et
        a.entry move);
}
  where
    move :
        Move
          (id - 1)
          idle
          (entered (id - 1) job)
          a.s
          (record a.s { references = u32 (a.s.references + 1) })
    move = record {
      referenced = ground (arith, references_small m v (id - 1) a.s a.entry);
      waited = omega arith;
      still_on = a.on;
      only_here = λ other ne. (refl, ground arith);
    }

pub release-IsValid :
    (m : Machine) (t slot : ℕ) (status : Status) (s : SemInfo)
    → IsValid m
    → get_elem? m.threads t ≡ some (leaving slot status)
    → get_elem? m.state.sems slot ≡ some s
    → IsValid (place m t idle slot (sem_ref_release s) m.state.mem)
unfolding sem_ref_release
release-IsValid m t slot status s v et es = record {
  few = rw (length-set m.threads t idle) v.few;
  slots =
      Move-slots m.threads m.state.sems t slot (leaving slot status) idle s _ v.slots et es move;
}
  where
    one : pins slot (leaving slot status) ≡ 1
    one = ground arith

    held : 0 < s.references
    held =
        omega (arith, (v.slots slot s es).references_are, le-total (pins slot) m.threads t et, one)

    move : Move slot (leaving slot status) idle s (sem_ref_release s)
    move = record {
      referenced = ground (arith, held, one);
      waited = ground arith;
      still_on = ground (
        arith,
        pinned-active m.threads t slot (leaving slot status) s (v.slots slot s es) et one,
      );
      only_here = λ other ne. (ground arith, refl);
    }

-- A slot's bookkeeping where the threads do not move.
write-IsValid :
    (m : Machine) (slot : ℕ) (s' : SemInfo) (mem : Memory)
    → IsValid m
    → IsCounted m.threads slot s'
    → IsValid (record m { state = record { sems = set m.state.sems slot s'; mem = mem } })
write-IsValid m slot s' mem v c = record {
  few = v.few;
  slots = λ k q e. go k q (get_elem?-set_cases m.state.sems slot k s' e);
}
  where
    go :
        (k : ℕ) (q : SemInfo)
        → ((slot ≡ k) × (q ≡ s')) ⊎ ((slot ≢ k) × (get_elem? m.state.sems k ≡ some q))
        → IsCounted m.threads k q
    go k q (inl (at, same)) = rw (← at, same) c
    go k q (inr (_, e)) = v.slots k q e

put-IsValid :
    (m : Machine) (slot : ℕ) (s' : SemInfo) (mem : Memory)
    → IsValid m
    → find_index free_sem m.state.sems ≡ some slot
    → (s'.references ≡ 0) × (s'.waiters ≡ 0)
    → IsValid (record m { state = record { sems = set m.state.sems slot s'; mem = mem } })
put-IsValid m slot s' mem v e cleared =
    let (s, es, free) = find_index-some free_sem m.state.sems slot e in
    let c = v.slots slot s es in
    let none_in = c.idle_when_off (ground arith) in
    write-IsValid m slot s' mem v (record {
      references_are = cleared.0 ∙ sym none_in;
      waiters_are = omega (arith, cleared.1, none_in, parked-le-pinned m.threads slot);
      idle_when_off = λ off. none_in;
    })

put_sem-IsValid :
    (m : Machine) (created : Bool) (out initial max_val : ℕ) (o : Option ℕ)
    → IsValid m
    → find_index free_sem m.state.sems ≡ o
    → IsValid (record m { state = (put_sem created m.state out initial max_val o).1 })
unfolding put_sem
put_sem-IsValid m created out initial max_val none v e = v
put_sem-IsValid m true out initial max_val (some slot) v e =
    put-IsValid m slot (fresh_sem initial max_val) _ v e (refl, refl)
put_sem-IsValid m false out initial max_val (some slot) v e =
    put-IsValid m slot (record (fresh_sem initial max_val) { active = false }) _ v e (refl, refl)

pub create-IsValid :
    (m : Machine) (created : Bool) (out initial max_val : ℕ)
    → IsValid m
    → IsValid (record m { state = (sys_semaphore_create created m.state out initial max_val).1 })
unfolding sys_semaphore_create
create-IsValid m created out initial max_val v =
    ground (
      arith,
      put_sem-IsValid m created out initial max_val (find_index free_sem m.state.sems) v refl,
    )

destroy_sem-IsValid :
    (m : Machine) (id : ℕ) (o : Option SemInfo)
    → IsValid m
    → get_elem? m.state.sems (id - 1) ≡ o
    → IsValid (record m { state = (destroy_sem m.state id o).1 })
unfolding destroy_sem
destroy_sem-IsValid m id none v e = v
destroy_sem-IsValid m id (some q) v e = ground (arith, removed)
  where
    removed :
        q.references ≡ 0
        → IsValid (record m {
          state = record {
            sems = set m.state.sems (id - 1) (record q { active = false });
            mem = m.state.mem;
          };
        })
    removed unused =
        let c = v.slots (id - 1) q e in
        write-IsValid m (id - 1) (record q { active = false }) m.state.mem v
          (record {
            references_are = c.references_are;
            waiters_are = c.waiters_are;
            idle_when_off = λ off. sym c.references_are ∙ unused;
          })

pub destroy-IsValid :
    (m : Machine) (id : ℕ)
    → IsValid m
    → IsValid (record m { state = (sys_semaphore_destroy m.state id).1 })
unfolding sys_semaphore_destroy
destroy-IsValid m id v =
    ground (arith, destroy_sem-IsValid m id (get_elem? m.state.sems (id - 1)) v refl)

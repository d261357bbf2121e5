-- ===== src/Lv2/Cond/Tests.antt =====
-- Thread 1 owns the mutex and waits, a signal comes before it sleeps, and it is served.
use yakuza_dead_souls_ex.Prelude.{◌≤◌, ◌<◌, ◌≡◌, refl, ◌↔◌, true, some, [], ◌∷◌, arith}
use yakuza_dead_souls_ex.Prelude.Lists.{total}
use yakuza_dead_souls_ex.Guest.{ebusy}
use yakuza_dead_souls_ex.Lv2.Mutex.{MutexInfo}
use yakuza_dead_souls_ex.Lv2.Cond.{State, fresh_cond, destroy_cond, wait_claim, commit, signal}
use yakuza_dead_souls_ex.Lv2.Cond.Contract.{
  wait_joins, wait_served, one_signalled, unobserved, History,
}
use yakuza_dead_souls_ex.Lv2.Cond.Threads.{
  Machine, claim, park, serve, send, destroy, Reach, start, after,
}
use yakuza_dead_souls_ex.Lv2.Cond.Rendezvous.{waits, view, rendezvous}

abbrev owned : MutexInfo
owned = record { active = true; recursive = true; owner_tid = 1; lock_count = 3; cond_count = 1 }

abbrev table : State
table = record { conds = []; mutexes = owned ∷ []; mem = λ _. 0 }

served : (s : Machine) × Reach 7 2 (wait_served ∷ one_signalled ∷ wait_joins ∷ unobserved ∷ []) s
unfolding wait_claim commit signal
served = (
  _,
  after (after (after (after (start owned) (claim 0 refl refl refl refl)) (park 0 refl)) send)
      (serve 0 refl (λ z. omega (arith, z))),
)

-- The slot is destroyed between the tests of thread 1 and its commitment, and the thread waits at a slot
-- that no signal call finds any more.
stranded : (s : Machine) × Reach 7 2 (wait_joins ∷ unobserved ∷ unobserved ∷ []) s
unfolding wait_claim commit destroy_cond
stranded = (
  _,
  after
      (after (after (start owned) (claim 0 refl refl refl refl))
        (destroy (record table { conds = fresh_cond 7 ∷ [] }) _ 0 refl refl))
      (park 0 refl),
)

-- Thread 1 sleeps, and a signal is held for it.
waiting : (s : Machine) × Reach 7 2 (one_signalled ∷ wait_joins ∷ unobserved ∷ []) s
unfolding wait_claim commit signal
waiting = (_, after (after (after (start owned) (claim 0 refl refl refl refl)) (park 0 refl)) send)

rendezvous_example :
    History (one_signalled ∷ wait_joins ∷ unobserved ∷ []) (view waiting.0)
    × (waiting.0.cond.pending ≤ total waits waiting.0.threads)
    × (((destroy_cond table 0 (some waiting.0.cond)).0 ≡ ebusy)
        ↔ ((waiting.0.cond.active ≡ true) × (0 < total waits waiting.0.threads)))
rendezvous_example = rendezvous (omega arith) waiting.1 table 0

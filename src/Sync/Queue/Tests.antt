-- ===== src/Sync/Queue/Tests.antt =====
-- A queue of two cells of one byte: thread 3 pushes, and thread 5 looks at the size.
use yakuza_dead_souls_ex.Prelude.{ℕ, ◌≡◌, refl, some, List, [], ◌∷◌}
use yakuza_dead_souls_ex.Sync.Queue.{
  Bytes, slice, Queue, LfQueue, waiting, Label, silent, pushed, sized, empty_queue, done,
  queue_initialize, lf_queue_initialize, lf_queue_get_direction,
}
use yakuza_dead_souls_ex.Sync.Queue.Pushing.{
  push_call, push_room, push_lock, push_go, push_load, push_copy, push_store, push_count,
}
use yakuza_dead_souls_ex.Sync.Queue.Clearing.{size_load, release}
use yakuza_dead_souls_ex.Sync.Queue.Machine.{
  push, measure, unlock, System, act, Run, run_end, run_step, started, lf_push, lf_size, lf_unlock,
  LfSystem, lf_act, LfRun, lf_run_end, lf_run_step, lf_started,
}
use yakuza_dead_souls_ex.Sync.Queue.Simulation.{SpecRun, Sim}
use yakuza_dead_souls_ex.Sync.Queue.Linearizable.{queue_linearizable, lf_queue_linearizable}
use native.Mathlib.Omega.{arith}

abbrev memory : Bytes
memory j = 9

abbrev element : Bytes
element j = 7

abbrev fresh : Queue
fresh = empty_queue memory 1 2

abbrev seen : List Label
seen =
    silent
    ∷ silent
    ∷ silent
    ∷ silent
    ∷ silent
    ∷ silent
    ∷ silent
    ∷ pushed (slice element 0 1)
    ∷ sized 1
    ∷ silent
    ∷ []

push_and_size : (t : System) × Run (started fresh) seen t
unfolding empty_queue
push_and_size = (
  _,
  run_step (act 3 (push (push_call {f = waiting} {src = element}))) (
      run_step (act 3 (push (push_room refl))) (
        run_step (act 3 (push (push_lock refl))) (
          run_step (act 3 (push (push_go refl))) (
            run_step (act 3 (push push_load)) (
              run_step (act 3 (push push_copy)) (
                run_step (act 3 (push push_store)) (
                  run_step (act 3 (push push_count)) (
                    run_step (act 5 (measure size_load))
                      (run_step (act 3 (unlock release)) run_end))))))))),
)

initialized : queue_initialize (some memory) 1 2 ≡ done fresh
unfolding queue_initialize
initialized = refl

queue_linearizable_example : (ys : List (List ℕ)) × SpecRun 2 [] seen ys × Sim push_and_size.0 ys
queue_linearizable_example = queue_linearizable (some memory) 1 2 initialized push_and_size.1

abbrev lf_fresh : LfQueue
lf_fresh = record { ring = fresh; direction = 1 }

lf_push_and_size : (t : LfSystem) × LfRun (lf_started lf_fresh) seen t
unfolding empty_queue
lf_push_and_size = (
  _,
  lf_run_step (lf_act 3 (lf_push (push_call {f = waiting} {src = element}))) (
      lf_run_step (lf_act 3 (lf_push (push_room refl))) (
        lf_run_step (lf_act 3 (lf_push (push_lock refl))) (
          lf_run_step (lf_act 3 (lf_push (push_go refl))) (
            lf_run_step (lf_act 3 (lf_push push_load)) (
              lf_run_step (lf_act 3 (lf_push push_copy)) (
                lf_run_step (lf_act 3 (lf_push push_store)) (
                  lf_run_step (lf_act 3 (lf_push push_count)) (
                    lf_run_step (lf_act 5 (lf_size size_load))
                      (lf_run_step (lf_act 3 (lf_unlock release)) lf_run_end))))))))),
)

lf_initialized : lf_queue_initialize (some memory) 1 2 1 ≡ done lf_fresh
unfolding lf_queue_initialize
lf_initialized = refl

lf_queue_linearizable_example :
    (ys : List (List ℕ)) × SpecRun 2 [] seen ys
    × Sim (record { queue = lf_push_and_size.0.lf.ring; pc = lf_push_and_size.0.pc }) ys
    × (lf_queue_get_direction lf_push_and_size.0.lf ≡ 1)
lf_queue_linearizable_example =
    lf_queue_linearizable (some memory) 1 2 1 (omega arith) lf_initialized lf_push_and_size.1

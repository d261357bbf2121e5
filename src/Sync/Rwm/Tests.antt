-- ===== src/Sync/Rwm/Tests.antt =====
-- A memory of one byte: thread 0 writes 7, and thread 1 reads.
use yakuza_dead_souls_ex.Prelude.{◌≡◌, refl, some, List, [], ◌∷◌, arith}
use yakuza_dead_souls_ex.Sync.Bytes.{Bytes, slice}
use yakuza_dead_souls_ex.Sync.Rwm.{
  Rwm, done, rwm_initialize, waiting, attempting, Label, silent, has_read, has_written, read_call,
  read_free, read_enter, read_start, read_byte, read_end, read_leave, write_call, write_lock,
  write_start, write_byte, write_end, write_leave, read, write, System, act, Run, run_end, run_step,
}
use yakuza_dead_souls_ex.Sync.Rwm.Invariant.{Inv}
use yakuza_dead_souls_ex.Sync.Rwm.Points.{RegisterRun}
use yakuza_dead_souls_ex.Sync.Rwm.Atomic.{started, rwm_atomic}

abbrev memory : Bytes
memory j = 9

abbrev source : Bytes
source j = 7

abbrev fresh : Rwm
fresh = record { readers = 0; writer = 0; size = 1; buffer = memory }

abbrev seen : List Label
seen =
    silent
    ∷ silent
    ∷ silent
    ∷ silent
    ∷ has_written (slice source 0 1)
    ∷ silent
    ∷ silent
    ∷ silent
    ∷ silent
    ∷ silent
    ∷ silent
    ∷ has_read (slice source 0 1)
    ∷ silent
    ∷ []

write_and_read : (t : System) × Run (started fresh 2) seen t
unfolding slice
write_and_read = (
  _,
  run_step (act 0 refl (write (write_call {f = waiting} {src = source}))) (
      run_step (act 0 refl (write (write_lock refl))) (
        run_step (act 0 refl (write (write_start refl))) (
          run_step (act 0 refl (write (write_byte (omega arith)))) (
            run_step (act 0 refl (write (write_end refl))) (
              run_step (act 0 refl (write write_leave)) (
                run_step (act 1 refl (read (read_call {f = attempting} {dst = memory}))) (
                  run_step (act 1 refl (read (read_free refl))) (
                    run_step (act 1 refl (read read_enter)) (
                      run_step (act 1 refl (read (read_start refl))) (
                        run_step (act 1 refl (read (read_byte (omega arith)))) (
                          run_step (act 1 refl (read (read_end refl)))
                            (run_step (act 1 refl (read read_leave)) run_end)))))))))))),
)

initialized : rwm_initialize (some memory) 1 ≡ done fresh
unfolding rwm_initialize
initialized = refl

rwm_atomic_example :
    (v : Bytes) × RegisterRun (slice memory 0 1) seen (slice v 0 1) × Inv write_and_read.0 v
rwm_atomic_example = rwm_atomic (some memory) 1 2 (omega arith) initialized write_and_read.1

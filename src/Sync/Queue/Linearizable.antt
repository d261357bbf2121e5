-- ===== src/Sync/Queue/Linearizable.antt =====
-- What the callers of a queue may rely on.
use yakuza_dead_souls_ex.Prelude.{
  ℕ, ◌^◌, ◌<◌, ◌≡◌, refl, ◌∙◌, ap, subst, Option, none, some, List, [], arith,
}
use yakuza_dead_souls_ex.Sync.Queue.{
  Bytes, Queue, LfQueue, Label, empty_queue, done, queue_initialize, lf_queue_initialize,
  lf_queue_get_direction,
}
use yakuza_dead_souls_ex.Sync.Queue.Machine.{
  push, pop, clear, measure, unlock, System, Step, act, Run, run_end, run_step, started, lf_push,
  lf_pop, lf_clear, lf_size, lf_unlock, LfSystem, LfStep, lf_act, LfRun, lf_run_end, lf_run_step,
  lf_started,
}
use yakuza_dead_souls_ex.Sync.Queue.Simulation.{SpecRun, Sim}
use yakuza_dead_souls_ex.Sync.Queue.Refinement.{run-Simulated, started-Sim}

initialized :
    (buffer : Option Bytes) (size depth : ℕ) {q : Queue}
    → queue_initialize buffer size depth ≡ done q
    → (b : Bytes) × (q ≡ empty_queue b size depth) × (0 < depth) × (depth < 2 ^ 32)
unfolding queue_initialize
initialized none size depth e = cc
initialized (some b) size depth e = (b, ground arith, ground arith, ground arith)

lf_initialized :
    (buffer : Option Bytes) (size depth direction : ℕ) {q : LfQueue}
    → lf_queue_initialize buffer size depth direction ≡ done q
    → (b : Bytes) × (q ≡ record { ring = empty_queue b size depth; direction = direction })
      × (0 < depth)
unfolding lf_queue_initialize
lf_initialized none size depth direction e = cc
lf_initialized (some b) size depth direction e = (b, ground arith, ground arith)

depth-empty_queue : (b : Bytes) (size depth : ℕ) → (empty_queue b size depth).depth ≡ depth
unfolding empty_queue
depth-empty_queue b size depth = refl

-- A queue that Initialize accepts is linearizable: whatever calls any threads make, and however
-- their accesses interleave, what the callers see is, in the order of the run, what a FIFO list of at
-- most `depth` elements of `size` bytes shows; a pop returns the bytes that were pushed, OVERFLOW
-- comes only when the list is full and EMPTY only when it is empty, and the state that is reached
-- stands for the list.
pub queue_linearizable :
    (buffer : Option Bytes) (size depth : ℕ) {q : Queue} {ls : List Label} {t : System}
    → queue_initialize buffer size depth ≡ done q
    → Run (started q) ls t
    → (ys : List (List ℕ)) × SpecRun depth [] ls ys × Sim t ys
queue_linearizable buffer size depth {q} {ls} {t} e run =
    let (b, same, pos, word) = initialized buffer size depth e in
    let run' : Run (started (empty_queue b size depth)) ls t =
      subst (λ q. Run (started q) ls t) same run in
    let (ys, a, v) = run-Simulated (started-Sim b size depth pos word) run' in
    (ys, subst (λ n. SpecRun n [] ls ys) (depth-empty_queue b size depth) a, v)

lf_step-Step :
    {s t : LfSystem} {l : Label}
    → LfStep s l t
    → Step (record { queue = s.lf.ring; pc = s.pc }) l (record { queue = t.lf.ring; pc = t.pc })
lf_step-Step (lf_act i (lf_push m)) = act i (push m)
lf_step-Step (lf_act i (lf_pop m)) = act i (pop m)
lf_step-Step (lf_act i (lf_clear m)) = act i (clear m)
lf_step-Step (lf_act i (lf_size m)) = act i (measure m)
lf_step-Step (lf_act i (lf_unlock m)) = act i (unlock m)

direction-LfStep : {s t : LfSystem} {l : Label} → LfStep s l t → t.lf.direction ≡ s.lf.direction
direction-LfStep (lf_act i (lf_push m)) = refl
direction-LfStep (lf_act i (lf_pop m)) = refl
direction-LfStep (lf_act i (lf_clear m)) = refl
direction-LfStep (lf_act i (lf_size m)) = refl
direction-LfStep (lf_act i (lf_unlock m)) = refl

lf_run-Run :
    {s t : LfSystem} {ls : List Label}
    → LfRun s ls t
    → Run (record { queue = s.lf.ring; pc = s.pc }) ls (record { queue = t.lf.ring; pc = t.pc })
      × (t.lf.direction ≡ s.lf.direction)
lf_run-Run lf_run_end = (run_end, refl)
lf_run-Run (lf_run_step step run) =
    let (rest, d) = lf_run-Run run in (run_step (lf_step-Step step) rest, d ∙ direction-LfStep step)

-- The same of the lock-free queue, for any depth that a 32-bit word holds: its runs are runs of the
-- FIFO list, and GetDirection always gives what Initialize was given.
pub lf_queue_linearizable :
    (buffer : Option Bytes) (size depth direction : ℕ) {q : LfQueue} {ls : List Label}
    {t : LfSystem}
    → depth < 2 ^ 32
    → lf_queue_initialize buffer size depth direction ≡ done q
    → LfRun (lf_started q) ls t
    → (ys : List (List ℕ)) × SpecRun depth [] ls ys
      × Sim (record { queue = t.lf.ring; pc = t.pc }) ys
      × (lf_queue_get_direction t.lf ≡ direction)
lf_queue_linearizable buffer size depth direction {q} {ls} {t} word e run =
    let (b, same, pos) = lf_initialized buffer size depth direction e in
    let (run', d) = lf_run-Run run in
    let final : System = record { queue = t.lf.ring; pc = t.pc } in
    let from : Run (started (empty_queue b size depth)) ls final =
      subst (λ q. Run (started q.ring) ls final) same run' in
    let (ys, a, v) = run-Simulated (started-Sim b size depth pos word) from in
    (
      ys,
      subst (λ n. SpecRun n [] ls ys) (depth-empty_queue b size depth) a,
      v,
      d ∙ ap (λ q. q.direction) same,
    )

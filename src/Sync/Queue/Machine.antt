-- ===== src/Sync/Queue/Machine.antt =====
-- All threads on one queue, interleaved.
use yakuza_dead_souls_ex.Prelude.{ℕ, List, [], ◌∷◌}
use yakuza_dead_souls_ex.Prelude.Tests.{◌==◌, if◌then◌else◌}
use yakuza_dead_souls_ex.Sync.Queue.{Queue, LfQueue, Pc, idle, Label}
use yakuza_dead_souls_ex.Sync.Queue.Pushing.{Push}
use yakuza_dead_souls_ex.Sync.Queue.Popping.{Pop, Peek}
use yakuza_dead_souls_ex.Sync.Queue.Clearing.{Clear, Size, Release}

-- One access by one thread.
pub data Move (q : Queue) (p : Pc) (l : Label) (q' : Queue) (p' : Pc) : Type 0 where
  push : Push q p l q' p' → Move q p l q' p'
  pop : Pop q p l q' p' → Move q p l q' p'
  peek : Peek q p l q' p' → Move q p l q' p'
  clear : Clear q p l q' p' → Move q p l q' p'
  measure : Size q p l q' p' → Move q p l q' p'
  unlock : Release q p l q' p' → Move q p l q' p'

pub record System : Type 0 where
  pub queue : Queue
  pub pc : ℕ → Pc

abbrev pub move_to : (ℕ → Pc) → ℕ → Pc → ℕ → Pc
move_to pc i p j = if j == i then p else pc j

pub data Step (s : System) (l : Label) : System → Type 0 where
  act :
      (i : ℕ) {q : Queue} {p : Pc}
      → Move s.queue (s.pc i) l q p
      → Step s l (record { queue = q; pc = move_to s.pc i p })

-- A run, with what its callers saw, in order.
pub data Run : System → List Label → System → Type 0 where
  run_end : {s : System} → Run s [] s
  run_step :
      {s t u : System} {l : Label} {ls : List Label} → Step s l t → Run t ls u → Run s (l ∷ ls) u

-- One access to a CellSyncLFQueue, which has no Peek. No call changes the direction.
pub data LfMove (q : LfQueue) : Pc → Label → LfQueue → Pc → Type 0 where
  lf_push :
      {p p' : Pc} {l : Label} {r : Queue}
      → Push q.ring p l r p'
      → LfMove q p l (record q { ring = r }) p'
  lf_pop :
      {p p' : Pc} {l : Label} {r : Queue}
      → Pop q.ring p l r p'
      → LfMove q p l (record q { ring = r }) p'
  lf_clear :
      {p p' : Pc} {l : Label} {r : Queue}
      → Clear q.ring p l r p'
      → LfMove q p l (record q { ring = r }) p'
  lf_size :
      {p p' : Pc} {l : Label} {r : Queue}
      → Size q.ring p l r p'
      → LfMove q p l (record q { ring = r }) p'
  lf_unlock :
      {p p' : Pc} {l : Label} {r : Queue}
      → Release q.ring p l r p'
      → LfMove q p l (record q { ring = r }) p'

pub record LfSystem : Type 0 where
  pub lf : LfQueue
  pub pc : ℕ → Pc

pub data LfStep (s : LfSystem) (l : Label) : LfSystem → Type 0 where
  lf_act :
      (i : ℕ) {q : LfQueue} {p : Pc}
      → LfMove s.lf (s.pc i) l q p
      → LfStep s l (record { lf = q; pc = move_to s.pc i p })

pub data LfRun : LfSystem → List Label → LfSystem → Type 0 where
  lf_run_end : {s : LfSystem} → LfRun s [] s
  lf_run_step :
      {s t u : LfSystem} {l : Label} {ls : List Label}
      → LfStep s l t
      → LfRun t ls u
      → LfRun s (l ∷ ls) u

-- The state in which no thread has called yet.
abbrev pub started : Queue → System
started q = record { queue = q; pc = λ _. idle }

abbrev pub lf_started : LfQueue → LfSystem
lf_started q = record { lf = q; pc = λ _. idle }

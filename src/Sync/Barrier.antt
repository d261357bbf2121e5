-- ===== src/Sync/Barrier.antt =====
-- The barrier of libs/sync/cellSync.c: a counter of arrivals, and a phase that the last arrival
-- moves on.
--
-- Each access to a shared word is a step. A participant calls Notify and then Wait, over and over.
-- The barrier is not null, and the counter of spins is left out.
pub mod Stages
pub mod First
pub mod Rounds
pub mod Deadlock
mod Tests
use yakuza_dead_souls_ex.Prelude.{
  ℕ, ◌+◌, ◌%◌, ◌^◌, ◌≤◌, ◌<◌, ◌≡◌, ◌≢◌, Bool, Option, none, some, List,
}
use yakuza_dead_souls_ex.Prelude.Tests.{◌==◌, if◌then◌else◌}
use yakuza_dead_souls_ex.Prelude.Lists.{get_elem?, set, replicate}

pub record Barrier : Type 0 where
  pub arrived : ℕ
  pub total : ℕ
  pub phase : ℕ

abbrev pub u32 : ℕ → ℕ
u32 n = n % 2 ^ 32

-- `cellSyncBarrierInitialize` with a `u16` count: CELL_SYNC_ERROR_INVAL for none.
unfoldable pub barrier_initialize : ℕ → Option Barrier
barrier_initialize total_count =
    if total_count == 0 then none else some (record { arrived = 0; total = total_count; phase = 0 })

-- `cellSyncBarrierTryWait`: CELL_OK, or CELL_SYNC_ERROR_BUSY.
abbrev pub try_wait : Barrier → Bool
try_wait b = b.arrived == 0

-- Where a participant stands.
pub data Pc : Type 0 where
  outside : Pc  -- before Notify
  resetting : Pc  -- in Notify, the last to arrive, before the reset of the counter
  advancing : Pc  -- in Notify, before the phase moves on
  notified : Pc  -- Notify has returned
  spinning : (phase : ℕ) → Pc  -- in Wait, which has loaded the phase

-- One access. `cellSyncBarrierTryNotify` is Notify.
pub data Move (b : Barrier) : Pc → Barrier → Pc → Type 0 where
  arrive :
      u32 (b.arrived + 1) < b.total
      → Move b outside (record b { arrived = u32 (b.arrived + 1) }) notified
  arrive_last :
      b.total ≤ u32 (b.arrived + 1)
      → Move b outside (record b { arrived = u32 (b.arrived + 1) }) resetting
  reset : Move b resetting (record b { arrived = 0 }) advancing
  advance : Move b advancing (record b { phase = u32 (b.phase + 1) }) notified
  wait_load : Move b notified b (spinning b.phase)
  spin : {p : ℕ} → b.phase ≡ p → Move b (spinning p) b (spinning p)
  pass : {p : ℕ} → b.phase ≢ p → Move b (spinning p) b outside

pub record System : Type 0 where
  pub barrier : Barrier
  pub threads : List Pc

pub data Step (s : System) : System → Type 0 where
  act :
      (i : ℕ) {p p' : Pc} {b : Barrier}
      → get_elem? s.threads i ≡ some p
      → Move s.barrier p b p'
      → Step s (record { barrier = b; threads = set s.threads i p' })

-- As many participants as the barrier was made for.
abbrev pub started : Barrier → System
started b = record { barrier = b; threads = replicate b.total outside }

pub data Reach (b : Barrier) : System → Type 0 where
  start : Reach b (started b)
  after : {s t : System} → Reach b s → Step s t → Reach b t

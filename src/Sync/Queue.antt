-- ===== src/Sync/Queue.antt =====
-- The bounded queue of libs/sync/cellSync.c (CellSyncQueue, and CellSyncLFQueue whose calls have the
-- same bodies): a ring of `depth` cells of `elem_size` bytes under a spinlock, with a fast test of
-- `count` outside the lock.
--
-- Any number of threads take steps of one shared access each. A memcpy is one step: it runs under the
-- lock. The counter of spins only decides when to yield and is left out; pointers are not null, and
-- positions in the buffer are `size_t`, which a product of two 32-bit numbers does not overflow.
pub mod Pushing
pub mod Popping
pub mod Clearing
pub mod Machine
pub mod Cells
pub mod Simulation
pub mod Carried
pub mod Pushed
pub mod Popped
pub mod Owner
pub mod Bystander
pub mod Refinement
pub mod Linearizable
mod Tests
use yakuza_dead_souls_ex.Prelude.{
  ℕ, zero, suc, ◌+◌, ◌-◌, ◌*◌, ◌%◌, ◌^◌, Bool, ◌&&◌, ◌||◌, Option, none, some, List, [], ◌∷◌,
}
use yakuza_dead_souls_ex.Prelude.Tests.{◌==◌, ltb, leb, if◌then◌else◌}
pub use yakuza_dead_souls_ex.Sync.Bytes.{Bytes, memcpy, slice}

abbrev pub u32 : ℕ → ℕ
u32 n = n % 2 ^ 32

pub record Queue : Type 0 where
  pub head : ℕ
  pub tail : ℕ
  pub count : ℕ
  pub lock : ℕ
  pub depth : ℕ
  pub elem_size : ℕ
  pub buffer : Bytes

abbrev pub queue_max_depth : ℕ
queue_max_depth = 1024

pub data InitError : Type 0 where
  null_pointer : InitError  -- CELL_SYNC_ERROR_NULL_POINTER
  inval : InitError  -- CELL_SYNC_ERROR_INVAL

pub data Outcome {ℓ} (A : Type ℓ) : Type ℓ where
  error : InitError → Outcome A
  done : A → Outcome A

-- The state that both Initialize calls leave, with the buffer zeroed.
unfoldable pub empty_queue : Bytes → ℕ → ℕ → Queue
empty_queue buffer size depth = record {
  head = 0;
  tail = 0;
  count = 0;
  lock = 0;
  depth = depth;
  elem_size = size;
  buffer = memcpy buffer 0 (λ _. 0) (size * depth);
}

-- `cellSyncQueueInitialize`; a null buffer is `none`.
unfoldable pub queue_initialize : Option Bytes → ℕ → ℕ → Outcome Queue
queue_initialize none size depth = error null_pointer
queue_initialize (some buffer) size depth =
    if (size == 0) || (depth == 0) || ltb queue_max_depth depth
    then error inval
    else done (empty_queue buffer size depth)

pub record LfQueue : Type 0 where
  pub ring : Queue
  pub direction : ℕ

-- `cellSyncLFQueueInitialize`: the depth has no upper bound here.
unfoldable pub lf_queue_initialize : Option Bytes → ℕ → ℕ → ℕ → Outcome LfQueue
lf_queue_initialize none size depth direction = error null_pointer
lf_queue_initialize (some buffer) size depth direction =
    if (size == 0) || (depth == 0)
    then error inval
    else done (record { ring = empty_queue buffer size depth; direction = direction })

-- `cellSyncLFQueueGetDirection` and `cellSyncLFQueueDepth`
abbrev pub lf_queue_get_direction : LfQueue → ℕ
lf_queue_get_direction q = q.direction

abbrev pub lf_queue_depth : LfQueue → ℕ
lf_queue_depth q = q.ring.depth

-- Push and Pop wait; TryPush and TryPop return an error.
pub data Form : Type 0 where
  waiting : Form
  attempting : Form

-- Where a thread stands. A name in `-ing` with the lock word 1 is a point of a critical section.
pub data Pc : Type 0 where
  idle : Pc  -- outside, or returned
  push_looking : (f : Form) (src : Bytes) → Pc  -- before the test outside the lock
  push_locking : (f : Form) (src : Bytes) → Pc  -- before the exchange
  push_testing : (f : Form) (src : Bytes) → Pc  -- before the test under the lock
  push_retrying : (src : Bytes) → Pc  -- before the release of a Push that starts again
  push_loading : (src : Bytes) → Pc
  push_copying : (src : Bytes) (tail : ℕ) → Pc
  push_storing : (src : Bytes) (tail : ℕ) → Pc
  push_counting : (src : Bytes) → Pc
  pop_looking : (f : Form) → Pc
  pop_locking : (f : Form) → Pc
  pop_testing : (f : Form) → Pc
  pop_retrying : Pc
  pop_loading : Pc
  pop_copying : (head : ℕ) → Pc
  pop_storing : (out : List ℕ) (head : ℕ) → Pc
  pop_counting : (out : List ℕ) → Pc
  peek_looking : Pc
  peek_locking : Pc
  peek_testing : Pc
  peek_loading : Pc
  peek_copying : (head : ℕ) → Pc
  clear_locking : Pc
  clear_head : Pc
  clear_tail : Pc
  clear_count : Pc
  releasing : Pc  -- before the release and the return

-- What a step lets a caller see.
pub data Label : Type 0 where
  silent : Label
  pushed : (v : List ℕ) → Label
  popped : (v : List ℕ) → Label
  peeked : (v : List ℕ) → Label
  cleared : Label
  sized : (n : ℕ) → Label
  overflow : Label  -- CELL_SYNC_ERROR_OVERFLOW
  empty : Label  -- CELL_SYNC_ERROR_EMPTY
  busy : Label  -- CELL_SYNC_ERROR_BUSY

-- ===== src/Sync/Rwm.antt =====
-- The reader-writer memory of libs/sync/cellSync.c: a buffer behind a counter of readers and a flag
-- of the writer.
--
-- Each access to a shared word is a step, and so is each byte of a memcpy, so that a reader and a
-- writer could meet in the middle of a copy. Pointers are not null, and the counter of spins, which
-- decides when to yield, is left out. The first wait of Read and the wait after it backed off test the
-- same word and go on at the same place, so they are one point here.
pub mod Invariant
pub mod Steps
pub mod Points
pub mod Atomic
mod Tests
use yakuza_dead_souls_ex.Prelude.{
  ℕ, ◌+◌, ◌-◌, ◌%◌, ◌^◌, ◌<◌, ◌≡◌, ◌≢◌, Bool, ◌&&◌, true, false, Option, none, some, List, [], ◌∷◌,
}
use yakuza_dead_souls_ex.Prelude.Tests.{◌==◌, ltb, if◌then◌else◌}
use yakuza_dead_souls_ex.Prelude.Lists.{get_elem?, set}
use yakuza_dead_souls_ex.Sync.Bytes.{Bytes, slice}

-- `readers` is an `atomic_int`, here the 32 bits of it.
pub record Rwm : Type 0 where
  pub readers : ℕ
  pub writer : ℕ
  pub size : ℕ
  pub buffer : Bytes

abbrev pub u32 : ℕ → ℕ
u32 n = n % 2 ^ 32

-- `readers > 0` of the signed word
abbrev pub positive : ℕ → Bool
positive r = ltb 0 r && ltb r (2 ^ 31)

pub data InitError : Type 0 where
  null_pointer : InitError  -- CELL_SYNC_ERROR_NULL_POINTER
  inval : InitError  -- CELL_SYNC_ERROR_INVAL

pub data Outcome {ℓ} (A : Type ℓ) : Type ℓ where
  error : InitError → Outcome A
  done : A → Outcome A

-- `cellSyncRwmInitialize`; a null buffer is `none`.
unfoldable pub rwm_initialize : Option Bytes → ℕ → Outcome Rwm
rwm_initialize none size = error null_pointer
rwm_initialize (some buffer) size =
    if size == 0
    then error inval
    else done (record { readers = 0; writer = 0; size = size; buffer = buffer })

-- Read and Write wait; TryRead and TryWrite return CELL_SYNC_ERROR_BUSY.
pub data Form : Type 0 where
  waiting : Form
  attempting : Form

-- Where a thread stands. A copy has moved the first `k` bytes.
pub data Pc : Type 0 where
  idle : Pc  -- outside, or returned
  read_looking : (f : Form) (dst : Bytes) → Pc  -- before the test of `writer`
  read_entering : (f : Form) (dst : Bytes) → Pc  -- before the count of this reader
  read_checking : (f : Form) (dst : Bytes) → Pc  -- counted, before the second test
  read_backing : (f : Form) (dst : Bytes) → Pc  -- counted, has seen a writer
  read_copying : (dst : Bytes) (k : ℕ) → Pc
  read_leaving : Pc  -- counted, the copy is complete
  write_locking : (f : Form) (src : Bytes) → Pc  -- before the exchange
  write_waiting : (f : Form) (src : Bytes) → Pc  -- before the test of `readers`
  write_backing : Pc  -- TryWrite has seen a reader
  write_copying : (src : Bytes) (k : ℕ) → Pc
  write_leaving : Pc  -- the copy is complete

-- What a step lets a caller see.
pub data Label : Type 0 where
  silent : Label
  busy : Label
  has_read : (v : List ℕ) → Label
  has_written : (v : List ℕ) → Label

abbrev pub put : Bytes → ℕ → ℕ → Bytes
put m k b j = if j == k then b else m j

-- `cellSyncRwmRead` and `cellSyncRwmTryRead`
pub data Read (r : Rwm) : Pc → Label → Rwm → Pc → Type 0 where
  read_call : {f : Form} {dst : Bytes} → Read r idle silent r (read_looking f dst)
  read_spin :
      {dst : Bytes}
      → r.writer ≢ 0
      → Read r (read_looking waiting dst) silent r (read_looking waiting dst)
  read_refuse : {dst : Bytes} → r.writer ≢ 0 → Read r (read_looking attempting dst) busy r idle
  read_free :
      {f : Form} {dst : Bytes}
      → r.writer ≡ 0
      → Read r (read_looking f dst) silent r (read_entering f dst)
  read_enter :
      {f : Form} {dst : Bytes}
      → Read r
          (read_entering f dst)
          silent
          (record r { readers = u32 (r.readers + 1) })
          (read_checking f dst)
  read_seen :
      {f : Form} {dst : Bytes}
      → r.writer ≢ 0
      → Read r (read_checking f dst) silent r (read_backing f dst)
  read_back :
      {dst : Bytes}
      → Read r
          (read_backing waiting dst)
          silent
          (record r { readers = u32 (r.readers + 2 ^ 32 - 1) })
          (read_looking waiting dst)
  read_give_up :
      {dst : Bytes}
      → Read r
          (read_backing attempting dst)
          busy
          (record r { readers = u32 (r.readers + 2 ^ 32 - 1) })
          idle
  read_start :
      {f : Form} {dst : Bytes}
      → r.writer ≡ 0
      → Read r (read_checking f dst) silent r (read_copying dst 0)
  read_byte :
      {dst : Bytes} {k : ℕ}
      → k < r.size
      → Read r (read_copying dst k) silent r (read_copying (put dst k (r.buffer k)) (k + 1))
  read_end :
      {dst : Bytes} {k : ℕ}
      → k ≡ r.size
      → Read r (read_copying dst k) (has_read (slice dst 0 r.size)) r read_leaving
  read_leave : Read r read_leaving silent (record r { readers = u32 (r.readers + 2 ^ 32 - 1) }) idle

-- `cellSyncRwmWrite` and `cellSyncRwmTryWrite`. The exchange of Write is the weak one, which may fail
-- at any time.
pub data Write (r : Rwm) : Pc → Label → Rwm → Pc → Type 0 where
  write_call : {f : Form} {src : Bytes} → Write r idle silent r (write_locking f src)
  write_fail :
      {src : Bytes} → Write r (write_locking waiting src) silent r (write_locking waiting src)
  write_refuse : {src : Bytes} → r.writer ≢ 0 → Write r (write_locking attempting src) busy r idle
  write_lock :
      {f : Form} {src : Bytes}
      → r.writer ≡ 0
      → Write r (write_locking f src) silent (record r { writer = 1 }) (write_waiting f src)
  write_spin :
      {src : Bytes}
      → positive r.readers ≡ true
      → Write r (write_waiting waiting src) silent r (write_waiting waiting src)
  write_seen :
      {src : Bytes}
      → positive r.readers ≡ true
      → Write r (write_waiting attempting src) silent r write_backing
  write_back : Write r write_backing busy (record r { writer = 0 }) idle
  write_start :
      {f : Form} {src : Bytes}
      → positive r.readers ≡ false
      → Write r (write_waiting f src) silent r (write_copying src 0)
  write_byte :
      {src : Bytes} {k : ℕ}
      → k < r.size
      → Write r
          (write_copying src k)
          silent
          (record r { buffer = put r.buffer k (src k) })
          (write_copying src (k + 1))
  write_end :
      {src : Bytes} {k : ℕ}
      → k ≡ r.size
      → Write r (write_copying src k) (has_written (slice src 0 r.size)) r write_leaving
  write_leave : Write r write_leaving silent (record r { writer = 0 }) idle

pub data Move (r : Rwm) (p : Pc) (l : Label) (r' : Rwm) (p' : Pc) : Type 0 where
  read : Read r p l r' p' → Move r p l r' p'
  write : Write r p l r' p' → Move r p l r' p'

pub record System : Type 0 where
  pub rwm : Rwm
  pub threads : List Pc

pub data Step (s : System) (l : Label) : System → Type 0 where
  act :
      (i : ℕ) {p p' : Pc} {r : Rwm}
      → get_elem? s.threads i ≡ some p
      → Move s.rwm p l r p'
      → Step s l (record { rwm = r; threads = set s.threads i p' })

-- A run, with what its callers saw, in order.
pub data Run : System → List Label → System → Type 0 where
  run_end : {s : System} → Run s [] s
  run_step :
      {s t u : System} {l : Label} {ls : List Label} → Step s l t → Run t ls u → Run s (l ∷ ls) u

-- ===== src/Sync/Queue/Popping.antt =====
-- cellSyncQueuePop, cellSyncQueueTryPop and cellSyncQueuePeek, and the LF forms of the first two.
use yakuza_dead_souls_ex.Prelude.{ℕ, ◌+◌, ◌-◌, ◌*◌, ◌%◌, ◌^◌, ◌≡◌, ◌≢◌, List}
use yakuza_dead_souls_ex.Sync.Queue.{
  slice, u32, Queue, Form, waiting, attempting, Pc, idle, pop_looking, pop_locking, pop_testing,
  pop_retrying, pop_loading, pop_copying, pop_storing, pop_counting, peek_looking, peek_locking,
  peek_testing, peek_loading, peek_copying, releasing, Label, silent, popped, peeked, empty, busy,
}

pub data Pop (q : Queue) : Pc → Label → Queue → Pc → Type 0 where
  pop_call : {f : Form} → Pop q idle silent q (pop_looking f)
  pop_spin : q.count ≡ 0 → Pop q (pop_looking waiting) silent q (pop_looking waiting)
  pop_refuse : q.count ≡ 0 → Pop q (pop_looking attempting) empty q idle
  pop_some : {f : Form} → q.count ≢ 0 → Pop q (pop_looking f) silent q (pop_locking f)
  pop_lock_fail : Pop q (pop_locking waiting) silent q (pop_locking waiting)
  pop_busy : q.lock ≢ 0 → Pop q (pop_locking attempting) busy q idle
  pop_lock :
      {f : Form} → q.lock ≡ 0 → Pop q (pop_locking f) silent (record q { lock = 1 }) (pop_testing f)
  pop_none : q.count ≡ 0 → Pop q (pop_testing waiting) silent q pop_retrying
  pop_retry : Pop q pop_retrying silent (record q { lock = 0 }) (pop_looking waiting)
  pop_empty : q.count ≡ 0 → Pop q (pop_testing attempting) empty q releasing
  pop_go : {f : Form} → q.count ≢ 0 → Pop q (pop_testing f) silent q pop_loading
  pop_load : Pop q pop_loading silent q (pop_copying q.head)
  pop_copy :
      {h : ℕ}
      → Pop q
          (pop_copying h)
          silent
          q
          (pop_storing (slice q.buffer (h * q.elem_size) q.elem_size) h)
  pop_store :
      {out : List ℕ} {h : ℕ}
      → Pop q
          (pop_storing out h)
          silent
          (record q { head = u32 (h + 1) % q.depth })
          (pop_counting out)
  pop_count :
      {out : List ℕ}
      → Pop q
          (pop_counting out)
          (popped out)
          (record q { count = u32 (q.count + 2 ^ 32 - 1) })
          releasing

-- Peek has a test outside the lock that returns at once, and waits for the lock.
pub data Peek (q : Queue) : Pc → Label → Queue → Pc → Type 0 where
  peek_call : Peek q idle silent q peek_looking
  peek_refuse : q.count ≡ 0 → Peek q peek_looking empty q idle
  peek_some : q.count ≢ 0 → Peek q peek_looking silent q peek_locking
  peek_lock_fail : Peek q peek_locking silent q peek_locking
  peek_lock : q.lock ≡ 0 → Peek q peek_locking silent (record q { lock = 1 }) peek_testing
  peek_empty : q.count ≡ 0 → Peek q peek_testing empty q releasing
  peek_go : q.count ≢ 0 → Peek q peek_testing silent q peek_loading
  peek_load : Peek q peek_loading silent q (peek_copying q.head)
  peek_copy :
      {h : ℕ}
      → Peek q (peek_copying h) (peeked (slice q.buffer (h * q.elem_size) q.elem_size)) q releasing

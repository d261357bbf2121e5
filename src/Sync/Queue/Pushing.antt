-- ===== src/Sync/Queue/Pushing.antt =====
-- cellSyncQueuePush and cellSyncQueueTryPush, and their LF forms.
use yakuza_dead_souls_ex.Prelude.{ℕ, ◌+◌, ◌*◌, ◌%◌, ◌≡◌, ◌≢◌, true, false}
use yakuza_dead_souls_ex.Prelude.Tests.{leb}
use yakuza_dead_souls_ex.Sync.Queue.{
  Bytes, memcpy, slice, u32, Queue, Form, waiting, attempting, Pc, idle, push_looking, push_locking,
  push_testing, push_retrying, push_loading, push_copying, push_storing, push_counting, releasing,
  Label, silent, pushed, overflow, busy,
}

-- `atomic_load(&queue->count) >= queue->depth` is `leb q.depth q.count`. The exchange of Push is the
-- weak one, which may fail at any time.
pub data Push (q : Queue) : Pc → Label → Queue → Pc → Type 0 where
  push_call : {f : Form} {src : Bytes} → Push q idle silent q (push_looking f src)
  push_spin :
      {src : Bytes}
      → leb q.depth q.count ≡ true
      → Push q (push_looking waiting src) silent q (push_looking waiting src)
  push_refuse :
      {src : Bytes}
      → leb q.depth q.count ≡ true
      → Push q (push_looking attempting src) overflow q idle
  push_room :
      {f : Form} {src : Bytes}
      → leb q.depth q.count ≡ false
      → Push q (push_looking f src) silent q (push_locking f src)
  push_lock_fail :
      {src : Bytes} → Push q (push_locking waiting src) silent q (push_locking waiting src)
  push_busy : {src : Bytes} → q.lock ≢ 0 → Push q (push_locking attempting src) busy q idle
  push_lock :
      {f : Form} {src : Bytes}
      → q.lock ≡ 0
      → Push q (push_locking f src) silent (record q { lock = 1 }) (push_testing f src)
  push_full :
      {src : Bytes}
      → leb q.depth q.count ≡ true
      → Push q (push_testing waiting src) silent q (push_retrying src)
  push_retry :
      {src : Bytes}
      → Push q (push_retrying src) silent (record q { lock = 0 }) (push_looking waiting src)
  push_overflow :
      {src : Bytes}
      → leb q.depth q.count ≡ true
      → Push q (push_testing attempting src) overflow q releasing
  push_go :
      {f : Form} {src : Bytes}
      → leb q.depth q.count ≡ false
      → Push q (push_testing f src) silent q (push_loading src)
  push_load : {src : Bytes} → Push q (push_loading src) silent q (push_copying src q.tail)
  push_copy :
      {src : Bytes} {t : ℕ}
      → Push q
          (push_copying src t)
          silent
          (record q { buffer = memcpy q.buffer (t * q.elem_size) src q.elem_size })
          (push_storing src t)
  push_store :
      {src : Bytes} {t : ℕ}
      → Push q
          (push_storing src t)
          silent
          (record q { tail = u32 (t + 1) % q.depth })
          (push_counting src)
  push_count :
      {src : Bytes}
      → Push q
          (push_counting src)
          (pushed (slice src 0 q.elem_size))
          (record q { count = u32 (q.count + 1) })
          releasing

-- ===== src/Sync/Queue/Clearing.antt =====
-- cellSyncQueueClear, cellSyncQueueSize, and the release at the end of every critical section.
use yakuza_dead_souls_ex.Prelude.{◌≡◌}
use yakuza_dead_souls_ex.Sync.Queue.{
  Queue, Pc, idle, clear_locking, clear_head, clear_tail, clear_count, releasing, Label, silent,
  cleared, sized,
}

pub data Clear (q : Queue) : Pc → Label → Queue → Pc → Type 0 where
  clear_call : Clear q idle silent q clear_locking
  clear_lock_fail : Clear q clear_locking silent q clear_locking
  clear_lock : q.lock ≡ 0 → Clear q clear_locking silent (record q { lock = 1 }) clear_head
  clear_head_store : Clear q clear_head silent (record q { head = 0 }) clear_tail
  clear_tail_store : Clear q clear_tail silent (record q { tail = 0 }) clear_count
  clear_count_store : Clear q clear_count cleared (record q { count = 0 }) releasing

pub data Size (q : Queue) : Pc → Label → Queue → Pc → Type 0 where
  size_load : Size q idle (sized q.count) q idle

-- `queue_spinlock_release`
pub data Release (q : Queue) : Pc → Label → Queue → Pc → Type 0 where
  release : Release q releasing silent (record q { lock = 0 }) idle

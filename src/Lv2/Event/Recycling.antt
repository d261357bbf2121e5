-- ===== src/Lv2/Event/Recycling.antt =====
-- runtime/syscalls/sys_event.c: a receiver that sleeps while its slot is given to a new queue.
use yakuza_dead_souls_ex.Prelude.{ℕ, ◌+◌, ◌-◌, ◌^◌, ◌≤◌, ◌<◌, ◌≡◌, refl, false, ◌||◌, some, arith}
use yakuza_dead_souls_ex.Prelude.Tests.{◌==◌, ltb, leb}
use yakuza_dead_souls_ex.Prelude.Lists.{
  length, find_index, get_elem?_lt, get_elem?-set_self, length-set,
}
use yakuza_dead_souls_ex.Guest.{ok, u32}
use yakuza_dead_souls_ex.Lv2.Event.{
  QueueInfo, State, bad_handle, queue_max, queue_buf_max, free_queue, fresh_queue, create_queue,
  put_queue, sys_event_queue_create, destroy_queue, sys_event_queue_destroy,
}
use yakuza_dead_souls_ex.Lv2.Event.Receive.{
  asleep, receive_begin, begin_at, receive_look, look_in, look_at, put_look,
}
use yakuza_dead_souls_ex.Lv2.Event.Delivery.{NamesQueue}

in_range :
    {s : State} {id : ℕ} {q : QueueInfo} → NamesQueue s id q → bad_handle id queue_max ≡ false
in_range n = ground (arith, n.low, n.high)

entered :
    (s : State) (id : ℕ) (q : QueueInfo)
    → NamesQueue s id q
    → NamesQueue (receive_begin s id).1 id (record q { waiters = u32 (q.waiters + 1) })
unfolding receive_begin begin_at
entered s id q n =
    rw (in_range n, n.entry, n.live)
      (record {
        low = n.low;
        high = n.high;
        entry = get_elem?-set_self s.queues (id - 1) _ (get_elem?_lt s.queues (id - 1) n.entry);
        live = refl;
      })

-- A forced destruction succeeds, and keeps the length of the table.
forced :
    (s : State) (id : ℕ) (q : QueueInfo)
    → NamesQueue s id q
    → ((sys_event_queue_destroy s id 1).0 ≡ ok)
      × (length (sys_event_queue_destroy s id 1).1.queues ≡ length s.queues)
unfolding sys_event_queue_destroy destroy_queue
forced s id q n = rw (in_range n, n.entry, n.live) (refl, length-set s.queues (id - 1) _)

-- A creation that takes the slot `id - 1`.
recreated :
    (s : State) (id out size : ℕ)
    → 0 < id
    → id ≤ queue_max
    → id - 1 < length s.queues
    → find_index free_queue s.queues ≡ some (id - 1)
    → 0 < size
    → size ≤ queue_buf_max
    → NamesQueue (sys_event_queue_create s out 0 0 size).1 id (fresh_queue 0 size)
unfolding sys_event_queue_create create_queue put_queue
recreated s id out size low high lt free pos le =
    let good : ((size == 0) || leb (2 ^ 31) size || ltb queue_buf_max size) ≡ false =
      ground arith in
    rw (good, free)
      (record {
        low = low;
        high = high;
        entry = get_elem?-set_self s.queues (id - 1) (fresh_queue 0 size) lt;
        live = refl;
      })

look_fresh :
    (s : State) (id size event_addr : ℕ)
    → NamesQueue s id (fresh_queue 0 size)
    → (receive_look s id event_addr).0 ≡ asleep
unfolding receive_look look_in look_at put_look
look_fresh s id size event_addr n = rw n.entry refl

destroy_fresh :
    (s : State) (id size : ℕ)
    → NamesQueue s id (fresh_queue 0 size)
    → (sys_event_queue_destroy s id 0).0 ≡ ok
unfolding sys_event_queue_destroy destroy_queue
destroy_fresh s id size n = rw (in_range n, n.entry) refl

-- A receiver that sleeps on a queue misses a forced destruction when its slot is given to a new queue
-- before it looks again: it goes on sleeping, on the new queue, and does not return CELL_ECANCELED; and
-- nobody counts it there, so that a destruction of the new queue without force returns CELL_OK under
-- it. The slot is the first free one, and the new queue has key 0 and a legal size.
pub look-recreate :
    (s : State) (id out size event_addr : ℕ) (q : QueueInfo)
    → NamesQueue s id q
    → find_index free_queue (sys_event_queue_destroy (receive_begin s id).1 id 1).1.queues
      ≡ some (id - 1)
    → 0 < size
    → size ≤ queue_buf_max
    → let dead = sys_event_queue_destroy (receive_begin s id).1 id 1 in
      let t = (sys_event_queue_create dead.1 out 0 0 size).1 in
      (dead.0 ≡ ok)
      × ((receive_look t id event_addr).0 ≡ asleep)
      × ((sys_event_queue_destroy t id 0).0 ≡ ok)
look-recreate s id out size event_addr q n free pos le =
    let inside = entered s id q n in
    let (done, same) = forced (receive_begin s id).1 id _ inside in
    let lt = get_elem?_lt (receive_begin s id).1.queues (id - 1) inside.entry in
    let fresh =
      recreated (sys_event_queue_destroy (receive_begin s id).1 id 1).1 id out size n.low n.high
        (omega (arith, same, lt)) free pos le in
    (done, look_fresh _ id size event_addr fresh, destroy_fresh _ id size fresh)

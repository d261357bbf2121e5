-- ===== src/Lv2/Event/Invariant/Calls.antt =====
-- runtime/syscalls/sys_event.c: every call on queues and ports keeps the tables' invariant.
use yakuza_dead_souls_ex.Prelude.{
  ℕ, ◌-◌, ◌≤◌, ◌<◌, ◌≡◌, refl, sym, ◌∙◌, inl, inr, true, false, not, ◌&&◌, ◌||◌, Option, none, some,
  arith,
}
use native.Mathlib.Nat.{mod-eq_of_lt}
use yakuza_dead_souls_ex.Prelude.Tests.{◌==◌, Option-cases}
use yakuza_dead_souls_ex.Prelude.Lists.{
  get_elem?, set, find_index, find_index-none, length-replicate,
}
use yakuza_dead_souls_ex.Lv2.Event.{
  QueueInfo, State, no_event, queue_buf_max, free_queue, has_key, fresh_queue, is_found,
  create_queue, put_queue, destroy_queue, drain_loop, try_receive, drain_queue,
  sys_event_queue_create, sys_event_queue_destroy, sys_event_queue_tryreceive,
  sys_event_queue_drain, at_most,
}
use yakuza_dead_souls_ex.Lv2.Event.Fifo.{IsQueue, drain_loop_lem}
use yakuza_dead_souls_ex.Lv2.Event.Invariant.{
  IsValid, write-IsValid, update-IsValid, destroy-IsValid,
}

abbrev pub Good : State → Type 0
Good s = IsValid s.queues s.ports

fresh-IsQueue : (key size : ℕ) → 0 < size → size ≤ queue_buf_max → IsQueue (fresh_queue key size)
fresh-IsQueue key size pos le = record {
  room = pos;
  bounded = le;
  sized = length-replicate queue_buf_max no_event;
  head_in = pos;
  count_in = omega arith;
  tail_at = ground arith;
}

-- A key that the search does not find is no active queue's.
key_free :
    (s : State) (key i : ℕ) (q : QueueInfo)
    → (not (key == 0) && is_found (find_index (has_key key) s.queues)) ≡ false
    → get_elem? s.queues i ≡ some q
    → q.active ≡ true
    → q.key ≡ key
    → key ≡ 0
key_free s key i q h e a same = elim (Option-cases (find_index (has_key key) s.queues)) [
  | inl missing ↦ ground (arith, find_index-none (has_key key) s.queues i missing e)
  | inr (j, found) ↦
      let yes : is_found (find_index (has_key key) s.queues) ≡ true = rw found refl in ground arith
]

put_queue-Good :
    (s : State) (out key size : ℕ) (o : Option ℕ)
    → Good s
    → 0 < size
    → size ≤ queue_buf_max
    → (not (key == 0) && is_found (find_index (has_key key) s.queues)) ≡ false
    → Good (put_queue s out key size o).1
unfolding put_queue
put_queue-Good s out key size none w pos le unique = w
put_queue-Good s out key size (some slot) w pos le unique =
    write-IsValid s.queues s.ports slot (fresh_queue key size) w refl
      (fresh-IsQueue key size pos le)
      (λ i q e a same ne. absurd (ne (key_free s key i q unique e a same)))

create_queue-Good :
    (s : State) (out key size : ℕ)
    → Good s
    → 0 < size
    → size ≤ queue_buf_max
    → Good (create_queue s out key size).1
unfolding create_queue
create_queue-Good s out key size w pos le =
    ground (arith, put_queue-Good s out key size (find_index free_queue s.queues) w pos le)

pub sys_event_queue_create-Good :
    (s : State) (out attr key size : ℕ)
    → Good s
    → Good (sys_event_queue_create s out attr key size).1
unfolding sys_event_queue_create
sys_event_queue_create-Good s out attr key size w =
    ground (arith, create_queue-Good s out key size w)

destroy_queue-Good :
    (s : State) (id mode : ℕ) (o : Option QueueInfo)
    → Good s
    → 0 < id
    → Good (destroy_queue s id mode o).1
unfolding destroy_queue
destroy_queue-Good s id mode none w pos = w
destroy_queue-Good s id mode (some q) w pos = ground (
  arith,
  destroy-IsValid s.queues s.ports id
      (record q { active = false; force_destroyed = (mode == 1) || q.force_destroyed }) w pos refl,
)

pub sys_event_queue_destroy-Good :
    (s : State) (id mode : ℕ) → Good s → Good (sys_event_queue_destroy s id mode).1
unfolding sys_event_queue_destroy
sys_event_queue_destroy-Good s id mode w =
    ground (arith, destroy_queue-Good s id mode (get_elem? s.queues (id - 1)) w)

drained-IsQueue : (q : QueueInfo) → IsQueue q → IsQueue (record q { head = 0; tail = 0; count = 0 })
drained-IsQueue q v = record {
  room = v.room;
  bounded = v.bounded;
  sized = v.sized;
  head_in = v.room;
  count_in = omega arith;
  tail_at = sym (mod-eq_of_lt v.room);
}

drain_queue-Good :
    (s : State) (id : ℕ) (o : Option QueueInfo)
    → Good s
    → get_elem? s.queues (id - 1) ≡ o
    → Good (drain_queue s id o).1
unfolding drain_queue
drain_queue-Good s id none w e = w
drain_queue-Good s id (some q) w e = ground (arith, emptied)
  where
    emptied :
        q.active ≡ true
        → IsValid (set s.queues (id - 1) (record q { head = 0; tail = 0; count = 0 })) s.ports
    emptied live =
        update-IsValid s.queues s.ports (id - 1) q _ w e live live refl
          (drained-IsQueue q (w.rings (id - 1) q e live))

pub sys_event_queue_drain-Good : (s : State) (id : ℕ) → Good s → Good (sys_event_queue_drain s id).1
unfolding sys_event_queue_drain
sys_event_queue_drain-Good s id w =
    ground (arith, drain_queue-Good s id (get_elem? s.queues (id - 1)) w refl)

try_receive-Good :
    (s : State) (id event_addr max_count count_addr : ℕ) (o : Option QueueInfo)
    → Good s
    → get_elem? s.queues (id - 1) ≡ o
    → Good (try_receive s id event_addr max_count count_addr o).1
unfolding try_receive
try_receive-Good s id event_addr max_count count_addr none w e = w
try_receive-Good s id event_addr max_count count_addr (some q) w e = ground (arith, received)
  where
    received :
        q.active ≡ true
        → IsValid
            (set s.queues (id - 1) (drain_loop (at_most max_count) 0 q s.mem event_addr).1)
            s.ports
    received live =
        let d =
          drain_loop_lem (at_most max_count) 0 q s.mem event_addr (w.rings (id - 1) q e live) in
        update-IsValid s.queues s.ports (id - 1) q _ w e live (d.same_active ∙ live) d.same_key
          d.ring

pub sys_event_queue_tryreceive-Good :
    (s : State) (id event_addr max_count count_addr : ℕ)
    → Good s
    → Good (sys_event_queue_tryreceive s id event_addr max_count count_addr).1
unfolding sys_event_queue_tryreceive
sys_event_queue_tryreceive-Good s id event_addr max_count count_addr w = ground (
  arith,
  try_receive-Good s id event_addr max_count count_addr (get_elem? s.queues (id - 1)) w refl,
)

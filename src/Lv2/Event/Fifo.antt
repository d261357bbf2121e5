-- ===== src/Lv2/Event/Fifo.antt =====
-- runtime/syscalls/sys_event.c: an event queue's ring buffer, seen as the list of its events.
use yakuza_dead_souls_ex.Prelude.{
  ℕ, zero, suc, ◌+◌, ◌-◌, ◌*◌, ◌%◌, ◌≤◌, ◌<◌, ◌≡◌, refl, sym, ◌∙◌, ap, inl, inr, true, false, List,
  [], ◌∷◌, ◌++◌, arith, min,
}
use native.Mathlib.Nat.{mod-add-mod, mod-lt}
use yakuza_dead_souls_ex.Prelude.Tests.{◌==◌, ltb, if◌then◌else◌, Bool-cases, ltb→lt}
use yakuza_dead_souls_ex.Prelude.Lists.{
  length, get_or, set, drop, take, length-set, get_or-set_self, get_or-set_ne,
}
use yakuza_dead_souls_ex.Prelude.Ring.{window, length-window, window_pop, window_push}
use yakuza_dead_souls_ex.Guest.{Memory, u32}
use yakuza_dead_souls_ex.Lv2.Event.{
  Event, QueueInfo, no_event, queue_buf_max, event_queue_push, take_event, drain_loop, write_event,
}

-- A ring that the code may index: the events lie between head and tail.
pub record IsQueue (q : QueueInfo) : Type 0 where
  pub room : 0 < q.capacity
  pub bounded : q.capacity ≤ queue_buf_max
  pub sized : length q.buffer ≡ queue_buf_max
  pub head_in : q.head < q.capacity
  pub count_in : q.count ≤ q.capacity
  pub tail_at : q.tail ≡ (q.head + q.count) % q.capacity

abbrev pub cell : List Event → ℕ → Event
cell buffer i = get_or buffer i no_event

-- The waiting events, the oldest first.
pub contents : QueueInfo → List Event
contents q = window (cell q.buffer) q.capacity q.head q.count

pub length-contents : (q : QueueInfo) → length (contents q) ≡ q.count
unfolding contents
length-contents q = length-window (cell q.buffer) q.capacity q.head q.count

-- The queue with the event behind its last one.
abbrev pushed_queue : QueueInfo → Event → QueueInfo
pushed_queue q e = record q {
  buffer = set q.buffer q.tail e;
  tail = (q.tail + 1) % q.capacity;
  count = q.count + 1;
}

push_room :
    (q : QueueInfo) (e : Event)
    → q.count < q.capacity
    → event_queue_push q e ≡ (true, pushed_queue q e)
unfolding event_queue_push
push_room q e h = ground arith

pushed-IsQueue :
    (q : QueueInfo) (e : Event) → IsQueue q → q.count < q.capacity → IsQueue (pushed_queue q e)
pushed-IsQueue q e v h = record {
  room = v.room;
  bounded = v.bounded;
  sized = length-set q.buffer q.tail e ∙ v.sized;
  head_in = v.head_in;
  count_in = omega arith;
  tail_at = rw (v.tail_at, mod-add-mod) (ap (λ k. k % q.capacity) (omega arith));
}

tail_in : (q : QueueInfo) → IsQueue q → q.tail < q.capacity
tail_in q v = rw v.tail_at (mod-lt _ v.room)

contents-pushed :
    (q : QueueInfo) (e : Event)
    → IsQueue q
    → q.count < q.capacity
    → contents (pushed_queue q e) ≡ contents q ++ (e ∷ [])
unfolding contents
contents-pushed q e v h = rw grown written
  where
    written :
        window (cell (set q.buffer q.tail e)) q.capacity q.head (suc q.count)
        ≡ window (cell q.buffer) q.capacity q.head q.count ++ (e ∷ [])
    written =
        window_push (cell q.buffer) (cell (set q.buffer q.tail e)) q.capacity q.head q.count e h
          (rw (← v.tail_at) (
            get_or-set_self q.buffer q.tail e no_event
              (omega (arith, tail_in q v, v.sized, v.bounded))))
          (λ j ne. get_or-set_ne q.buffer q.tail j e no_event (λ same. ne (sym same ∙ v.tail_at)))

    grown : q.count + 1 ≡ suc q.count
    grown = omega arith

-- A push onto a queue with room puts the event at the end and keeps the ring well formed.
pub event_queue_push_lem :
    (q : QueueInfo) (e : Event)
    → IsQueue q
    → q.count < q.capacity
    → ((event_queue_push q e).0 ≡ true)
      × (contents (event_queue_push q e).1 ≡ contents q ++ (e ∷ []))
      × IsQueue (event_queue_push q e).1
event_queue_push_lem q e v h =
    rw (push_room q e h) (refl, contents-pushed q e v h, pushed-IsQueue q e v h)

-- A push onto a full queue is refused.
pub event_queue_push_full :
    (q : QueueInfo) (e : Event) → q.capacity ≤ q.count → event_queue_push q e ≡ (false, q)
unfolding event_queue_push
event_queue_push_full q e h = ground arith

-- Neither a push nor a take touches who the queue is.
pub push_kept :
    (q : QueueInfo) (e : Event)
    → ((event_queue_push q e).1.active ≡ q.active) × ((event_queue_push q e).1.key ≡ q.key)
unfolding event_queue_push
push_kept q e = (ground arith, ground arith)

pub take_kept :
    (q : QueueInfo) → ((take_event q).1.active ≡ q.active) × ((take_event q).1.key ≡ q.key)
unfolding take_event
take_kept q = (refl, refl)

-- Taking from a queue that holds something gives its oldest event.
pub take_event_lem :
    (q : QueueInfo)
    → IsQueue q
    → 0 < q.count
    → (contents q ≡ (take_event q).0 ∷ contents (take_event q).1) × IsQueue (take_event q).1
unfolding take_event contents
take_event_lem q v h = (
  window_pop (cell q.buffer) q.capacity q.head q.count h v.head_in,
  record {
    room = v.room;
    bounded = v.bounded;
    sized = v.sized;
    head_in = mod-lt _ v.room;
    count_in = omega (arith, v.count_in);
    tail_at = v.tail_at ∙ rw mod-add-mod (ap (λ k. k % q.capacity) (omega arith));
  },
)

-- Events laid out one after the other from the `i`-th place of the caller's array on.
pub write_events : Memory → ℕ → ℕ → List Event → Memory
write_events m addr i [] = m
write_events m addr i (e ∷ es) =
    write_events (if addr == 0 then m else write_event m (u32 (addr + u32 (i * 32))) e) addr (i + 1)
      es

-- What a drain of at most `n` events leaves: its count, the rest of the queue, and the events taken in
-- the caller's array.
pub record Drained (n received : ℕ) (q : QueueInfo) (m : Memory) (addr : ℕ)
    (out : ℕ × QueueInfo × Memory) : Type 0 where
  pub told : out.0 ≡ received + min n q.count
  pub rest : contents out.1 ≡ drop n (contents q)
  pub written : out.2 ≡ write_events m addr received (take n (contents q))
  pub ring : IsQueue out.1
  pub same_key : out.1.key ≡ q.key
  pub same_active : out.1.active ≡ q.active

empty_contents : (q : QueueInfo) → q.count ≡ 0 → contents q ≡ []
unfolding contents
empty_contents q e = rw e refl

-- Where the first event of a drain goes.
abbrev stored : Memory → ℕ → ℕ → Event → Memory
stored m addr received e =
    if addr == 0 then m else write_event m (u32 (addr + u32 (received * 32))) e

drain_loop-zero :
    (received : ℕ) (q : QueueInfo) (m : Memory) (addr : ℕ)
    → drain_loop zero received q m addr ≡ (received, q, m)
unfolding drain_loop
drain_loop-zero received q m addr = refl

take_event-count : (q : QueueInfo) → (take_event q).1.count ≡ q.count - 1
unfolding take_event
take_event-count q = refl

drain_loop_more :
    (n received : ℕ) (q : QueueInfo) (m : Memory) (addr : ℕ)
    → 0 < q.count
    → drain_loop (suc n) received q m addr
      ≡ drain_loop n (received + 1) (take_event q).1 (stored m addr received (take_event q).0) addr
unfolding drain_loop
drain_loop_more n received q m addr h =
    let more : ltb 0 q.count ≡ true = ground arith in rw more refl

drain_loop_done :
    (n received : ℕ) (q : QueueInfo) (m : Memory) (addr : ℕ)
    → q.count ≡ 0
    → drain_loop (suc n) received q m addr ≡ (received, q, m)
unfolding drain_loop
drain_loop_done n received q m addr h =
    let done : ltb 0 q.count ≡ false = ground arith in rw done refl

-- One event taken, and then a drain of the rest.
Drained-cons :
    (n received : ℕ) (q : QueueInfo) (m : Memory) (addr : ℕ) (out : ℕ × QueueInfo × Memory)
    → IsQueue q
    → 0 < q.count
    → Drained n (received + 1) (take_event q).1 (stored m addr received (take_event q).0) addr out
    → Drained (suc n) received q m addr out
unfolding write_events take_event
Drained-cons n received q m addr out v h d =
    let cons = (take_event_lem q v h).0 in
    record {
      told = d.told ∙ omega (arith, take_event-count q);
      rest = rw cons d.rest;
      written = rw cons d.written;
      ring = d.ring;
      same_key = d.same_key;
      same_active = d.same_active;
    }

-- The loop of `sys_event_queue_tryreceive` takes the oldest events, as many as are asked for and
-- there, in order.
pub drain_loop_lem :
    (n received : ℕ) (q : QueueInfo) (m : Memory) (addr : ℕ)
    → IsQueue q
    → Drained n received q m addr (drain_loop n received q m addr)
unfolding write_events
drain_loop_lem zero received q m addr v = rw (drain_loop-zero received q m addr) (record {
  told = omega arith;
  rest = refl;
  written = refl;
  ring = v;
  same_key = refl;
  same_active = refl;
})
drain_loop_lem (suc n) received q m addr v = elim (Bool-cases (ltb 0 q.count)) [
  | inl more ↦
      let some_left : 0 < q.count = ltb→lt 0 q.count more in
      rw (drain_loop_more n received q m addr some_left) (
        Drained-cons n received q m addr _ v some_left (
          drain_loop_lem n (received + 1) (take_event q).1 (stored m addr received (take_event q).0)
            addr (take_event_lem q v some_left).1))
  | inr done ↦
      let none_left : q.count ≡ 0 = ground arith in
      rw (drain_loop_done n received q m addr none_left) (record {
        told = omega arith;
        rest = rw (empty_contents q none_left) refl;
        written = rw (empty_contents q none_left) refl;
        ring = v;
        same_key = refl;
        same_active = refl;
      })
]

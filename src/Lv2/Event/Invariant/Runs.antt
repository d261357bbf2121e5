-- ===== src/Lv2/Event/Invariant/Runs.antt =====
-- runtime/syscalls/sys_event.c: any sequence of calls on queues and ports, a blocking receive cut at
-- its sleeps.
use yakuza_dead_souls_ex.Prelude.{
  ℕ, ◌+◌, ◌-◌, ◌^◌, ◌≡◌, refl, ◌∙◌, ap, inl, inr, true, false, Option, none, some, List, [], ◌∷◌,
  arith,
}
use yakuza_dead_souls_ex.Prelude.Tests.{◌==◌, Bool-cases}
use yakuza_dead_souls_ex.Prelude.Lists.{get_elem?, set, length-replicate, get_elem?-replicate}
use yakuza_dead_souls_ex.Guest.{u32, Memory}
use yakuza_dead_souls_ex.Lv2.Event.{
  Event, QueueInfo, PortInfo, State, no_queue, no_port, sys_event_init, queue_max, port_max,
  take_event, sys_event_queue_create, sys_event_queue_destroy, sys_event_queue_tryreceive,
  sys_event_queue_drain,
}
use yakuza_dead_souls_ex.Lv2.Event.Ports.{
  sys_event_port_create, sys_event_port_destroy, sys_event_port_connect_local,
  sys_event_port_disconnect, sys_event_port_send, sys_event_queue_push_by_id,
}
use yakuza_dead_souls_ex.Lv2.Event.Receive.{
  Received, receive_begin, begin_at, receive_look, look_in, look_at, put_look, deliver, leave,
  receive_timeout, time_out,
}
use yakuza_dead_souls_ex.Lv2.Event.Fifo.{IsQueue, take_event_lem, take_kept}
use yakuza_dead_souls_ex.Lv2.Event.Invariant.{IsValid, update-IsValid, idle-IsValid}
use yakuza_dead_souls_ex.Lv2.Event.Invariant.Calls.{
  Good, sys_event_queue_create-Good, sys_event_queue_destroy-Good, sys_event_queue_tryreceive-Good,
  sys_event_queue_drain-Good,
}
use yakuza_dead_souls_ex.Lv2.Event.Invariant.Ports.{
  sys_event_port_create-Good, sys_event_port_destroy-Good, sys_event_port_connect_local-Good,
  sys_event_port_disconnect-Good, sys_event_port_send-Good, sys_event_queue_push_by_id-Good,
}

counted-IsQueue : (q : QueueInfo) (n : ℕ) → IsQueue q → IsQueue (record q { waiters = n })
counted-IsQueue q n v = record {
  room = v.room;
  bounded = v.bounded;
  sized = v.sized;
  head_in = v.head_in;
  count_in = v.count_in;
  tail_at = v.tail_at;
}

-- A change of a slot that keeps an active queue what it is, and leaves an inactive slot inactive.
record Keeps (q v : QueueInfo) : Type 0 where
  same_active : v.active ≡ q.active
  same_key : v.key ≡ q.key
  ring : q.active ≡ true → IsQueue q → IsQueue v

Keeps-Good :
    (queues : List QueueInfo) (ports : List PortInfo) (k : ℕ) (q v : QueueInfo)
    → IsValid queues ports
    → get_elem? queues k ≡ some q
    → Keeps q v
    → IsValid (set queues k v) ports
Keeps-Good queues ports k q v w e h = elim (Bool-cases q.active) [
  | inl live ↦
      update-IsValid queues ports k q v w e live (h.same_active ∙ live) h.same_key
        (h.ring live (w.rings k q e live))
  | inr dead ↦ idle-IsValid queues ports k q v w e dead (h.same_active ∙ dead)
]

counted-Keeps : (q : QueueInfo) (n : ℕ) → Keeps q (record q { waiters = n })
counted-Keeps q n = record {
  same_active = refl;
  same_key = refl;
  ring = λ _ v. counted-IsQueue q n v;
}

begin_at-Good :
    (s : State) (id : ℕ) (o : Option QueueInfo)
    → Good s
    → get_elem? s.queues (id - 1) ≡ o
    → Good (begin_at s id o).1
unfolding begin_at
begin_at-Good s id none w e = w
begin_at-Good s id (some q) w e = ground (
  arith,
  Keeps-Good s.queues s.ports (id - 1) q (record q { waiters = u32 (q.waiters + 1) }) w e
      (counted-Keeps q (u32 (q.waiters + 1))),
)

receive_begin-Good : (s : State) (id : ℕ) → Good s → Good (receive_begin s id).1
unfolding receive_begin
receive_begin-Good s id w = ground (arith, begin_at-Good s id (get_elem? s.queues (id - 1)) w refl)

time_out-Good :
    (s : State) (id : ℕ) (o : Option QueueInfo)
    → Good s
    → get_elem? s.queues (id - 1) ≡ o
    → Good (time_out s id o).1
unfolding time_out
time_out-Good s id none w e = w
time_out-Good s id (some q) w e =
    Keeps-Good s.queues s.ports (id - 1) q (leave q) w e (counted-Keeps q _)

taken-Keeps :
    (q : QueueInfo) (n : ℕ)
    → (q.count == 0) ≡ false
    → Keeps q (take_event (record q { waiters = n })).1
taken-Keeps q n h = record {
  same_active = (take_kept (record q { waiters = n })).0;
  same_key = (take_kept (record q { waiters = n })).1;
  ring =
      λ _ v. (take_event_lem (record q { waiters = n }) (counted-IsQueue q n v) (ground arith)).1;
}

look_at-Keeps : (q : QueueInfo) (m : Memory) (event_addr : ℕ) → Keeps q (look_at q m event_addr).1
unfolding look_at deliver
look_at-Keeps q m event_addr = ground (
  arith,
  kept,
  counted-Keeps q (u32 (q.waiters + 2 ^ 32 - 1)),
  taken-Keeps q (u32 (q.waiters + 2 ^ 32 - 1)),
)
  where
    kept : Keeps q q
    kept = record { same_active = refl; same_key = refl; ring = λ _ v. v }

put_look-Good :
    (s : State) (id : ℕ) (q : QueueInfo) (out : Received × QueueInfo × Memory)
    → Good s
    → get_elem? s.queues (id - 1) ≡ some q
    → Keeps q out.1
    → Good (put_look s id out).1
unfolding put_look
put_look-Good s id q (r, v, m) w e h = Keeps-Good s.queues s.ports (id - 1) q v w e h

look_in-Good :
    (s : State) (id event_addr : ℕ) (o : Option QueueInfo)
    → Good s
    → get_elem? s.queues (id - 1) ≡ o
    → Good (look_in s id event_addr o).1
unfolding look_in
look_in-Good s id event_addr none w e = w
look_in-Good s id event_addr (some q) w e =
    put_look-Good s id q (look_at q s.mem event_addr) w e (look_at-Keeps q s.mem event_addr)

-- The calls on queues and ports, with their arguments.
pub data Call : Type 0 where
  queue_create : (id_out_addr attr_addr key size : ℕ) → Call
  queue_destroy : (id mode : ℕ) → Call
  queue_tryreceive : (id event_addr max_count count_addr : ℕ) → Call
  queue_drain : (id : ℕ) → Call
  queue_push : (id : ℕ) (e : Event) → Call
  begin : (id : ℕ) → Call
  look : (id event_addr : ℕ) → Call
  time_out_of : (id : ℕ) → Call
  port_create : (id_out_addr name : ℕ) → Call
  port_destroy : (id : ℕ) → Call
  port_connect : (id queue_id : ℕ) → Call
  port_disconnect : (id : ℕ) → Call
  port_send : (id data1 data2 data3 : ℕ) → Call

unfoldable pub run : Call → State → State
run (queue_create out attr key size) s = (sys_event_queue_create s out attr key size).1
run (queue_destroy id mode) s = (sys_event_queue_destroy s id mode).1
run (queue_tryreceive id addr max count) s = (sys_event_queue_tryreceive s id addr max count).1
run (queue_drain id) s = (sys_event_queue_drain s id).1
run (queue_push id e) s = (sys_event_queue_push_by_id s id e).1
run (begin id) s = (receive_begin s id).1
run (look id addr) s = (receive_look s id addr).1
run (time_out_of id) s = (receive_timeout s id).1
run (port_create out name) s = (sys_event_port_create s out name).1
run (port_destroy id) s = (sys_event_port_destroy s id).1
run (port_connect id queue_id) s = (sys_event_port_connect_local s id queue_id).1
run (port_disconnect id) s = (sys_event_port_disconnect s id).1
run (port_send id d1 d2 d3) s = (sys_event_port_send s id d1 d2 d3).1

-- Every call on queues and ports keeps the tables' invariant, for all arguments.
pub run-IsValid :
    (c : Call) (s : State) → IsValid s.queues s.ports → IsValid (run c s).queues (run c s).ports
unfolding run receive_look receive_timeout
run-IsValid (queue_create out attr key size) s w = sys_event_queue_create-Good s out attr key size w
run-IsValid (queue_destroy id mode) s w = sys_event_queue_destroy-Good s id mode w
run-IsValid (queue_tryreceive id addr max count) s w =
    sys_event_queue_tryreceive-Good s id addr max count w
run-IsValid (queue_drain id) s w = sys_event_queue_drain-Good s id w
run-IsValid (queue_push id e) s w = sys_event_queue_push_by_id-Good s id e w
run-IsValid (begin id) s w = receive_begin-Good s id w
run-IsValid (look id addr) s w = look_in-Good s id addr (get_elem? s.queues (id - 1)) w refl
run-IsValid (time_out_of id) s w = time_out-Good s id (get_elem? s.queues (id - 1)) w refl
run-IsValid (port_create out name) s w = sys_event_port_create-Good s out name w
run-IsValid (port_destroy id) s w = sys_event_port_destroy-Good s id w
run-IsValid (port_connect id queue_id) s w = sys_event_port_connect_local-Good s id queue_id w
run-IsValid (port_disconnect id) s w = sys_event_port_disconnect-Good s id w
run-IsValid (port_send id d1 d2 d3) s w = sys_event_port_send-Good s id d1 d2 d3 w

init-IsValid : (m : Memory) → Good (sys_event_init m)
init-IsValid m = record {
  queue_slots = length-replicate queue_max no_queue;
  port_slots = length-replicate port_max no_port;
  rings = λ i q e a.
      let same : q ≡ no_queue = get_elem?-replicate queue_max no_queue i e in absurd (ground arith);
  keys = λ i j a b ei ej ta tb same ne.
      let off : a ≡ no_queue = get_elem?-replicate queue_max no_queue i ei in absurd (ground arith);
  targets = λ i p e a. inl (ap (λ x. x.connected_queue) (get_elem?-replicate port_max no_port i e));
}

-- The state after a list of calls, the first one first.
unfoldable pub run_all : List Call → State → State
run_all [] s = s
run_all (c ∷ calls) s = run_all calls (run c s)

run_all-IsValid : (calls : List Call) (s : State) → Good s → Good (run_all calls s)
unfolding run_all
run_all-IsValid [] s w = w
run_all-IsValid (c ∷ calls) s w = run_all-IsValid calls (run c s) (run-IsValid c s w)

-- After any sequence of calls on queues and ports, with any arguments and in any order, starting from
-- the cleared tables: each active queue is a ring that the code may index, no two active queues share a
-- key but 0, and an active port is connected to an active queue or to none.
pub init-run_all :
    (m : Memory) (calls : List Call)
    → IsValid (run_all calls (sys_event_init m)).queues (run_all calls (sys_event_init m)).ports
init-run_all m calls = run_all-IsValid calls (sys_event_init m) (init-IsValid m)

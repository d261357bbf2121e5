-- ===== src/Lv2/Event/Invariant/Ports.antt =====
-- runtime/syscalls/sys_event.c: the port calls, the sends and the blocking receive keep the tables'
-- invariant.
use yakuza_dead_souls_ex.Prelude.{
  ℕ, ◌-◌, ◌<◌, ◌≡◌, refl, ◌∙◌, inl, inr, Bool, true, false, Option, none, some, arith,
}
use yakuza_dead_souls_ex.Prelude.Tests.{leb, Bool-cases}
use yakuza_dead_souls_ex.Prelude.Lists.{get_elem?, set, find_index}
use yakuza_dead_souls_ex.Guest.{Status, ebusy}
use yakuza_dead_souls_ex.Lv2.Event.{Event, QueueInfo, PortInfo, State, event_queue_push}
use yakuza_dead_souls_ex.Lv2.Event.Ports.{
  put_port, free_port, sys_event_port_create, destroy_port, sys_event_port_destroy, connect_port,
  sys_event_port_connect_local, disconnect_port, sys_event_port_disconnect, push_active, put_back,
  send, sys_event_port_send, event_of, sys_event_queue_push_by_id, pushed,
}
use yakuza_dead_souls_ex.Lv2.Event.Fifo.{
  IsQueue, event_queue_push_lem, event_queue_push_full, push_kept,
}
use yakuza_dead_souls_ex.Lv2.Event.Invariant.{IsValid, update-IsValid, port-IsValid}
use yakuza_dead_souls_ex.Lv2.Event.Invariant.Calls.{Good}

put_port-Good : (s : State) (out name : ℕ) (o : Option ℕ) → Good s → Good (put_port s out name o).1
unfolding put_port
put_port-Good s out name none w = w
put_port-Good s out name (some slot) w =
    port-IsValid s.queues s.ports slot (record { active = true; name = name; connected_queue = 0 })
      w (λ _. inl refl)

pub sys_event_port_create-Good :
    (s : State) (out name : ℕ) → Good s → Good (sys_event_port_create s out name).1
unfolding sys_event_port_create
sys_event_port_create-Good s out name w = put_port-Good s out name (find_index free_port s.ports) w

destroy_port-Good :
    (s : State) (id : ℕ) (o : Option PortInfo) → Good s → Good (destroy_port s id o).1
unfolding destroy_port
destroy_port-Good s id none w = w
destroy_port-Good s id (some p) w = ground (
  arith,
  port-IsValid s.queues s.ports (id - 1) (record p { active = false }) w (λ a. ground arith),
)

pub sys_event_port_destroy-Good :
    (s : State) (id : ℕ) → Good s → Good (sys_event_port_destroy s id).1
unfolding sys_event_port_destroy
sys_event_port_destroy-Good s id w =
    ground (arith, destroy_port-Good s id (get_elem? s.ports (id - 1)) w)

connect_port-Good :
    (s : State) (id queue_id : ℕ) (o : Option PortInfo) (r : Option QueueInfo)
    → Good s
    → 0 < queue_id
    → get_elem? s.queues (queue_id - 1) ≡ r
    → Good (connect_port s id queue_id o r).1
unfolding connect_port
connect_port-Good s id queue_id none r w pos e = w
connect_port-Good s id queue_id (some p) none w pos e = w
connect_port-Good s id queue_id (some p) (some q) w pos e = ground (arith, linked)
  where
    linked :
        q.active ≡ true
        → IsValid s.queues (set s.ports (id - 1) (record p { connected_queue = queue_id }))
    linked live =
        port-IsValid s.queues s.ports (id - 1) (record p { connected_queue = queue_id }) w
          (λ _. inr (pos, (q, e, live)))

pub sys_event_port_connect_local-Good :
    (s : State) (id queue_id : ℕ) → Good s → Good (sys_event_port_connect_local s id queue_id).1
unfolding sys_event_port_connect_local
sys_event_port_connect_local-Good s id queue_id w = ground (
  arith,
  λ (pos : 0 < queue_id).
      connect_port-Good s id queue_id (get_elem? s.ports (id - 1))
        (get_elem? s.queues (queue_id - 1)) w pos refl,
)

disconnect_port-Good :
    (s : State) (id : ℕ) (o : Option PortInfo) → Good s → Good (disconnect_port s id o).1
unfolding disconnect_port
disconnect_port-Good s id none w = w
disconnect_port-Good s id (some p) w = ground (
  arith,
  port-IsValid s.queues s.ports (id - 1) (record p { connected_queue = 0 }) w (λ _. inl refl),
)

pub sys_event_port_disconnect-Good :
    (s : State) (id : ℕ) → Good s → Good (sys_event_port_disconnect s id).1
unfolding sys_event_port_disconnect
sys_event_port_disconnect-Good s id w =
    ground (arith, disconnect_port-Good s id (get_elem? s.ports (id - 1)) w)

put_back-Good :
    (s : State) (queue_id : ℕ) (q : QueueInfo) (e : Event) (refused : Status)
    → Good s
    → get_elem? s.queues (queue_id - 1) ≡ some q
    → q.active ≡ true
    → Good (put_back s queue_id refused (event_queue_push q e)).1
unfolding put_back
put_back-Good s queue_id q e refused w at live = elim (Bool-cases (leb q.capacity q.count)) [
  | inl full ↦ rw (event_queue_push_full q e (ground arith)) w
  | inr room ↦
      let ring = w.rings (queue_id - 1) q at live in
      let (accepted, _, grown) = event_queue_push_lem q e ring (ground arith) in
      go (event_queue_push q e) accepted (push_kept q e).0 (push_kept q e).1 grown
]
  where
    go :
        (out : Bool × QueueInfo)
        → out.0 ≡ true
        → out.1.active ≡ q.active
        → out.1.key ≡ q.key
        → IsQueue out.1
        → Good (put_back s queue_id refused out).1
    go (true, v) h same_active same_key grown =
        update-IsValid s.queues s.ports (queue_id - 1) q v w at live (same_active ∙ live) same_key
          grown
    go (false, v) h same_active same_key grown = w

push_active-Good :
    (s : State) (queue_id : ℕ) (e : Event) (refused : Status) (o : Option QueueInfo)
    → Good s
    → get_elem? s.queues (queue_id - 1) ≡ o
    → Good (push_active s queue_id e refused o).1
unfolding push_active
push_active-Good s queue_id e refused none w at = w
push_active-Good s queue_id e refused (some q) w at =
    ground (arith, put_back-Good s queue_id q e refused w at)

send-Good :
    (s : State) (id data1 data2 data3 : ℕ) (o : Option PortInfo)
    → Good s
    → Good (send s id data1 data2 data3 o).1
unfolding send
send-Good s id data1 data2 data3 none w = w
send-Good s id data1 data2 data3 (some p) w = ground (
  arith,
  push_active-Good s p.connected_queue (event_of id p data1 data2 data3) ebusy
      (get_elem? s.queues (p.connected_queue - 1)) w refl,
)

pub sys_event_port_send-Good :
    (s : State) (id data1 data2 data3 : ℕ)
    → Good s
    → Good (sys_event_port_send s id data1 data2 data3).1
unfolding sys_event_port_send
sys_event_port_send-Good s id data1 data2 data3 w =
    ground (arith, send-Good s id data1 data2 data3 (get_elem? s.ports (id - 1)) w)

pushed-Good : (r : Status × State) → Good r.1 → Good (pushed r).1
unfolding pushed
pushed-Good (Status.ok, s) w = w
pushed-Good (_, s) w = w

pub sys_event_queue_push_by_id-Good :
    (s : State) (queue_id : ℕ) (e : Event)
    → Good s
    → Good (sys_event_queue_push_by_id s queue_id e).1
unfolding sys_event_queue_push_by_id
sys_event_queue_push_by_id-Good s queue_id e w = ground (
  arith,
  pushed-Good (push_active s queue_id e ebusy (get_elem? s.queues (queue_id - 1)))
      (push_active-Good s queue_id e ebusy (get_elem? s.queues (queue_id - 1)) w refl),
)

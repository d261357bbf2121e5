-- ===== src/Lv2/Event/Ports.antt =====
-- runtime/syscalls/sys_event.c: the event ports, and the push of a caller inside the runtime.
--
-- `sys_event_port_send` reads the port and the queue's `active` under no lock, before it pushes under the
-- queue's lock; `send` takes these reads and the push as one step, so that no destruction comes between
-- them.
use yakuza_dead_souls_ex.Prelude.{
  ℕ, ◌+◌, ◌-◌, ◌^◌, Bool, true, false, not, ◌||◌, Option, none, some,
}
use yakuza_dead_souls_ex.Prelude.Tests.{◌==◌, ltb, if◌then◌else◌}
use yakuza_dead_souls_ex.Prelude.Lists.{get_elem?, set, find_index}
use yakuza_dead_souls_ex.Guest.{Status, ok, eagain, esrch, ebusy, eisconn, enotconn, write_out}
use yakuza_dead_souls_ex.Lv2.Event.{
  Event, QueueInfo, PortInfo, State, bad_handle, queue_max, port_max, event_queue_push,
}

abbrev pub free_port : PortInfo → Bool
free_port p = not p.active

-- The new port in the free slot that was found.
unfoldable pub put_port : State → ℕ → ℕ → Option ℕ → Status × State
put_port s id_out_addr name none = (eagain, s)
put_port s id_out_addr name (some slot) = (
  ok,
  record s {
    ports = set s.ports slot (record { active = true; name = name; connected_queue = 0 });
    mem = write_out s.mem id_out_addr (slot + 1);
  },
)

unfoldable pub sys_event_port_create : State → ℕ → ℕ → Status × State
sys_event_port_create s id_out_addr name =
    put_port s id_out_addr name (find_index free_port s.ports)

unfoldable pub destroy_port : State → ℕ → Option PortInfo → Status × State
destroy_port s id none = (esrch, s)
destroy_port s id (some p) =
    if not p.active
    then (esrch, s)
    else (ok, record s { ports = set s.ports (id - 1) (record p { active = false }) })

unfoldable pub sys_event_port_destroy : State → ℕ → Status × State
sys_event_port_destroy s id =
    if bad_handle id port_max then (esrch, s) else destroy_port s id (get_elem? s.ports (id - 1))

unfoldable pub connect_port : State → ℕ → ℕ → Option PortInfo → Option QueueInfo → Status × State
connect_port s id queue_id none q = (esrch, s)
connect_port s id queue_id (some p) none = (esrch, s)
connect_port s id queue_id (some p) (some q) =
    if not p.active
    then (esrch, s)
    else if not q.active
    then (esrch, s)
    else if not (p.connected_queue == 0)
    then (eisconn, s)
    else (ok, record s { ports = set s.ports (id - 1) (record p { connected_queue = queue_id }) })

unfoldable pub sys_event_port_connect_local : State → ℕ → ℕ → Status × State
sys_event_port_connect_local s id queue_id =
    if bad_handle id port_max || bad_handle queue_id queue_max
    then (esrch, s)
    else connect_port s id queue_id (get_elem? s.ports (id - 1)) (get_elem? s.queues (queue_id - 1))

unfoldable pub disconnect_port : State → ℕ → Option PortInfo → Status × State
disconnect_port s id none = (esrch, s)
disconnect_port s id (some p) =
    if not p.active
    then (esrch, s)
    else if p.connected_queue == 0
    then (enotconn, s)
    else (ok, record s { ports = set s.ports (id - 1) (record p { connected_queue = 0 }) })

unfoldable pub sys_event_port_disconnect : State → ℕ → Status × State
sys_event_port_disconnect s id =
    if bad_handle id port_max then (esrch, s) else disconnect_port s id (get_elem? s.ports (id - 1))

-- The table with the outcome of a push; a refused push is `refused`.
unfoldable pub put_back : State → ℕ → Status → Bool × QueueInfo → Status × State
put_back s queue_id refused (false, q) = (refused, s)
put_back s queue_id refused (true, q) = (ok, record s { queues = set s.queues (queue_id - 1) q })

unfoldable pub push_active : State → ℕ → Event → Status → Option QueueInfo → Status × State
push_active s queue_id e refused none = (esrch, s)
push_active s queue_id e refused (some q) =
    if not q.active then (esrch, s) else put_back s queue_id refused (event_queue_push q e)

-- 0 and -1
unfoldable pub pushed : Status × State → Bool × State
pushed (Status.ok, s) = (true, s)
pushed (_, s) = (false, s)

-- The runtime's own producers: an unknown queue, an inactive one and a full one are all -1.
unfoldable pub sys_event_queue_push_by_id : State → ℕ → Event → Bool × State
sys_event_queue_push_by_id s queue_id e =
    if bad_handle queue_id queue_max
    then (false, s)
    else pushed (push_active s queue_id e ebusy (get_elem? s.queues (queue_id - 1)))

-- What an unnamed port sends as its source: process 1, and the port's handle.
unfoldable pub event_of : ℕ → PortInfo → ℕ → ℕ → ℕ → Event
event_of id p data1 data2 data3 = record {
  source = if p.name == 0 then 2 ^ 32 + id else p.name;
  data1 = data1;
  data2 = data2;
  data3 = data3;
}

unfoldable pub send : State → ℕ → ℕ → ℕ → ℕ → Option PortInfo → Status × State
send s id data1 data2 data3 none = (esrch, s)
send s id data1 data2 data3 (some p) =
    if not p.active
    then (esrch, s)
    else if p.connected_queue == 0
    then (enotconn, s)
    else if ltb queue_max p.connected_queue
    then (esrch, s)
    else push_active s p.connected_queue (event_of id p data1 data2 data3) ebusy
        (get_elem? s.queues (p.connected_queue - 1))

unfoldable pub sys_event_port_send : State → ℕ → ℕ → ℕ → ℕ → Status × State
sys_event_port_send s id data1 data2 data3 =
    if bad_handle id port_max
    then (esrch, s)
    else send s id data1 data2 data3 (get_elem? s.ports (id - 1))

-- ===== src/Lv2/Event/Delivery.antt =====
-- runtime/syscalls/sys_event.c: what a send and a receive do to the events that wait in a queue.
use yakuza_dead_souls_ex.Prelude.{
  ℕ, zero, suc, ◌-◌, ◌≤◌, ◌<◌, ◌≡◌, refl, ◌∙◌, ap, inl, inr, Bool, true, false, ◌&&◌, Option, none,
  some, List, [], ◌∷◌, ◌++◌, arith, min,
}
use mathlib.Core.List.{map}
use yakuza_dead_souls_ex.Prelude.Tests.{◌==◌, ltb, leb, Bool-cases}
use yakuza_dead_souls_ex.Prelude.Lists.{
  get_elem?, set, take, drop, get_elem?_lt, get_elem?-set_self,
}
use yakuza_dead_souls_ex.Guest.{Status, ok, ebusy, enotconn, write_out}
use yakuza_dead_souls_ex.Lv2.Event.{
  Event, QueueInfo, PortInfo, State, bad_handle, queue_max, port_max, event_queue_push,
  disconnect_from, try_receive, at_most, drain_loop, sys_event_queue_tryreceive,
  sys_event_queue_destroy, destroy_queue,
}
use yakuza_dead_souls_ex.Lv2.Event.Ports.{
  push_active, put_back, send, sys_event_port_send, event_of,
}
use yakuza_dead_souls_ex.Lv2.Event.Fifo.{
  IsQueue, contents, event_queue_push_lem, event_queue_push_full, write_events, drain_loop_lem,
  push_kept,
}
use yakuza_dead_souls_ex.Lv2.Event.Invariant.{IsValid, swept_off}
use yakuza_dead_souls_ex.Lv2.Event.Invariant.Calls.{Good}

-- The handle `id` names the active port `p`.
pub record NamesPort (s : State) (id : ℕ) (p : PortInfo) : Type 0 where
  pub low : 0 < id
  pub high : id ≤ port_max
  pub entry : get_elem? s.ports (id - 1) ≡ some p
  pub live : p.active ≡ true

-- The handle `id` names the active queue `q`.
pub record NamesQueue (s : State) (id : ℕ) (q : QueueInfo) : Type 0 where
  pub low : 0 < id
  pub high : id ≤ queue_max
  pub entry : get_elem? s.queues (id - 1) ≡ some q
  pub live : q.active ≡ true

-- A send on a connected port is a push onto the queue.
send_lem :
    (s : State) (id data1 data2 data3 : ℕ) (p : PortInfo) (q : QueueInfo)
    → NamesPort s id p
    → NamesQueue s p.connected_queue q
    → sys_event_port_send s id data1 data2 data3
      ≡ put_back s p.connected_queue ebusy (event_queue_push q (event_of id p data1 data2 data3))
unfolding sys_event_port_send send push_active
send_lem s id data1 data2 data3 p q n c =
    let in_range : bad_handle id port_max ≡ false = ground (arith, n.low, n.high) in
    let linked : (p.connected_queue == 0) ≡ false = ground (arith, c.low) in
    let known : ltb queue_max p.connected_queue ≡ false = ground (arith, c.high) in
    rw (in_range, n.entry, n.live, linked, known, c.entry, c.live) refl

-- What a send leaves of the queue `q` behind a port.
pub data Sent (s : State) (queue_id : ℕ) (q : QueueInfo) (e : Event) (out : Status × State)
    : Type 0 where
  delivered :
      q.count < q.capacity
      → out.0 ≡ ok
      → (v : QueueInfo) → NamesQueue out.1 queue_id v
      → contents v ≡ contents q ++ (e ∷ [])
      → Sent s queue_id q e out
  full : q.capacity ≤ q.count → out ≡ (ebusy, s) → Sent s queue_id q e out

put_back-Sent :
    (s : State) (id : ℕ) (q : QueueInfo) (e : Event)
    → Good s
    → NamesQueue s id q
    → Sent s id q e (put_back s id ebusy (event_queue_push q e))
unfolding put_back
put_back-Sent s id q e w c = elim (Bool-cases (leb q.capacity q.count)) [
  | inl no_room ↦
      let le : q.capacity ≤ q.count = ground arith in
      rw (event_queue_push_full q e le) (full le refl)
  | inr room ↦
      let lt : q.count < q.capacity = ground arith in
      go lt (event_queue_push q e) (event_queue_push_lem q e (w.rings (id - 1) q c.entry c.live) lt)
        (push_kept q e).0
]
  where
    go :
        q.count < q.capacity
        → (out : Bool × QueueInfo)
        → (out.0 ≡ true) × (contents out.1 ≡ contents q ++ (e ∷ [])) × IsQueue out.1
        → out.1.active ≡ q.active
        → Sent s id q e (put_back s id ebusy out)
    go lt (true, v) (_, grown, _) same =
        delivered lt refl v
          (record {
            low = c.low;
            high = c.high;
            entry = get_elem?-set_self s.queues (id - 1) v (get_elem?_lt s.queues (id - 1) c.entry);
            live = same ∙ c.live;
          })
          grown
    go lt (false, v) (h, _, _) same = ground arith

-- A send on an active port that is connected to an active queue puts the event behind those that
-- wait there and returns CELL_OK, if the queue has room; else it returns CELL_EBUSY and changes
-- nothing. The tables satisfy their invariant.
pub sys_event_port_send_lem :
    (s : State) (id data1 data2 data3 : ℕ) (p : PortInfo) (q : QueueInfo)
    → IsValid s.queues s.ports
    → NamesPort s id p
    → NamesQueue s p.connected_queue q
    → Sent s p.connected_queue q
        (event_of id p data1 data2 data3)
        (sys_event_port_send s id data1 data2 data3)
sys_event_port_send_lem s id data1 data2 data3 p q w n c =
    rw (send_lem s id data1 data2 data3 p q n c)
      (put_back-Sent s p.connected_queue q (event_of id p data1 data2 data3) w c)

try_receive_live :
    (s : State) (id event_addr max_count count_addr : ℕ) (q : QueueInfo)
    → NamesQueue s id q
    → let out = drain_loop (at_most max_count) 0 q s.mem event_addr in
      sys_event_queue_tryreceive s id event_addr max_count count_addr ≡ (
        ok,
        record s { queues = set s.queues (id - 1) out.1; mem = write_out out.2 count_addr out.0 },
      )
unfolding sys_event_queue_tryreceive try_receive
try_receive_live s id event_addr max_count count_addr q c =
    let in_range : bad_handle id queue_max ≡ false = ground (arith, c.low, c.high) in
    rw (in_range, c.entry, c.live) refl

-- `sys_event_queue_tryreceive` on an active queue takes the oldest events, as many as asked for and
-- waiting, writes them in order from `event_addr` on and their number at `count_addr`, and leaves the
-- rest in order. A negative count asks for none. The tables satisfy their invariant.
pub sys_event_queue_tryreceive_lem :
    (s : State) (id event_addr max_count count_addr : ℕ) (q : QueueInfo)
    → IsValid s.queues s.ports
    → NamesQueue s id q
    → let n = at_most max_count in
      let out = sys_event_queue_tryreceive s id event_addr max_count count_addr in
      (out.0 ≡ ok)
      × (out.1.mem
          ≡ write_out
              (write_events s.mem event_addr 0 (take n (contents q)))
              count_addr
              (min n q.count))
      × ((v : QueueInfo) × (get_elem? out.1.queues (id - 1) ≡ some v)
          × (contents v ≡ drop n (contents q)))
sys_event_queue_tryreceive_lem s id event_addr max_count count_addr q w c =
    let d =
      drain_loop_lem (at_most max_count) 0 q s.mem event_addr (w.rings (id - 1) q c.entry c.live) in
    let told : (drain_loop (at_most max_count) 0 q s.mem event_addr).0
        ≡ min (at_most max_count) q.count =
      omega (arith, d.told) in
    rw (try_receive_live s id event_addr max_count count_addr q c) (
      refl,
      rw (told, d.written) refl,
      (_, get_elem?-set_self s.queues (id - 1) _ (get_elem?_lt s.queues (id - 1) c.entry), d.rest),
    )

get_elem?-map :
    (id : ℕ) (ports : List PortInfo) (i : ℕ) {p : PortInfo}
    → get_elem? ports i ≡ some p
    → get_elem? (map (disconnect_from id) ports) i ≡ some (disconnect_from id p)
get_elem?-map id [] i e = ground arith
get_elem?-map id (q ∷ ports) zero {p} e =
    let same : q ≡ p = cc in ap (λ x. some (disconnect_from id x)) same
get_elem?-map id (q ∷ ports) (suc i) e = get_elem?-map id ports i e

-- A destruction that succeeds sweeps the ports.
destroy_ports :
    (s : State) (id mode : ℕ) (o : Option QueueInfo)
    → (destroy_queue s id mode o).0 ≡ ok
    → (destroy_queue s id mode o).1.ports ≡ map (disconnect_from id) s.ports
unfolding destroy_queue
destroy_ports s id mode none h = ground arith
destroy_ports s id mode (some q) h = ground arith

sys_event_queue_destroy_ports :
    (s : State) (id mode : ℕ)
    → (sys_event_queue_destroy s id mode).0 ≡ ok
    → (sys_event_queue_destroy s id mode).1.ports ≡ map (disconnect_from id) s.ports
unfolding sys_event_queue_destroy
sys_event_queue_destroy_ports s id mode h =
    ground (arith, destroy_ports s id mode (get_elem? s.queues (id - 1)))

send_unconnected :
    (t : State) (id data1 data2 data3 : ℕ) (p : PortInfo)
    → NamesPort t id p
    → p.connected_queue ≡ 0
    → sys_event_port_send t id data1 data2 data3 ≡ (enotconn, t)
unfolding sys_event_port_send send
send_unconnected t id data1 data2 data3 p n e =
    let in_range : bad_handle id port_max ≡ false = ground (arith, n.low, n.high) in
    rw (in_range, n.entry, n.live, e) refl

-- Destroying a queue cuts off the ports that were connected to it: once `sys_event_queue_destroy` has
-- returned CELL_OK, a send on such a port returns CELL_ENOTCONN and changes nothing, so it cannot
-- reach a queue that is given the same handle later.
pub send-destroy :
    (s : State) (port_id queue_id mode data1 data2 data3 : ℕ) (p : PortInfo)
    → NamesPort s port_id p
    → p.connected_queue ≡ queue_id
    → (sys_event_queue_destroy s queue_id mode).0 ≡ ok
    → let t = (sys_event_queue_destroy s queue_id mode).1 in
      sys_event_port_send t port_id data1 data2 data3 ≡ (enotconn, t)
send-destroy s port_id queue_id mode data1 data2 data3 p n linked h =
    let matched : (p.active && (p.connected_queue == queue_id)) ≡ true = ground (arith, n.live) in
    send_unconnected (sys_event_queue_destroy s queue_id mode).1 port_id data1 data2 data3
      (disconnect_from queue_id p)
      (record {
        low = n.low;
        high = n.high;
        entry =
            rw (sys_event_queue_destroy_ports s queue_id mode h)
              (get_elem?-map queue_id s.ports (port_id - 1) n.entry);
        live = rw matched n.live;
      })
      (swept_off queue_id p matched)

-- ===== src/Lv2/Event/Tests.antt =====
-- runtime/syscalls/sys_event.c at concrete inputs: a queue of four events with the key 7, and a port
-- connected to it.
use yakuza_dead_souls_ex.Prelude.{◌^◌, ◌≡◌, refl, true, some, List, [], ◌∷◌, arith, min}
use yakuza_dead_souls_ex.Prelude.Lists.{get_elem?, take, drop, find_index}
use yakuza_dead_souls_ex.Guest.{ok, ebusy, ecanceled, enotconn, Memory, write_out}
use yakuza_dead_souls_ex.Lv2.Event.{
  QueueInfo, PortInfo, FlagInfo, State, sys_event_init, fresh_queue, create_queue, put_queue,
  destroy_queue, sys_event_queue_create, sys_event_find_queue_by_key, sys_event_queue_destroy,
  sys_event_queue_tryreceive, event_queue_push,
}
use yakuza_dead_souls_ex.Lv2.Event.Ports.{
  sys_event_port_create, put_port, sys_event_port_connect_local, connect_port, sys_event_port_send,
  event_of, send, push_active, put_back,
}
use yakuza_dead_souls_ex.Lv2.Event.Fifo.{contents, write_events}
use yakuza_dead_souls_ex.Lv2.Event.Invariant.{IsValid}
use yakuza_dead_souls_ex.Lv2.Event.Invariant.Runs.{
  Call, queue_create, port_create, port_connect, port_send, run, run_all, init-run_all,
}
use yakuza_dead_souls_ex.Lv2.Event.Delivery.{
  NamesPort, NamesQueue, Sent, sys_event_port_send_lem, sys_event_queue_tryreceive_lem,
  send-destroy,
}
use yakuza_dead_souls_ex.Lv2.Event.{free_queue}
use yakuza_dead_souls_ex.Lv2.Event.Receive.{asleep, receive_begin, begin_at, receive_look}
use yakuza_dead_souls_ex.Lv2.Event.Recycling.{look-recreate}
use yakuza_dead_souls_ex.Lv2.Event.Keys.{sys_event_find_queue_by_key_lem}
use yakuza_dead_souls_ex.Lv2.Event.Flags.{
  flag_check, returned, parked, leave, write_pattern, flag_wait_begin, flag_wait_look,
  sys_event_flag_cancel, sys_event_flag_set_by_id, sys_event_flag_trywait, try_wait,
}
use yakuza_dead_souls_ex.Lv2.Event.Flags.Calls.{Names}
use yakuza_dead_souls_ex.Lv2.Event.Flags.Waiters.{outside, inside, Machine}
use yakuza_dead_souls_ex.Lv2.Event.Flags.Laws.{look-set, look-cancel, trywait-trywait}

abbrev zeros : Memory
zeros = λ _. 0

abbrev set_up : List Call
set_up =
    queue_create 0x100 0 7 4 ∷ port_create 0x104 0 ∷ port_connect 1 1 ∷ port_send 1 10 20 30 ∷ []

abbrev busy : State
busy = run_all set_up (sys_event_init zeros)

abbrev the_port : PortInfo
the_port = record { active = true; name = 0; connected_queue = 1 }

init-run_all_example : IsValid busy.queues busy.ports
init-run_all_example = init-run_all zeros set_up

port_named : NamesPort busy 1 the_port
unfolding run_all run create_queue put_queue put_port connect_port send push_active put_back
    event_queue_push find_index sys_event_queue_create sys_event_port_create
    sys_event_port_connect_local sys_event_port_send
port_named = record { low = omega arith; high = omega arith; entry = refl; live = refl }

abbrev the_queue : QueueInfo
the_queue = (event_queue_push (fresh_queue 7 4) (event_of 1 the_port 10 20 30)).1

the_key : the_queue.key ≡ 7
unfolding event_queue_push
the_key = refl

queue_named : NamesQueue busy 1 the_queue
unfolding run_all run create_queue put_queue put_port connect_port send push_active put_back
    event_queue_push event_of find_index sys_event_queue_create sys_event_port_create
    sys_event_port_connect_local sys_event_port_send
queue_named = record { low = omega arith; high = omega arith; entry = refl; live = refl }

sys_event_port_send_lem_example :
    Sent busy 1 the_queue (event_of 1 the_port 1 2 3) (sys_event_port_send busy 1 1 2 3)
sys_event_port_send_lem_example =
    sys_event_port_send_lem busy 1 1 2 3 the_port the_queue (init-run_all zeros set_up) port_named
      queue_named

sys_event_queue_tryreceive_lem_example :
    let out = sys_event_queue_tryreceive busy 1 0x200 3 0x300 in
    (out.0 ≡ ok)
    × (out.1.mem
        ≡ write_out
            (write_events busy.mem 0x200 0 (take 3 (contents the_queue)))
            0x300
            (min 3 the_queue.count))
    × ((v : QueueInfo) × (get_elem? out.1.queues 0 ≡ some v)
        × (contents v ≡ drop 3 (contents the_queue)))
sys_event_queue_tryreceive_lem_example =
    sys_event_queue_tryreceive_lem busy 1 0x200 3 0x300 the_queue (init-run_all zeros set_up)
      queue_named

destroyed : (sys_event_queue_destroy busy 1 1).0 ≡ ok
unfolding destroy_queue run_all run create_queue put_queue put_port connect_port send push_active
    put_back event_queue_push event_of find_index sys_event_queue_create sys_event_port_create
    sys_event_port_connect_local sys_event_port_send sys_event_queue_destroy
destroyed = refl

send-destroy_example :
    let t = (sys_event_queue_destroy busy 1 1).1 in sys_event_port_send t 1 1 2 3 ≡ (enotconn, t)
send-destroy_example = send-destroy busy 1 1 1 1 2 3 the_port port_named refl destroyed

sys_event_find_queue_by_key_lem_example : sys_event_find_queue_by_key busy the_queue.key ≡ 1
sys_event_find_queue_by_key_lem_example =
    sys_event_find_queue_by_key_lem busy 0 the_queue (init-run_all zeros set_up) queue_named.entry
      queue_named.live (omega (arith, the_key))

slot_free :
    find_index free_queue (sys_event_queue_destroy (receive_begin busy 1).1 1 1).1.queues ≡ some 0
unfolding destroy_queue run_all run create_queue put_queue put_port connect_port send push_active
    put_back event_queue_push event_of find_index sys_event_queue_create sys_event_port_create
    sys_event_port_connect_local sys_event_port_send sys_event_queue_destroy receive_begin begin_at
slot_free = refl

look-recreate_example :
    let dead = sys_event_queue_destroy (receive_begin busy 1).1 1 1 in
    let t = (sys_event_queue_create dead.1 0x100 0 0 4).1 in
    (dead.0 ≡ ok) × ((receive_look t 1 0x200).0 ≡ asleep) × ((sys_event_queue_destroy t 1 0).0 ≡ ok)
look-recreate_example =
    look-recreate busy 1 0x100 4 0x200 the_queue queue_named slot_free (omega arith) (omega arith)

-- A flag with two bits set and one waiter.
abbrev the_flag : FlagInfo
the_flag = record { active = true; waiter_type = 2 ^ 17; pattern = 6; waiters = 1; cancel_gen = 3 }

abbrev flagged : State
flagged = record { queues = []; ports = []; flags = the_flag ∷ []; mem = zeros }

flag_named : Names flagged 1 the_flag
flag_named = record { low = omega arith; high = omega arith; entry = refl; live = refl }

look-set_example :
    ((sys_event_flag_set_by_id flagged 1 8).0 ≡ ok)
    × ((g : FlagInfo) × (get_elem? (sys_event_flag_set_by_id flagged 1 8).1.flags 0 ≡ some g)
        × ((flag_wait_look g zeros 3 8 1 0x200).0 ≡ returned ok)
        × ((flag_wait_look g zeros 3 8 1 0x200).1.waiters ≡ 0))
look-set_example = look-set flagged 1 8 1 0x200 the_flag zeros flag_named (omega arith)

look-cancel_example :
    let t = (sys_event_flag_cancel flagged 1 0x100).1 in
    ((sys_event_flag_cancel flagged 1 0x100).0 ≡ ok)
    × (t.mem ≡ write_out zeros 0x100 1)
    × ((g : FlagInfo) × (get_elem? t.flags 0 ≡ some g)
        × (flag_wait_look g zeros 3 8 1 0x200
            ≡ (returned ecanceled, leave g, write_pattern zeros 0x200 6))
        × ((flag_wait_begin t 1).0 ≡ parked g.cancel_gen)
        × ((flag_wait_look g zeros g.cancel_gen 8 1 0x200).0
            ≡ (flag_wait_look the_flag zeros 3 8 1 0x200).0))
look-cancel_example = look-cancel flagged 1 0x100 8 1 0x200 the_flag zeros flag_named (omega arith)

-- Two threads, of which the first begins a wait on a flag that nobody waits on.
abbrev quiet_flag : FlagInfo
quiet_flag = record the_flag { waiters = 0 }

abbrev two_outside : Machine
two_outside = record {
  state = record flagged { flags = quiet_flag ∷ [] };
  threads = outside ∷ outside ∷ [];
}

abbrev one_inside : Machine
one_inside = record { state = flagged; threads = inside 3 8 1 0x200 ∷ outside ∷ [] }

waited : (sys_event_flag_trywait flagged 1 2 0x11 0x200).0 ≡ ok
unfolding sys_event_flag_trywait try_wait flag_check
waited = refl

second_trywait_busy :
    let t = (sys_event_flag_trywait flagged 1 2 0x11 0x200).1 in
    (sys_event_flag_trywait t 1 2 0x11 0x200).0 ≡ ebusy
second_trywait_busy =
    trywait-trywait flagged 1 2 0x11 0x200 the_flag flag_named (omega arith) (omega arith) refl
      waited

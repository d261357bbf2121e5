-- ===== src/Lv2/Event.antt =====
-- runtime/syscalls/sys_event.c: the event queues. Ports and flags, on the same state, are in
-- `Event.Ports` and `Event.Flags`.
--
-- A handler's work under the table lock or a queue's lock is one function. A blocking call is cut at
-- its sleeps: it begins, looks at the queue each time it is awake, and ends by one of the looks or by
-- its timeout. Handles are read as unsigned; a signed argument is its bit pattern.
pub mod Ports
pub mod Flags
pub mod Fifo
pub mod Receive
pub mod Invariant
pub mod Delivery
pub mod Keys
pub mod Recycling
mod Tests
use yakuza_dead_souls_ex.Prelude.{
  ℕ, zero, suc, ◌+◌, ◌-◌, ◌*◌, ◌/◌, ◌%◌, ◌^◌, Bool, true, false, not, ◌&&◌, ◌||◌, Option, none,
  some, List,
}
use mathlib.Core.List.{map}
use yakuza_dead_souls_ex.Prelude.Tests.{◌==◌, ltb, leb, if◌then◌else◌}
use yakuza_dead_souls_ex.Prelude.Lists.{get_elem?, set, find_index, replicate, get_or}
use yakuza_dead_souls_ex.Guest.{
  Status, ok, eagain, einval, esrch, ebusy, etimedout, ecanceled, eexist, Memory, u32, write_out,
  write_be64, vm_read32,
}

-- `sys_event_t`
pub record Event : Type 0 where
  pub source : ℕ
  pub data1 : ℕ
  pub data2 : ℕ
  pub data3 : ℕ

abbrev pub no_event : Event
no_event = record { source = 0; data1 = 0; data2 = 0; data3 = 0 }

-- `sys_event_queue_info`; the host's lock and condition variable keep no number.
pub record QueueInfo : Type 0 where
  pub active : Bool
  pub key : ℕ
  pub buffer : List Event
  pub capacity : ℕ
  pub head : ℕ
  pub tail : ℕ
  pub count : ℕ
  pub waiters : ℕ
  pub force_destroyed : Bool

-- `sys_event_port_info`; `connected_queue` is a handle, 0 for none.
pub record PortInfo : Type 0 where
  pub active : Bool
  pub name : ℕ
  pub connected_queue : ℕ

-- `sys_event_flag_info`
pub record FlagInfo : Type 0 where
  pub active : Bool
  pub waiter_type : ℕ
  pub pattern : ℕ
  pub waiters : ℕ
  pub cancel_gen : ℕ

pub record State : Type 0 where
  pub queues : List QueueInfo
  pub ports : List PortInfo
  pub flags : List FlagInfo
  pub mem : Memory

abbrev pub queue_max : ℕ
queue_max = 128

abbrev pub queue_buf_max : ℕ
queue_buf_max = 127

abbrev pub port_max : ℕ
port_max = 256

abbrev pub flag_max : ℕ
flag_max = 256

abbrev pub bad_handle : ℕ → ℕ → Bool
bad_handle id max = (id == 0) || ltb max id

-- `> 0` of an `int`
abbrev pub positive : ℕ → Bool
positive n = ltb 0 n && ltb n (2 ^ 31)

abbrev pub free_queue : QueueInfo → Bool
free_queue q = not q.active

abbrev pub has_key : ℕ → QueueInfo → Bool
has_key key q = q.active && (q.key == key)

-- SYS_SYNC_FIFO and SYS_SYNC_PRIORITY; SYS_PPU_QUEUE and SYS_SPU_QUEUE
abbrev pub good_protocol : ℕ → Bool
good_protocol p = (p == 1) || (p == 2)

abbrev pub good_type : ℕ → Bool
good_type t = (t == 1) || (t == 2)

abbrev pub fresh_queue : ℕ → ℕ → QueueInfo
fresh_queue key size = record {
  active = true;
  key = key;
  buffer = replicate queue_buf_max no_event;
  capacity = size;
  head = 0;
  tail = 0;
  count = 0;
  waiters = 0;
  force_destroyed = false;
}

abbrev pub is_found : Option ℕ → Bool
is_found none = false
is_found (some _) = true

abbrev pub no_queue : QueueInfo
no_queue = record {
  active = false;
  key = 0;
  buffer = replicate queue_buf_max no_event;
  capacity = 0;
  head = 0;
  tail = 0;
  count = 0;
  waiters = 0;
  force_destroyed = false;
}

abbrev pub no_port : PortInfo
no_port = record { active = false; name = 0; connected_queue = 0 }

-- `sys_event_init`: the tables are cleared.
abbrev pub sys_event_init : Memory → State
sys_event_init m = record {
  queues = replicate queue_max no_queue;
  ports = replicate port_max no_port;
  flags =
      replicate flag_max
        (record { active = false; waiter_type = 0; pattern = 0; waiters = 0; cancel_gen = 0 });
  mem = m;
}

-- The new queue in the free slot that was found.
unfoldable pub put_queue : State → ℕ → ℕ → ℕ → Option ℕ → Status × State
put_queue s id_out_addr key size none = (eagain, s)
put_queue s id_out_addr key size (some slot) = (
  ok,
  record s {
    queues = set s.queues slot (fresh_queue key size);
    mem = write_out s.mem id_out_addr (slot + 1);
  },
)

-- A named key that is taken is refused; then the first free slot.
unfoldable pub create_queue : State → ℕ → ℕ → ℕ → Status × State
create_queue s id_out_addr key size =
    if not (key == 0) && is_found (find_index (has_key key) s.queues)
    then (eexist, s)
    else put_queue s id_out_addr key size (find_index free_queue s.queues)

-- The attribute's protocol and type, the defaults where the pointer is null.
abbrev pub attr_word : Memory → ℕ → ℕ → ℕ → ℕ
attr_word m attr_addr offset default =
    if attr_addr == 0 then default else vm_read32 m (attr_addr + offset)

pub sys_event_queue_create : State → ℕ → ℕ → ℕ → ℕ → Status × State
unfolding create_queue
sys_event_queue_create s id_out_addr attr_addr key size =
    if (size == 0) || leb (2 ^ 31) size || ltb queue_buf_max size
    then (einval, s)
    else if not (good_protocol (attr_word s.mem attr_addr 0 1))
    then (einval, s)
    else if not (good_type (attr_word s.mem attr_addr 4 1))
    then (einval, s)
    else create_queue s id_out_addr key size

-- The sweep over the ports: whoever is connected to the handle is disconnected.
abbrev pub disconnect_from : ℕ → PortInfo → PortInfo
disconnect_from id p =
    if p.active && (p.connected_queue == id) then record p { connected_queue = 0 } else p

unfoldable pub destroy_queue : State → ℕ → ℕ → Option QueueInfo → Status × State
destroy_queue s id mode none = (esrch, s)
destroy_queue s id mode (some q) =
    if not q.active then (esrch, s) else if (mode == 0) && positive q.waiters then (ebusy, s) else (
      ok,
      record s {
        queues =
            set s.queues (id - 1)
              (record q { active = false; force_destroyed = (mode == 1) || q.force_destroyed });
        ports = map (disconnect_from id) s.ports;
      },
    )

pub sys_event_queue_destroy : State → ℕ → ℕ → Status × State
unfolding destroy_queue
sys_event_queue_destroy s id mode =
    if bad_handle id queue_max
    then (esrch, s)
    else if not (mode == 0) && not (mode == 1)
    then (einval, s)
    else destroy_queue s id mode (get_elem? s.queues (id - 1))

-- `event_queue_push`: -1 when full, `false` here.
unfoldable pub event_queue_push : QueueInfo → Event → Bool × QueueInfo
event_queue_push q e = if leb q.capacity q.count then (false, q) else (
  true,
  record q {
    buffer = set q.buffer q.tail e;
    tail = (q.tail + 1) % q.capacity;
    count = q.count + 1;
  },
)

-- The oldest event, and the queue without it: the three lines that both receive calls share.
unfoldable pub take_event : QueueInfo → Event × QueueInfo
take_event q = (
  get_or q.buffer q.head no_event,
  record q { head = (q.head + 1) % q.capacity; count = q.count - 1 },
)

-- The four big-endian words of an event
unfoldable pub write_event : Memory → ℕ → Event → Memory
write_event m addr e =
    write_be64
      (write_be64 (write_be64 (write_be64 m addr e.source) (addr + 8) e.data1) (addr + 16) e.data2)
      (addr + 24) e.data3

abbrev pub write_event_out : Memory → ℕ → Event → Memory
write_event_out m addr e = if addr == 0 then m else write_event m addr e

-- The loop of `sys_event_queue_tryreceive`, by the number of events that may still be taken.
unfoldable pub drain_loop : ℕ → ℕ → QueueInfo → Memory → ℕ → ℕ × QueueInfo × Memory
unfolding take_event
drain_loop zero received q m addr = (received, q, m)
drain_loop (suc n) received q m addr =
    let (e, q') = take_event q in
    let m' = if addr == 0 then m else write_event m (u32 (addr + u32 (received * 32))) e in
    let rest = drain_loop n (received + 1) q' m' addr in
    if ltb 0 q.count then rest else (received, q, m)

-- A negative count receives nothing.
abbrev pub at_most : ℕ → ℕ
at_most max_count = if leb (2 ^ 31) max_count then 0 else max_count

unfoldable pub try_receive : State → ℕ → ℕ → ℕ → ℕ → Option QueueInfo → Status × State
try_receive s id event_addr max_count count_addr none = (esrch, s)
try_receive s id event_addr max_count count_addr (some q) =
    if not q.active
    then (esrch, s)
    else let (received, q', m') = drain_loop (at_most max_count) 0 q s.mem event_addr in
      (ok, record s { queues = set s.queues (id - 1) q'; mem = write_out m' count_addr received })

pub sys_event_queue_tryreceive : State → ℕ → ℕ → ℕ → ℕ → Status × State
sys_event_queue_tryreceive s id event_addr max_count count_addr =
    if bad_handle id queue_max
    then (esrch, s)
    else try_receive s id event_addr max_count count_addr (get_elem? s.queues (id - 1))

unfoldable pub drain_queue : State → ℕ → Option QueueInfo → Status × State
drain_queue s id none = (esrch, s)
drain_queue s id (some q) = if not q.active then (esrch, s) else (
  ok,
  record s { queues = set s.queues (id - 1) (record q { head = 0; tail = 0; count = 0 }) },
)

pub sys_event_queue_drain : State → ℕ → Status × State
unfolding drain_queue
sys_event_queue_drain s id =
    if bad_handle id queue_max then (esrch, s) else drain_queue s id (get_elem? s.queues (id - 1))

pub sys_event_find_queue_by_key : State → ℕ → ℕ
sys_event_find_queue_by_key s key =
    if key == 0
    then 0
    else elim (find_index (has_key key) s.queues) [ none ↦ 0 | some slot ↦ slot + 1 ]

-- ===== src/Lv2/Event/Receive.antt =====
-- runtime/syscalls/sys_event.c: `sys_event_queue_receive`, cut at its sleeps.
--
-- `receive_begin` counts the caller in, `receive_look` is what it does each time it is awake with the
-- queue's lock, and `receive_timeout` is the end of a timed sleep that ran out. The code looks once more in
-- the same critical section as it counts the caller in, and takes an event that is there at once; here
-- every call sleeps first and may look at any later time, so that other calls may come in between, which
-- the code excludes. `waiters` is 32 bits wide.
use yakuza_dead_souls_ex.Prelude.{ℕ, ◌+◌, ◌-◌, ◌^◌, not, ◌&&◌, ◌||◌, Option, none, some}
use yakuza_dead_souls_ex.Prelude.Tests.{◌==◌, if◌then◌else◌}
use yakuza_dead_souls_ex.Prelude.Lists.{get_elem?, set}
use yakuza_dead_souls_ex.Guest.{Status, esrch, etimedout, ecanceled, Memory, u32}
use yakuza_dead_souls_ex.Lv2.Event.{
  Event, QueueInfo, State, bad_handle, queue_max, take_event, write_event_out,
}

-- A call sleeps, fails, or gets an event, which it also returns in the registers r4 to r7.
pub data Received : Type 0 where
  asleep : Received
  failed : Status → Received
  got : Event → Received

unfoldable pub begin_at : State → ℕ → Option QueueInfo → Received × State
begin_at s id none = (failed esrch, s)
begin_at s id (some q) = if not q.active then (failed esrch, s) else (
  asleep,
  record s { queues = set s.queues (id - 1) (record q { waiters = u32 (q.waiters + 1) }) },
)

unfoldable pub receive_begin : State → ℕ → Received × State
receive_begin s id =
    if bad_handle id queue_max
    then (failed esrch, s)
    else begin_at s id (get_elem? s.queues (id - 1))

-- `q->waiters--`
abbrev pub leave : QueueInfo → QueueInfo
leave q = record q { waiters = u32 (q.waiters + 2 ^ 32 - 1) }

unfoldable pub deliver : Event × QueueInfo → Memory → ℕ → Received × QueueInfo × Memory
deliver (e, q) m event_addr = (got e, q, write_event_out m event_addr e)

unfoldable pub look_at : QueueInfo → Memory → ℕ → Received × QueueInfo × Memory
look_at q m event_addr =
    if (q.count == 0) && q.active
    then (asleep, q, m)
    else if not q.active || (q.count == 0)
    then (failed (if q.force_destroyed then ecanceled else esrch), leave q, m)
    else deliver (take_event (leave q)) m event_addr

unfoldable pub put_look : State → ℕ → Received × QueueInfo × Memory → Received × State
put_look s id (r, q, m) = (r, record s { queues = set s.queues (id - 1) q; mem = m })

-- The caller holds a pointer to the slot since `receive_begin`, so the slot is there.
unfoldable pub look_in : State → ℕ → ℕ → Option QueueInfo → Received × State
look_in s id event_addr none = (failed esrch, s)
look_in s id event_addr (some q) = put_look s id (look_at q s.mem event_addr)

unfoldable pub receive_look : State → ℕ → ℕ → Received × State
receive_look s id event_addr = look_in s id event_addr (get_elem? s.queues (id - 1))

unfoldable pub time_out : State → ℕ → Option QueueInfo → Received × State
time_out s id none = (failed etimedout, s)
time_out s id (some q) = (failed etimedout, record s { queues = set s.queues (id - 1) (leave q) })

unfoldable pub receive_timeout : State → ℕ → Received × State
receive_timeout s id = time_out s id (get_elem? s.queues (id - 1))

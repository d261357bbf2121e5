-- ===== src/Lv2/Event/Flags.antt =====
-- runtime/syscalls/sys_event.c: the event flags.
--
-- `sys_event_flag_wait` is cut at its sleeps: `flag_wait_begin` counts the caller in and takes its
-- snapshot of the cancel generation, `flag_wait_look` is what it does each time it is awake with the
-- flag's lock, and `flag_wait_timeout` is the end of a sleep that ran out. The counters `waiters` and
-- `cancel_gen` are 32 bits wide.
pub mod Calls
pub mod Laws
pub mod Waiters
pub mod Counting
pub mod Pinned
use Prim.Native.Nat.{bit_and, bit_or}
use yakuza_dead_souls_ex.Prelude.{
  ℕ, ◌+◌, ◌-◌, ◌*◌, ◌/◌, ◌%◌, ◌^◌, Bool, true, false, not, ◌&&◌, ◌||◌, Option, none, some, List,
}
use yakuza_dead_souls_ex.Prelude.Tests.{◌==◌, ltb, if◌then◌else◌}
use yakuza_dead_souls_ex.Prelude.Lists.{get_elem?, set, find_index}
use yakuza_dead_souls_ex.Guest.{
  Status, ok, eagain, einval, esrch, ebusy, etimedout, ecanceled, Memory, u32, write_out,
  write_be64,
}
use yakuza_dead_souls_ex.Lv2.Event.{
  FlagInfo, State, bad_handle, flag_max, good_protocol, attr_word, positive,
}

abbrev pub free_flag : FlagInfo → Bool
free_flag f = not f.active

-- SYS_SYNC_WAITER_SINGLE and SYS_SYNC_WAITER_MULTIPLE
abbrev pub good_waiter_type : ℕ → Bool
good_waiter_type t = (t == 2 ^ 16) || (t == 2 ^ 17)

unfoldable pub put_flag : State → ℕ → ℕ → ℕ → Option ℕ → Status × State
put_flag s id_out_addr attr_addr init_pattern none = (eagain, s)
put_flag s id_out_addr attr_addr init_pattern (some slot) =
    if not (good_protocol (attr_word s.mem attr_addr 0 1))
      || not (good_waiter_type (attr_word s.mem attr_addr 20 (2 ^ 17)))
    then (einval, s)
    else (
      ok,
      record s {
        flags = set s.flags slot (record {
          active = true;
          waiter_type = attr_word s.mem attr_addr 20 (2 ^ 17);
          pattern = init_pattern;
          waiters = 0;
          cancel_gen = 0;
        });
        mem = write_out s.mem id_out_addr (slot + 1);
      },
    )

pub sys_event_flag_create : State → ℕ → ℕ → ℕ → Status × State
sys_event_flag_create s id_out_addr attr_addr init_pattern =
    put_flag s id_out_addr attr_addr init_pattern (find_index free_flag s.flags)

unfoldable pub destroy_flag : State → ℕ → Option FlagInfo → Status × State
destroy_flag s id none = (esrch, s)
destroy_flag s id (some f) =
    if not f.active
    then (esrch, s)
    else if positive f.waiters
    then (ebusy, s)
    else (ok, record s { flags = set s.flags (id - 1) (record f { active = false }) })

pub sys_event_flag_destroy : State → ℕ → Status × State
sys_event_flag_destroy s id =
    if bad_handle id flag_max then (esrch, s) else destroy_flag s id (get_elem? s.flags (id - 1))

-- SYS_EVENT_FLAG_WAIT_AND, and the two ways to clear
abbrev pub wants_all : ℕ → Bool
wants_all mode = not (bit_and mode 1 == 0)

abbrev pub clears : ℕ → Bool
clears mode = not (bit_and mode 16 == 0)

abbrev pub clears_all : ℕ → Bool
clears_all mode = not (bit_and mode 32 == 0)

unfoldable pub flag_check : ℕ → ℕ → ℕ → Bool
flag_check pattern bitpat mode =
    if wants_all mode then bit_and pattern bitpat == bitpat else not (bit_and pattern bitpat == 0)

-- `~bitpat` of 64 bits
abbrev pub complement : ℕ → ℕ
complement bitpat = 2 ^ 64 - 1 - bitpat

-- The pattern that a wait whose condition holds leaves behind.
unfoldable pub after_wait : ℕ → ℕ → ℕ → ℕ
after_wait pattern bitpat mode =
    if clears mode
    then bit_and pattern (complement bitpat)
    else if clears_all mode
    then 0
    else pattern

abbrev pub write_pattern : Memory → ℕ → ℕ → Memory
write_pattern m addr pattern = if addr == 0 then m else write_be64 m addr pattern

-- Whether a call has an answer, or sleeps.
pub data Waiting : Type 0 where
  asleep : Waiting
  returned : Status → Waiting

-- The call is counted in, and keeps the cancel generation it saw.
pub data Begun : Type 0 where
  refused : Status → Begun
  parked : ℕ → Begun

unfoldable pub wait_begin : State → ℕ → Option FlagInfo → Begun × State
wait_begin s id none = (refused esrch, s)
wait_begin s id (some f) = if not f.active then (refused esrch, s) else (
  parked f.cancel_gen,
  record s { flags = set s.flags (id - 1) (record f { waiters = u32 (f.waiters + 1) }) },
)

unfoldable pub flag_wait_begin : State → ℕ → Begun × State
flag_wait_begin s id =
    if bad_handle id flag_max
    then (refused esrch, s)
    else wait_begin s id (get_elem? s.flags (id - 1))

-- `f->waiters--`
abbrev pub leave : FlagInfo → FlagInfo
leave f = record f { waiters = u32 (f.waiters + 2 ^ 32 - 1) }

unfoldable pub flag_wait_look : FlagInfo → Memory → ℕ → ℕ → ℕ → ℕ → Waiting × FlagInfo × Memory
flag_wait_look f m snap bitpat mode result_addr =
    if not (flag_check f.pattern bitpat mode) && f.active && (f.cancel_gen == snap)
    then (asleep, f, m)
    else if not (f.cancel_gen == snap)
    then (returned ecanceled, leave f, write_pattern m result_addr f.pattern)
    else (
      returned ok,
      record (leave f) { pattern = after_wait f.pattern bitpat mode },
      write_pattern m result_addr f.pattern,
    )

-- A timed sleep that ran out: the loop condition held, so the flag is as the caller left it.
unfoldable pub flag_wait_timeout : FlagInfo → Memory → ℕ → Waiting × FlagInfo × Memory
flag_wait_timeout f m result_addr =
    (returned etimedout, leave f, write_pattern m result_addr f.pattern)

unfoldable pub try_wait : State → ℕ → ℕ → ℕ → ℕ → Option FlagInfo → Status × State
try_wait s id bitpat mode result_addr none = (esrch, s)
try_wait s id bitpat mode result_addr (some f) =
    if not f.active
    then (esrch, s)
    else if not (flag_check f.pattern bitpat mode)
    then (ebusy, record s { mem = write_pattern s.mem result_addr f.pattern })
    else (
      ok,
      record s {
        flags = set s.flags (id - 1) (record f { pattern = after_wait f.pattern bitpat mode });
        mem = write_pattern s.mem result_addr f.pattern;
      },
    )

unfoldable pub sys_event_flag_trywait : State → ℕ → ℕ → ℕ → ℕ → Status × State
sys_event_flag_trywait s id bitpat mode result_addr =
    if bad_handle id flag_max
    then (esrch, s)
    else try_wait s id bitpat mode result_addr (get_elem? s.flags (id - 1))

-- One flag, changed under its lock; `sys_event_flag_set`, `_clear` and `_cancel` differ in the change.
unfoldable pub change_flag : State → ℕ → (FlagInfo → FlagInfo) → Option FlagInfo → Status × State
change_flag s id change none = (esrch, s)
change_flag s id change (some f) =
    if not f.active then (esrch, s) else (ok, record s { flags = set s.flags (id - 1) (change f) })

abbrev pub on_flag : State → ℕ → (FlagInfo → FlagInfo) → Status × State
on_flag s id change =
    if bad_handle id flag_max
    then (esrch, s)
    else change_flag s id change (get_elem? s.flags (id - 1))

pub sys_event_flag_set_by_id : State → ℕ → ℕ → Status × State
sys_event_flag_set_by_id s id bitpat =
    on_flag s id (λ f. record f { pattern = bit_or f.pattern bitpat })

pub sys_event_flag_clear : State → ℕ → ℕ → Status × State
sys_event_flag_clear s id bitpat =
    on_flag s id (λ f. record f { pattern = bit_and f.pattern bitpat })

unfoldable pub get_flag : State → ℕ → Option FlagInfo → Status × State
get_flag s out_addr none = (esrch, s)
get_flag s out_addr (some f) =
    if not f.active
    then (esrch, s)
    else (ok, record s { mem = write_pattern s.mem out_addr f.pattern })

pub sys_event_flag_get : State → ℕ → ℕ → Status × State
sys_event_flag_get s id out_addr =
    if bad_handle id flag_max then (esrch, s) else get_flag s out_addr (get_elem? s.flags (id - 1))

unfoldable pub cancel_flag : State → ℕ → ℕ → Option FlagInfo → Status × State
cancel_flag s id num_ea none = (esrch, s)
cancel_flag s id num_ea (some f) = if not f.active then (esrch, s) else (
  ok,
  record s {
    flags = set s.flags (id - 1) (record f { cancel_gen = u32 (f.cancel_gen + 1) });
    mem = write_out s.mem num_ea f.waiters;
  },
)

pub sys_event_flag_cancel : State → ℕ → ℕ → Status × State
sys_event_flag_cancel s id num_ea =
    if bad_handle id flag_max
    then (esrch, s)
    else cancel_flag s id num_ea (get_elem? s.flags (id - 1))

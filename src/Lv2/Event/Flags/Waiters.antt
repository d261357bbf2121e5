-- ===== src/Lv2/Event/Flags/Waiters.antt =====
-- runtime/syscalls/sys_event.c: threads that use one event flag, each call of `sys_event_flag_wait` in its
-- parts, interleaved with all the other calls on the handle.
use yakuza_dead_souls_ex.Prelude.{ℕ, ◌-◌, ◌≡◌, some, List}
use yakuza_dead_souls_ex.Prelude.Lists.{get_elem?, set}
use yakuza_dead_souls_ex.Guest.{Memory}
use yakuza_dead_souls_ex.Lv2.Event.{FlagInfo, State}
use yakuza_dead_souls_ex.Lv2.Event.Flags.{
  Waiting, asleep, returned, parked, flag_wait_begin, flag_wait_look, flag_wait_timeout,
  sys_event_flag_create, sys_event_flag_destroy, sys_event_flag_trywait, sys_event_flag_set_by_id,
  sys_event_flag_clear, sys_event_flag_get, sys_event_flag_cancel,
}

-- A thread is outside, or inside a wait, with its snapshot of the cancel generation and its arguments.
pub data Pc : Type 0 where
  outside : Pc
  inside : (snap bitpat mode result_addr : ℕ) → Pc

pub record Machine : Type 0 where
  pub state : State
  pub threads : List Pc

-- Where a look leads.
abbrev pub after : Pc → Waiting → Pc
after pc asleep = pc
after pc (returned status) = outside

-- A thread's work on the flag of the handle `id`.
abbrev pub place : Machine → ℕ → ℕ → Pc → FlagInfo → Memory → Machine
place m id t pc f mem = record {
  state = record m.state { flags = set m.state.flags (id - 1) f; mem = mem };
  threads = set m.threads t pc;
}

-- A sleep runs out only while the condition of the loop holds.
pub data Step (id : ℕ) (m : Machine) : Machine → Type 0 where
  begin :
      (t : ℕ) {snap : ℕ} {s : State} (bitpat mode result_addr : ℕ)
      → get_elem? m.threads t ≡ some outside
      → flag_wait_begin m.state id ≡ (parked snap, s)
      → Step id m
          (record { state = s; threads = set m.threads t (inside snap bitpat mode result_addr) })
  look :
      (t : ℕ) {snap bitpat mode result_addr : ℕ} (f : FlagInfo)
      → get_elem? m.threads t ≡ some (inside snap bitpat mode result_addr)
      → get_elem? m.state.flags (id - 1) ≡ some f
      → Step id m (
          place m id t
            (after
              (inside snap bitpat mode result_addr)
              (flag_wait_look f m.state.mem snap bitpat mode result_addr).0)
            (flag_wait_look f m.state.mem snap bitpat mode result_addr).1
            (flag_wait_look f m.state.mem snap bitpat mode result_addr).2)
  time_out :
      (t : ℕ) {snap bitpat mode result_addr : ℕ} (f : FlagInfo)
      → get_elem? m.threads t ≡ some (inside snap bitpat mode result_addr)
      → get_elem? m.state.flags (id - 1) ≡ some f
      → (flag_wait_look f m.state.mem snap bitpat mode result_addr).0 ≡ asleep
      → Step id m (
          place m id t
            (after
              (inside snap bitpat mode result_addr)
              (flag_wait_timeout f m.state.mem result_addr).0)
            (flag_wait_timeout f m.state.mem result_addr).1
            (flag_wait_timeout f m.state.mem result_addr).2)
  create :
      (id_out_addr attr_addr init_pattern : ℕ)
      → Step id m (record m {
        state = (sys_event_flag_create m.state id_out_addr attr_addr init_pattern).1;
      })
  destroy : Step id m (record m { state = (sys_event_flag_destroy m.state id).1 })
  trywait :
      (bitpat mode result_addr : ℕ)
      → Step id m
          (record m { state = (sys_event_flag_trywait m.state id bitpat mode result_addr).1 })
  set_bits :
      (bitpat : ℕ) → Step id m (record m { state = (sys_event_flag_set_by_id m.state id bitpat).1 })
  clear_bits :
      (bitpat : ℕ) → Step id m (record m { state = (sys_event_flag_clear m.state id bitpat).1 })
  get_bits :
      (out_addr : ℕ) → Step id m (record m { state = (sys_event_flag_get m.state id out_addr).1 })
  cancel :
      (num_ea : ℕ) → Step id m (record m { state = (sys_event_flag_cancel m.state id num_ea).1 })

pub data Reach (id : ℕ) (m : Machine) : Machine → Type 0 where
  start : Reach id m m
  step : {m' m'' : Machine} → Reach id m m' → Step id m' m'' → Reach id m m''

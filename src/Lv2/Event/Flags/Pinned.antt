-- ===== src/Lv2/Event/Flags/Pinned.antt =====
-- runtime/syscalls/sys_event.c: a flag that threads wait on is not destroyed, over all interleavings.
use yakuza_dead_souls_ex.Prelude.{ℕ, ◌+◌, ◌-◌, ◌≡◌, true, some}
use yakuza_dead_souls_ex.Prelude.Lists.{get_elem?, set}
use yakuza_dead_souls_ex.Guest.{u32}
use yakuza_dead_souls_ex.Lv2.Event.{FlagInfo, State}

-- What `flag_wait_begin` has done when it does not fail.
record Begins (s : State) (id : ℕ) (s' : State) : Type 0 where
  f : FlagInfo
  entry : get_elem? s.flags (id - 1) ≡ some f
  on : f.active ≡ true
  grown : s'.flags ≡ set s.flags (id - 1) (record f { waiters = u32 (f.waiters + 1) })

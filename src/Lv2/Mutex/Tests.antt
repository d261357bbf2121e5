-- ===== src/Lv2/Mutex/Tests.antt =====
-- A host lock that keeps its promises, and a run: thread 1 locks, and thread 2 tries.
use yakuza_dead_souls_ex.Prelude.{
  ℕ, ◌+◌, ◌-◌, ◌<◌, ◌≡◌, refl, ◌≢◌, ◌||◌, true, false, Option, none, some, arith,
}
use yakuza_dead_souls_ex.Prelude.Tests.{◌==◌, if◌then◌else◌}
use yakuza_dead_souls_ex.Lv2.Mutex.{HostLock, taken}
use yakuza_dead_souls_ex.Lv2.Mutex.Threads.{
  idle, entering, entered, attempting, lock_call, lock_enter, lock_done, trylock_call, System,
  move_to, Step, act, Reach, start, after,
}
use yakuza_dead_souls_ex.Lv2.Mutex.Ownership.{owner_keeps}

record Section : Type 0 where
  owner : ℕ
  count : ℕ

abbrev entries : Section → ℕ → ℕ
entries s t = if s.owner == t then s.count else 0

abbrev try_entries : Section → ℕ → Option Section
try_entries s t =
    if (s.count == 0) || (s.owner == t)
    then some (record { owner = t; count = entries s t + 1 })
    else none

abbrev close : Section → ℕ → Section
close s t = record s { count = s.count - 1 }

entries_fresh : (t : ℕ) → entries (record { owner = 0; count = 0 }) t ≡ 0
entries_fresh t = ground arith

entries_try : (s s' : Section) (t : ℕ) → try_entries s t ≡ some s' → entries s' t ≡ entries s t + 1
entries_try s s' t e = ground arith

entries_alone :
    (s s' : Section) (t u : ℕ)
    → try_entries s t ≡ some s'
    → u ≢ t
    → (entries s u ≡ 0) × (entries s' u ≡ 0)
entries_alone s s' t u e ne = (ground arith, ground arith)

entries_busy :
    (s : Section) (t : ℕ) → try_entries s t ≡ none → (u : ℕ) × (u ≢ t) × (0 < entries s u)
entries_busy s t e = (s.owner, ground arith, ground arith)

entries-close : (s : Section) (t : ℕ) → 0 < entries s t → entries (close s t) t + 1 ≡ entries s t
entries-close s t pos = ground arith

entries_others :
    (s : Section) (t u : ℕ) → 0 < entries s t → u ≢ t → entries (close s t) u ≡ entries s u
entries_others s t u pos ne = ground arith

abbrev critical_section : HostLock
critical_section = record {
  State = Section;
  fresh = record { owner = 0; count = 0 };
  try_enter = try_entries;
  leave = close;
  depth = entries;
  depth-fresh = entries_fresh;
  depth-enter = λ {s} {s'} {t} e. entries_try s s' t e;
  enter-alone = λ {s} {s'} {t} {u} e ne. entries_alone s s' t u e ne;
  enter-busy = λ {s} {t} e. entries_busy s t e;
  depth-leave = λ {s} {t} pos. entries-close s t pos;
  leave-others = λ {s} {t} {u} pos ne. entries_others s t u pos ne;
}

abbrev locked : System critical_section
locked = record {
  info = record { active = true; recursive = false; owner_tid = 1; lock_count = 1; cond_count = 0 };
  host = record { owner = 1; count = 1 };
  pc =
      move_to critical_section
        (move_to critical_section (move_to critical_section (λ _. idle) 1 entering) 1 entered) 1
        idle;
}

abbrev tried : System critical_section
tried = record {
  info = locked.info;
  host = locked.host;
  pc = move_to critical_section locked.pc 2 attempting;
}

locked-Reach : Reach critical_section false 3 locked
unfolding taken
locked-Reach =
    after {t = 1}
      (after {t = 1} (after {t = 1} start (act (λ z. omega (arith, z)) (lock_call refl)))
        (act (λ z. omega (arith, z)) (lock_enter refl)))
      (act (λ z. omega (arith, z)) lock_done)

second_tries : Step critical_section locked 2 tried
second_tries = act (λ z. omega (arith, z)) (trylock_call refl refl)

owner_keeps_example :
    (tried.info.owner_tid ≡ 1)
    × (tried.info.lock_count ≡ locked.info.lock_count)
    × (0 < critical_section.depth tried.host 1)
owner_keeps_example =
    owner_keeps critical_section (omega arith) locked-Reach second_tries 1 (omega arith)
      (omega arith) refl

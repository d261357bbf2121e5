-- ===== src/Sync/Ticket/Tests.antt =====
-- The ticket mutex at a concrete run: thread 0 locks, and thread 1 queues behind it.
use yakuza_dead_souls_ex.Prelude.{ℕ, ◌≡◌, refl, ◌≢◌, ◌⊎◌, none, some, arith}
use yakuza_dead_souls_ex.Guest.{bswap32}
use yakuza_dead_souls_ex.Sync.Ticket.{
  u16, serving, next, lock_desired, unlock_desired, locking, spinning, critical, unlocking,
  lock_load, lock_take, enter, unlock_load, System, move_to, Step, act, initial, Reach, start,
  after,
}
use yakuza_dead_souls_ex.Sync.Ticket.Invariant.{place}
use yakuza_dead_souls_ex.Sync.Ticket.Safety.{
  Holds, mutual_exclusion, unlock_never_stat, no_deadlock, NotBehind, no_overtaking,
}

-- The stored word after one ticket is taken, and after two.
abbrev one_out : ℕ
one_out = 0x100_0000

abbrev two_out : ℕ
two_out = 0x200_0000

abbrev loaded : System
loaded = record { word = 0; pc = move_to initial.pc 0 (locking 0) }

abbrev ticketed : System
ticketed = record { word = one_out; pc = move_to loaded.pc 0 (spinning 0) }

abbrev held : System
held = record { word = one_out; pc = move_to ticketed.pc 0 critical }

abbrev second_loaded : System
second_loaded = record { word = one_out; pc = move_to held.pc 1 (locking one_out) }

abbrev queued : System
queued = record { word = two_out; pc = move_to second_loaded.pc 1 (spinning 1) }

abbrev releasing : System
releasing = record { word = two_out; pc = move_to queued.pc 0 (unlocking two_out) }

ticketed-Reach : Reach ticketed
unfolding lock_desired bswap32
ticketed-Reach =
    after (after start (act 0 0 (locking 0) lock_load))
      (act 0 one_out (spinning 0) (lock_take refl refl))

enter_step : Step ticketed held
unfolding bswap32
enter_step = act 0 one_out critical (enter refl)

queued-Reach : Reach queued
unfolding lock_desired bswap32
queued-Reach =
    after (after (after ticketed-Reach enter_step) (act 1 one_out (locking one_out) lock_load))
      (act 1 two_out (spinning 1) (lock_take refl refl))

releasing-Reach : Reach releasing
releasing-Reach = after queued-Reach (act 0 two_out (unlocking two_out) unlock_load)

mutual_exclusion_example : ◌≡◌ {A = ℕ} 0 0
mutual_exclusion_example = mutual_exclusion queued-Reach 0 0 tt tt

unlock_never_stat_example : unlock_desired two_out ≢ none
unlock_never_stat_example = unlock_never_stat releasing-Reach 0 two_out refl

tickets_out : serving two_out ≢ next two_out
unfolding bswap32
tickets_out = omega arith

no_deadlock_example :
    (i : ℕ) × (Holds (queued.pc i)
      ⊎ ((t : ℕ) × (queued.pc i ≡ spinning t) × (serving two_out ≡ u16 t)))
no_deadlock_example = no_deadlock queued-Reach tickets_out

first_in_line : place (serving one_out) (ticketed.pc 0) ≡ some 0
unfolding bswap32
first_in_line = refl

no_overtaking_example : NotBehind (place (serving one_out) (held.pc 0)) 0
no_overtaking_example = no_overtaking ticketed-Reach enter_step 0 0 first_in_line

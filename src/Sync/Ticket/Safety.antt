-- ===== src/Sync/Ticket/Safety.antt =====
-- What a client of the ticket mutex may rely on, for any number of threads and any interleaving.
use mathlib.Core.Option
use yakuza_dead_souls_ex.Prelude.{
  ℕ, ◌+◌, ◌-◌, ◌^◌, ◌≤◌, ◌<◌, ◌≡◌, refl, sym, ◌∙◌, ap, subst, ◌≢◌, ◌⊎◌, inl, inr, Option, none,
  some, arith,
}
use yakuza_dead_souls_ex.Prelude.Tests.{◌==◌, Bool-cases}
use yakuza_dead_souls_ex.Sync.Ticket.{
  u16, serving, next, unlock_desired, Pc, idle, spinning, critical, unlocking, System, Step, act,
  Reach,
}
use yakuza_dead_souls_ex.Sync.Ticket.Words.{halves_lt}
use yakuza_dead_souls_ex.Sync.Ticket.Invariant.{
  Inv, Loaded, place, Effect, stay, join, leave, Reach-Inv, Move-Effect, place_next, moved_self,
  moved_other, unlock_succeeds,
}

-- From the return of Lock or TryLock to the exchange of Unlock.
abbrev pub Holds : Pc → Type 0
Holds critical = Unit {0}
Holds (unlocking _) = Unit {0}
Holds _ = ⊥

Holds-first : (c : ℕ) (p : Pc) → Holds p → place c p ≡ some 0
Holds-first c critical h = refl
Holds-first c (unlocking _) h = refl
Holds-first c idle h = absurd h
Holds-first c (Pc.locking _) h = absurd h
Holds-first c (spinning _) h = absurd h
Holds-first c (Pc.trying _) h = absurd h

-- Two threads never hold the mutex at once. The number of threads is not bounded: Lock refuses when
-- 0xffff tickets are out, so that the 16-bit ticket never wraps onto one that is still waited for.
pub mutual_exclusion : {s : System} → Reach s → (i j : ℕ) → Holds (s.pc i) → Holds (s.pc j) → i ≡ j
mutual_exclusion {s} r i j hi hj =
    (Reach-Inv r).line.unique i j 0 (Holds-first (serving s.word) (s.pc i) hi)
      (Holds-first (serving s.word) (s.pc j) hj)

-- Unlock by the holder never fails with CELL_SYNC_ERROR_STAT.
pub unlock_never_stat :
    {s : System} → Reach s → (i r : ℕ) → s.pc i ≡ unlocking r → unlock_desired r ≢ none
unlock_never_stat {s} reach i r e =
    let l : Loaded (unlocking r) = subst Loaded e ((Reach-Inv reach).loaded i) in
    unlock_succeeds r l

first_is_ready :
    (c : ℕ) (p : Pc)
    → c < 2 ^ 16
    → place c p ≡ some 0
    → Holds p ⊎ ((t : ℕ) × (p ≡ spinning t) × (c ≡ u16 t))
first_is_ready c critical h first = inl tt
first_is_ready c (unlocking _) h first = inl tt
first_is_ready c (spinning t) h first =
    let z : u16 (u16 t + 2 ^ 16 - c) ≡ 0 = ground arith in inr (t, refl, omega arith)
first_is_ready c idle h first = cc
first_is_ready c (Pc.locking _) h first = cc
first_is_ready c (Pc.trying _) h first = cc

-- No deadlock: while a ticket is out, some thread holds the mutex, or spins with the very ticket that
-- is served and so enters on its next access.
pub no_deadlock :
    {s : System}
    → Reach s
    → serving s.word ≢ next s.word
    → (i : ℕ) × (Holds (s.pc i) ⊎ ((t : ℕ) × (s.pc i ≡ spinning t) × (serving s.word ≡ u16 t)))
no_deadlock {s} reach out =
    let (i, first) = (Reach-Inv reach).line.covered 0 (omega (arith, halves_lt s.word)) in
    (i, first_is_ready (serving s.word) (s.pc i) (halves_lt s.word).0 first)

-- What a step leaves a thread with that has `k` tickets before its own.
abbrev pub NotBehind : Option ℕ → ℕ → Type 0
NotBehind o k = ((k ≡ 0) × (o ≡ none)) ⊎ ((k' : ℕ) × (o ≡ some k') × (k' ≤ k))

mover-NotBehind :
    (m w k : ℕ) (p q : Pc)
    → Effect m w p q
    → place (serving m) p ≡ some k
    → NotBehind (place (serving w) q) k
mover-NotBehind m w k p q (stay e same) h = inr (k, rw e (same ∙ h), omega arith)
mover-NotBehind m w k p q (join s n out last) h = ground (arith, out, h)
mover-NotBehind m w k p q (leave s n first gone) h = inl (ground (arith, first, h), gone)

other-NotBehind :
    (m w k : ℕ) (p q o : Pc)
    → Effect m w p q
    → place (serving m) o ≡ some k
    → (place (serving m) p ≡ some 0 → place (serving m) o ≢ some 0)
    → NotBehind (place (serving w) o) k
other-NotBehind m w k p q o (stay e same) h apart = inr (k, rw e h, omega arith)
other-NotBehind m w k p q o (join s n out last) h apart = inr (k, rw s h, omega arith)
other-NotBehind m w k p q o (leave s n first gone) h apart = inr (
  k - 1,
  rw s (place_next (serving m) o (halves_lt m).0 (apart first) ∙ ap (Option.map (λ t. t - 1)) h),
  omega arith,
)

-- First come, first served: no step puts a waiting thread further back, and a thread leaves the line
-- only when no ticket is before its own.
pub no_overtaking :
    {s t : System}
    → Reach s
    → Step s t
    → (j k : ℕ) → place (serving s.word) (s.pc j) ≡ some k
    → NotBehind (place (serving t.word) (t.pc j)) k
no_overtaking {s} reach (act i w p mv) j k e = elim (Bool-cases (j == i)) [
  | inl here ↦
      let eq : j ≡ i = ground arith in
      rw (eq, moved_self s.pc i p)
        (mover-NotBehind s.word w k (s.pc i) p effect
          (ap (λ x. place (serving s.word) (s.pc x)) (sym eq) ∙ e))
  | inr other ↦
      let ne : j ≢ i = ground arith in
      rw (moved_other s.pc i j p ne) (
        other-NotBehind s.word w k (s.pc i) p (s.pc j) effect e
          (λ first z. ne (v.line.unique j i 0 z first)))
]
  where
    v : Inv s
    v = Reach-Inv reach

    effect : Effect s.word w (s.pc i) p
    effect = Move-Effect mv (v.loaded i)

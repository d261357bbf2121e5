-- ===== src/Sync/Barrier/Stages.antt =====
-- The stages that a barrier goes through, and the participants in each.
use yakuza_dead_souls_ex.Prelude.{
  ℕ, zero, suc, ◌+◌, ◌^◌, ◌≤◌, ◌<◌, ◌≡◌, sym, ◌∙◌, subst, ◌≢◌, inl, inr, some, List, arith,
}
use yakuza_dead_souls_ex.Prelude.Lists.{
  length, get_elem?, set, total, total-set, total-le-length, length-set, get_elem?-set_self,
  get_elem?-set_ne, get_elem?-set_cases, get_elem?_lt,
}
use yakuza_dead_souls_ex.Sync.Barrier.{
  Barrier, Pc, outside, resetting, advancing, notified, spinning, System,
}

-- Participants that have arrived in the first round, and at most those that wait in the second.
abbrev pub busy : Pc → ℕ
busy outside = 0
busy _ = 1

abbrev pub late : Pc → ℕ
late outside = 0
late (spinning zero) = 0
late _ = 1

-- Where a participant can stand before all have arrived, once all have, and in the second round.
abbrev pub First : Pc → Type 0
First outside = Unit {0}
First notified = Unit {0}
First (spinning p) = p ≡ 0
First _ = ⊥

abbrev pub Met : Pc → Type 0
Met notified = Unit {0}
Met (spinning p) = p ≡ 0
Met _ = ⊥

abbrev pub Second : Pc → Type 0
Second outside = Unit {0}
Second notified = Unit {0}
Second (spinning p) = p ≤ 1
Second _ = ⊥

-- The last participant of the first round, on the way to the second phase.
abbrev pub Left : Pc → Type 0
Left notified = Unit {0}
Left (spinning p) = p ≡ 1
Left _ = ⊥

abbrev pub Others : (Pc → Type 0) → List Pc → ℕ → Type 0
Others P threads i = (j : ℕ) (q : Pc) → j ≢ i → get_elem? threads j ≡ some q → P q

pub data Stage (b : Barrier) (threads : List Pc) : Type 0 where
  gathering :
      b.phase ≡ 0
      → b.arrived ≡ total busy threads
      → b.arrived < b.total
      → ((j : ℕ) (q : Pc) → get_elem? threads j ≡ some q → First q)
      → Stage b threads
  complete :
      b.phase ≡ 0
      → (i : ℕ) → get_elem? threads i ≡ some resetting
      → Others Met threads i
      → Stage b threads
  turning :
      b.phase ≡ 0
      → b.arrived ≡ 0
      → (i : ℕ) → get_elem? threads i ≡ some advancing
      → Others Met threads i
      → Stage b threads
  left_behind :
      b.phase ≡ 1
      → b.arrived + 1 ≤ total late threads
      → (i : ℕ) (p : Pc) → get_elem? threads i ≡ some p
      → Left p
      → Others Second threads i
      → Stage b threads

pub record Inv (s : System) : Type 0 where
  pub few : s.barrier.total < 2 ^ 16
  pub some_one : 0 < s.barrier.total
  pub all : length s.threads ≡ s.barrier.total
  pub stage : Stage s.barrier s.threads

busy-le : (p : Pc) → busy p ≤ 1
busy-le outside = omega arith
busy-le resetting = omega arith
busy-le advancing = omega arith
busy-le notified = omega arith
busy-le (spinning p) = omega arith

pub late-le : (p : Pc) → late p ≤ 1
late-le outside = omega arith
late-le resetting = omega arith
late-le advancing = omega arith
late-le notified = omega arith
late-le (spinning zero) = omega arith
late-le (spinning (suc p)) = omega arith

-- With everyone busy, nobody is outside.
pub all_in :
    (threads : List Pc) (j : ℕ) (q : Pc)
    → total busy threads ≡ length threads
    → get_elem? threads j ≡ some q
    → First q
    → Met q
all_in threads j outside full e f = absurd (
    omega (
      arith,
      full,
      total-set busy threads j notified e,
      length-set threads j notified,
      total-le-length busy (set threads j notified) busy-le,
    ))
all_in threads j resetting full e f = absurd f
all_in threads j advancing full e f = absurd f
all_in threads j notified full e f = tt
all_in threads j (spinning p) full e f = f

module _ (threads : List Pc) (i : ℕ) {p : Pc} (p' : Pc) (e : get_elem? threads i ≡ some p) where
  pub moved : get_elem? (set threads i p') i ≡ some p'
  moved = get_elem?-set_self threads i p' (get_elem?_lt threads i e)

  -- The participants but the one that moved.
  pub Others-after : (P : Pc → Type 0) → Others P threads i → Others P (set threads i p') i
  Others-after P rest j q ne eq =
      rest j q ne (sym (get_elem?-set_ne threads i j p' (λ o. ne (sym o))) ∙ eq)

  -- One of the others moved.
  pub Others-moved :
      (P : Pc → Type 0) (k : ℕ) → Others P threads k → P p' → Others P (set threads i p') k
  Others-moved P k rest ok j q ne eq = elim (get_elem?-set_cases threads i j p' eq) [
    | inl (same, isq) ↦ subst P (sym isq) ok
    | inr (other, old) ↦ rest j q ne old
  ]

  pub owner_stays :
      {r : Pc} (k : ℕ)
      → i ≢ k
      → get_elem? threads k ≡ some r
      → get_elem? (set threads i p') k ≡ some r
  owner_stays k ne r = get_elem?-set_ne threads i k p' ne ∙ r

-- ===== src/Sync/Barrier/First.antt =====
-- The first round: every participant arrives, and the last resets the barrier.
use yakuza_dead_souls_ex.Prelude.{
  ℕ, ◌^◌, ◌<◌, ◌≡◌, refl, sym, ap, ◌∙◌, subst, ◌≢◌, ◌⊎◌, inl, inr, some, List, arith,
}
use yakuza_dead_souls_ex.Prelude.Tests.{◌==◌, Bool-cases}
use yakuza_dead_souls_ex.Prelude.Lists.{
  length, get_elem?, set, total, total-set, le-total, length-set, get_elem?-set_ne,
  get_elem?-set_cases,
}
use yakuza_dead_souls_ex.Sync.Barrier.{
  Barrier, Pc, outside, resetting, advancing, notified, spinning, Move, arrive, arrive_last, reset,
  advance, wait_load, spin, pass,
}
use yakuza_dead_souls_ex.Sync.Barrier.Stages.{
  busy, late, First, Met, Second, Others, Stage, gathering, complete, turning, left_behind, all_in,
  moved, Others-after, Others-moved, owner_stays,
}

-- A thread that moves is the one that a stage singles out, or one of the others.
pub mover :
    (threads : List Pc) (i k : ℕ) {p r : Pc} (P : Pc → Type 0)
    → get_elem? threads i ≡ some p
    → get_elem? threads k ≡ some r
    → Others P threads k
    → ((i ≡ k) × (p ≡ r)) ⊎ ((i ≢ k) × P p)
mover threads i k {p} P ei ek rest = elim (Bool-cases (i == k)) [
  | inl same ↦
      let e : i ≡ k = ground arith in inl (e, ground (arith, ei, ek, ap (get_elem? threads) e))
  | inr other ↦ let ne : i ≢ k = ground arith in inr (ne, rest i p ne ei)
]

Met-Second : (q : Pc) → Met q → Second q
Met-Second outside m = tt
Met-Second resetting m = absurd m
Met-Second advancing m = absurd m
Met-Second notified m = tt
Met-Second (spinning p) m = omega (arith, m)

module _ (b : Barrier) (threads : List Pc) (few : b.total < 2 ^ 16) (all : length threads ≡ b.total)
    (i : ℕ) where
  pub gathering-Stage :
      {p p' : Pc} {b' : Barrier}
      → get_elem? threads i ≡ some p
      → b.phase ≡ 0
      → b.arrived ≡ total busy threads
      → b.arrived < b.total
      → ((j : ℕ) (q : Pc) → get_elem? threads j ≡ some q → First q)
      → Move b p b' p'
      → Stage b' (set threads i p')
  gathering-Stage e z n lt fs (arrive less) =
      gathering z (omega (arith, n, few, total-set busy threads i notified e)) less (λ j q eq.
        elim (get_elem?-set_cases threads i j notified eq) [
          | inl (same, isq) ↦ subst First (sym isq) tt
          | inr (ne, old) ↦ fs j q old
        ])
  gathering-Stage e z n lt fs (arrive_last full) =
      let everyone : total busy (set threads i resetting) ≡ length (set threads i resetting) =
        omega (
          arith,
          n,
          lt,
          full,
          all,
          few,
          total-set busy threads i resetting e,
          length-set threads i resetting,
        ) in
      complete z i (moved threads i resetting e) (λ j q ne eq.
        all_in (set threads i resetting) j q everyone eq
          (fs j q (sym (get_elem?-set_ne threads i j resetting (λ o. ne (sym o))) ∙ eq)))
  gathering-Stage e z n lt fs reset = absurd (fs i resetting e)
  gathering-Stage e z n lt fs advance = absurd (fs i advancing e)
  gathering-Stage e z n lt fs wait_load =
      gathering z (omega (arith, n, total-set busy threads i (spinning b.phase) e)) lt (λ j q eq.
        elim (get_elem?-set_cases threads i j (spinning b.phase) eq) [
          | inl (same, isq) ↦ subst First (sym isq) z
          | inr (ne, old) ↦ fs j q old
        ])
  gathering-Stage e z n lt fs (spin {p = k} same) =
      gathering z (omega (arith, n, total-set busy threads i (spinning k) e)) lt (λ j q eq.
        elim (get_elem?-set_cases threads i j (spinning k) eq) [
          | inl (at, isq) ↦ subst First (sym isq) (sym same ∙ z)
          | inr (ne, old) ↦ fs j q old
        ])
  gathering-Stage e z n lt fs (pass {p = k} changed) =
      absurd (changed (z ∙ sym (fs i (spinning k) e)))

  pub complete-Stage :
      {p p' : Pc} {b' : Barrier} (k : ℕ)
      → get_elem? threads i ≡ some p
      → b.phase ≡ 0
      → get_elem? threads k ≡ some resetting
      → Others Met threads k
      → ((i ≡ k) × (p ≡ resetting)) ⊎ ((i ≢ k) × Met p)
      → Move b p b' p'
      → Stage b' (set threads i p')
  complete-Stage k e z own rest (inl (at, is)) (arrive less) = cc
  complete-Stage k e z own rest (inl (at, is)) (arrive_last full) = cc
  complete-Stage k e z own rest (inl (at, is)) reset =
      turning z refl i (moved threads i advancing e)
        (Others-after threads i advancing e Met (subst (Others Met threads) (sym at) rest))
  complete-Stage k e z own rest (inl (at, is)) advance = cc
  complete-Stage k e z own rest (inl (at, is)) wait_load = cc
  complete-Stage k e z own rest (inl (at, is)) (spin same) = cc
  complete-Stage k e z own rest (inl (at, is)) (pass changed) = cc
  complete-Stage k e z own rest (inr (ne, m)) (arrive less) = absurd m
  complete-Stage k e z own rest (inr (ne, m)) (arrive_last full) = absurd m
  complete-Stage k e z own rest (inr (ne, m)) reset = absurd m
  complete-Stage k e z own rest (inr (ne, m)) advance = absurd m
  complete-Stage k e z own rest (inr (ne, m)) wait_load =
      complete z k (owner_stays threads i (spinning b.phase) e k ne own)
        (Others-moved threads i (spinning b.phase) e Met k rest z)
  complete-Stage k e z own rest (inr (ne, m)) (spin {p} same) =
      complete z k (owner_stays threads i (spinning p) e k ne own)
        (Others-moved threads i (spinning p) e Met k rest m)
  complete-Stage k e z own rest (inr (ne, m)) (pass changed) = absurd (changed (z ∙ sym m))

  pub turning-Stage :
      {p p' : Pc} {b' : Barrier} (k : ℕ)
      → get_elem? threads i ≡ some p
      → b.phase ≡ 0
      → b.arrived ≡ 0
      → get_elem? threads k ≡ some advancing
      → Others Met threads k
      → ((i ≡ k) × (p ≡ advancing)) ⊎ ((i ≢ k) × Met p)
      → Move b p b' p'
      → Stage b' (set threads i p')
  turning-Stage k e z a own rest (inl (at, is)) (arrive less) = cc
  turning-Stage k e z a own rest (inl (at, is)) (arrive_last full) = cc
  turning-Stage k e z a own rest (inl (at, is)) reset = cc
  turning-Stage k e z a own rest (inl (at, is)) advance =
      left_behind (omega (arith, z))
        (omega (arith, a, le-total late (set threads i notified) i (moved threads i notified e))) i
        notified (moved threads i notified e) tt
        (λ j q ne eq. Met-Second q (
          Others-after threads i notified e Met (subst (Others Met threads) (sym at) rest) j q ne
            eq))
  turning-Stage k e z a own rest (inl (at, is)) wait_load = cc
  turning-Stage k e z a own rest (inl (at, is)) (spin same) = cc
  turning-Stage k e z a own rest (inl (at, is)) (pass changed) = cc
  turning-Stage k e z a own rest (inr (ne, m)) (arrive less) = absurd m
  turning-Stage k e z a own rest (inr (ne, m)) (arrive_last full) = absurd m
  turning-Stage k e z a own rest (inr (ne, m)) reset = absurd m
  turning-Stage k e z a own rest (inr (ne, m)) advance = absurd m
  turning-Stage k e z a own rest (inr (ne, m)) wait_load =
      turning z a k (owner_stays threads i (spinning b.phase) e k ne own)
        (Others-moved threads i (spinning b.phase) e Met k rest z)
  turning-Stage k e z a own rest (inr (ne, m)) (spin {p} same) =
      turning z a k (owner_stays threads i (spinning p) e k ne own)
        (Others-moved threads i (spinning p) e Met k rest m)
  turning-Stage k e z a own rest (inr (ne, m)) (pass changed) = absurd (changed (z ∙ sym m))

-- ===== src/Sync/Barrier/Deadlock.antt =====
-- A barrier completes one round.
use yakuza_dead_souls_ex.Prelude.{
  ℕ, zero, suc, ◌^◌, ◌<◌, ◌≡◌, refl, sym, subst, ◌⊎◌, inl, inr, some, arith,
}
use yakuza_dead_souls_ex.Prelude.Lists.{
  length, get_elem?, replicate, total, total-le-length, length-set, length-replicate,
  get_elem?-replicate,
}
use yakuza_dead_souls_ex.Sync.Barrier.{
  Barrier, barrier_initialize, Pc, outside, Move, arrive, arrive_last, reset, advance, wait_load,
  spin, pass, System, act, Reach, start, after,
}
use yakuza_dead_souls_ex.Sync.Barrier.Stages.{
  busy, late, late-le, First, Left, Stage, gathering, complete, turning, left_behind, Inv,
}
use yakuza_dead_souls_ex.Sync.Barrier.Rounds.{Move-Stage}

total-Move : {b b' : Barrier} {p p' : Pc} → Move b p b' p' → b'.total ≡ b.total
total-Move (arrive _) = refl
total-Move (arrive_last _) = refl
total-Move reset = refl
total-Move advance = refl
total-Move wait_load = refl
total-Move (spin _) = refl
total-Move (pass _) = refl

total-outside : (n : ℕ) → total busy (replicate n outside) ≡ 0
unfolding total
total-outside zero = refl
total-outside (suc n) = omega (arith, total-outside n)

initialized :
    (n : ℕ) {b : Barrier}
    → barrier_initialize n ≡ some b
    → (b.arrived ≡ 0) × (b.phase ≡ 0) × (b.total ≡ n) × (0 < n)
unfolding barrier_initialize
initialized n e = (ground arith, ground arith, ground arith, ground arith)

pub Reach-Inv :
    (n : ℕ) {b : Barrier} {s : System}
    → n < 2 ^ 16
    → barrier_initialize n ≡ some b
    → Reach b s
    → Inv s
Reach-Inv n {b} word e start =
    let (arrived, phase, all, pos) = initialized n e in
    record {
      few = omega (arith, all);
      some_one = omega (arith, all);
      all = length-replicate b.total outside;
      stage =
          gathering phase (omega (arith, arrived, total-outside b.total))
            (omega (arith, all, arrived))
            (λ j q eq. subst First (sym (get_elem?-replicate b.total outside j eq)) tt);
    }
Reach-Inv n word e (after {s} r (act i {p} {p'} eq m)) =
    let inv = Reach-Inv n word e r in
    let same = total-Move m in
    record {
      few = omega (arith, inv.few, same);
      some_one = omega (arith, inv.some_one, same);
      all = omega (arith, inv.all, same, length-set s.threads i p');
      stage = Move-Stage s.barrier s.threads i inv.few inv.all eq inv.stage m;
    }

-- A participant that has arrived, and that leaves Wait only when the phase is no longer 1.
abbrev pub IsLeftBehind : System → ℕ → Type 0
IsLeftBehind s i = (p : Pc) × (get_elem? s.threads i ≡ some p) × Left p

Stage-bound :
    {s : System}
    → Stage s.barrier s.threads
    → (s.barrier.phase ≡ 0)
      ⊎ ((s.barrier.phase ≡ 1)
          × (s.barrier.arrived < length s.threads)
          × ((i : ℕ) × IsLeftBehind s i))
Stage-bound (gathering z _ _ _) = inl z
Stage-bound (complete z _ _ _) = inl z
Stage-bound (turning z _ _ _ _) = inl z
Stage-bound {s} (left_behind z a i p own l _) =
    inr (z, omega (arith, a, total-le-length late s.threads late-le), (i, (p, own, l)))

-- A barrier made for `n` participants that each call Notify and then Wait, over and over, completes
-- one round at most, however the accesses interleave: the phase never passes 1, and from then on some
-- participant is in Wait, or about to load the phase for it, for a change of the phase that never
-- comes, while fewer than `n` arrivals are counted.
pub barrier_one_round :
    (n : ℕ) {b : Barrier} {s : System}
    → n < 2 ^ 16
    → barrier_initialize n ≡ some b
    → Reach b s
    → (s.barrier.phase ≡ 0)
      ⊎ ((s.barrier.phase ≡ 1)
          × (s.barrier.arrived < length s.threads)
          × ((i : ℕ) × IsLeftBehind s i))
barrier_one_round n word e r = Stage-bound (Reach-Inv n word e r).stage

-- ===== src/Sync/Barrier/Rounds.antt =====
-- The second round, and the stages put together.
use yakuza_dead_souls_ex.Prelude.{
  ℕ, zero, suc, ◌+◌, ◌^◌, ◌≤◌, ◌<◌, ◌≡◌, refl, sym, ◌∙◌, subst, ◌≢◌, ◌⊎◌, inl, inr, some, List,
  arith,
}
use yakuza_dead_souls_ex.Prelude.Lists.{
  length, get_elem?, set, total, total-set, total-le-length, length-set,
}
use yakuza_dead_souls_ex.Sync.Barrier.{
  Barrier, Pc, outside, notified, spinning, Move, arrive, arrive_last, reset, advance, wait_load,
  spin, pass,
}
use yakuza_dead_souls_ex.Sync.Barrier.Stages.{
  late, Met, Second, Left, Others, Stage, gathering, complete, turning, left_behind, late-le, moved,
  Others-after, Others-moved, owner_stays,
}
use yakuza_dead_souls_ex.Sync.Barrier.First.{mover, gathering-Stage, complete-Stage, turning-Stage}

late_spinning : (k : ℕ) → k ≡ 1 → late (spinning k) ≡ 1
late_spinning k e = rw e refl

late_passing : (k n : ℕ) → k ≤ 1 → n ≡ 1 → n ≢ k → late (spinning k) ≡ 0
late_passing zero n le e ne = refl
late_passing (suc k) n le e ne = absurd (ne (omega arith))

module _ (b : Barrier) (threads : List Pc) (few : b.total < 2 ^ 16) (all : length threads ≡ b.total)
    (i : ℕ) where
  own-Stage :
      {p p' : Pc} {b' : Barrier}
      → get_elem? threads i ≡ some p
      → b.phase ≡ 1
      → b.arrived + 1 ≤ total late threads
      → Left p
      → Others Second threads i
      → Move b p b' p'
      → Stage b' (set threads i p')
  own-Stage e z a l rest (arrive less) = absurd l
  own-Stage e z a l rest (arrive_last full) = absurd l
  own-Stage e z a l rest reset = absurd l
  own-Stage e z a l rest advance = absurd l
  own-Stage e z a l rest wait_load =
      left_behind z
        (omega (arith, a, late_spinning b.phase z, total-set late threads i (spinning b.phase) e)) i
        (spinning b.phase) (moved threads i (spinning b.phase) e) z
        (Others-after threads i (spinning b.phase) e Second rest)
  own-Stage e z a l rest (spin {p = n} same) =
      left_behind z (omega (arith, a, total-set late threads i (spinning n) e)) i (spinning n)
        (moved threads i (spinning n) e) l (Others-after threads i (spinning n) e Second rest)
  own-Stage e z a l rest (pass {p = n} changed) = absurd (changed (z ∙ sym l))

  Left-Stage :
      {p p' r : Pc} {b' : Barrier} (k : ℕ)
      → get_elem? threads i ≡ some p
      → b.phase ≡ 1
      → b.arrived + 1 ≤ total late threads
      → get_elem? threads k ≡ some r
      → Left r
      → Others Second threads k
      → ((i ≡ k) × (p ≡ r)) ⊎ ((i ≢ k) × Second p)
      → Move b p b' p'
      → Stage b' (set threads i p')
  Left-Stage {p} {r = r} k e z a own l rest (inl (at, is)) m =
      own-Stage e z a (subst Left (sym is) l) (subst (Others Second threads) (sym at) rest) m
  Left-Stage {r = r} k e z a own l rest (inr (ne, s)) (arrive less) =
      left_behind z
        (omega (
          arith,
          a,
          few,
          less,
          all,
          total-le-length late threads late-le,
          total-set late threads i notified e,
        ))
        k r (owner_stays threads i notified e k ne own) l
        (Others-moved threads i notified e Second k rest tt)
  Left-Stage k e z a own l rest (inr (ne, s)) (arrive_last full) = absurd (
      omega (
        arith,
        a,
        few,
        full,
        all,
        total-set late threads i notified e,
        length-set threads i notified,
        total-le-length late (set threads i notified) late-le,
      ))
  Left-Stage k e z a own l rest (inr (ne, s)) reset = absurd s
  Left-Stage k e z a own l rest (inr (ne, s)) advance = absurd s
  Left-Stage {r = r} k e z a own l rest (inr (ne, s)) wait_load =
      left_behind z
        (omega (arith, a, late_spinning b.phase z, total-set late threads i (spinning b.phase) e)) k
        r (owner_stays threads i (spinning b.phase) e k ne own) l
        (Others-moved threads i (spinning b.phase) e Second k rest (omega (arith, z)))
  Left-Stage {r = r} k e z a own l rest (inr (ne, s)) (spin {p = n} same) =
      left_behind z (omega (arith, a, total-set late threads i (spinning n) e)) k r
        (owner_stays threads i (spinning n) e k ne own) l
        (Others-moved threads i (spinning n) e Second k rest s)
  Left-Stage {r = r} k e z a own l rest (inr (ne, s)) (pass {p = n} changed) =
      left_behind z
        (omega (arith, a, late_passing n b.phase s z changed, total-set late threads i outside e)) k
        r (owner_stays threads i outside e k ne own) l
        (Others-moved threads i outside e Second k rest tt)

pub Move-Stage :
    (b : Barrier) (threads : List Pc) (i : ℕ) {p p' : Pc} {b' : Barrier}
    → b.total < 2 ^ 16
    → length threads ≡ b.total
    → get_elem? threads i ≡ some p
    → Stage b threads
    → Move b p b' p'
    → Stage b' (set threads i p')
Move-Stage b threads i few all e (gathering z n lt fs) m =
    gathering-Stage b threads few all i e z n lt fs m
Move-Stage b threads i few all e (complete z k own rest) m =
    complete-Stage b threads few all i k e z own rest (mover threads i k Met e own rest) m
Move-Stage b threads i few all e (turning z a k own rest) m =
    turning-Stage b threads few all i k e z a own rest (mover threads i k Met e own rest) m
Move-Stage b threads i few all e (left_behind z a k r own l rest) m =
    Left-Stage b threads few all i k e z a own l rest (mover threads i k Second e own rest) m

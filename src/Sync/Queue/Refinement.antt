-- ===== src/Sync/Queue/Refinement.antt =====
-- Every interleaving of calls on a queue is a run of a bounded FIFO list.
use native.Mathlib.Nat.{mod-eq_of_lt}
use yakuza_dead_souls_ex.Prelude.{
  ℕ, ◌^◌, ◌<◌, ◌≡◌, refl, sym, ◌∙◌, ap, subst, ◌≢◌, inl, inr, true, false, List, [], arith,
}
use yakuza_dead_souls_ex.Prelude.Tests.{◌==◌, Bool-cases}
use yakuza_dead_souls_ex.Sync.Queue.{Bytes, Queue, Pc, Label, empty_queue}
use yakuza_dead_souls_ex.Sync.Queue.Machine.{
  Move, System, move_to, Step, act, Run, run_end, run_step, started,
}
use yakuza_dead_souls_ex.Sync.Queue.Simulation.{
  Spec, SpecRun, spec_here, spec_next, holds, Sized, Held, Sim, outside-Ring,
}
use yakuza_dead_souls_ex.Sync.Queue.Owner.{owner-Carried}
use yakuza_dead_souls_ex.Sync.Queue.Bystander.{Locked, Move-Locked, Move-Outside}

moved_self : (pc : ℕ → Pc) (i : ℕ) (p : Pc) → move_to pc i p i ≡ p
moved_self pc i p = ground arith

moved_other : (pc : ℕ → Pc) (i j : ℕ) (p : Pc) → j ≢ i → move_to pc i p j ≡ pc j
moved_other pc i j p ne = ground arith

-- What a step of the machine is for the list.
abbrev pub Simulated : ℕ → List (List ℕ) → Label → System → Type 0
Simulated depth xs l t =
    (ys : List (List ℕ)) × Spec depth xs l ys × Sim t ys × (t.queue.depth ≡ depth)

owner_step :
    (s : System) (xs : List (List ℕ)) {l : Label} {q : Queue} {p : Pc} (i : ℕ)
    → Sized s.queue xs
    → Locked s.queue (s.pc i)
    → ((j : ℕ) → j ≢ i → holds (s.pc j) ≡ false)
    → Held s.queue (s.pc i) xs
    → Move s.queue (s.pc i) l q p
    → Simulated s.queue.depth xs l (record { queue = q; pc = move_to s.pc i p })
owner_step s xs {l} {q} {p} i sized lock others held mv =
    let c = owner-Carried xs mv sized held in
    let self : p ≡ move_to s.pc i p i = sym (moved_self s.pc i p) in
    (
      c.list,
      c.spec,
      record {
        sized = c.sized;
        owner = i;
        lock = subst (Locked q) self (Move-Locked mv lock);
        others = λ j ne. ap holds (moved_other s.pc i j p ne) ∙ others j ne;
        held = subst (λ x. Held q x c.list) self c.held;
      },
      c.depth,
    )

bystander_step :
    {s : System} {xs : List (List ℕ)} {l : Label} {q : Queue} {p : Pc} (v : Sim s xs) (i : ℕ)
    → i ≢ v.owner
    → holds (s.pc v.owner) ≡ true
    → Move s.queue (s.pc i) l q p
    → Simulated s.queue.depth xs l (record { queue = q; pc = move_to s.pc i p })
bystander_step {s} {xs} {l} {q} {p} v i ne inside mv =
    let taken : s.queue.lock ≢ 0 = ground (arith, v.lock, inside) in
    let (same, out, a) = Move-Outside v.sized taken mv (v.others i ne) in
    let pc : s.pc v.owner ≡ move_to s.pc i p v.owner =
      sym (moved_other s.pc i v.owner p (λ e. ne (sym e))) in
    (
      xs,
      a,
      record {
        sized = subst (λ q. Sized q xs) (sym same) v.sized;
        owner = v.owner;
        lock = rw same (subst (Locked s.queue) pc v.lock);
        others = λ j apart. elim (Bool-cases (j == i)) [
          | inl here ↦ let e : j ≡ i = ground arith in rw (e, moved_self s.pc i p) out
          | inr other ↦ ap holds (moved_other s.pc i j p (ground arith)) ∙ v.others j apart
        ];
        held = rw same (subst (λ x. Held s.queue x xs) pc v.held);
      },
      ap (λ q. q.depth) same,
    )

-- While the lock is free, any thread may be taken for the owner.
free_step :
    {s : System} {xs : List (List ℕ)} {l : Label} {q : Queue} {p : Pc} (v : Sim s xs) (i : ℕ)
    → i ≢ v.owner
    → holds (s.pc v.owner) ≡ false
    → Move s.queue (s.pc i) l q p
    → Simulated s.queue.depth xs l (record { queue = q; pc = move_to s.pc i p })
free_step {s} {xs} v i ne outside mv =
    let none_inside : (j : ℕ) → holds (s.pc j) ≡ false = λ j. elim (Bool-cases (j == v.owner)) [
      | inl here ↦ let e : j ≡ v.owner = ground arith in rw e outside
      | inr other ↦ v.others j (ground arith)
    ] in
    let to_ring = outside-Ring s.queue (s.pc v.owner) xs outside in
    let from_ring = outside-Ring s.queue (s.pc i) xs (none_inside i) in
    owner_step s xs i v.sized (ground (arith, v.lock, outside, none_inside i))
      (λ j _. none_inside j) (subst (λ T. T) (to_ring ∙ sym from_ring) v.held) mv

pub step-Simulated :
    {s t : System} {xs : List (List ℕ)} {l : Label}
    → Sim s xs
    → Step s l t
    → Simulated s.queue.depth xs l t
step-Simulated {s} {t} {xs} {l} v (act i {q} {p} mv) = elim (Bool-cases (i == v.owner)) [
  | inl own ↦
      let e : i ≡ v.owner = ground arith in
      owner_step s xs i v.sized (rw e v.lock) (λ j ne. v.others j (λ o. ne (o ∙ sym e)))
        (rw e v.held) mv
  | inr other ↦
      let ne : i ≢ v.owner = ground arith in
      elim (Bool-cases (holds (s.pc v.owner))) [
        | inl inside ↦ bystander_step v i ne inside mv
        | inr outside ↦ free_step v i ne outside mv
      ]
]

pub run-Simulated :
    {s t : System} {xs : List (List ℕ)} {ls : List Label}
    → Sim s xs
    → Run s ls t
    → (ys : List (List ℕ)) × SpecRun s.queue.depth xs ls ys × Sim t ys
run-Simulated {s} {t} {xs} v run_end = (xs, spec_here, v)
run-Simulated v (run_step {ls = ls} step run) =
    let (ys, a, w, d) = step-Simulated v step in
    let (zs, rest, last) = run-Simulated w run in
    (zs, spec_next a (subst (λ n. SpecRun n ys ls zs) d rest), last)

-- The state that Initialize leaves stands for the empty list.
pub started-Sim :
    (buffer : Bytes) (size depth : ℕ)
    → 0 < depth
    → depth < 2 ^ 32
    → Sim (started (empty_queue buffer size depth)) []
unfolding empty_queue
started-Sim buffer size depth pos word = record {
  sized = record { room = pos; word = word; most = omega arith; size = refl };
  owner = 0;
  lock = refl;
  others = λ j ne. refl;
  held = record { first = pos; last = sym (mod-eq_of_lt pos); cells = refl };
}

-- ===== src/Lv2/Semaphore/Pinning.antt =====
-- runtime/syscalls/sys_semaphore.c: a thread inside a call pins its slot.
pub mod Steps
pub mod Lifetime
pub mod Safety
use yakuza_dead_souls_ex.Prelude.{
  ℕ, zero, suc, ◌+◌, ◌-◌, ◌%◌, ◌^◌, ◌≤◌, ◌<◌, ◌≡◌, refl, sym, ◌∙◌, ap, ◌≢◌, ◌⊎◌, inl, inr, Bool,
  true, false, not, ◌&&◌, Option, none, some, List, [], ◌∷◌, arith,
}
use yakuza_dead_souls_ex.Prelude.Tests.{◌==◌, if◌then◌else◌, Bool-cases}
use yakuza_dead_souls_ex.Prelude.Lists.{
  length, get_elem?, set, total, total-set, le-total, length-set, get_elem?-set_cases, total_mono,
  total-le-length,
}
use yakuza_dead_souls_ex.Guest.{Status}
use yakuza_dead_souls_ex.Lv2.Semaphore.{SemInfo, Job, Outcome, finished, sleeps}
use yakuza_dead_souls_ex.Lv2.Semaphore.Threads.{
  Pc, idle, entered, parked, woken, leaving, Machine, after,
}

abbrev pub count_if : Bool → ℕ
count_if b = if b then 1 else 0

-- Whether the thread holds a reference to the slot, and whether it is counted as a waiter there.
abbrev pub pins : ℕ → Pc → ℕ
pins slot idle = 0
pins slot (entered k job) = count_if (k == slot)
pins slot (parked k timed) = count_if (k == slot)
pins slot (woken k timed) = count_if (k == slot)
pins slot (leaving k status) = count_if (k == slot)

abbrev pub parks : ℕ → Pc → ℕ
parks slot idle = 0
parks slot (entered k job) = 0
parks slot (parked k timed) = count_if (k == slot)
parks slot (woken k timed) = 0
parks slot (leaving k status) = 0

pub parks-le-pins : (slot : ℕ) (pc : Pc) → parks slot pc ≤ pins slot pc
parks-le-pins slot idle = omega arith
parks-le-pins slot (entered k job) = ground arith
parks-le-pins slot (parked k timed) = omega arith
parks-le-pins slot (woken k timed) = ground arith
parks-le-pins slot (leaving k status) = ground arith

pub pins-le : (slot : ℕ) (pc : Pc) → pins slot pc ≤ 1
pins-le slot idle = omega arith
pins-le slot (entered k job) = ground arith
pins-le slot (parked k timed) = ground arith
pins-le slot (woken k timed) = ground arith
pins-le slot (leaving k status) = ground arith

-- The threads that pin a slot, and those parked at it.
abbrev pub pinned : List Pc → ℕ → ℕ
pinned threads slot = total (pins slot) threads

abbrev pub parked_at : List Pc → ℕ → ℕ
parked_at threads slot = total (parks slot) threads

pub parked-le-pinned : (threads : List Pc) (slot : ℕ) → parked_at threads slot ≤ pinned threads slot
parked-le-pinned threads slot = total_mono (parks slot) (pins slot) threads (parks-le-pins slot)

pub pinned-le-length : (threads : List Pc) (slot : ℕ) → pinned threads slot ≤ length threads
pinned-le-length threads slot = total-le-length (pins slot) threads (pins-le slot)

-- The bookkeeping of one slot is what the threads do: it holds a reference for each thread inside a
-- call, a waiter for each that sleeps, and an inactive slot has none.
pub record IsCounted (threads : List Pc) (slot : ℕ) (s : SemInfo) : Type 0 where
  pub references_are : s.references ≡ pinned threads slot
  pub waiters_are : s.waiters ≡ parked_at threads slot
  pub idle_when_off : s.active ≡ false → pinned threads slot ≡ 0

pub record IsValid (m : Machine) : Type 0 where
  pub few : length m.threads < 2 ^ 31
  pub slots :
      (slot : ℕ) (s : SemInfo) → get_elem? m.state.sems slot ≡ some s → IsCounted m.threads slot s

-- A thread that moves at another slot changes nothing here.
pub elsewhere :
    (threads : List Pc) (t slot : ℕ) (pc pc' : Pc) (s : SemInfo)
    → get_elem? threads t ≡ some pc
    → pins slot pc ≡ 0
    → pins slot pc' ≡ 0
    → IsCounted threads slot s
    → IsCounted (set threads t pc') slot s
elsewhere threads t slot pc pc' s e out out' c =
    let same : pinned (set threads t pc') slot ≡ pinned threads slot =
      omega (arith, total-set (pins slot) threads t pc' e) in
    record {
      references_are = c.references_are ∙ sym same;
      waiters_are = omega (
        arith,
        total-set (parks slot) threads t pc' e,
        c.waiters_are,
        parks-le-pins slot pc,
        parks-le-pins slot pc',
      );
      idle_when_off = λ off. same ∙ c.idle_when_off off;
    }

-- A move of one thread at one slot, with the slot's bookkeeping moved along.
pub record Move (slot : ℕ) (pc pc' : Pc) (s s' : SemInfo) : Type 0 where
  pub referenced : s'.references + pins slot pc ≡ s.references + pins slot pc'
  pub waited : s'.waiters + parks slot pc ≡ s.waiters + parks slot pc'
  pub still_on : s'.active ≡ true
  pub only_here : (other : ℕ) → other ≢ slot → (pins other pc ≡ 0) × (pins other pc' ≡ 0)

pub Move-IsCounted :
    (threads : List Pc) (t slot : ℕ) (pc pc' : Pc) (s s' : SemInfo)
    → get_elem? threads t ≡ some pc
    → Move slot pc pc' s s'
    → IsCounted threads slot s
    → IsCounted (set threads t pc') slot s'
Move-IsCounted threads t slot pc pc' s s' e v c = record {
  references_are =
      omega (arith, total-set (pins slot) threads t pc' e, c.references_are, v.referenced);
  waiters_are = omega (arith, total-set (parks slot) threads t pc' e, c.waiters_are, v.waited);
  idle_when_off = λ off. ground (arith, v.still_on);
}

-- Every slot after such a move.
pub Move-slots :
    (threads : List Pc) (sems : List SemInfo) (t slot : ℕ) (pc pc' : Pc) (s s' : SemInfo)
    → ((k : ℕ) (q : SemInfo) → get_elem? sems k ≡ some q → IsCounted threads k q)
    → get_elem? threads t ≡ some pc
    → get_elem? sems slot ≡ some s
    → Move slot pc pc' s s'
    → (k : ℕ) (q : SemInfo) → get_elem? (set sems slot s') k ≡ some q
    → IsCounted (set threads t pc') k q
Move-slots threads sems t slot pc pc' s s' all e es v k q eq =
    go (get_elem?-set_cases sems slot k s' eq)
  where
    go :
        ((slot ≡ k) × (q ≡ s')) ⊎ ((slot ≢ k) × (get_elem? sems k ≡ some q))
        → IsCounted (set threads t pc') k q
    go (inl (at, same)) =
        rw (← at, same) (Move-IsCounted threads t slot pc pc' s s' e v (all slot s es))
    go (inr (ne, old)) =
        let off = v.only_here k (λ same. ne (sym same)) in
        elsewhere threads t k pc pc' q e off.0 off.1 (all k q old)

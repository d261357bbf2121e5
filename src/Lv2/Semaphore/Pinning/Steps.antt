-- ===== src/Lv2/Semaphore/Pinning/Steps.antt =====
-- runtime/syscalls/sys_semaphore.c: every part of every call keeps the slots' bookkeeping.
use yakuza_dead_souls_ex.Prelude.{
  ℕ, ◌+◌, ◌^◌, ◌<◌, ◌≡◌, refl, ◌∙◌, ◌≢◌, inl, inr, Bool, true, ◌&&◌, some, List, arith,
}
use yakuza_dead_souls_ex.Prelude.Tests.{◌==◌, Bool-cases}
use yakuza_dead_souls_ex.Prelude.Lists.{get_elem?, le-total, length-set}
use yakuza_dead_souls_ex.Guest.{Memory}
use yakuza_dead_souls_ex.Lv2.Semaphore.{
  SemInfo, Job, wait, trywait, post, get_value, Outcome, finished, sleeps, wait_look, leave,
  trywait_body, post_body, body,
}
use yakuza_dead_souls_ex.Lv2.Semaphore.Threads.{Pc, parked, woken, Machine, after, place}
use yakuza_dead_souls_ex.Lv2.Semaphore.Pinning.{
  pins, parks, parked-le-pinned, pinned-le-length, IsCounted, IsValid, Move, Move-slots,
}

-- The work of a call on its slot, from a place with or without a wait behind it.
pub record Works (was_parked : ℕ) (s : SemInfo) (out : Outcome × SemInfo) : Type 0 where
  pub same_active : out.1.active ≡ s.active
  pub same_references : out.1.references ≡ s.references
  pub waited : out.1.waiters + was_parked ≡ s.waiters + parks 0 (after 0 true out.0)

abbrev pub SlotOf : ℕ → Pc → Type 0
SlotOf slot pc = (pins slot pc ≡ 1) × ((other : ℕ) → other ≢ slot → pins other pc ≡ 0)

after-SlotOf : (slot : ℕ) (timed : Bool) (o : Outcome) → SlotOf slot (after slot timed o)
unfolding after
after-SlotOf slot timed (finished status) = (ground arith, λ other ne. ground arith)
after-SlotOf slot timed sleeps = (ground arith, λ other ne. ground arith)

parks-after :
    (slot : ℕ) (timed : Bool) (o : Outcome)
    → parks slot (after slot timed o) ≡ parks 0 (after 0 true o)
unfolding after
parks-after slot timed (finished status) = refl
parks-after slot timed sleeps = ground arith

pub wait_look-Works :
    (expired : Bool) (s : SemInfo) → s.waiters + 1 < 2 ^ 32 → Works 0 s (wait_look expired s)
unfolding wait_look after
wait_look-Works expired s small = record {
  same_active = ground arith;
  same_references = ground arith;
  waited = ground arith;
}

trywait_body-Works : (s : SemInfo) → Works 0 s (trywait_body s)
unfolding trywait_body after
trywait_body-Works s = record {
  same_active = ground arith;
  same_references = ground arith;
  waited = ground arith;
}

post_body-Works : (count : ℕ) (s : SemInfo) → Works 0 s (post_body count s)
unfolding post_body after
post_body-Works count s = record {
  same_active = ground arith;
  same_references = ground arith;
  waited = ground arith;
}

pub body-Works :
    (expired : Bool) (job : Job) (s : SemInfo)
    → s.waiters + 1 < 2 ^ 32
    → Works 0 s (body expired job s)
unfolding body after
body-Works expired (wait timed) s small = wait_look-Works (timed && expired) s small
body-Works expired trywait s small = trywait_body-Works s
body-Works expired (post count) s small = post_body-Works count s
body-Works expired (get_value out_addr) s small = record {
  same_active = refl;
  same_references = refl;
  waited = omega arith;
}

-- A slot that some thread pins is active.
pub pinned-active :
    (threads : List Pc) (t slot : ℕ) (pc : Pc) (s : SemInfo)
    → IsCounted threads slot s
    → get_elem? threads t ≡ some pc
    → pins slot pc ≡ 1
    → s.active ≡ true
pinned-active threads t slot pc s c e one = elim (Bool-cases s.active) [
  | inl on ↦ on
  | inr off ↦ absurd (omega (arith, c.idle_when_off off, le-total (pins slot) threads t e))
]

-- Work on a slot, by a thread that stays inside its call, is a move.
Works-Move :
    (slot : ℕ) (pc : Pc) (timed : Bool) (s : SemInfo) (out : Outcome × SemInfo) (was_parked : ℕ)
    → Works was_parked s out
    → SlotOf slot pc
    → parks slot pc ≡ was_parked
    → s.active ≡ true
    → Move slot pc (after slot timed out.0) s out.1
Works-Move slot pc timed s out was_parked w here before on =
    let there = after-SlotOf slot timed out.0 in
    record {
      referenced = omega (arith, w.same_references, here.0, there.0);
      waited = omega (arith, w.waited, before, parks-after slot timed out.0);
      still_on = w.same_active ∙ on;
      only_here = λ other ne. (here.1 other ne, there.1 other ne);
    }

-- The counters stay below the number of threads.
module _ (m : Machine) (v : IsValid m) (slot : ℕ) (s : SemInfo)
    (e : get_elem? m.state.sems slot ≡ some s) where
  pub references_small : s.references < 2 ^ 31
  references_small =
      omega (arith, (v.slots slot s e).references_are, pinned-le-length m.threads slot, v.few)

  pub waiters_small : s.waiters < 2 ^ 31
  waiters_small = omega (
    arith,
    (v.slots slot s e).waiters_are,
    parked-le-pinned m.threads slot,
    pinned-le-length m.threads slot,
    v.few,
  )

  -- One thread's work on the slot.
  pub Works-IsValid :
      (t : ℕ) (pc : Pc) (timed : Bool) (out : Outcome × SemInfo) (was_parked : ℕ) (mem : Memory)
      → get_elem? m.threads t ≡ some pc
      → SlotOf slot pc
      → parks slot pc ≡ was_parked
      → Works was_parked s out
      → IsValid (place m t (after slot timed out.0) slot out.1 mem)
  Works-IsValid t pc timed out was_parked mem et here before w = record {
    few = rw (length-set m.threads t (after slot timed out.0)) v.few;
    slots =
        Move-slots m.threads m.state.sems t slot pc (after slot timed out.0) s out.1 v.slots et e (
          Works-Move slot pc timed s out was_parked w here before
            (pinned-active m.threads t slot pc s (v.slots slot s e) et here.0));
  }

  some_parked :
      (t : ℕ) (timed : Bool) → get_elem? m.threads t ≡ some (parked slot timed) → 0 < s.waiters
  some_parked t timed et =
      let self : (slot == slot) ≡ true = ground arith in
      let one : parks slot (parked slot timed) ≡ 1 = rw self refl in
      omega (arith, (v.slots slot s e).waiters_are, le-total (parks slot) m.threads t et)

  -- A thread that has slept counts itself out.
  pub leave-IsValid :
      (t : ℕ) (timed : Bool)
      → get_elem? m.threads t ≡ some (parked slot timed)
      → IsValid (place m t (woken slot timed) slot (leave s) m.state.mem)
  unfolding leave
  leave-IsValid t timed et =
      let self : (slot == slot) ≡ true = ground arith in
      let pin : pins slot (parked slot timed) ≡ 1 = rw self refl in
      let on = pinned-active m.threads t slot (parked slot timed) s (v.slots slot s e) et pin in
      let pos = some_parked t timed et in
      record {
        few = rw (length-set m.threads t (woken slot timed)) v.few;
        slots =
            Move-slots m.threads m.state.sems t slot (parked slot timed) (woken slot timed) s
              (leave s) v.slots et e
              (record {
                referenced = ground arith;
                waited = ground (arith, pos, waiters_small);
                still_on = ground (arith, on);
                only_here = λ other ne. (ground arith, ground arith);
              });
      }

-- ===== src/Sync/Queue/Bystander.antt =====
-- One access by a thread outside the critical sections while another thread owns the queue, and the
-- lock word across any access.
use yakuza_dead_souls_ex.Prelude.{ℕ, ◌≡◌, refl, ◌∙◌, ◌≢◌, false, List, arith}
use yakuza_dead_souls_ex.Prelude.Tests.{if◌then◌else◌}
use yakuza_dead_souls_ex.Sync.Queue.{Queue, Pc, Label}
use yakuza_dead_souls_ex.Sync.Queue.Pushing.{
  Push, push_call, push_spin, push_refuse, push_room, push_lock_fail, push_busy, push_lock,
  push_full, push_retry, push_overflow, push_go, push_load, push_copy, push_store, push_count,
}
use yakuza_dead_souls_ex.Sync.Queue.Popping.{
  Pop, pop_call, pop_spin, pop_refuse, pop_some, pop_lock_fail, pop_busy, pop_lock, pop_none,
  pop_retry, pop_empty, pop_go, pop_load, pop_copy, pop_store, pop_count, Peek, peek_call,
  peek_refuse, peek_some, peek_lock_fail, peek_lock, peek_empty, peek_go, peek_load, peek_copy,
}
use yakuza_dead_souls_ex.Sync.Queue.Clearing.{
  Clear, clear_call, clear_lock_fail, clear_lock, clear_head_store, clear_tail_store,
  clear_count_store, size_load, release,
}
use yakuza_dead_souls_ex.Sync.Queue.Machine.{Move, push, pop, peek, clear, measure, unlock}
use yakuza_dead_souls_ex.Sync.Queue.Simulation.{
  Spec, may_stay, may_size, may_overflow, may_empty, may_busy, holds, Sized,
}

-- The lock word says whether the thread that moves is inside.
abbrev pub Locked : Queue → Pc → Type 0
Locked q p = q.lock ≡ (if holds p then 1 else 0)

Push-Locked : {q q' : Queue} {p p' : Pc} {l : Label} → Push q p l q' p' → Locked q p → Locked q' p'
Push-Locked push_call e = e
Push-Locked (push_spin _) e = e
Push-Locked (push_refuse _) e = e
Push-Locked (push_room _) e = e
Push-Locked push_lock_fail e = e
Push-Locked (push_busy _) e = e
Push-Locked (push_lock _) e = refl
Push-Locked (push_full _) e = e
Push-Locked push_retry e = refl
Push-Locked (push_overflow _) e = e
Push-Locked (push_go _) e = e
Push-Locked push_load e = e
Push-Locked push_copy e = e
Push-Locked push_store e = e
Push-Locked push_count e = e

Pop-Locked : {q q' : Queue} {p p' : Pc} {l : Label} → Pop q p l q' p' → Locked q p → Locked q' p'
Pop-Locked pop_call e = e
Pop-Locked (pop_spin _) e = e
Pop-Locked (pop_refuse _) e = e
Pop-Locked (pop_some _) e = e
Pop-Locked pop_lock_fail e = e
Pop-Locked (pop_busy _) e = e
Pop-Locked (pop_lock _) e = refl
Pop-Locked (pop_none _) e = e
Pop-Locked pop_retry e = refl
Pop-Locked (pop_empty _) e = e
Pop-Locked (pop_go _) e = e
Pop-Locked pop_load e = e
Pop-Locked pop_copy e = e
Pop-Locked pop_store e = e
Pop-Locked pop_count e = e

Peek-Locked : {q q' : Queue} {p p' : Pc} {l : Label} → Peek q p l q' p' → Locked q p → Locked q' p'
Peek-Locked peek_call e = e
Peek-Locked (peek_refuse _) e = e
Peek-Locked (peek_some _) e = e
Peek-Locked peek_lock_fail e = e
Peek-Locked (peek_lock _) e = refl
Peek-Locked (peek_empty _) e = e
Peek-Locked (peek_go _) e = e
Peek-Locked peek_load e = e
Peek-Locked peek_copy e = e

Clear-Locked :
    {q q' : Queue} {p p' : Pc} {l : Label} → Clear q p l q' p' → Locked q p → Locked q' p'
Clear-Locked clear_call e = e
Clear-Locked clear_lock_fail e = e
Clear-Locked (clear_lock _) e = refl
Clear-Locked clear_head_store e = e
Clear-Locked clear_tail_store e = e
Clear-Locked clear_count_store e = e

pub Move-Locked :
    {q q' : Queue} {p p' : Pc} {l : Label} → Move q p l q' p' → Locked q p → Locked q' p'
Move-Locked (push m) e = Push-Locked m e
Move-Locked (pop m) e = Pop-Locked m e
Move-Locked (peek m) e = Peek-Locked m e
Move-Locked (clear m) e = Clear-Locked m e
Move-Locked (measure size_load) e = e
Move-Locked (unlock release) e = refl

-- What a bystander does: nothing, outside.
abbrev pub Outside : (q : Queue) (xs : List (List ℕ)) (l : Label) (q' : Queue) (p' : Pc) → Type 0
Outside q xs l q' p' = (q' ≡ q) × (holds p' ≡ false) × Spec q.depth xs l xs

module _ {q : Queue} {xs : List (List ℕ)} (s : Sized q xs) (taken : q.lock ≢ 0) where
  Push-Outside :
      {q' : Queue} {p p' : Pc} {l : Label}
      → Push q p l q' p'
      → holds p ≡ false
      → Outside q xs l q' p'
  Push-Outside push_call e = (refl, refl, may_stay)
  Push-Outside (push_spin _) e = (refl, refl, may_stay)
  Push-Outside (push_refuse full) e = (refl, refl, may_overflow (ground (arith, s.size, s.most)))
  Push-Outside (push_room _) e = (refl, refl, may_stay)
  Push-Outside push_lock_fail e = (refl, refl, may_stay)
  Push-Outside (push_busy _) e = (refl, refl, may_busy)
  Push-Outside (push_lock free) e = absurd (taken free)
  Push-Outside (push_full _) e = cc
  Push-Outside push_retry e = cc
  Push-Outside (push_overflow _) e = cc
  Push-Outside (push_go _) e = cc
  Push-Outside push_load e = cc
  Push-Outside push_copy e = cc
  Push-Outside push_store e = cc
  Push-Outside push_count e = cc

  Pop-Outside :
      {q' : Queue} {p p' : Pc} {l : Label}
      → Pop q p l q' p'
      → holds p ≡ false
      → Outside q xs l q' p'
  Pop-Outside pop_call e = (refl, refl, may_stay)
  Pop-Outside (pop_spin _) e = (refl, refl, may_stay)
  Pop-Outside (pop_refuse z) e = (refl, refl, may_empty (s.size ∙ z))
  Pop-Outside (pop_some _) e = (refl, refl, may_stay)
  Pop-Outside pop_lock_fail e = (refl, refl, may_stay)
  Pop-Outside (pop_busy _) e = (refl, refl, may_busy)
  Pop-Outside (pop_lock free) e = absurd (taken free)
  Pop-Outside (pop_none _) e = cc
  Pop-Outside pop_retry e = cc
  Pop-Outside (pop_empty _) e = cc
  Pop-Outside (pop_go _) e = cc
  Pop-Outside pop_load e = cc
  Pop-Outside pop_copy e = cc
  Pop-Outside pop_store e = cc
  Pop-Outside pop_count e = cc

  Peek-Outside :
      {q' : Queue} {p p' : Pc} {l : Label}
      → Peek q p l q' p'
      → holds p ≡ false
      → Outside q xs l q' p'
  Peek-Outside peek_call e = (refl, refl, may_stay)
  Peek-Outside (peek_refuse z) e = (refl, refl, may_empty (s.size ∙ z))
  Peek-Outside (peek_some _) e = (refl, refl, may_stay)
  Peek-Outside peek_lock_fail e = (refl, refl, may_stay)
  Peek-Outside (peek_lock free) e = absurd (taken free)
  Peek-Outside (peek_empty _) e = cc
  Peek-Outside (peek_go _) e = cc
  Peek-Outside peek_load e = cc
  Peek-Outside peek_copy e = cc

  Clear-Outside :
      {q' : Queue} {p p' : Pc} {l : Label}
      → Clear q p l q' p'
      → holds p ≡ false
      → Outside q xs l q' p'
  Clear-Outside clear_call e = (refl, refl, may_stay)
  Clear-Outside clear_lock_fail e = (refl, refl, may_stay)
  Clear-Outside (clear_lock free) e = absurd (taken free)
  Clear-Outside clear_head_store e = cc
  Clear-Outside clear_tail_store e = cc
  Clear-Outside clear_count_store e = cc

  pub Move-Outside :
      {q' : Queue} {p p' : Pc} {l : Label}
      → Move q p l q' p'
      → holds p ≡ false
      → Outside q xs l q' p'
  Move-Outside (push m) e = Push-Outside m e
  Move-Outside (pop m) e = Pop-Outside m e
  Move-Outside (peek m) e = Peek-Outside m e
  Move-Outside (clear m) e = Clear-Outside m e
  Move-Outside (measure size_load) e = (refl, refl, may_size s.size)
  Move-Outside (unlock release) e = cc

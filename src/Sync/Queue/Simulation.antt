-- ===== src/Sync/Queue/Simulation.antt =====
-- What a queue promises, and which list of elements each state stands for.
use yakuza_dead_souls_ex.Prelude.{
  ℕ, ◌+◌, ◌-◌, ◌%◌, ◌^◌, ◌≤◌, ◌<◌, ◌≡◌, refl, ◌≢◌, Bool, true, false, List, [], ◌∷◌, ◌++◌,
}
use yakuza_dead_souls_ex.Prelude.Tests.{if◌then◌else◌}
use yakuza_dead_souls_ex.Prelude.Lists.{length}
use yakuza_dead_souls_ex.Prelude.Ring.{window}
use yakuza_dead_souls_ex.Sync.Queue.{
  slice, Queue, Pc, idle, push_looking, push_locking, push_testing, push_retrying, push_loading,
  push_copying, push_storing, push_counting, pop_looking, pop_locking, pop_testing, pop_retrying,
  pop_loading, pop_copying, pop_storing, pop_counting, peek_looking, peek_locking, peek_testing,
  peek_loading, peek_copying, clear_locking, clear_head, clear_tail, clear_count, releasing, Label,
  silent, pushed, popped, peeked, cleared, sized, overflow, empty, busy,
}
use yakuza_dead_souls_ex.Sync.Queue.Machine.{System}
use yakuza_dead_souls_ex.Sync.Queue.Cells.{cell}

-- A bounded FIFO list, each call one step of it.
pub data Spec (depth : ℕ) (xs : List (List ℕ)) : Label → List (List ℕ) → Type 0 where
  may_stay : Spec depth xs silent xs
  may_push : {v : List ℕ} → length xs < depth → Spec depth xs (pushed v) (xs ++ (v ∷ []))
  may_pop : {v : List ℕ} {ys : List (List ℕ)} → xs ≡ v ∷ ys → Spec depth xs (popped v) ys
  may_peek : {v : List ℕ} {ys : List (List ℕ)} → xs ≡ v ∷ ys → Spec depth xs (peeked v) xs
  may_clear : Spec depth xs cleared []
  may_size : {n : ℕ} → length xs ≡ n → Spec depth xs (sized n) xs
  may_overflow : length xs ≡ depth → Spec depth xs overflow xs
  may_empty : length xs ≡ 0 → Spec depth xs empty xs
  may_busy : Spec depth xs busy xs

pub data SpecRun (depth : ℕ) : List (List ℕ) → List Label → List (List ℕ) → Type 0 where
  spec_here : {xs : List (List ℕ)} → SpecRun depth xs [] xs
  spec_next :
      {xs ys zs : List (List ℕ)} {l : Label} {ls : List Label}
      → Spec depth xs l ys
      → SpecRun depth ys ls zs
      → SpecRun depth xs (l ∷ ls) zs

-- A thread inside a critical section.
abbrev pub holds : Pc → Bool
holds idle = false
holds (push_looking _ _) = false
holds (push_locking _ _) = false
holds (pop_looking _) = false
holds (pop_locking _) = false
holds peek_looking = false
holds peek_locking = false
holds clear_locking = false
holds _ = true

-- What holds in every state.
pub record Sized (q : Queue) (xs : List (List ℕ)) : Type 0 where
  pub room : 0 < q.depth
  pub word : q.depth < 2 ^ 32
  pub most : q.count ≤ q.depth
  pub size : length xs ≡ q.count

-- The ring with `n` cells from `head` on.
pub record Ring (q : Queue) (n : ℕ) (xs : List (List ℕ)) : Type 0 where
  pub first : q.head < q.depth
  pub last : q.tail ≡ (q.head + n) % q.depth
  pub cells : xs ≡ window (cell q) q.depth q.head n

pub record Filled (q : Queue) (v : List ℕ) (xs : List (List ℕ)) : Type 0 where
  pub first : q.head < q.depth
  pub free : q.count < q.depth
  pub stored : cell q ((q.head + q.count) % q.depth) ≡ v
  pub cells : xs ≡ window (cell q) q.depth q.head q.count

-- What the thread at `p` has made of the queue, while the list is still `xs`.
abbrev pub Held : Queue → Pc → List (List ℕ) → Type 0
Held q (push_loading _) xs = (q.count < q.depth) × Ring q q.count xs
Held q (push_copying _ t) xs = (q.count < q.depth) × (t ≡ q.tail) × Ring q q.count xs
Held q (push_storing src t) xs =
    (t ≡ (q.head + q.count) % q.depth) × Filled q (slice src 0 q.elem_size) xs
Held q (push_counting src) xs =
    (q.tail ≡ (q.head + (q.count + 1)) % q.depth) × Filled q (slice src 0 q.elem_size) xs
Held q pop_loading xs = (0 < q.count) × Ring q q.count xs
Held q (pop_copying h) xs = (0 < q.count) × (h ≡ q.head) × Ring q q.count xs
Held q (pop_storing out h) xs = (0 < q.count) × (h ≡ q.head) × (out ≡ cell q h) × Ring q q.count xs
Held q (pop_counting out) xs =
    (0 < q.count) × (ys : List (List ℕ)) × (xs ≡ out ∷ ys) × Ring q (q.count - 1) ys
Held q peek_loading xs = (0 < q.count) × Ring q q.count xs
Held q (peek_copying h) xs = (0 < q.count) × (h ≡ q.head) × Ring q q.count xs
Held q clear_tail xs = q.head ≡ 0
Held q clear_count xs = (q.head ≡ 0) × (q.tail ≡ 0)
Held q _ xs = Ring q q.count xs

-- At most one thread is in a critical section: the owner, who is any thread while the lock is free.
pub record Sim (s : System) (xs : List (List ℕ)) : Type 0 where
  pub sized : Sized s.queue xs
  pub owner : ℕ
  pub lock : s.queue.lock ≡ (if holds (s.pc owner) then 1 else 0)
  pub others : (j : ℕ) → j ≢ owner → holds (s.pc j) ≡ false
  pub held : Held s.queue (s.pc owner) xs

-- Outside the critical sections the ring is whole.
pub outside-Ring :
    (q : Queue) (p : Pc) (xs : List (List ℕ)) → holds p ≡ false → Held q p xs ≡ Ring q q.count xs
outside-Ring q idle xs h = refl
outside-Ring q (push_looking _ _) xs h = refl
outside-Ring q (push_locking _ _) xs h = refl
outside-Ring q (push_testing _ _) xs h = refl
outside-Ring q (push_retrying _) xs h = refl
outside-Ring q (push_loading _) xs h = cc
outside-Ring q (push_copying _ _) xs h = cc
outside-Ring q (push_storing _ _) xs h = cc
outside-Ring q (push_counting _) xs h = cc
outside-Ring q (pop_looking _) xs h = refl
outside-Ring q (pop_locking _) xs h = refl
outside-Ring q (pop_testing _) xs h = refl
outside-Ring q pop_retrying xs h = refl
outside-Ring q pop_loading xs h = cc
outside-Ring q (pop_copying _) xs h = cc
outside-Ring q (pop_storing _ _) xs h = cc
outside-Ring q (pop_counting _) xs h = cc
outside-Ring q peek_looking xs h = refl
outside-Ring q peek_locking xs h = refl
outside-Ring q peek_testing xs h = refl
outside-Ring q peek_loading xs h = cc
outside-Ring q (peek_copying _) xs h = cc
outside-Ring q clear_locking xs h = refl
outside-Ring q clear_head xs h = refl
outside-Ring q clear_tail xs h = cc
outside-Ring q clear_count xs h = cc
outside-Ring q releasing xs h = refl

-- ===== src/Sync/Queue/Owner.antt =====
-- One access by the thread that owns the queue.
use native.Mathlib.Nat.{mod-eq_of_lt}
use yakuza_dead_souls_ex.Prelude.{ℕ, refl, sym, List, [], arith}
use yakuza_dead_souls_ex.Sync.Queue.{Queue, Pc, Label}
use yakuza_dead_souls_ex.Sync.Queue.Clearing.{
  Clear, clear_call, clear_lock_fail, clear_lock, clear_head_store, clear_tail_store,
  clear_count_store, size_load, release,
}
use yakuza_dead_souls_ex.Sync.Queue.Machine.{Move, push, pop, peek, clear, measure, unlock}
use yakuza_dead_souls_ex.Sync.Queue.Simulation.{may_stay, may_clear, may_size, Sized, Held}
use yakuza_dead_souls_ex.Sync.Queue.Carried.{Carried, carried, resized, relocked}
use yakuza_dead_souls_ex.Sync.Queue.Pushed.{Push-Carried}
use yakuza_dead_souls_ex.Sync.Queue.Popped.{Pop-Carried, Peek-Carried}

pub Clear-Carried :
    {q q' : Queue} {p p' : Pc} {l : Label} (xs : List (List ℕ))
    → Clear q p l q' p'
    → Sized q xs
    → Held q p xs
    → Carried q xs l q' p'
Clear-Carried xs clear_call s h = carried xs may_stay s h refl
Clear-Carried xs clear_lock_fail s h = carried xs may_stay s h refl
Clear-Carried {q} xs (clear_lock _) s h =
    carried xs may_stay (resized q (record q { lock = 1 }) xs refl refl s)
      (relocked q 1 q.count xs h) refl
Clear-Carried {q} xs clear_head_store s h =
    carried xs may_stay (resized q (record q { head = 0 }) xs refl refl s) refl refl
Clear-Carried {q} xs clear_tail_store s h =
    carried xs may_stay (resized q (record q { tail = 0 }) xs refl refl s) (h, refl) refl
Clear-Carried {q} xs clear_count_store s (head, tail) =
    carried [] may_clear (record { room = s.room; word = s.word; most = omega arith; size = refl })
      (record {
        first = omega (arith, head, s.room);
        last = rw (tail, head) (sym (mod-eq_of_lt s.room));
        cells = refl;
      })
      refl

-- The owner's access is a step of the list.
pub owner-Carried :
    {q q' : Queue} {p p' : Pc} {l : Label} (xs : List (List ℕ))
    → Move q p l q' p'
    → Sized q xs
    → Held q p xs
    → Carried q xs l q' p'
owner-Carried xs (push m) s h = Push-Carried xs m s h
owner-Carried xs (pop m) s h = Pop-Carried xs m s h
owner-Carried xs (peek m) s h = Peek-Carried xs m s h
owner-Carried xs (clear m) s h = Clear-Carried xs m s h
owner-Carried xs (measure size_load) s h = carried xs (may_size s.size) s h refl
owner-Carried {q} xs (unlock release) s h =
    carried xs may_stay (resized q (record q { lock = 0 }) xs refl refl s)
      (relocked q 0 q.count xs h) refl

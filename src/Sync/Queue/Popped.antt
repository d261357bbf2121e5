-- ===== src/Sync/Queue/Popped.antt =====
-- One access of a pop or a peek by the owner of the queue.
use native.Mathlib.Nat.{mod-lt, mod-eq_of_lt, mod-add-mod}
use yakuza_dead_souls_ex.Prelude.{
  ℕ, suc, ◌+◌, ◌-◌, ◌%◌, ◌^◌, ◌<◌, ◌≡◌, refl, ◌∙◌, ap, List, ◌∷◌, arith,
}
use yakuza_dead_souls_ex.Prelude.Lists.{length}
use yakuza_dead_souls_ex.Prelude.Ring.{window, window_pop}
use yakuza_dead_souls_ex.Sync.Queue.{u32, Queue, Pc, Label}
use yakuza_dead_souls_ex.Sync.Queue.Popping.{
  Pop, pop_call, pop_spin, pop_refuse, pop_some, pop_lock_fail, pop_busy, pop_lock, pop_none,
  pop_retry, pop_empty, pop_go, pop_load, pop_copy, pop_store, pop_count, Peek, peek_call,
  peek_refuse, peek_some, peek_lock_fail, peek_lock, peek_empty, peek_go, peek_load, peek_copy,
}
use yakuza_dead_souls_ex.Sync.Queue.Cells.{cell}
use yakuza_dead_souls_ex.Sync.Queue.Simulation.{
  may_stay, may_pop, may_peek, may_empty, may_busy, Sized, Ring, Held,
}
use yakuza_dead_souls_ex.Sync.Queue.Carried.{Carried, carried, resized, relocked, recounted}

-- The first cell leaves when the new head is stored.
popped-Ring :
    (q : Queue) (xs : List (List ℕ)) (h : ℕ)
    → Sized q xs
    → 0 < q.count
    → h ≡ q.head
    → Ring q q.count xs
    → Ring
        (record q { head = u32 (h + 1) % q.depth })
        (q.count - 1)
        (window (cell q) q.depth ((q.head + 1) % q.depth) (q.count - 1))
popped-Ring q xs h s pos at r = record {
  first = mod-lt (u32 (h + 1)) s.room;
  last =
      let e : q.head + 1 + (q.count - 1) ≡ q.head + q.count = omega arith in
      rw (plain, r.last, at, mod-add-mod (q.head + 1) q.depth (q.count - 1), e) refl;
  cells = rw (plain, at) refl;
}
  where
    plain : u32 (h + 1) ≡ h + 1
    plain = mod-eq_of_lt (omega (arith, r.first, s.word))

pub Pop-Carried :
    {q q' : Queue} {p p' : Pc} {l : Label} (xs : List (List ℕ))
    → Pop q p l q' p'
    → Sized q xs
    → Held q p xs
    → Carried q xs l q' p'
Pop-Carried xs pop_call s h = carried xs may_stay s h refl
Pop-Carried xs (pop_spin _) s h = carried xs may_stay s h refl
Pop-Carried xs (pop_refuse z) s h = carried xs (may_empty (s.size ∙ z)) s h refl
Pop-Carried xs (pop_some _) s h = carried xs may_stay s h refl
Pop-Carried xs pop_lock_fail s h = carried xs may_stay s h refl
Pop-Carried xs (pop_busy _) s h = carried xs may_busy s h refl
Pop-Carried {q} xs (pop_lock _) s h =
    carried xs may_stay (resized q (record q { lock = 1 }) xs refl refl s)
      (relocked q 1 q.count xs h) refl
Pop-Carried xs (pop_none _) s h = carried xs may_stay s h refl
Pop-Carried {q} xs pop_retry s h =
    carried xs may_stay (resized q (record q { lock = 0 }) xs refl refl s)
      (relocked q 0 q.count xs h) refl
Pop-Carried xs (pop_empty z) s h = carried xs (may_empty (s.size ∙ z)) s h refl
Pop-Carried xs (pop_go ne) s h = carried xs may_stay s (ground arith, h) refl
Pop-Carried xs pop_load s (pos, h) = carried xs may_stay s (pos, refl, h) refl
Pop-Carried xs pop_copy s (pos, at, h) = carried xs may_stay s (pos, at, refl, h) refl
Pop-Carried {q} xs (pop_store {out} {h}) s (pos, at, o, r) =
    let ys : List (List ℕ) = window (cell q) q.depth ((q.head + 1) % q.depth) (q.count - 1) in
    let split = window_pop (cell q) q.depth q.head q.count pos r.first in
    let first : xs ≡ out ∷ ys = rw (o, at) (r.cells ∙ split) in
    carried xs may_stay (resized q (record q { head = u32 (h + 1) % q.depth }) xs refl refl s)
      (pos, ys, first, popped-Ring q xs h s pos at r) refl
Pop-Carried {q} xs (pop_count {out}) s (pos, ys, e, r) =
    let n : u32 (q.count + 2 ^ 32 - 1) ≡ q.count - 1 = omega (arith, s.most, s.word, pos) in
    let less : length xs ≡ suc (length ys) = ap length e in
    carried ys (may_pop e)
      (record {
        room = s.room;
        word = s.word;
        most = omega (arith, n, s.most);
        size = omega (arith, n, less, s.size);
      })
      (recounted q (u32 (q.count + 2 ^ 32 - 1)) (q.count - 1) ys n r) refl

pub Peek-Carried :
    {q q' : Queue} {p p' : Pc} {l : Label} (xs : List (List ℕ))
    → Peek q p l q' p'
    → Sized q xs
    → Held q p xs
    → Carried q xs l q' p'
Peek-Carried xs peek_call s h = carried xs may_stay s h refl
Peek-Carried xs (peek_refuse z) s h = carried xs (may_empty (s.size ∙ z)) s h refl
Peek-Carried xs (peek_some _) s h = carried xs may_stay s h refl
Peek-Carried xs peek_lock_fail s h = carried xs may_stay s h refl
Peek-Carried {q} xs (peek_lock _) s h =
    carried xs may_stay (resized q (record q { lock = 1 }) xs refl refl s)
      (relocked q 1 q.count xs h) refl
Peek-Carried xs (peek_empty z) s h = carried xs (may_empty (s.size ∙ z)) s h refl
Peek-Carried xs (peek_go ne) s h = carried xs may_stay s (ground arith, h) refl
Peek-Carried xs peek_load s (pos, h) = carried xs may_stay s (pos, refl, h) refl
Peek-Carried {q} xs (peek_copy {h}) s (pos, at, r) =
    let split = window_pop (cell q) q.depth q.head q.count pos r.first in
    let first : xs ≡ cell q h ∷ window (cell q) q.depth ((q.head + 1) % q.depth) (q.count - 1) =
      rw at (r.cells ∙ split) in
    carried xs (may_peek first) s r refl

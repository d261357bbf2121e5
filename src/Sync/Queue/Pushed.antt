-- ===== src/Sync/Queue/Pushed.antt =====
-- One access of a push by the owner of the queue.
use native.Mathlib.Nat.{mod-lt, mod-eq_of_lt, mod-add-mod}
use yakuza_dead_souls_ex.Prelude.{
  ℕ, suc, ◌+◌, ◌-◌, ◌*◌, ◌%◌, ◌^◌, ◌<◌, ◌≡◌, refl, sym, ◌∙◌, List, [], ◌∷◌, ◌++◌, arith,
}
use yakuza_dead_souls_ex.Prelude.Lists.{length, length-append}
use yakuza_dead_souls_ex.Prelude.Ring.{position_ne, window_agree, window_push}
use yakuza_dead_souls_ex.Sync.Queue.{Bytes, memcpy, slice, u32, Queue, Pc, push_storing, Label}
use yakuza_dead_souls_ex.Sync.Queue.Pushing.{
  Push, push_call, push_spin, push_refuse, push_room, push_lock_fail, push_busy, push_lock,
  push_full, push_retry, push_overflow, push_go, push_load, push_copy, push_store, push_count,
}
use yakuza_dead_souls_ex.Sync.Queue.Cells.{cell, cell_filled, cell_kept}
use yakuza_dead_souls_ex.Sync.Queue.Simulation.{
  may_stay, may_push, may_overflow, may_busy, Sized, Ring, Filled, Held,
}
use yakuza_dead_souls_ex.Sync.Queue.Carried.{Carried, carried, resized, relocked, recounted}

-- The cell behind the last one is filled, and the others are as before.
copied :
    (q : Queue) (src : Bytes) (t : ℕ) (xs : List (List ℕ))
    → (q.count < q.depth) × (t ≡ q.tail) × Ring q q.count xs
    → Held
        (record q { buffer = memcpy q.buffer (t * q.elem_size) src q.elem_size })
        (push_storing src t)
        xs
copied q src t xs (free, at, r) = (
  behind,
  record {
    first = r.first;
    free = free;
    stored = rw (← behind) (cell_filled q.buffer src t q.elem_size);
    cells = r.cells ∙ window_agree (cell q) (cell q') q.depth q.head q.head q.count kept;
  },
)
  where
    q' : Queue
    q' = record q { buffer = memcpy q.buffer (t * q.elem_size) src q.elem_size }

    behind : t ≡ (q.head + q.count) % q.depth
    behind = at ∙ r.last

    kept :
        (i : ℕ) → i < q.count → cell q ((q.head + i) % q.depth) ≡ cell q' ((q.head + i) % q.depth)
    kept i lt =
        let e : q.head + i + (q.count - i) ≡ q.head + q.count = omega arith in
        let apart =
          position_ne q.depth (q.head + i) (q.count - i) (omega arith) (omega (arith, free)) in
        sym (
          cell_kept q.buffer src t ((q.head + i) % q.depth) q.elem_size
            (λ same. apart (rw e (sym (same ∙ behind)))))

Filled-Ring :
    (q : Queue) (v : List ℕ) (xs : List (List ℕ))
    → q.tail ≡ (q.head + (q.count + 1)) % q.depth
    → Filled q v xs
    → Ring q (q.count + 1) (xs ++ (v ∷ []))
Filled-Ring q v xs at f = record {
  first = f.first;
  last = at;
  cells =
      let e : q.count + 1 ≡ suc q.count = omega arith in
      rw (f.cells, e)
        (sym
          (window_push (cell q) (cell q) q.depth q.head q.count v f.free f.stored (λ j ne. refl)));
}

-- The store of the new tail.
advanced :
    (q : Queue) (t : ℕ)
    → 0 < q.depth
    → q.depth < 2 ^ 32
    → t ≡ (q.head + q.count) % q.depth
    → u32 (t + 1) % q.depth ≡ (q.head + (q.count + 1)) % q.depth
advanced q t pos word at =
    let lt = mod-lt (q.head + q.count) pos in
    let plain : u32 (t + 1) ≡ t + 1 = mod-eq_of_lt (omega (arith, lt, at)) in
    let e : q.head + (q.count + 1) ≡ q.head + q.count + 1 = omega arith in
    rw (plain, e, at) (mod-add-mod (q.head + q.count) q.depth 1)

pushed_on : (xs : List (List ℕ)) (v : List ℕ) → length (xs ++ (v ∷ [])) ≡ length xs + 1
pushed_on xs v = length-append xs (v ∷ [])

pub Push-Carried :
    {q q' : Queue} {p p' : Pc} {l : Label} (xs : List (List ℕ))
    → Push q p l q' p'
    → Sized q xs
    → Held q p xs
    → Carried q xs l q' p'
Push-Carried {q} xs push_call s h = carried xs may_stay s h refl
Push-Carried {q} xs (push_spin _) s h = carried xs may_stay s h refl
Push-Carried {q} xs (push_refuse full) s h =
    carried xs (may_overflow (ground (arith, s.size, s.most))) s h refl
Push-Carried {q} xs (push_room _) s h = carried xs may_stay s h refl
Push-Carried {q} xs push_lock_fail s h = carried xs may_stay s h refl
Push-Carried {q} xs (push_busy _) s h = carried xs may_busy s h refl
Push-Carried {q} xs (push_lock _) s h =
    carried xs may_stay (resized q (record q { lock = 1 }) xs refl refl s)
      (relocked q 1 q.count xs h) refl
Push-Carried {q} xs (push_full _) s h = carried xs may_stay s h refl
Push-Carried {q} xs push_retry s h =
    carried xs may_stay (resized q (record q { lock = 0 }) xs refl refl s)
      (relocked q 0 q.count xs h) refl
Push-Carried {q} xs (push_overflow full) s h =
    carried xs (may_overflow (ground (arith, s.size, s.most))) s h refl
Push-Carried {q} xs (push_go free) s h = carried xs may_stay s (ground arith, h) refl
Push-Carried {q} xs push_load s (free, h) = carried xs may_stay s (free, refl, h) refl
Push-Carried {q} xs (push_copy {src} {t}) s h =
    carried xs may_stay
      (resized q (record q { buffer = memcpy q.buffer (t * q.elem_size) src q.elem_size }) xs refl
        refl s)
      (copied q src t xs h) refl
Push-Carried {q} xs (push_store {src} {t}) s (at, f) =
    let q' : Queue = record q { tail = u32 (t + 1) % q.depth } in
    carried xs may_stay (resized q q' xs refl refl s)
      (
        advanced q t s.room s.word at,
        record { first = f.first; free = f.free; stored = f.stored; cells = f.cells },
      )
      refl
Push-Carried {q} xs (push_count {src}) s (at, f) =
    let v : List ℕ = slice src 0 q.elem_size in
    let e : u32 (q.count + 1) ≡ q.count + 1 = omega (arith, f.free, s.word) in
    carried (xs ++ (v ∷ [])) (may_push (omega (arith, s.size, f.free)))
      (record {
        room = s.room;
        word = s.word;
        most = omega (arith, f.free, e);
        size = omega (arith, pushed_on xs v, s.size, e);
      })
      (recounted q (u32 (q.count + 1)) (q.count + 1) (xs ++ (v ∷ [])) e (Filled-Ring q v xs at f))
      refl

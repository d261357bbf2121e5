-- ===== src/Sync/Queue/Carried.antt =====
-- What one access by the owner of a queue has to show.
use yakuza_dead_souls_ex.Prelude.{ℕ, ◌≡◌, sym, ◌∙◌, List, arith}
use yakuza_dead_souls_ex.Sync.Queue.{Queue, Pc, Label}
use yakuza_dead_souls_ex.Sync.Queue.Simulation.{Spec, Sized, Ring, Held}

-- The list after the access, and what holds of it.
pub record Carried (q : Queue) (xs : List (List ℕ)) (l : Label) (q' : Queue) (p' : Pc)
    : Type 0 where
  pub list : List (List ℕ)
  pub spec : Spec q.depth xs l list
  pub sized : Sized q' list
  pub held : Held q' p' list
  pub depth : q'.depth ≡ q.depth

pub carried :
    {q q' : Queue} {xs : List (List ℕ)} {l : Label} {p' : Pc} (ys : List (List ℕ))
    → Spec q.depth xs l ys
    → Sized q' ys
    → Held q' p' ys
    → q'.depth ≡ q.depth
    → Carried q xs l q' p'
carried ys a s h d = record { list = ys; spec = a; sized = s; held = h; depth = d }

pub resized :
    (q q' : Queue) (xs : List (List ℕ))
    → q'.depth ≡ q.depth
    → q'.count ≡ q.count
    → Sized q xs
    → Sized q' xs
resized q q' xs d c s = record {
  room = omega (arith, s.room, d);
  word = omega (arith, s.word, d);
  most = omega (arith, s.most, d, c);
  size = s.size ∙ sym c;
}

pub relocked :
    (q : Queue) (k n : ℕ) (xs : List (List ℕ)) → Ring q n xs → Ring (record q { lock = k }) n xs
relocked q k n xs r = record { first = r.first; last = r.last; cells = r.cells }

pub recounted :
    (q : Queue) (k n : ℕ) (xs : List (List ℕ))
    → k ≡ n
    → Ring q n xs
    → Ring (record q { count = k }) k xs
recounted q k n xs e r = rw e (record { first = r.first; last = r.last; cells = r.cells })

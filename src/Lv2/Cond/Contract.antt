-- ===== src/Lv2/Cond/Contract.antt =====
-- What a condition variable promises, apart from runtime/syscalls/sys_cond.c: a number of waiters and a
-- number of signals held for them.
--
-- A signal is held for a waiter that has joined already, and is worth nothing where every waiter has
-- one; a waiter leaves with one of the signals held, whichever it is, or leaves empty-handed when none
-- is held.
use yakuza_dead_souls_ex.Prelude.{ℕ, ◌+◌, ◌<◌, ◌≡◌, List, [], ◌∷◌, min}

pub record Contract : Type 0 where
  pub waiting : ℕ
  pub held : ℕ

pub data Act : Type 0 where
  wait_joins : Act
  wait_served : Act
  wait_expires : Act
  one_signalled : Act
  all_signalled : Act
  unobserved : Act

unfoldable pub Allows : Act → Contract → Contract → Type 0
Allows wait_joins a b = (b.waiting ≡ a.waiting + 1) × (b.held ≡ a.held)
Allows wait_served a b = (0 < a.held) × (b.waiting + 1 ≡ a.waiting) × (b.held + 1 ≡ a.held)
Allows wait_expires a b = (a.held ≡ 0) × (b.waiting + 1 ≡ a.waiting) × (b.held ≡ 0)
Allows one_signalled a b = (b.waiting ≡ a.waiting) × (b.held ≡ min (a.held + 1) a.waiting)
Allows all_signalled a b = (b.waiting ≡ a.waiting) × (b.held ≡ a.waiting)
Allows unobserved a b = (b.waiting ≡ a.waiting) × (b.held ≡ a.held)

-- The histories that the contract allows, the last act first.
pub data History : List Act → Contract → Type 0 where
  nothing_yet : History [] (record { waiting = 0; held = 0 })
  then_ :
      {acts : List Act} {a : Contract} (act : Act) (b : Contract)
      → History acts a
      → Allows act a b
      → History (act ∷ acts) b

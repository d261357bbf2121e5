-- ===== src/Sync/Ticket/Invariant.antt =====
-- The line that the ticket word keeps, in every reachable state.
use mathlib.Core.Option
use yakuza_dead_souls_ex.Prelude.{
  ℕ, ◌+◌, ◌-◌, ◌^◌, ◌<◌, ◌≡◌, refl, ap, ◌≢◌, inl, inr, Option, none, some, arith,
}
use yakuza_dead_souls_ex.Prelude.Tests.{◌==◌, Bool-cases}
use yakuza_dead_souls_ex.Guest.{bswap32}
use yakuza_dead_souls_ex.Sync.Ticket.{
  u16, serving, next, unlock_desired, Pc, idle, locking, spinning, trying, critical, unlocking,
  Move, lock_load, lock_busy, lock_fail, lock_take, spin, enter, try_load, try_busy, try_fail,
  try_take, unlock_load, unlock_stat, unlock_fail, unlock_done, System, move_to, Step, act, initial,
  Reach, start, after,
}
use yakuza_dead_souls_ex.Sync.Ticket.Line.{IsLine, IsLine-same, IsLine-join, IsLine-leave}
use yakuza_dead_souls_ex.Sync.Ticket.Words.{
  pending, halves_lt, lock_desired_lem, try_desired_lem, unlock_desired_lem,
}

-- How many tickets are served before a thread's own, while `c` is served.
abbrev pub place : ℕ → Pc → Option ℕ
place c idle = none
place c (locking _) = none
place c (trying _) = none
place c (spinning t) = some (u16 (u16 t + 2 ^ 16 - c))
place c critical = some 0
place c (unlocking _) = some 0

-- What a thread that unlocks has loaded: a word with a ticket out.
abbrev pub Loaded : Pc → Type 0
Loaded (unlocking r) = serving r ≢ next r
Loaded _ = Unit {0}

pub record Inv (s : System) : Type 0 where
  pub line : IsLine (pending s.word) (λ i. place (serving s.word) (s.pc i))
  pub loaded : (i : ℕ) → Loaded (s.pc i)

-- What one move does to the line: nothing, one more at the end, or the first leaves.
pub data Effect (m w : ℕ) (p q : Pc) : Type 0 where
  stay : w ≡ m → place (serving m) q ≡ place (serving m) p → Effect m w p q
  join :
      serving w ≡ serving m
      → pending w ≡ pending m + 1
      → place (serving m) p ≡ none
      → place (serving w) q ≡ some (pending m)
      → Effect m w p q
  leave :
      serving w ≡ u16 (serving m + 1)
      → pending w + 1 ≡ pending m
      → place (serving m) p ≡ some 0
      → place (serving w) q ≡ none
      → Effect m w p q

pub unlock_succeeds : (r : ℕ) → serving r ≢ next r → unlock_desired r ≢ none
unfolding unlock_desired
unlock_succeeds r ne = ground arith

pub Move-Effect : {m w : ℕ} {p q : Pc} → Move m p w q → Loaded p → Effect m w p q
Move-Effect lock_load _ = stay refl refl
Move-Effect (lock_busy _) _ = stay refl refl
Move-Effect lock_fail _ = stay refl refl
Move-Effect {m} (lock_take {r} {w} e d) _ =
    let f = lock_desired_lem r d in rw e (join f.0 f.2 refl (ground (arith, f, halves_lt r)))
Move-Effect (spin _) _ = stay refl refl
Move-Effect {m} (enter {t} e) _ = stay refl (ground (arith, halves_lt m))
Move-Effect try_load _ = stay refl refl
Move-Effect (try_busy _) _ = stay refl refl
Move-Effect try_fail _ = stay refl refl
Move-Effect {m} (try_take {r} {w} e d) _ =
    let f = try_desired_lem r d in rw e (join f.1 (omega (arith, f)) refl (ground (arith, f)))
Move-Effect unlock_load _ = stay refl refl
Move-Effect (unlock_stat {r} none_out) l = absurd (unlock_succeeds r l none_out)
Move-Effect unlock_fail _ = stay refl refl
Move-Effect {m} (unlock_done {r} {w} e d) _ =
    let f = unlock_desired_lem r d in rw e (leave f.0 f.1 refl refl)

-- An unlock that loads the word finds a ticket out, since its own thread stands in the line.
Move-Loaded :
    {m w : ℕ} {p q : Pc} → Move m p w q → (place (serving m) p ≡ some 0 → 0 < pending m) → Loaded q
Move-Loaded lock_load _ = tt
Move-Loaded (lock_busy _) _ = tt
Move-Loaded lock_fail _ = tt
Move-Loaded (lock_take _ _) _ = tt
Move-Loaded (spin _) _ = tt
Move-Loaded (enter _) _ = tt
Move-Loaded try_load _ = tt
Move-Loaded (try_busy _) _ = tt
Move-Loaded try_fail _ = tt
Move-Loaded (try_take _ _) _ = tt
Move-Loaded {m} unlock_load h = λ same. omega (arith, h refl, same, halves_lt m)
Move-Loaded (unlock_stat _) _ = tt
Move-Loaded {m} unlock_fail h = λ same. omega (arith, h refl, same, halves_lt m)
Move-Loaded (unlock_done _ _) _ = tt

pub moved_self : (pc : ℕ → Pc) (i : ℕ) (q : Pc) → move_to pc i q i ≡ q
moved_self pc i q = ground arith

pub moved_other : (pc : ℕ → Pc) (i j : ℕ) (q : Pc) → j ≢ i → move_to pc i q j ≡ pc j
moved_other pc i j q ne = ground arith

-- Whoever is not first moves up when the next ticket is served.
pub place_next :
    (c : ℕ) (p : Pc)
    → c < 2 ^ 16
    → place c p ≢ some 0
    → place (u16 (c + 1)) p ≡ Option.map (λ k. k - 1) (place c p)
place_next c idle h ne = refl
place_next c (locking _) h ne = refl
place_next c (trying _) h ne = refl
place_next c (spinning t) h ne =
    let nz : u16 (u16 t + 2 ^ 16 - c) ≢ 0 = λ z. ne (ap some z) in ap some (omega arith)
place_next c critical h ne = absurd (ne refl)
place_next c (unlocking _) h ne = absurd (ne refl)

module _ (m w i : ℕ) (pc : ℕ → Pc) (q : Pc) where
  kept :
      (c : ℕ) → place c q ≡ place c (pc i) → (j : ℕ) → place c (move_to pc i q j) ≡ place c (pc j)
  kept c same j = elim (Bool-cases (j == i)) [
    | inl here ↦ let e : j ≡ i = ground arith in rw (e, moved_self pc i q) same
    | inr other ↦ ap (place c) (moved_other pc i j q (ground arith))
  ]

  at_mover : (c : ℕ) {o : Option ℕ} → place c q ≡ o → place c (move_to pc i q i) ≡ o
  at_mover c e = rw (moved_self pc i q) e

  Effect-IsLine :
      Effect m w (pc i) q
      → IsLine (pending m) (λ j. place (serving m) (pc j))
      → IsLine (pending w) (λ j. place (serving w) (move_to pc i q j))
  Effect-IsLine (stay e same) l = rw e (IsLine-same (pending m) _ _ (kept (serving m) same) l)
  Effect-IsLine (join s n out last) l = rw n (
      IsLine-join (pending m) (λ j. place (serving m) (pc j))
        (λ j. place (serving w) (move_to pc i q j)) i out (at_mover (serving w) last)
        (λ j ne. rw (s, moved_other pc i j q ne)) l)
  Effect-IsLine (leave s n first gone) l = rw (one_less n) (
      IsLine-leave (pending m) (λ j. place (serving m) (pc j))
        (λ j. place (serving w) (move_to pc i q j)) i first (at_mover (serving w) gone)
        (λ j ne.
          rw (s, moved_other pc i j q ne)
            (place_next (serving m) (pc j) (halves_lt m).0 (λ z. ne (l.unique j i 0 z first))))
        l)
    where
      one_less : pending w + 1 ≡ pending m → pending w ≡ pending m - 1
      one_less h = omega arith

  Effect-loaded : Loaded q → ((j : ℕ) → Loaded (pc j)) → (j : ℕ) → Loaded (move_to pc i q j)
  Effect-loaded new old j = elim (Bool-cases (j == i)) [
    | inl here ↦ rw here new
    | inr other ↦ rw other (old j)
  ]

pub Step-Inv : {s t : System} → Step s t → Inv s → Inv t
Step-Inv {s} (act i w p mv) v = record {
  line = Effect-IsLine s.word w i s.pc p (Move-Effect mv (v.loaded i)) v.line;
  loaded =
      Effect-loaded s.word w i s.pc p
        (Move-Loaded mv (λ first. omega (arith, v.line.range i 0 first))) v.loaded;
}

initial-Inv : Inv initial
unfolding bswap32
initial-Inv = record {
  line = record {
    range = λ i k e. cc;
    unique = λ i j k e f. cc;
    covered = λ k h. absurd (omega arith);
  };
  loaded = λ i. tt;
}

pub Reach-Inv : {s : System} → Reach s → Inv s
Reach-Inv start = initial-Inv
Reach-Inv (after r st) = Step-Inv st (Reach-Inv r)

-- ===== src/Prelude/Ring.antt =====
-- A circular buffer seen as the list of what it holds. The cells are a function, so that one proof
-- serves a table of records and a byte buffer cut into elements. Positions count on without end, and
-- only the access goes round.
use Prim.Native.Nat.{ℕ, zero, suc, ◌+◌, ◌-◌, ◌%◌, ◌<◌}
use mathlib.Core.Path.{◌≡◌, refl, sym, ◌∙◌, ap, ap₂}
use mathlib.Core.Logic.{◌≢◌, ◌⊎◌, inl, inr}
use mathlib.Core.Bool.{true, false}
use mathlib.Core.List.{List, [], ◌∷◌, ◌++◌}
use native.Mathlib.Nat.{mod-add-mod, mod-lt, mod-eq_of_lt, mod-eq-sub-mod}
use native.Mathlib.Omega.{arith}
use yakuza_dead_souls_ex.Prelude.Tests.{ltb, Bool-cases}
use yakuza_dead_souls_ex.Prelude.Lists.{length}

-- Two positions less than a round apart are different cells.
pub position_ne : (cap p d : ℕ) → 0 < d → d < cap → (p + d) % cap ≢ p % cap
position_ne cap p d pos lt same = go (Bool-cases (ltb (p % cap + d) cap))
  where
    r : ℕ
    r = p % cap

    inside : r < cap
    inside = mod-lt p (omega arith)

    reduced : (r + d) % cap ≡ r
    reduced = mod-add-mod p cap d ∙ same

    go : (ltb (r + d) cap ≡ true) ⊎ (ltb (r + d) cap ≡ false) → ⊥
    go (inl short) =
        let plain : (r + d) % cap ≡ r + d = mod-eq_of_lt (ground arith) in
        omega (arith, plain, reduced)
    go (inr long) =
        let over : (r + d) % cap ≡ (r + d - cap) % cap = mod-eq-sub-mod (ground arith) in
        let rest : (r + d - cap) % cap ≡ r + d - cap = mod-eq_of_lt (ground (arith, inside)) in
        ground (arith, over, rest, reduced, inside)

module _ {ℓ} {A : Type ℓ} where
  -- The cells at the positions `p`, `p + 1`, …, `n` of them.
  abbrev pub window : (ℕ → A) → ℕ → ℕ → ℕ → List A
  window cell cap p zero = []
  window cell cap p (suc n) = cell (p % cap) ∷ window cell cap (p + 1) n

  pub length-window : (cell : ℕ → A) (cap p n : ℕ) → length (window cell cap p n) ≡ n
  length-window cell cap p zero = refl
  length-window cell cap p (suc n) = omega (arith, length-window cell cap (p + 1) n)

  -- Only the cells that are passed matter, so a window depends on its start modulo the capacity.
  pub window_agree :
      (cell cell' : ℕ → A) (cap p p' n : ℕ)
      → ((i : ℕ) → i < n → cell ((p + i) % cap) ≡ cell' ((p' + i) % cap))
      → window cell cap p n ≡ window cell' cap p' n
  window_agree cell cell' cap p p' zero agree = refl
  window_agree cell cell' cap p p' (suc n) agree = ap₂ ◌∷◌ (first (agree 0 (omega arith))) (
      window_agree cell cell' cap (p + 1) (p' + 1) n (λ i lt. next i (agree (suc i) (omega arith))))
    where
      first : cell ((p + 0) % cap) ≡ cell' ((p' + 0) % cap) → cell (p % cap) ≡ cell' (p' % cap)
      first e =
          let a : p + 0 ≡ p = omega arith in let b : p' + 0 ≡ p' = omega arith in rw (← a, ← b) e

      next :
          (i : ℕ)
          → cell ((p + suc i) % cap) ≡ cell' ((p' + suc i) % cap)
          → cell ((p + 1 + i) % cap) ≡ cell' ((p' + 1 + i) % cap)
      next i e =
          let a : p + 1 + i ≡ p + suc i = omega arith in
          let b : p' + 1 + i ≡ p' + suc i = omega arith in rw (a, b) e

  pub window_mod : (cell : ℕ → A) (cap p n : ℕ) → window cell cap (p % cap) n ≡ window cell cap p n
  window_mod cell cap p n =
      window_agree cell cell cap (p % cap) p n (λ i lt. ap cell (mod-add-mod p cap i))

  -- The oldest cell, taken out; `suc` against the `count > 0` of the code.
  pub window_pop :
      (cell : ℕ → A) (cap p n : ℕ)
      → 0 < n
      → p < cap
      → window cell cap p n ≡ cell p ∷ window cell cap ((p + 1) % cap) (n - 1)
  window_pop cell cap p zero pos lt = absurd (omega arith)
  window_pop cell cap p (suc n) pos lt =
      let a : suc n - 1 ≡ n = omega arith in
      rw (a, window_mod cell cap (p + 1) n, mod-eq_of_lt lt) refl

  -- The cell after the last one, taken in.
  pub window_snoc :
      (cell : ℕ → A) (cap p n : ℕ)
      → window cell cap p (suc n) ≡ window cell cap p n ++ (cell ((p + n) % cap) ∷ [])
  window_snoc cell cap p zero =
      let a : p + 0 ≡ p = omega arith in ap (λ k. cell (k % cap) ∷ []) (sym a)
  window_snoc cell cap p (suc n) =
      let a : p + 1 + n ≡ p + suc n = omega arith in
      ap (◌∷◌ (cell (p % cap))) (rw (← a) (window_snoc cell cap (p + 1) n))

  -- A write at the position after the last one of a window that is not full.
  pub window_push :
      (cell cell' : ℕ → A) (cap p n : ℕ) (v : A)
      → n < cap
      → cell' ((p + n) % cap) ≡ v
      → ((j : ℕ) → j ≢ (p + n) % cap → cell' j ≡ cell j)
      → window cell' cap p (suc n) ≡ window cell cap p n ++ (v ∷ [])
  window_push cell cell' cap p n v lt new old =
      window_snoc cell' cap p n
      ∙ ap₂ (λ xs x. xs ++ (x ∷ [])) (window_agree cell' cell cap p p n kept) new
    where
      kept : (i : ℕ) → i < n → cell' ((p + i) % cap) ≡ cell ((p + i) % cap)
      kept i below =
          let apart = position_ne cap (p + i) (n - i) (omega arith) (omega arith) in
          let at : p + i + (n - i) ≡ p + n = omega arith in
          old ((p + i) % cap) (λ same. apart (rw at (sym same)))

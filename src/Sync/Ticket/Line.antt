-- ===== src/Sync/Ticket/Line.antt =====
-- A line of waiters without the words: each thread has a place, or none, and the places are exactly
-- the numbers below the line's length.
use mathlib.Core.Option
use yakuza_dead_souls_ex.Prelude.{
  ℕ, zero, suc, ◌+◌, ◌-◌, ◌<◌, ◌≡◌, refl, sym, ◌∙◌, ◌≢◌, ◌⊎◌, inl, inr, Option, none, some, arith,
}
use yakuza_dead_souls_ex.Prelude.Tests.{◌==◌, Bool-cases}

pub record IsLine (n : ℕ) (place : ℕ → Option ℕ) : Type 0 where
  pub range : (i k : ℕ) → place i ≡ some k → k < n
  pub unique : (i j k : ℕ) → place i ≡ some k → place j ≡ some k → i ≡ j
  pub covered : (k : ℕ) → k < n → (i : ℕ) × (place i ≡ some k)

pub IsLine-same : (n : ℕ) (p q : ℕ → Option ℕ) → ((i : ℕ) → q i ≡ p i) → IsLine n p → IsLine n q
IsLine-same n p q same l = record {
  range = λ i k e. l.range i k (sym (same i) ∙ e);
  unique = λ i j k e f. l.unique i j k (sym (same i) ∙ e) (sym (same j) ∙ f);
  covered = λ k h. let (i, e) = l.covered k h in (i, same i ∙ e);
}

-- A thread joins at the end.
module _ (n : ℕ) (p q : ℕ → Option ℕ) (i : ℕ) (out : p i ≡ none) (last : q i ≡ some n)
    (rest : (j : ℕ) → j ≢ i → q j ≡ p j) where
  join_cases : (j k : ℕ) → q j ≡ some k → ((j ≡ i) × (k ≡ n)) ⊎ ((j ≢ i) × (p j ≡ some k))
  join_cases j k e = elim (Bool-cases (j == i)) [
    | inl same ↦ let s : j ≡ i = ground arith in inl (s, ground (arith, last))
    | inr other ↦ let d : j ≢ i = ground arith in inr (d, sym (rest j d) ∙ e)
  ]

  pub IsLine-join : IsLine n p → IsLine (n + 1) q
  IsLine-join l = record {
    range = λ j k e. elim (join_cases j k e) [
      | inl (_, new) ↦ omega arith
      | inr (_, old) ↦ omega (arith, l.range j k old)
    ];
    unique = λ j j' k e e'. one j j' k (join_cases j k e) (join_cases j' k e');
    covered = λ k h. elim (Bool-cases (k == n)) [
      | inl new ↦ let eq : k ≡ n = ground arith in (i, rw eq last)
      | inr old ↦
          let (j, e) = l.covered k (ground arith) in
          (j, rest j (λ same. ground (arith, same, out, e)) ∙ e)
    ];
  }
    where
      one :
          (j j' k : ℕ)
          → ((j ≡ i) × (k ≡ n)) ⊎ ((j ≢ i) × (p j ≡ some k))
          → ((j' ≡ i) × (k ≡ n)) ⊎ ((j' ≢ i) × (p j' ≡ some k))
          → j ≡ j'
      one j j' k (inl (a, _)) (inl (b, _)) = a ∙ sym b
      one j j' k (inl (_, end)) (inr (_, e)) = absurd (omega (arith, l.range j' k e))
      one j j' k (inr (_, e)) (inl (_, end)) = absurd (omega (arith, l.range j k e))
      one j j' k (inr (_, e)) (inr (_, e')) = l.unique j j' k e e'

-- Whoever stands first leaves, and everybody else moves up by one.
module _ (n : ℕ) (p q : ℕ → Option ℕ) (i : ℕ) (first : p i ≡ some 0) (gone : q i ≡ none)
    (rest : (j : ℕ) → j ≢ i → q j ≡ Option.map (λ k. k - 1) (p j)) where
  leave_cases : IsLine n p → (j k : ℕ) → q j ≡ some k → p j ≡ some (k + 1)
  leave_cases l j k e = elim (Bool-cases (j == i)) [
    | inl same ↦ let s : j ≡ i = ground arith in absurd (ground arith)
    | inr other ↦
        let d : j ≢ i = ground arith in
        moved (p j) refl (sym (rest j d) ∙ e) (λ h. d (l.unique j i 0 h first))
  ]
    where
      moved :
          (o : Option ℕ)
          → p j ≡ o
          → Option.map (λ k. k - 1) o ≡ some k
          → p j ≢ some 0
          → p j ≡ some (k + 1)
      moved none e h ne = ground arith
      moved (some zero) e h ne = absurd (ne e)
      moved (some (suc m)) e h ne = ground arith

  pub IsLine-leave : IsLine n p → IsLine (n - 1) q
  IsLine-leave l = record {
    range = λ j k e. omega (arith, l.range j (k + 1) (leave_cases l j k e));
    unique = λ j j' k e e'. l.unique j j' (k + 1) (leave_cases l j k e) (leave_cases l j' k e');
    covered = λ k h.
        let (j, e) = l.covered (k + 1) (omega arith) in
        (j, rest j (λ same. ground (arith, same, first, e)) ∙ shifted j k e);
  }
    where
      shifted : (j k : ℕ) → p j ≡ some (k + 1) → Option.map (λ m. m - 1) (p j) ≡ some k
      shifted j k e = rw e (ground arith)

-- ===== src/Prelude/Lists.antt =====
-- Lists measured and indexed by native numbers: the fixed tables of the source.
use Prim.Native.Nat.{ℕ, zero, suc, ◌+◌, ◌≤◌, ◌<◌}
use mathlib.Core.Path.{◌≡◌, refl, ap}
use mathlib.Core.Logic.{◌≢◌, ◌⊎◌, inl, inr}
use mathlib.Core.Bool.{Bool, true, false}
use mathlib.Core.List.{List, [], ◌∷◌, ◌++◌}
use mathlib.Core.Option
use mathlib.Core.Option.{Option, none, some}
use native.Mathlib.Omega.{arith}
use yakuza_dead_souls_ex.Prelude.Tests.{if◌then◌else◌, Option-cases}

module _ {ℓ} {A : Type ℓ} where
  abbrev pub length : List A → ℕ
  length [] = 0
  length (x ∷ xs) = suc (length xs)

  abbrev pub get_elem? : List A → ℕ → Option A
  get_elem? [] i = none
  get_elem? (x ∷ xs) zero = some x
  get_elem? (x ∷ xs) (suc i) = get_elem? xs i

  -- A write out of bounds changes nothing.
  abbrev pub set : List A → ℕ → A → List A
  set [] i v = []
  set (x ∷ xs) zero v = v ∷ xs
  set (x ∷ xs) (suc i) v = x ∷ set xs i v

  abbrev pub get_or : List A → ℕ → A → A
  get_or [] i d = d
  get_or (x ∷ xs) zero d = x
  get_or (x ∷ xs) (suc i) d = get_or xs i d

  abbrev pub take : ℕ → List A → List A
  take zero xs = []
  take (suc n) [] = []
  take (suc n) (x ∷ xs) = x ∷ take n xs

  abbrev pub drop : ℕ → List A → List A
  drop zero xs = xs
  drop (suc n) [] = []
  drop (suc n) (x ∷ xs) = drop n xs

  abbrev pub replicate : ℕ → A → List A
  replicate zero a = []
  replicate (suc n) a = a ∷ replicate n a

  pub length-set : (xs : List A) (i : ℕ) (v : A) → length (set xs i v) ≡ length xs
  length-set [] i v = refl
  length-set (x ∷ xs) zero v = refl
  length-set (x ∷ xs) (suc i) v = ap suc (length-set xs i v)

  pub length-append : (xs ys : List A) → length (xs ++ ys) ≡ length xs + length ys
  length-append [] ys = omega arith
  length-append (x ∷ xs) ys = omega (arith, length-append xs ys)

  pub get_elem?_lt : (xs : List A) (i : ℕ) {a : A} → get_elem? xs i ≡ some a → i < length xs
  get_elem?_lt [] i h = ground arith
  get_elem?_lt (x ∷ xs) zero h = omega arith
  get_elem?_lt (x ∷ xs) (suc i) h = omega (arith, get_elem?_lt xs i h)

  pub get_elem?-set_self :
      (xs : List A) (i : ℕ) (v : A) → i < length xs → get_elem? (set xs i v) i ≡ some v
  get_elem?-set_self [] i v h = elim h [ ]
  get_elem?-set_self (x ∷ xs) zero v h = refl
  get_elem?-set_self (x ∷ xs) (suc i) v h = get_elem?-set_self xs i v (omega arith)

  pub get_elem?-set_ne :
      (xs : List A) (i j : ℕ) (v : A) → i ≢ j → get_elem? (set xs i v) j ≡ get_elem? xs j
  get_elem?-set_ne [] i j v h = refl
  get_elem?-set_ne (x ∷ xs) zero zero v h = absurd (h refl)
  get_elem?-set_ne (x ∷ xs) zero (suc j) v h = refl
  get_elem?-set_ne (x ∷ xs) (suc i) zero v h = refl
  get_elem?-set_ne (x ∷ xs) (suc i) (suc j) v h = get_elem?-set_ne xs i j v (λ e. h (ap suc e))

  pub get_or-set_self :
      (xs : List A) (i : ℕ) (v d : A) → i < length xs → get_or (set xs i v) i d ≡ v
  get_or-set_self [] i v d h = elim h [ ]
  get_or-set_self (x ∷ xs) zero v d h = refl
  get_or-set_self (x ∷ xs) (suc i) v d h = get_or-set_self xs i v d (omega arith)

  pub get_or-set_ne :
      (xs : List A) (i j : ℕ) (v d : A) → i ≢ j → get_or (set xs i v) j d ≡ get_or xs j d
  get_or-set_ne [] i j v d h = refl
  get_or-set_ne (x ∷ xs) zero zero v d h = absurd (h refl)
  get_or-set_ne (x ∷ xs) zero (suc j) v d h = refl
  get_or-set_ne (x ∷ xs) (suc i) zero v d h = refl
  get_or-set_ne (x ∷ xs) (suc i) (suc j) v d h = get_or-set_ne xs i j v d (λ e. h (ap suc e))

  pub length-replicate : (n : ℕ) (a : A) → length (replicate n a) ≡ n
  length-replicate zero a = refl
  length-replicate (suc n) a = ap suc (length-replicate n a)

  pub get_elem?-replicate :
      (n : ℕ) (a : A) (i : ℕ) {x : A} → get_elem? (replicate n a) i ≡ some x → x ≡ a
  get_elem?-replicate zero a i h = ground arith
  get_elem?-replicate (suc n) a zero h = ground arith
  get_elem?-replicate (suc n) a (suc i) h = get_elem?-replicate n a i h

  pub set-set : (xs : List A) (i : ℕ) (v w : A) → set (set xs i v) i w ≡ set xs i w
  set-set [] i v w = refl
  set-set (x ∷ xs) zero v w = refl
  set-set (x ∷ xs) (suc i) v w = ap (◌∷◌ x) (set-set xs i v w)

  -- The index of the first entry that passes the test: the `for` loops that look for a slot.
  unfoldable pub find_index : (A → Bool) → List A → Option ℕ
  find_index p [] = none
  find_index p (x ∷ xs) = if p x then some 0 else Option.map suc (find_index p xs)

  pub find_index-some :
      (p : A → Bool) (xs : List A) (i : ℕ)
      → find_index p xs ≡ some i
      → (a : A) × (get_elem? xs i ≡ some a) × (p a ≡ true)
  unfolding find_index
  find_index-some p [] i h = ground arith
  find_index-some p (x ∷ xs) zero h = (x, refl, ground arith)
  find_index-some p (x ∷ xs) (suc i) h = find_index-some p xs i (ground arith)

  -- A search that finds nothing has seen every entry fail the test.
  pub find_index-none :
      (p : A → Bool) (xs : List A) (i : ℕ) {a : A}
      → find_index p xs ≡ none
      → get_elem? xs i ≡ some a
      → p a ≡ false
  unfolding find_index
  find_index-none p [] i h e = ground arith
  find_index-none p (x ∷ xs) zero h e = ground arith
  find_index-none p (x ∷ xs) (suc i) h e = find_index-none p xs i (ground arith) e

  -- A write changes one entry.
  pub get_elem?-set_cases :
      (xs : List A) (i j : ℕ) (v : A) {a : A}
      → get_elem? (set xs i v) j ≡ some a
      → ((i ≡ j) × (a ≡ v)) ⊎ ((i ≢ j) × (get_elem? xs j ≡ some a))
  get_elem?-set_cases [] i j v h = ground arith
  get_elem?-set_cases (x ∷ xs) zero zero v h = inl (refl, ground arith)
  get_elem?-set_cases (x ∷ xs) zero (suc j) v h = inr (ground arith, h)
  get_elem?-set_cases (x ∷ xs) (suc i) zero v h = inr (ground arith, h)
  get_elem?-set_cases (x ∷ xs) (suc i) (suc j) v h = ground (arith, get_elem?-set_cases xs i j v h)

  -- The weights of all entries, summed.
  unfoldable pub total : (A → ℕ) → List A → ℕ
  total w [] = 0
  total w (x ∷ xs) = w x + total w xs

  -- A write changes the sum by the weight of one entry.
  pub total-set :
      (w : A → ℕ) (xs : List A) (i : ℕ) (v : A) {a : A}
      → get_elem? xs i ≡ some a
      → total w (set xs i v) + w a ≡ total w xs + w v
  unfolding total
  total-set w [] i v h = ground arith
  total-set w (x ∷ xs) zero v {a} h = let e : x ≡ a = cc in omega (arith, ap w e)
  total-set w (x ∷ xs) (suc i) v h = omega (arith, total-set w xs i v h)

  -- One entry weighs at most as much as all.
  pub le-total :
      (w : A → ℕ) (xs : List A) (i : ℕ) {a : A} → get_elem? xs i ≡ some a → w a ≤ total w xs
  unfolding total
  le-total w [] i h = ground arith
  le-total w (x ∷ xs) zero {a} h = let e : x ≡ a = cc in omega (arith, ap w e)
  le-total w (x ∷ xs) (suc i) h = omega (arith, le-total w xs i h)

  -- A heavier weight has a heavier sum, and unit weights sum to the length.
  pub total_mono : (v w : A → ℕ) (xs : List A) → ((x : A) → v x ≤ w x) → total v xs ≤ total w xs
  unfolding total
  total_mono v w [] h = omega arith
  total_mono v w (x ∷ xs) h = omega (arith, h x, total_mono v w xs h)

  pub total-le-length : (w : A → ℕ) (xs : List A) → ((x : A) → w x ≤ 1) → total w xs ≤ length xs
  unfolding total
  total-le-length w [] h = omega arith
  total-le-length w (x ∷ xs) h = omega (arith, h x, total-le-length w xs h)

  pub find_index_total :
      (p : A → Bool) (xs : List A) (i : ℕ) {a : A}
      → get_elem? xs i ≡ some a
      → p a ≡ true
      → (j : ℕ) × (find_index p xs ≡ some j)
  find_index_total p xs i h t = elim (Option-cases (find_index p xs)) [
    | inl e ↦ absurd (ground (arith, find_index-none p xs i e h))
    | inr found ↦ found
  ]

-- ===== src/Lv2/Memory/Invariant.antt =====
-- The invariant of the allocation table: the allocations stand apart, inside the window, and are
-- paid for.
use yakuza_dead_souls_ex.Prelude.{
  ℕ, ◌+◌, ◌%◌, ◌≤◌, ◌<◌, ◌≡◌, refl, ◌≢◌, ◌⊎◌, inl, inr, true, some, List, arith,
}
use yakuza_dead_souls_ex.Prelude.Tests.{if◌then◌else◌}
use yakuza_dead_souls_ex.Prelude.Lists.{set, get_elem?, total, total-set, get_elem?-set_cases}
use yakuza_dead_souls_ex.Guest.{u32}
use yakuza_dead_souls_ex.Guest.Words.{align_up_lem}
use yakuza_dead_souls_ex.Lv2.Memory.{
  State, AllocInfo, alloc_base, alloc_end, user_total, page_1m, page_64k, place, block, is_free,
  claim,
}

-- What an allocation counts against the budget.
abbrev pub charge : AllocInfo → ℕ
charge a = if a.active then a.size else 0

abbrev pub IsPage : ℕ → Type 0
IsPage n = (n ≡ page_1m) ⊎ (n ≡ page_64k)

-- An allocation below the bump pointer.
pub record IsHeld (bump : ℕ) (a : AllocInfo) : Type 0 where
  pub above : alloc_base ≤ a.addr
  pub below : a.addr + a.size ≤ bump
  pub inhabited : 0 < a.size
  pub page : IsPage a.page_size
  pub addr_aligned : a.addr % a.page_size ≡ 0
  pub size_aligned : a.size % a.page_size ≡ 0

abbrev pub Apart : AllocInfo → AllocInfo → Type 0
Apart a b = (a.addr + a.size ≤ b.addr) ⊎ (b.addr + b.size ≤ a.addr)

abbrev pub AllHeld : ℕ → List AllocInfo → Type 0
AllHeld bump allocs =
    (i : ℕ) (a : AllocInfo) → get_elem? allocs i ≡ some a → a.active ≡ true → IsHeld bump a

abbrev pub AllApart : List AllocInfo → Type 0
AllApart allocs =
    (i j : ℕ) (a b : AllocInfo)
    → get_elem? allocs i ≡ some a
    → get_elem? allocs j ≡ some b
    → a.active ≡ true
    → b.active ≡ true
    → i ≢ j
    → Apart a b

pub record IsValid (s : State) : Type 0 where
  pub window : (s.bump_ptr ≡ 0) ⊎ (alloc_base ≤ s.bump_ptr)
  pub end : s.bump_ptr ≤ alloc_end
  pub held : AllHeld s.bump_ptr s.allocs
  pub apart : AllApart s.allocs
  pub paid : total charge s.allocs ≤ s.total_allocated
  pub budget : s.total_allocated ≤ user_total

pub IsHeld-mono : (m n : ℕ) (a : AllocInfo) → m ≤ n → IsHeld m a → IsHeld n a
IsHeld-mono m n a le h = record {
  above = h.above;
  below = omega arith;
  inhabited = h.inhabited;
  page = h.page;
  addr_aligned = h.addr_aligned;
  size_aligned = h.size_aligned;
}

-- Where the aligned bump pointer lands.
pub place_bump :
    (s : State) (alignment : ℕ)
    → IsPage alignment
    → IsValid s
    → (alloc_base ≤ (place s alignment).bump_ptr)
      × ((place s alignment).bump_ptr ≤ alloc_end)
      × (s.bump_ptr ≤ (place s alignment).bump_ptr)
      × ((place s alignment).bump_ptr % alignment ≡ 0)
unfolding place
place_bump s alignment (inl p) v = rw p (
    ground (
      arith,
      v.window,
      v.end,
      align_up_lem 20 12 s.bump_ptr refl,
      align_up_lem 20 12 alloc_base refl,
    ))
place_bump s alignment (inr p) v = rw p (
    ground (
      arith,
      v.window,
      v.end,
      align_up_lem 16 16 s.bump_ptr refl,
      align_up_lem 16 16 alloc_base refl,
    ))

pub place-IsValid :
    (s : State) (alignment : ℕ) → IsPage alignment → IsValid s → IsValid (place s alignment)
unfolding place
place-IsValid s alignment p v = record {
  window = inr b.0;
  end = b.1;
  held = λ i a e t. IsHeld-mono s.bump_ptr _ a b.2 (v.held i a e t);
  apart = v.apart;
  paid = v.paid;
  budget = v.budget;
}
  where
    b :
        (alloc_base ≤ (place s alignment).bump_ptr)
        × ((place s alignment).bump_ptr ≤ alloc_end)
        × (s.bump_ptr ≤ (place s alignment).bump_ptr)
        × ((place s alignment).bump_ptr % alignment ≡ 0)
    b = place_bump s alignment p v

-- A block laid at the bump pointer is apart from every allocation.
pub new-Apart :
    (s : State) (size alignment : ℕ)
    → IsValid s
    → (i : ℕ) (a : AllocInfo) → get_elem? s.allocs i ≡ some a
    → a.active ≡ true
    → Apart a (block s.bump_ptr size alignment)
new-Apart s size alignment v i a e t = inl (v.held i a e t).below

-- The block that the call is about to claim fits.
pub record Fits (s : State) (size alignment : ℕ) : Type 0 where
  pub page : IsPage alignment
  pub positive : 0 < size
  pub aligned : s.bump_ptr % alignment ≡ 0
  pub size_aligned : size % alignment ≡ 0
  pub base : alloc_base ≤ s.bump_ptr
  pub room : s.bump_ptr + size ≤ alloc_end
  pub payable : s.total_allocated + size ≤ user_total

module _ (s : State) (slot size alignment : ℕ) (v : IsValid s) (f : Fits s size alignment) where
  claim-held : AllHeld (s.bump_ptr + size) (set s.allocs slot (block s.bump_ptr size alignment))
  claim-held i a e t = elim (get_elem?-set_cases s.allocs slot i _ e) [
    | inl (_, new) ↦ rw new (record {
      above = f.base;
      below = omega arith;
      inhabited = f.positive;
      page = f.page;
      addr_aligned = f.aligned;
      size_aligned = f.size_aligned;
    })
    | inr (_, old) ↦ IsHeld-mono s.bump_ptr _ a (omega arith) (v.held i a old t)
  ]

  claim-apart : AllApart (set s.allocs slot (block s.bump_ptr size alignment))
  claim-apart i j a b ei ej ti tj ne =
      go (get_elem?-set_cases s.allocs slot i _ ei) (get_elem?-set_cases s.allocs slot j _ ej)
    where
      new : AllocInfo
      new = block s.bump_ptr size alignment

      go :
          ((slot ≡ i) × (a ≡ new)) ⊎ ((slot ≢ i) × (get_elem? s.allocs i ≡ some a))
          → ((slot ≡ j) × (b ≡ new)) ⊎ ((slot ≢ j) × (get_elem? s.allocs j ≡ some b))
          → Apart a b
      go (inl (hi, _)) (inl (hj, _)) = absurd (omega arith)
      go (inl (hi, e)) (inr (_, old)) = rw e (inr (v.held j b old tj).below)
      go (inr (_, old)) (inl (hj, e)) = rw e (inl (v.held i a old ti).below)
      go (inr (_, old)) (inr (_, old')) = v.apart i j a b old old' ti tj ne

  pub claim-IsValid :
      {a : AllocInfo}
      → get_elem? s.allocs slot ≡ some a
      → is_free a ≡ true
      → IsValid (claim s slot size alignment)
  unfolding claim
  claim-IsValid {a} e free = record {
    window = inr (omega (arith, f.base, f.room));
    end = omega (arith, f.room);
    held = rw sum claim-held;
    apart = claim-apart;
    paid = ground (
      arith,
      f.payable,
      v.paid,
      total-set charge s.allocs slot (block s.bump_ptr size alignment) e,
    );
    budget = omega (arith, f.payable);
  }
    where
      sum : u32 (s.bump_ptr + size) ≡ s.bump_ptr + size
      sum = omega (arith, f.room)

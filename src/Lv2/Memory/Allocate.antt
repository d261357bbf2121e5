-- ===== src/Lv2/Memory/Allocate.antt =====
-- The ways that a call of `sys_memory_allocate` can go. What it hands out is in `Memory.Grant`, and
-- what `sys_memory_free` takes back in `Memory.Free`.
use yakuza_dead_souls_ex.Prelude.{
  ℕ, ◌+◌, ◌%◌, ◌^◌, ◌≤◌, ◌<◌, ◌≡◌, ◌≢◌, ◌⊎◌, inl, inr, true, false, some, arith,
}
use yakuza_dead_souls_ex.Prelude.Tests.{ltb, ◌==◌, if◌then◌else◌, Bool-cases, Option-cases}
use yakuza_dead_souls_ex.Prelude.Lists.{
  set, get_elem?, find_index, find_index-some, total, get_elem?-set_cases,
}
use yakuza_dead_souls_ex.Guest.{Status, einval, enomem, u32, align_up}
use yakuza_dead_souls_ex.Guest.Words.{align_up_any}
use yakuza_dead_souls_ex.Lv2.Memory.{
  State, AllocInfo, Host, alloc_end, user_total, place, block, is_free, claim, finish,
  allocate_placed, page_alignment, sys_memory_allocate,
}
use yakuza_dead_souls_ex.Lv2.Memory.Invariant.{IsPage, IsValid, Apart, Fits, charge, place_bump}

-- An entry that is no longer active leaves the invariant in place, if the sum still covers the rest.
pub clear-IsValid :
    (s : State) (slot t : ℕ) (a : AllocInfo)
    → get_elem? s.allocs slot ≡ some a
    → total charge (set s.allocs slot (record a { active = false })) ≤ t
    → t ≤ user_total
    → IsValid s
    → IsValid
        (record s { total_allocated = t; allocs = set s.allocs slot (record a { active = false }) })
clear-IsValid s slot t a e paid budget v = record {
  window = v.window;
  end = v.end;
  held = λ i b h active. elim (get_elem?-set_cases s.allocs slot i _ h) [
    | inl (_, cleared) ↦ absurd (ground arith)
    | inr (_, old) ↦ v.held i b old active
  ];
  apart = λ i j b c hi hj ti tj ne.
      go i j b c ti tj ne (get_elem?-set_cases s.allocs slot i _ hi)
        (get_elem?-set_cases s.allocs slot j _ hj);
  paid = paid;
  budget = budget;
}
  where
    go :
        (i j : ℕ) (b c : AllocInfo)
        → b.active ≡ true
        → c.active ≡ true
        → i ≢ j
        → ((slot ≡ i) × (b ≡ record a { active = false }))
          ⊎ ((slot ≢ i) × (get_elem? s.allocs i ≡ some b))
        → ((slot ≡ j) × (c ≡ record a { active = false }))
          ⊎ ((slot ≢ j) × (get_elem? s.allocs j ≡ some c))
        → Apart b c
    go i j b c ti tj ne (inl (_, cleared)) _ = absurd (ground arith)
    go i j b c ti tj ne (inr _) (inl (_, cleared)) = absurd (ground arith)
    go i j b c ti tj ne (inr (_, hb)) (inr (_, hc)) = v.apart i j b c hb hc ti tj ne

page_alignment-IsPage :
    (flags : ℕ) {alignment : ℕ} → page_alignment flags ≡ some alignment → IsPage alignment
unfolding page_alignment
page_alignment-IsPage flags h = ground arith

rounded :
    (size alignment : ℕ)
    → IsPage alignment
    → (align_up size alignment % alignment ≡ 0) × (align_up size alignment < 2 ^ 32)
rounded size alignment (inl p) = rw p (omega (arith, align_up_any size))
rounded size alignment (inr p) = rw p (omega (arith, align_up_any size))

-- What the guards of `allocate_placed` leave is a block that fits.
module _ {ℓ} (P : Status × State → Type ℓ) (host : Host) (s : State) (out : ℕ) (v : IsValid s)
    (small : s.external_consumed < 2 ^ 63) where
  placed_cases :
      (size alignment : ℕ)
      → IsPage alignment
      → 0 < size
      → size < 2 ^ 32
      → size % alignment ≡ 0
      → P (enomem, place s alignment)
      → ((slot : ℕ) (a : AllocInfo)
          → Fits (place s alignment) size alignment
          → get_elem? s.allocs slot ≡ some a
          → is_free a ≡ true
          → P (
              finish host
                (claim (place s alignment) slot size alignment)
                slot
                (block (place s alignment).bump_ptr size alignment)
                out))
      → P (allocate_placed host (place s alignment) size alignment out)
  unfolding allocate_placed place
  placed_cases size alignment page pos word whole refused granted =
      elim (Bool-cases (ltb alloc_end (u32 (p.bump_ptr + size)))) [
        | inl full ↦ rw full refused
        | inr room ↦
            elim (Bool-cases
              (ltb user_total ((s.total_allocated + s.external_consumed + size) % 2 ^ 64))) [
                | inl poor ↦ rw (room, poor) refused
                | inr rich ↦ elim (Option-cases (find_index is_free s.allocs)) [
                  | inl full ↦ rw (room, rich, full) refused
                  | inr (slot, found) ↦
                      let (a, e, free) = find_index-some is_free s.allocs slot found in
                      rw (room, rich, found) (granted slot a (fits room rich) e free)
                ]
              ]
      ]
    where
      p : State
      p = place s alignment

      payable :
          ltb user_total ((s.total_allocated + s.external_consumed + size) % 2 ^ 64) ≡ false
          → s.total_allocated + size ≤ user_total
      payable rich = ground (arith, v.budget)

      fits :
          ltb alloc_end (u32 (p.bump_ptr + size)) ≡ false
          → ltb user_total ((s.total_allocated + s.external_consumed + size) % 2 ^ 64) ≡ false
          → Fits p size alignment
      fits room rich = record {
        page = page;
        positive = pos;
        aligned = (place_bump s alignment page v).3;
        size_aligned = whole;
        base = (place_bump s alignment page v).0;
        room = ground (arith, payable rich, place_bump s alignment page v);
        payable = payable rich;
      }

  -- Every way that a call can go.
  pub allocate_cases :
      (size flags : ℕ)
      → P (einval, s)
      → ((alignment : ℕ) → IsPage alignment → P (enomem, place s alignment))
      → ((alignment slot : ℕ) (a : AllocInfo)
          → Fits (place s alignment) (align_up size alignment) alignment
          → get_elem? s.allocs slot ≡ some a
          → is_free a ≡ true
          → P (
              finish host
                (claim (place s alignment) slot (align_up size alignment) alignment)
                slot
                (block (place s alignment).bump_ptr (align_up size alignment) alignment)
                out))
      → P (sys_memory_allocate host s size flags out)
  unfolding sys_memory_allocate
  allocate_cases size flags invalid refused granted = elim (Option-cases (page_alignment flags)) [
    | inl bad ↦ rw (bad, sys_memory_allocate) invalid
    | inr (alignment, good) ↦ rw (good, sys_memory_allocate) (sized alignment good)
  ]
    where
      sized :
          (alignment : ℕ)
          → page_alignment flags ≡ some alignment
          → P (
              if align_up size alignment == 0
              then (einval, s)
              else allocate_placed host (place s alignment) (align_up size alignment) alignment out)
      sized alignment good = elim (Bool-cases (align_up size alignment == 0)) [
        | inl empty ↦ rw empty invalid
        | inr more ↦
            let page = page_alignment-IsPage flags good in
            let round = rounded size alignment page in
            rw more (
              placed_cases (align_up size alignment) alignment page (ground arith) round.1 round.0
                (refused alignment page) (granted alignment))
      ]

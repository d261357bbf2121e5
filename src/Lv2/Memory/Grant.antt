-- ===== src/Lv2/Memory/Grant.antt =====
-- What `sys_memory_allocate` keeps and what it hands out.
use yakuza_dead_souls_ex.Prelude.{
  ℕ, ◌+◌, ◌^◌, ◌≤◌, ◌<◌, ◌≡◌, refl, ◌≢◌, inl, inr, true, false, some, arith,
}
use yakuza_dead_souls_ex.Prelude.Lists.{
  set, get_elem?, total, total-set, get_elem?-set_self, get_elem?-set_ne, get_elem?_lt, set-set,
}
use yakuza_dead_souls_ex.Guest.{Status, ok, enomem, align_up, vm_read32, write_out}
use yakuza_dead_souls_ex.Guest.Words.{align_up_lem, vm_read32-write_out}
use yakuza_dead_souls_ex.Lv2.Memory.{
  State, AllocInfo, Host, place, block, is_free, claim, finish, sys_memory_allocate, vm_commit,
  user_total,
}
use yakuza_dead_souls_ex.Lv2.Memory.Invariant.{
  IsPage, IsValid, IsHeld, Apart, Fits, charge, place-IsValid, claim-IsValid, new-Apart,
}
use yakuza_dead_souls_ex.Lv2.Memory.Allocate.{allocate_cases, clear-IsValid}

-- Either the pages are committed and the address goes out, or the slot is cleared again.
finish_cases {ℓ} :
    (P : Status × State → Type ℓ) (host : Host) (s : State) (slot : ℕ) (a : AllocInfo) (out : ℕ)
    → (vm_commit host a.addr a.size ≡ ok → P (ok, record s { mem = write_out s.mem out a.addr }))
    → P (enomem, record s { allocs = set s.allocs slot (record a { active = false }) })
    → P (finish host s slot a out)
unfolding finish
finish_cases P host s slot a out done refused = go (vm_commit host a.addr a.size) refl
  where
    go : (r : Status) → vm_commit host a.addr a.size ≡ r → P (finish host s slot a out)
    go Status.ok e = rw (e, finish) (done e)
    go _ e = rw (e, finish) refused

place_entry :
    (s : State) (alignment slot : ℕ) {a : AllocInfo}
    → get_elem? s.allocs slot ≡ some a
    → get_elem? (place s alignment).allocs slot ≡ some a
unfolding place
place_entry s alignment slot e = e

claimed_entry :
    (s : State) (slot size alignment : ℕ) (a : AllocInfo)
    → get_elem? s.allocs slot ≡ some a
    → get_elem? (claim s slot size alignment).allocs slot ≡ some (block s.bump_ptr size alignment)
unfolding claim
claimed_entry s slot size alignment a e =
    get_elem?-set_self s.allocs slot _ (get_elem?_lt s.allocs slot e)

finish-IsValid :
    (host : Host) (s : State) (slot : ℕ) (a : AllocInfo) (out : ℕ)
    → get_elem? s.allocs slot ≡ some a
    → IsValid s
    → IsValid (finish host s slot a out).1
finish-IsValid host s slot a out e v =
    finish_cases (λ r. IsValid r.1) host s slot a out
      (λ _. record {
        window = v.window;
        end = v.end;
        held = v.held;
        apart = v.apart;
        paid = v.paid;
        budget = v.budget;
      })
      (clear-IsValid s slot s.total_allocated a e
        (ground (arith, v.paid, total-set charge s.allocs slot (record a { active = false }) e))
        v.budget v)

-- `sys_memory_allocate` keeps the invariant on every path, refusals and a refused commit included:
-- the active allocations stay inside the window and below the bump pointer, aligned to their page
-- size and pairwise apart, and the budget covers them. The external charges are below 2^63.
pub sys_memory_allocate-IsValid :
    (host : Host) (s : State) (size flags out : ℕ)
    → IsValid s
    → s.external_consumed < 2 ^ 63
    → IsValid (sys_memory_allocate host s size flags out).1
sys_memory_allocate-IsValid host s size flags out v small =
    allocate_cases (λ r. IsValid r.1) host s out v small size flags v
      (λ alignment page. place-IsValid s alignment page v)
      (λ alignment slot a f e free.
        finish-IsValid host _ slot _ out
          (claimed_entry (place s alignment) slot _ alignment a (place_entry s alignment slot e))
          (claim-IsValid (place s alignment) slot (align_up size alignment) alignment
            (place-IsValid s alignment f.page v) f (place_entry s alignment slot e) free))

-- What a successful call hands out.
pub record Granted (s t : State) (size out : ℕ) : Type 0 where
  pub slot : ℕ
  pub was : AllocInfo
  pub a : AllocInfo
  pub was_free : (get_elem? s.allocs slot ≡ some was) × (was.active ≡ false)
  pub entry : (get_elem? t.allocs slot ≡ some a) × (a.active ≡ true)
  pub held : IsHeld t.bump_ptr a
  pub large : size ≤ a.size
  pub others : (i : ℕ) → slot ≢ i → get_elem? t.allocs i ≡ get_elem? s.allocs i
  pub apart : (i : ℕ) (b : AllocInfo) → get_elem? s.allocs i ≡ some b → b.active ≡ true → Apart b a
  pub charged : t.total_allocated ≡ s.total_allocated + a.size
  pub told : out ≢ 0 → vm_read32 t.mem out ≡ a.addr

-- The rounded size is 0 where the sum wraps, which the guard refuses.
round_large :
    (size alignment : ℕ)
    → IsPage alignment
    → size < 2 ^ 32
    → 0 < align_up size alignment
    → size ≤ align_up size alignment
round_large size alignment (inl p) word = rw p (λ pos. omega (arith, align_up_lem 20 12 size refl))
round_large size alignment (inr p) word = rw p (λ pos. omega (arith, align_up_lem 16 16 size refl))

claim_others :
    (s : State) (slot size alignment i : ℕ)
    → slot ≢ i
    → get_elem? (claim (place s alignment) slot size alignment).allocs i ≡ get_elem? s.allocs i
unfolding claim place
claim_others s slot size alignment i ne = get_elem?-set_ne s.allocs slot i _ ne

claim_total :
    (s : State) (slot size alignment : ℕ)
    → (place s alignment).total_allocated + size ≤ user_total
    → (claim (place s alignment) slot size alignment).total_allocated ≡ s.total_allocated + size
unfolding claim place
claim_total s slot size alignment h = omega arith

granted :
    (s : State) (size out alignment slot : ℕ) (was : AllocInfo)
    → IsValid s
    → size < 2 ^ 32
    → Fits (place s alignment) (align_up size alignment) alignment
    → get_elem? s.allocs slot ≡ some was
    → is_free was ≡ true
    → let a = block (place s alignment).bump_ptr (align_up size alignment) alignment in
      let t = claim (place s alignment) slot (align_up size alignment) alignment in
      Granted s (record t { mem = write_out t.mem out a.addr }) size out
granted s size out alignment slot was v word f e free = record {
  slot = slot;
  was = was;
  a = a;
  was_free = (e, ground arith);
  entry = (entry, refl);
  held =
      (claim-IsValid p slot size' alignment pv f (place_entry s alignment slot e) free).held slot a
        entry refl;
  large = round_large size alignment f.page word f.positive;
  others = claim_others s slot size' alignment;
  apart = λ i b h active. new-Apart p size' alignment pv i b (place_entry s alignment i h) active;
  charged = claim_total s slot size' alignment f.payable;
  told = λ ne. vm_read32-write_out _ out _ (omega (arith, f.room)) ne;
}
  where
    size' : ℕ
    size' = align_up size alignment

    p : State
    p = place s alignment

    a : AllocInfo
    a = block p.bump_ptr size' alignment

    pv : IsValid p
    pv = place-IsValid s alignment f.page v

    entry : get_elem? (claim p slot size' alignment).allocs slot ≡ some a
    entry = claimed_entry p slot size' alignment was (place_entry s alignment slot e)

-- A call that returns CELL_OK claims a free slot of the table and changes no other: its block holds
-- at least the size asked for, is aligned to its page size, lies in the window below the bump
-- pointer and apart from every active allocation, and is charged once. A non-null output pointer
-- reads back the block's address. The size is a 32-bit register, and the external charges are below
-- 2^63.
pub sys_memory_allocate_ok :
    (host : Host) (s : State) (size flags out : ℕ)
    → IsValid s
    → size < 2 ^ 32
    → s.external_consumed < 2 ^ 63
    → (sys_memory_allocate host s size flags out).0 ≡ ok
    → Granted s (sys_memory_allocate host s size flags out).1 size out
sys_memory_allocate_ok host s size flags out v word small =
    allocate_cases (λ r. r.0 ≡ ok → Granted s r.1 size out) host s out v small size flags (λ h. cc)
      (λ alignment page h. cc)
      (λ alignment slot was f e free.
        finish_cases (λ r. r.0 ≡ ok → Granted s r.1 size out) host _ slot _ out
          (λ _ _. granted s size out alignment slot was v word f e free) (λ h. cc))

claimed_total :
    (s : State) (slot size alignment : ℕ)
    → s.total_allocated + size ≤ user_total
    → (claim s slot size alignment).total_allocated ≡ s.total_allocated + size
unfolding claim
claimed_total s slot size alignment h = omega arith

cleared_charge :
    (s : State) (slot size alignment : ℕ) {was : AllocInfo}
    → get_elem? s.allocs slot ≡ some was
    → was.active ≡ false
    → total charge (
        set
          (claim s slot size alignment).allocs
          slot
          (record (block s.bump_ptr size alignment) { active = false }))
      ≡ total charge s.allocs
unfolding claim
cleared_charge s slot size alignment e free = rw set-set (
    ground (
      arith,
      total-set charge s.allocs slot (record (block s.bump_ptr size alignment) { active = false })
          e,
    ))

-- When the host refuses to commit the pages of a block that passed every guard, the call returns
-- CELL_ENOMEM and the table charges nothing more than before, but the running total keeps the
-- block's size: that part of the budget is lost.
pub finish_refused_leaks :
    (host : Host) (s : State) (slot size alignment out : ℕ) (was : AllocInfo)
    → IsValid s
    → Fits s size alignment
    → get_elem? s.allocs slot ≡ some was
    → is_free was ≡ true
    → vm_commit host s.bump_ptr size ≢ ok
    → let (status, t) =
        finish host (claim s slot size alignment) slot (block s.bump_ptr size alignment) out in
      (status ≡ enomem)
      × (total charge t.allocs ≡ total charge s.allocs)
      × (t.total_allocated ≡ s.total_allocated + size)
finish_refused_leaks host s slot size alignment out was v f e free refused =
    finish_cases
      (λ r.
        (r.0 ≡ enomem)
        × (total charge r.1.allocs ≡ total charge s.allocs)
        × (r.1.total_allocated ≡ s.total_allocated + size))
      host (claim s slot size alignment) slot (block s.bump_ptr size alignment) out
      (λ committed. absurd (refused committed))
      (
        refl,
        cleared_charge s slot size alignment e (ground arith),
        claimed_total s slot size alignment f.payable,
      )

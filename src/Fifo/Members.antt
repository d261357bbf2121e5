-- ===== src/Fifo/Members.antt =====
-- The checks of recorded islands resume only at what the producer has published.
use Prim.Native.Nat.{bit_and}
use native.Mathlib.Nat.{mod-eq_of_lt}
use yakuza_dead_souls_ex.Prelude.{ℕ, ◌+◌, ◌-◌, ◌^◌, ◌≤◌, ◌<◌, ◌≡◌, ◌∙◌, ◌≢◌, false, arith}
use yakuza_dead_souls_ex.Prelude.Tests.{◌==◌, if◌then◌else◌}
use yakuza_dead_souls_ex.Fifo.{u32, sub32, not_ring, masked}
use yakuza_dead_souls_ex.Fifo.Islands.{
  registered_island_resume, registered_inline_island_resume, if_ahead,
  registered_inline_island_member_resume, registered_inline_island_interior_resume,
}
use yakuza_dead_souls_ex.Fifo.Window.{masked_lem, masked_lt, distance-ahead}
use yakuza_dead_souls_ex.Fifo.Steps.{IsPublished}

pub registered_island-IsPublished :
    (stopper_ea data_end_ea get put base n : ℕ)
    → registered_island_resume stopper_ea data_end_ea get put base n ≢ 0
    → IsPublished get put n (registered_island_resume stopper_ea data_end_ea get put base n)
unfolding registered_island_resume
registered_island-IsPublished stopper_ea data_end_ea get put base n ne =
    ground (arith, masked_lt n (sub32 data_end_ea base))

-- The recorded island starts at an offset of the ring and ends inside it.
inline_bounds :
    (base source_ea data_end_ea n get : ℕ)
    → n < 2 ^ 32
    → base < 2 ^ 32
    → data_end_ea < 2 ^ 32
    → get < n
    → source_ea ≡ u32 (base + get)
    → source_ea < data_end_ea
    → data_end_ea < u32 (base + n)
    → (sub32 data_end_ea base < n) × (get < sub32 data_end_ea base)
inline_bounds base source_ea data_end_ea n get word bw ew lt at before inside =
    (omega arith, omega arith)

pub registered_inline_island-IsPublished :
    (source_ea command data_end_ea get put base n : ℕ)
    → n < 2 ^ 32
    → base < 2 ^ 32
    → data_end_ea < 2 ^ 32
    → get < n
    → registered_inline_island_resume source_ea command data_end_ea get put base n ≢ 0
    → IsPublished get put n
        (registered_inline_island_resume source_ea command data_end_ea get put base n)
unfolding registered_inline_island_resume
registered_inline_island-IsPublished source_ea command data_end_ea get put base n word bw ew lt ne =
    let ring : not_ring n ≡ false = ground arith in
    let here : masked n get ≡ get = masked_lem n get ring ∙ mod-eq_of_lt lt in
    let at : source_ea ≡ u32 (base + get) = ground (arith, here) in
    let bounds =
      inline_bounds base source_ea data_end_ea n get word bw ew lt at (ground arith)
        (ground arith) in
    let span : sub32 (sub32 data_end_ea base) get ≡ sub32 data_end_ea base - get =
      omega (arith, bounds, word) in
    let far =
      distance-ahead n get (sub32 data_end_ea base) ring word (omega (arith, bounds)) bounds.0 in
    ground (arith, here, bounds, span, far)

if_ahead-IsPublished :
    (n member_get put resume : ℕ)
    → resume < n
    → if_ahead n member_get put resume ≢ 0
    → IsPublished member_get put n (if_ahead n member_get put resume)
unfolding if_ahead
if_ahead-IsPublished n member_get put resume lt ne = ground arith

-- The member checks take the cursor of the source from its address.
source_get-lt :
    (source_ea base n : ℕ)
    → n < 2 ^ 32
    → source_ea < 2 ^ 32
    → base ≤ source_ea
    → source_ea < u32 (base + n)
    → sub32 source_ea base < n
source_get-lt source_ea base n word sw le lt = omega arith

pub member-IsPublished :
    (source_ea command data_end_ea member_get put base n : ℕ)
    → n < 2 ^ 32
    → base < 2 ^ 32
    → data_end_ea < 2 ^ 32
    → source_ea < 2 ^ 32
    → registered_inline_island_member_resume source_ea command data_end_ea member_get put base n ≢ 0
    → IsPublished member_get put n
        (registered_inline_island_member_resume source_ea command data_end_ea member_get put base n)
unfolding registered_inline_island_member_resume
member-IsPublished source_ea command data_end_ea member_get put base n word bw ew sw ne =
    let from = source_get-lt source_ea base n word sw (ground arith) (ground arith) in
    let resume =
      registered_inline_island-IsPublished source_ea command data_end_ea (sub32 source_ea base) put
        base n word bw ew from (ground arith) in
    ground (
      arith,
      if_ahead-IsPublished n member_get put
          (registered_inline_island_resume source_ea command data_end_ea (sub32 source_ea base) put
            base n)
          resume.0,
    )

pub interior-IsPublished :
    (source_ea command data_end_ea member_get put base n : ℕ)
    → n < 2 ^ 32
    → base < 2 ^ 32
    → data_end_ea < 2 ^ 32
    → source_ea < 2 ^ 32
    → registered_inline_island_interior_resume source_ea command data_end_ea member_get put base n
      ≢ 0
    → IsPublished member_get put n (
        registered_inline_island_interior_resume source_ea command data_end_ea member_get put base
          n)
unfolding registered_inline_island_interior_resume
interior-IsPublished source_ea command data_end_ea member_get put base n word bw ew sw ne =
    let from = source_get-lt source_ea base n word sw (ground arith) (ground arith) in
    let resume =
      registered_inline_island-IsPublished source_ea command data_end_ea (sub32 source_ea base) put
        base n word bw ew from (ground arith) in
    ground (
      arith,
      if_ahead-IsPublished n member_get put
          (registered_inline_island_resume source_ea command data_end_ea (sub32 source_ea base) put
            base n)
          resume.0,
    )

source-lt-target :
    (source_ea command data_end_ea get put base n : ℕ)
    → registered_inline_island_resume source_ea command data_end_ea get put base n ≢ 0
    → masked n get < bit_and command 0x1FFF_FFFC
unfolding registered_inline_island_resume
source-lt-target source_ea command data_end_ea get put base n ne = ground arith

source_get-lt-target :
    (source_ea command data_end_ea put base n : ℕ)
    → n < 2 ^ 32
    → source_ea < 2 ^ 32
    → not_ring n ≡ false
    → base ≤ source_ea
    → source_ea < u32 (base + n)
    → registered_inline_island_resume source_ea command data_end_ea
        (sub32 source_ea base)
        put
        base
        n
      ≢ 0
    → sub32 source_ea base < bit_and command 0x1FFF_FFFC
source_get-lt-target source_ea command data_end_ea put base n word sw ring le lt ne =
    let from = source_get-lt source_ea base n word sw le lt in
    let here : masked n (sub32 source_ea base) ≡ sub32 source_ea base =
      masked_lem n (sub32 source_ea base) ring ∙ mod-eq_of_lt from in
    omega (
      arith,
      here,
      source-lt-target source_ea command data_end_ea (sub32 source_ea base) put base n ne,
    )

-- The fast check of the exact payload start agrees with the search of the interval there, and refuses
-- every other cursor. The addresses are 32-bit words, the ring is smaller than 2 ^ 32 bytes.
pub member-interior :
    (source_ea command data_end_ea member_get put base n : ℕ)
    → n < 2 ^ 32
    → source_ea < 2 ^ 32
    → registered_inline_island_member_resume source_ea command data_end_ea member_get put base n ≡ (
        if member_get == bit_and command 0x1FFF_FFFC
        then registered_inline_island_interior_resume source_ea command data_end_ea member_get put
            base n
        else 0)
unfolding registered_inline_island_member_resume registered_inline_island_interior_resume
member-interior source_ea command data_end_ea member_get put base n word sw =
    ground (arith, source_get-lt-target source_ea command data_end_ea put base n word sw)

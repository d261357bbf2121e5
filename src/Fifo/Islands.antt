-- ===== src/Fifo/Islands.antt =====
-- The checks of recorded inline data islands.
use Prim.Native.Nat.{bit_and}
use yakuza_dead_souls_ex.Prelude.{ℕ, ◌+◌, not, ◌&&◌, ◌||◌}
use yakuza_dead_souls_ex.Prelude.Tests.{◌==◌, ltb, leb, if◌then◌else◌}
use yakuza_dead_souls_ex.Fifo.{u32, sub32, not_ring, masked, distance, unaligned}

unfoldable pub registered_island_resume : ℕ → ℕ → ℕ → ℕ → ℕ → ℕ → ℕ
registered_island_resume stopper_ea data_end_ea get put fifo_base fifo_size =
    if not_ring fifo_size
      || unaligned stopper_ea
      || unaligned data_end_ea
      || not (stopper_ea == u32 (fifo_base + masked fifo_size get))
      || leb data_end_ea stopper_ea
      || leb (u32 (fifo_base + fifo_size)) data_end_ea
    then 0
    else let span = sub32 data_end_ea stopper_ea in
      if ltb span 4 || ltb 0x1_0000 span
      then 0
      else let resume = masked fifo_size (sub32 data_end_ea fifo_base) in
        let ahead = distance fifo_size get put in
        if (resume == 0)
          || (ahead == 0)
          || not (distance fifo_size get resume == span)
          || leb ahead (distance fifo_size get resume)
        then 0
        else resume

unfoldable pub registered_inline_island_resume : ℕ → ℕ → ℕ → ℕ → ℕ → ℕ → ℕ → ℕ
registered_inline_island_resume source_ea expected_command data_end_ea get put fifo_base fifo_size =
    if not_ring fifo_size
      || unaligned source_ea
      || unaligned data_end_ea
      || not (source_ea == u32 (fifo_base + masked fifo_size get))
      || not (bit_and expected_command 0xE000_0003 == 0x2000_0000)
    then 0
    else let target = bit_and expected_command 0x1FFF_FFFC in
      let source = masked fifo_size get in
      let resume = sub32 data_end_ea fifo_base in
      if leb data_end_ea source_ea
        || leb (u32 (fifo_base + fifo_size)) data_end_ea
        || leb target source
        || leb resume target
      then 0
      else let prefix = sub32 target source in
        let span = sub32 resume source in
        if ltb prefix 4 || ltb 0x10 prefix || ltb span 8 || ltb 0x1_0000 span
        then 0
        else let ahead = distance fifo_size get put in
          if (resume == 0) || (ahead == 0) || leb ahead span then 0 else resume

-- The tail that both member checks share: `remaining && ahead && remaining < ahead ? resume : 0u`
unfoldable pub if_ahead : ℕ → ℕ → ℕ → ℕ → ℕ
if_ahead fifo_size member_get put resume =
    let remaining = distance fifo_size member_get resume in
    let ahead = distance fifo_size member_get put in
    if not (remaining == 0) && not (ahead == 0) && ltb remaining ahead then resume else 0

unfoldable pub registered_inline_island_member_resume : ℕ → ℕ → ℕ → ℕ → ℕ → ℕ → ℕ → ℕ
registered_inline_island_member_resume source_ea expected_command data_end_ea member_get put
      fifo_base fifo_size =
    if not_ring fifo_size || ltb source_ea fifo_base || leb (u32 (fifo_base + fifo_size)) source_ea
    then 0
    else let source_get = sub32 source_ea fifo_base in
      let resume =
        registered_inline_island_resume source_ea expected_command data_end_ea source_get put
          fifo_base fifo_size in
      if resume == 0
      then 0
      else let target = bit_and expected_command 0x1FFF_FFFC in
        if not (member_get == target) || leb member_get source_get || leb resume member_get
        then 0
        else if_ahead fifo_size member_get put resume

unfoldable pub registered_inline_island_interior_resume : ℕ → ℕ → ℕ → ℕ → ℕ → ℕ → ℕ → ℕ
registered_inline_island_interior_resume source_ea expected_command data_end_ea member_get put
      fifo_base fifo_size =
    if not_ring fifo_size || ltb source_ea fifo_base || leb (u32 (fifo_base + fifo_size)) source_ea
    then 0
    else let source_get = sub32 source_ea fifo_base in
      let resume =
        registered_inline_island_resume source_ea expected_command data_end_ea source_get put
          fifo_base fifo_size in
      if resume == 0
      then 0
      else let target = bit_and expected_command 0x1FFF_FFFC in
        if ltb member_get target || leb resume member_get
        then 0
        else if_ahead fifo_size member_get put resume

-- ===== src/Fifo/Packets.antt =====
-- The checks of the title's generated packets: a payload that is no FIFO word is passed over up to the
-- next boundary that the producer has published.
use Prim.Native.Nat.{bit_and}
use yakuza_dead_souls_ex.Prelude.{ℕ, ◌+◌, ◌/◌, Bool, false, not, ◌&&◌, ◌||◌}
use yakuza_dead_souls_ex.Prelude.Tests.{◌==◌, ltb, leb, if◌then◌else◌}
use yakuza_dead_souls_ex.Fifo.{u32, not_ring, masked, distance, unaligned, flow, method}

unfoldable pub generated_vp_constant_tail_resume : ℕ → ℕ → ℕ → ℕ → ℕ → Bool → ℕ
generated_vp_constant_tail_resume previous_command tail_word get put fifo_size
      generated_prologue_ready =
    if not_ring fifo_size
      || unaligned get
      || leb fifo_size get
      || leb fifo_size put
      || not (previous_command == 0x0044_1EFC)
      || not generated_prologue_ready
    then 0
    else if (tail_word == 0) || flow tail_word || method tail_word
    then 0
    else let resume = masked fifo_size (u32 (get + 8)) in
      let ahead = distance fifo_size get put in
      if ltb ahead 0x34 || (resume == 0) then 0 else resume

unfoldable pub generated_vp_program_tail_resume : ℕ → ℕ → ℕ → ℕ → ℕ → ℕ → ℕ → ℕ → ℕ → ℕ
generated_vp_program_tail_resume previous_get previous_command tail_word get put fifo_size
      consecutive_program_packets end_command end_argument =
    if not_ring fifo_size
      || unaligned previous_get
      || leb fifo_size previous_get
      || unaligned get
      || leb fifo_size get
      || leb fifo_size put
      || not (previous_command == 0x0080_0B80)
      || not (masked fifo_size (u32 (previous_get + 0x84)) == get)
      || ltb consecutive_program_packets 4
      || not (bit_and tail_word 3 == 2)
      || ltb (bit_and tail_word 0x1FFF_FFFC) fifo_size
      || not (end_command == 0x0004_1808)
      || not (end_argument == 0)
    then 0
    else let resume = masked fifo_size (u32 (get + 0xC)) in
      let ahead = distance fifo_size get put in
      if not (resume == 0) && leb 0x14 ahead then resume else 0

-- The end of both candidate checks.
unfoldable pub candidate_ahead : ℕ → ℕ → ℕ → ℕ → ℕ → ℕ
candidate_ahead fifo_size get put candidate max_gap =
    let far = distance fifo_size get candidate in
    let ahead = distance fifo_size get put in
    if (candidate == 0) || ltb far 4 || ltb max_gap far || ltb ahead (u32 (far + 0x2C))
    then 0
    else candidate

unfoldable pub generated_vp_inline_candidate_resume :
    ℕ → ℕ → ℕ → ℕ → ℕ → ℕ → ℕ → ℕ → Bool → Bool → Bool → ℕ
generated_vp_inline_candidate_resume previous_get previous_command gap_word get put candidate
      fifo_size max_gap flow_word_unmapped generated_prologue_ready balanced_prefix_ready =
    if not_ring fifo_size
      || unaligned previous_get
      || leb fifo_size previous_get
      || unaligned get
      || leb fifo_size get
      || leb fifo_size put
      || unaligned candidate
      || leb fifo_size candidate
      || (max_gap == 0)
      || leb (fifo_size / 2) max_gap
      || not (previous_command == 0)
      || not (masked fifo_size (u32 (previous_get + 4)) == get)
      || not generated_prologue_ready
      || not balanced_prefix_ready
    then 0
    else if (gap_word == 0) || (flow gap_word && not flow_word_unmapped)
    then 0
    else candidate_ahead fifo_size get put candidate max_gap

unfoldable pub generated_vp_post_draw_candidate_resume :
    ℕ → ℕ → ℕ → ℕ → ℕ → ℕ → ℕ → ℕ → ℕ → Bool → Bool → Bool → ℕ
generated_vp_post_draw_candidate_resume previous_get previous_command previous_argument gap_word get
      put candidate fifo_size max_gap flow_word_unmapped generated_prologue_ready
      balanced_prefix_ready =
    if not_ring fifo_size
      || unaligned previous_get
      || leb fifo_size previous_get
      || unaligned get
      || leb fifo_size get
      || leb fifo_size put
      || unaligned candidate
      || leb fifo_size candidate
      || (max_gap == 0)
      || leb (fifo_size / 2) max_gap
      || not (previous_command == 0x0004_1808)
      || not (previous_argument == 0)
      || not (masked fifo_size (u32 (previous_get + 8)) == get)
      || not generated_prologue_ready
      || not balanced_prefix_ready
    then 0
    else if (gap_word == 0) || (flow gap_word && not flow_word_unmapped)
    then 0
    else candidate_ahead fifo_size get put candidate max_gap

unfoldable pub generated_vp_inline_gap_resume : ℕ → ℕ → ℕ → ℕ → ℕ → ℕ → Bool → Bool → ℕ
generated_vp_inline_gap_resume previous_get previous_command gap_word get put fifo_size
      generated_prologue_ready balanced_prefix_ready =
    let candidate = if fifo_size == 0 then 0 else masked fifo_size (u32 (get + 0x28)) in
    generated_vp_inline_candidate_resume previous_get previous_command gap_word get put candidate
      fifo_size 0x28 false generated_prologue_ready balanced_prefix_ready

unfoldable pub generated_block_candidate_resume : ℕ → ℕ → ℕ → ℕ → ℕ → Bool → Bool → ℕ
generated_block_candidate_resume tail tail_word candidate fifo_size block_size
      generated_prologue_ready balanced_prefix_ready =
    if not_ring fifo_size
      || not_ring block_size
      || ltb fifo_size block_size
      || unaligned tail
      || leb fifo_size tail
      || not (masked block_size (u32 (tail + 4)) == 0)
      || (candidate == 0)
      || unaligned candidate
      || leb fifo_size candidate
      || not generated_prologue_ready
      || not balanced_prefix_ready
    then 0
    else if flow tail_word
    then 0
    else let block_start = masked fifo_size (u32 (tail + 4)) in
      if ltb (distance fifo_size block_start candidate) block_size then candidate else 0

unfoldable pub generated_block_tail_resume : ℕ → ℕ → ℕ → ℕ → Bool → Bool → ℕ
generated_block_tail_resume tail tail_word fifo_size block_size generated_prologue_ready
      balanced_prefix_ready =
    let candidate = if fifo_size == 0 then 0 else masked fifo_size (u32 (tail + 4)) in
    generated_block_candidate_resume tail tail_word candidate fifo_size block_size
      generated_prologue_ready balanced_prefix_ready

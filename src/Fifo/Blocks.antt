-- ===== src/Fifo/Blocks.antt =====
-- The check of a generated block, which looks at no PUT.
use yakuza_dead_souls_ex.Prelude.{ℕ, ◌+◌, ◌<◌, ◌≡◌, ◌≢◌, Bool, false, arith}
use yakuza_dead_souls_ex.Prelude.Tests.{◌==◌, if◌then◌else◌}
use yakuza_dead_souls_ex.Fifo.{u32, masked, distance, unaligned}
use yakuza_dead_souls_ex.Fifo.Packets.{
  generated_block_candidate_resume, generated_block_tail_resume,
}

-- An aligned offset of the ring inside the block that starts after `tail`.
abbrev pub IsInBlock : ℕ → ℕ → ℕ → ℕ → Type 0
IsInBlock tail n block_size r =
    (r < n) × (unaligned r ≡ false) × (distance n (masked n (u32 (tail + 4))) r < block_size)

pub block_candidate-IsInBlock :
    (tail tail_word candidate n block_size : ℕ) (ready balanced : Bool)
    → generated_block_candidate_resume tail tail_word candidate n block_size ready balanced ≢ 0
    → IsInBlock tail n block_size
        (generated_block_candidate_resume tail tail_word candidate n block_size ready balanced)
unfolding generated_block_candidate_resume
block_candidate-IsInBlock tail tail_word candidate n block_size ready balanced ne = ground arith

pub block_tail-IsInBlock :
    (tail tail_word n block_size : ℕ) (ready balanced : Bool)
    → generated_block_tail_resume tail tail_word n block_size ready balanced ≢ 0
    → IsInBlock tail n block_size
        (generated_block_tail_resume tail tail_word n block_size ready balanced)
unfolding generated_block_tail_resume
block_tail-IsInBlock tail tail_word n block_size ready balanced ne =
    block_candidate-IsInBlock tail tail_word (if n == 0 then 0 else masked n (u32 (tail + 4))) n
      block_size ready balanced ne

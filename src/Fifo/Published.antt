-- ===== src/Fifo/Published.antt =====
-- What every check promises: the FIFO resumes only at what the producer has published.
use yakuza_dead_souls_ex.Prelude.{ℕ, ◌+◌, ◌/◌, ◌^◌, ◌<◌, ◌≢◌, Bool, false, arith}
use yakuza_dead_souls_ex.Prelude.Tests.{◌==◌, if◌then◌else◌}
use yakuza_dead_souls_ex.Fifo.{u32, masked, startup_head_release_resume}
use yakuza_dead_souls_ex.Fifo.Islands.{
  registered_island_resume, registered_inline_island_resume, registered_inline_island_member_resume,
  registered_inline_island_interior_resume,
}
use yakuza_dead_souls_ex.Fifo.Packets.{
  generated_vp_constant_tail_resume, generated_vp_program_tail_resume, candidate_ahead,
  generated_vp_inline_candidate_resume, generated_vp_post_draw_candidate_resume,
  generated_vp_inline_gap_resume,
}
use yakuza_dead_souls_ex.Fifo.Steps.{IsPublished, stepped, startup-IsPublished}
use yakuza_dead_souls_ex.Fifo.Members.{
  registered_island-IsPublished, registered_inline_island-IsPublished, member-IsPublished,
  interior-IsPublished,
}

vp_constant_tail-IsPublished :
    (previous_command tail_word get put n : ℕ) (ready : Bool)
    → n < 2 ^ 32
    → generated_vp_constant_tail_resume previous_command tail_word get put n ready ≢ 0
    → IsPublished get put n
        (generated_vp_constant_tail_resume previous_command tail_word get put n ready)
unfolding generated_vp_constant_tail_resume
vp_constant_tail-IsPublished previous_command tail_word get put n ready word ne =
    stepped n get put 8 _ (ground arith) word (ground arith) (ground arith) (ground arith)

vp_program_tail-IsPublished :
    (previous_get previous_command tail_word get put n packets end_command end_argument : ℕ)
    → n < 2 ^ 32
    → generated_vp_program_tail_resume previous_get previous_command tail_word get put n packets
        end_command end_argument
      ≢ 0
    → IsPublished get put n (
        generated_vp_program_tail_resume previous_get previous_command tail_word get put n packets
          end_command end_argument)
unfolding generated_vp_program_tail_resume
vp_program_tail-IsPublished previous_get previous_command tail_word get put n packets end_command
      end_argument word ne =
    stepped n get put 0xC _ (ground arith) word (ground arith) (ground arith) (ground arith)

candidate_ahead-IsPublished :
    (n get put candidate max_gap : ℕ)
    → n < 2 ^ 32
    → max_gap < n / 2
    → candidate < n
    → candidate_ahead n get put candidate max_gap ≢ 0
    → IsPublished get put n (candidate_ahead n get put candidate max_gap)
unfolding candidate_ahead
candidate_ahead-IsPublished n get put candidate max_gap word gap lt ne = ground arith

vp_inline_candidate-IsPublished :
    (previous_get previous_command gap_word get put candidate n max_gap : ℕ)
    (unmapped ready balanced : Bool)
    → n < 2 ^ 32
    → generated_vp_inline_candidate_resume previous_get previous_command gap_word get put candidate
        n max_gap unmapped ready balanced
      ≢ 0
    → IsPublished get put n (
        generated_vp_inline_candidate_resume previous_get previous_command gap_word get put
          candidate n max_gap unmapped ready balanced)
unfolding generated_vp_inline_candidate_resume
vp_inline_candidate-IsPublished previous_get previous_command gap_word get put candidate n max_gap
      unmapped ready balanced word ne =
    ground (arith, candidate_ahead-IsPublished n get put candidate max_gap word)

vp_post_draw_candidate-IsPublished :
    (previous_get previous_command previous_argument gap_word get put candidate n max_gap : ℕ)
    (unmapped ready balanced : Bool)
    → n < 2 ^ 32
    → generated_vp_post_draw_candidate_resume previous_get previous_command previous_argument
        gap_word get put candidate n max_gap unmapped ready balanced
      ≢ 0
    → IsPublished get put n (
        generated_vp_post_draw_candidate_resume previous_get previous_command previous_argument
          gap_word get put candidate n max_gap unmapped ready balanced)
unfolding generated_vp_post_draw_candidate_resume
vp_post_draw_candidate-IsPublished previous_get previous_command previous_argument gap_word get put
      candidate n max_gap unmapped ready balanced word ne =
    ground (arith, candidate_ahead-IsPublished n get put candidate max_gap word)

-- The results of the checks that look at PUT, at a cursor `get` of a ring of `n` bytes.
pub data Resume (get put n : ℕ) : ℕ → Type 0 where
  startup_head :
      (command segment_size : ℕ) (already_released : Bool)
      → Resume get put n
          (startup_head_release_resume get put command n segment_size already_released)
  island :
      (stopper_ea data_end_ea base : ℕ)
      → Resume get put n (registered_island_resume stopper_ea data_end_ea get put base n)
  inline_island :
      (source_ea command data_end_ea base : ℕ)
      → base < 2 ^ 32
      → data_end_ea < 2 ^ 32
      → Resume get put n
          (registered_inline_island_resume source_ea command data_end_ea get put base n)
  inline_member :
      (source_ea command data_end_ea base : ℕ)
      → base < 2 ^ 32
      → data_end_ea < 2 ^ 32
      → source_ea < 2 ^ 32
      → Resume get put n
          (registered_inline_island_member_resume source_ea command data_end_ea get put base n)
  inline_interior :
      (source_ea command data_end_ea base : ℕ)
      → base < 2 ^ 32
      → data_end_ea < 2 ^ 32
      → source_ea < 2 ^ 32
      → Resume get put n
          (registered_inline_island_interior_resume source_ea command data_end_ea get put base n)
  constant_tail :
      (previous_command tail_word : ℕ) (ready : Bool)
      → Resume get put n
          (generated_vp_constant_tail_resume previous_command tail_word get put n ready)
  program_tail :
      (previous_get previous_command tail_word packets end_command end_argument : ℕ)
      → Resume get put n (
          generated_vp_program_tail_resume previous_get previous_command tail_word get put n packets
            end_command end_argument)
  inline_candidate :
      (previous_get previous_command gap_word candidate max_gap : ℕ)
      (unmapped ready balanced : Bool)
      → Resume get put n (
          generated_vp_inline_candidate_resume previous_get previous_command gap_word get put
            candidate n max_gap unmapped ready balanced)
  post_draw_candidate :
      (previous_get previous_command previous_argument gap_word candidate max_gap : ℕ)
      (unmapped ready balanced : Bool)
      → Resume get put n (
          generated_vp_post_draw_candidate_resume previous_get previous_command previous_argument
            gap_word get put candidate n max_gap unmapped ready balanced)
  inline_gap :
      (previous_get previous_command gap_word : ℕ) (ready balanced : Bool)
      → Resume get put n (
          generated_vp_inline_gap_resume previous_get previous_command gap_word get put n ready
            balanced)

-- Every check that looks at PUT fails closed: if its result is not 0, then the result is an offset of
-- the ring that lies strictly before PUT, as seen from the cursor, so that the FIFO never resumes at
-- words that the producer has not published. The cursor is an offset of a ring of less than 2 ^ 32
-- bytes, and the addresses are 32-bit words.
pub Resume-IsPublished :
    {get put n r : ℕ} → n < 2 ^ 32 → get < n → Resume get put n r → r ≢ 0 → IsPublished get put n r
unfolding generated_vp_inline_gap_resume
Resume-IsPublished {get} {put} {n} word lt (startup_head command segment_size released) ne =
    startup-IsPublished get put command n segment_size released word ne
Resume-IsPublished {get} {put} {n} word lt (island stopper_ea data_end_ea base) ne =
    registered_island-IsPublished stopper_ea data_end_ea get put base n ne
Resume-IsPublished {get} {put} {n} word lt (inline_island source_ea command data_end_ea base bw ew)
      ne =
    registered_inline_island-IsPublished source_ea command data_end_ea get put base n word bw ew lt
      ne
Resume-IsPublished {get} {put} {n} word lt
      (inline_member source_ea command data_end_ea base bw ew sw) ne =
    member-IsPublished source_ea command data_end_ea get put base n word bw ew sw ne
Resume-IsPublished {get} {put} {n} word lt
      (inline_interior source_ea command data_end_ea base bw ew sw) ne =
    interior-IsPublished source_ea command data_end_ea get put base n word bw ew sw ne
Resume-IsPublished {get} {put} {n} word lt (constant_tail previous_command tail_word ready) ne =
    vp_constant_tail-IsPublished previous_command tail_word get put n ready word ne
Resume-IsPublished {get} {put} {n} word lt
      (program_tail previous_get previous_command tail_word packets end_command end_argument) ne =
    vp_program_tail-IsPublished previous_get previous_command tail_word get put n packets
      end_command end_argument word ne
Resume-IsPublished {get} {put} {n} word lt
      (inline_candidate previous_get previous_command gap_word candidate max_gap unmapped ready
        balanced)
      ne =
    vp_inline_candidate-IsPublished previous_get previous_command gap_word get put candidate n
      max_gap unmapped ready balanced word ne
Resume-IsPublished {get} {put} {n} word lt
      (post_draw_candidate previous_get previous_command previous_argument gap_word candidate
        max_gap unmapped ready balanced)
      ne =
    vp_post_draw_candidate-IsPublished previous_get previous_command previous_argument gap_word get
      put candidate n max_gap unmapped ready balanced word ne
Resume-IsPublished {get} {put} {n} word lt
      (inline_gap previous_get previous_command gap_word ready balanced) ne =
    vp_inline_candidate-IsPublished previous_get previous_command gap_word get put
      (if n == 0 then 0 else masked n (u32 (get + 0x28))) n 0x28 false ready balanced word ne

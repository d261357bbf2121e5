-- ===== src/Fifo/Tests.antt =====
-- The checks on a ring of 0x1000 bytes.
use Prim.Native.Nat.{bit_and}
use yakuza_dead_souls_ex.Prelude.{◌≡◌, refl, ◌≢◌, true, false, arith}
use yakuza_dead_souls_ex.Prelude.Tests.{◌==◌, if◌then◌else◌}
use yakuza_dead_souls_ex.Fifo.{not_ring, masked, distance, unaligned, flow}
use yakuza_dead_souls_ex.Fifo.Islands.{
  registered_inline_island_resume, registered_inline_island_member_resume,
  registered_inline_island_interior_resume, if_ahead,
}
use yakuza_dead_souls_ex.Fifo.Packets.{candidate_ahead, generated_vp_inline_candidate_resume}
use yakuza_dead_souls_ex.Fifo.Steps.{IsPublished}
use yakuza_dead_souls_ex.Fifo.Members.{member-interior}
use yakuza_dead_souls_ex.Fifo.Published.{inline_candidate, Resume-IsPublished}

-- A NOOP at 0xFFC, a payload at 0, and the next prologue at 0x28.
candidate_found :
    generated_vp_inline_candidate_resume 0xFFC 0 4 0 0x800 0x28 0x1000 0x28 false true true ≡ 0x28
unfolding generated_vp_inline_candidate_resume candidate_ahead not_ring masked distance unaligned
    flow
candidate_found = refl

candidate_not_zero :
    generated_vp_inline_candidate_resume 0xFFC 0 4 0 0x800 0x28 0x1000 0x28 false true true ≢ 0
candidate_not_zero z = omega (arith, candidate_found, z)

Resume-IsPublished_example :
    IsPublished 0 0x800 0x1000
      (generated_vp_inline_candidate_resume 0xFFC 0 4 0 0x800 0x28 0x1000 0x28 false true true)
Resume-IsPublished_example =
    Resume-IsPublished (omega arith) (omega arith)
      (inline_candidate 0xFFC 0 4 0x28 0x28 false true true) candidate_not_zero

-- An island whose source is at 0x100, whose payload starts at 0x104, and which ends at 0x140.
member_found :
    registered_inline_island_member_resume 0x1_0100 0x2000_0104 0x1_0140 0x104 0x200 0x1_0000 0x1000
    ≡ 0x140
unfolding registered_inline_island_member_resume registered_inline_island_resume if_ahead not_ring
    masked distance unaligned
member_found = refl

member-interior_example :
    registered_inline_island_member_resume 0x1_0100 0x2000_0104 0x1_0140 0x104 0x200 0x1_0000 0x1000
    ≡ (if 0x104 == bit_and 0x2000_0104 0x1FFF_FFFC
        then registered_inline_island_interior_resume 0x1_0100 0x2000_0104 0x1_0140 0x104 0x200
            0x1_0000 0x1000
        else 0)
member-interior_example =
    member-interior 0x1_0100 0x2000_0104 0x1_0140 0x104 0x200 0x1_0000 0x1000 (omega arith)
      (omega arith)

-- ===== src/Fifo.antt =====
-- include/ps3emu/yz_fifo_publication.h: the checks that say where the graphics FIFO may resume. A
-- result of 0 means that it may not.
--
-- All numbers are 32-bit words. The caller reads the words and the flags it passes from guest memory,
-- and repeats the call after a barrier.
pub mod Islands
pub mod Packets
pub mod Window
pub mod Steps
pub mod Members
pub mod Published
pub mod Blocks
mod Tests
use Prim.Native.Nat.{bit_and, bit_or}
use yakuza_dead_souls_ex.Prelude.{ℕ, ◌+◌, ◌-◌, ◌*◌, ◌/◌, ◌%◌, ◌^◌, Bool, not, ◌&&◌, ◌||◌}
use yakuza_dead_souls_ex.Prelude.Tests.{◌==◌, ltb, leb, if◌then◌else◌}

abbrev pub u32 : ℕ → ℕ
u32 n = n % 2 ^ 32

-- Subtraction of 32-bit words.
abbrev pub sub32 : ℕ → ℕ → ℕ
sub32 a b = u32 (a + 2 ^ 32 - b)

-- `!fifo_size || (fifo_size & (fifo_size - 1u)) != 0u`
unfoldable pub not_ring : ℕ → Bool
not_ring n = (n == 0) || not (bit_and n (n - 1) == 0)

-- `x & (fifo_size - 1u)`, and `(to - from) & mask`
unfoldable pub masked : ℕ → ℕ → ℕ
masked n x = bit_and x (n - 1)

unfoldable pub distance : ℕ → ℕ → ℕ → ℕ
distance n from to = masked n (sub32 to from)

-- `(x & 3u)`
unfoldable pub unaligned : ℕ → Bool
unaligned x = not (bit_and x 3 == 0)

-- A word that the FIFO would take for a jump, call or return, and one for a method.
unfoldable pub flow : ℕ → Bool
flow w =
    (bit_and w 0xE000_0003 == 0x2000_0000)
    || (bit_and w 3 == 1)
    || (bit_and w 3 == 2)
    || (bit_and w 0xFFFF_0003 == 0x0002_0000)

unfoldable pub method : ℕ → Bool
method w = (bit_and w 0xA003_0003 == 0) && not (bit_and (w / 2 ^ 18) 0x7FF == 0)

unfoldable pub startup_head_release_resume : ℕ → ℕ → ℕ → ℕ → ℕ → Bool → ℕ
startup_head_release_resume get put command fifo_size segment_size already_released =
    if already_released
      || not_ring fifo_size
      || (segment_size == 0)
      || unaligned segment_size
      || ltb fifo_size segment_size
      || leb fifo_size get
      || leb fifo_size put
    then 0
    else let segment = get / segment_size in
      let segment_head = segment * segment_size + (if segment == 0 then 0x1000 else 0) in
      let ahead = distance fifo_size get put in
      if not (segment == 0)
        || not (get == segment_head)
        || not (command == bit_or 0x2000_0000 get)
        || leb ahead 4
        || leb (fifo_size / 2) ahead
      then 0
      else masked fifo_size (u32 (get + 4))

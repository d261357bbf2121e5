-- ===== src/Guest.antt =====
-- Guest memory as the system calls see it: runtime/memory/vm.h, the byte swaps of
-- include/ps3emu/endian.h, the loads of runtime/ppu/ppu_memory.h, and the status codes of
-- include/ps3emu/error_codes.h.
--
-- The host is little-endian, as in the Windows build. An address is any number: `vm_base + addr` is
-- host pointer arithmetic, so an access that starts near 4 GiB runs past the guest range.
pub mod Words
pub mod Stack
mod Tests
use Prim.Native.Nat.{bit_and}
use yakuza_dead_souls_ex.Prelude.{ℕ, ◌+◌, ◌-◌, ◌*◌, ◌/◌, ◌%◌, ◌^◌, ◌&&◌}
use yakuza_dead_souls_ex.Prelude.Tests.{◌==◌, leb, ltb, if◌then◌else◌}

-- The CELL_* codes that the modelled system calls return. The values are in the source; only which
-- of them is returned matters here.
pub data Status : Type 0 where
  ok eagain einval enomem esrch edeadlk eperm ebusy : Status
  etimedout efault ecanceled eexist eisconn enotconn : Status

abbrev pub u32 : ℕ → ℕ
u32 n = n % 2 ^ 32

-- One byte for each address.
abbrev pub Memory : Type 0
Memory = ℕ → ℕ

-- `ps3_bswap32`, and the shifts that the `write_be32` of each system call file writes out. The four
-- masked bytes do not overlap, so `|` is `+`.
unfoldable pub bswap32 : ℕ → ℕ
bswap32 v =
    v / 2 ^ 24 % 2 ^ 8
    + v / 2 ^ 16 % 2 ^ 8 * 2 ^ 8
    + v / 2 ^ 8 % 2 ^ 8 * 2 ^ 16
    + v % 2 ^ 8 * 2 ^ 24

-- A 32-bit store and load of the little-endian host.
unfoldable pub store32 : Memory → ℕ → ℕ → Memory
store32 m p v q =
    if q == p
    then v % 2 ^ 8
    else if q == p + 1
    then v / 2 ^ 8 % 2 ^ 8
    else if q == p + 2
    then v / 2 ^ 16 % 2 ^ 8
    else if q == p + 3
    then v / 2 ^ 24 % 2 ^ 8
    else m q

unfoldable pub load32 : Memory → ℕ → ℕ
load32 m p = m p + m (p + 1) * 2 ^ 8 + m (p + 2) * 2 ^ 16 + m (p + 3) * 2 ^ 24

-- `write_be32`, the same text in every system call file
unfoldable pub write_be32 : Memory → ℕ → ℕ → Memory
write_be32 m addr v = store32 m addr (bswap32 v)

-- `if (addr != 0) write_be32(addr, v);`, how every output pointer is filled
abbrev pub write_out : Memory → ℕ → ℕ → Memory
write_out m addr v = if addr == 0 then m else write_be32 m addr v

unfoldable pub vm_read32 : Memory → ℕ → ℕ
vm_read32 m addr = bswap32 (load32 m addr)

-- The 64-bit forms, by halves: `bswap64` of sys_event.c is `ps3_bswap64`.
unfoldable pub bswap64 : ℕ → ℕ
bswap64 v = bswap32 (v % 2 ^ 32) * 2 ^ 32 + bswap32 (v / 2 ^ 32 % 2 ^ 32)

unfoldable pub store64 : Memory → ℕ → ℕ → Memory
store64 m p v = store32 (store32 m p (v % 2 ^ 32)) (p + 4) (v / 2 ^ 32 % 2 ^ 32)

unfoldable pub load64 : Memory → ℕ → ℕ
load64 m p = load32 m p + load32 m (p + 4) * 2 ^ 32

-- `*(uint64_t*)vm_to_host(addr) = bswap64(v)`
unfoldable pub write_be64 : Memory → ℕ → ℕ → Memory
write_be64 m addr v = store64 m addr (bswap64 v)

unfoldable pub vm_read64 : Memory → ℕ → ℕ
vm_read64 m addr = bswap64 (load64 m addr)

-- `VM_ALIGN_UP` on `uint32_t`: the sum wraps, and `~(align - 1)` is `2 ^ 32 - align`.
unfoldable pub align_up : ℕ → ℕ → ℕ
align_up v align = bit_and ((v + align + 2 ^ 32 - 1) % 2 ^ 32) (2 ^ 32 - align)

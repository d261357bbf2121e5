-- ===== src/Sync/Ticket/Words.antt =====
-- What the desired words of the ticket mutex hold.
use yakuza_dead_souls_ex.Prelude.{ℕ, ◌+◌, ◌-◌, ◌*◌, ◌/◌, ◌%◌, ◌^◌, ◌<◌, ◌≡◌, ap, ◌∙◌, some, arith}
use yakuza_dead_souls_ex.Guest.{bswap32}
use yakuza_dead_souls_ex.Guest.Words.{bswap32-bswap32, bswap32-lt}
use yakuza_dead_souls_ex.Sync.Ticket.{
  u16, serving, next, pack, lock_desired, try_desired, unlock_desired,
}

-- The tickets that are out.
abbrev pub pending : ℕ → ℕ
pending raw = u16 (next raw + 2 ^ 16 - serving raw)

pub halves_lt : (raw : ℕ) → (serving raw < 2 ^ 16) × (next raw < 2 ^ 16)
halves_lt raw = omega (arith, bswap32-lt raw)

pub pack_halves :
    (c n : ℕ) → c < 2 ^ 16 → n < 2 ^ 16 → (serving (pack c n) ≡ c) × (next (pack c n) ≡ n)
pack_halves c n hc hn =
    let back : bswap32 (pack c n) ≡ c * 2 ^ 16 + n =
      bswap32-bswap32 (c * 2 ^ 16 + n) (omega arith) in
    (ap (λ w. w / 2 ^ 16) back ∙ omega arith, ap (λ w. w % 2 ^ 16) back ∙ omega arith)

-- Lock hands out one more ticket, and only while fewer than 0xffff are out.
pub lock_desired_lem :
    (raw : ℕ) {w : ℕ}
    → lock_desired raw ≡ some w
    → (serving w ≡ serving raw) × (next w ≡ u16 (next raw + 1)) × (pending w ≡ pending raw + 1)
unfolding lock_desired
lock_desired_lem raw {w} h =
    ground (arith, halves_lt raw, pack_halves (serving raw) (u16 (next raw + 1)))

-- TryLock hands out the ticket that is served at once.
pub try_desired_lem :
    (raw : ℕ) {w : ℕ}
    → try_desired raw ≡ some w
    → (serving raw ≡ next raw) × (serving w ≡ serving raw) × (pending raw ≡ 0) × (pending w ≡ 1)
unfolding try_desired
try_desired_lem raw {w} h =
    ground (arith, halves_lt raw, pack_halves (serving raw) (u16 (next raw + 1)))

-- Unlock serves the next ticket.
pub unlock_desired_lem :
    (raw : ℕ) {w : ℕ}
    → unlock_desired raw ≡ some w
    → (serving w ≡ u16 (serving raw + 1)) × (pending w + 1 ≡ pending raw)
unfolding unlock_desired
unlock_desired_lem raw {w} h =
    ground (arith, halves_lt raw, pack_halves (u16 (serving raw + 1)) (next raw))

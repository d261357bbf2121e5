-- ===== src/Fifo/Steps.antt =====
-- What it is for a resume to be published, and the checks that move the cursor by a fixed step.
use yakuza_dead_souls_ex.Prelude.{ℕ, ◌+◌, ◌^◌, ◌<◌, ◌≡◌, ◌≢◌, Bool, false, arith}
use yakuza_dead_souls_ex.Fifo.{u32, not_ring, masked, distance, startup_head_release_resume}
use yakuza_dead_souls_ex.Fifo.Window.{masked_lt, distance_lt, distance-step}

-- An offset of the ring, and nearer to `get` than `put` is.
abbrev pub IsPublished : ℕ → ℕ → ℕ → ℕ → Type 0
IsPublished get put n r = (r < n) × (distance n get r < distance n get put)

pub stepped :
    (n get put d r : ℕ)
    → not_ring n ≡ false
    → n < 2 ^ 32
    → get < n
    → d < distance n get put
    → r ≡ masked n (u32 (get + d))
    → IsPublished get put n r
stepped n get put d r e word lt ahead at =
    let bound : distance n get put < n = distance_lt n get put e in
    let step = distance-step n get d e word lt (omega (arith, ahead, bound)) in
    rw at (masked_lt n (u32 (get + d)) e, omega (arith, step, ahead))

pub startup-IsPublished :
    (get put command n segment_size : ℕ) (released : Bool)
    → n < 2 ^ 32
    → startup_head_release_resume get put command n segment_size released ≢ 0
    → IsPublished get put n (startup_head_release_resume get put command n segment_size released)
unfolding startup_head_release_resume
startup-IsPublished get put command n segment_size released word ne =
    stepped n get put 4 _ (ground arith) word (ground arith) (ground arith) (ground arith)

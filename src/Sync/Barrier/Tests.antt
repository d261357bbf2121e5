-- ===== src/Sync/Barrier/Tests.antt =====
-- A barrier for one participant: its own Notify ends the round, and its Wait never returns.
use yakuza_dead_souls_ex.Prelude.{ℕ, ◌<◌, ◌≡◌, refl, ◌⊎◌, some, [], ◌∷◌, arith}
use yakuza_dead_souls_ex.Prelude.Lists.{length}
use yakuza_dead_souls_ex.Sync.Barrier.{
  Barrier, barrier_initialize, arrive_last, reset, advance, wait_load, spinning, System, act, Reach,
  start, after,
}
use yakuza_dead_souls_ex.Sync.Barrier.Deadlock.{IsLeftBehind, barrier_one_round}

abbrev fresh : Barrier
fresh = record { arrived = 0; total = 1; phase = 0 }

abbrev turned : System
turned = record {
  barrier = record { arrived = 0; total = 1; phase = 1 };
  threads = spinning 1 ∷ [];
}

initialized : barrier_initialize 1 ≡ some fresh
unfolding barrier_initialize
initialized = refl

turned-Reach : Reach fresh turned
turned-Reach =
    after
      (after (after (after start (act 0 refl (arrive_last (omega arith)))) (act 0 refl reset))
        (act 0 refl advance))
      (act 0 refl wait_load)

barrier_one_round_example :
    (turned.barrier.phase ≡ 0)
    ⊎ ((turned.barrier.phase ≡ 1)
        × (turned.barrier.arrived < length turned.threads)
        × ((i : ℕ) × IsLeftBehind turned i))
barrier_one_round_example = barrier_one_round 1 (omega arith) initialized turned-Reach

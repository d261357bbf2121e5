-- ===== src/Lv2/Mutex/Ownership.antt =====
-- Who owns a mutex keeps it.
use yakuza_dead_souls_ex.Prelude.{
  ℕ, suc, ◌^◌, ◌<◌, ◌≡◌, refl, sym, ◌∙◌, ap, subst, ◌≢◌, Bool, arith,
}
use yakuza_dead_souls_ex.Lv2.Mutex.{HostLock, MutexInfo, given}
use yakuza_dead_souls_ex.Lv2.Mutex.Threads.{
  Pc, System, Move, lock_deadlock, lock_call, lock_enter, lock_time_out, lock_done,
  trylock_deadlock, trylock_reenter, trylock_call, trylock_enter, trylock_busy, reenter,
  reenter_done, unlock_refused, unlock_call, unlock_leave, Step, act, Reach, start, after,
}
use yakuza_dead_souls_ex.Lv2.Mutex.Invariant.{inside, Reowns, Inv, Kept-Inv, owner_free}
use yakuza_dead_souls_ex.Lv2.Mutex.Moves.{Move-Kept}

module _ (H : HostLock) where
  step-Inv : (n t : ℕ) (s s' : System H) → Inv H n s → n < 2 ^ 31 → Step H s t s' → Inv H (suc n) s'
  step-Inv n t s s' inv few (act {m} {h} {p} real mv) =
      Kept-Inv H n t s m h p (Move-Kept H n t s inv few real refl mv)

  pub Reach-Inv : {r : Bool} {n : ℕ} {s : System H} → n < 2 ^ 31 → Reach H r n s → Inv H n s
  Reach-Inv few start = record {
    small = omega arith;
    balanced = ((λ _. refl), λ owned. absurd (owned refl));
    alone = λ t u pt pu. absurd (omega (arith, pt, H.depth-fresh t));
    fits = λ t. (ground (arith, H.depth-fresh t), tt);
  }
  Reach-Inv few (after {n} {t} {s} {s'} r step) =
      step-Inv n t s s' (Reach-Inv (omega (arith, few)) r) (omega (arith, few)) step

  -- Who is about to write the slot, or whom an unlock obeys, owns it or finds it free.
  writer_owns :
      {n t : ℕ} {s : System H} {m : MutexInfo} {h : H.State} {p p' : Pc}
      → Inv H n s
      → s.pc t ≡ p
      → Move H t s.info s.host p m h p'
      → (u : ℕ) → u ≢ t
      → u ≢ 0
      → s.info.owner_tid ≡ u
      → (m.owner_tid ≡ u) × (m.lock_count ≡ s.info.lock_count)
  unfolding given
  writer_owns inv at (lock_deadlock _) u ne nz o = (o, refl)
  writer_owns inv at (lock_call _) u ne nz o = (o, refl)
  writer_owns inv at (lock_enter _) u ne nz o = (o, refl)
  writer_owns inv at (lock_time_out _) u ne nz o = (o, refl)
  writer_owns {n} {t} {s} inv at lock_done u ne nz o =
      let pos : 0 < H.depth s.host t = omega (arith, (inv.fits t).0, ap inside at) in
      absurd (ground (arith, owner_free H n t s inv pos, o))
  writer_owns inv at (trylock_deadlock _) u ne nz o = (o, refl)
  writer_owns inv at (trylock_reenter _ _) u ne nz o = (o, refl)
  writer_owns inv at (trylock_call _ _) u ne nz o = (o, refl)
  writer_owns inv at (trylock_enter _) u ne nz o = (o, refl)
  writer_owns inv at (trylock_busy _) u ne nz o = (o, refl)
  writer_owns inv at (reenter _) u ne nz o = (o, refl)
  writer_owns {n} {t} {s} inv at reenter_done u ne nz o =
      let own : s.info.owner_tid ≡ t = (subst (Reowns s.info t) at (inv.fits t).1).0 in
      absurd (ne (sym o ∙ own))
  writer_owns inv at (unlock_refused _) u ne nz o = (o, refl)
  writer_owns inv at (unlock_call e) u ne nz o = absurd (ground (arith, o))
  writer_owns inv at unlock_leave u ne nz o = (o, refl)

-- Once a thread owns the mutex, no call of another thread takes it away: whatever the others do in
-- lock, trylock and unlock, the owner and its count stay, and the owner stays inside the host lock.
-- The run has fewer than 2 ^ 31 steps, so that the count does not overflow.
pub owner_keeps :
    (H : HostLock) {r : Bool} {n t : ℕ} {s s' : System H}
    → suc n < 2 ^ 31
    → Reach H r n s
    → Step H s t s'
    → (u : ℕ) → u ≢ t
    → u ≢ 0
    → s.info.owner_tid ≡ u
    → (s'.info.owner_tid ≡ u) × (s'.info.lock_count ≡ s.info.lock_count) × (0 < H.depth s'.host u)
owner_keeps H {n = n} {t} {s} few reach (act {m} {h} {p} real mv) u ne nz o =
    let inv = Reach-Inv H (omega (arith, few)) reach in
    let kept = Move-Kept H n t s inv (omega (arith, few)) real refl mv in
    let (own, count) = writer_owns H inv refl mv u ne nz o in
    let pos : 0 < s.info.lock_count = inv.balanced.1 (λ z. nz (sym o ∙ z)) in
    (own, count, ground (arith, (kept.others u ne).0, own, count, pos))

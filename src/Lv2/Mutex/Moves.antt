-- ===== src/Lv2/Mutex/Moves.antt =====
-- Each part of a call keeps the slot and its host lock in agreement.
use yakuza_dead_souls_ex.Prelude.{
  ℕ, ◌+◌, ◌-◌, ◌^◌, ◌<◌, ◌≡◌, refl, sym, ◌∙◌, ap, subst, ◌≢◌, ◌⊎◌, inl, inr, some, arith,
}
use yakuza_dead_souls_ex.Prelude.Tests.{◌==◌, Bool-cases}
use yakuza_dead_souls_ex.Guest.{u32}
use yakuza_dead_souls_ex.Lv2.Mutex.{HostLock, MutexInfo, taken, retaken, given}
use yakuza_dead_souls_ex.Lv2.Mutex.Threads.{
  Pc, idle, entering, attempting, reentering, entered, reentered, leaving, System, Move,
  lock_deadlock, lock_call, lock_enter, lock_time_out, lock_done, trylock_deadlock, trylock_reenter,
  trylock_call, trylock_enter, trylock_busy, reenter, reenter_done, unlock_refused, unlock_call,
  unlock_leave,
}
use yakuza_dead_souls_ex.Lv2.Mutex.Invariant.{
  counted, inside, Reowns, IsBalanced, Inv, Kept, quiet, enters, owner_free, outside,
}

-- Nobody but `t` enters again, while the owner is `t` or nobody.
others-Reowns :
    (m m' : MutexInfo) (t u : ℕ)
    → (m.owner_tid ≡ 0) ⊎ (m.owner_tid ≡ t)
    → u ≢ t
    → (p : Pc) → Reowns m u p
    → Reowns m' u p
others-Reowns m m' t u own ne reentering re = absurd (ground (arith, own, re))
others-Reowns m m' t u own ne reentered re = absurd (ground (arith, own, re))
others-Reowns m m' t u own ne idle re = tt
others-Reowns m m' t u own ne entering re = tt
others-Reowns m m' t u own ne attempting re = tt
others-Reowns m m' t u own ne entered re = tt
others-Reowns m m' t u own ne leaving re = tt

module _ (H : HostLock) (n t : ℕ) (s : System H) (inv : Inv H n s) (few : n < 2 ^ 31)
    (real : t ≢ 0) where
  -- The slot is written by who has entered.
  takes : s.pc t ≡ entered → Kept H n t s (taken s.info t) s.host idle
  unfolding taken
  takes at = record {
    small = omega (arith, up, inv.small);
    balanced = ((λ z. absurd (real z)), λ owned. omega (arith, up));
    alone = inv.alone;
    mover = (ground (arith, depth, up), tt);
    others = λ u ne.
        let none_in = outside H n t s inv u pos ne in
        (
          ground (arith, none_in, (inv.fits u).0),
          others-Reowns s.info (taken s.info t) t u (owner_free H n t s inv pos) ne (s.pc u)
              (inv.fits u).1,
        );
  }
    where
      up : u32 (s.info.lock_count + 1) ≡ s.info.lock_count + 1
      up = omega (arith, inv.small, few)

      entry : H.depth s.host t ≡ counted s.info t + 1
      entry = (inv.fits t).0 ∙ ap (λ p. counted s.info t + inside p) at

      pos : 0 < H.depth s.host t
      pos = omega (arith, entry)

      depth : H.depth s.host t ≡ s.info.lock_count + 1
      depth = elim (owner_free H n t s inv pos) [
        | inl free ↦ ground (arith, entry, free, inv.balanced.0 free)
        | inr own ↦ ground (arith, entry, own)
      ]

  retakes : s.pc t ≡ reentered → Kept H n t s (retaken s.info) s.host idle
  unfolding retaken
  retakes at = record {
    small = omega (arith, up, inv.small);
    balanced = ((λ z. absurd (real (sym own ∙ z))), λ owned. omega (arith, up));
    alone = inv.alone;
    mover = (ground (arith, entry, own, up), tt);
    others = λ u ne. (
      ground (arith, own, (inv.fits u).0),
      others-Reowns s.info (retaken s.info) t u (inr own) ne (s.pc u) (inv.fits u).1,
    );
  }
    where
      up : u32 (s.info.lock_count + 1) ≡ s.info.lock_count + 1
      up = omega (arith, inv.small, few)

      own : s.info.owner_tid ≡ t
      own = (subst (Reowns s.info t) at (inv.fits t).1).0

      entry : H.depth s.host t ≡ counted s.info t + 1
      entry = (inv.fits t).0 ∙ ap (λ p. counted s.info t + inside p) at

  -- What a permitted unlock writes.
  given_lem :
      (m m' : MutexInfo)
      → m.lock_count < 2 ^ 31
      → IsBalanced m
      → given m t ≡ some m'
      → (m.owner_tid ≡ t)
        × (m'.lock_count + 1 ≡ m.lock_count)
        × IsBalanced m'
        × ((m'.owner_tid ≡ 0) ⊎ (m'.owner_tid ≡ t))
  unfolding given
  given_lem m m' small balanced e =
      let own : m.owner_tid ≡ t = ground arith in
      let pos : 0 < m.lock_count = balanced.1 (λ z. real (sym own ∙ z)) in
      let down : u32 (m.lock_count + 2 ^ 32 - 1) + 1 ≡ m.lock_count = omega (arith, pos, small) in
      (
        own,
        ground (arith, down),
        ((λ z. ground (arith, own, real)), λ owned. ground (arith, own, real)),
        ground (arith, own),
      )

  gives :
      {m' : MutexInfo} → s.pc t ≡ idle → given s.info t ≡ some m' → Kept H n t s m' s.host leaving
  gives {m'} at e =
      let (own, down, balanced, owner) =
        given_lem s.info m' (omega (arith, inv.small, few)) inv.balanced e in
      let entry : H.depth s.host t ≡ counted s.info t =
        omega (arith, (inv.fits t).0, ap inside at) in
      record {
        small = omega (arith, down, inv.small);
        balanced = balanced;
        alone = inv.alone;
        mover = (ground (arith, entry, own, down, owner, balanced, real), tt);
        others = λ u ne. (
          ground (arith, own, owner, balanced, (inv.fits u).0, ne),
          others-Reowns s.info m' t u (inr own) ne (s.pc u) (inv.fits u).1,
        );
      }

  leaves : s.pc t ≡ leaving → Kept H n t s s.info (H.leave s.host t) idle
  leaves at =
      let entry : H.depth s.host t ≡ counted s.info t + 1 =
        omega (arith, (inv.fits t).0, ap inside at) in
      let pos : 0 < H.depth s.host t = omega (arith, entry) in
      let less = H.depth-leave pos in
      record {
        small = omega (arith, inv.small);
        balanced = inv.balanced;
        alone = λ a b pa pb. inv.alone a b (still a pos pa) (still b pos pb);
        mover = (omega (arith, entry, less), tt);
        others = λ u ne. (omega (arith, H.leave-others pos ne, (inv.fits u).0), (inv.fits u).1);
      }
    where
      still :
          (a : ℕ) → 0 < H.depth s.host t → 0 < H.depth (H.leave s.host t) a → 0 < H.depth s.host a
      still a pos pa = elim (Bool-cases (a == t)) [
        | inl same ↦ let e : a ≡ t = ground arith in rw e pos
        | inr other ↦ let ne : a ≢ t = ground arith in omega (arith, H.leave-others pos ne, pa)
      ]

  pub Move-Kept :
      {m : MutexInfo} {h : H.State} {p p' : Pc}
      → s.pc t ≡ p
      → Move H t s.info s.host p m h p'
      → Kept H n t s m h p'
  Move-Kept at (lock_deadlock _) = quiet H n t s inv idle (ap inside at) refl tt
  Move-Kept at (lock_call _) = quiet H n t s inv entering (ap inside at) refl tt
  Move-Kept at (lock_enter got) = enters H n t s inv entered got (ap inside at) refl tt
  Move-Kept at (lock_time_out _) = quiet H n t s inv idle (ap inside at) refl tt
  Move-Kept at lock_done = takes at
  Move-Kept at (trylock_deadlock _) = quiet H n t s inv idle (ap inside at) refl tt
  Move-Kept at (trylock_reenter _ again) =
      quiet H n t s inv reentering (ap inside at) refl (ground arith, real)
  Move-Kept at (trylock_call _ _) = quiet H n t s inv attempting (ap inside at) refl tt
  Move-Kept at (trylock_enter got) = enters H n t s inv entered got (ap inside at) refl tt
  Move-Kept at (trylock_busy _) = quiet H n t s inv idle (ap inside at) refl tt
  Move-Kept at (reenter got) =
      enters H n t s inv reentered got (ap inside at) refl
        (subst (Reowns s.info t) at (inv.fits t).1)
  Move-Kept at reenter_done = retakes at
  Move-Kept at (unlock_refused _) = quiet H n t s inv idle (ap inside at) refl tt
  Move-Kept at (unlock_call e) = gives at e
  Move-Kept at unlock_leave = leaves at

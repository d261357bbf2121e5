-- ===== src/Lv2/Mutex/Invariant.antt =====
-- A slot and its host lock agree: the owner has entered the host lock as often as the slot counts, and
-- nobody else is inside, but for the thread that is about to write the slot or to leave.
use yakuza_dead_souls_ex.Prelude.{
  ℕ, suc, ◌+◌, ◌≤◌, ◌<◌, ◌≡◌, sym, ◌∙◌, ◌≢◌, ◌⊎◌, inl, inr, some, arith,
}
use yakuza_dead_souls_ex.Prelude.Tests.{◌==◌, if◌then◌else◌, Bool-cases}
use yakuza_dead_souls_ex.Lv2.Mutex.{HostLock, MutexInfo}
use yakuza_dead_souls_ex.Lv2.Mutex.Threads.{
  Pc, reentering, entered, reentered, leaving, System, move_to,
}

-- Entries of the host lock that the slot counts for a thread, and that are on the way.
abbrev pub counted : MutexInfo → ℕ → ℕ
counted m t = if m.owner_tid == t then m.lock_count else 0

abbrev pub inside : Pc → ℕ
inside entered = 1
inside reentered = 1
inside leaving = 1
inside _ = 0

-- A thread that enters again owns the mutex.
abbrev pub Reowns : MutexInfo → ℕ → Pc → Type 0
Reowns m t reentering = (m.owner_tid ≡ t) × (t ≢ 0)
Reowns m t reentered = (m.owner_tid ≡ t) × (t ≢ 0)
Reowns m t _ = Unit {0}

-- An owner has a count, and no owner none.
abbrev pub IsBalanced : MutexInfo → Type 0
IsBalanced m = (m.owner_tid ≡ 0 → m.lock_count ≡ 0) × (m.owner_tid ≢ 0 → 0 < m.lock_count)

module _ (H : HostLock) where
  abbrev pub Fits : MutexInfo → H.State → ℕ → Pc → Type 0
  Fits m h t p = (H.depth h t ≡ counted m t + inside p) × Reowns m t p

  pub record Inv (n : ℕ) (s : System H) : Type 0 where
    pub small : s.info.lock_count ≤ n
    pub balanced : IsBalanced s.info
    pub alone : (t u : ℕ) → 0 < H.depth s.host t → 0 < H.depth s.host u → t ≡ u
    pub fits : (t : ℕ) → Fits s.info s.host t (s.pc t)

  -- What a part of a call by `t` has to show.
  pub record Kept (n t : ℕ) (s : System H) (m : MutexInfo) (h : H.State) (p : Pc) : Type 0 where
    pub small : m.lock_count ≤ suc n
    pub balanced : IsBalanced m
    pub alone : (a b : ℕ) → 0 < H.depth h a → 0 < H.depth h b → a ≡ b
    pub mover : Fits m h t p
    pub others : (u : ℕ) → u ≢ t → Fits m h u (s.pc u)

  pub Kept-Inv :
      (n t : ℕ) (s : System H) (m : MutexInfo) (h : H.State) (p : Pc)
      → Kept n t s m h p
      → Inv (suc n) (record { info = m; host = h; pc = move_to H s.pc t p })
  Kept-Inv n t s m h p k = record {
    small = k.small;
    balanced = k.balanced;
    alone = k.alone;
    fits = λ u. elim (Bool-cases (u == t)) [
      | inl same ↦
          let e : u ≡ t = ground arith in
          let here : move_to H s.pc t p u ≡ p = ground arith in rw here (rw e k.mover)
      | inr other ↦
          let ne : u ≢ t = ground arith in
          let there : move_to H s.pc t p u ≡ s.pc u = ground arith in rw there (k.others u ne)
    ];
  }

  module _ (n t : ℕ) (s : System H) (inv : Inv n s) where
    -- A test that writes nothing.
    pub quiet :
        (p' : Pc)
        → inside (s.pc t) ≡ 0
        → inside p' ≡ 0
        → Reowns s.info t p'
        → Kept n t s s.info s.host p'
    quiet p' z z' re = record {
      small = omega (arith, inv.small);
      balanced = inv.balanced;
      alone = inv.alone;
      mover = (omega (arith, (inv.fits t).0, z, z'), re);
      others = λ u ne. inv.fits u;
    }

    -- An entry of the host lock.
    pub enters :
        (p' : Pc) {h' : H.State}
        → H.try_enter s.host t ≡ some h'
        → inside (s.pc t) ≡ 0
        → inside p' ≡ 1
        → Reowns s.info t p'
        → Kept n t s s.info h' p'
    enters p' {h'} got z one re = record {
      small = omega (arith, inv.small);
      balanced = inv.balanced;
      alone = λ a b pa pb. only a pa ∙ sym (only b pb);
      mover = (omega (arith, (inv.fits t).0, z, one, H.depth-enter got), re);
      others = λ u ne.
          let zero = H.enter-alone got ne in (omega (arith, (inv.fits u).0, zero), (inv.fits u).1);
    }
      where
        only : (a : ℕ) → 0 < H.depth h' a → a ≡ t
        only a pos = elim (Bool-cases (a == t)) [
          | inl same ↦ ground arith
          | inr other ↦
              let ne : a ≢ t = ground arith in absurd (omega (arith, H.enter-alone got ne, pos))
        ]

    -- Who is inside the host lock finds nobody else's ownership, and no one else inside.
    pub owner_free : 0 < H.depth s.host t → (s.info.owner_tid ≡ 0) ⊎ (s.info.owner_tid ≡ t)
    owner_free pos = elim (Bool-cases (s.info.owner_tid == 0)) [
      | inl zero ↦ inl (ground arith)
      | inr owned ↦
          let ne : s.info.owner_tid ≢ 0 = ground arith in
          let count = inv.balanced.1 ne in
          let held : 0 < H.depth s.host s.info.owner_tid =
            ground (arith, (inv.fits s.info.owner_tid).0, count) in
          inr (inv.alone s.info.owner_tid t held pos)
    ]

    pub outside : (u : ℕ) → 0 < H.depth s.host t → u ≢ t → H.depth s.host u ≡ 0
    outside u pos ne = elim (Bool-cases (H.depth s.host u == 0)) [
      | inl zero ↦ ground arith
      | inr some_depth ↦ absurd (ne (inv.alone u t (ground arith) pos))
    ]

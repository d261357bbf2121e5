-- ===== src/Lv2/Cond/Rendezvous.antt =====
-- Condition variables keep their contract however the threads interleave.
use yakuza_dead_souls_ex.Prelude.{
  ℕ, zero, suc, ◌+◌, ◌^◌, ◌≤◌, ◌<◌, ◌≡◌, refl, sym, ◌∙◌, ap, ◌↔◌, inl, inr, true, false, some, List,
  arith, min,
}
use yakuza_dead_souls_ex.Prelude.Lists.{
  length, get_elem?, set, replicate, total, total-set, total-le-length, length-set,
  length-replicate, get_elem?-set_cases,
}
use yakuza_dead_souls_ex.Guest.{ok, ebusy}
use yakuza_dead_souls_ex.Lv2.Cond.{
  State, destroy_cond, CondInfo, commit, wait_end, signal, signal_all, signal_to,
}
use yakuza_dead_souls_ex.Lv2.Cond.Contract.{
  Contract, Act, one_signalled, all_signalled, unobserved, Allows, History, nothing_yet, then_,
}
use yakuza_dead_souls_ex.Lv2.Cond.Threads.{
  Pc, outside, claiming, parked, returning, Machine, Step, claim, park, serve, time_out, return_to,
  send, send_all, send_to, destroy, lock_or_unlock, Reach, start, after,
}

abbrev pub waits : Pc → ℕ
waits outside = 0
waits (claiming _) = 0
waits (parked _) = 1
waits (returning _ _) = 0

-- What the contract sees of the machine: the threads between their commitment and the end of their
-- wait, and the signals held.
abbrev pub view : Machine → Contract
view s = record { waiting = total waits s.threads; held = s.cond.pending }

record IsMet (n : ℕ) (s : Machine) : Type 0 where
  all : length s.threads ≡ n
  committed : s.cond.committed ≡ total waits s.threads
  pending : s.cond.pending ≤ s.cond.committed

waits-le : (p : Pc) → waits p ≤ 1
waits-le outside = omega arith
waits-le (claiming _) = omega arith
waits-le (parked _) = omega arith
waits-le (returning _ _) = omega arith

waits-few : (threads : List Pc) → total waits threads ≤ length threads
waits-few threads = total-le-length waits threads waits-le

signal_lem :
    (c : CondInfo)
    → c.committed < 2 ^ 31
    → c.pending ≤ c.committed
    → ((signal c).committed ≡ c.committed) × ((signal c).pending ≡ min (c.pending + 1) c.committed)
unfolding signal
signal_lem c few le = (ground arith, ground arith)

destroy_lem :
    (st st' : State) (slot : ℕ) (c c' : CondInfo)
    → destroy_cond st slot (some c) ≡ (ok, st')
    → get_elem? st'.conds slot ≡ some c'
    → (c'.committed ≡ c.committed) × (c'.pending ≡ c.pending)
unfolding destroy_cond
destroy_lem st st' slot c c' h e =
    let conds_are : st'.conds ≡ set st.conds slot (record c { active = false }) = ground arith in
    let at : get_elem? (set st.conds slot (record c { active = false })) slot ≡ some c' =
      rw (← conds_are) e in
    elim (get_elem?-set_cases st.conds slot slot (record c { active = false }) at) [
      | inl (_, same) ↦ rw same (refl, refl)
      | inr (ne, _) ↦ absurd (ne refl)
    ]

-- What one step gives: the invariant again, and an act that the contract allows.
abbrev Kept : ℕ → Act → Machine → Machine → Type 0
Kept n act s s' = IsMet n s' × Allows act (view s) (view s')

-- A thread moves, and its wait is counted along.
Moves :
    (n : ℕ) (s : Machine) (t : ℕ) {pc : Pc} (pc' : Pc)
    → n < 2 ^ 31
    → IsMet n s
    → get_elem? s.threads t ≡ some pc
    → (length (set s.threads t pc') ≡ n)
      × (total waits (set s.threads t pc') + waits pc ≡ total waits s.threads + waits pc')
      × (total waits (set s.threads t pc') < 2 ^ 31)
      × (total waits s.threads < 2 ^ 31)
Moves n s t pc' few v e = (
  length-set s.threads t pc' ∙ v.all,
  total-set waits s.threads t pc' e,
  omega (arith, few, v.all, waits-few (set s.threads t pc'), length-set s.threads t pc'),
  omega (arith, few, v.all, waits-few s.threads),
)

-- A signal moves no thread.
signals-Kept :
    (n : ℕ) (s : Machine) (act : Act) (c : CondInfo)
    → IsMet n s
    → c.committed ≡ s.cond.committed
    → c.pending ≤ s.cond.committed
    → Allows act (view s) (view (record s { cond = c }))
    → Kept n act s (record s { cond = c })
signals-Kept n s act c v same le allowed = (
  record { all = v.all; committed = same ∙ v.committed; pending = omega (arith, same, le) },
  allowed,
)

Step-Kept :
    (n : ℕ) {act : Act} {s s' : Machine} → n < 2 ^ 31 → IsMet n s → Step s act s' → Kept n act s s'
unfolding commit wait_end signal_to signal_all Allows
Step-Kept n {s = s} few v (claim t {saved} e on mutex_on h) =
    let f = Moves n s t (claiming saved) few v e in
    (
      record { all = f.0; committed = omega (arith, v.committed, f.1); pending = v.pending },
      (omega (arith, f.1), refl),
    )
Step-Kept n {s = s} few v (park t {saved} e) =
    let f = Moves n s t (parked saved) few v e in
    (
      record {
        all = f.0;
        committed = ground (arith, v.committed, f);
        pending = ground (arith, v.committed, v.pending, f);
      },
      (omega (arith, f.1), refl),
    )
Step-Kept n {s = s} few v (serve t {saved} e some_held) =
    let f = Moves n s t (returning saved true) few v e in
    (
      record {
        all = f.0;
        committed = omega (arith, v.committed, f);
        pending = omega (arith, v.committed, v.pending, f);
      },
      (
        omega (arith, some_held),
        omega (arith, f.1),
        omega (arith, some_held, v.pending, v.committed, f),
      ),
    )
Step-Kept n {s = s} few v (time_out t {saved} e none_held) =
    let f = Moves n s t (returning saved false) few v e in
    (
      record {
        all = f.0;
        committed = omega (arith, v.committed, f);
        pending = omega (arith, none_held);
      },
      (none_held, omega (arith, f.1), none_held),
    )
Step-Kept n {s = s} few v (return_to t e) =
    let f = Moves n s t outside few v e in
    (
      record { all = f.0; committed = omega (arith, v.committed, f.1); pending = v.pending },
      (omega (arith, f.1), refl),
    )
Step-Kept n {s = s} few v send =
    let f =
      signal_lem s.cond (omega (arith, few, v.committed, waits-few s.threads, v.all)) v.pending in
    signals-Kept n s one_signalled (signal s.cond) v f.0 (omega (arith, f.1))
      (refl, f.1 ∙ ap (min (s.cond.pending + 1)) v.committed)
Step-Kept n {s = s} few v send_all =
    signals-Kept n s all_signalled (signal_all s.cond) v refl (omega arith) (refl, v.committed)
Step-Kept n {s = s} few v (send_to target {c} e) =
    let f =
      signal_lem s.cond (omega (arith, few, v.committed, waits-few s.threads, v.all)) v.pending in
    let is : c ≡ signal s.cond = ground arith in
    rw is (
      signals-Kept n s one_signalled (signal s.cond) v f.0 (omega (arith, f.1))
        (refl, f.1 ∙ ap (min (s.cond.pending + 1)) v.committed))
Step-Kept n {s = s} few v (destroy st st' slot {c} h e) =
    let f = destroy_lem st st' slot s.cond c h e in
    signals-Kept n s unobserved c v f.0 (omega (arith, f.1, v.pending)) (refl, f.1)
Step-Kept n few v (lock_or_unlock m) =
    (record { all = v.all; committed = v.committed; pending = v.pending }, (refl, refl))

total-outside : (n : ℕ) → total waits (replicate n outside) ≡ 0
unfolding total
total-outside zero = refl
total-outside (suc n) = omega (arith, total-outside n)

Reach-IsMet :
    {mutex_id n : ℕ} {acts : List Act} {s : Machine}
    → n < 2 ^ 31
    → Reach mutex_id n acts s
    → IsMet n s × History acts (view s)
Reach-IsMet {n = n} few (start m) = (
  record {
    all = length-replicate n outside;
    committed = sym (total-outside n);
    pending = omega arith;
  },
  rw (total-outside n) nothing_yet,
)
Reach-IsMet {n = n} few (after {act = act} {t = t} r one) =
    let (v, past) = Reach-IsMet few r in
    let (w, allowed) = Step-Kept n few v one in (w, then_ act (view t) past allowed)

destroy_cond_lem :
    (st : State) (slot : ℕ) (c : CondInfo)
    → c.committed < 2 ^ 31
    → ((destroy_cond st slot (some c)).0 ≡ ebusy) ↔ ((c.active ≡ true) × (0 < c.committed))
unfolding destroy_cond
destroy_cond_lem st slot c few = ground arith

-- However `n` threads wait, time out, signal and destroy, fewer than 2 ^ 31 of them, what is observed
-- is a history that the contract allows, for the threads that stand between their commitment and the
-- end of their wait, and with the field `pending` as the signals held: each signal is held for one more
-- of them, up to their number, a wait ends with CELL_OK only on a signal held, and times out only when
-- none is. No more signals are held than threads wait, and `sys_cond_destroy` of the slot returns
-- CELL_EBUSY exactly while it is active and a thread waits.
pub rendezvous :
    {mutex_id n : ℕ} {acts : List Act} {s : Machine}
    → n < 2 ^ 31
    → Reach mutex_id n acts s
    → (st : State) (slot : ℕ)
    → History acts (view s)
      × (s.cond.pending ≤ total waits s.threads)
      × (((destroy_cond st slot (some s.cond)).0 ≡ ebusy)
          ↔ ((s.cond.active ≡ true) × (0 < total waits s.threads)))
rendezvous {n = n} {s = s} few r st slot =
    let (v, past) = Reach-IsMet few r in
    (
      past,
      omega (arith, v.pending, v.committed),
      rw (← v.committed) (
          destroy_cond_lem st slot s.cond
            (omega (arith, few, v.committed, v.all, waits-few s.threads))),
    )

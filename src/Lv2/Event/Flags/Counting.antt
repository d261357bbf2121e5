-- ===== src/Lv2/Event/Flags/Counting.antt =====
-- runtime/syscalls/sys_event.c: an event flag counts the threads that wait on it.
use yakuza_dead_souls_ex.Prelude.{
  ℕ, ◌+◌, ◌-◌, ◌^◌, ◌≤◌, ◌<◌, ◌≡◌, refl, sym, ◌∙◌, ◌≢◌, ◌⊎◌, inl, inr, Bool, true, false, not, ◌||◌,
  Option, none, some, List, arith,
}
use yakuza_dead_souls_ex.Prelude.Tests.{◌==◌, Bool-cases, if◌then◌else◌}
use yakuza_dead_souls_ex.Prelude.Lists.{
  length, get_elem?, set, find_index, find_index-some, total, get_elem?-set_cases,
}
use yakuza_dead_souls_ex.Guest.{Status, u32}
use yakuza_dead_souls_ex.Lv2.Event.{
  FlagInfo, State, positive, flag_max, bad_handle, good_protocol, attr_word,
}
use yakuza_dead_souls_ex.Lv2.Event.Flags.{
  free_flag, good_waiter_type, flag_check, after_wait, put_flag, sys_event_flag_create,
  destroy_flag, sys_event_flag_destroy, try_wait, sys_event_flag_trywait, change_flag,
  sys_event_flag_set_by_id, sys_event_flag_clear, get_flag, sys_event_flag_get, cancel_flag,
  sys_event_flag_cancel,
}
use yakuza_dead_souls_ex.Lv2.Event.Flags.Waiters.{Pc, outside, inside, Machine}

abbrev pub waits : Pc → ℕ
waits outside = 0
waits (inside snap bitpat mode result_addr) = 1

pub waits-le : (pc : Pc) → waits pc ≤ 1
waits-le outside = omega arith
waits-le (inside snap bitpat mode result_addr) = omega arith

-- The flag's count is the number of threads inside a wait, and a flag that is not active has none.
pub record IsCounted (id : ℕ) (m : Machine) : Type 0 where
  pub few : length m.threads < 2 ^ 31
  pub counted :
      (f : FlagInfo) → get_elem? m.state.flags (id - 1) ≡ some f → f.waiters ≡ total waits m.threads
  pub idle_when_off :
      (f : FlagInfo)
      → get_elem? m.state.flags (id - 1) ≡ some f
      → f.active ≡ false
      → total waits m.threads ≡ 0

-- What a call of a thread outside does to the flags.
pub data Spares (flags : List FlagInfo) (id : ℕ) : List FlagInfo → Type 0 where
  untouched : Spares flags id flags
  touched :
      (f g : FlagInfo)
      → get_elem? flags (id - 1) ≡ some f
      → g.waiters ≡ f.waiters
      → (g.active ≡ f.active) ⊎ (f.waiters ≡ 0)
      → Spares flags id (set flags (id - 1) g)
  elsewhere : (slot : ℕ) (g : FlagInfo) → slot ≢ id - 1 → Spares flags id (set flags slot g)

pub Spares-IsCounted :
    (id : ℕ) (m : Machine) (s : State)
    → IsCounted id m
    → Spares m.state.flags id s.flags
    → IsCounted id (record m { state = s })
Spares-IsCounted id m s v c = record {
  few = v.few;
  counted = λ f e. (go s.flags c f e).0;
  idle_when_off = λ f e off. (go s.flags c f e).1 off;
}
  where
    go :
        (flags : List FlagInfo)
        → Spares m.state.flags id flags
        → (f : FlagInfo) → get_elem? flags (id - 1) ≡ some f
        → (f.waiters ≡ total waits m.threads) × (f.active ≡ false → total waits m.threads ≡ 0)
    go _ untouched f e = (v.counted f e, v.idle_when_off f e)
    go _ (touched p g at same still) f e =
        elim (get_elem?-set_cases m.state.flags (id - 1) (id - 1) g e) [
          | inl (_, is) ↦ rw is (
            same ∙ v.counted p at,
            λ off. elim still [
              | inl on ↦ v.idle_when_off p at (sym on ∙ off)
              | inr nobody ↦ sym (v.counted p at) ∙ nobody
            ],
          )
          | inr (ne, _) ↦ absurd (ne refl)
        ]
    go _ (elsewhere slot g apart) f e = elim (get_elem?-set_cases m.state.flags slot (id - 1) g e) [
      | inl (same, _) ↦ absurd (apart same)
      | inr (_, old) ↦ (v.counted f old, v.idle_when_off f old)
    ]

-- The calls, one by one.
branch-Spares :
    (flags : List FlagInfo) (id : ℕ) (b : Bool) (x y : Status × State)
    → Spares flags id x.1.flags
    → Spares flags id y.1.flags
    → Spares flags id (if b then x else y).1.flags
branch-Spares flags id true x y p q = p
branch-Spares flags id false x y p q = q

change_flag-Spares :
    (s : State) (id : ℕ) (change : FlagInfo → FlagInfo) (o : Option FlagInfo)
    → get_elem? s.flags (id - 1) ≡ o
    → ((f : FlagInfo) → ((change f).waiters ≡ f.waiters) × ((change f).active ≡ f.active))
    → Spares s.flags id (change_flag s id change o).1.flags
unfolding change_flag
change_flag-Spares s id change none e keeps = untouched
change_flag-Spares s id change (some f) e keeps =
    branch-Spares s.flags id (not f.active) _ _ untouched
      (touched f (change f) e (keeps f).0 (inl (keeps f).1))

pub set-Spares :
    (s : State) (id bitpat : ℕ) → Spares s.flags id (sys_event_flag_set_by_id s id bitpat).1.flags
unfolding sys_event_flag_set_by_id
set-Spares s id bitpat =
    branch-Spares s.flags id (bad_handle id flag_max) _ _ untouched
      (change_flag-Spares s id _ (get_elem? s.flags (id - 1)) refl (λ f. (refl, refl)))

pub clear-Spares :
    (s : State) (id bitpat : ℕ) → Spares s.flags id (sys_event_flag_clear s id bitpat).1.flags
unfolding sys_event_flag_clear
clear-Spares s id bitpat =
    branch-Spares s.flags id (bad_handle id flag_max) _ _ untouched
      (change_flag-Spares s id _ (get_elem? s.flags (id - 1)) refl (λ f. (refl, refl)))

cancel_flag-Spares :
    (s : State) (id num_ea : ℕ) (o : Option FlagInfo)
    → get_elem? s.flags (id - 1) ≡ o
    → Spares s.flags id (cancel_flag s id num_ea o).1.flags
unfolding cancel_flag
cancel_flag-Spares s id num_ea none e = untouched
cancel_flag-Spares s id num_ea (some f) e =
    branch-Spares s.flags id (not f.active) _ _ untouched
      (touched f (record f { cancel_gen = u32 (f.cancel_gen + 1) }) e refl (inl refl))

pub cancel-Spares :
    (s : State) (id num_ea : ℕ) → Spares s.flags id (sys_event_flag_cancel s id num_ea).1.flags
unfolding sys_event_flag_cancel
cancel-Spares s id num_ea =
    branch-Spares s.flags id (bad_handle id flag_max) _ _ untouched
      (cancel_flag-Spares s id num_ea (get_elem? s.flags (id - 1)) refl)

get_flag-Spares :
    (s : State) (id out_addr : ℕ) (o : Option FlagInfo)
    → Spares s.flags id (get_flag s out_addr o).1.flags
unfolding get_flag
get_flag-Spares s id out_addr none = untouched
get_flag-Spares s id out_addr (some f) =
    branch-Spares s.flags id (not f.active) _ _ untouched untouched

pub get-Spares :
    (s : State) (id out_addr : ℕ) → Spares s.flags id (sys_event_flag_get s id out_addr).1.flags
unfolding sys_event_flag_get
get-Spares s id out_addr =
    branch-Spares s.flags id (bad_handle id flag_max) _ _ untouched
      (get_flag-Spares s id out_addr (get_elem? s.flags (id - 1)))

try_wait-Spares :
    (s : State) (id bitpat mode result_addr : ℕ) (o : Option FlagInfo)
    → get_elem? s.flags (id - 1) ≡ o
    → Spares s.flags id (try_wait s id bitpat mode result_addr o).1.flags
unfolding try_wait
try_wait-Spares s id bitpat mode result_addr none e = untouched
try_wait-Spares s id bitpat mode result_addr (some f) e =
    branch-Spares s.flags id (not f.active) _ _ untouched (
      branch-Spares s.flags id (not (flag_check f.pattern bitpat mode)) _ _ untouched
        (touched f (record f { pattern = after_wait f.pattern bitpat mode }) e refl (inl refl)))

pub trywait-Spares :
    (s : State) (id bitpat mode result_addr : ℕ)
    → Spares s.flags id (sys_event_flag_trywait s id bitpat mode result_addr).1.flags
unfolding sys_event_flag_trywait
trywait-Spares s id bitpat mode result_addr =
    branch-Spares s.flags id (bad_handle id flag_max) _ _ untouched
      (try_wait-Spares s id bitpat mode result_addr (get_elem? s.flags (id - 1)) refl)

destroy_flag-Spares :
    (s : State) (id : ℕ) (o : Option FlagInfo)
    → get_elem? s.flags (id - 1) ≡ o
    → ((f : FlagInfo) → get_elem? s.flags (id - 1) ≡ some f → f.waiters < 2 ^ 31)
    → Spares s.flags id (destroy_flag s id o).1.flags
unfolding destroy_flag
destroy_flag-Spares s id none e small = untouched
destroy_flag-Spares s id (some f) e small = elim (Bool-cases (positive f.waiters)) [
  | inl used ↦ branch-Spares s.flags id (not f.active) _ _ untouched (rw used untouched)
  | inr unused ↦ branch-Spares s.flags id (not f.active) _ _ untouched (
      branch-Spares s.flags id (positive f.waiters) _ _ untouched
        (touched f (record f { active = false }) e refl (inr (ground (arith, unused, small f e)))))
]

pub destroy-Spares :
    (s : State) (id : ℕ)
    → ((f : FlagInfo) → get_elem? s.flags (id - 1) ≡ some f → f.waiters < 2 ^ 31)
    → Spares s.flags id (sys_event_flag_destroy s id).1.flags
unfolding sys_event_flag_destroy
destroy-Spares s id small =
    branch-Spares s.flags id (bad_handle id flag_max) _ _ untouched
      (destroy_flag-Spares s id (get_elem? s.flags (id - 1)) refl small)

-- A free slot is filled: it is that of the handle, or another.
fill-Spares :
    (flags : List FlagInfo) (id slot : ℕ) (f g : FlagInfo)
    → get_elem? flags slot ≡ some f
    → g.waiters ≡ 0
    → (slot ≡ id - 1 → f.waiters ≡ 0)
    → Spares flags id (set flags slot g)
fill-Spares flags id slot f g at empty unused = elim (Bool-cases (slot == (id - 1))) [
  | inl same ↦
      let is : slot ≡ id - 1 = ground arith in
      let none_in = unused is in
      rw is (touched f g (rw (← is) at) (empty ∙ sym none_in) (inr none_in))
  | inr ne ↦ elsewhere slot g (ground arith)
]

put_flag-Spares :
    (s : State) (id out attr init : ℕ) (o : Option ℕ)
    → find_index free_flag s.flags ≡ o
    → ((f : FlagInfo) → get_elem? s.flags (id - 1) ≡ some f → f.active ≡ false → f.waiters ≡ 0)
    → Spares s.flags id (put_flag s out attr init o).1.flags
unfolding put_flag
put_flag-Spares s id out attr init none e unused = untouched
put_flag-Spares s id out attr init (some slot) e unused =
    let (f, at, free) = find_index-some free_flag s.flags slot e in
    branch-Spares s.flags id
      (not (good_protocol (attr_word s.mem attr 0 1))
        || not (good_waiter_type (attr_word s.mem attr 20 (2 ^ 17))))
      _ _ untouched
      (fill-Spares s.flags id slot f _ at refl (λ is. unused f (rw (← is) at) (ground arith)))

pub create-Spares :
    (s : State) (id out attr init : ℕ)
    → ((f : FlagInfo) → get_elem? s.flags (id - 1) ≡ some f → f.active ≡ false → f.waiters ≡ 0)
    → Spares s.flags id (sys_event_flag_create s out attr init).1.flags
unfolding sys_event_flag_create
create-Spares s id out attr init unused =
    put_flag-Spares s id out attr init (find_index free_flag s.flags) refl unused

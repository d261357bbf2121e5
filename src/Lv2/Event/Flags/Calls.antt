-- ===== src/Lv2/Event/Flags/Calls.antt =====
-- runtime/syscalls/sys_event.c: what each event flag call does to an active flag, and how a look of a
-- parked waiter can go.
use Prim.Native.Nat.{bit_and, bit_or}
use yakuza_dead_souls_ex.Prelude.{
  ℕ, ◌+◌, ◌-◌, ◌^◌, ◌≤◌, ◌<◌, ◌≡◌, refl, ◌≢◌, true, false, some, arith,
}
use yakuza_dead_souls_ex.Prelude.Tests.{◌==◌}
use yakuza_dead_souls_ex.Prelude.Masks.{bit_and-bit_or, bit_and-complement}
use yakuza_dead_souls_ex.Prelude.Lists.{get_elem?, set, get_elem?_lt, get_elem?-set_self}
use yakuza_dead_souls_ex.Guest.{ok, ecanceled, Memory, u32, write_out}
use yakuza_dead_souls_ex.Lv2.Event.{FlagInfo, State, flag_max, bad_handle}
use yakuza_dead_souls_ex.Lv2.Event.Flags.{
  flag_check, after_wait, complement, write_pattern, asleep, returned, parked, leave,
  flag_wait_begin, wait_begin, flag_wait_look, sys_event_flag_set_by_id, change_flag, cancel_flag,
  sys_event_flag_cancel,
}

-- The handle `id` names the active flag `f`.
pub record Names (s : State) (id : ℕ) (f : FlagInfo) : Type 0 where
  pub low : 0 < id
  pub high : id ≤ flag_max
  pub entry : get_elem? s.flags (id - 1) ≡ some f
  pub live : f.active ≡ true

-- A handle in range is not refused.
pub in_range : {s : State} {id : ℕ} {f : FlagInfo} → Names s id f → bad_handle id flag_max ≡ false
in_range n = ground (arith, n.low, n.high)

pub written :
    {s : State} {id : ℕ} {f : FlagInfo} (g : FlagInfo)
    → Names s id f
    → get_elem? (set s.flags (id - 1) g) (id - 1) ≡ some g
written {s} {id} g n = get_elem?-set_self s.flags (id - 1) g (get_elem?_lt s.flags (id - 1) n.entry)

-- Setting every bit of a mask fulfils a wait for it, in either mode.
pub flag_check-bit_or :
    (pattern bitpat mode : ℕ) → bitpat ≢ 0 → flag_check (bit_or pattern bitpat) bitpat mode ≡ true
unfolding flag_check
flag_check-bit_or pattern bitpat mode ne = ground (arith, bit_and-bit_or bitpat pattern bitpat)

-- Clearing every bit of a mask leaves a wait for it unfulfilled, in either mode.
pub flag_check-complement :
    (pattern bitpat mode : ℕ)
    → bitpat ≢ 0
    → bitpat < 2 ^ 64
    → flag_check (bit_and pattern (complement bitpat)) bitpat mode ≡ false
unfolding flag_check
flag_check-complement pattern bitpat mode ne lt =
    ground (arith, bit_and-complement 64 pattern bitpat lt)

abbrev with_flag : State → ℕ → FlagInfo → State
with_flag s id g = record s { flags = set s.flags (id - 1) g }

-- What each call does to an active flag.
pub set_by_id_lem :
    (s : State) (id bitpat : ℕ) (f : FlagInfo)
    → Names s id f
    → sys_event_flag_set_by_id s id bitpat
      ≡ (ok, with_flag s id (record f { pattern = bit_or f.pattern bitpat }))
unfolding sys_event_flag_set_by_id change_flag
set_by_id_lem s id bitpat f n = rw (in_range n, n.entry, n.live) refl

pub cancel_lem :
    (s : State) (id num_ea : ℕ) (f : FlagInfo)
    → Names s id f
    → sys_event_flag_cancel s id num_ea ≡ (
      ok,
      record s {
        flags = set s.flags (id - 1) (record f { cancel_gen = u32 (f.cancel_gen + 1) });
        mem = write_out s.mem num_ea f.waiters;
      },
    )
unfolding sys_event_flag_cancel cancel_flag
cancel_lem s id num_ea f n = rw (in_range n, n.entry, n.live) refl

pub begin_lem :
    (s : State) (id : ℕ) (f : FlagInfo)
    → Names s id f
    → flag_wait_begin s id
      ≡ (parked f.cancel_gen, with_flag s id (record f { waiters = u32 (f.waiters + 1) }))
unfolding flag_wait_begin wait_begin
begin_lem s id f n = rw (in_range n, n.entry, n.live) refl

-- The three ways a look can go.
pub look_ok :
    (f : FlagInfo) (m : Memory) (bitpat mode result_addr : ℕ)
    → flag_check f.pattern bitpat mode ≡ true
    → flag_wait_look f m f.cancel_gen bitpat mode result_addr ≡ (
      returned ok,
      record (leave f) { pattern = after_wait f.pattern bitpat mode },
      write_pattern m result_addr f.pattern,
    )
unfolding flag_wait_look
look_ok f m bitpat mode result_addr h =
    let same : (f.cancel_gen == f.cancel_gen) ≡ true = ground arith in rw (h, same) refl

pub look_cancelled :
    (f : FlagInfo) (m : Memory) (snap bitpat mode result_addr : ℕ)
    → f.cancel_gen ≢ snap
    → flag_wait_look f m snap bitpat mode result_addr
      ≡ (returned ecanceled, leave f, write_pattern m result_addr f.pattern)
unfolding flag_wait_look
look_cancelled f m snap bitpat mode result_addr h = ground arith

pub look_asleep :
    (f : FlagInfo) (m : Memory) (bitpat mode result_addr : ℕ)
    → flag_check f.pattern bitpat mode ≡ false
    → f.active ≡ true
    → flag_wait_look f m f.cancel_gen bitpat mode result_addr ≡ (asleep, f, m)
unfolding flag_wait_look
look_asleep f m bitpat mode result_addr h t =
    let same : (f.cancel_gen == f.cancel_gen) ≡ true = ground arith in rw (h, t, same) refl

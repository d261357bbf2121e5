-- ===== src/Lv2/Event/Flags/Laws.antt =====
-- runtime/syscalls/sys_event.c: what setting, clearing and cancelling do to the waits on a flag.
use Prim.Native.Nat.{bit_or}
use yakuza_dead_souls_ex.Prelude.{
  ℕ, ◌+◌, ◌-◌, ◌^◌, ◌<◌, ◌≡◌, refl, sym, ◌∙◌, ap, ◌≢◌, inl, inr, true, false, some, arith,
}
use yakuza_dead_souls_ex.Prelude.Tests.{Bool-cases}
use yakuza_dead_souls_ex.Prelude.Lists.{get_elem?, set}
use yakuza_dead_souls_ex.Guest.{ok, ebusy, ecanceled, Memory, u32, write_out}
use yakuza_dead_souls_ex.Lv2.Event.{FlagInfo, State}
use yakuza_dead_souls_ex.Lv2.Event.Flags.{
  flag_check, after_wait, clears, write_pattern, returned, parked, leave, flag_wait_begin,
  flag_wait_look, sys_event_flag_set_by_id, sys_event_flag_cancel, sys_event_flag_trywait, try_wait,
}
use yakuza_dead_souls_ex.Lv2.Event.Flags.Calls.{
  Names, in_range, written, flag_check-bit_or, flag_check-complement, set_by_id_lem, cancel_lem,
  begin_lem, look_ok, look_cancelled, look_asleep,
}

-- `sys_event_flag_set` of the bits that a parked waiter asked for ends its wait: the call succeeds, and
-- a waiter whose cancel generation is current then returns CELL_OK at its next look, in AND mode and in
-- OR mode, and is counted out. The mask is not 0.
pub look-set :
    (s : State) (id bitpat mode result_addr : ℕ) (f : FlagInfo) (m : Memory)
    → Names s id f
    → bitpat ≢ 0
    → ((sys_event_flag_set_by_id s id bitpat).0 ≡ ok)
      × ((g : FlagInfo) × (get_elem? (sys_event_flag_set_by_id s id bitpat).1.flags (id - 1)
            ≡ some g)
          × ((flag_wait_look g m f.cancel_gen bitpat mode result_addr).0 ≡ returned ok)
          × ((flag_wait_look g m f.cancel_gen bitpat mode result_addr).1.waiters
              ≡ u32 (f.waiters + 2 ^ 32 - 1)))
look-set s id bitpat mode result_addr f m n ne =
    let g = record f { pattern = bit_or f.pattern bitpat } in
    let ended = look_ok g m bitpat mode result_addr (flag_check-bit_or f.pattern bitpat mode ne) in
    rw (set_by_id_lem s id bitpat f n)
      (refl, (g, written g n, ap (λ o. o.0) ended, ap (λ o. o.1.waiters) ended))

-- A look with the current generation depends on the pattern, and not on the generation.
look_again :
    (f : FlagInfo) (m : Memory) (gen bitpat mode result_addr : ℕ)
    → f.active ≡ true
    → (flag_wait_look (record f { cancel_gen = gen }) m gen bitpat mode result_addr).0
      ≡ (flag_wait_look f m f.cancel_gen bitpat mode result_addr).0
look_again f m gen bitpat mode result_addr t =
    let g = record f { cancel_gen = gen } in
    elim (Bool-cases (flag_check f.pattern bitpat mode)) [
      | inl there ↦
          ap (λ o. o.0) (look_ok g m bitpat mode result_addr there)
          ∙ sym (ap (λ o. o.0) (look_ok f m bitpat mode result_addr there))
      | inr missing ↦
          ap (λ o. o.0) (look_asleep g m bitpat mode result_addr missing t)
          ∙ sym (ap (λ o. o.0) (look_asleep f m bitpat mode result_addr missing t))
    ]

-- `sys_event_flag_cancel` ends exactly the waits that were parked when it was called. It writes their
-- number out; a waiter with the snapshot of before then returns CELL_ECANCELED and leaves the pattern
-- as it is, whatever it asked for; a wait begun afterwards fares as it would have without the
-- cancellation. The cancel generation is a 32-bit counter.
pub look-cancel :
    (s : State) (id num_ea bitpat mode result_addr : ℕ) (f : FlagInfo) (m : Memory)
    → Names s id f
    → f.cancel_gen < 2 ^ 32
    → let t = (sys_event_flag_cancel s id num_ea).1 in
      ((sys_event_flag_cancel s id num_ea).0 ≡ ok)
      × (t.mem ≡ write_out s.mem num_ea f.waiters)
      × ((g : FlagInfo) × (get_elem? t.flags (id - 1) ≡ some g)
          × (flag_wait_look g m f.cancel_gen bitpat mode result_addr
              ≡ (returned ecanceled, leave g, write_pattern m result_addr f.pattern))
          × ((flag_wait_begin t id).0 ≡ parked g.cancel_gen)
          × ((flag_wait_look g m g.cancel_gen bitpat mode result_addr).0
              ≡ (flag_wait_look f m f.cancel_gen bitpat mode result_addr).0))
look-cancel s id num_ea bitpat mode result_addr f m n small =
    let g = record f { cancel_gen = u32 (f.cancel_gen + 1) } in
    let t = record s { flags = set s.flags (id - 1) g; mem = write_out s.mem num_ea f.waiters } in
    let n' : Names t id g = record {
      low = n.low;
      high = n.high;
      entry = written g n;
      live = n.live;
    } in
    rw (cancel_lem s id num_ea f n) (
      refl,
      refl,
      (
        g,
        written g n,
        look_cancelled g m f.cancel_gen bitpat mode result_addr (omega arith),
        ap (λ o. o.0) (begin_lem t id g n'),
        look_again f m (u32 (f.cancel_gen + 1)) bitpat mode result_addr n.live,
      ),
    )

trywait_ok :
    (s : State) (id bitpat mode result_addr : ℕ) (f : FlagInfo)
    → Names s id f
    → flag_check f.pattern bitpat mode ≡ true
    → sys_event_flag_trywait s id bitpat mode result_addr ≡ (
      ok,
      record s {
        flags = set s.flags (id - 1) (record f { pattern = after_wait f.pattern bitpat mode });
        mem = write_pattern s.mem result_addr f.pattern;
      },
    )
unfolding sys_event_flag_trywait try_wait
trywait_ok s id bitpat mode result_addr f n h = rw (in_range n, n.entry, n.live, h) refl

trywait_busy :
    (s : State) (id bitpat mode result_addr : ℕ) (f : FlagInfo)
    → Names s id f
    → flag_check f.pattern bitpat mode ≡ false
    → (sys_event_flag_trywait s id bitpat mode result_addr).0 ≡ ebusy
unfolding sys_event_flag_trywait try_wait
trywait_busy s id bitpat mode result_addr f n h = rw (in_range n, n.entry, n.live, h) refl

-- Bits waited for with WAIT_CLEAR are consumed: after a `sys_event_flag_trywait` in that mode has
-- returned CELL_OK, the same call again returns CELL_EBUSY. The mask is a 64-bit word and not 0.
pub trywait-trywait :
    (s : State) (id bitpat mode result_addr : ℕ) (f : FlagInfo)
    → Names s id f
    → bitpat ≢ 0
    → bitpat < 2 ^ 64
    → clears mode ≡ true
    → (sys_event_flag_trywait s id bitpat mode result_addr).0 ≡ ok
    → let t = (sys_event_flag_trywait s id bitpat mode result_addr).1 in
      (sys_event_flag_trywait t id bitpat mode result_addr).0 ≡ ebusy
unfolding after_wait
trywait-trywait s id bitpat mode result_addr f n ne lt clear h =
    elim (Bool-cases (flag_check f.pattern bitpat mode)) [
      | inl there ↦ rw (trywait_ok s id bitpat mode result_addr f n there) (
          trywait_busy _ id bitpat mode result_addr
            (record f { pattern = after_wait f.pattern bitpat mode })
            (record { low = n.low; high = n.high; entry = written _ n; live = n.live })
            (consumed clear))
      | inr missing ↦ absurd (ground (arith, trywait_busy s id bitpat mode result_addr f n missing))
    ]
  where
    consumed :
        clears mode ≡ true → flag_check (after_wait f.pattern bitpat mode) bitpat mode ≡ false
    consumed c = rw (after_wait, c) (flag_check-complement f.pattern bitpat mode ne lt)

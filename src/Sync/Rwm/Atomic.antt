-- ===== src/Sync/Rwm/Atomic.antt =====
-- A reader-writer memory is an atomic register.
use yakuza_dead_souls_ex.Prelude.{
  ℕ, zero, suc, ◌+◌, ◌-◌, ◌^◌, ◌≤◌, ◌<◌, ◌≡◌, refl, sym, subst, inl, inr, Option, none, some, List,
  arith,
}
use yakuza_dead_souls_ex.Prelude.Tests.{◌==◌, Bool-cases}
use yakuza_dead_souls_ex.Prelude.Lists.{
  get_elem?, set, replicate, total, le-total, length-replicate, get_elem?-replicate,
}
use yakuza_dead_souls_ex.Sync.Bytes.{Bytes, slice, slice_agree}
use yakuza_dead_souls_ex.Sync.Rwm.{
  Rwm, u32, done, rwm_initialize, waiting, Pc, idle, read_looking, read_entering, read_backing,
  read_checking, write_locking, write_waiting, write_backing, read_copying, read_leaving, Label,
  put, Read, read_call, read_spin, read_refuse, read_free, read_enter, read_seen, read_back,
  read_give_up, read_start, read_byte, read_end, read_leave, Write, write_call, write_fail,
  write_refuse, write_lock, write_spin, write_seen, write_back, write_start, write_byte, write_end,
  write_leave, read, write, System, Step, act, Run, run_end, run_step,
}
use yakuza_dead_souls_ex.Sync.Rwm.Invariant.{
  counts, owns, copies_out, copies_in, Local, Inv, readers-few, out-le-counted, in-le-owned,
}
use yakuza_dead_souls_ex.Sync.Rwm.Steps.{byte-Inv, end-Inv}
use yakuza_dead_souls_ex.Sync.Rwm.Points.{
  reg_silent, reg_busy, reg_read, reg_write, RegisterRun, reg_end, reg_step, Simulated, words,
  quiet, word, up, down, flag_down,
}

-- What each access of a read is for the register.
read-Simulated :
    {s : System} {v : Bytes} (i : ℕ) {p p' : Pc} {l : Label} {r' : Rwm}
    → get_elem? s.threads i ≡ some p
    → Inv s v
    → Read s.rwm p l r' p'
    → Simulated s.rwm v l (record { rwm = r'; threads = set s.threads i p' })
read-Simulated i e inv (read_call {f} {dst}) =
    quiet i e inv (read_looking f dst) reg_silent refl refl refl (omega arith) tt
read-Simulated i e inv (read_spin {dst} _) =
    quiet i e inv (read_looking waiting dst) reg_silent refl refl refl (omega arith) tt
read-Simulated i e inv (read_refuse _) = quiet i e inv idle reg_busy refl refl refl (omega arith) tt
read-Simulated i e inv (read_free {f} {dst} _) =
    quiet i e inv (read_entering f dst) reg_silent refl refl refl (omega arith) tt
read-Simulated {s} i e inv (read_enter {f} {dst}) =
    word i e inv (read_checking f dst) (u32 (s.rwm.readers + 1)) s.rwm.writer reg_silent
      (omega (arith, up i e inv)) refl (omega (arith, inv.writer, inv.alone)) refl (omega arith) tt
read-Simulated i e inv (read_seen {f} {dst} _) =
    quiet i e inv (read_backing f dst) reg_silent refl refl refl (omega arith) tt
read-Simulated {s} i e inv (read_back {dst}) =
    word i e inv (read_looking waiting dst) (u32 (s.rwm.readers + 2 ^ 32 - 1)) s.rwm.writer
      reg_silent (omega (arith, down i e inv refl)) refl (omega (arith, inv.writer, inv.alone)) refl
      (omega arith) tt
read-Simulated {s} i e inv read_give_up =
    word i e inv idle (u32 (s.rwm.readers + 2 ^ 32 - 1)) s.rwm.writer reg_busy
      (omega (arith, down i e inv refl)) refl (omega (arith, inv.writer, inv.alone)) refl
      (omega arith) tt
read-Simulated {s} {v} i e inv (read_start {f} {dst} free) =
    let unowned : total copies_in s.threads ≡ 0 =
      omega (arith, free, inv.writer, in-le-owned s.threads) in
    words i e inv reg_silent (record {
      size = refl;
      buffer = refl;
      counted = refl;
      owned = refl;
      alone = omega (arith, free);
      kept = omega arith;
      apart = inr (inl (refl, unowned));
      local = (omega arith, λ j lt. absurd (omega arith));
    })
read-Simulated {s} {v} i e inv (read_byte {dst} {k} lt) =
    quiet i e inv (read_copying (put dst k (s.rwm.buffer k)) (k + 1)) reg_silent refl refl refl
      (omega arith) (omega arith, copied)
  where
    no_writes : total copies_in s.threads ≡ 0
    no_writes = ground (arith, inv.apart, le-total copies_out s.threads i e)

    so_far : (k ≤ s.rwm.size) × ((j : ℕ) → j < k → dst j ≡ v j)
    so_far = inv.local i (read_copying dst k) e

    copied : (j : ℕ) → j < k + 1 → put dst k (s.rwm.buffer k) j ≡ v j
    copied j below = elim (Bool-cases (j == k)) [
      | inl last ↦
          let same : j ≡ k = ground arith in rw same (ground (arith, inv.whole no_writes k lt))
      | inr before ↦ ground (arith, so_far.1 j (ground arith))
    ]
read-Simulated {s} {v} i e inv (read_end {dst} {k} last) =
    let so_far : (k ≤ s.rwm.size) × ((j : ℕ) → j < k → dst j ≡ v j) =
      inv.local i (read_copying dst k) e in
    quiet i e inv read_leaving
      (reg_read (slice_agree dst v 0 s.rwm.size (λ j _ lt. so_far.1 j (omega arith)))) refl refl
      refl (omega arith) tt
read-Simulated {s} i e inv read_leave =
    word i e inv idle (u32 (s.rwm.readers + 2 ^ 32 - 1)) s.rwm.writer reg_silent
      (omega (arith, down i e inv refl)) refl (omega (arith, inv.writer, inv.alone)) refl
      (omega arith) tt

-- What each access of a write is for the register.
write-Simulated :
    {s : System} {v : Bytes} (i : ℕ) {p p' : Pc} {l : Label} {r' : Rwm}
    → get_elem? s.threads i ≡ some p
    → Inv s v
    → Write s.rwm p l r' p'
    → Simulated s.rwm v l (record { rwm = r'; threads = set s.threads i p' })
write-Simulated i e inv (write_call {f} {src}) =
    quiet i e inv (write_locking f src) reg_silent refl refl refl (omega arith) tt
write-Simulated i e inv (write_fail {src}) =
    quiet i e inv (write_locking waiting src) reg_silent refl refl refl (omega arith) tt
write-Simulated i e inv (write_refuse _) =
    quiet i e inv idle reg_busy refl refl refl (omega arith) tt
write-Simulated {s} i e inv (write_lock {f} {src} free) =
    word i e inv (write_waiting f src) s.rwm.readers 1 reg_silent refl (omega (arith, free))
      (omega arith) refl (omega arith) tt
write-Simulated i e inv (write_spin {src} _) =
    quiet i e inv (write_waiting waiting src) reg_silent refl refl refl (omega arith) tt
write-Simulated i e inv (write_seen _) =
    quiet i e inv write_backing reg_silent refl refl refl (omega arith) tt
write-Simulated {s} i e inv write_back =
    word i e inv idle s.rwm.readers 0 reg_busy refl (omega (arith, flag_down i e inv refl))
      (omega arith) refl (omega arith) tt
write-Simulated {s} i e inv (write_start {f} {src} none_left) =
    let unread : s.rwm.readers ≡ 0 = ground (arith, inv.readers, readers-few s.threads, inv.few) in
    words i e inv reg_silent (record {
      size = refl;
      buffer = refl;
      counted = refl;
      owned = refl;
      alone = omega (arith, inv.writer, inv.alone);
      kept = omega arith;
      apart = inr (inr (refl, omega (arith, unread, inv.readers, out-le-counted s.threads)));
      local = (omega arith, λ j lt. absurd (omega arith));
    })
write-Simulated {s} {v} i e inv (write_byte lt) = (v, reg_silent, byte-Inv i e inv lt, refl)
write-Simulated {s} {v} i e inv (write_end {src} last) =
    (src, reg_write, end-Inv i e inv last, refl)
write-Simulated {s} i e inv write_leave =
    word i e inv idle s.rwm.readers 0 reg_silent refl (omega (arith, flag_down i e inv refl))
      (omega arith) refl (omega arith) tt

step-Simulated :
    {s t : System} {v : Bytes} {l : Label} → Inv s v → Step s l t → Simulated s.rwm v l t
step-Simulated inv (act i e (read m)) = read-Simulated i e inv m
step-Simulated inv (act i e (write m)) = write-Simulated i e inv m

run-Simulated :
    {s t : System} {v : Bytes} {ls : List Label}
    → Inv s v
    → Run s ls t
    → (v' : Bytes) × RegisterRun (slice v 0 s.rwm.size) ls (slice v' 0 s.rwm.size) × Inv t v'
run-Simulated {v = v} inv run_end = (v, reg_end, inv)
run-Simulated {s} {v = v} inv (run_step {ls = ls} step run) =
    let (v', a, w, same) = step-Simulated inv step in
    let (v'', rest, last) = run-Simulated w run in
    (v'', reg_step a (subst (λ n. RegisterRun (slice v' 0 n) ls (slice v'' 0 n)) same rest), last)

total-idle : (w : Pc → ℕ) (n : ℕ) → w idle ≡ 0 → total w (replicate n idle) ≡ 0
unfolding total
total-idle w zero z = refl
total-idle w (suc n) z = omega (arith, z, total-idle w n z)

-- No thread has called yet.
abbrev pub started : Rwm → ℕ → System
started r n = record { rwm = r; threads = replicate n idle }

started-Inv :
    (r : Rwm) (n : ℕ) → n < 2 ^ 31 → r.readers ≡ 0 → r.writer ≡ 0 → Inv (started r n) r.buffer
started-Inv r n few readers writer = record {
  few = omega (arith, few, length-replicate n idle);
  readers = omega (arith, readers, total-idle counts n refl);
  writer = omega (arith, writer, total-idle owns n refl);
  alone = omega (arith, total-idle owns n refl);
  apart = inl (total-idle copies_in n refl);
  whole = λ z j lt. refl;
  local = λ i p e. subst (Local r r.buffer) (sym (get_elem?-replicate n idle i e)) tt;
}

initialized :
    (buffer : Option Bytes) (size : ℕ) {r : Rwm}
    → rwm_initialize buffer size ≡ done r
    → (r.readers ≡ 0) × (r.writer ≡ 0)
unfolding rwm_initialize
initialized none size e = cc
initialized (some b) size e = (ground arith, ground arith)

-- After Initialize, any number of threads below 2 ^ 31 that read and write in any interleaving, byte
-- by byte, see an atomic register: a value that a read returns is, byte for byte, the value that the
-- last completed write stored, never a mixture of two, and the counter and the flag never lose count.
pub rwm_atomic :
    (buffer : Option Bytes) (size n : ℕ) {r : Rwm} {ls : List Label} {t : System}
    → n < 2 ^ 31
    → rwm_initialize buffer size ≡ done r
    → Run (started r n) ls t
    → (v : Bytes) × RegisterRun (slice r.buffer 0 r.size) ls (slice v 0 r.size) × Inv t v
rwm_atomic buffer size n {r} few e run =
    let (readers, writer) = initialized buffer size e in
    run-Simulated (started-Inv r n few readers writer) run

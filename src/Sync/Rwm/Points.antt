-- ===== src/Sync/Rwm/Points.antt =====
-- The register that a reader-writer memory is, and the steps that keep its value.
use yakuza_dead_souls_ex.Prelude.{ℕ, ◌+◌, ◌-◌, ◌^◌, ◌≤◌, ◌≡◌, refl, inl, some, List, [], ◌∷◌, arith}
use yakuza_dead_souls_ex.Prelude.Lists.{get_elem?, set, le-total}
use yakuza_dead_souls_ex.Sync.Bytes.{Bytes, slice}
use yakuza_dead_souls_ex.Sync.Rwm.{Rwm, u32, Pc, Label, silent, busy, has_read, has_written, System}
use yakuza_dead_souls_ex.Sync.Rwm.Invariant.{
  counts, owns, copies_out, copies_in, Local, Inv, readers-few,
}
use yakuza_dead_souls_ex.Sync.Rwm.Steps.{Words, Words-Inv}

-- A register that is read and written at once.
pub data Register (v : List ℕ) : Label → List ℕ → Type 0 where
  reg_silent : Register v silent v
  reg_busy : Register v busy v
  reg_read : {x : List ℕ} → x ≡ v → Register v (has_read x) v
  reg_write : {w : List ℕ} → Register v (has_written w) w

pub data RegisterRun : List ℕ → List Label → List ℕ → Type 0 where
  reg_end : {v : List ℕ} → RegisterRun v [] v
  reg_step :
      {u v w : List ℕ} {l : Label} {ls : List Label}
      → Register u l v
      → RegisterRun v ls w
      → RegisterRun u (l ∷ ls) w

-- What a step is for the register.
abbrev pub Simulated : Rwm → Bytes → Label → System → Type 0
Simulated r v l t =
    (v' : Bytes) × Register (slice v 0 r.size) l (slice v' 0 r.size)
    × Inv t v'
    × (t.rwm.size ≡ r.size)

module _ {s : System} {v : Bytes} (i : ℕ) {p : Pc} (e : get_elem? s.threads i ≡ some p)
    (inv : Inv s v) where
  pub words :
      {l : Label} {r' : Rwm} {p' : Pc}
      → Register (slice v 0 s.rwm.size) l (slice v 0 s.rwm.size)
      → Words s v p r' p'
      → Simulated s.rwm v l (record { rwm = r'; threads = set s.threads i p' })
  words a w = (v, a, Words-Inv i e inv w, w.size)

  -- A step that only moves the thread, between two points of the same weight.
  pub quiet :
      {l : Label} (p' : Pc)
      → Register (slice v 0 s.rwm.size) l (slice v 0 s.rwm.size)
      → counts p' ≡ counts p
      → owns p' ≡ owns p
      → copies_in p' ≡ copies_in p
      → copies_out p' ≤ copies_out p
      → Local s.rwm v p'
      → Simulated s.rwm v l (record { rwm = s.rwm; threads = set s.threads i p' })
  quiet p' a c o ci co l = words a (record {
    size = refl;
    buffer = refl;
    counted = omega (arith, c);
    owned = omega (arith, o);
    alone = omega (arith, inv.writer, inv.alone);
    kept = omega (arith, ci);
    apart = inl (ci, co);
    local = l;
  })

  -- A step of the counter or of the flag, between two points where nothing is copied.
  pub word :
      {l : Label} (p' : Pc) (readers writer : ℕ)
      → Register (slice v 0 s.rwm.size) l (slice v 0 s.rwm.size)
      → readers + counts p ≡ s.rwm.readers + counts p'
      → writer + owns p ≡ s.rwm.writer + owns p'
      → writer ≤ 1
      → copies_in p' ≡ copies_in p
      → copies_out p' ≤ copies_out p
      → Local (record (s.rwm) { readers = readers; writer = writer }) v p'
      → Simulated s.rwm v l (record {
        rwm = record (s.rwm) { readers = readers; writer = writer };
        threads = set s.threads i p';
      })
  word p' readers writer a c o one ci co l' = words a (record {
    size = refl;
    buffer = refl;
    counted = c;
    owned = o;
    alone = one;
    kept = omega (arith, ci);
    apart = inl (ci, co);
    local = l';
  })

  pub up : u32 (s.rwm.readers + 1) ≡ s.rwm.readers + 1
  up = omega (arith, inv.readers, readers-few s.threads, inv.few)

  pub down : counts p ≡ 1 → u32 (s.rwm.readers + 2 ^ 32 - 1) + 1 ≡ s.rwm.readers
  down one =
      omega (arith, inv.readers, readers-few s.threads, inv.few, le-total counts s.threads i e, one)

  pub flag_down : owns p ≡ 1 → s.rwm.writer ≡ 1
  flag_down one = omega (arith, inv.writer, inv.alone, le-total owns s.threads i e, one)

-- ===== src/Sync/Rwm/Invariant.antt =====
-- The counter and the flag of a reader-writer memory say what the threads do, and the memory holds
-- one value while no copy into it is on the way.
use yakuza_dead_souls_ex.Prelude.{ℕ, ◌+◌, ◌^◌, ◌≤◌, ◌<◌, ◌≡◌, ap, ◌∙◌, ◌≢◌, ◌⊎◌, some, List, arith}
use yakuza_dead_souls_ex.Prelude.Lists.{
  length, get_elem?, set, total, total-set, le-total, total_mono, total-le-length, get_elem?-set_ne,
}
use yakuza_dead_souls_ex.Sync.Bytes.{Bytes}
use yakuza_dead_souls_ex.Sync.Rwm.{
  Rwm, Pc, idle, read_looking, read_entering, read_checking, read_backing, read_copying,
  read_leaving, write_locking, write_waiting, write_backing, write_copying, write_leaving, System,
}

-- Threads that are in the counter, that own the flag, and that copy out of and into the memory.
abbrev pub counts : Pc → ℕ
counts (read_checking _ _) = 1
counts (read_backing _ _) = 1
counts (read_copying _ _) = 1
counts read_leaving = 1
counts _ = 0

abbrev pub owns : Pc → ℕ
owns (write_waiting _ _) = 1
owns write_backing = 1
owns (write_copying _ _) = 1
owns write_leaving = 1
owns _ = 0

abbrev pub copies_out : Pc → ℕ
copies_out (read_copying _ _) = 1
copies_out _ = 0

abbrev pub copies_in : Pc → ℕ
copies_in (write_copying _ _) = 1
copies_in _ = 0

-- What a thread in the middle of a copy has done, where `v` is the value of the memory.
abbrev pub Local : Rwm → Bytes → Pc → Type 0
Local r v (read_copying dst k) = (k ≤ r.size) × ((j : ℕ) → j < k → dst j ≡ v j)
Local r v (write_copying src k) = (k ≤ r.size) × ((j : ℕ) → j < k → r.buffer j ≡ src j)
Local r v _ = Unit {0}

pub record Inv (s : System) (v : Bytes) : Type 0 where
  pub few : length s.threads < 2 ^ 31
  pub readers : s.rwm.readers ≡ total counts s.threads
  pub writer : s.rwm.writer ≡ total owns s.threads
  pub alone : total owns s.threads ≤ 1
  pub apart : (total copies_in s.threads ≡ 0) ⊎ (total copies_out s.threads ≡ 0)
  pub whole : total copies_in s.threads ≡ 0 → (j : ℕ) → j < s.rwm.size → s.rwm.buffer j ≡ v j
  pub local : (i : ℕ) (p : Pc) → get_elem? s.threads i ≡ some p → Local s.rwm v p

counts-le : (p : Pc) → counts p ≤ 1
counts-le idle = omega arith
counts-le (read_looking _ _) = omega arith
counts-le (read_entering _ _) = omega arith
counts-le (read_checking _ _) = omega arith
counts-le (read_backing _ _) = omega arith
counts-le (read_copying _ _) = omega arith
counts-le read_leaving = omega arith
counts-le (write_locking _ _) = omega arith
counts-le (write_waiting _ _) = omega arith
counts-le write_backing = omega arith
counts-le (write_copying _ _) = omega arith
counts-le write_leaving = omega arith

copies_out-le-counts : (p : Pc) → copies_out p ≤ counts p
copies_out-le-counts idle = omega arith
copies_out-le-counts (read_looking _ _) = omega arith
copies_out-le-counts (read_entering _ _) = omega arith
copies_out-le-counts (read_checking _ _) = omega arith
copies_out-le-counts (read_backing _ _) = omega arith
copies_out-le-counts (read_copying _ _) = omega arith
copies_out-le-counts read_leaving = omega arith
copies_out-le-counts (write_locking _ _) = omega arith
copies_out-le-counts (write_waiting _ _) = omega arith
copies_out-le-counts write_backing = omega arith
copies_out-le-counts (write_copying _ _) = omega arith
copies_out-le-counts write_leaving = omega arith

copies_in-le-owns : (p : Pc) → copies_in p ≤ owns p
copies_in-le-owns idle = omega arith
copies_in-le-owns (read_looking _ _) = omega arith
copies_in-le-owns (read_entering _ _) = omega arith
copies_in-le-owns (read_checking _ _) = omega arith
copies_in-le-owns (read_backing _ _) = omega arith
copies_in-le-owns (read_copying _ _) = omega arith
copies_in-le-owns read_leaving = omega arith
copies_in-le-owns (write_locking _ _) = omega arith
copies_in-le-owns (write_waiting _ _) = omega arith
copies_in-le-owns write_backing = omega arith
copies_in-le-owns (write_copying _ _) = omega arith
copies_in-le-owns write_leaving = omega arith

-- Who copies out is counted, who copies in owns the flag, and the counter does not overflow.
pub readers-few : (threads : List Pc) → total counts threads ≤ length threads
readers-few threads = total-le-length counts threads counts-le

pub out-le-counted : (threads : List Pc) → total copies_out threads ≤ total counts threads
out-le-counted threads = total_mono copies_out counts threads copies_out-le-counts

pub in-le-owned : (threads : List Pc) → total copies_in threads ≤ total owns threads
in-le-owned threads = total_mono copies_in owns threads copies_in-le-owns

-- What a thread that copies nothing keeps, whatever becomes of the memory.
pub Local-still :
    (r r' : Rwm) (v v' : Bytes) (p : Pc)
    → copies_out p ≡ 0
    → copies_in p ≡ 0
    → Local r v p
    → Local r' v' p
Local-still r r' v v' idle o i l = tt
Local-still r r' v v' (read_looking _ _) o i l = tt
Local-still r r' v v' (read_entering _ _) o i l = tt
Local-still r r' v v' (read_checking _ _) o i l = tt
Local-still r r' v v' (read_backing _ _) o i l = tt
Local-still r r' v v' (read_copying _ _) o i l = absurd (omega arith)
Local-still r r' v v' read_leaving o i l = tt
Local-still r r' v v' (write_locking _ _) o i l = tt
Local-still r r' v v' (write_waiting _ _) o i l = tt
Local-still r r' v v' write_backing o i l = tt
Local-still r r' v v' (write_copying _ _) o i l = absurd (omega arith)
Local-still r r' v v' write_leaving o i l = tt

-- A change of the shared words alone.
pub Local-words :
    (r r' : Rwm) (v : Bytes) (p : Pc)
    → r'.size ≡ r.size
    → r'.buffer ≡ r.buffer
    → Local r v p
    → Local r' v p
Local-words r r' v (read_copying dst k) s b l = (omega (arith, l.0, s), l.1)
Local-words r r' v (write_copying src k) s b l = (omega (arith, l.0, s), rw b l.1)
Local-words r r' v idle s b l = tt
Local-words r r' v (read_looking _ _) s b l = tt
Local-words r r' v (read_entering _ _) s b l = tt
Local-words r r' v (read_checking _ _) s b l = tt
Local-words r r' v (read_backing _ _) s b l = tt
Local-words r r' v read_leaving s b l = tt
Local-words r r' v (write_locking _ _) s b l = tt
Local-words r r' v (write_waiting _ _) s b l = tt
Local-words r r' v write_backing s b l = tt
Local-words r r' v write_leaving s b l = tt

-- Two entries weigh at most as much as all.
pub two-le-total :
    (w : Pc → ℕ) (threads : List Pc) (i j : ℕ) {p q : Pc}
    → i ≢ j
    → get_elem? threads i ≡ some p
    → get_elem? threads j ≡ some q
    → w p + w q ≤ total w threads + w idle
two-le-total w threads i j {p} {q} ne ei ej =
    let without = total-set w threads i idle ei in
    let rest =
      le-total w (set threads i idle) j (ap (λ o. o) (get_elem?-set_ne threads i j idle ne) ∙ ej) in
    omega (arith, without, rest)

-- ===== src/Sync/Rwm/Steps.antt =====
-- Each kind of step keeps the invariant: a step on the shared words, a byte written, and the end of
-- a write, which gives the memory its new value.
use yakuza_dead_souls_ex.Prelude.{ℕ, ◌+◌, ◌≤◌, ◌<◌, ◌≡◌, ap, ◌∙◌, ◌≢◌, ◌⊎◌, inl, inr, some, arith}
use yakuza_dead_souls_ex.Prelude.Tests.{◌==◌, Bool-cases}
use yakuza_dead_souls_ex.Prelude.Lists.{
  get_elem?, set, total, total-set, le-total, length-set, get_elem?-set_cases,
}
use yakuza_dead_souls_ex.Sync.Bytes.{Bytes}
use yakuza_dead_souls_ex.Sync.Rwm.{Rwm, Pc, write_copying, write_leaving, put, System}
use yakuza_dead_souls_ex.Sync.Rwm.Invariant.{
  counts, owns, copies_out, copies_in, Local, Inv, Local-still, Local-words, two-le-total,
  in-le-owned,
}

-- What a step on the shared words has to show.
pub record Words (s : System) (v : Bytes) (p : Pc) (r' : Rwm) (p' : Pc) : Type 0 where
  pub size : r'.size ≡ s.rwm.size
  pub buffer : r'.buffer ≡ s.rwm.buffer
  pub counted : r'.readers + counts p ≡ s.rwm.readers + counts p'
  pub owned : r'.writer + owns p ≡ s.rwm.writer + owns p'
  pub alone : r'.writer ≤ 1
  pub kept : copies_in p ≤ copies_in p'
  pub apart :
      ((copies_in p' ≡ copies_in p) × (copies_out p' ≤ copies_out p))
      ⊎ (((copies_in p' ≡ copies_in p) × (total copies_in s.threads ≡ 0))
          ⊎ ((copies_out p' ≡ copies_out p) × (total copies_out s.threads ≡ 0)))
  pub local : Local r' v p'

apart_after :
    (i i' o o' ti ti' to to' : ℕ)
    → ti' + i ≡ ti + i'
    → to' + o ≡ to + o'
    → (ti ≡ 0) ⊎ (to ≡ 0)
    → ((i' ≡ i) × (o' ≤ o)) ⊎ (((i' ≡ i) × (ti ≡ 0)) ⊎ ((o' ≡ o) × (to ≡ 0)))
    → (ti' ≡ 0) ⊎ (to' ≡ 0)
apart_after i i' o o' ti ti' to to' ei eo a h = ground arith

pub Words-Inv :
    {s : System} {v : Bytes} {r' : Rwm} (i : ℕ) {p p' : Pc}
    → get_elem? s.threads i ≡ some p
    → Inv s v
    → Words s v p r' p'
    → Inv (record { rwm = r'; threads = set s.threads i p' }) v
Words-Inv {s} {v} {r'} i {p} {p'} e inv w = record {
  few = omega (arith, inv.few, length-set s.threads i p');
  readers = omega (arith, inv.readers, w.counted, total-set counts s.threads i p' e);
  writer = omega (arith, inv.writer, w.owned, total-set owns s.threads i p' e);
  alone = omega (arith, inv.writer, w.owned, w.alone, total-set owns s.threads i p' e);
  apart =
      apart_after (copies_in p) (copies_in p') (copies_out p) (copies_out p')
        (total copies_in s.threads) (total copies_in (set s.threads i p'))
        (total copies_out s.threads) (total copies_out (set s.threads i p'))
        (total-set copies_in s.threads i p' e) (total-set copies_out s.threads i p' e) inv.apart
        w.apart;
  whole = λ z j lt.
      let none_before : total copies_in s.threads ≡ 0 =
        omega (arith, z, total-set copies_in s.threads i p' e, w.kept) in
      ap (λ b. b j) w.buffer ∙ inv.whole none_before j (omega (arith, w.size));
  local = λ j q eq. elim (get_elem?-set_cases s.threads i j p' eq) [
    | inl (same, isp) ↦ rw isp w.local
    | inr (ne, old) ↦ Local-words s.rwm r' v q w.size w.buffer (inv.local j q old)
  ];
}

-- While one thread writes, no other copies.
module _ {s : System} {v : Bytes} (i : ℕ) {src : Bytes} {k : ℕ}
    (e : get_elem? s.threads i ≡ some (write_copying src k)) (inv : Inv s v) where
  no_copies_out : total copies_out s.threads ≡ 0
  no_copies_out = ground (arith, inv.apart, le-total copies_in s.threads i e)

  others-Local :
      (r' : Rwm) (v' : Bytes) (j : ℕ) (q : Pc)
      → i ≢ j
      → get_elem? s.threads j ≡ some q
      → Local r' v' q
  others-Local r' v' j q ne old =
      Local-still s.rwm r' v v' q
        (omega (arith, no_copies_out, le-total copies_out s.threads j old))
        (omega
          (arith, two-le-total copies_in s.threads i j ne e old, in-le-owned s.threads, inv.alone))
        (inv.local j q old)

  pub byte-Inv :
      k < s.rwm.size
      → Inv
          (record {
            rwm = record (s.rwm) { buffer = put s.rwm.buffer k (src k) };
            threads = set s.threads i (write_copying src (k + 1));
          })
          v
  byte-Inv lt = record {
    few = omega (arith, inv.few, length-set s.threads i (write_copying src (k + 1)));
    readers =
        omega (arith, inv.readers, total-set counts s.threads i (write_copying src (k + 1)) e);
    writer = omega (arith, inv.writer, total-set owns s.threads i (write_copying src (k + 1)) e);
    alone = omega (arith, inv.alone, total-set owns s.threads i (write_copying src (k + 1)) e);
    apart = inr (
        omega
          (arith, no_copies_out, total-set copies_out s.threads i (write_copying src (k + 1)) e));
    whole = λ z j below. absurd (
        omega (
          arith,
          z,
          total-set copies_in s.threads i (write_copying src (k + 1)) e,
          le-total copies_in s.threads i e,
        ));
    local = λ j q eq. elim (get_elem?-set_cases s.threads i j (write_copying src (k + 1)) eq) [
      | inl (same, isq) ↦ rw isq (omega arith, written)
      | inr (ne, old) ↦
          others-Local (record (s.rwm) { buffer = put s.rwm.buffer k (src k) }) v j q ne old
    ];
  }
    where
      done_before : (k ≤ s.rwm.size) × ((j : ℕ) → j < k → s.rwm.buffer j ≡ src j)
      done_before = inv.local i (write_copying src k) e

      written : (j : ℕ) → j < k + 1 → put s.rwm.buffer k (src k) j ≡ src j
      written j below = elim (Bool-cases (j == k)) [
        | inl last ↦ let same : j ≡ k = ground arith in rw same (ground arith)
        | inr before ↦ ground (arith, done_before.1 j (ground arith))
      ]

  -- The value of the memory is now the writer's.
  pub end-Inv :
      k ≡ s.rwm.size → Inv (record { rwm = s.rwm; threads = set s.threads i write_leaving }) src
  end-Inv last = record {
    few = omega (arith, inv.few, length-set s.threads i write_leaving);
    readers = omega (arith, inv.readers, total-set counts s.threads i write_leaving e);
    writer = omega (arith, inv.writer, total-set owns s.threads i write_leaving e);
    alone = omega (arith, inv.alone, total-set owns s.threads i write_leaving e);
    apart = inr (omega (arith, no_copies_out, total-set copies_out s.threads i write_leaving e));
    whole = λ z j below. (inv.local i (write_copying src k) e).1 j (omega arith);
    local = λ j q eq. elim (get_elem?-set_cases s.threads i j write_leaving eq) [
      | inl (same, isq) ↦ rw isq tt
      | inr (ne, old) ↦ others-Local s.rwm src j q ne old
    ];
  }

-- ===== src/Lv2/Event/Invariant.antt =====
-- runtime/syscalls/sys_event.c: what holds of the queue and port tables between two calls.
pub mod Calls
pub mod Ports
pub mod Runs
use yakuza_dead_souls_ex.Prelude.{
  ℕ, zero, suc, ◌+◌, ◌-◌, ◌≤◌, ◌<◌, ◌≡◌, refl, sym, ◌∙◌, ap, ◌≢◌, ◌⊎◌, inl, inr, Bool, true, false,
  not, ◌&&◌, Option, none, some, List, [], ◌∷◌, arith,
}
use mathlib.Core.List.{map}
use yakuza_dead_souls_ex.Prelude.Tests.{◌==◌, if◌then◌else◌, Bool-cases}
use yakuza_dead_souls_ex.Prelude.Lists.{
  length, get_elem?, set, find_index, find_index-some, find_index-none, length-set, get_elem?_lt,
  get_elem?-set_self, get_elem?-set_ne, get_elem?-set_cases,
}
use yakuza_dead_souls_ex.Lv2.Event.{
  QueueInfo, PortInfo, queue_max, port_max, free_queue, has_key, fresh_queue, is_found,
  disconnect_from,
}
use yakuza_dead_souls_ex.Lv2.Event.Fifo.{IsQueue}

-- A slot that holds an active queue.
abbrev pub IsLive : List QueueInfo → ℕ → Type 0
IsLive queues i = (q : QueueInfo) × (get_elem? queues i ≡ some q) × (q.active ≡ true)

abbrev pub Connects : List QueueInfo → PortInfo → Type 0
Connects queues p = (0 < p.connected_queue) × IsLive queues (p.connected_queue - 1)

-- Every active queue is a well-formed ring, no two of them share a key but 0, and an active port is
-- connected to an active queue or to none.
pub record IsValid (queues : List QueueInfo) (ports : List PortInfo) : Type 0 where
  pub queue_slots : length queues ≡ queue_max
  pub port_slots : length ports ≡ port_max
  pub rings : (i : ℕ) (q : QueueInfo) → get_elem? queues i ≡ some q → q.active ≡ true → IsQueue q
  pub keys :
      (i j : ℕ) (a b : QueueInfo)
      → get_elem? queues i ≡ some a
      → get_elem? queues j ≡ some b
      → a.active ≡ true
      → b.active ≡ true
      → a.key ≡ b.key
      → a.key ≢ 0
      → i ≡ j
  pub targets :
      (i : ℕ) (p : PortInfo)
      → get_elem? ports i ≡ some p
      → p.active ≡ true
      → (p.connected_queue ≡ 0) ⊎ Connects queues p

-- A live slot stays live when an active queue is written anywhere.
IsLive-set :
    (queues : List QueueInfo) (k i : ℕ) (v : QueueInfo)
    → v.active ≡ true
    → IsLive queues i
    → IsLive (set queues k v) i
IsLive-set queues k i v t (q, e, a) = elim (Bool-cases (k == i)) [
  | inl same ↦
      let at : k ≡ i = ground arith in
      (v, rw at (get_elem?-set_self queues i v (get_elem?_lt queues i e)), t)
  | inr other ↦ (q, get_elem?-set_ne queues k i v (ground arith) ∙ e, a)
]

-- The write of an active, well-formed queue whose key, unless 0, no other active queue has.
pub write-IsValid :
    (queues : List QueueInfo) (ports : List PortInfo) (k : ℕ) (v : QueueInfo)
    → IsValid queues ports
    → v.active ≡ true
    → IsQueue v
    → ((i : ℕ) (q : QueueInfo)
        → get_elem? queues i ≡ some q
        → q.active ≡ true
        → q.key ≡ v.key
        → v.key ≢ 0
        → k ≡ i)
    → IsValid (set queues k v) ports
write-IsValid queues ports k v w t ring only = record {
  queue_slots = length-set queues k v ∙ w.queue_slots;
  port_slots = w.port_slots;
  rings = λ i q e a. rings_case i q a (get_elem?-set_cases queues k i v e);
  keys = λ i j a b ei ej ai aj.
      keys_case i j a b ai aj (get_elem?-set_cases queues k i v ei)
        (get_elem?-set_cases queues k j v ej);
  targets = λ i p e a. targets_case p (w.targets i p e a);
}
  where
    rings_case :
        (i : ℕ) (q : QueueInfo)
        → q.active ≡ true
        → ((k ≡ i) × (q ≡ v)) ⊎ ((k ≢ i) × (get_elem? queues i ≡ some q))
        → IsQueue q
    rings_case i q a (inl (_, e)) = rw e ring
    rings_case i q a (inr (_, e)) = w.rings i q e a

    keys_case :
        (i j : ℕ) (a b : QueueInfo)
        → a.active ≡ true
        → b.active ≡ true
        → ((k ≡ i) × (a ≡ v)) ⊎ ((k ≢ i) × (get_elem? queues i ≡ some a))
        → ((k ≡ j) × (b ≡ v)) ⊎ ((k ≢ j) × (get_elem? queues j ≡ some b))
        → a.key ≡ b.key
        → a.key ≢ 0
        → i ≡ j
    keys_case i j a b ai aj (inl (x, _)) (inl (y, _)) same ne = sym x ∙ y
    keys_case i j a b ai aj (inl (x, e)) (inr (_, ej)) same ne =
        sym x ∙ only j b ej aj (sym same ∙ ap (λ q. q.key) e) (rw (← e) ne)
    keys_case i j a b ai aj (inr (_, ei)) (inl (y, e)) same ne =
        sym (only i a ei ai (same ∙ ap (λ q. q.key) e) (rw (← e, ← same) ne)) ∙ y
    keys_case i j a b ai aj (inr (_, ei)) (inr (_, ej)) same ne = w.keys i j a b ei ej ai aj same ne

    targets_case :
        (p : PortInfo)
        → (p.connected_queue ≡ 0) ⊎ Connects queues p
        → (p.connected_queue ≡ 0) ⊎ Connects (set queues k v) p
    targets_case p (inl e) = inl e
    targets_case p (inr (pos, live)) =
        inr (pos, IsLive-set queues k (p.connected_queue - 1) v t live)

-- An active queue replaced by an active, well-formed one of the same key.
pub update-IsValid :
    (queues : List QueueInfo) (ports : List PortInfo) (k : ℕ) (q v : QueueInfo)
    → IsValid queues ports
    → get_elem? queues k ≡ some q
    → q.active ≡ true
    → v.active ≡ true
    → v.key ≡ q.key
    → IsQueue v
    → IsValid (set queues k v) ports
update-IsValid queues ports k q v w e a t same ring =
    write-IsValid queues ports k v w t ring
      (λ i r ei ai key ne. w.keys k i q r e ei a ai (sym (key ∙ same)) (rw (← same) ne))

-- A change of a slot that no active queue holds.
pub idle-IsValid :
    (queues : List QueueInfo) (ports : List PortInfo) (k : ℕ) (q v : QueueInfo)
    → IsValid queues ports
    → get_elem? queues k ≡ some q
    → q.active ≡ false
    → v.active ≡ false
    → IsValid (set queues k v) ports
idle-IsValid queues ports k q v w e dead dead' = record {
  queue_slots = length-set queues k v ∙ w.queue_slots;
  port_slots = w.port_slots;
  rings = λ i r ei a. w.rings i r (kept i r a (get_elem?-set_cases queues k i v ei)) a;
  keys = λ i j a b ei ej ai aj same ne.
      w.keys i j a b (kept i a ai (get_elem?-set_cases queues k i v ei))
        (kept j b aj (get_elem?-set_cases queues k j v ej)) ai aj same ne;
  targets = λ i p ei a. target p (w.targets i p ei a);
}
  where
    kept :
        (i : ℕ) (r : QueueInfo)
        → r.active ≡ true
        → ((k ≡ i) × (r ≡ v)) ⊎ ((k ≢ i) × (get_elem? queues i ≡ some r))
        → get_elem? queues i ≡ some r
    kept i r a (inl (_, e)) = ground arith
    kept i r a (inr (_, e)) = e

    target :
        (p : PortInfo)
        → (p.connected_queue ≡ 0) ⊎ Connects queues p
        → (p.connected_queue ≡ 0) ⊎ Connects (set queues k v) p
    target p (inl e) = inl e
    target p (inr (pos, (r, er, live))) =
        let other : k ≢ p.connected_queue - 1 = λ same. clash (rw same er) live in
        inr (pos, (r, get_elem?-set_ne queues k (p.connected_queue - 1) v other ∙ er, live))
      where
        clash : get_elem? queues k ≡ some r → r.active ≡ true → ⊥
        clash er live = ground arith

-- A port replaced by one that is inactive, unconnected or connected to an active queue.
pub port-IsValid :
    (queues : List QueueInfo) (ports : List PortInfo) (k : ℕ) (v : PortInfo)
    → IsValid queues ports
    → (v.active ≡ true → (v.connected_queue ≡ 0) ⊎ Connects queues v)
    → IsValid queues (set ports k v)
port-IsValid queues ports k v w good = record {
  queue_slots = w.queue_slots;
  port_slots = length-set ports k v ∙ w.port_slots;
  rings = w.rings;
  keys = w.keys;
  targets = λ i p e a. go i p a (get_elem?-set_cases ports k i v e);
}
  where
    go :
        (i : ℕ) (p : PortInfo)
        → p.active ≡ true
        → ((k ≡ i) × (p ≡ v)) ⊎ ((k ≢ i) × (get_elem? ports i ≡ some p))
        → (p.connected_queue ≡ 0) ⊎ Connects queues p
    go i p a (inl (_, e)) = rw e (good (rw (← e) a))
    go i p a (inr (_, e)) = w.targets i p e a

length-map_disconnect :
    (id : ℕ) (ports : List PortInfo) → length (map (disconnect_from id) ports) ≡ length ports
length-map_disconnect id [] = refl
length-map_disconnect id (p ∷ ports) = ap suc (length-map_disconnect id ports)

-- What the sweep of `sys_event_queue_destroy` leaves of a port.
pub disconnected :
    (id : ℕ) (ports : List PortInfo) (i : ℕ) (p : PortInfo)
    → get_elem? (map (disconnect_from id) ports) i ≡ some p
    → (old : PortInfo) × (get_elem? ports i ≡ some old) × (p ≡ disconnect_from id old)
disconnected id [] i p e = ground arith
disconnected id (q ∷ ports) zero p e = (q, refl, ground arith)
disconnected id (q ∷ ports) (suc i) p e = disconnected id ports i p e

pub swept_off :
    (id : ℕ) (p : PortInfo)
    → (p.active && (p.connected_queue == id)) ≡ true
    → (disconnect_from id p).connected_queue ≡ 0
swept_off id p h = rw h refl

left_on :
    (id : ℕ) (p : PortInfo)
    → (p.active && (p.connected_queue == id)) ≡ false
    → disconnect_from id p ≡ p
left_on id p h = rw h refl

-- A queue that goes inactive, with every port swept off it.
pub destroy-IsValid :
    (queues : List QueueInfo) (ports : List PortInfo) (id : ℕ) (v : QueueInfo)
    → IsValid queues ports
    → 0 < id
    → v.active ≡ false
    → IsValid (set queues (id - 1) v) (map (disconnect_from id) ports)
destroy-IsValid queues ports id v w pos dead = record {
  queue_slots = length-set queues (id - 1) v ∙ w.queue_slots;
  port_slots = length-map_disconnect id ports ∙ w.port_slots;
  rings = λ i q e a. w.rings i q (kept i q a (get_elem?-set_cases queues (id - 1) i v e)).1 a;
  keys = λ i j a b ei ej ai aj same ne.
      w.keys i j a b (kept i a ai (get_elem?-set_cases queues (id - 1) i v ei)).1
        (kept j b aj (get_elem?-set_cases queues (id - 1) j v ej)).1 ai aj same ne;
  targets = λ i p e a.
      let (old, eo, swept) = disconnected id ports i p e in
      target p old a swept (w.targets i old eo);
}
  where
    kept :
        (i : ℕ) (q : QueueInfo)
        → q.active ≡ true
        → ((id - 1 ≡ i) × (q ≡ v)) ⊎ ((id - 1 ≢ i) × (get_elem? queues i ≡ some q))
        → (id - 1 ≢ i) × (get_elem? queues i ≡ some q)
    kept i q a (inl (_, e)) = ground arith
    kept i q a (inr h) = h

    still :
        (p : PortInfo)
        → p.connected_queue ≢ id
        → (p.connected_queue ≡ 0) ⊎ Connects queues p
        → (p.connected_queue ≡ 0) ⊎ Connects (set queues (id - 1) v) p
    still p other (inl e) = inl e
    still p other (inr (up, (q, e, t))) =
        inr
          (up, (q, get_elem?-set_ne queues (id - 1) (p.connected_queue - 1) v (omega arith) ∙ e, t))

    target :
        (p old : PortInfo)
        → p.active ≡ true
        → p ≡ disconnect_from id old
        → (old.active ≡ true → (old.connected_queue ≡ 0) ⊎ Connects queues old)
        → (p.connected_queue ≡ 0) ⊎ Connects (set queues (id - 1) v) p
    target p old a swept good = elim (Bool-cases (old.active && (old.connected_queue == id))) [
      | inl off ↦ inl (ap (λ x. x.connected_queue) swept ∙ swept_off id old off)
      | inr on ↦
          let same : p ≡ old = swept ∙ left_on id old on in
          let other : old.connected_queue ≢ id = ground arith in
          rw same (still old other (good (rw (← same) a)))
    ]

-- ===== src/Lv2/Event/Keys.antt =====
-- runtime/syscalls/sys_event.c: the search for a queue by its key, which the audio library uses.
use yakuza_dead_souls_ex.Prelude.{ℕ, ◌+◌, ◌≡◌, sym, ◌∙◌, ap, ◌≢◌, true, false, some, arith}
use yakuza_dead_souls_ex.Prelude.Tests.{◌==◌}
use yakuza_dead_souls_ex.Prelude.Lists.{get_elem?, find_index-some, find_index_total}
use yakuza_dead_souls_ex.Lv2.Event.{QueueInfo, State, has_key, sys_event_find_queue_by_key}
use yakuza_dead_souls_ex.Lv2.Event.Invariant.{IsValid}

-- The search by a key other than 0 gives the handle of the one active queue that has the key, whatever
-- inactive queues had it before. The tables satisfy their invariant.
pub sys_event_find_queue_by_key_lem :
    (s : State) (slot : ℕ) (q : QueueInfo)
    → IsValid s.queues s.ports
    → get_elem? s.queues slot ≡ some q
    → q.active ≡ true
    → q.key ≢ 0
    → sys_event_find_queue_by_key s q.key ≡ slot + 1
unfolding sys_event_find_queue_by_key
sys_event_find_queue_by_key_lem s slot q w e live ne =
    let hit : has_key q.key q ≡ true = ground (arith, live) in
    let (j, found) = find_index_total (has_key q.key) s.queues slot e hit in
    let (r, er, match) = find_index-some (has_key q.key) s.queues j found in
    let on : r.active ≡ true = ground arith in
    let same : r.key ≡ q.key = ground arith in
    let one : j ≡ slot = w.keys j slot r q er e on live same (λ z. ne (sym same ∙ z)) in
    let keyed : (q.key == 0) ≡ false = ground arith in rw (keyed, found) (ap (λ k. k + 1) one)

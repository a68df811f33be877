-- ===== src/Pool/Isolates/Events.antt =====
-- About the pool's counters after the events of its tasks.
use mathlib.Core.Path.{subst}
use nexide.Prelude.{
  ℕ, zero, suc, ◌+◌, ◌^◌, ◌≤◌, ◌<◌, ◌≡◌, ◌≢◌, refl, sym, ap, ◌∙◌, inl, inr, Bool, true, false, List,
  [], ◌∷◌, Option, none, some, length, get_elem?, set, if◌then◌else◌, arith, Bool-cases,
  Option-cases,
}
use nexide.Prelude.Options.{>>=-eq-some, some-inj}
use nexide.Pool.Isolates.{
  Slot, Dispatch, PoolInner, fetch_add, lighter, sampled, index_a, index_b, pick_among, pick_index,
  start_dispatch, remove_at, release_slot, end_dispatch, start_recycle, rebuilt, built, end_recycle,
  PoolEvent, dispatch_starts, dispatch_ends, recycle_starts, recycle_ends, run_event, run_events,
}
use nexide.Pool.Isolates.Counting.{
  hit_same, hit_other, running_at, building_at, bit, IsCounted, slot_after_set, running_at_le,
  running_at-remove_at, building_at-remove_at, fetch_add_one, fetch_dec_one, IsCounted-same,
}

pick_among-frame :
    (n : ℕ) (p : PoolInner) (i : ℕ) (p' : PoolInner)
    → pick_among n p ≡ some (i, p')
    → (p'.slots ≡ p.slots) × (p'.running ≡ p.running) × (p'.building ≡ p.building)
unfolding pick_among sampled
pick_among-frame zero p i p' h = absurd (ground arith)
pick_among-frame (suc zero) p i p' h =
    let same : p ≡ p' = ground arith in
    (ap (λ q. q.slots) (sym same), ap (λ q. q.running) (sym same), ap (λ q. q.building) (sym same))
pick_among-frame (suc (suc n)) p i p' h =
    elim (Option-cases (lighter p.slots (index_a p (suc (suc n))) (index_b p (suc (suc n))))) [
      | inl e ↦ let none_picked = rw (pick_among, e) at h in absurd (ground arith)
      | inr (j, e) ↦
          let picked = rw (pick_among, e) at h in
          let same : sampled p ≡ p' = ground arith in
          (
            ap (λ q. q.slots) (sym same),
            ap (λ q. q.running) (sym same),
            ap (λ q. q.building) (sym same),
          )
    ]

started_at :
    (q : PoolInner) (index : ℕ) (slot : Slot)
    → IsCounted q
    → get_elem? q.slots index ≡ some slot
    → length q.running + 1 < 2 ^ 64
    → IsCounted (record q {
      slots = set q.slots index (record slot { inflight = fetch_add slot.inflight 1 });
      running = record { slot = index; worker = slot.worker } ∷ q.running;
    })
unfolding IsCounted running_at
started_at q index slot c at room i s at' = elim (slot_after_set q.slots index _ i s at') [
  | inl (same, e) ↦
      let old = c index slot at in
      let few = running_at_le index q.running in
      let more =
        fetch_add_one slot.inflight (length q.running) (omega (arith, old.inflight)) room in
      rw (e, ← same)
        record {
          inflight = omega (arith, more, old.inflight, hit_same index index refl);
          recycling = old.recycling;
        }
  | inr (ne, at0) ↦
      let old = c i s at0 in
      record {
        inflight = omega (arith, old.inflight, hit_other index i ne);
        recycling = old.recycling;
      }
]

start_dispatch-IsCounted :
    (p p' : PoolInner)
    → IsCounted p
    → length p.running + 1 < 2 ^ 64
    → start_dispatch p ≡ some p'
    → IsCounted p'
unfolding start_dispatch pick_index
start_dispatch-IsCounted p p' c room h =
    let ((index, q), picked, h1) = >>=-eq-some (pick_index p) _ h in
    let (slot, at, h2) = >>=-eq-some (get_elem? q.slots index) _ h1 in
    let (es, er, eb) = pick_among-frame (length p.slots) p index q picked in
    let counted = started_at q index slot (IsCounted-same p q es er eb c) at (rw er room) in
    rw (some-inj h2) at counted

ended_at :
    (p : PoolInner) (k : ℕ) (d : Dispatch) (n : ℕ)
    → IsCounted p
    → length p.running < 2 ^ 64
    → get_elem? p.running k ≡ some d
    → IsCounted (record p {
      slots = release_slot p.slots d.slot;
      running = remove_at p.running k;
      dispatch_count = n;
    })
unfolding IsCounted release_slot
ended_at p k d n c room found i s at' = elim (Option-cases (get_elem? p.slots d.slot)) [
  | inl none_there ↦
      let at = rw (release_slot, none_there) at at' in
      let old = c i s at in
      let ne : d.slot ≢ i = λ e. let gone = rw e at none_there in absurd (ground arith) in
      record {
        inflight = omega (
          arith,
          old.inflight,
          hit_other d.slot i ne,
          running_at-remove_at i k p.running d found,
        );
        recycling = old.recycling;
      }
  | inr (slot, there) ↦
      elim (slot_after_set p.slots d.slot _ i s (rw (release_slot, there) at at')) [
        | inl (same, e) ↦
            let old = c d.slot slot there in
            let split = running_at-remove_at d.slot k p.running d found in
            let one = hit_same d.slot d.slot refl in
            let few = running_at_le d.slot p.running in
            let positive : slot.inflight ≡ suc (running_at d.slot (remove_at p.running k)) =
              omega (arith, old.inflight, split, one) in
            rw (e, ← same)
              record {
                inflight = rw positive (fetch_dec_one _ (omega (arith, few, split, one)));
                recycling = old.recycling;
              }
        | inr (ne, at0) ↦
            let old = c i s at0 in
            record {
              inflight = omega (
                arith,
                old.inflight,
                hit_other d.slot i ne,
                running_at-remove_at i k p.running d found,
              );
              recycling = old.recycling;
            }
      ]
]

end_dispatch-IsCounted :
    (p p' : PoolInner) (k : ℕ) (success : Bool)
    → IsCounted p
    → length p.running < 2 ^ 64
    → end_dispatch p k success ≡ some p'
    → IsCounted p'
unfolding end_dispatch
end_dispatch-IsCounted p p' k success c room h =
    let (d, found, h1) = >>=-eq-some (get_elem? p.running k) _ h in
    let count = if success then fetch_add p.dispatch_count 1 else p.dispatch_count in
    let counted = ended_at p k d count c room found in rw (some-inj h1) at counted

recycling_at :
    (p : PoolInner) (index : ℕ) (slot : Slot)
    → IsCounted p
    → get_elem? p.slots index ≡ some slot
    → slot.recycling ≡ false
    → IsCounted (record p {
      slots = set p.slots index (record slot { recycling = true });
      building = index ∷ p.building;
    })
unfolding IsCounted building_at
recycling_at p index slot c there free i s at' = elim (slot_after_set p.slots index _ i s at') [
  | inl (same, e) ↦
      let old = c index slot there in
      let idle : building_at index p.building ≡ 0 = sym (rw free at old.recycling) in
      rw (e, ← same)
        record {
          inflight = old.inflight;
          recycling = omega (arith, idle, hit_same index index refl);
        }
  | inr (ne, at0) ↦
      let old = c i s at0 in
      record {
        inflight = old.inflight;
        recycling = omega (arith, old.recycling, hit_other index i ne);
      }
]

start_recycle-IsCounted :
    (p p' : PoolInner) (index : ℕ) (should_recycle : Bool)
    → IsCounted p
    → start_recycle p index should_recycle ≡ some p'
    → IsCounted p'
unfolding start_recycle
start_recycle-IsCounted p p' index false c h =
    let (slot, there, h1) = >>=-eq-some (get_elem? p.slots index) _ h in
    subst IsCounted (some-inj h1) c
start_recycle-IsCounted p p' index true c h =
    let (slot, there, h1) = >>=-eq-some (get_elem? p.slots index) _ h in
    elim (Bool-cases slot.recycling) [
      | inl busy ↦ subst IsCounted (some-inj (rw busy at h1)) c
      | inr free ↦
          subst IsCounted (some-inj (rw free at h1)) (recycling_at p index slot c there free)
    ]

rebuilt_inflight :
    (slot : Slot) (outcome : Option ℕ) → (rebuilt slot outcome).inflight ≡ slot.inflight
unfolding rebuilt
rebuilt_inflight slot none = refl
rebuilt_inflight slot (some fresh) = refl

rebuilt_idle :
    (slot : Slot) (outcome : Option ℕ) (n : ℕ) → n ≡ 0 → bit (rebuilt slot outcome).recycling ≡ n
unfolding rebuilt
rebuilt_idle slot none n e = sym e
rebuilt_idle slot (some fresh) n e = sym e

bit_le : (b : Bool) → bit b ≤ 1
bit_le true = omega arith
bit_le false = omega arith

rebuilt_at :
    (p : PoolInner) (k index : ℕ) (slot : Slot) (outcome : Option ℕ) (n : ℕ)
    → IsCounted p
    → get_elem? p.building k ≡ some index
    → get_elem? p.slots index ≡ some slot
    → IsCounted (record p {
      slots = set p.slots index (rebuilt slot outcome);
      building = remove_at p.building k;
      recycle_count = n;
    })
unfolding IsCounted
rebuilt_at p k index slot outcome n c found there i s at' =
    elim (slot_after_set p.slots index _ i s at') [
      | inl (same, e) ↦
          let old = c index slot there in
          let split = building_at-remove_at index k p.building index found in
          let one = hit_same index index refl in
          rw (e, ← same)
            record {
              inflight = rebuilt_inflight slot outcome ∙ old.inflight;
              recycling =
                  rebuilt_idle slot outcome _
                    (omega (arith, split, one, old.recycling, bit_le slot.recycling));
            }
      | inr (ne, at0) ↦
          let old = c i s at0 in
          let split = building_at-remove_at i k p.building index found in
          record {
            inflight = old.inflight;
            recycling = omega (arith, old.recycling, hit_other index i ne, split);
          }
    ]

end_recycle-IsCounted :
    (p p' : PoolInner) (k : ℕ) (outcome : Option ℕ)
    → IsCounted p
    → end_recycle p k outcome ≡ some p'
    → IsCounted p'
unfolding end_recycle
end_recycle-IsCounted p p' k outcome c h =
    let (index, found, h1) = >>=-eq-some (get_elem? p.building k) _ h in
    let (slot, there, h2) = >>=-eq-some (get_elem? p.slots index) _ h1 in
    subst IsCounted (some-inj h2)
      (rebuilt_at p k index slot outcome (fetch_add p.recycle_count (built outcome)) c found there)

run_event-IsCounted :
    (p p' : PoolInner) (event : PoolEvent)
    → IsCounted p
    → length p.running + 1 < 2 ^ 64
    → run_event p event ≡ some p'
    → IsCounted p'
unfolding run_event
run_event-IsCounted p p' dispatch_starts c room h = start_dispatch-IsCounted p p' c room h
run_event-IsCounted p p' (dispatch_ends k success) c room h =
    end_dispatch-IsCounted p p' k success c (omega arith) h
run_event-IsCounted p p' (recycle_starts index should) c room h =
    start_recycle-IsCounted p p' index should c h
run_event-IsCounted p p' (recycle_ends k outcome) c room h =
    end_recycle-IsCounted p p' k outcome c h

length-remove_at : {A : Type 0} (xs : List A) (k : ℕ) → length (remove_at xs k) ≤ length xs
unfolding remove_at
length-remove_at [] k = omega arith
length-remove_at (x ∷ xs) zero = omega arith
length-remove_at (x ∷ xs) (suc k) = omega (arith, length-remove_at xs k)

-- An event starts at most one dispatch.
run_event_running :
    (p p' : PoolInner) (event : PoolEvent)
    → run_event p event ≡ some p'
    → length p'.running ≤ length p.running + 1
unfolding run_event start_dispatch end_dispatch start_recycle end_recycle pick_index
run_event_running p p' dispatch_starts h =
    let ((index, q), picked, h1) = >>=-eq-some (pick_index p) _ h in
    let (slot, at, h2) = >>=-eq-some (get_elem? q.slots index) _ h1 in
    let (es, er, eb) = pick_among-frame (length p.slots) p index q picked in
    let same = ap (λ q. length q.running) (some-inj h2) in
    let same' = ap (λ r. length r) er in omega arith
run_event_running p p' (dispatch_ends k success) h =
    let (d, found, h1) = >>=-eq-some (get_elem? p.running k) _ h in
    let same = ap (λ q. length q.running) (some-inj h1) in
    omega (arith, length-remove_at p.running k)
run_event_running p p' (recycle_starts index false) h =
    let (slot, there, h1) = >>=-eq-some (get_elem? p.slots index) _ h in
    let same = ap (λ q. length q.running) (some-inj h1) in omega arith
run_event_running p p' (recycle_starts index true) h =
    let (slot, there, h1) = >>=-eq-some (get_elem? p.slots index) _ h in
    elim (Bool-cases slot.recycling) [
      | inl busy ↦ let same = ap (λ q. length q.running) (some-inj (rw busy at h1)) in omega arith
      | inr free ↦ let same = ap (λ q. length q.running) (some-inj (rw free at h1)) in omega arith
    ]
run_event_running p p' (recycle_ends k outcome) h =
    let (index, found, h1) = >>=-eq-some (get_elem? p.building k) _ h in
    let (slot, there, h2) = >>=-eq-some (get_elem? p.slots index) _ h1 in
    let same = ap (λ q. length q.running) (some-inj h2) in omega arith

-- Over any interleaving of dispatches and recycles that stays below 2^64 dispatches, the in-flight
-- counter of each slot is the number of dispatches under way on it, and its recycling flag is set
-- exactly if it is under rebuild, which then is its only one.
pub run_events-IsCounted :
    (p p' : PoolInner) (events : List PoolEvent)
    → IsCounted p
    → length p.running + length events < 2 ^ 64
    → run_events p events ≡ some p'
    → IsCounted p'
unfolding run_events
run_events-IsCounted p p' [] c room h = subst IsCounted (some-inj h) c
run_events-IsCounted p p' (event ∷ events) c room h =
    let (q, first, h1) = >>=-eq-some (run_event p event) _ h in
    let more = run_event_running p q event first in
    run_events-IsCounted q p' events (run_event-IsCounted p q event c (omega arith) first)
      (omega arith) h1

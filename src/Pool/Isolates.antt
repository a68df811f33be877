-- ===== src/Pool/Isolates.antt =====
-- crates/nexide/src/pool/isolate_pool.rs: the pool of workers. A worker is a number. The tasks that
-- dispatch requests and rebuild slots run concurrently; an event is what one of them does between
-- two awaits. Atomics are single steps, counters wrap around at 64 bits, and a panic is `none`.
pub mod Counting
pub mod Events
pub mod Picking
use nexide.Prelude.{
  ℕ, zero, suc, ◌+◌, ◌-◌, ◌%◌, ◌^◌, Bool, true, false, List, [], ◌∷◌, Option, none, some, length,
  get_elem?, set, leb, ◌==◌, if◌then◌else◌,
}
use nexide.Prelude.Options.{◌>>=◌}

pub record Slot : Type 0 where
  pub worker : ℕ
  pub inflight : ℕ
  pub recycling : Bool

-- A dispatch that waits for the worker it took from the slot with this index.
pub record Dispatch : Type 0 where
  pub slot : ℕ
  pub worker : ℕ

-- The pool, with the dispatches under way and the indices of the slots under rebuild.
pub record PoolInner : Type 0 where
  pub slots : List Slot
  pub picker_a : ℕ
  pub picker_b : ℕ
  pub dispatch_count : ℕ
  pub recycle_count : ℕ
  pub running : List Dispatch
  pub building : List ℕ

-- `fetch_add(k)` on an `AtomicUsize`
unfoldable pub fetch_add : ℕ → ℕ → ℕ
fetch_add n k = (n + k) % 2 ^ 64

-- `fetch_sub(1)`
unfoldable pub fetch_dec : ℕ → ℕ
fetch_dec n = (n + (2 ^ 64 - 1)) % 2 ^ 64

-- The two indices that `pick_index` compares, for `n` slots.
unfoldable pub index_a : PoolInner → ℕ → ℕ
index_a p n = p.picker_a % n

unfoldable pub index_b : PoolInner → ℕ → ℕ
unfolding index_a
index_b p n = let raw = p.picker_b % n in if raw == index_a p n then (raw + 1) % n else raw

-- The comparison of the loads of two slots.
unfoldable pub lighter : List Slot → ℕ → ℕ → Option ℕ
lighter slots a b = do
  slot_a ← get_elem? slots a
  slot_b ← get_elem? slots b
  some (if leb slot_a.inflight slot_b.inflight then a else b)

-- The pool after the two samples.
unfoldable pub sampled : PoolInner → PoolInner
unfolding fetch_add
sampled p = record p { picker_a = fetch_add p.picker_a 1; picker_b = fetch_add p.picker_b 7 }

-- `pick_index` for a number of slots; without slots it divides by zero.
unfoldable pub pick_among : ℕ → PoolInner → Option (ℕ × PoolInner)
unfolding sampled index_a index_b lighter
pick_among zero p = none
pick_among (suc zero) p = some (0, p)
pick_among (suc (suc n)) p = do
  index ← lighter p.slots (index_a p (suc (suc n))) (index_b p (suc (suc n)))
  some (index, sampled p)

-- `pick_index`
unfoldable pub pick_index : PoolInner → Option (ℕ × PoolInner)
unfolding pick_among
pick_index p = pick_among (length p.slots) p

-- The first part of `dispatch`, up to the await: the worker's handle and the in-flight guard.
unfoldable pub start_dispatch : PoolInner → Option PoolInner
unfolding pick_index fetch_add
start_dispatch p = do
  (index, p') ← pick_index p
  slot ← get_elem? p'.slots index
  some (record p' {
    slots = set p'.slots index (record slot { inflight = fetch_add slot.inflight 1 });
    running = record { slot = index; worker = slot.worker } ∷ p'.running;
  })

unfoldable pub remove_at {ℓ} : {A : Type ℓ} → List A → ℕ → List A
remove_at [] k = []
remove_at (x ∷ xs) zero = xs
remove_at (x ∷ xs) (suc k) = x ∷ remove_at xs k

-- `InflightGuard::drop`
unfoldable pub release_slot : List Slot → ℕ → List Slot
unfolding fetch_dec
release_slot slots index = elim (get_elem? slots index) [
  | none ↦ slots
  | some slot ↦ set slots index (record slot { inflight = fetch_dec slot.inflight })
]

-- The end of the dispatch at position `k` of `running`: an answer, or an error or cancellation.
unfoldable pub end_dispatch : PoolInner → ℕ → Bool → Option PoolInner
unfolding remove_at release_slot fetch_add
end_dispatch p k success = do
  d ← get_elem? p.running k
  some (record p {
    slots = release_slot p.slots d.slot;
    running = remove_at p.running k;
    dispatch_count = if success then fetch_add p.dispatch_count 1 else p.dispatch_count;
  })

-- `recycle_slot_if_needed` up to the await, with the policy's verdict on the worker's health.
unfoldable pub start_recycle : PoolInner → ℕ → Bool → Option PoolInner
start_recycle p index should_recycle = do
  slot ← get_elem? p.slots index
  elim should_recycle [
    | false ↦ some p
    | true ↦ elim slot.recycling [
      | true ↦ some p
      | false ↦ some (record p {
        slots = set p.slots index (record slot { recycling = true });
        building = index ∷ p.building;
      })
    ]
  ]

-- The slot after a build: `none` is a build that failed.
unfoldable pub rebuilt : Slot → Option ℕ → Slot
rebuilt slot none = record slot { recycling = false }
rebuilt slot (some fresh) = record slot { worker = fresh; recycling = false }

unfoldable pub built : Option ℕ → ℕ
built none = 0
built (some fresh) = 1

-- The end of the rebuild at position `k` of `building`.
unfoldable pub end_recycle : PoolInner → ℕ → Option ℕ → Option PoolInner
unfolding remove_at rebuilt fetch_add built
end_recycle p k outcome = do
  index ← get_elem? p.building k
  slot ← get_elem? p.slots index
  some (record p {
    slots = set p.slots index (rebuilt slot outcome);
    building = remove_at p.building k;
    recycle_count = fetch_add p.recycle_count (built outcome);
  })

-- What one of the tasks does between two awaits.
pub data PoolEvent : Type 0 where
  dispatch_starts : PoolEvent
  dispatch_ends : ℕ → Bool → PoolEvent
  recycle_starts : ℕ → Bool → PoolEvent
  recycle_ends : ℕ → Option ℕ → PoolEvent

unfoldable pub run_event : PoolInner → PoolEvent → Option PoolInner
unfolding start_dispatch end_dispatch start_recycle end_recycle
run_event p dispatch_starts = start_dispatch p
run_event p (dispatch_ends k success) = end_dispatch p k success
run_event p (recycle_starts index should_recycle) = start_recycle p index should_recycle
run_event p (recycle_ends k outcome) = end_recycle p k outcome

unfoldable pub run_events : PoolInner → List PoolEvent → Option PoolInner
unfolding run_event
run_events p [] = some p
run_events p (event ∷ events) = do p' ← run_event p event; run_events p' events

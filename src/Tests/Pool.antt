-- ===== src/Tests/Pool.antt =====
-- Concrete runs of the worker pool.
use nexide.Prelude.{
  ℕ, zero, suc, ◌+◌, ◌%◌, ◌^◌, ◌*◌, ◌/◌, ◌≤◌, ◌<◌, ◌≡◌, ◌≢◌, ◌⊎◌, refl, true, false, ◌||◌, [], ◌∷◌,
  none, some, ltb, min, arith,
}
use nexide.Pool.Recycle.{
  Floats, WorkerHealth, any_recycles, build_default_recycle_policy_with, unwrap_or, ratio_hit,
  count_hit, cap_hit, rss_hit, build_default_recycle_policy_with-hits,
}
use nexide.Pool.Isolates.{
  Slot, PoolInner, pick_index, run_events, dispatch_starts, dispatch_ends, recycle_starts,
  recycle_ends,
}
use nexide.Pool.Isolates.Picking.{load, SampledAt, pick_index-least}
use nexide.Pool.Isolates.Counting.{IsCounted, SlotCounted, running_at, building_at}
use nexide.Pool.Isolates.Events.{run_events-IsCounted}

-- Ratios in percent.
abbrev percent : Floats
percent = record {
  F64 = ℕ;
  cast = λ n. n * 100;
  quotient = λ a b. a / (b / 100);
  exceeds = λ a b. ltb b a;
  clamp_unit = λ r. min r 100;
  zero_ratio = 0;
  default_ratio = 80;
}

abbrev busy_worker : WorkerHealth
busy_worker = record {
  heap = record { used_heap_size = 90; total_heap_size = 95; heap_size_limit = 100 };
  requests_handled = 12;
}

build_default_recycle_policy_with-hits_example :
    any_recycles percent
      (build_default_recycle_policy_with percent none (some 0) (some 64) none none)
      busy_worker
    ≡ (ratio_hit percent 80 busy_worker.heap
        || (count_hit percent 0 12 || (cap_hit percent (some 64) 90 || rss_hit percent none none)))
unfolding unwrap_or
build_default_recycle_policy_with-hits_example =
    build_default_recycle_policy_with-hits percent none (some 0) (some 64) none none busy_worker

abbrev idle_slot : Slot
idle_slot = record { worker = 1; inflight = 0; recycling = false }

abbrev idle_pool : PoolInner
idle_pool = record {
  slots = idle_slot ∷ record idle_slot { worker = 2 } ∷ record idle_slot { worker = 3 } ∷ [];
  picker_a = 0;
  picker_b = 0;
  dispatch_count = 0;
  recycle_count = 0;
  running = [];
  building = [];
}

idle_counted : (i : ℕ) (s : Slot) → s.inflight ≡ 0 → s.recycling ≡ false → SlotCounted idle_pool i s
unfolding running_at building_at
idle_counted i s none_running idle = record { inflight = none_running; recycling = rw idle refl }

idle_pool-IsCounted : IsCounted idle_pool
unfolding IsCounted
idle_pool-IsCounted zero s at = idle_counted zero s (ground arith) (ground arith)
idle_pool-IsCounted (suc zero) s at = idle_counted (suc zero) s (ground arith) (ground arith)
idle_pool-IsCounted (suc (suc zero)) s at =
    idle_counted (suc (suc zero)) s (ground arith) (ground arith)
idle_pool-IsCounted (suc (suc (suc i))) s at = absurd (ground arith)

pick_index-least_example :
    (a : ℕ) × (b : ℕ) × (i : ℕ) × SampledAt idle_pool 3 a b
    × (a ≢ b)
    × (pick_index idle_pool
        ≡ some (
          i,
          record idle_pool {
            picker_a = (idle_pool.picker_a + 1) % 2 ^ 64;
            picker_b = (idle_pool.picker_b + 7) % 2 ^ 64;
          },
        ))
    × (i < 3)
    × ((i ≡ a) ⊎ (i ≡ b))
    × (load idle_pool.slots i ≤ load idle_pool.slots a)
    × (load idle_pool.slots i ≤ load idle_pool.slots b)
pick_index-least_example = pick_index-least idle_pool (omega arith)

-- Two dispatches start, slot 0 is rebuilt while its dispatch runs, and the first dispatch ends.
abbrev later_pool : PoolInner
later_pool = record {
  slots =
      record { worker = 9; inflight = 1; recycling = false }
      ∷ record idle_slot { worker = 2; inflight = 0 }
      ∷ record idle_slot { worker = 3 }
      ∷ [];
  picker_a = 2;
  picker_b = 14;
  dispatch_count = 1;
  recycle_count = 1;
  running = record { slot = 0; worker = 1 } ∷ [];
  building = [];
}

run_events-IsCounted_example : IsCounted later_pool
unfolding run_events
run_events-IsCounted_example =
    run_events-IsCounted idle_pool later_pool
      (dispatch_starts
        ∷ dispatch_starts
        ∷ recycle_starts 0 true
        ∷ recycle_starts 0 true
        ∷ recycle_ends 0 (some 9)
        ∷ dispatch_ends 0 true
        ∷ [])
      idle_pool-IsCounted (omega arith) refl

-- ===== src/Pool/Recycle.antt =====
-- crates/nexide/src/pool/recycle.rs: the policies that decide when a worker is recycled. The
-- arithmetic of `f64` is a parameter, and so is what a memory sampler reads.
use nexide.Prelude.{
  ℕ, ◌≡◌, refl, ◌∙◌, Bool, true, false, ◌&&◌, ◌||◌, List, [], ◌∷◌, ◌++◌, Option, none, some, ltb,
  leb, ◌==◌, if◌then◌else◌, arith, inl, inr, Bool-cases,
}

-- The operations on `f64` that the policies use: a cast, a quotient, `>`, and `clamp(0.0, 1.0)`.
pub record Floats : Type 1 where
  pub F64 : Type 0
  pub cast : ℕ → F64
  pub quotient : F64 → F64 → F64
  pub exceeds : F64 → F64 → Bool
  pub clamp_unit : F64 → F64
  pub zero_ratio : F64
  pub default_ratio : F64

pub record HeapStats : Type 0 where
  pub used_heap_size : ℕ
  pub total_heap_size : ℕ
  pub heap_size_limit : ℕ

pub record WorkerHealth : Type 0 where
  pub heap : HeapStats
  pub requests_handled : ℕ

module _ (fl : Floats) where
  -- The policies that a composite holds. A sampler is what it reads: the resident bytes, if it
  -- can tell.
  pub data RecyclePolicy : Type 0 where
    heap_threshold : fl.F64 → RecyclePolicy
    request_count : ℕ → RecyclePolicy
    heap_bytes : ℕ → RecyclePolicy
    process_rss : ℕ → Option ℕ → RecyclePolicy

  -- `HeapThreshold::should_recycle`
  unfoldable pub heap_over : fl.F64 → HeapStats → Bool
  heap_over ratio heap =
      if heap.heap_size_limit == 0
      then false
      else fl.exceeds (fl.quotient (fl.cast heap.used_heap_size) (fl.cast heap.heap_size_limit))
          ratio

  -- `is_some_and(|s| s.rss_bytes > max_bytes)`
  unfoldable pub rss_over : ℕ → Option ℕ → Bool
  rss_over max_bytes none = false
  rss_over max_bytes (some rss) = ltb max_bytes rss

  unfoldable pub should_recycle : RecyclePolicy → WorkerHealth → Bool
  unfolding heap_over rss_over
  should_recycle (heap_threshold ratio) h = heap_over ratio h.heap
  should_recycle (request_count limit) h = leb limit h.requests_handled
  should_recycle (heap_bytes max_bytes) h = ltb max_bytes h.heap.used_heap_size
  should_recycle (process_rss max_bytes sample) h = rss_over max_bytes sample

  -- `Composite::should_recycle`
  unfoldable pub any_recycles : List RecyclePolicy → WorkerHealth → Bool
  unfolding should_recycle
  any_recycles [] h = false
  any_recycles (p ∷ ps) h = should_recycle p h || any_recycles ps h

  -- `HeapThreshold::new` and the push of the builder, unless the ratio disables it.
  unfoldable pub heap_policy : fl.F64 → List RecyclePolicy
  heap_policy ratio =
      if fl.exceeds ratio fl.zero_ratio then heap_threshold (fl.clamp_unit ratio) ∷ [] else []

  unfoldable pub count_policy : ℕ → List RecyclePolicy
  count_policy requests = if ltb 0 requests then request_count requests ∷ [] else []

  unfoldable pub bytes_policy : Option ℕ → List RecyclePolicy
  bytes_policy none = []
  bytes_policy (some cap) = if ltb 0 cap then heap_bytes cap ∷ [] else []

  -- A sampler is given with the cap or not.
  unfoldable pub rss_policy : Option ℕ → Option (Option ℕ) → List RecyclePolicy
  rss_policy none sampler = []
  rss_policy (some cap) none = []
  rss_policy (some cap) (some sample) = if ltb 0 cap then process_rss cap sample ∷ [] else []

  unfoldable pub unwrap_or {ℓ} : {A : Type ℓ} → Option A → A → A
  unwrap_or none d = d
  unwrap_or (some a) d = a

  -- `build_default_recycle_policy_with`
  unfoldable pub build_default_recycle_policy_with :
      Option fl.F64 → Option ℕ → Option ℕ → Option ℕ → Option (Option ℕ) → List RecyclePolicy
  unfolding heap_policy count_policy bytes_policy rss_policy unwrap_or
  build_default_recycle_policy_with ratio requests bytes rss sampler =
      heap_policy (unwrap_or ratio fl.default_ratio)
      ++ (count_policy (unwrap_or requests 50000) ++ (bytes_policy bytes ++ rss_policy rss sampler))

  -- The conditions that the settings name, each off when its setting is zero or missing.
  unfoldable pub cap_hit : Option ℕ → ℕ → Bool
  cap_hit none n = false
  cap_hit (some cap) n = ltb 0 cap && ltb cap n

  unfoldable pub rss_hit : Option ℕ → Option (Option ℕ) → Bool
  unfolding cap_hit
  rss_hit rss (some (some n)) = cap_hit rss n
  rss_hit rss _ = false

  unfoldable pub count_hit : ℕ → ℕ → Bool
  count_hit limit n = ltb 0 limit && leb limit n

  -- With a heap of no limit there is no ratio to be over.
  unfoldable pub ratio_hit : fl.F64 → HeapStats → Bool
  ratio_hit ratio heap =
      fl.exceeds ratio fl.zero_ratio
      && (ltb 0 heap.heap_size_limit
          && fl.exceeds (fl.quotient (fl.cast heap.used_heap_size) (fl.cast heap.heap_size_limit))
              (fl.clamp_unit ratio))

  heap_over-ratio :
      (ratio : fl.F64) (heap : HeapStats)
      → heap_over ratio heap ≡ (
          ltb 0 heap.heap_size_limit
          && fl.exceeds
              (fl.quotient (fl.cast heap.used_heap_size) (fl.cast heap.heap_size_limit))
              ratio)
  unfolding heap_over
  heap_over-ratio ratio heap = ground arith

  any_recycles-append :
      (ps qs : List RecyclePolicy) (h : WorkerHealth)
      → any_recycles (ps ++ qs) h ≡ (any_recycles ps h || any_recycles qs h)
  unfolding any_recycles
  any_recycles-append [] qs h = refl
  any_recycles-append (p ∷ ps) qs h = ground (arith, any_recycles-append ps qs h)

  or_false : (b : Bool) → (b || false) ≡ b
  or_false true = refl
  or_false false = refl

  heap_policy-hit :
      (ratio : fl.F64) (h : WorkerHealth)
      → any_recycles (heap_policy ratio) h ≡ ratio_hit ratio h.heap
  unfolding any_recycles should_recycle ratio_hit heap_policy
  heap_policy-hit ratio h = elim (Bool-cases (fl.exceeds ratio fl.zero_ratio)) [
    | inl t ↦ rw (heap_policy, t) (or_false _ ∙ heap_over-ratio _ h.heap)
    | inr f ↦ rw (heap_policy, f) refl
  ]

  count_policy-hit :
      (requests : ℕ) (h : WorkerHealth)
      → any_recycles (count_policy requests) h ≡ count_hit requests h.requests_handled
  unfolding any_recycles should_recycle count_hit count_policy
  count_policy-hit requests h = ground arith

  bytes_policy-hit :
      (bytes : Option ℕ) (h : WorkerHealth)
      → any_recycles (bytes_policy bytes) h ≡ cap_hit bytes h.heap.used_heap_size
  unfolding any_recycles should_recycle cap_hit bytes_policy
  bytes_policy-hit none h = refl
  bytes_policy-hit (some cap) h = ground arith

  rss_policy-hit :
      (rss : Option ℕ) (sampler : Option (Option ℕ)) (h : WorkerHealth)
      → any_recycles (rss_policy rss sampler) h ≡ rss_hit rss sampler
  unfolding any_recycles should_recycle rss_over cap_hit rss_hit rss_policy
  rss_policy-hit none none h = refl
  rss_policy-hit none (some none) h = refl
  rss_policy-hit none (some (some n)) h = refl
  rss_policy-hit (some cap) none h = refl
  rss_policy-hit (some cap) (some none) h = ground arith
  rss_policy-hit (some cap) (some (some n)) h = ground arith

  -- For every setting, the policy that the builder makes recycles a worker exactly if the ratio of
  -- the used heap to a heap limit other than zero is over the setting clamped to the unit interval, the
  -- request count has reached its setting, or the used heap or the resident size is over its setting,
  -- where a setting of zero is off, a missing ratio or count is the default and a missing size is off.
  pub build_default_recycle_policy_with-hits :
      (ratio : Option fl.F64) (requests bytes rss : Option ℕ) (sampler : Option (Option ℕ))
      (h : WorkerHealth)
      → any_recycles (build_default_recycle_policy_with ratio requests bytes rss sampler) h ≡ (
          ratio_hit (unwrap_or ratio fl.default_ratio) h.heap
          || (count_hit (unwrap_or requests 50000) h.requests_handled
              || (cap_hit bytes h.heap.used_heap_size || rss_hit rss sampler)))
  unfolding build_default_recycle_policy_with
  build_default_recycle_policy_with-hits ratio requests bytes rss sampler h =
      rw
        (
          any_recycles-append, heap_policy-hit, any_recycles-append, count_policy-hit,
          any_recycles-append, bytes_policy-hit, rss_policy-hit,
        )
        refl

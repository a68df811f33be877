-- ===== src/Pool/Settings/Limits.antt =====
-- The bounds of what the variables set.
use mathlib.Core.Path.{subst}
use nexide.Prelude.{ℕ, ◌≤◌, ◌^◌, ◌≡◌, Option, none, some, leb, [], ◌∷◌, ◌%◌, ◌==◌, if-elim, arith}
use nexide.Prelude.Options.{some-inj, >>=-eq-some, if-none-eq-some}
use nexide.Prelude.Words.{u32_mod}
use nexide.Prelude.Text.{Text, text_eq}
use nexide.Prelude.Trim.{trim}
use nexide.Prelude.Decimal.{parse}
use nexide.Ops.Request.{is_empty}
use nexide.Pool.Settings.{
  max_batch, clamp, PumpStrategy, coalesced_new, batch_cap, chosen_strategy, strategy_of,
  strategy_of_text, pump_strategy_from_env, HeapLimitConfig, min_max_mb, heap_limit,
  heap_limit_from_env, number_from_env,
}

pub record IsSane (cfg : HeapLimitConfig) : Type 0 where
  pub at_least : min_max_mb ≤ cfg.max_mb
  pub positive : 1 ≤ cfg.initial_mb
  pub ordered : cfg.initial_mb ≤ cfg.max_mb

pub heap_limit-IsSane : (initial_mb max_mb : ℕ) → IsSane (heap_limit initial_mb max_mb)
unfolding heap_limit
heap_limit-IsSane initial_mb max_mb = record {
  at_least = ground arith;
  positive = ground arith;
  ordered = ground arith;
}

-- Every heap limit that is read from the environment is sane.
pub heap_limit_from_env-IsSane :
    (raw : Option Text) (cfg : HeapLimitConfig) → heap_limit_from_env raw ≡ some cfg → IsSane cfg
unfolding heap_limit_from_env
heap_limit_from_env-IsSane raw cfg h =
    let (parsed, _, e) = >>=-eq-some (number_from_env (2 ^ 64) raw) _ h in
    let (_, e') = if-none-eq-some (parsed == 0) _ e in
    subst IsSane (some-inj e') (heap_limit-IsSane _ parsed)

pub clamp-bounds :
    (n low high : ℕ) → low ≤ high → (low ≤ clamp n low high) × (clamp n low high ≤ high)
unfolding clamp
clamp-bounds n low high le = (ground arith, ground arith)

strategy_of-bounded : (o : Option ℕ) → batch_cap (strategy_of o) ≤ max_batch
unfolding strategy_of batch_cap coalesced_new
strategy_of-bounded none = omega arith
strategy_of-bounded (some cap) =
    if-elim (λ s. batch_cap s ≤ max_batch) (cap == 0) (λ t. omega arith)
      (λ f. (clamp-bounds cap 1 max_batch (omega arith)).1)

strategy_of_text-bounded : (raw : Text) → batch_cap (strategy_of_text raw) ≤ max_batch
unfolding batch_cap strategy_of_text strategy_of
strategy_of_text-bounded raw =
    let P : PumpStrategy → Type 0 = λ s. batch_cap s ≤ max_batch in
    if-elim P (is_empty raw) (λ t. omega arith)
      (λ f.
        if-elim P (text_eq raw (b'0' ∷ [])) (λ t. omega arith)
          (λ f'. strategy_of-bounded (parse u32_mod raw)))

-- The batch size that a worker's pump is started with is at most 256, whatever the variable says and
-- however many workers there are; zero stands for the serial pump.
pub batch_cap_bounded :
    (value : Option Text) (workers : ℕ) → batch_cap (chosen_strategy value workers) ≤ max_batch
unfolding batch_cap chosen_strategy pump_strategy_from_env strategy_of_text coalesced_new
batch_cap_bounded none workers =
    if-elim (λ s. batch_cap s ≤ max_batch) (leb workers 1) (λ t. omega arith)
      (λ f. (clamp-bounds (clamp (workers % u32_mod) 1 max_batch) 1 max_batch (omega arith)).1)
batch_cap_bounded (some raw) workers = strategy_of_text-bounded (trim raw)

-- ===== src/Pool/Settings.antt =====
-- What the environment variables set for a worker: crates/nexide/src/pool/pump_strategy.rs,
-- crates/nexide/src/engine/heap_config.rs and the parsers of crates/nexide/src/pool/recycle.rs. The
-- values of the variables are ASCII, and `usize` has 64 bits.
pub mod Limits
use nexide.Prelude.{
  ℕ, ◌*◌, ◌%◌, ◌^◌, min, Bool, true, false, not, [], ◌∷◌, Option, none, some, ltb, leb, ◌==◌,
  if◌then◌else◌,
}
use nexide.Prelude.Options.{◌>>=◌, map_some}
use nexide.Prelude.Words.{u64_max, u32_mod}
use nexide.Prelude.Text.{Text, text_eq}
use nexide.Prelude.Trim.{trim}
use nexide.Prelude.Decimal.{parse}
use nexide.Ops.Request.{is_empty}

abbrev pub default_batch : ℕ
default_batch = 32

abbrev pub max_batch : ℕ
max_batch = 256

-- `n.clamp(low, high)`
unfoldable pub clamp : ℕ → ℕ → ℕ → ℕ
clamp n low high = if ltb n low then low else if ltb high n then high else n

-- The strategies `Serial` and `Coalesced`, the latter with its cap.
pub data PumpStrategy : Type 0 where
  serial : PumpStrategy
  coalesced : ℕ → PumpStrategy

-- `Coalesced::new`
unfoldable pub coalesced_new : ℕ → PumpStrategy
unfolding clamp
coalesced_new cap = coalesced (clamp cap 1 max_batch)

unfoldable pub max_inflight_per_tick : PumpStrategy → ℕ
max_inflight_per_tick serial = 1
max_inflight_per_tick (coalesced cap) = cap

-- The last arm of `pump_strategy_from_env`, after the parse.
unfoldable pub strategy_of : Option ℕ → PumpStrategy
unfolding coalesced_new
strategy_of none = serial
strategy_of (some cap) = if cap == 0 then serial else coalesced_new cap

unfoldable pub strategy_of_text : Text → PumpStrategy
unfolding strategy_of parse is_empty
strategy_of_text raw =
    if is_empty raw
    then serial
    else if text_eq raw (b'0' ∷ [])
    then serial
    else strategy_of (parse u32_mod raw)

-- `pump_strategy_from_env`
unfoldable pub pump_strategy_from_env : Option Text → Option PumpStrategy
unfolding strategy_of_text trim
pump_strategy_from_env value = map_some (λ raw. strategy_of_text (trim raw)) value

-- `default_pump_strategy_for`, with the cast of the workers to a `u32`
unfoldable pub default_pump_strategy_for : ℕ → PumpStrategy
unfolding coalesced_new clamp
default_pump_strategy_for workers =
    if leb workers 1 then serial else coalesced_new (clamp (workers % u32_mod) 1 max_batch)

-- The choice of `boot_engine`, for the value of the variable, if it is set.
unfoldable pub chosen_strategy : Option Text → ℕ → PumpStrategy
unfolding pump_strategy_from_env default_pump_strategy_for
chosen_strategy value workers = elim (pump_strategy_from_env value) [
  | none ↦ default_pump_strategy_for workers
  | some strategy ↦ strategy
]

-- The batch size that `boot_engine` starts the pump with.
unfoldable pub batch_cap : PumpStrategy → ℕ
unfolding max_inflight_per_tick
batch_cap serial = 0
batch_cap (coalesced cap) = max_inflight_per_tick (coalesced cap)

pub record HeapLimitConfig : Type 0 where
  pub initial_mb : ℕ
  pub max_mb : ℕ

abbrev pub default_max_mb : ℕ
default_max_mb = 256

abbrev pub default_initial_mb : ℕ
default_initial_mb = 32

abbrev pub min_max_mb : ℕ
min_max_mb = 32

-- `HeapLimitConfig::new`
unfoldable pub heap_limit : ℕ → ℕ → HeapLimitConfig
heap_limit initial_mb max_mb =
    let max_mb' = if ltb max_mb min_max_mb then min_max_mb else max_mb in
    record {
      initial_mb =
          if initial_mb == 0 then 1 else if ltb max_mb' initial_mb then max_mb' else initial_mb;
      max_mb = max_mb';
    }

-- The two byte counts that `to_create_params` passes on; a release build wraps around.
unfoldable pub to_create_params : HeapLimitConfig → ℕ × ℕ
to_create_params cfg =
    (cfg.initial_mb * (1024 * 1024) % 2 ^ 64, cfg.max_mb * (1024 * 1024) % 2 ^ 64)

-- The trimmed value of a variable, unless it is blank, read as a number below a bound.
unfoldable pub number_from_env : ℕ → Option Text → Option ℕ
unfolding trim parse is_empty
number_from_env bound raw = do
  text ← raw
  s ← if is_empty (trim text) then none else some (trim text)
  parse bound s

-- `heap_limit_from_env`
unfoldable pub heap_limit_from_env : Option Text → Option HeapLimitConfig
unfolding number_from_env heap_limit
heap_limit_from_env raw = do
  parsed ← number_from_env (2 ^ 64) raw
  if parsed == 0 then none else some (heap_limit (min default_initial_mb parsed) parsed)

-- `n.saturating_mul(m)` at 64 bits
unfoldable pub saturating_mul : ℕ → ℕ → ℕ
saturating_mul n m = min (n * m) u64_max

unfoldable pub reap_request_count_from_env : Option Text → Option ℕ
unfolding number_from_env
reap_request_count_from_env raw = number_from_env (2 ^ 64) raw

unfoldable pub reap_heap_bytes_from_env : Option Text → Option ℕ
unfolding number_from_env saturating_mul
reap_heap_bytes_from_env raw =
    map_some (λ mb. saturating_mul mb (1024 * 1024)) (number_from_env (2 ^ 64) raw)

unfoldable pub reap_rss_bytes_from_env : Option Text → Option ℕ
unfolding number_from_env saturating_mul
reap_rss_bytes_from_env raw =
    map_some (λ mb. saturating_mul mb (1024 * 1024)) (number_from_env (2 ^ 64) raw)

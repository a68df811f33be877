-- ===== src/Prelude/Words.antt =====
-- Rust's `u32`: wrapping and saturating steps.
use Prim.Native.Nat.{ℕ, ◌+◌, ◌-◌, ◌%◌, ◌^◌, ◌≤◌, ◌<◌, min}
use mathlib.Core.Path.{◌≡◌}
use mathlib.Core.Logic.{◌≢◌}
use native.Mathlib.Omega.{arith}
use native.Mathlib.Nat.{mod_self, mod-eq_of_lt}
use native.Mathlib.Decide.{ℕ_discrete}

abbrev pub u32_mod : ℕ
u32_mod = 2 ^ 32

-- `u32::MAX`
abbrev pub u32_max : ℕ
u32_max = 2 ^ 32 - 1

-- `usize::MAX` and `u64::MAX` on a 64-bit target
abbrev pub u64_max : ℕ
u64_max = 2 ^ 64 - 1

-- `n.wrapping_add(1)` at `u32`
abbrev pub wrapping_succ : ℕ → ℕ
wrapping_succ n = (n + 1) % u32_mod

-- `n.saturating_add(1)` at `u32`
abbrev pub saturating_succ : ℕ → ℕ
saturating_succ n = min (n + 1) u32_max

-- The next index of a ring of at least two is another one.
pub next_differs : (n a raw : ℕ) → 2 ≤ n → a < n → raw ≡ a → a ≢ (raw + 1) % n
next_differs n a raw two la same e = elim (ℕ_discrete (raw + 1) n) [
  | yes wraps ↦ let zeroed : (raw + 1) % n ≡ 0 = rw wraps (mod_self n) in omega arith
  | no below ↦ let next = mod-eq_of_lt {n = raw + 1} {m = n} (omega arith) in omega arith
]

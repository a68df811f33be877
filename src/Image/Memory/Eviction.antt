-- ===== src/Image/Memory/Eviction.antt =====
-- About the limits of the LRU cache and its byte counter.
use nexide.Prelude.{
  ℕ, zero, suc, ◌+◌, ◌≤◌, ◌<◌, ◌^◌, ◌≡◌, ◌≢◌, ◌-◌, refl, sym, ◌∙◌, inl, inr, true, false, List, [],
  ◌∷◌, some, length, arith, Bool-cases, Option-cases,
}
use nexide.Prelude.Words.{u64_max}
use nexide.Prelude.Text.{Text}
use nexide.Image.Memory.{
  HotEntry, Cached, MemCache, lookup, without, oldest, evict_one, overflows, evict_loop, evict,
  inserted, put, get, with_limits, next_order, map_insert, replaced_bytes,
}
use nexide.Image.Memory.Entries.{
  total, IsKeyed, IsBelow, without-found, oldest-lookup, oldest-none, without-IsKeyed,
  without-IsBelow, without-IsAbsent, without-missing, IsBelow-weaken, restamp-IsKeyed,
  restamp-IsBelow, restamp_sizes,
}

-- The bookkeeping is right.
pub record IsTracked (g : MemCache) : Type 0 where
  pub keyed : IsKeyed g.map
  pub below : IsBelow (suc g.order) g.map
  pub counted : g.bytes ≡ total g.map

-- The cache is within its limits.
pub record IsBounded (g : MemCache) : Type 0 where
  pub few : length g.map ≤ g.max_entries
  pub small : g.bytes ≤ g.max_bytes

-- `g'` is `g` after evictions.
pub record Evicted (g g' : MemCache) : Type 0 where
  pub tracked : IsTracked g'
  pub bounded : IsBounded g'
  pub entries_limit : g'.max_entries ≡ g.max_entries
  pub bytes_limit : g'.max_bytes ≡ g.max_bytes
  pub order : g'.order ≡ g.order

no_overflow : (g : MemCache) → overflows g ≡ false → IsBounded g
unfolding overflows
no_overflow g h = record { few = ground arith; small = ground arith }

pub bounded_overflow : (g : MemCache) → IsBounded g → overflows g ≢ true
unfolding overflows
bounded_overflow g b t = let few = b.few in let small = b.small in absurd (ground arith)

-- A tracked cache without entries is within any limits.
empty-IsBounded : (g : MemCache) → IsTracked g → g.map ≡ [] → IsBounded g
unfolding total
empty-IsBounded g r e =
    let counted : g.bytes ≡ 0 = rw e at r.counted in
    record { few = ground arith; small = omega arith }

stays : (g : MemCache) → IsTracked g → IsBounded g → Evicted g g
stays g r b = record {
  tracked = r;
  bounded = b;
  entries_limit = refl;
  bytes_limit = refl;
  order = refl;
}

-- The cache without the oldest entry, whose key is `key`.
abbrev pub evicted_key : MemCache → Text → Cached → MemCache
evicted_key g key c = record g { map = without key g.map; bytes = g.bytes - length c.entry.bytes }

-- An eviction removes the oldest entry's key.
pub evict_one-oldest :
    (g : MemCache) (v : Cached)
    → oldest g.map ≡ some v
    → (c : Cached) × (lookup v.key g.map ≡ some c) × (evict_one g ≡ some (evicted_key g v.key c))
unfolding evict_one
evict_one-oldest g v e =
    let (c, found) = oldest-lookup g.map v e in (c, found, rw (evict_one, e, found) refl)

pub evicted-IsTracked :
    (g : MemCache) (key : Text) (c : Cached)
    → lookup key g.map ≡ some c
    → IsTracked g
    → IsTracked (evicted_key g key c)
evicted-IsTracked g key c found r = record {
  keyed = without-IsKeyed key g.map r.keyed;
  below = without-IsBelow (suc g.order) key g.map r.below;
  counted = omega (arith, r.counted, (without-found key g.map c found).1);
}

pub evict_loop-Evicted :
    (fuel : ℕ) (g : MemCache) → length g.map ≤ fuel → IsTracked g → Evicted g (evict_loop fuel g)
unfolding evict_loop
evict_loop-Evicted zero g le r = stays g r (empty-IsBounded g r (ground arith))
evict_loop-Evicted (suc fuel) g le r = elim (Bool-cases (overflows g)) [
  | inr f ↦ rw (evict_loop, f) (stays g r (no_overflow g f))
  | inl t ↦ elim (Option-cases (oldest g.map)) [
    | inl e ↦ let b = empty-IsBounded g r (oldest-none g.map e) in absurd (bounded_overflow g b t)
    | inr (v, e) ↦
        let (c, found, next) = evict_one-oldest g v e in
        let shorter = (without-found v.key g.map c found).0 in
        let ih =
          evict_loop-Evicted fuel (evicted_key g v.key c) (omega (arith, le, shorter))
            (evicted-IsTracked g v.key c found r) in
        rw (evict_loop, t, next)
          record {
            tracked = ih.tracked;
            bounded = ih.bounded;
            entries_limit = ih.entries_limit;
            bytes_limit = ih.bytes_limit;
            order = ih.order;
          }
  ]
]

-- The cache keeps its books and its limits, which fit in machine words.
pub record IsValid (g : MemCache) : Type 0 where
  pub tracked : IsTracked g
  pub bounded : IsBounded g

pub IsBelow-next :
    (g : MemCache) (map : List Cached)
    → suc g.order < 2 ^ 64
    → IsBelow (suc g.order) map
    → (next_order g.order ≡ suc g.order) × IsBelow (suc (suc g.order)) map
unfolding next_order
IsBelow-next g map room h =
    (omega arith, IsBelow-weaken (suc g.order) (suc (suc g.order)) map (omega arith) h)

pub inserted-IsTracked :
    (g : MemCache) (key : Text) (entry : HotEntry)
    → IsTracked g
    → suc g.order < 2 ^ 64
    → g.bytes + length entry.bytes ≤ u64_max
    → IsTracked (inserted g key entry)
unfolding inserted map_insert IsKeyed IsBelow total
inserted-IsTracked g key entry r room fits =
    let (same, below) = IsBelow-next g g.map room r.below in
    let older : IsBelow (suc (next_order g.order)) (without key g.map) =
      rw same (without-IsBelow _ key g.map below) in
    record {
      keyed = (without-IsAbsent key g.map r.keyed, without-IsKeyed key g.map r.keyed);
      below = (omega arith, older);
      counted = elim (Option-cases (lookup key g.map)) [
        | inl e ↦
            rw (e, replaced_bytes, without-missing key g.map e) (omega (arith, r.counted, fits))
        | inr (c, e) ↦
            rw (e, replaced_bytes) (omega (arith, r.counted, fits, (without-found key g.map c e).1))
      ];
    }

-- On a valid cache whose clock and sizes fit in 64 bits, `put` keeps the cache valid (its keys
-- distinct, its byte counter exact, its entries and bytes within the limits) and its limits.
pub put-IsValid :
    (g : MemCache) (key : Text) (entry : HotEntry)
    → IsValid g
    → suc g.order < 2 ^ 64
    → g.max_bytes + length entry.bytes ≤ u64_max
    → IsValid (put g key entry)
      × ((put g key entry).max_entries ≡ g.max_entries)
      × ((put g key entry).max_bytes ≡ g.max_bytes)
      × ((put g key entry).order ≡ suc g.order)
unfolding put evict inserted
put-IsValid g key entry v room fits =
    let small = v.bounded.small in
    let r = inserted-IsTracked g key entry v.tracked room (omega arith) in
    let d =
      evict_loop-Evicted (length (inserted g key entry).map) (inserted g key entry) (omega arith)
        r in
    (
      record { tracked = d.tracked; bounded = d.bounded },
      d.entries_limit,
      d.bytes_limit,
      d.order ∙ (IsBelow-next g g.map room v.tracked.below).0,
    )

pub get-IsValid :
    (g : MemCache) (key : Text)
    → IsValid g
    → suc g.order < 2 ^ 64
    → IsValid (get g key).1 × ((get g key).1.order ≡ suc g.order)
unfolding get
get-IsValid g key v room =
    let (same, below) = IsBelow-next g g.map room v.tracked.below in
    elim (Option-cases (lookup key g.map)) [
      | inl e ↦
          rw (get, e, same)
            ((
              record {
                tracked = record {
                  keyed = v.tracked.keyed;
                  below = below;
                  counted = v.tracked.counted;
                };
                bounded = record { few = v.bounded.few; small = v.bounded.small };
              },
              refl,
            ))
      | inr (c, e) ↦
          let (l, n) = restamp_sizes key (suc g.order) g.map in
          rw (get, e, same)
            ((
              record {
                tracked = record {
                  keyed = restamp-IsKeyed key _ g.map v.tracked.keyed;
                  below = restamp-IsBelow key _ _ g.map (omega arith) below;
                  counted = v.tracked.counted ∙ sym n;
                };
                bounded = record { few = rw l v.bounded.few; small = v.bounded.small };
              },
              refl,
            ))
    ]

get_max_bytes : (g : MemCache) (key : Text) → (get g key).1.max_bytes ≡ g.max_bytes
unfolding get
get_max_bytes g key = elim (Option-cases (lookup key g.map)) [
  | inl e ↦ rw (get, e) refl
  | inr (c, e) ↦ rw (get, e) refl
]

-- A call of the cache.
pub data CacheCall : Type 0 where
  get_call : Text → CacheCall
  put_call : Text → HotEntry → CacheCall

unfoldable pub run_call : MemCache → CacheCall → MemCache
unfolding get put
run_call g (get_call key) = (get g key).1
run_call g (put_call key entry) = put g key entry

unfoldable pub run_calls : MemCache → List CacheCall → MemCache
unfolding run_call
run_calls g [] = g
run_calls g (call ∷ calls) = run_calls (run_call g call) calls

-- No call stores more bytes than the counter can take on top of the limit.
unfoldable pub FitsWord : ℕ → List CacheCall → Type 0
FitsWord limit [] = Unit
FitsWord limit (get_call key ∷ calls) = FitsWord limit calls
FitsWord limit (put_call key entry ∷ calls) =
    (limit + length entry.bytes ≤ u64_max) × FitsWord limit calls

-- Any calls, fewer than the clock of a valid cache has left and none with an entry that the byte
-- counter cannot take, leave it valid: keys distinct, byte counter exact, entries and bytes within
-- the limits.
pub run_calls-IsValid :
    (g : MemCache) (calls : List CacheCall)
    → IsValid g
    → g.order + length calls < 2 ^ 64
    → FitsWord g.max_bytes calls
    → IsValid (run_calls g calls)
unfolding run_calls run_call FitsWord
run_calls-IsValid g [] v room fits = v
run_calls-IsValid g (get_call key ∷ calls) v room fits =
    let (v', o) = get-IsValid g key v (omega arith) in
    run_calls-IsValid (get g key).1 calls v' (omega arith) (rw (get_max_bytes g key) fits)
run_calls-IsValid g (put_call key entry ∷ calls) v room (fit, fits) =
    let (v', e, b, o) = put-IsValid g key entry v (omega arith) fit in
    run_calls-IsValid (put g key entry) calls v' (omega arith) (rw b fits)

pub with_limits-IsValid : (n m : ℕ) → IsValid (with_limits n m)
unfolding with_limits IsKeyed IsBelow total
with_limits-IsValid n m = record {
  tracked = record { keyed = tt; below = tt; counted = refl };
  bounded = record { few = omega arith; small = omega arith };
}

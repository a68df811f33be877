-- ===== src/Image/Memory.antt =====
-- crates/nexide/src/image/memory.rs: the in-process LRU cache of optimized images. The hash map is
-- a list of its entries, whose order nothing depends on. A lock that is poisoned is left out.
pub mod Entries
pub mod Eviction
pub mod Recency
use nexide.Prelude.{
  ℕ, zero, suc, ◌+◌, ◌-◌, ◌*◌, ◌%◌, ◌^◌, min, Bool, true, false, ◌||◌, List, [], ◌∷◌, Option, none,
  some, length, ltb, leb, if◌then◌else◌,
}
use nexide.Prelude.Words.{u64_max}
use nexide.Prelude.Text.{Text, text_eq}

pub record HotEntry : Type 0 where
  pub bytes : List ℕ
  pub max_age : ℕ
  pub expire_at_ms : ℕ
  pub etag : Text
  pub extension : Text

-- A key of the map with its value: the entry and the stamp of its last use.
pub record Cached : Type 0 where
  pub key : Text
  pub entry : HotEntry
  pub stamp : ℕ

pub record MemCache : Type 0 where
  pub map : List Cached
  pub order : ℕ
  pub bytes : ℕ
  pub max_entries : ℕ
  pub max_bytes : ℕ

unfoldable pub with_limits : ℕ → ℕ → MemCache
with_limits max_entries max_bytes = record {
  map = [];
  order = 0;
  bytes = 0;
  max_entries = max_entries;
  max_bytes = max_bytes;
}

unfoldable pub new : MemCache
unfolding with_limits
new = with_limits 256 (64 * 1024 * 1024)

-- `map.get(key)`
unfoldable pub lookup : Text → List Cached → Option Cached
lookup key [] = none
lookup key (c ∷ map) = if text_eq c.key key then some c else lookup key map

-- `map.remove(key)`
unfoldable pub without : Text → List Cached → List Cached
without key [] = []
without key (c ∷ map) = if text_eq c.key key then map else c ∷ without key map

-- `map.insert(key, (entry, stamp))`
unfoldable pub map_insert : Text → HotEntry → ℕ → List Cached → List Cached
unfolding without
map_insert key entry stamp map =
    record { key = key; entry = entry; stamp = stamp } ∷ without key map

-- `slot.1 = stamp` through `map.get_mut(key)`
unfoldable pub restamp : Text → ℕ → List Cached → List Cached
restamp key stamp [] = []
restamp key stamp (c ∷ map) =
    if text_eq c.key key then record c { stamp = stamp } ∷ map else c ∷ restamp key stamp map

-- `g.order += 1` on a `u64`, as a release build computes it.
unfoldable pub next_order : ℕ → ℕ
next_order order = (order + 1) % 2 ^ 64

unfoldable pub get : MemCache → Text → Option HotEntry × MemCache
unfolding lookup restamp next_order
get g key =
    let stamp = next_order g.order in
    elim (lookup key g.map) [
      | none ↦ (none, record g { order = stamp })
      | some c ↦ (some c.entry, record g { order = stamp; map = restamp key stamp g.map })
    ]

-- `iter().min_by_key(...)`: the first entry with the least stamp.
unfoldable pub oldest : List Cached → Option Cached
oldest [] = none
oldest (c ∷ map) = elim (oldest map) [
  | none ↦ some c
  | some d ↦ if leb c.stamp d.stamp then some c else some d
]

-- The body of the loop of `evict`; `none` is its `break`.
unfoldable pub evict_one : MemCache → Option MemCache
unfolding oldest lookup without
evict_one g = elim (oldest g.map) [
  | none ↦ none
  | some victim ↦ elim (lookup victim.key g.map) [
    | none ↦ some g
    | some evicted ↦
        some (record g {
          map = without victim.key g.map;
          bytes = g.bytes - length evicted.entry.bytes;
        })
  ]
]

-- `map.len() > max_entries || bytes > max_bytes`
unfoldable pub overflows : MemCache → Bool
overflows g = ltb g.max_entries (length g.map) || ltb g.max_bytes g.bytes

unfoldable pub evict_loop : ℕ → MemCache → MemCache
unfolding overflows evict_one
evict_loop zero g = g
evict_loop (suc fuel) g = elim (overflows g) [
  | true ↦ elim (evict_one g) [ none ↦ g | some g' ↦ evict_loop fuel g' ]
  | false ↦ g
]

-- Each round removes an entry, so as many rounds as entries end the loop.
unfoldable pub evict : MemCache → MemCache
unfolding evict_loop
evict g = evict_loop (length g.map) g

-- The bytes that `map.insert` replaces.
unfoldable pub replaced_bytes : Option Cached → ℕ
replaced_bytes none = 0
replaced_bytes (some c) = length c.entry.bytes

-- What `put` leaves to `evict`.
unfoldable pub inserted : MemCache → Text → HotEntry → MemCache
unfolding next_order lookup map_insert replaced_bytes
inserted g key entry =
    let stamp = next_order g.order in
    record g {
      order = stamp;
      map = map_insert key entry stamp g.map;
      bytes = min (g.bytes - replaced_bytes (lookup key g.map) + length entry.bytes) u64_max;
    }

unfoldable pub put : MemCache → Text → HotEntry → MemCache
unfolding inserted evict
put g key entry = evict (inserted g key entry)

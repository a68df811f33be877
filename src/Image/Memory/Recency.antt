-- ===== src/Image/Memory/Recency.antt =====
-- About `get` after `put`, and the order of evictions in the LRU cache.
use nexide.Prelude.{
  ℕ, zero, suc, ◌+◌, ◌≤◌, ◌<◌, ◌^◌, ◌≡◌, refl, ◌∙◌, ap, inl, inr, false, List, [], ◌∷◌, none, some,
  length, arith, Bool-cases, Option-cases,
}
use nexide.Prelude.Words.{u64_max}
use nexide.Prelude.Text.{Text, text_eq, text_eq_self, text_eq→eq}
use nexide.Image.Memory.{
  HotEntry, Cached, MemCache, lookup, without, oldest, evict_one, overflows, evict_loop, evict,
  inserted, put, get, map_insert, next_order,
}
use nexide.Image.Memory.Entries.{
  total, IsBelow, IsAbsent, without-IsAbsent, without-IsBelow, oldest-none, IsAbsent-without,
  lookup-without, lookup-without_ne, lookup-oldest, oldest_least,
}
use nexide.Image.Memory.Eviction.{
  IsTracked, IsBounded, IsValid, evict_one-oldest, evicted_key, evicted-IsTracked, bounded_overflow,
  inserted-IsTracked, IsBelow-next,
}

oldest-below :
    (bound : ℕ) (map : List Cached) (v : Cached)
    → IsBelow bound map
    → oldest map ≡ some v
    → v.stamp < bound
unfolding IsBelow oldest
oldest-below bound [] v h e = absurd (ground arith)
oldest-below bound (c ∷ map) v (l, h) e = elim (Option-cases (oldest map)) [
  | inl n ↦ ground arith
  | inr (d, s) ↦ let lt = oldest-below bound map d h s in ground arith
]

oldest-absent :
    (key : Text) (map : List Cached) (v : Cached)
    → IsAbsent key map
    → oldest map ≡ some v
    → text_eq v.key key ≡ false
unfolding IsAbsent oldest
oldest-absent key [] v h e = absurd (ground arith)
oldest-absent key (c ∷ map) v (a, h) e = elim (Option-cases (oldest map)) [
  | inl n ↦ ground arith
  | inr (d, s) ↦ let ne = oldest-absent key map d h s in ground arith
]

text_eq_swap : (s t : Text) → text_eq s t ≡ false → text_eq t s ≡ false
text_eq_swap s t h = elim (Bool-cases (text_eq t s)) [
  | inl e ↦ let same = rw (text_eq→eq t s e) at h in absurd (ground (arith, text_eq_self s))
  | inr f ↦ f
]

-- An eviction leaves the newest entry at the front.
evicts_behind :
    (new : Cached) (rest : List Cached) (v : Cached)
    → IsBelow new.stamp rest
    → IsAbsent new.key rest
    → oldest rest ≡ some v
    → (oldest (new ∷ rest) ≡ some v) × (without v.key (new ∷ rest) ≡ new ∷ without v.key rest)
unfolding oldest without
evicts_behind new rest v b a e =
    let lt = oldest-below new.stamp rest v b e in
    let ne = text_eq_swap v.key new.key (oldest-absent new.key rest v a e) in
    (ground arith, rw ne refl)

counted_small :
    (g : MemCache) (new : Cached)
    → g.bytes ≡ total (new ∷ [])
    → length new.entry.bytes ≤ g.max_bytes
    → g.bytes ≤ g.max_bytes
unfolding total
counted_small g new h small = omega arith

evict_loop-front :
    (fuel : ℕ) (g : MemCache) (new : Cached) (rest : List Cached)
    → IsTracked g
    → g.map ≡ new ∷ rest
    → IsBelow new.stamp rest
    → IsAbsent new.key rest
    → 1 ≤ g.max_entries
    → length new.entry.bytes ≤ g.max_bytes
    → (rest' : List Cached) × ((evict_loop fuel g).map ≡ new ∷ rest')
unfolding evict_loop
evict_loop-front zero g new rest r e b a few small = (rest, e)
evict_loop-front (suc fuel) g new rest r e b a few small = elim (Bool-cases (overflows g)) [
  | inr f ↦ rw (evict_loop, f) ((rest, e))
  | inl t ↦ elim (Option-cases (oldest rest)) [
    | inl n ↦
        let alone : g.map ≡ new ∷ [] = e ∙ ap (◌∷◌ new) (oldest-none rest n) in
        let counted : g.bytes ≡ total (new ∷ []) = rw alone at r.counted in
        let bounded : IsBounded g = record {
          few = rw alone few;
          small = counted_small g new counted small;
        } in
        absurd (bounded_overflow g bounded t)
    | inr (v, o) ↦
        let (first, left) = evicts_behind new rest v b a o in
        let (c, found, next) = evict_one-oldest g v (rw e first) in
        let (rest', ih) =
          evict_loop-front fuel (evicted_key g v.key c) new (without v.key rest)
            (evicted-IsTracked g v.key c found r) (rw e left)
            (without-IsBelow new.stamp v.key rest b) (IsAbsent-without new.key v.key rest a) few
            small in
        rw (evict_loop, t, next) ((rest', ih))
  ]
]

-- If an entry fits into a valid cache with room for one, a `get` right after its `put` finds it.
pub put-get :
    (g : MemCache) (key : Text) (entry : HotEntry)
    → IsValid g
    → suc g.order < 2 ^ 64
    → g.max_bytes + length entry.bytes ≤ u64_max
    → 1 ≤ g.max_entries
    → length entry.bytes ≤ g.max_bytes
    → (get (put g key entry) key).0 ≡ some entry
unfolding put evict inserted map_insert get lookup
put-get g key entry v room fits few small =
    let (same, below) = IsBelow-next g g.map room v.tracked.below in
    let small_now = v.bounded.small in
    let older : IsBelow (next_order g.order) (without key g.map) =
      rw same (without-IsBelow _ key g.map v.tracked.below) in
    let (rest, front) =
      evict_loop-front (length (inserted g key entry).map) (inserted g key entry)
        (record { key = key; entry = entry; stamp = next_order g.order }) (without key g.map)
        (inserted-IsTracked g key entry v.tracked room (omega arith)) refl older
        (without-IsAbsent key g.map v.tracked.keyed) few small in
    rw (get, front, text_eq_self key) refl

-- What evictions leave was there before.
evict_loop-lookup :
    (fuel : ℕ) (g : MemCache) (key : Text) (c : Cached)
    → IsTracked g
    → lookup key (evict_loop fuel g).map ≡ some c
    → lookup key g.map ≡ some c
unfolding evict_loop
evict_loop-lookup zero g key c r h = h
evict_loop-lookup (suc fuel) g key c r h = elim (Bool-cases (overflows g)) [
  | inr f ↦ rw (evict_loop, f) at h
  | inl t ↦ elim (Option-cases (oldest g.map)) [
    | inl n ↦ rw (evict_loop, t, evict_one, n) at h
    | inr (v, e) ↦
        let (d, found, next) = evict_one-oldest g v e in
        lookup-without v.key key g.map c r.keyed (
          evict_loop-lookup fuel (evicted_key g v.key d) key c (evicted-IsTracked g v.key d found r)
            (rw (evict_loop, t, next) at h))
  ]
]

evict_loop-least :
    (fuel : ℕ) (g : MemCache) (key key' : Text) (c c' : Cached)
    → IsTracked g
    → lookup key g.map ≡ some c
    → lookup key (evict_loop fuel g).map ≡ none
    → lookup key' (evict_loop fuel g).map ≡ some c'
    → c.stamp ≤ c'.stamp
unfolding evict_loop
evict_loop-least zero g key key' c c' r was gone kept = absurd (ground arith)
evict_loop-least (suc fuel) g key key' c c' r was gone kept = elim (Bool-cases (overflows g)) [
  | inr f ↦ let gone' = rw (evict_loop, f) at gone in absurd (ground arith)
  | inl t ↦ elim (Option-cases (oldest g.map)) [
    | inl n ↦ let gone' = rw (evict_loop, t, evict_one, n) at gone in absurd (ground arith)
    | inr (v, e) ↦
        let (d, found, next) = evict_one-oldest g v e in
        let r' = evicted-IsTracked g v.key d found r in
        let gone' = rw (evict_loop, t, next) at gone in
        let kept' = rw (evict_loop, t, next) at kept in
        elim (Bool-cases (text_eq v.key key)) [
          | inl same ↦
              let at_key = rw (text_eq→eq v.key key same) at (lookup-oldest g.map v r.keyed e) in
              let least = oldest_least g.map v key' c' e (
                lookup-without v.key key' g.map c' r.keyed
                  (evict_loop-lookup fuel (evicted_key g v.key d) key' c' r' kept')) in
              ground arith
          | inr other ↦
              evict_loop-least fuel (evicted_key g v.key d) key key' c c' r'
                (lookup-without_ne v.key key g.map other ∙ was) gone' kept'
        ]
  ]
]

-- When `put` on a valid cache evicts the entry of one key and keeps that of another, the evicted
-- entry was used no later than the one that stays, which was there unchanged before the eviction.
pub put_evicts_oldest :
    (g : MemCache) (key : Text) (entry : HotEntry) (old other : Text) (c c' : Cached)
    → IsValid g
    → suc g.order < 2 ^ 64
    → g.max_bytes + length entry.bytes ≤ u64_max
    → lookup old (inserted g key entry).map ≡ some c
    → lookup old (put g key entry).map ≡ none
    → lookup other (put g key entry).map ≡ some c'
    → (c.stamp ≤ c'.stamp) × (lookup other (inserted g key entry).map ≡ some c')
unfolding put evict
put_evicts_oldest g key entry old other c c' v room fits was gone kept =
    let small = v.bounded.small in
    let r = inserted-IsTracked g key entry v.tracked room (omega arith) in
    let fuel = length (inserted g key entry).map in
    (
      evict_loop-least fuel (inserted g key entry) old other c c' r was gone kept,
      evict_loop-lookup fuel (inserted g key entry) other c' r kept,
    )

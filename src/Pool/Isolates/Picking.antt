-- ===== src/Pool/Isolates/Picking.antt =====
-- The slot that the pool picks for a request.
use native.Mathlib.Nat.{mod-lt}
use nexide.Prelude.{
  ℕ, zero, suc, ◌+◌, ◌%◌, ◌^◌, ◌≤◌, ◌<◌, ◌≡◌, ◌≢◌, ◌⊎◌, refl, inl, inr, List, none, some, length,
  get_elem?, get_elem?_below, leb, ◌==◌, arith, Bool-cases,
}
use nexide.Prelude.Words.{next_differs}
use nexide.Pool.Isolates.{
  Slot, PoolInner, index_a, index_b, lighter, fetch_add, sampled, pick_among, pick_index,
}

-- The requests in flight at a slot.
unfoldable pub load : List Slot → ℕ → ℕ
load slots i = elim (get_elem? slots i) [ none ↦ 0 | some slot ↦ slot.inflight ]

-- The two candidates are slots, and different ones.
candidates :
    (p : PoolInner) (n : ℕ)
    → 2 ≤ n
    → (index_a p n < n) × (index_b p n < n) × (index_a p n ≢ index_b p n)
unfolding index_a index_b
candidates p n two =
    let a = p.picker_a % n in
    let raw = p.picker_b % n in
    let la : a < n = mod-lt p.picker_a (omega arith) in
    let lr : raw < n = mod-lt p.picker_b (omega arith) in
    elim (Bool-cases (raw == a)) [
      | inr f ↦ (la, rw (index_b, f) lr, rw (index_b, f) (λ e. absurd (ground arith)))
      | inl t ↦ (
        la,
        rw (index_b, t) (mod-lt (raw + 1) (omega arith)),
        rw (index_b, t) (λ e. next_differs n a raw two la (ground arith) e),
      )
    ]

lighter-least :
    (slots : List Slot) (a b : ℕ)
    → a < length slots
    → b < length slots
    → (i : ℕ) × (lighter slots a b ≡ some i)
      × ((i ≡ a) ⊎ (i ≡ b))
      × (load slots i ≤ load slots a)
      × (load slots i ≤ load slots b)
unfolding lighter load
lighter-least slots a b la lb =
    let (s, at) = get_elem?_below slots a la in
    let (t, bt) = get_elem?_below slots b lb in
    elim (Bool-cases (leb s.inflight t.inflight)) [
      | inl le ↦ (
        a,
        rw (lighter, at, bt, le) refl,
        inl refl,
        omega arith,
        rw (load, at, bt) (ground arith),
      )
      | inr gt ↦ (
        b,
        rw (lighter, at, bt, gt) refl,
        inr refl,
        rw (load, at, bt) (ground arith),
        omega arith,
      )
    ]

pick_among-lighter :
    (n : ℕ) (p : PoolInner) (i : ℕ)
    → 2 ≤ n
    → lighter p.slots (index_a p n) (index_b p n) ≡ some i
    → pick_among n p ≡ some (i, sampled p)
unfolding pick_among
pick_among-lighter zero p i two e = absurd (omega arith)
pick_among-lighter (suc zero) p i two e = absurd (omega arith)
pick_among-lighter (suc (suc n)) p i two e = rw (pick_among, e) refl

picked_below :
    (p : PoolInner) (i : ℕ) {a b : ℕ}
    → a < length p.slots
    → b < length p.slots
    → (i ≡ a) ⊎ (i ≡ b)
    → i < length p.slots
picked_below p i la lb (inl e) = omega arith
picked_below p i la lb (inr e) = omega arith

-- The slots that a pool of `n` samples: by one counter, and by the other, moved on if they coincide.
unfoldable pub SampledAt : PoolInner → ℕ → ℕ → ℕ → Type 0
SampledAt p n a b =
    (a ≡ p.picker_a % n)
    × (((p.picker_b % n ≢ a) × (b ≡ p.picker_b % n))
        ⊎ ((p.picker_b % n ≡ a) × (b ≡ (p.picker_b % n + 1) % n)))

indices-SampledAt : (p : PoolInner) (n : ℕ) → SampledAt p n (index_a p n) (index_b p n)
unfolding SampledAt index_a index_b
indices-SampledAt p n = elim (Bool-cases (p.picker_b % n == p.picker_a % n)) [
  | inl t ↦ (refl, inr (ground arith, rw t refl))
  | inr f ↦ (refl, inl (λ e. absurd (ground arith), rw f refl))
]

-- A pool of at least two slots samples two different slots, one by each counter, and picks the one
-- with no more requests in flight than the other; the counters advance by 1 and by 7, modulo 2^64, and
-- nothing else of the pool changes.
pub pick_index-least :
    (p : PoolInner)
    → 2 ≤ length p.slots
    → (a : ℕ) × (b : ℕ) × (i : ℕ) × SampledAt p (length p.slots) a b
      × (a ≢ b)
      × (pick_index p
          ≡ some (
            i,
            record p { picker_a = (p.picker_a + 1) % 2 ^ 64; picker_b = (p.picker_b + 7) % 2 ^ 64 },
          ))
      × (i < length p.slots)
      × ((i ≡ a) ⊎ (i ≡ b))
      × (load p.slots i ≤ load p.slots a)
      × (load p.slots i ≤ load p.slots b)
unfolding pick_index sampled fetch_add
pick_index-least p two =
    let n = length p.slots in
    let (la, lb, ne) = candidates p n two in
    let (i, found, which, lo, hi) = lighter-least p.slots _ _ la lb in
    (
      index_a p n,
      index_b p n,
      i,
      indices-SampledAt p n,
      ne,
      pick_among-lighter n p i two found,
      picked_below p i la lb which,
      which,
      lo,
      hi,
    )

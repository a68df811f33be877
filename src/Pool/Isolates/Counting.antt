-- ===== src/Pool/Isolates/Counting.antt =====
-- What the pool's counters count: the dispatches under way on a slot and its rebuilds, and lemmas on
-- lists of them.
use native.Mathlib.Decide.{ℕ_discrete}
use nexide.Prelude.{
  ℕ, zero, suc, ◌+◌, ◌^◌, ◌≤◌, ◌<◌, ◌≡◌, ◌≢◌, ◌⊎◌, refl, sym, ◌∙◌, inl, inr, Bool, true, false,
  List, [], ◌∷◌, some, length, get_elem?, set, ◌==◌, if◌then◌else◌, arith, length-set,
  get_elem?-set_self, get_elem?-set_ne, lt_of_get_elem?,
}
use nexide.Pool.Isolates.{Slot, Dispatch, PoolInner, fetch_add, fetch_dec, remove_at}

-- One if the indices are the same.
unfoldable pub hit : ℕ → ℕ → ℕ
hit j i = if j == i then 1 else 0

pub hit_le : (j i : ℕ) → hit j i ≤ 1
unfolding hit
hit_le j i = ground arith

pub hit_same : (j i : ℕ) → j ≡ i → hit j i ≡ 1
unfolding hit
hit_same j i e = ground arith

pub hit_other : (j i : ℕ) → j ≢ i → hit j i ≡ 0
unfolding hit
hit_other j i e = ground arith

-- The dispatches under way on slot `i`.
unfoldable pub running_at : ℕ → List Dispatch → ℕ
unfolding hit
running_at i [] = 0
running_at i (d ∷ ds) = hit d.slot i + running_at i ds

-- The rebuilds under way of slot `i`.
unfoldable pub building_at : ℕ → List ℕ → ℕ
unfolding hit
building_at i [] = 0
building_at i (j ∷ js) = hit j i + building_at i js

abbrev pub bit : Bool → ℕ
bit true = 1
bit false = 0

pub record SlotCounted (p : PoolInner) (i : ℕ) (s : Slot) : Type 0 where
  pub inflight : s.inflight ≡ running_at i p.running
  pub recycling : bit s.recycling ≡ building_at i p.building

unfoldable pub IsCounted : PoolInner → Type 0
IsCounted p = (i : ℕ) (s : Slot) → get_elem? p.slots i ≡ some s → SlotCounted p i s

pub slot_after_set :
    (slots : List Slot) (j : ℕ) (s' : Slot) (i : ℕ) (s : Slot)
    → get_elem? (set slots j s') i ≡ some s
    → ((j ≡ i) × (s ≡ s')) ⊎ ((j ≢ i) × (get_elem? slots i ≡ some s))
slot_after_set slots j s' i s h = elim (ℕ_discrete j i) [
  | yes same ↦
      let lt = lt_of_get_elem? _ i s h in
      let there = get_elem?-set_self slots j s' (omega (arith, length-set slots j s', lt, same)) in
      inl (same, ground arith)
  | no other ↦ inr (other, sym (get_elem?-set_ne slots s' other) ∙ h)
]

pub running_at_le : (i : ℕ) (ds : List Dispatch) → running_at i ds ≤ length ds
unfolding running_at
running_at_le i [] = omega arith
running_at_le i (d ∷ ds) =
    let le = running_at_le i ds in let one : hit d.slot i ≤ 1 = hit_le d.slot i in omega arith

pub running_at-remove_at :
    (i k : ℕ) (ds : List Dispatch) (d : Dispatch)
    → get_elem? ds k ≡ some d
    → running_at i ds ≡ hit d.slot i + running_at i (remove_at ds k)
unfolding running_at remove_at
running_at-remove_at i k [] d h = absurd (ground arith)
running_at-remove_at i zero (e ∷ ds) d h = let same : e ≡ d = ground arith in rw same refl
running_at-remove_at i (suc k) (e ∷ ds) d h = omega (arith, running_at-remove_at i k ds d h)

pub building_at-remove_at :
    (i k : ℕ) (js : List ℕ) (j : ℕ)
    → get_elem? js k ≡ some j
    → building_at i js ≡ hit j i + building_at i (remove_at js k)
unfolding building_at remove_at
building_at-remove_at i k [] j h = absurd (ground arith)
building_at-remove_at i zero (e ∷ js) j h = let same : e ≡ j = ground arith in rw same refl
building_at-remove_at i (suc k) (e ∷ js) j h = omega (arith, building_at-remove_at i k js j h)

pub fetch_add_one : (n bound : ℕ) → n ≤ bound → bound + 1 < 2 ^ 64 → fetch_add n 1 ≡ suc n
unfolding fetch_add
fetch_add_one n bound le room = omega arith

pub fetch_dec_one : (n : ℕ) → suc n < 2 ^ 64 → fetch_dec (suc n) ≡ n
unfolding fetch_dec
fetch_dec_one n room = omega arith

-- A pool with the same slots and tasks is counted as well.
pub IsCounted-same :
    (p p' : PoolInner)
    → p'.slots ≡ p.slots
    → p'.running ≡ p.running
    → p'.building ≡ p.building
    → IsCounted p
    → IsCounted p'
unfolding IsCounted
IsCounted-same p p' es er eb c i s at =
    let old = c i s (rw es at at) in
    record { inflight = rw er old.inflight; recycling = rw eb old.recycling }

-- ===== src/Engine/HandleTable.antt =====
-- crates/nexide/src/engine/v8_engine/handle_table.rs: the table that gives JavaScript integer handles
-- on resources. The hash map is a list of its entries with distinct keys.
pub mod Handles
use nexide.Prelude.{
  ℕ, ◌+◌, max, Bool, true, false, List, [], ◌∷◌, Option, none, some, ◌==◌, if◌then◌else◌,
}
use nexide.Prelude.Words.{wrapping_succ}

module _ {ℓ} {A : Type ℓ} where
  -- `map.get(&id)`
  unfoldable pub find : ℕ → List (ℕ × A) → Option A
  find id [] = none
  find id ((key, value) ∷ map) = if key == id then some value else find id map

  -- What `map.remove(&id)` leaves.
  unfoldable pub forget : ℕ → List (ℕ × A) → List (ℕ × A)
  forget id [] = []
  forget id ((key, value) ∷ map) =
      let rest = forget id map in if key == id then rest else (key, value) ∷ rest

pub record HandleTable {ℓ} (A : Type ℓ) : Type ℓ where
  pub next_id : ℕ
  pub map : List (ℕ × A)

module _ {ℓ} {A : Type ℓ} where
  unfoldable pub empty_table : HandleTable A
  empty_table = record { next_id = 1; map = [] }

  -- `HandleTable::insert`: the id wraps around past zero.
  unfoldable pub insert_handle : HandleTable A → A → ℕ × HandleTable A
  unfolding forget
  insert_handle t value = (
    t.next_id,
    record {
      next_id = max (wrapping_succ t.next_id) 1;
      map = (t.next_id, value) ∷ forget t.next_id t.map;
    },
  )

  -- `HandleTable::take`
  unfoldable pub take_handle : HandleTable A → ℕ → Option A × HandleTable A
  unfolding find forget
  take_handle t id = (find id t.map, record t { map = forget id t.map })

  unfoldable pub is_some : Option A → Bool
  is_some none = false
  is_some (some a) = true

  -- `HandleTable::remove`
  unfoldable pub remove_handle : HandleTable A → ℕ → Bool × HandleTable A
  unfolding is_some find forget
  remove_handle t id = (is_some (find id t.map), record t { map = forget id t.map })

  -- `HandleTable::with`, up to the use of the resource.
  unfoldable pub with_handle : HandleTable A → ℕ → Option A
  unfolding find
  with_handle t id = find id t.map

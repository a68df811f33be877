-- ===== src/Engine/HandleTable/Handles.antt =====
-- About handles and the resources they were given for.
use nexide.Prelude.{
  ℕ, suc, ◌+◌, ◌^◌, ◌≤◌, ◌<◌, ◌≡◌, ◌≢◌, refl, ◌∙◌, inl, inr, true, false, List, [], ◌∷◌, none, some,
  length, arith, Bool-cases, ◌==◌,
}
use nexide.Engine.HandleTable.{
  find, forget, HandleTable, insert_handle, take_handle, remove_handle, with_handle,
}

-- A call on the table. A `with` changes nothing.
pub data HandleCall {ℓ} (A : Type ℓ) : Type ℓ where
  insert_call : A → HandleCall A
  take_call : ℕ → HandleCall A
  remove_call : ℕ → HandleCall A

module _ {ℓ} {A : Type ℓ} where
  find-forget_same : (id : ℕ) (map : List (ℕ × A)) → find id (forget id map) ≡ none
  unfolding find forget
  find-forget_same id [] = refl
  find-forget_same id ((key, value) ∷ map) = elim (Bool-cases (key == id)) [
    | inl t ↦ rw (forget, t) (find-forget_same id map)
    | inr f ↦ rw (forget, f, find, f) (find-forget_same id map)
  ]

  find-forget_other :
      (id other : ℕ) (map : List (ℕ × A)) → id ≢ other → find other (forget id map) ≡ find other map
  unfolding find forget
  find-forget_other id other [] ne = refl
  find-forget_other id other ((key, value) ∷ map) ne = elim (Bool-cases (key == id)) [
    | inl t ↦
        let skip : (key == other) ≡ false = ground arith in
        rw (forget, t, find, skip) (find-forget_other id other map ne)
    | inr f ↦ rw (forget, f, find, find-forget_other id other map ne) refl
  ]

  unfoldable pub run_handle_call : HandleTable A → HandleCall A → HandleTable A
  unfolding insert_handle take_handle remove_handle
  run_handle_call t (insert_call value) = (insert_handle t value).1
  run_handle_call t (take_call id) = (take_handle t id).1
  run_handle_call t (remove_call id) = (remove_handle t id).1

  unfoldable pub run_handle_calls : HandleTable A → List (HandleCall A) → HandleTable A
  unfolding run_handle_call
  run_handle_calls t [] = t
  run_handle_calls t (call ∷ calls) = run_handle_calls (run_handle_call t call) calls

  -- No call takes or removes the handle.
  unfoldable pub Keeps : ℕ → List (HandleCall A) → Type 0
  Keeps id [] = Unit
  Keeps id (insert_call value ∷ calls) = Keeps id calls
  Keeps id (take_call j ∷ calls) = (j ≢ id) × Keeps id calls
  Keeps id (remove_call j ∷ calls) = (j ≢ id) × Keeps id calls

  -- The next id, as long as it does not wrap around.
  next_handle :
      (t : HandleTable A) (value : A)
      → t.next_id + 1 < 2 ^ 32
      → (insert_handle t value).1.next_id ≡ suc t.next_id
  unfolding insert_handle
  next_handle t value room = omega arith

  insert_other :
      (t : HandleTable A) (value : A) (id : ℕ)
      → id < t.next_id
      → with_handle (insert_handle t value).1 id ≡ with_handle t id
  unfolding insert_handle with_handle
  insert_other t value id lt =
      let skip : (t.next_id == id) ≡ false = ground arith in
      rw (find, skip) (find-forget_other t.next_id id t.map (λ e. absurd (omega arith)))

  -- What is found under an id that was given before stays under it.
  kept_below :
      (t : HandleTable A) (calls : List (HandleCall A)) (id : ℕ)
      → id < t.next_id
      → t.next_id + length calls < 2 ^ 32
      → Keeps id calls
      → with_handle (run_handle_calls t calls) id ≡ with_handle t id
  unfolding run_handle_calls run_handle_call Keeps with_handle
  kept_below t [] id lt room keeps = refl
  kept_below t (insert_call value ∷ calls) id lt room keeps =
      let next = next_handle t value (omega arith) in
      kept_below (insert_handle t value).1 calls id (omega arith) (omega arith) keeps
      ∙ insert_other t value id lt
  kept_below t (take_call j ∷ calls) id lt room (ne, keeps) =
      kept_below _ calls id lt (omega arith) keeps ∙ find-forget_other j id t.map ne
  kept_below t (remove_call j ∷ calls) id lt room (ne, keeps) =
      kept_below _ calls id lt (omega arith) keeps ∙ find-forget_other j id t.map ne

  -- While ids have not wrapped around, a handle that `insert` gave is not zero and finds its
  -- resource after any further calls that neither take nor remove it: no later insert gives the
  -- same handle.
  pub insert_handle-kept :
      (t : HandleTable A) (value : A) (calls : List (HandleCall A))
      → 1 ≤ t.next_id
      → suc t.next_id + length calls < 2 ^ 32
      → Keeps (insert_handle t value).0 calls
      → (1 ≤ (insert_handle t value).0)
        × (with_handle (run_handle_calls (insert_handle t value).1 calls) (insert_handle t value).0
            ≡ some value)
  unfolding insert_handle with_handle find
  insert_handle-kept t value calls pos room keeps =
      let next = next_handle t value (omega arith) in
      let same : (t.next_id == t.next_id) ≡ true = ground arith in
      (
        pos,
        kept_below (insert_handle t value).1 calls t.next_id (omega arith) (omega arith) keeps
            ∙ rw (find, same) refl,
      )

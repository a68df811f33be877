-- ===== src/Ops/DispatchTable/Survival.antt =====
-- About requests in flight that an operation leaves alone.
use native.Mathlib.Decide.{ℕ_discrete}
use nexide.Prelude.{
  ◌≡◌, ◌∙◌, ◌≢◌, inl, inr, some, arith, get_elem?, get_elem?-set_self, get_elem?-set_ne,
  lt_of_get_elem?,
}
use nexide.Prelude.Results.{ok}
use nexide.Ops.DispatchTable.{DispatchTable, occupied, InFlight, RequestId, get, write}
use nexide.Ops.DispatchTable.Invariant.{
  IsValid, insert-IsValid, get_inv, get_occupied, after_remove,
}
use nexide.Ops.DispatchTable.Steps.{
  TableStep, insert_step, remove_step, write_step, fail_step, insert_unique, remove_inv,
}

-- The steps that end the request with id `j`.
abbrev pub Ends : (j : RequestId) {t t' : DispatchTable} → TableStep t t' → Type 0
Ends j (insert_step request c id room e) = ⊥
Ends j (remove_step id x e) = id ≡ j
Ends j (write_step id x y found same) = ⊥
Ends j (fail_step failure n sent e) = Unit {0}

-- Where the slot is the same, so is the answer.
found_of_slot :
    (t t' : DispatchTable) (j : RequestId) (x : InFlight)
    → get t j ≡ ok x
    → get_elem? t'.slots j.index ≡ get_elem? t.slots j.index
    → get t' j ≡ ok x
found_of_slot t t' j x h e = get_occupied t' j.index j.generation x (e ∙ get_inv t j x h)

-- Two live ids of one slot are the same id.
same_id :
    (t : DispatchTable) (i j : RequestId) (x y : InFlight)
    → get t i ≡ ok x
    → get t j ≡ ok y
    → i.index ≡ j.index
    → i ≡ j
same_id t i j x y hi hj e =
    let at = get_inv t i x hi in
    let at' : get_elem? t.slots i.index ≡ some (occupied j.generation y) =
      rw e (get_inv t j y hj) in
    let g : i.generation ≡ j.generation = ground arith in ground arith

-- As long as a step does not remove `j` and does not fail everything, a request found under `j`
-- is found under `j` after it, though a write may have changed it.
pub step_keeps_found :
    {t t' : DispatchTable} (st : TableStep t t') (j : RequestId) (x : InFlight)
    → IsValid t
    → ¬ Ends j st
    → get t j ≡ ok x
    → (y : InFlight) × (get t' j ≡ ok y)
unfolding write
step_keeps_found (insert_step {t} {t'} request c id room e) j x v n h =
    let r = insert-IsValid t request c v room in
    let other : j.index ≢ r.id.index = λ same. elim r.unused [
      | inl gone ↦ absurd (ground (arith, get_inv t j x h))
      | inr (next, free) ↦ absurd (ground (arith, get_inv t j x h))
    ] in
    rw ((insert_unique r e).1) ((x, found_of_slot t r.table j x h (r.frame j.index other)))
step_keeps_found (remove_step {t} {t'} id y e) j x v n h =
    let (found, same) = remove_inv t id y t' e in
    let other : id.index ≢ j.index = λ same. n (same_id t id j y x found h same) in
    rw same ((x, found_of_slot t (after_remove t id) j x h (get_elem?-set_ne t.slots _ other)))
step_keeps_found (write_step {t} {t'} id y z found same) j x v n h =
    elim (ℕ_discrete id.index j.index) [
      | yes at ↦
          let one : id ≡ j = same_id t id j y x found h at in
          rw (same, ← one)
            ((
              z,
              get_occupied _ id.index id.generation z (
                  get_elem?-set_self t.slots id.index _
                    (lt_of_get_elem? t.slots id.index _ (get_inv t id y found))),
            ))
      | no other ↦
          rw same ((x, found_of_slot t (write t id z) j x h (get_elem?-set_ne t.slots _ other)))
    ]
step_keeps_found (fail_step failure n sent e) j x v live h = absurd (live tt)

-- ===== src/Ops/DispatchTable/Aging.antt =====
-- About request ids whose slot is used again.
use native.Mathlib.Decide.{ℕ_discrete}
use native.Mathlib.Nat.{zero-add, suc-add}
use nexide.Prelude.{
  ℕ, zero, suc, ◌+◌, ◌%◌, ◌≤◌, ◌<◌, ◌≡◌, refl, ap, ◌∙◌, ◌≢◌, ◌⊎◌, inl, inr, Option, some, List, [],
  ◌∷◌, arith, length, get_elem?, set, get_elem?-set_self, get_elem?-set_ne, lt_of_get_elem?, ltb,
  Bool-cases,
}
use nexide.Prelude.Words.{u32_mod, wrapping_succ}
use nexide.Prelude.Results.{ok}
use nexide.Prelude.Options.{>>=-eq-some}
use nexide.Ops.Request.{RequestSlot}
use nexide.Ops.DispatchTable.{
  DispatchTable, Slot, vacant, occupied, InFlight, new_inflight, RequestId, RequestFailure,
  Delivery, Drained, get, write, remove, notify, drain, fail_all,
}
use nexide.Ops.DispatchTable.Invariant.{IsValid, Inserted, insert-IsValid, get_inv}
use nexide.Ops.DispatchTable.Steps.{
  TableStep, insert_step, remove_step, write_step, fail_step, Reach, start, after, insert_unique,
  remove_inv, TableStep-IsValid, Reach-IsValid,
}

abbrev pub generation_of : Slot → ℕ
generation_of (vacant g next) = g
generation_of (occupied g x) = g

-- A slot's generation stays, or is the next one.
abbrev Advances : Slot → Slot → Type 0
Advances s s' =
    (generation_of s' ≡ generation_of s) ⊎ (generation_of s' ≡ wrapping_succ (generation_of s))

-- The slot `j` is still there, and has aged by one generation at most.
abbrev AgesAt : List Slot → List Slot → ℕ → Type 0
AgesAt slots slots' j =
    (s : Slot)
    → get_elem? slots j ≡ some s
    → (s' : Slot) × (get_elem? slots' j ≡ some s') × Advances s s'

AgesAt-same :
    (slots slots' : List Slot) (j : ℕ)
    → get_elem? slots' j ≡ get_elem? slots j
    → AgesAt slots slots' j
AgesAt-same slots slots' j e s at = (s, e ∙ at, inl refl)

AgesAt-set :
    (slots : List Slot) (i : ℕ) (s s' : Slot) (j : ℕ)
    → get_elem? slots i ≡ some s
    → Advances s s'
    → AgesAt slots (set slots i s') j
AgesAt-set slots i s s' j at a = elim (ℕ_discrete i j) [
  | yes same ↦ λ x here.
      let e : x ≡ s = cc in
      (s', rw (← same) (get_elem?-set_self slots i s' (lt_of_get_elem? slots i s at)), rw e a)
  | no other ↦ AgesAt-same slots (set slots i s') j (get_elem?-set_ne slots s' other)
]

AgesAt-cons :
    (s s' : Slot) (ss ss' : List Slot) (j : ℕ)
    → Advances s s'
    → ((k : ℕ) → AgesAt ss ss' k)
    → AgesAt (s ∷ ss) (s' ∷ ss') j
AgesAt-cons s s' ss ss' zero a rest x here = let e : x ≡ s = ground arith in (s', refl, rw e a)
AgesAt-cons s s' ss ss' (suc j) a rest x here = rest j x here

drain-AgesAt :
    (failure : ℕ → RequestFailure) (raw : ℕ) (free : Option ℕ) (count : ℕ) (ss : List Slot)
    (d : Drained) (j : ℕ)
    → drain failure raw free count ss ≡ some d
    → AgesAt ss d.slots j
unfolding drain
drain-AgesAt failure raw free count [] d j e = λ s at. absurd (ground arith)
drain-AgesAt failure raw free count (vacant g next ∷ ss) d j e =
    let (d', e', same) = >>=-eq-some (drain failure (suc raw) free count ss) _ e in
    let shape : d.slots ≡ vacant g next ∷ d'.slots = ground arith in
    rw shape (
      AgesAt-cons _ _ ss d'.slots j (inl refl)
        (λ k. drain-AgesAt failure (suc raw) free count ss d' k e'))
drain-AgesAt failure raw free count (occupied g x ∷ ss) d j e =
    elim (Bool-cases (ltb raw u32_mod)) [
      | inl fits ↦
          let sent = notify failure count x.completion in
          let count' = count + length sent in
          let (d', e', same) =
            >>=-eq-some (drain failure (suc raw) (some raw) count' ss) _ (rw fits at e) in
          let shape : d.slots ≡ vacant (wrapping_succ g) free ∷ d'.slots = ground arith in
          rw shape (
            AgesAt-cons _ _ ss d'.slots j (inr refl)
              (λ k. drain-AgesAt failure (suc raw) (some raw) count' ss d' k e'))
      | inr over ↦ absurd (ground arith)
    ]

fail_all-AgesAt :
    (failure : ℕ → RequestFailure) (t t' : DispatchTable) (n : ℕ) (sent : List Delivery) (j : ℕ)
    → fail_all failure t ≡ some (t', n, sent)
    → AgesAt t.slots t'.slots j
unfolding fail_all
fail_all-AgesAt failure t t' n sent j e =
    let (d, e', same) = >>=-eq-some (drain failure 0 t.free_head 0 t.slots) _ e in
    let shape : t'.slots ≡ d.slots = ground arith in
    rw shape (drain-AgesAt failure 0 t.free_head 0 t.slots d j e')

-- At the slot that `insert` takes nothing ages: it was vacant with the new id's generation.
insert-AgesAt :
    (t : DispatchTable) (request : RequestSlot) (c : ℕ) (r : Inserted t request c) (j : ℕ)
    → AgesAt t.slots r.table.slots j
insert-AgesAt t request c r j = elim (ℕ_discrete j r.id.index) [
  | yes same ↦ λ s at.
      let here = get_inv r.table r.id _ r.found in
      let old : get_elem? t.slots r.id.index ≡ some s = rw (← same) at in
      (
        occupied r.id.generation (new_inflight request c),
        rw same here,
        elim r.unused [
          | inl gone ↦ absurd (ground arith)
          | inr (next, free) ↦
              let e : s ≡ vacant r.id.generation next = ground arith in rw e (inl refl)
        ],
      )
  | no other ↦ AgesAt-same t.slots r.table.slots j (r.frame j other)
]

TableStep-AgesAt :
    {t t' : DispatchTable} (j : ℕ) → TableStep t t' → IsValid t → AgesAt t.slots t'.slots j
unfolding write
TableStep-AgesAt j (insert_step {t} {t'} request c id room e) v =
    let r = insert-IsValid t request c v room in
    rw ((insert_unique r e).1) (insert-AgesAt t request c r j)
TableStep-AgesAt j (remove_step {t} {t'} id x e) v =
    let (found, same) = remove_inv t id x t' e in
    rw same
      (AgesAt-set t.slots id.index (occupied id.generation x) _ j (get_inv t id x found) (inr refl))
TableStep-AgesAt j (write_step {t} {t'} id x y found same) v =
    rw same
      (AgesAt-set t.slots id.index (occupied id.generation x) _ j (get_inv t id x found) (inl refl))
TableStep-AgesAt j (fail_step {t} {t'} failure n sent e) v = fail_all-AgesAt failure t t' n sent j e

-- The slot of a settled id: `m` generations on, at least one and at most `k`.
record IsPast (id : RequestId) (k : ℕ) (t : DispatchTable) : Type 0 where
  slot : Slot
  at : get_elem? t.slots id.index ≡ some slot
  age : ℕ
  started : 1 ≤ age
  bounded : age ≤ k
  aged : generation_of slot ≡ (id.generation + age) % u32_mod

step-IsPast :
    (id : RequestId) (k : ℕ) {t t' : DispatchTable}
    → TableStep t t'
    → IsValid t
    → IsPast id k t
    → IsPast id (suc k) t'
step-IsPast id k {t} {t'} st v p =
    let (s', at, a) = TableStep-AgesAt id.index st v p.slot p.at in
    elim a [
      | inl same ↦ record {
        slot = s';
        at = at;
        age = p.age;
        started = p.started;
        bounded = omega (arith, p.bounded);
        aged = same ∙ p.aged;
      }
      | inr moved ↦ record {
        slot = s';
        at = at;
        age = suc p.age;
        started = omega arith;
        bounded = omega (arith, p.bounded);
        aged = omega (arith, moved, p.aged);
      }
    ]

Reach-IsPast :
    (id : RequestId) (k : ℕ) {s t : DispatchTable} {n : ℕ}
    → Reach s n t
    → IsValid s
    → IsPast id k s
    → IsPast id (n + k) t
Reach-IsPast id k start v p = rw zero-add p
Reach-IsPast id k (after {n} r st) v p =
    rw suc-add (step-IsPast id (n + k) st (Reach-IsValid r v) (Reach-IsPast id k r v p))

past_not_found :
    (id : RequestId) (k : ℕ) (t : DispatchTable) (y : InFlight)
    → k < u32_mod
    → IsPast id k t
    → get t id ≢ ok y
past_not_found id k t y small p = λ found.
    let here = get_inv t id y found in
    let e : p.slot ≡ occupied id.generation y = ground (arith, p.at, here) in
    let g : generation_of p.slot ≡ id.generation = ap generation_of e in
    omega (arith, p.aged, p.started, p.bounded, g)

-- A removed id never finds a request again, whatever the next `n` operations are, as long as
-- `n + 1` is below `2 ^ 32`: the generation counter rules out the ABA confusion.
pub removed_stays_dead :
    (t t1 t2 : DispatchTable) (id : RequestId) (x y : InFlight) (n : ℕ)
    → IsValid t
    → remove t id ≡ ok (x, t1)
    → Reach t1 n t2
    → n + 1 < u32_mod
    → get t2 id ≢ ok y
removed_stays_dead t t1 t2 id x y n v e r small =
    let (found, same) = remove_inv t id x t1 e in
    let at = get_inv t id x found in
    let past : IsPast id 1 t1 = rw same (record {
      slot = vacant (wrapping_succ id.generation) t.free_head;
      at = get_elem?-set_self t.slots id.index _ (lt_of_get_elem? t.slots id.index _ at);
      age = 1;
      started = omega arith;
      bounded = omega arith;
      aged = refl;
    }) in
    past_not_found id (n + 1) t2 y small
      (Reach-IsPast id 1 r (TableStep-IsValid (remove_step id x e) v) past)

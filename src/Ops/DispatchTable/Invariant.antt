-- ===== src/Ops/DispatchTable/Invariant.antt =====
-- The well-formedness of the arena, and its operations one by one.
use nexide.Prelude.{
  ℕ, ◌+◌, ◌-◌, ◌≤◌, ◌<◌, ◌≡◌, refl, ap, ◌∙◌, inl, inr, Option, none, some, List, [], ◌∷◌, ◌++◌,
  true, arith, length, length-append, get_elem?, set, length-set, get_elem?-set_self,
  get_elem?-set_ne, get_elem?-append_ne, get_elem?_beyond, sym, ◌≢◌, ◌⊎◌, get_elem?-append_length,
  lt_of_get_elem?, Option-cases, lt→ltb, ltb,
}
use nexide.Prelude.Words.{u32_mod, u32_max, wrapping_succ, saturating_succ}
use nexide.Prelude.Results.{ok, err}
use nexide.Ops.Request.{RequestSlot}
use nexide.Ops.DispatchTable.{
  DispatchTable, Slot, vacant, occupied, InFlight, new_inflight, RequestId, new, get, slot_mut,
  write, insert, remove, validate, out_of_range, released,
}
use nexide.Ops.DispatchTable.FreeList.{
  Chain, IsFreeList, occupied_count, occupied_count-set, occupied_count-append, release-IsFreeList,
  activate-IsFreeList, overwrite-IsFreeList, grow-IsFreeList, head_vacant, full_of_no_head,
}

pub record IsValid (t : DispatchTable) : Type 0 where
  pub free : List ℕ
  pub listed : IsFreeList t.slots t.free_head free
  pub counted : t.in_flight ≡ occupied_count t.slots
  pub sized : length t.slots ≤ u32_max

pub new-IsValid : IsValid new
unfolding occupied_count
new-IsValid = record {
  free = [];
  listed = record { chain = refl; distinct = tt; complete = refl };
  counted = refl;
  sized = omega arith;
}

-- Both lookups answer from the slot at the index.
pub get_occupied :
    (t : DispatchTable) (i g : ℕ) (x : InFlight)
    → get_elem? t.slots i ≡ some (occupied g x)
    → get t (record { index = i; generation = g }) ≡ ok x
unfolding get
get_occupied t i g x e = rw (e, get) (ground arith)

pub get_vacant :
    (t : DispatchTable) (id : RequestId) (g : ℕ) (next : Option ℕ)
    → get_elem? t.slots id.index ≡ some (vacant g next)
    → get t id ≡ err (released id.index)
unfolding get
get_vacant t id g next e = rw (e, get)

-- The inversion: what `get` gives stands in an occupied slot with the generation asked for.
validate_inv :
    (id : RequestId) (s : Slot) (x : InFlight) → validate id s ≡ ok x → s ≡ occupied id.generation x
unfolding validate
validate_inv id (occupied g y) x h = ground arith
validate_inv id (vacant g next) x h = cc

slot_inv :
    (id : RequestId) (o : Option Slot) (x : InFlight)
    → (elim o [ none ↦ err (out_of_range id.index) | some s ↦ validate id s ]) ≡ ok x
    → o ≡ some (occupied id.generation x)
slot_inv id none x h = cc
slot_inv id (some s) x h = ap some (validate_inv id s x h)

pub get_inv :
    (t : DispatchTable) (id : RequestId) (x : InFlight)
    → get t id ≡ ok x
    → get_elem? t.slots id.index ≡ some (occupied id.generation x)
unfolding get
get_inv t id x h = slot_inv id (get_elem? t.slots id.index) x h

pub slot_mut-eq-get : (t : DispatchTable) (id : RequestId) → slot_mut t id ≡ get t id
unfolding slot_mut get
slot_mut-eq-get t id = refl

-- The id's slot was not occupied, and if it existed its generation was the id's.
abbrev pub Unused : DispatchTable → RequestId → Type 0
Unused t id =
    (get_elem? t.slots id.index ≡ none)
    ⊎ ((next : Option ℕ) × (get_elem? t.slots id.index ≡ some (vacant id.generation next)))

-- The new slots: the id's vacant slot is filled, or one is added.
abbrev pub Placed : DispatchTable → RequestId → Slot → List Slot → Type 0
Placed t id s slots =
    ((next : Option ℕ) × (get_elem? t.slots id.index ≡ some (vacant id.generation next))
      × (slots ≡ set t.slots id.index s))
    ⊎ (slots ≡ t.slots ++ s ∷ [])

-- The outcome of an `insert` that works: the id's slot holds the new request, and was free.
pub record Inserted (t : DispatchTable) (request : RequestSlot) (c : ℕ) : Type 0 where
  pub id : RequestId
  pub table : DispatchTable
  pub inserts : insert t request c ≡ some (id, table)
  pub valid : IsValid table
  pub found : get table id ≡ ok (new_inflight request c)
  pub counted : table.in_flight ≡ t.in_flight + 1
  pub frame : (j : ℕ) → j ≢ id.index → get_elem? table.slots j ≡ get_elem? t.slots j
  pub unused : Unused t id
  pub shape : Placed t id (occupied id.generation (new_inflight request c)) table.slots

saturating_succ_below : (n : ℕ) → n < u32_max → saturating_succ n ≡ n + 1
saturating_succ_below n h = omega arith

-- `insert` with a free list: the head slot is taken, with its pending generation.
insert_reuse :
    (t : DispatchTable) (request : RequestSlot) (c i : ℕ)
    → t.free_head ≡ some i
    → IsValid t
    → Inserted t request c
unfolding insert
insert_reuse t request c i e v =
    let chain : Chain t.slots (some i) v.free = rw e at v.listed.chain in
    let (g, next, rest, le, at) = head_vacant t.slots i v.free chain in
    let x = new_inflight request c in
    let listed : IsFreeList t.slots t.free_head (i ∷ rest) = rw le at v.listed in
    let slots = set t.slots i (occupied g x) in
    let count : occupied_count slots + 0 ≡ occupied_count t.slots + 1 =
      occupied_count-set t.slots i (vacant g next) (occupied g x) at in
    let room : t.in_flight < u32_max = omega (arith, listed.complete, v.counted, v.sized) in
    record {
      id = record { index = i; generation = g };
      table = record { slots = slots; free_head = next; in_flight = saturating_succ t.in_flight };
      inserts = ground arith;
      valid = record {
        free = rest;
        listed = activate-IsFreeList t.slots t.free_head rest i g next x at listed;
        counted = omega (arith, count, v.counted);
        sized = omega (arith, length-set t.slots i (occupied g x), v.sized);
      };
      found =
          get_occupied _ i g x (get_elem?-set_self t.slots i _ (lt_of_get_elem? t.slots i _ at));
      counted = saturating_succ_below t.in_flight room;
      frame = λ j ne. get_elem?-set_ne t.slots (occupied g x) (λ same. ne (sym same));
      unused = inr (next, at);
      shape = inl (next, at, refl);
    }

-- `insert` with no free slot: the arena grows by one.
insert_grow :
    (t : DispatchTable) (request : RequestSlot) (c : ℕ)
    → t.free_head ≡ none
    → t.in_flight < u32_max
    → IsValid t
    → Inserted t request c
unfolding insert occupied_count
insert_grow t request c e room v =
    let chain : Chain t.slots none v.free = rw e at v.listed.chain in
    let empty = full_of_no_head t.slots v.free chain in
    let x = new_inflight request c in
    let n = length t.slots in
    let full : occupied_count t.slots ≡ n =
      omega (arith, v.listed.complete, ap (length {A = ℕ}) empty) in
    let fits : ltb n u32_mod ≡ true = lt→ltb _ _ (omega (arith, full, v.counted)) in
    record {
      id = record { index = n; generation = 0 };
      table = record t {
        slots = t.slots ++ occupied 0 x ∷ [];
        in_flight = saturating_succ t.in_flight;
      };
      inserts = ground (arith, fits);
      valid = record {
        free = v.free;
        listed = grow-IsFreeList t.slots t.free_head v.free 0 x v.listed;
        counted = omega (arith, occupied_count-append t.slots (occupied 0 x ∷ []), v.counted);
        sized = omega (arith, length-append t.slots (occupied 0 x ∷ []), full, v.counted);
      };
      found = get_occupied _ n 0 x (get_elem?-append_length t.slots (occupied 0 x) []);
      counted = saturating_succ_below t.in_flight room;
      frame = λ j ne. get_elem?-append_ne t.slots (occupied 0 x) j ne;
      unused = inl (get_elem?_beyond t.slots n (omega arith));
      shape = inr refl;
    }

-- On a well-formed arena with fewer than `u32::MAX` requests in flight, `insert` never panics: it
-- gives an id under which the new request is found and whose slot was free, counts the request,
-- changes no other slot, and keeps the arena well formed.
pub insert-IsValid :
    (t : DispatchTable) (request : RequestSlot) (c : ℕ)
    → IsValid t
    → t.in_flight < u32_max
    → Inserted t request c
insert-IsValid t request c v room = elim (Option-cases t.free_head) [
  | inl e ↦ insert_grow t request c e room v
  | inr (i, e) ↦ insert_reuse t request c i e v
]

-- What `remove` gives for an id that `get` finds.
abbrev pub after_remove : DispatchTable → RequestId → DispatchTable
after_remove t id = record {
  slots = set t.slots id.index (vacant (wrapping_succ id.generation) t.free_head);
  free_head = some id.index;
  in_flight = t.in_flight - 1;
}

pub remove_found :
    (t : DispatchTable) (id : RequestId) (x : InFlight)
    → get t id ≡ ok x
    → remove t id ≡ ok (x, after_remove t id)
unfolding remove
remove_found t id x h = let e : slot_mut t id ≡ ok x = slot_mut-eq-get t id ∙ h in rw (e, remove)

pub after_remove-IsValid :
    (t : DispatchTable) (id : RequestId) (x : InFlight)
    → get t id ≡ ok x
    → IsValid t
    → IsValid (after_remove t id)
after_remove-IsValid t id x h v =
    let at = get_inv t id x h in
    let s' = vacant (wrapping_succ id.generation) t.free_head in
    record {
      free = id.index ∷ v.free;
      listed = release-IsFreeList t.slots t.free_head v.free id.index id.generation _ x at v.listed;
      counted =
          omega (
            arith,
            v.counted,
            occupied_count-set t.slots id.index (occupied id.generation x) s' at,
          );
      sized = omega (arith, length-set t.slots id.index s', v.sized);
    }

-- A write through the reference of `get_mut`.
pub write-IsValid :
    (t : DispatchTable) (id : RequestId) (x y : InFlight)
    → get t id ≡ ok x
    → IsValid t
    → IsValid (write t id y)
unfolding write
write-IsValid t id x y h v =
    let at = get_inv t id x h in
    let g = id.generation in
    record {
      free = v.free;
      listed = overwrite-IsFreeList t.slots t.free_head v.free id.index g g x y at v.listed;
      counted =
          omega (
            arith,
            v.counted,
            occupied_count-set t.slots id.index (occupied g x) (occupied g y) at,
          );
      sized = omega (arith, length-set t.slots id.index (occupied g y), v.sized);
    }

-- ===== src/Engine/Bridge/Answers.antt =====
-- Counting completion channels: those pending in the table and those answered.
use nexide.Prelude.{
  ℕ, zero, suc, ◌+◌, ◌≡◌, refl, ap, inl, inr, Option, none, some, List, [], ◌∷◌, ◌++◌, arith,
  get_elem?, get_elem?-set_self, lt_of_get_elem?, set, ◌==◌, if◌then◌else◌, map,
}
use nexide.Prelude.Words.{wrapping_succ}
use nexide.Prelude.Results.{Result, ok}
use nexide.Ops.Request.{RequestSlot}
use nexide.Ops.DispatchTable.{
  new_inflight, DispatchTable, Slot, vacant, occupied, InFlight, RequestId, Delivery, get, write,
  CompletionResult,
}
use nexide.Ops.DispatchTable.Invariant.{
  IsValid, Inserted, get_inv, get_occupied, after_remove, remove_found, after_remove-IsValid,
  write-IsValid,
}
use nexide.Ops.DispatchTable.Drain.{pending, channel_of, failures}
use nexide.Engine.Bridge.{OpError, answer, removed, TableOp}

-- How often channel `c` occurs.
unfoldable pub count : ℕ → List ℕ → ℕ
count c [] = 0
count c (d ∷ ds) = (if d == c then 1 else 0) + count c ds

pub count-append : (c : ℕ) (xs ys : List ℕ) → count c (xs ++ ys) ≡ count c xs + count c ys
unfolding count
count-append c [] ys = omega arith
count-append c (x ∷ xs) ys = omega (arith, count-append c xs ys)

-- The channels that a slot waits on.
abbrev pub waiting : Slot → List ℕ
waiting (vacant g next) = []
waiting (occupied g x) = channel_of x.completion

abbrev pub channels : List Delivery → List ℕ
channels = map (λ d. d.channel)

pending-cons : (s : Slot) (ss : List Slot) → pending (s ∷ ss) ≡ waiting s ++ pending ss
unfolding pending
pending-cons (vacant g next) ss = refl
pending-cons (occupied g x) ss = refl

count-pending-cons :
    (c : ℕ) (s : Slot) (ss : List Slot)
    → count c (pending (s ∷ ss)) ≡ count c (waiting s) + count c (pending ss)
count-pending-cons c s ss = rw pending-cons (count-append c (waiting s) (pending ss))

pub count-pending-set :
    (c : ℕ) (slots : List Slot) (i : ℕ) (s s' : Slot)
    → get_elem? slots i ≡ some s
    → count c (pending (set slots i s')) + count c (waiting s)
      ≡ count c (pending slots) + count c (waiting s')
count-pending-set c [] i s s' h = absurd (ground arith)
count-pending-set c (x ∷ xs) zero s s' h =
    let e : x ≡ s = ground arith in
    rw e (omega (arith, count-pending-cons c s xs, count-pending-cons c s' xs))
count-pending-set c (x ∷ xs) (suc i) s s' h = omega (
  arith,
  count-pending-cons c x xs,
  count-pending-cons c x (set xs i s'),
  count-pending-set c xs i s s' h,
)

count-pending-append :
    (c : ℕ) (slots : List Slot) (s : Slot)
    → count c (pending (slots ++ s ∷ [])) ≡ count c (waiting s) + count c (pending slots)
unfolding pending count
count-pending-append c [] s = count-pending-cons c s []
count-pending-append c (x ∷ xs) s = omega (
  arith,
  count-pending-cons c x xs,
  count-pending-cons c x (xs ++ s ∷ []),
  count-pending-append c xs s,
)

pub channels-failures :
    (failure : ℕ → _) (k : ℕ) (cs : List ℕ) → channels (failures failure k cs) ≡ cs
unfolding failures
channels-failures failure k [] = refl
channels-failures failure k (c ∷ cs) = ap (◌∷◌ c) (channels-failures failure (suc k) cs)

channels-answer :
    (o : Option ℕ) (result : CompletionResult) → channels (answer o result) ≡ channel_of o
unfolding answer
channels-answer none result = refl
channels-answer (some c) result = refl

pub get-write :
    (t : DispatchTable) (id : RequestId) (x y : InFlight)
    → get t id ≡ ok x
    → get (write t id y) id ≡ ok y
unfolding write
get-write t id x y h =
    let at = get_inv t id x h in
    get_occupied _ id.index id.generation y
      (get_elem?-set_self t.slots id.index _ (lt_of_get_elem? t.slots id.index _ at))

count-write :
    (c : ℕ) (t : DispatchTable) (id : RequestId) (x y : InFlight)
    → get t id ≡ ok x
    → count c (pending (write t id y).slots) + count c (channel_of x.completion)
      ≡ count c (pending t.slots) + count c (channel_of y.completion)
unfolding write
count-write c t id x y h =
    count-pending-set c t.slots id.index (occupied id.generation x) (occupied id.generation y)
      (get_inv t id x h)

pub removed_found :
    (t : DispatchTable) (id : RequestId) (x : InFlight)
    → get t id ≡ ok x
    → removed t id ≡ after_remove t id
unfolding removed
removed_found t id x h = rw (remove_found t id x h, removed)

count-after_remove :
    (c : ℕ) (t : DispatchTable) (id : RequestId) (x : InFlight)
    → get t id ≡ ok x
    → count c (pending (after_remove t id).slots) + count c (channel_of x.completion)
      ≡ count c (pending t.slots)
unfolding count
count-after_remove c t id x h = omega (
  arith,
  count-pending-set c t.slots id.index (occupied id.generation x)
      (vacant (wrapping_succ id.generation) t.free_head) (get_inv t id x h),
)

-- An op keeps the table well formed, and every channel that leaves it has got one delivery.
pub record Keeps (t : DispatchTable) (r : TableOp) : Type 0 where
  pub valid : IsValid r.1
  pub balanced :
      (c : ℕ) → count c (pending r.1.slots) + count c (channels r.2) ≡ count c (pending t.slots)

module _ (t : DispatchTable) (v : IsValid t) where
  pub Keeps-same : (o : Result OpError (Unit {0})) → Keeps t (o, t, [])
  unfolding count
  Keeps-same o = record { valid = v; balanced = λ c. omega arith }

  pub Keeps-write :
      (o : Result OpError (Unit {0})) (id : RequestId) (x y : InFlight)
      → get t id ≡ ok x
      → y.completion ≡ x.completion
      → Keeps t (o, write t id y, [])
  unfolding count
  Keeps-write o id x y h same = record {
    valid = write-IsValid t id x y h v;
    balanced = λ c. omega (arith, count-write c t id x y h, ap (λ o. count c (channel_of o)) same);
  }

  -- The completion is taken, the slot released, and the channel answered.
  pub Keeps-settle :
      (o : Result OpError (Unit {0})) (id : RequestId) (x y : InFlight) (result : CompletionResult)
      → get t id ≡ ok x
      → y.completion ≡ none
      → Keeps t (o, removed (write t id y) id, answer x.completion result)
  unfolding count
  Keeps-settle o id x y result h taken =
      let found = get-write t id x y h in
      let there = write-IsValid t id x y h v in
      record {
        valid =
            rw (removed_found (write t id y) id y found)
              (after_remove-IsValid (write t id y) id y found there);
        balanced = λ c. rw (removed_found (write t id y) id y found) (
            omega (
              arith,
              count-write c t id x y h,
              count-after_remove c (write t id y) id y found,
              ap (λ o. count c (channel_of o)) taken,
              ap (count c) (channels-answer x.completion result),
            ));
      }

-- A fresh request adds its channel.
pub count-insert :
    (c : ℕ) (t : DispatchTable) (request : RequestSlot) (d : ℕ) (r : Inserted t request d)
    → count c (pending r.table.slots) ≡ count c (d ∷ []) + count c (pending t.slots)
unfolding count new_inflight
count-insert c t request d r = elim r.shape [
  | inl (next, at, e) ↦
      let s' = occupied r.id.generation (new_inflight request d) in
      rw e
        (omega (arith, count-pending-set c t.slots r.id.index (vacant r.id.generation next) s' at))
  | inr e ↦
      rw e (count-pending-append c t.slots (occupied r.id.generation (new_inflight request d)))
]

-- ===== src/Ops/DispatchTable/Drain.antt =====
-- About `fail_all`, the shutdown path.
use mathlib.Core.List.{append_assoc}
use nexide.Prelude.{
  ℕ, suc, ◌+◌, ◌≤◌, ◌≡◌, refl, sym, ap, ◌∙◌, Option, none, some, List, [], ◌∷◌, ◌++◌, true, arith,
  length, length-append, get_elem?-append_length, set-append_length, lt→ltb, ltb,
}
use nexide.Prelude.Words.{u32_mod, u32_max, wrapping_succ}
use nexide.Prelude.Results.{err}
use nexide.Ops.DispatchTable.{
  DispatchTable, Slot, vacant, occupied, InFlight, Delivery, RequestFailure, Drained, notify, drain,
  fail_all,
}
use nexide.Ops.DispatchTable.FreeList.{IsFreeList, occupied_count, release-IsFreeList}
use nexide.Ops.DispatchTable.Invariant.{IsValid}

-- The channels that still wait, in the order of the slots.
abbrev pub channel_of : Option ℕ → List ℕ
channel_of none = []
channel_of (some c) = c ∷ []

unfoldable pub pending : List Slot → List ℕ
pending [] = []
pending (vacant g next ∷ ss) = pending ss
pending (occupied g x ∷ ss) = channel_of x.completion ++ pending ss

-- The failures in order, the first being call `k` of the closure.
unfoldable pub failures : (ℕ → RequestFailure) → ℕ → List ℕ → List Delivery
failures failure k [] = []
failures failure k (c ∷ cs) =
    record { channel = c; result = err (failure k) } ∷ failures failure (suc k) cs

pub record Drains (failure : ℕ → RequestFailure) (pre ss : List Slot) (failed : ℕ) (d : Drained)
    : Type 0 where
  pub free : List ℕ
  pub listed : IsFreeList (pre ++ d.slots) d.free_head free
  pub emptied : occupied_count d.slots ≡ 0
  pub kept : length d.slots ≡ length ss
  pub sent : d.sent ≡ failures failure failed (pending ss)
  pub failed_count : d.failed ≡ failed + length (pending ss)

notify-failures :
    (failure : ℕ → RequestFailure) (k : ℕ) (o : Option ℕ) (cs : List ℕ)
    → notify failure k o ++ failures failure (k + length (notify failure k o)) cs
      ≡ failures failure k (channel_of o ++ cs)
unfolding notify failures
notify-failures failure k none cs = ap (λ n. failures failure n cs) (omega arith)
notify-failures failure k (some c) cs =
    ap (λ n. record { channel = c; result = err (failure k) } ∷ failures failure n cs) (omega arith)

length-notify :
    (failure : ℕ → RequestFailure) (k : ℕ) (o : Option ℕ) (cs : List ℕ)
    → length (notify failure k o) + length cs ≡ length (channel_of o ++ cs)
unfolding notify
length-notify failure k none cs = omega arith
length-notify failure k (some c) cs = omega arith

Drains-vacant :
    (failure : ℕ → RequestFailure) (pre ss : List Slot) (g : ℕ) (next : Option ℕ) (failed : ℕ)
    (d : Drained)
    → Drains failure (pre ++ vacant g next ∷ []) ss failed d
    → Drains failure pre (vacant g next ∷ ss) failed (record d { slots = vacant g next ∷ d.slots })
unfolding pending occupied_count
Drains-vacant failure pre ss g next failed d r = record {
  free = r.free;
  listed = rw append_assoc at r.listed;
  emptied = omega (arith, r.emptied);
  kept = ap suc r.kept;
  sent = r.sent;
  failed_count = r.failed_count;
}

-- One round of the loop at an occupied slot.
Drains-occupied :
    (failure : ℕ → RequestFailure) (pre ss : List Slot) (g g' : ℕ) (next : Option ℕ) (x : InFlight)
    (failed : ℕ) (d : Drained)
    → Drains failure
        (pre ++ vacant g' next ∷ [])
        ss
        (failed + length (notify failure failed x.completion))
        d
    → Drains failure pre (occupied g x ∷ ss) failed (record d {
      slots = vacant g' next ∷ d.slots;
      sent = notify failure failed x.completion ++ d.sent;
    })
unfolding pending occupied_count
Drains-occupied failure pre ss g g' next x failed d r = record {
  free = r.free;
  listed = rw append_assoc at r.listed;
  emptied = omega (arith, r.emptied);
  kept = ap suc r.kept;
  sent =
      ap (◌++◌ (notify failure failed x.completion)) r.sent
      ∙ notify-failures failure failed x.completion (pending ss);
  failed_count =
      omega (arith, r.failed_count, length-notify failure failed x.completion (pending ss));
}

-- The slot that the loop releases next.
release_next :
    (pre ss : List Slot) (g g' : ℕ) (x : InFlight) (free : Option ℕ) (l : List ℕ)
    → IsFreeList (pre ++ occupied g x ∷ ss) free l
    → IsFreeList ((pre ++ vacant g' free ∷ []) ++ ss) (some (length pre)) (length pre ∷ l)
release_next pre ss g g' x free l f = rw (append_assoc pre (vacant g' free ∷ []) ss) (
    rw (set-append_length pre (occupied g x) (vacant g' free) ss) at (
      release-IsFreeList (pre ++ occupied g x ∷ ss) free l (length pre) g g' x
        (get_elem?-append_length pre (occupied g x) ss) f))

drain-Drains :
    (failure : ℕ → RequestFailure) (pre ss : List Slot) (raw : ℕ) (free : Option ℕ) (failed : ℕ)
    (l : List ℕ)
    → raw ≡ length pre
    → length (pre ++ ss) ≤ u32_max
    → IsFreeList (pre ++ ss) free l
    → (d : Drained) × (drain failure raw free failed ss ≡ some d) × Drains failure pre ss failed d
unfolding drain pending failures occupied_count
drain-Drains failure pre [] raw free failed l at sized f = (
  record { slots = []; free_head = free; failed = failed; sent = [] },
  refl,
  record {
    free = l;
    listed = f;
    emptied = refl;
    kept = refl;
    sent = refl;
    failed_count = omega arith;
  },
)
drain-Drains failure pre (vacant g next ∷ ss) raw free failed l at sized f =
    let s = vacant g next in
    let same = append_assoc pre (s ∷ []) ss in
    let (d, e, r) =
      drain-Drains failure (pre ++ s ∷ []) ss (suc raw) free failed l
        (omega (arith, at, length-append pre (s ∷ []))) (rw same sized) (rw same f) in
    (record d { slots = s ∷ d.slots }, rw e, Drains-vacant failure pre ss g next failed d r)
drain-Drains failure pre (occupied g x ∷ ss) raw free failed l at sized f =
    let s = vacant (wrapping_succ g) free in
    let failed' = failed + length (notify failure failed x.completion) in
    let shape = length-append pre (occupied g x ∷ ss) in
    let fits : ltb raw u32_mod ≡ true = lt→ltb _ _ (omega (arith, at, sized, shape)) in
    let more : length ((pre ++ s ∷ []) ++ ss) ≤ u32_max =
      omega (arith, sized, shape, length-append (pre ++ s ∷ []) ss, length-append pre (s ∷ [])) in
    let listed : IsFreeList ((pre ++ s ∷ []) ++ ss) (some raw) (raw ∷ l) =
      rw at (release_next pre ss g (wrapping_succ g) x free l f) in
    let (d, e, r) =
      drain-Drains failure (pre ++ s ∷ []) ss (suc raw) (some raw) failed' (raw ∷ l)
        (omega (arith, at, length-append pre (s ∷ []))) more listed in
    (
      record d { slots = s ∷ d.slots; sent = notify failure failed x.completion ++ d.sent },
      rw (fits, e),
      Drains-occupied failure pre ss g (wrapping_succ g) free x failed d r,
    )

-- What `fail_all` leaves: a well-formed arena of the same size with nothing in flight.
pub record AllFailed (failure : ℕ → RequestFailure) (t : DispatchTable) : Type 0 where
  pub table : DispatchTable
  pub count : ℕ
  pub sent : List Delivery
  pub fails : fail_all failure t ≡ some (table, count, sent)
  pub valid : IsValid table
  pub emptied : occupied_count table.slots ≡ 0
  pub capacity : length table.slots ≡ length t.slots
  pub answers : sent ≡ failures failure 0 (pending t.slots)
  pub counted : count ≡ length (pending t.slots)

-- On a well-formed arena `fail_all` never panics. It leaves a well-formed arena of the same
-- capacity with no slot occupied, and sends exactly one failure on each channel that still waits,
-- in slot order, the k-th being the k-th result of the closure; it returns their number.
pub fail_all-AllFailed :
    (failure : ℕ → RequestFailure) (t : DispatchTable) → IsValid t → AllFailed failure t
unfolding fail_all
fail_all-AllFailed failure t v =
    let (d, e, r) = drain-Drains failure [] t.slots 0 t.free_head 0 v.free refl v.sized v.listed in
    record {
      table = record { slots = d.slots; free_head = d.free_head; in_flight = 0 };
      count = d.failed;
      sent = d.sent;
      fails = rw e;
      valid = record {
        free = r.free;
        listed = r.listed;
        counted = sym r.emptied;
        sized = omega (arith, r.kept, v.sized);
      };
      emptied = r.emptied;
      capacity = r.kept;
      answers = r.sent;
      counted = omega (arith, r.failed_count);
    }

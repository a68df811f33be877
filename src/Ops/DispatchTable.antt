-- ===== src/Ops/DispatchTable.antt =====
-- crates/nexide/src/ops/dispatch_table.rs: the generational arena of in-flight requests.
-- A `oneshot::Sender` is the number of its channel; what is sent on it is a `Delivery`. The
-- `u32` counters keep their wrap-around, and a panic is `none`.
pub mod FreeList
pub mod Invariant
pub mod Drain
pub mod Steps
pub mod Aging
pub mod Survival
use nexide.Prelude.{
  ℕ, suc, ◌+◌, ◌-◌, List, [], ◌∷◌, ◌++◌, Option, none, some, length, get_elem?, set, ltb, ◌==◌,
  if◌then◌else◌,
}
use nexide.Prelude.Words.{u32_mod, wrapping_succ, saturating_succ}
use nexide.Prelude.Results.{Result, ok, err}
use nexide.Prelude.Options.{◌>>=◌}
use nexide.Ops.Request.{Bytes, RequestSlot}
use nexide.Ops.Response.{ResponseSlot, ResponsePayload}
use nexide.Ops.Response

pub data RequestFailure : Type 0 where
  handler : Bytes → RequestFailure
  cancelled : RequestFailure
  pump_died : Bytes → RequestFailure

abbrev pub CompletionResult : Type 0
CompletionResult = Result RequestFailure ResponsePayload

-- One `completion.send(result)`.
pub record Delivery : Type 0 where
  pub channel : ℕ
  pub result : CompletionResult

pub record InFlight : Type 0 where
  pub request : RequestSlot
  pub response : ResponseSlot
  pub completion : Option ℕ

-- `InFlight::new`
unfoldable pub new_inflight : RequestSlot → ℕ → InFlight
new_inflight request completion = record {
  request = request;
  response = Response.new;
  completion = some completion;
}

-- `take_completion`
unfoldable pub take_completion : InFlight → Option ℕ × InFlight
take_completion x = (x.completion, record x { completion = none })

pub record RequestId : Type 0 where
  pub index : ℕ
  pub generation : ℕ

pub data Slot : Type 0 where
  vacant : ℕ → Option ℕ → Slot
  occupied : ℕ → InFlight → Slot

pub data DispatchError : Type 0 where
  out_of_range : ℕ → DispatchError
  stale : ℕ → ℕ → DispatchError
  released : ℕ → DispatchError

pub record DispatchTable : Type 0 where
  pub slots : List Slot
  pub free_head : Option ℕ
  pub in_flight : ℕ

abbrev pub new : DispatchTable
new = record { slots = []; free_head = none; in_flight = 0 }

-- The `match slot` of `get` and `slot_mut`.
unfoldable pub validate : RequestId → Slot → Result DispatchError InFlight
validate id (occupied g x) = if g == id.generation then ok x else err (stale id.index g)
validate id (vacant g next) = err (released id.index)

-- `slot_mut`, and `get_mut` up to the use of the reference. The slot it points to is occupied with
-- the generation of `id`.
unfoldable pub slot_mut : DispatchTable → RequestId → Result DispatchError InFlight
unfolding validate
slot_mut t id = elim (get_elem? t.slots id.index) [
  | none ↦ err (out_of_range id.index)
  | some s ↦ validate id s
]

unfoldable pub get : DispatchTable → RequestId → Result DispatchError InFlight
unfolding validate
get t id = elim (get_elem? t.slots id.index) [
  | none ↦ err (out_of_range id.index)
  | some s ↦ validate id s
]

-- A write through the reference that `get_mut` gave for `id`.
unfoldable pub write : DispatchTable → RequestId → InFlight → DispatchTable
write t id x = record t { slots = set t.slots id.index (occupied id.generation x) }

-- The free list's next head.
unfoldable pub advance_free_list : DispatchTable → ℕ → Option (Option ℕ)
advance_free_list t index = elim (get_elem? t.slots index) [
  | none ↦ none
  | some (occupied g x) ↦ none
  | some (vacant g next) ↦ some next
]

-- The slot's pending generation, and the slots with the request in place.
unfoldable pub activate_vacant : List Slot → ℕ → InFlight → Option (ℕ × List Slot)
activate_vacant slots index x = elim (get_elem? slots index) [
  | none ↦ none
  | some (occupied g y) ↦ none
  | some (vacant g next) ↦ some (g, set slots index (occupied g x))
]

unfoldable pub insert : DispatchTable → RequestSlot → ℕ → Option (RequestId × DispatchTable)
unfolding new_inflight advance_free_list activate_vacant
insert t request completion = elim t.free_head [
  | some index ↦ do
    next ← advance_free_list t index
    (g, slots) ← activate_vacant t.slots index (new_inflight request completion)
    some (
      record { index = index; generation = g },
      record { slots = slots; free_head = next; in_flight = saturating_succ t.in_flight },
    )
  | none ↦
      if ltb (length t.slots) u32_mod
      then some (
        record { index = length t.slots; generation = 0 },
        record t {
          slots = t.slots ++ occupied 0 (new_inflight request completion) ∷ [];
          in_flight = saturating_succ t.in_flight;
        },
      )
      else none
]

unfoldable pub remove : DispatchTable → RequestId → Result DispatchError (InFlight × DispatchTable)
unfolding slot_mut
remove t id = elim (slot_mut t id) [
  | err e ↦ err e
  | ok x ↦ ok (
    x,
    record {
      slots = set t.slots id.index (vacant (wrapping_succ id.generation) t.free_head);
      free_head = some id.index;
      in_flight = t.in_flight - 1;
    },
  )
]

-- The state of the loop of `fail_all`: the slots passed, the free list, and what was sent.
pub record Drained : Type 0 where
  pub slots : List Slot
  pub free_head : Option ℕ
  pub failed : ℕ
  pub sent : List Delivery

-- `failure` is an `FnMut`: its argument is the number of calls made before.
unfoldable pub notify : (ℕ → RequestFailure) → ℕ → Option ℕ → List Delivery
notify failure failed none = []
notify failure failed (some c) = record { channel = c; result = err (failure failed) } ∷ []

unfoldable pub drain : (ℕ → RequestFailure) → ℕ → Option ℕ → ℕ → List Slot → Option Drained
unfolding notify
drain failure raw free failed [] =
    some (record { slots = []; free_head = free; failed = failed; sent = [] })
drain failure raw free failed (vacant g next ∷ ss) = do
  d ← drain failure (suc raw) free failed ss
  some (record d { slots = vacant g next ∷ d.slots })
drain failure raw free failed (occupied g x ∷ ss) =
    let sent = notify failure failed x.completion in
    let rest = drain failure (suc raw) (some raw) (failed + length sent) ss in
    if ltb raw u32_mod
    then (do
      d ← rest
      some (record d { slots = vacant (wrapping_succ g) free ∷ d.slots; sent = sent ++ d.sent }))
    else none

-- The drained table, the number of failed requests, and the deliveries.
unfoldable pub fail_all :
    (ℕ → RequestFailure) → DispatchTable → Option (DispatchTable × ℕ × List Delivery)
unfolding drain
fail_all failure t = do
  d ← drain failure 0 t.free_head 0 t.slots
  some (record { slots = d.slots; free_head = d.free_head; in_flight = 0 }, d.failed, d.sent)

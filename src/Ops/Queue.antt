-- ===== src/Ops/Queue.antt =====
-- crates/nexide/src/ops/queue.rs: the FIFO of request ids that wait for the JavaScript pump.
-- An `async` pop is its poll: `none` is the suspension on `notify`, after which the loop runs the
-- same poll again.
pub mod Order
use nexide.Prelude.{
  ℕ, zero, suc, ◌≡◌, Bool, true, false, List, [], ◌∷◌, ◌++◌, Option, none, some, length, min, max,
}
use nexide.Ops.DispatchTable.{RequestId}

pub record RequestQueue : Type 0 where
  pub pending : List RequestId

abbrev pub new : RequestQueue
new = record { pending = [] }

unfoldable pub push : RequestQueue → RequestId → RequestQueue
push q id = record { pending = q.pending ++ id ∷ [] }

-- One round of the loop in `pop`.
unfoldable pub poll_pop : RequestQueue → Option (RequestId × RequestQueue)
poll_pop q = elim q.pending [ [] ↦ none | id ∷ rest ↦ some (id, record { pending = rest }) ]

-- `for _ in 0..take { if let Some(id) = pending.pop_front() { out.push(id) } }`
unfoldable pub pop_front_times : ℕ → List RequestId → List RequestId × List RequestId
pop_front_times zero ids = ([], ids)
pop_front_times (suc n) [] = pop_front_times n []
pop_front_times (suc n) (id ∷ ids) = let (out, rest) = pop_front_times n ids in (id ∷ out, rest)

unfoldable pub try_pop_batch : RequestQueue → ℕ → List RequestId × RequestQueue
unfolding pop_front_times
try_pop_batch q m = elim q.pending [
  | [] ↦ ([], q)
  | id ∷ rest ↦
      let (out, left) = pop_front_times (min (length (id ∷ rest)) (max m 1)) (id ∷ rest) in
      (out, record { pending = left })
]

-- One round of the loop in `pop_batch`.
unfoldable pub poll_pop_batch : RequestQueue → ℕ → Option (List RequestId × RequestQueue)
unfolding pop_front_times
poll_pop_batch q m = elim q.pending [
  | [] ↦ none
  | id ∷ rest ↦
      let (out, left) = pop_front_times (min (length (id ∷ rest)) (max m 1)) (id ∷ rest) in
      some (out, record { pending = left })
]

unfoldable pub len : RequestQueue → ℕ
len q = length q.pending

unfoldable pub is_empty : RequestQueue → Bool
is_empty q = elim q.pending [ [] ↦ true | id ∷ rest ↦ false ]

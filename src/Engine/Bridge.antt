-- ===== src/Engine/Bridge.antt =====
-- crates/nexide/src/engine/v8_engine/ops_bridge.rs and engine.rs: the op calls by which JavaScript
-- takes requests and answers them, over the state of bridge.rs. A V8 promise resolver is a number;
-- what the ops do outside the state (deliveries on completion channels, resolved promises) is
-- returned. Decoding of the JavaScript arguments is left out: an op takes the decoded values.
pub mod Answers
pub mod Keeping
pub mod Conservation
pub mod Draining
pub mod Pump
pub mod Lifecycle
use nexide.Prelude.{
  ℕ, ◌≡◌, Bool, true, false, List, [], ◌∷◌, ◌++◌, Option, none, some, max, if◌then◌else◌,
}
use nexide.Prelude.Results.{Result, ok, err, map_err, ◌>>=◌}
use nexide.Prelude.Options
use nexide.Ops.Request.{Bytes, RequestMeta, HeaderPair, RequestSlot, read_body, is_empty}
use nexide.Ops.Response.{
  ResponseHead, ResponseSlot, ResponseError, ResponsePayload, send_head, send_chunk, finish,
}
use nexide.Ops.Response
use nexide.Ops.DispatchTable.{
  DispatchTable, DispatchError, InFlight, RequestId, RequestFailure, handler, pump_died,
  CompletionResult, Delivery, take_completion, slot_mut, get, write, insert, remove, fail_all,
}
use nexide.Ops.Queue.{RequestQueue, push, try_pop_batch}

pub record BridgeState : Type 0 where
  pub dispatch_table : DispatchTable
  pub queue : RequestQueue
  pub pending_pop : List ℕ
  pub pending_pop_batch : List (ℕ × ℕ)

-- The text thrown at JavaScript, by its source.
pub data OpError : Type 0 where
  table_error : DispatchError → OpError
  response_error : ResponseError → OpError

-- `if let Some(tx) = ... { let _ = tx.send(result) }`
unfoldable pub answer : Option ℕ → CompletionResult → List Delivery
answer none result = []
answer (some c) result = record { channel = c; result = result } ∷ []

-- `let _ = table.remove(id)`
unfoldable pub removed : DispatchTable → RequestId → DispatchTable
removed t id = elim (remove t id) [ ok (x, t') ↦ t' | err e ↦ t ]

-- An op on the dispatch table: its outcome, the table, and the deliveries.
abbrev pub TableOp : Type 0
TableOp = Result OpError (Unit {0}) × DispatchTable × List Delivery

-- The end of `settle_ok`, once the response is taken out of the slot and turned into `payload`.
unfoldable pub settle_payload : DispatchTable → RequestId → InFlight → ResponsePayload → TableOp
unfolding take_completion removed answer
settle_payload t id x payload =
    let (completion, x') = take_completion x in
    (ok tt, removed (write t id x') id, answer completion (ok payload))

-- `std::mem::take` leaves a fresh response in the slot, also if `finish` then fails.
unfoldable pub settle_ok : DispatchTable → RequestId → TableOp
unfolding settle_payload
settle_ok t id = elim (slot_mut t id) [
  | err e ↦ (err (table_error e), t, [])
  | ok x ↦ elim (finish x.response) [
    | err e ↦ (err (response_error e), write t id (record x { response = Response.new }), [])
    | ok payload ↦
        settle_payload (write t id (record x { response = Response.new })) id
          (record x { response = Response.new }) payload
  ]
]

unfoldable pub settle_err : DispatchTable → RequestId → Bytes → TableOp
unfolding take_completion removed answer
settle_err t id msg = elim (slot_mut t id) [
  | err e ↦ (err (table_error e), t, [])
  | ok x ↦
      let (completion, x') = take_completion x in
      (ok tt, removed (write t id x') id, answer completion (err (handler msg)))
]

-- `op_nexide_send_head`
unfoldable pub op_send_head : DispatchTable → RequestId → ResponseHead → TableOp
op_send_head t id head = elim (slot_mut t id) [
  | err e ↦ (err (table_error e), t, [])
  | ok x ↦ elim (send_head x.response head) [
    | err e ↦ (err (response_error e), t, [])
    | ok response ↦ (ok tt, write t id (record x { response = response }), [])
  ]
]

-- `op_nexide_send_chunk`
unfoldable pub op_send_chunk : DispatchTable → RequestId → Bytes → TableOp
op_send_chunk t id bytes = elim (slot_mut t id) [
  | err e ↦ (err (table_error e), t, [])
  | ok x ↦ elim (send_chunk x.response bytes) [
    | err e ↦ (err (response_error e), t, [])
    | ok response ↦ (ok tt, write t id (record x { response = response }), [])
  ]
]

-- `op_nexide_send_end`
unfoldable pub op_send_end : DispatchTable → RequestId → TableOp
unfolding settle_ok
op_send_end t id = settle_ok t id

-- `op_nexide_finish_error`, which drops the outcome of `settle_err`.
unfoldable pub op_finish_error : DispatchTable → RequestId → Bytes → TableOp
unfolding settle_err
op_finish_error t id msg = let (outcome, t', sent) = settle_err t id msg in (ok tt, t', sent)

-- The chunk of `op_nexide_send_response`, which is sent unless it is empty.
unfoldable pub send_body : ResponseSlot → Bytes → Result ResponseError ResponseSlot
unfolding is_empty
send_body response body = if is_empty body then ok response else send_chunk response body

-- `op_nexide_send_response`: head, body and end in one call. A head that was stored stays stored
-- if a later part fails.
unfoldable pub op_send_response : DispatchTable → RequestId → ResponseHead → Bytes → TableOp
unfolding send_body settle_ok
op_send_response t id head body = elim (slot_mut t id) [
  | err e ↦ (err (table_error e), t, [])
  | ok x ↦ elim (send_head x.response head) [
    | err e ↦ (err (response_error e), t, [])
    | ok headed ↦ elim (send_body headed body) [
      | err e ↦ (err (response_error e), write t id (record x { response = headed }), [])
      | ok full ↦ settle_ok (write t id (record x { response = full })) id
    ]
  ]
]

-- `op_nexide_read_body`: the count, the buffer, and the table; the inner `none` is a panic.
unfoldable pub op_read_body :
    DispatchTable → RequestId → Bytes → Result OpError (Option (ℕ × Bytes × DispatchTable))
op_read_body t id dst = elim (slot_mut t id) [
  | err e ↦ err (table_error e)
  | ok x ↦ elim (read_body x.request dst) [
    | none ↦ ok none
    | some (n, buffer, request) ↦ ok (some (n, buffer, write t id (record x { request = request })))
  ]
]

-- `op_nexide_get_meta`
unfoldable pub op_get_meta : DispatchTable → RequestId → Result OpError RequestMeta
op_get_meta t id = map_err table_error (get t id >>= λ x. ok x.request.meta)

-- `V8Engine::enqueue_with`; `none` is the panic of `insert`.
unfoldable pub enqueue_with : BridgeState → RequestSlot → ℕ → Option (RequestId × BridgeState)
unfolding push
enqueue_with s slot completion = elim (insert s.dispatch_table slot completion) [
  | none ↦ none
  | some (id, table) ↦ some (id, record s { dispatch_table = table; queue = push s.queue id })
]

-- `V8Engine::fail_inflight`: every pending request fails with `reason`.
unfoldable pub fail_inflight : BridgeState → Bytes → Option (BridgeState × List Delivery)
fail_inflight s reason = elim (fail_all (λ k. pump_died reason) s.dispatch_table) [
  | none ↦ none
  | some (table, n, sent) ↦ some (record s { dispatch_table = table }, sent)
]

-- A promise that an op resolves.
pub data Resolution : Type 0 where
  one : ℕ → RequestId → Resolution
  batch : ℕ → List RequestId → Resolution

-- `op_nexide_pop_request`
unfoldable pub op_pop_request : BridgeState → ℕ → BridgeState × List Resolution
op_pop_request s resolver =
    let (popped, queue) = try_pop_batch s.queue 1 in
    elim popped [
      | [] ↦ (record s { queue = queue; pending_pop = s.pending_pop ++ resolver ∷ [] }, [])
      | id ∷ more ↦ (record s { queue = queue }, one resolver id ∷ [])
    ]

-- `op_nexide_pop_request_batch`, with the requested batch size.
unfoldable pub op_pop_request_batch : BridgeState → ℕ → ℕ → BridgeState × List Resolution
op_pop_request_batch s resolver requested =
    let m = max requested 1 in
    let (ids, queue) = try_pop_batch s.queue m in
    elim ids [
      | [] ↦ (
        record s { queue = queue; pending_pop_batch = s.pending_pop_batch ++ (resolver, m) ∷ [] },
        [],
      )
      | id ∷ more ↦ (record s { queue = queue }, batch resolver (id ∷ more) ∷ [])
    ]

-- `op_nexide_try_pop_request_batch`
unfoldable pub op_try_pop_request_batch : BridgeState → ℕ → BridgeState × List RequestId
op_try_pop_request_batch s requested =
    let (ids, queue) = try_pop_batch s.queue (max requested 1) in (record s { queue = queue }, ids)

-- The second half of a round of `drain_pending_pops`: a promise for a batch.
unfoldable pub drain_batch : BridgeState → List (ℕ × ℕ) → BridgeState × Option Resolution
drain_batch s [] = (s, none)
drain_batch s ((resolver, cap) ∷ rest) =
    let (popped, queue) = try_pop_batch s.queue cap in
    elim popped [
      | [] ↦ (record s { queue = queue }, none)
      | id ∷ more ↦
          (record s { queue = queue; pending_pop_batch = rest }, some (batch resolver (id ∷ more)))
    ]

unfoldable pub drain_one : BridgeState → List ℕ → BridgeState × Option Resolution
unfolding drain_batch
drain_one s [] = drain_batch s s.pending_pop_batch
drain_one s (resolver ∷ rest) =
    let (popped, queue) = try_pop_batch s.queue 1 in
    elim popped [
      | [] ↦ (record s { queue = queue }, none)
      | id ∷ more ↦ (record s { queue = queue; pending_pop = rest }, some (one resolver id))
    ]

-- One round of the loop of `drain_pending_pops`, up to the resolution of a promise, which is not made
-- here; without one the loop returns.
unfoldable pub drain_round : BridgeState → BridgeState × Option Resolution
unfolding drain_one
drain_round s = drain_one s s.pending_pop

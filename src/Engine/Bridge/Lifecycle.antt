-- ===== src/Engine/Bridge/Lifecycle.antt =====
-- One request from its arrival to its answer, through the op calls.
use nexide.Prelude.{
  ℕ, ◌≡◌, refl, ◌∙◌, ◌⊎◌, inl, inr, none, some, List, [], ◌∷◌, arith, get_elem?-set_self,
  lt_of_get_elem?,
}
use nexide.Prelude.Words.{wrapping_succ}
use nexide.Prelude.Results.{Result, ok, err, Result-cases}
use nexide.Ops.Request.{Bytes}
use nexide.Ops.Response.{
  ResponseHead, ResponseSlot, ResponsePayload, ResponseError, finish, send_head, send_chunk,
}
use nexide.Ops.Response
use nexide.Ops.Response.Assembly.{Call, head, chunk, apply, run, settled, expected, finish-run}
use nexide.Ops.DispatchTable.{
  DispatchTable, InFlight, RequestId, Delivery, released, get, slot_mut, write,
}
use nexide.Ops.DispatchTable.Invariant.{get_inv, get_vacant, slot_mut-eq-get, after_remove}
use nexide.Engine.Bridge.{
  OpError, response_error, answer, removed, settle_payload, settle_ok, op_send_head, op_send_chunk,
  op_send_end,
}
use nexide.Engine.Bridge.Answers.{get-write, removed_found}

-- The op call for one call on the response, and the table after it.
pub call_op : DispatchTable → RequestId → Call → DispatchTable
call_op t id (head h) = (op_send_head t id h).1
call_op t id (chunk c) = (op_send_chunk t id c).1

pub call_ops : DispatchTable → RequestId → List Call → DispatchTable
call_ops t id [] = t
call_ops t id (c ∷ cs) = call_ops (call_op t id c) id cs

-- The two ops are one update of the response slot, kept if the sink accepts the call.
abbrev accepted :
    DispatchTable → RequestId → InFlight → Result ResponseError ResponseSlot → DispatchTable
accepted t id x (ok r) = write t id (record x { response = r })
accepted t id x (err e) = t

call_op-eq-accepted :
    (t : DispatchTable) (id : RequestId) (h : ResponseHead) (x : InFlight)
    → slot_mut t id ≡ ok x
    → (op_send_head t id h).1 ≡ accepted t id x (send_head x.response h)
unfolding op_send_head
call_op-eq-accepted t id h x found = ground arith

call_op-eq-accepted_chunk :
    (t : DispatchTable) (id : RequestId) (c : Bytes) (x : InFlight)
    → slot_mut t id ≡ ok x
    → (op_send_chunk t id c).1 ≡ accepted t id x (send_chunk x.response c)
unfolding op_send_chunk
call_op-eq-accepted_chunk t id c x found = ground arith

accepted_found :
    (t : DispatchTable) (id : RequestId) (x : InFlight) (r : Result ResponseError ResponseSlot)
    → get t id ≡ ok x
    → get (accepted t id x r) id ≡ ok (record x { response = settled x.response r })
accepted_found t id x (ok r) found = get-write t id x (record x { response = r }) found
accepted_found t id x (err e) found = found

-- The op acts on the response slot of its own request as the sink does.
call_op_found :
    (t : DispatchTable) (id : RequestId) (c : Call) (x : InFlight)
    → get t id ≡ ok x
    → get (call_op t id c) id ≡ ok (record x { response = apply x.response c })
unfolding call_op apply
call_op_found t id (head h) x found =
    rw (call_op-eq-accepted t id h x (slot_mut-eq-get t id ∙ found))
      (accepted_found t id x (send_head x.response h) found)
call_op_found t id (chunk c) x found =
    rw (call_op-eq-accepted_chunk t id c x (slot_mut-eq-get t id ∙ found))
      (accepted_found t id x (send_chunk x.response c) found)

call_ops_found :
    (t : DispatchTable) (id : RequestId) (cs : List Call) (x : InFlight)
    → get t id ≡ ok x
    → get (call_ops t id cs) id ≡ ok (record x { response = run x.response cs })
unfolding call_ops run
call_ops_found t id [] x found = found
call_ops_found t id (c ∷ cs) x found =
    call_ops_found (call_op t id c) id cs (record x { response = apply x.response c })
      (call_op_found t id c x found)

-- A request found with a fresh response and a pending channel, as `insert` leaves it.
pub record IsFresh (t : DispatchTable) (id : RequestId) (c : ℕ) : Type 0 where
  pub request : InFlight
  pub found : get t id ≡ ok request
  pub fresh : request.response ≡ Response.new
  pub waits : request.completion ≡ some c

-- The answer was delivered, the id is released.
abbrev pub Answered :
    RequestId
    → ℕ
    → ResponsePayload
    → Result OpError (Unit {0})
    → DispatchTable
    → List Delivery
    → Type 0
Answered id c payload outcome t sent =
    (outcome ≡ ok tt)
    × (sent ≡ record { channel = c; result = ok payload } ∷ [])
    × (get t id ≡ err (released id.index))

-- The error went to JavaScript; the request waits on, with a fresh response.
abbrev pub StillOpen :
    RequestId
    → ℕ
    → ResponseError
    → Result OpError (Unit {0})
    → DispatchTable
    → List Delivery
    → Type 0
StillOpen id c e outcome t sent = (outcome ≡ err (response_error e)) × (sent ≡ []) × IsFresh t id c

get-removed :
    (t : DispatchTable) (id : RequestId) (x : InFlight)
    → get t id ≡ ok x
    → get (removed t id) id ≡ err (released id.index)
get-removed t id x found =
    let at = get_inv t id x found in
    rw (removed_found t id x found) (
      get_vacant (after_remove t id) id (wrapping_succ id.generation) t.free_head
        (get_elem?-set_self t.slots id.index _ (lt_of_get_elem? t.slots id.index _ at)))

settle-Answered :
    (t : DispatchTable) (id : RequestId) (c : ℕ) (x : InFlight) (payload : ResponsePayload)
    → get t id ≡ ok x
    → x.completion ≡ some c
    → finish x.response ≡ ok payload
    → let (outcome, u, sent) = settle_ok t id in Answered id c payload outcome u sent
unfolding settle_ok settle_payload answer
settle-Answered t id c x payload found waits done =
    let x1 = record x { response = Response.new } in
    let x2 = record x1 { completion = none } in
    let found1 = get-write t id x x1 found in
    let found2 = get-write (write t id x1) id x1 x2 found1 in
    rw (slot_mut-eq-get t id ∙ found, settle_ok, done, finish)
      (refl, rw waits, get-removed (write (write t id x1) id x2) id x2 found2)

settle_open :
    (t : DispatchTable) (id : RequestId) (c : ℕ) (x : InFlight) (e : ResponseError)
    → get t id ≡ ok x
    → x.completion ≡ some c
    → finish x.response ≡ err e
    → let (outcome, u, sent) = settle_ok t id in StillOpen id c e outcome u sent
unfolding settle_ok
settle_open t id c x e found waits bad =
    let x1 = record x { response = Response.new } in
    rw (slot_mut-eq-get t id ∙ found, settle_ok, bad, finish)
      (
        refl,
        refl,
        record { request = x1; found = get-write t id x x1 found; fresh = refl; waits = waits },
      )

-- Whatever `send_head` and `send_chunk` ops JavaScript makes for a fresh request, `send_end`
-- delivers to its channel, once, the payload that the sequence of calls describes, and releases
-- the id. If the calls describe no response, it delivers nothing, throws the sink's error, and
-- the request stays in flight with a fresh response.
pub send_end_delivers :
    (t : DispatchTable) (id : RequestId) (c : ℕ) (cs : List Call)
    → IsFresh t id c
    → let (outcome, u, sent) = op_send_end (call_ops t id cs) id in
      ((p : ResponsePayload) × (expected cs ≡ ok p) × Answered id c p outcome u sent)
      ⊎ ((e : ResponseError) × (expected cs ≡ err e) × StillOpen id c e outcome u sent)
unfolding op_send_end
send_end_delivers t id c cs f =
    let x = f.request in
    let y = record x { response = run x.response cs } in
    let found : get (call_ops t id cs) id ≡ ok y = call_ops_found t id cs x f.found in
    let end : finish y.response ≡ expected cs = rw f.fresh (finish-run cs) in
    elim (Result-cases (expected cs)) [
      | inl (p, good) ↦
          inl (p, good, settle-Answered (call_ops t id cs) id c y p found f.waits (end ∙ good))
      | inr (e, bad) ↦
          inr (e, bad, settle_open (call_ops t id cs) id c y e found f.waits (end ∙ bad))
    ]

-- ===== src/Engine/Bridge/Keeping.antt =====
-- About single op calls: the table they leave and the channels they answer.
use nexide.Prelude.{◌≡◌, refl, inl, inr, [], arith}
use nexide.Prelude.Results.{Result, ok, Result-cases}
use nexide.Ops.Request.{Bytes}
use nexide.Ops.Response.{ResponseHead, ResponseSlot, ResponsePayload, finish, send_head, send_chunk}
use nexide.Ops.Response
use nexide.Ops.DispatchTable.{DispatchTable, InFlight, RequestId, get, slot_mut, write}
use nexide.Ops.DispatchTable.Invariant.{IsValid}
use nexide.Engine.Bridge.{
  OpError, TableOp, settle_payload, settle_ok, settle_err, op_send_head, op_send_chunk, send_body,
  op_send_response,
}
use nexide.Engine.Bridge.Answers.{count, Keeps, Keeps-same, Keeps-write, Keeps-settle, get-write}

Keeps-after :
    (t : DispatchTable) (o : Result OpError (Unit {0})) (t1 : DispatchTable) (r : TableOp)
    → Keeps t (o, t1, [])
    → Keeps t1 r
    → Keeps t r
unfolding count
Keeps-after t o t1 r k l = record {
  valid = l.valid;
  balanced = λ c. omega (arith, k.balanced c, l.balanced c);
}

pub settle_payload-Keeps :
    (t : DispatchTable) (id : RequestId) (x : InFlight) (payload : ResponsePayload)
    → get t id ≡ ok x
    → IsValid t
    → Keeps t (settle_payload t id x payload)
unfolding settle_payload
settle_payload-Keeps t id x payload h v = Keeps-settle t v (ok tt) id x _ (ok payload) h refl

pub settle_ok-Keeps : (t : DispatchTable) (id : RequestId) → IsValid t → Keeps t (settle_ok t id)
unfolding settle_ok get slot_mut
settle_ok-Keeps t id v = elim (Result-cases (slot_mut t id)) [
  | inr (e, bad) ↦ rw (bad, settle_ok) (Keeps-same t v _)
  | inl (x, found) ↦
      let x1 = record x { response = Response.new } in
      elim (Result-cases (finish x.response)) [
        | inr (e, bad) ↦ rw (found, bad, settle_ok) (Keeps-write t v _ id x x1 found refl)
        | inl (payload, done) ↦
            rw (found, done, settle_ok)
              (Keeps-after t (ok tt) (write t id x1) _ (Keeps-write t v (ok tt) id x x1 found refl)
                (settle_payload-Keeps (write t id x1) id x1 payload (get-write t id x x1 found)
                  ((Keeps-write t v (ok tt) id x x1 found refl).valid)))
      ]
]

pub settle_err-Keeps :
    (t : DispatchTable) (id : RequestId) (msg : Bytes) → IsValid t → Keeps t (settle_err t id msg)
unfolding settle_err get slot_mut
settle_err-Keeps t id msg v = elim (Result-cases (slot_mut t id)) [
  | inr (e, bad) ↦ rw (bad, settle_err) (Keeps-same t v _)
  | inl (x, found) ↦ rw (found, settle_err) (Keeps-settle t v _ id x _ _ found refl)
]

pub send_head-Keeps :
    (t : DispatchTable) (id : RequestId) (h : ResponseHead)
    → IsValid t
    → Keeps t (op_send_head t id h)
unfolding op_send_head get slot_mut
send_head-Keeps t id h v = elim (Result-cases (slot_mut t id)) [
  | inr (e, bad) ↦ rw (bad, op_send_head) (Keeps-same t v _)
  | inl (x, found) ↦ elim (Result-cases (send_head x.response h)) [
    | inr (e, bad) ↦ rw (found, bad, op_send_head) (Keeps-same t v _)
    | inl (r, sent) ↦ rw (found, sent, op_send_head) (Keeps-write t v _ id x _ found refl)
  ]
]

pub send_chunk-Keeps :
    (t : DispatchTable) (id : RequestId) (b : Bytes) → IsValid t → Keeps t (op_send_chunk t id b)
unfolding op_send_chunk get slot_mut
send_chunk-Keeps t id b v = elim (Result-cases (slot_mut t id)) [
  | inr (e, bad) ↦ rw (bad, op_send_chunk) (Keeps-same t v _)
  | inl (x, found) ↦ elim (Result-cases (send_chunk x.response b)) [
    | inr (e, bad) ↦ rw (found, bad, op_send_chunk) (Keeps-same t v _)
    | inl (r, sent) ↦ rw (found, sent, op_send_chunk) (Keeps-write t v _ id x _ found refl)
  ]
]

pub send_response-Keeps :
    (t : DispatchTable) (id : RequestId) (h : ResponseHead) (b : Bytes)
    → IsValid t
    → Keeps t (op_send_response t id h b)
unfolding op_send_response get slot_mut
send_response-Keeps t id h b v = elim (Result-cases (slot_mut t id)) [
  | inr (e, bad) ↦ rw (bad, op_send_response) (Keeps-same t v _)
  | inl (x, found) ↦ elim (Result-cases (send_head x.response h)) [
    | inr (e, bad) ↦ rw (found, bad, op_send_response) (Keeps-same t v _)
    | inl (headed, sent) ↦ elim (Result-cases (send_body headed b)) [
      | inr (e, bad) ↦ rw (found, sent, bad, op_send_response) (Keeps-write t v _ id x _ found refl)
      | inl (full, whole) ↦
          let k = Keeps-write t v (ok tt) id x (record x { response = full }) found refl in
          rw (found, sent, whole, op_send_response)
            (Keeps-after t (ok tt) _ _ k (settle_ok-Keeps _ id k.valid))
    ]
  ]
]

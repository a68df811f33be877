-- ===== src/Engine/Bridge/Conservation.antt =====
-- The histories of the bridge, and the completion channels over them.
use nexide.Prelude.{
  ℕ, ◌+◌, ◌<◌, ◌≡◌, refl, sym, ap, ◌∙◌, inl, inr, some, List, [], ◌∷◌, ◌++◌, arith, Option-cases,
}
use mathlib.Core.List.{map-append}
use nexide.Prelude.Words.{u32_max}
use nexide.Prelude.Results.{ok, Result-cases}
use nexide.Ops.Request.{Bytes, RequestSlot, read_body}
use nexide.Ops.Response.{ResponseHead}
use nexide.Ops.DispatchTable.{
  DispatchTable, Slot, vacant, occupied, InFlight, RequestId, Delivery, CompletionResult, get,
  slot_mut, write, insert, fail_all, handler, pump_died, new_inflight,
}
use nexide.Ops.DispatchTable
use nexide.Ops.Queue
use nexide.Ops.DispatchTable.FreeList.{occupied_count}
use nexide.Ops.DispatchTable.Invariant.{IsValid, insert-IsValid, new-IsValid}
use nexide.Ops.DispatchTable.Steps.{insert_unique, fail_all_unique, fail_all_sent}
use nexide.Ops.DispatchTable.Drain.{pending, failures, fail_all-AllFailed}
use nexide.Engine.Bridge.{
  BridgeState, TableOp, op_send_head, op_send_chunk, op_send_end, op_finish_error, op_send_response,
  op_read_body, enqueue_with, fail_inflight, op_pop_request, op_pop_request_batch,
  op_try_pop_request_batch, drain_batch, drain_one, drain_round,
}
use nexide.Engine.Bridge.Answers.{
  count, count-append, count-insert, channels, Keeps, Keeps-write, channels-failures,
}
use nexide.Engine.Bridge.Keeping.{
  settle_ok-Keeps, settle_err-Keeps, send_head-Keeps, send_chunk-Keeps, send_response-Keeps,
}

-- The state of an isolate, the deliveries made so far, and the channels enqueued so far.
pub record World : Type 0 where
  pub bridge : BridgeState
  pub sent : List Delivery
  pub enqueued : List ℕ

-- The calls by which JavaScript answers.
pub data AnswerOp : Type 0 where
  send_head_op : RequestId → ResponseHead → AnswerOp
  send_chunk_op : RequestId → Bytes → AnswerOp
  send_end_op : RequestId → AnswerOp
  send_response_op : RequestId → ResponseHead → Bytes → AnswerOp
  finish_error_op : RequestId → Bytes → AnswerOp

unfoldable pub perform : AnswerOp → DispatchTable → TableOp
perform (send_head_op id h) t = op_send_head t id h
perform (send_chunk_op id b) t = op_send_chunk t id b
perform (send_end_op id) t = op_send_end t id
perform (send_response_op id h b) t = op_send_response t id h b
perform (finish_error_op id msg) t = op_finish_error t id msg

pub perform-Keeps : (op : AnswerOp) (t : DispatchTable) → IsValid t → Keeps t (perform op t)
unfolding perform op_send_end op_finish_error
perform-Keeps (send_head_op id h) t v = send_head-Keeps t id h v
perform-Keeps (send_chunk_op id b) t v = send_chunk-Keeps t id b v
perform-Keeps (send_end_op id) t v = settle_ok-Keeps t id v
perform-Keeps (send_response_op id h b) t v = send_response-Keeps t id h b v
perform-Keeps (finish_error_op id msg) t v =
    let k = settle_err-Keeps t id msg v in record { valid = k.valid; balanced = k.balanced }

-- What can happen to an isolate between two looks at it: a request arrives, JavaScript calls an
-- op, or the isolate dies. The ops on the queue are those whose table stays.
pub data WorldStep : World → World → Type 0 where
  enqueue :
      {w w' : World} (slot : RequestSlot) (c : ℕ) (id : RequestId) (b : BridgeState)
      → w.bridge.dispatch_table.in_flight < u32_max
      → enqueue_with w.bridge slot c ≡ some (id, b)
      → w' ≡ record { bridge = b; sent = w.sent; enqueued = c ∷ w.enqueued }
      → WorldStep w w'
  call :
      {w w' : World} (op : AnswerOp)
      → w' ≡ record w {
        bridge = record w.bridge { dispatch_table = (perform op w.bridge.dispatch_table).1 };
        sent = w.sent ++ (perform op w.bridge.dispatch_table).2;
      }
      → WorldStep w w'
  read :
      {w w' : World} (id : RequestId) (dst : Bytes) (n : ℕ) (buffer : Bytes) (t : DispatchTable)
      → op_read_body w.bridge.dispatch_table id dst ≡ ok (some (n, buffer, t))
      → w' ≡ record w { bridge = record w.bridge { dispatch_table = t } }
      → WorldStep w w'
  pop :
      {w w' : World} (resolver : ℕ)
      → w' ≡ record w { bridge = (op_pop_request w.bridge resolver).0 }
      → WorldStep w w'
  pop_batch :
      {w w' : World} (resolver requested : ℕ)
      → w' ≡ record w { bridge = (op_pop_request_batch w.bridge resolver requested).0 }
      → WorldStep w w'
  try_pop :
      {w w' : World} (requested : ℕ)
      → w' ≡ record w { bridge = (op_try_pop_request_batch w.bridge requested).0 }
      → WorldStep w w'
  wake : {w w' : World} → w' ≡ record w { bridge = (drain_round w.bridge).0 } → WorldStep w w'
  die :
      {w w' : World} (reason : Bytes) (b : BridgeState) (ds : List Delivery)
      → fail_inflight w.bridge reason ≡ some (b, ds)
      → w' ≡ record w { bridge = b; sent = w.sent ++ ds }
      → WorldStep w w'

pub data History (s : World) : World → Type 0 where
  start : History s s
  after : {w u : World} → History s w → WorldStep w u → History s u

abbrev pub boot : World
boot = record {
  bridge = record {
    dispatch_table = DispatchTable.new;
    queue = Queue.new;
    pending_pop = [];
    pending_pop_batch = [];
  };
  sent = [];
  enqueued = [];
}

pub record Conserved (w : World) : Type 0 where
  pub valid : IsValid w.bridge.dispatch_table
  pub balance :
      (c : ℕ)
      → count c (pending w.bridge.dispatch_table.slots) + count c (channels w.sent)
        ≡ count c w.enqueued

boot-Conserved : Conserved boot
unfolding count pending
boot-Conserved = record { valid = new-IsValid; balance = λ c. refl }

count-channels-append :
    (c : ℕ) (xs ys : List Delivery)
    → count c (channels (xs ++ ys)) ≡ count c (channels xs) + count c (channels ys)
count-channels-append c xs ys =
    ap (count c) (map-append _ xs ys) ∙ count-append c (channels xs) (channels ys)

-- A step that works on the table by a kept op.
call-Conserved :
    (w : World) (r : TableOp)
    → Keeps w.bridge.dispatch_table r
    → Conserved w
    → Conserved
        (record w { bridge = record w.bridge { dispatch_table = r.1 }; sent = w.sent ++ r.2 })
call-Conserved w r k h = record {
  valid = k.valid;
  balance = λ c. omega (arith, k.balanced c, h.balance c, count-channels-append c w.sent r.2);
}

read-Conserved :
    (w : World) (t : DispatchTable)
    → Keeps w.bridge.dispatch_table (ok tt, t, [])
    → Conserved w
    → Conserved (record w { bridge = record w.bridge { dispatch_table = t } })
unfolding count
read-Conserved w t k h = record {
  valid = k.valid;
  balance = λ c. omega (arith, k.balanced c, h.balance c);
}

-- A step that leaves the table, the deliveries and the requests.
queue-Conserved :
    (w : World) (b : BridgeState)
    → b.dispatch_table ≡ w.bridge.dispatch_table
    → Conserved w
    → Conserved (record w { bridge = b })
queue-Conserved w b e h = record { valid = rw e h.valid; balance = λ c. rw e (h.balance c) }

table-op_pop_request :
    (b : BridgeState) (resolver : ℕ)
    → (op_pop_request b resolver).0.dispatch_table ≡ b.dispatch_table
unfolding op_pop_request
table-op_pop_request b resolver = ground arith

table-drain_batch :
    (b : BridgeState) (bs : List (ℕ × ℕ)) → (drain_batch b bs).0.dispatch_table ≡ b.dispatch_table
unfolding drain_batch
table-drain_batch b [] = refl
table-drain_batch b ((resolver, cap) ∷ rest) = ground arith

table-drain_one :
    (b : BridgeState) (rs : List ℕ) → (drain_one b rs).0.dispatch_table ≡ b.dispatch_table
unfolding drain_one
table-drain_one b [] = table-drain_batch b b.pending_pop_batch
table-drain_one b (resolver ∷ rest) = ground arith

table-drain_round : (b : BridgeState) → (drain_round b).0.dispatch_table ≡ b.dispatch_table
unfolding drain_round
table-drain_round b = table-drain_one b b.pending_pop

table-op_pop_request_batch :
    (b : BridgeState) (resolver requested : ℕ)
    → (op_pop_request_batch b resolver requested).0.dispatch_table ≡ b.dispatch_table
unfolding op_pop_request_batch
table-op_pop_request_batch b resolver requested = ground arith

-- A body read writes the request back with its completion untouched.
op_read_body_inv :
    (t : DispatchTable) (id : RequestId) (dst : Bytes) (n : ℕ) (buffer : Bytes) (t' : DispatchTable)
    → op_read_body t id dst ≡ ok (some (n, buffer, t'))
    → (x : InFlight) × (request : RequestSlot) × (get t id ≡ ok x)
      × (t' ≡ write t id (record x { request = request }))
unfolding op_read_body get slot_mut
op_read_body_inv t id dst n buffer t' e = elim (Result-cases (slot_mut t id)) [
  | inr (b, bad) ↦ absurd (ground (arith, bad))
  | inl (x, found) ↦ elim (Option-cases (read_body x.request dst)) [
    | inl bad ↦ absurd (ground (arith, bad, found))
    | inr ((m, out, request), done) ↦ (x, request, found, ground (arith, found, done))
  ]
]

enqueue_with_inv :
    (s : BridgeState) (slot : RequestSlot) (c : ℕ) (id : RequestId) (b : BridgeState)
    → enqueue_with s slot c ≡ some (id, b)
    → insert s.dispatch_table slot c ≡ some (id, b.dispatch_table)
unfolding enqueue_with
enqueue_with_inv s slot c id b e = ground arith

fail_inflight_inv :
    (s : BridgeState) (reason : Bytes) (b : BridgeState) (ds : List Delivery)
    → fail_inflight s reason ≡ some (b, ds)
    → (n : ℕ) × (fail_all (λ k. pump_died reason) s.dispatch_table ≡ some (b.dispatch_table, n, ds))
unfolding fail_inflight
fail_inflight_inv s reason b ds e =
    elim (Option-cases (fail_all (λ k. pump_died reason) s.dispatch_table)) [
      | inl bad ↦ absurd (ground (arith, bad))
      | inr ((t, n, sent), done) ↦ (n, ground (arith, done))
    ]

-- With no slot occupied nothing is pending.
pending_of_empty : (slots : List Slot) → occupied_count slots ≡ 0 → pending slots ≡ []
unfolding occupied_count pending
pending_of_empty [] h = refl
pending_of_empty (vacant g next ∷ ss) h = pending_of_empty ss (omega arith)
pending_of_empty (occupied g x ∷ ss) h = absurd (omega arith)

count_none : (c : ℕ) (slots : List Slot) → occupied_count slots ≡ 0 → count c (pending slots) ≡ 0
unfolding count
count_none c slots h = rw (pending_of_empty slots h)

enqueue-Conserved :
    (w : World) (slot : RequestSlot) (c : ℕ) (id : RequestId) (b : BridgeState)
    → w.bridge.dispatch_table.in_flight < u32_max
    → enqueue_with w.bridge slot c ≡ some (id, b)
    → Conserved w
    → Conserved (record { bridge = b; sent = w.sent; enqueued = c ∷ w.enqueued })
unfolding count
enqueue-Conserved w slot c id b room e h =
    let t = w.bridge.dispatch_table in
    let r = insert-IsValid t slot c h.valid room in
    let same : b.dispatch_table ≡ r.table =
      (insert_unique r (enqueue_with_inv w.bridge slot c id b e)).1 in
    record {
      valid = rw same r.valid;
      balance = λ d. rw same (omega (arith, h.balance d, count-insert d t slot c r));
    }

die-Conserved :
    (w : World) (reason : Bytes) (b : BridgeState) (ds : List Delivery)
    → fail_inflight w.bridge reason ≡ some (b, ds)
    → Conserved w
    → Conserved (record { bridge = b; sent = w.sent ++ ds; enqueued = w.enqueued })
die-Conserved w reason b ds e h =
    let t = w.bridge.dispatch_table in
    let failure = λ (k : ℕ). pump_died reason in
    let r = fail_all-AllFailed failure t h.valid in
    let (n, e') = fail_inflight_inv w.bridge reason b ds e in
    let same : b.dispatch_table ≡ r.table = fail_all_unique r e' in
    let all : ds ≡ failures failure 0 (pending t.slots) = fail_all_sent r e' in
    record {
      valid = rw same r.valid;
      balance = λ c. rw same (
          omega (
            arith,
            h.balance c,
            count-channels-append c w.sent ds,
            count_none c r.table.slots r.emptied,
            ap (λ x. count c (channels x)) all,
            ap (count c) (channels-failures failure 0 (pending t.slots)),
          ));
    }

step-Conserved : {w w' : World} → WorldStep w w' → Conserved w → Conserved w'
step-Conserved (enqueue {w} slot c id b room e same) h =
    rw same (enqueue-Conserved w slot c id b room e h)
step-Conserved (call {w} op same) h =
    rw same (call-Conserved w (perform op w.bridge.dispatch_table) (perform-Keeps op _ h.valid) h)
step-Conserved (read {w} id dst n buffer t e same) h =
    let t0 = w.bridge.dispatch_table in
    let (x, request, found, written) = op_read_body_inv t0 id dst n buffer t e in
    let k = Keeps-write t0 h.valid (ok tt) id x (record x { request = request }) found refl in
    rw (same, written) (read-Conserved w _ k h)
step-Conserved (pop {w} resolver same) h =
    rw same (queue-Conserved w _ (table-op_pop_request w.bridge resolver) h)
step-Conserved (pop_batch {w} resolver requested same) h =
    rw same (queue-Conserved w _ (table-op_pop_request_batch w.bridge resolver requested) h)
step-Conserved (try_pop {w} requested same) h =
    rw same (unfold op_try_pop_request_batch in queue-Conserved w _ refl h)
step-Conserved (wake {w} same) h = rw same (queue-Conserved w _ (table-drain_round w.bridge) h)
step-Conserved (die {w} reason b ds e same) h = rw same (die-Conserved w reason b ds e h)

-- After any history of an isolate, each completion channel has been enqueued exactly as often as
-- it is still pending in the table or was answered: no request is answered twice, and none is
-- dropped without an answer.
pub History-Conserved : {w : World} → History boot w → Conserved w
History-Conserved start = boot-Conserved
History-Conserved (after r st) = step-Conserved st (History-Conserved r)

-- Once nothing is in flight, every channel has had exactly as many answers as requests.
pub all_answered :
    (w : World) (c : ℕ)
    → History boot w
    → w.bridge.dispatch_table.in_flight ≡ 0
    → count c (channels w.sent) ≡ count c w.enqueued
all_answered w c r idle =
    let h = History-Conserved r in
    omega
      (arith, h.balance c, count_none c w.bridge.dispatch_table.slots (sym h.valid.counted ∙ idle))

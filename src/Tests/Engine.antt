-- ===== src/Tests/Engine.antt =====
-- Tests of the bridge.
use nexide.Prelude.{◌≡◌, refl, ◌⊎◌, none, some, List, [], ◌∷◌, arith, ℕ, ◌≤◌}
use nexide.Engine.HandleTable.{insert_handle, empty_table, with_handle}
use nexide.Engine.HandleTable.Handles.{
  insert_call, take_call, run_handle_calls, Keeps, insert_handle-kept,
}
use nexide.Prelude.Results.{ok, err}
use nexide.Ops.Response.{ResponsePayload, ResponseError}
use nexide.Ops.Response.Assembly.{Call, head, chunk, expected}
use nexide.Ops.DispatchTable.{occupied, vacant, insert, remove, get, slot_mut, write, handler}
use nexide.Engine.Bridge.{BridgeState, one, op_send_end, op_finish_error, enqueue_with}
use nexide.Ops.Queue.{try_pop_batch}
use nexide.Engine.Bridge.Draining.{
  Entry, woken, parked as parked_one, pop_call, Script, drain_pending_pops,
}
use nexide.Engine.Bridge.Draining.Fairness.{IsDrained}
use nexide.Engine.Bridge.Pump.{IsSettled, drain_pending_pops_ends}
use nexide.Engine.Bridge.Lifecycle.{IsFresh, Answered, StillOpen, call_ops, send_end_delivers}
use nexide.Engine.Bridge.Conservation.{
  World, enqueue, call, finish_error_op, perform, History, start, after, boot, Conserved,
  History-Conserved,
}
use nexide.Tests.Data.{sample_slot, waiting_request, busy, busy_id, ok_head}

abbrev parked : BridgeState
parked = record {
  dispatch_table = busy;
  queue = record { pending = busy_id ∷ [] };
  pending_pop = 5 ∷ 6 ∷ [];
  pending_pop_batch = [];
}

-- A pump that asks for the next request as soon as it has one.
abbrev asks_again : Script
asks_again r s = pop_call 9 ∷ []

drain_pending_pops_ends_example :
    (s' : BridgeState) × (es : List Entry) × (drain_pending_pops asks_again 2 parked
      ≡ some (s', es))
    × IsDrained parked es s'
    × IsSettled s'
drain_pending_pops_ends_example = drain_pending_pops_ends asks_again 2 parked (omega arith)

parked_promises :
    drain_pending_pops asks_again 2 parked
    ≡ some (
      record parked { queue = record { pending = [] }; pending_pop = 6 ∷ 9 ∷ [] },
      woken (one 5 busy_id) ∷ parked_one 9 ∷ [],
    )
unfolding drain_pending_pops try_pop_batch
parked_promises = refl

busy-IsFresh : IsFresh busy busy_id 7
unfolding get
busy-IsFresh = record { request = waiting_request; found = refl; fresh = refl; waits = refl }

abbrev answer_calls : List Call
answer_calls = head ok_head ∷ chunk (1 ∷ 2 ∷ []) ∷ []

send_end_delivers_example :
    let (outcome, u, sent) = op_send_end (call_ops busy busy_id answer_calls) busy_id in
    ((p : ResponsePayload) × (expected answer_calls ≡ ok p) × Answered busy_id 7 p outcome u sent)
    ⊎ ((e : ResponseError) × (expected answer_calls ≡ err e) × StillOpen busy_id 7 e outcome u sent)
send_end_delivers_example = send_end_delivers busy busy_id 7 answer_calls busy-IsFresh

-- One request is enqueued and fails.
abbrev one_in : BridgeState
one_in = record boot.bridge {
  dispatch_table = record {
    slots = occupied 0 waiting_request ∷ [];
    free_head = none;
    in_flight = 1;
  };
  queue = record { pending = busy_id ∷ [] };
}

abbrev enqueued_world : World
enqueued_world = record { bridge = one_in; sent = []; enqueued = 7 ∷ [] }

abbrev answered_world : World
answered_world = record {
  bridge = record one_in {
    dispatch_table = record { slots = vacant 1 none ∷ []; free_head = some 0; in_flight = 0 };
  };
  sent = record { channel = 7; result = err (handler []) } ∷ [];
  enqueued = 7 ∷ [];
}

one_request : History boot answered_world
unfolding enqueue_with insert op_finish_error remove get write slot_mut perform
one_request =
    after (after start (enqueue sample_slot 7 busy_id one_in (omega arith) refl refl))
      (call (finish_error_op busy_id []) refl)

History-Conserved_example : Conserved answered_world
History-Conserved_example = History-Conserved one_request

insert_handle-kept_example :
    (1 ≤ 1)
    × (with_handle
          (run_handle_calls
            (insert_handle (empty_table {A = ℕ}) 5).1
            (insert_call 6 ∷ take_call 2 ∷ insert_call 7 ∷ []))
          1
        ≡ some 5)
unfolding insert_handle empty_table Keeps
insert_handle-kept_example =
    insert_handle-kept (empty_table {A = ℕ}) 5 (insert_call 6 ∷ take_call 2 ∷ insert_call 7 ∷ [])
      (omega arith) (omega arith) ((λ e. absurd (omega arith)), tt)

-- ===== src/Tests/Ops.antt =====
-- Tests of the arena, the queue, the request and the response.
use nexide.Prelude.{ℕ, ◌≡◌, refl, ◌≢◌, ◌↔◌, none, some, List, [], ◌∷◌, arith}
use nexide.Prelude.Results.{ok, err}
use nexide.Ops.Request.{RequestSlot, try_new, new, invalid_method, is_http_token_byte, all}
use nexide.Ops.Request.Validation.{IsAdmissible, try_new-IsAdmissible}
use nexide.Ops.Request.Reading.{read_all, total, read_all_prefix}
use nexide.Ops.Response
use nexide.Ops.Response.Assembly.{Call, head, chunk, run, expected, finish-run}
use nexide.Ops.DispatchTable.{
  DispatchTable, InFlight, cancelled, vacant, occupied, get, insert, remove,
}
use nexide.Ops.DispatchTable.Invariant.{IsValid, Inserted, insert-IsValid, after_remove}
use nexide.Ops.DispatchTable.Drain.{AllFailed, fail_all-AllFailed}
use nexide.Ops.DispatchTable.Steps.{insert_step, start, after, Reach-IsValid}
use nexide.Ops.DispatchTable.Aging.{removed_stays_dead}
use nexide.Ops.DispatchTable.Survival.{step_keeps_found}
use nexide.Ops.Queue.{RequestQueue, try_pop_batch}
use nexide.Tests.Data.{
  get_method, root_uri, sample_meta, sample_slot, waiting_request, busy, busy_id, busy-IsValid,
  ok_head,
}

try_new-IsAdmissible_example :
    (try_new get_method root_uri ≡ ok sample_meta)
    ↔ (IsAdmissible get_method root_uri × (sample_meta ≡ sample_meta))
try_new-IsAdmissible_example = try_new-IsAdmissible get_method root_uri sample_meta

try_new_bad_byte : try_new (b'G' ∷ b' ' ∷ []) root_uri ≡ err invalid_method
unfolding try_new is_http_token_byte all
try_new_bad_byte = refl

-- Two buffers of two bytes read four of five bytes.
abbrev buffers : List (List ℕ)
buffers = (0 ∷ 0 ∷ []) ∷ (0 ∷ 0 ∷ []) ∷ []

read_all_prefix_example :
    (last : RequestSlot) × (read_all (new sample_meta [] (1 ∷ 2 ∷ 3 ∷ 4 ∷ 5 ∷ [])) buffers
      ≡ some (1 ∷ 2 ∷ 3 ∷ 4 ∷ [], last))
    × (last.body_cursor ≡ 4)
unfolding total
read_all_prefix_example = read_all_prefix sample_meta [] (1 ∷ 2 ∷ 3 ∷ 4 ∷ 5 ∷ []) buffers

-- A chunk before the head is refused, and so is a second head.
abbrev calls : List Call
calls = chunk (9 ∷ []) ∷ head ok_head ∷ chunk (1 ∷ 2 ∷ []) ∷ head ok_head ∷ chunk (3 ∷ []) ∷ []

finish-run_example :
    Response.finish (run Response.new calls) ≡ ok (record { head = ok_head; body = 1 ∷ 2 ∷ 3 ∷ [] })
unfolding expected
finish-run_example = finish-run calls

insert-IsValid_example : Inserted busy sample_slot 8
insert-IsValid_example = insert-IsValid busy sample_slot 8 busy-IsValid (omega arith)

-- The freed slot comes back with its pending generation.
abbrev two_busy : DispatchTable
two_busy = record {
  slots =
      occupied 0 waiting_request ∷ occupied 3 (record waiting_request { completion = some 8 }) ∷ [];
  free_head = none;
  in_flight = 2;
}

insert_two : insert busy sample_slot 8 ≡ some (record { index = 1; generation = 3 }, two_busy)
unfolding insert
insert_two = refl

Reach-IsValid_example : IsValid two_busy
Reach-IsValid_example =
    Reach-IsValid
      (after start
        (insert_step sample_slot 8 (record { index = 1; generation = 3 }) (omega arith) insert_two))
      busy-IsValid

fail_all-AllFailed_example : AllFailed (λ k. cancelled) busy
fail_all-AllFailed_example = fail_all-AllFailed (λ k. cancelled) busy busy-IsValid

-- The request of slot 0 is settled, and its slot is used again under generation 1.
abbrev reused : DispatchTable
reused = record {
  slots = occupied 1 (record waiting_request { completion = some 9 }) ∷ vacant 3 none ∷ [];
  free_head = some 1;
  in_flight = 1;
}

insert-reused :
    insert (after_remove busy busy_id) sample_slot 9
    ≡ some (record { index = 0; generation = 1 }, reused)
unfolding insert
insert-reused = refl

removed_stays_dead_example : get reused busy_id ≢ ok waiting_request
unfolding remove
removed_stays_dead_example =
    removed_stays_dead busy (after_remove busy busy_id) reused busy_id waiting_request
      waiting_request 1 busy-IsValid refl
      (after start (
        insert_step sample_slot 9 (record { index = 0; generation = 1 }) (omega arith)
          insert-reused))
      (omega arith)

step_keeps_found_example : (y : InFlight) × (get two_busy busy_id ≡ ok y)
unfolding get
step_keeps_found_example =
    step_keeps_found
      (insert_step sample_slot 8 (record { index = 1; generation = 3 }) (omega arith) insert_two)
      busy_id waiting_request busy-IsValid (λ e. e) refl

abbrev two_queued : RequestQueue
two_queued = record { pending = busy_id ∷ record { index = 1; generation = 3 } ∷ [] }

-- A batch of zero takes one id.
two_queued_popped : (try_pop_batch two_queued 0).0 ≡ busy_id ∷ []
unfolding try_pop_batch
two_queued_popped = refl

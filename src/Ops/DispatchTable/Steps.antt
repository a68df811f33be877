-- ===== src/Ops/DispatchTable/Steps.antt =====
-- The histories of the arena: the operations as a step relation.
use nexide.Prelude.{ℕ, suc, ◌<◌, ◌≡◌, sym, ◌∙◌, some, List, arith}
use nexide.Prelude.Words.{u32_max}
use nexide.Prelude.Results.{ok}
use nexide.Ops.Request.{RequestSlot}
use nexide.Ops.DispatchTable.{
  DispatchTable, InFlight, RequestId, RequestFailure, Delivery, get, write, insert, remove,
  fail_all,
}
use nexide.Ops.DispatchTable.Invariant.{
  IsValid, Inserted, insert-IsValid, after_remove, after_remove-IsValid, write-IsValid,
}
use nexide.Ops.DispatchTable.Drain.{pending, failures, AllFailed, fail_all-AllFailed}

-- What JavaScript and the dispatcher can do to the arena. Fewer than `u32::MAX` requests are in
-- flight when one is inserted, which the per-isolate semaphore ensures.
pub data TableStep : DispatchTable → DispatchTable → Type 0 where
  insert_step :
      {t t' : DispatchTable} (request : RequestSlot) (c : ℕ) (id : RequestId)
      → t.in_flight < u32_max
      → insert t request c ≡ some (id, t')
      → TableStep t t'
  remove_step :
      {t t' : DispatchTable} (id : RequestId) (x : InFlight)
      → remove t id ≡ ok (x, t')
      → TableStep t t'
  write_step :
      {t t' : DispatchTable} (id : RequestId) (x y : InFlight)
      → get t id ≡ ok x
      → t' ≡ write t id y
      → TableStep t t'
  fail_step :
      {t t' : DispatchTable} (failure : ℕ → RequestFailure) (n : ℕ) (sent : List Delivery)
      → fail_all failure t ≡ some (t', n, sent)
      → TableStep t t'

pub data Reach (s : DispatchTable) : ℕ → DispatchTable → Type 0 where
  start : Reach s 0 s
  after : {n : ℕ} {t u : DispatchTable} → Reach s n t → TableStep t u → Reach s (suc n) u

-- A removal that works is of a request that `get` finds.
pub remove_inv :
    (t : DispatchTable) (id : RequestId) (x : InFlight) (t' : DispatchTable)
    → remove t id ≡ ok (x, t')
    → (get t id ≡ ok x) × (t' ≡ after_remove t id)
unfolding remove get
remove_inv t id x t' h = ground arith

pub insert_unique :
    {t t' : DispatchTable} {request : RequestSlot} {c : ℕ} {id : RequestId}
    (r : Inserted t request c)
    → insert t request c ≡ some (id, t')
    → (id ≡ r.id) × (t' ≡ r.table)
insert_unique r e = let same = sym r.inserts ∙ e in ground (arith, same)

pub fail_all_unique :
    {t t' : DispatchTable} {failure : ℕ → RequestFailure} {n : ℕ} {sent : List Delivery}
    (r : AllFailed failure t)
    → fail_all failure t ≡ some (t', n, sent)
    → t' ≡ r.table
fail_all_unique r e = let same = sym r.fails ∙ e in ground (arith, same)

pub fail_all_sent :
    {t t' : DispatchTable} {failure : ℕ → RequestFailure} {n : ℕ} {sent : List Delivery}
    (r : AllFailed failure t)
    → fail_all failure t ≡ some (t', n, sent)
    → sent ≡ failures failure 0 (pending t.slots)
fail_all_sent r e = let same = sym r.fails ∙ e in ground (arith, same, r.answers)

-- Every step keeps the arena well formed.
pub TableStep-IsValid : {t t' : DispatchTable} → TableStep t t' → IsValid t → IsValid t'
TableStep-IsValid (insert_step {t} {t'} request c id room e) v =
    let r = insert-IsValid t request c v room in rw ((insert_unique r e).1) r.valid
TableStep-IsValid (remove_step {t} {t'} id x e) v =
    let (found, same) = remove_inv t id x t' e in rw same (after_remove-IsValid t id x found v)
TableStep-IsValid (write_step {t} {t'} id x y found same) v =
    rw same (write-IsValid t id x y found v)
TableStep-IsValid (fail_step {t} {t'} failure n sent e) v =
    let r = fail_all-AllFailed failure t v in rw (fail_all_unique r e) r.valid

-- So it holds after any history.
pub Reach-IsValid : {s t : DispatchTable} {n : ℕ} → Reach s n t → IsValid s → IsValid t
Reach-IsValid start v = v
Reach-IsValid (after r st) v = TableStep-IsValid st (Reach-IsValid r v)

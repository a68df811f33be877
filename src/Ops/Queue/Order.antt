-- ===== src/Ops/Queue/Order.antt =====
-- About the order and the size of what leaves the queue.
use nexide.Prelude.{
  ℕ, zero, suc, ◌≤◌, ◌≡◌, refl, ap, ◌⊎◌, inl, inr, List, [], ◌∷◌, ◌++◌, arith, length, min, max,
  none, some,
}
use nexide.Ops.DispatchTable.{RequestId}
use nexide.Ops.Queue.{RequestQueue, pop_front_times, try_pop_batch, poll_pop_batch}

pop_front_times-append :
    (n : ℕ) (ids : List RequestId) → (pop_front_times n ids).0 ++ (pop_front_times n ids).1 ≡ ids
unfolding pop_front_times
pop_front_times-append zero ids = refl
pop_front_times-append (suc n) [] = pop_front_times-append n []
pop_front_times-append (suc n) (id ∷ ids) = ap (◌∷◌ id) (pop_front_times-append n ids)

length-pop_front_times :
    (n : ℕ) (ids : List RequestId) → length (pop_front_times n ids).0 ≡ min n (length ids)
unfolding pop_front_times
length-pop_front_times zero ids = omega arith
length-pop_front_times (suc n) [] = omega (arith, length-pop_front_times n [])
length-pop_front_times (suc n) (id ∷ ids) = omega (arith, length-pop_front_times n ids)

-- A batch is the front of the queue, in order, and has all of it or `max(m, 1)` ids.
pub try_pop_batch_front :
    (q : RequestQueue) (m : ℕ)
    → ((try_pop_batch q m).0 ++ (try_pop_batch q m).1.pending ≡ q.pending)
      × (length (try_pop_batch q m).0 ≡ min (length q.pending) (max m 1))
unfolding try_pop_batch
try_pop_batch_front q m = go q.pending refl
  where
    go :
        (ids : List RequestId)
        → q.pending ≡ ids
        → ((try_pop_batch q m).0 ++ (try_pop_batch q m).1.pending ≡ q.pending)
          × (length (try_pop_batch q m).0 ≡ min (length q.pending) (max m 1))
    go [] e = (ground arith, rw (e, try_pop_batch) (omega arith))
    go (id ∷ ids) e =
        rw (e, try_pop_batch)
          (
            pop_front_times-append _ (id ∷ ids),
            omega (arith, length-pop_front_times (min (length (id ∷ ids)) (max m 1)) (id ∷ ids)),
          )

-- The awaiting pop resumes exactly when the queue is not empty, with what `try_pop_batch` takes.
pub poll_pop_batch-eq-try :
    (q : RequestQueue) (m : ℕ)
    → ((q.pending ≡ []) × (poll_pop_batch q m ≡ none))
      ⊎ ((1 ≤ length (try_pop_batch q m).0) × (poll_pop_batch q m ≡ some (try_pop_batch q m)))
unfolding try_pop_batch poll_pop_batch
poll_pop_batch-eq-try q m = go q.pending refl
  where
    go :
        (ids : List RequestId)
        → q.pending ≡ ids
        → ((q.pending ≡ []) × (poll_pop_batch q m ≡ none))
          ⊎ ((1 ≤ length (try_pop_batch q m).0) × (poll_pop_batch q m ≡ some (try_pop_batch q m)))
    go [] e = inl (e, rw (e, poll_pop_batch))
    go (id ∷ ids) e = inr (
      rw (e, try_pop_batch)
          (omega (arith, length-pop_front_times (min (length (id ∷ ids)) (max m 1)) (id ∷ ids))),
      rw (e, poll_pop_batch, try_pop_batch),
    )

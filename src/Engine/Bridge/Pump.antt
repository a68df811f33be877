-- ===== src/Engine/Bridge/Pump.antt =====
-- About the pump: the ids that it hands over and the promises that get them, whatever JavaScript
-- calls while it runs.
use mathlib.Core.Path.{subst}
use mathlib.Core.List.{append-nil}
use nexide.Prelude.{
  ℕ, zero, suc, ◌<◌, ◌≡◌, refl, sym, ap, ◌∙◌, ◌⊎◌, inl, inr, List, [], ◌∷◌, ◌++◌, Option, none,
  some, arith, length, length-append, List-cases,
}
use nexide.Ops.DispatchTable.{RequestId}
use nexide.Ops.Queue.{RequestQueue, try_pop_batch}
use nexide.Ops.Queue.Order.{try_pop_batch_front}
use nexide.Engine.Bridge.{BridgeState, Resolution, one, batch, drain_batch, drain_one, drain_round}
use nexide.Engine.Bridge.Draining.{Entry, woken, run_pops, Script, after_round, drain_pending_pops}
use nexide.Engine.Bridge.Draining.Fairness.{
  collect, ids_in, resolvers, IsDrained, nothing-IsDrained, then-IsDrained, empty_of_no_batch,
  single, run_pops-IsDrained,
}

-- No request is left to hand over, or no promise to hand it to.
abbrev pub IsSettled : BridgeState → Type 0
IsSettled s = (s.queue.pending ≡ []) ⊎ ((s.pending_pop ≡ []) × (s.pending_pop_batch ≡ []))

-- A round that lets the loop return, or one that hands ids over, of which the queue has fewer then.
data IsRound (s : BridgeState) : BridgeState × Option Resolution → Type 0 where
  stops : {s' : BridgeState} → IsDrained s [] s' → IsSettled s' → IsRound s (s', none)
  wakes :
      {s' : BridgeState} {r : Resolution}
      → IsDrained s (woken r ∷ []) s'
      → length s'.queue.pending < length s.queue.pending
      → IsRound s (s', some r)

-- A round without ids leaves the promises.
unserved :
    (s : BridgeState) (q : RequestQueue)
    → q.pending ≡ s.queue.pending
    → IsDrained s [] (record s { queue = q })
unfolding collect
unserved s q same = record {
  order = same;
  ones = sym (append-nil s.pending_pop);
  batches = sym (append-nil (resolvers s.pending_pop_batch));
}

fewer_left :
    (id : RequestId) (more left all : List RequestId)
    → (id ∷ more) ++ left ≡ all
    → length left < length all
fewer_left id more left all e =
    omega (arith, length-append more left, ap (length {A = RequestId}) e)

drain_batch-IsRound :
    (s : BridgeState) (bs : List (ℕ × ℕ))
    → s.pending_pop ≡ []
    → s.pending_pop_batch ≡ bs
    → IsRound s (drain_batch s bs)
unfolding drain_batch collect
drain_batch-IsRound s [] none_wait no_batch =
    stops (nothing-IsDrained s) (inr (none_wait, no_batch))
drain_batch-IsRound s ((resolver, cap) ∷ rest) none_wait waits =
    let q = (try_pop_batch s.queue cap).1 in
    elim (List-cases (try_pop_batch s.queue cap).0) [
      | inl nil ↦
          let (left, all) = empty_of_no_batch s.queue cap nil in
          let e : drain_batch s ((resolver, cap) ∷ rest) ≡ (record s { queue = q }, none) =
            rw (drain_batch, nil) refl in
          subst (IsRound s) (sym e) (stops (unserved s q (left ∙ sym all)) (inl left))
      | inr (id, more, some_ids) ↦
          let e : drain_batch s ((resolver, cap) ∷ rest) ≡ (
            record s { queue = q; pending_pop_batch = rest },
            some (batch resolver (id ∷ more)),
          ) =
            rw (drain_batch, some_ids) refl in
          let front : (id ∷ more) ++ q.pending ≡ s.queue.pending =
            rw some_ids at (try_pop_batch_front s.queue cap).0 in
          subst (IsRound s) (sym e) (
            wakes
              (record {
                order = ap (λ x. x ++ q.pending) (append-nil (id ∷ more)) ∙ front;
                ones = sym (append-nil s.pending_pop);
                batches = sym (append-nil (resolvers s.pending_pop_batch) ∙ ap resolvers waits);
              })
              (fewer_left id more q.pending s.queue.pending front))
    ]

drain_one-IsRound :
    (s : BridgeState) (rs : List ℕ) → s.pending_pop ≡ rs → IsRound s (drain_one s rs)
unfolding drain_one collect
drain_one-IsRound s [] none_wait = drain_batch-IsRound s s.pending_pop_batch none_wait refl
drain_one-IsRound s (resolver ∷ rest) waits =
    let q = (try_pop_batch s.queue 1).1 in
    elim (List-cases (try_pop_batch s.queue 1).0) [
      | inl nil ↦
          let (left, all) = empty_of_no_batch s.queue 1 nil in
          let e : drain_one s (resolver ∷ rest) ≡ (record s { queue = q }, none) =
            rw (drain_one, nil) refl in
          subst (IsRound s) (sym e) (stops (unserved s q (left ∙ sym all)) (inl left))
      | inr (id, more, some_ids) ↦
          let e : drain_one s (resolver ∷ rest)
              ≡ (record s { queue = q; pending_pop = rest }, some (one resolver id)) =
            rw (drain_one, some_ids) refl in
          let front = single s.queue id more some_ids in
          subst (IsRound s) (sym e) (
            wakes
              (record {
                order = front;
                ones = sym (append-nil s.pending_pop ∙ waits);
                batches = sym (append-nil (resolvers s.pending_pop_batch));
              })
              (fewer_left id [] q.pending s.queue.pending front))
    ]

drain_round-IsRound : (s : BridgeState) → IsRound s (drain_round s)
unfolding drain_round
drain_round-IsRound s = drain_one-IsRound s s.pending_pop refl

-- The loop from a state on returns, with all that it does to the queue and the promises.
abbrev Returns : Script → ℕ → BridgeState → Type 0
Returns js fuel s =
    (s' : BridgeState) × (es : List Entry) × (drain_pending_pops js fuel s ≡ some (s', es))
    × IsDrained s es s'
    × IsSettled s'

-- The queue is no longer after calls of JavaScript.
not_longer :
    (s s' : BridgeState) (es : List Entry)
    → IsDrained s es s'
    → length s'.queue.pending < suc (length s.queue.pending)
not_longer s s' es h =
    omega (
      arith,
      length-append (collect ids_in es) s'.queue.pending,
      ap (length {A = RequestId}) h.order,
    )

after_round-Returns :
    (js : Script) (fuel : ℕ) (s : BridgeState) (o : BridgeState × Option Resolution)
    → IsRound s o
    → length s.queue.pending < suc fuel
    → ((t : BridgeState) → length t.queue.pending < fuel → Returns js fuel t)
    → (s' : BridgeState) × (es : List Entry) × (after_round js (drain_pending_pops js fuel) o
        ≡ some (s', es))
      × IsDrained s es s'
      × IsSettled s'
unfolding after_round
after_round-Returns js fuel s (s', none) (stops d settled) room ih = (s', [], refl, d, settled)
after_round-Returns js fuel s (s', some r) (wakes d less) room ih =
    let calls = run_pops s' (js r s') in
    let ran = run_pops-IsDrained s' (js r s') in
    let (last, es, rest, drained, settled) =
      ih calls.0 (omega (arith, not_longer s' calls.0 calls.1 ran)) in
    (
      last,
      woken r ∷ (calls.1 ++ es),
      rw (after_round, rest) refl,
      then-IsDrained s s' last (woken r ∷ []) (calls.1 ++ es) d
          (then-IsDrained s' calls.0 last calls.1 es ran drained),
      settled,
    )

-- Whatever calls JavaScript makes when a promise is resolved: with fuel for more rounds than there
-- are ids in the queue, `drain_pending_pops` returns, with the queue empty or no promise waiting. The
-- ids that promises or calls got in the meantime, in order, were the front of the queue, and the rest
-- is left; the promises that were resolved, of either kind, were the first of those that waited at the
-- beginning and then began to wait, in order, and the others still wait.
pub drain_pending_pops_ends :
    (js : Script) (fuel : ℕ) (s : BridgeState)
    → length s.queue.pending < fuel
    → (s' : BridgeState) × (es : List Entry) × (drain_pending_pops js fuel s ≡ some (s', es))
      × IsDrained s es s'
      × IsSettled s'
unfolding drain_pending_pops
drain_pending_pops_ends js zero s room = absurd (omega arith)
drain_pending_pops_ends js (suc fuel) s room =
    after_round-Returns js fuel s (drain_round s) (drain_round-IsRound s) room
      (λ t less. drain_pending_pops_ends js fuel t less)

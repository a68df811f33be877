-- ===== src/Engine/Bridge/Draining/Fairness.antt =====
-- What a drain of Engine/Bridge/Draining leaves of the queue and of the waiting promises, for single
-- calls of JavaScript and sequences of them.
use mathlib.Core.List.{append_assoc, append-nil}
use mathlib.Core.Path.{subst}
use nexide.Prelude.{
  ℕ, ◌≡◌, refl, sym, ap, ◌∙◌, inl, inr, List, [], ◌∷◌, ◌++◌, max, arith, length, List-cases,
}
use nexide.Ops.DispatchTable.{RequestId}
use nexide.Ops.Queue.{RequestQueue, try_pop_batch}
use nexide.Ops.Queue.Order.{try_pop_batch_front}
use nexide.Engine.Bridge.{
  BridgeState, one, batch, op_pop_request, op_pop_request_batch, op_try_pop_request_batch,
}
use nexide.Engine.Bridge.Draining.{
  PopCall, pop_call, pop_batch_call, try_pop_call, Entry, woken, taken, parked, parked_batch,
  ids_of, entry_of, run_pop, run_pops,
}

-- What the entries of a drain contribute, in order.
module _ {A : Type 0} (part : Entry → List A) where
  unfoldable pub collect : List Entry → List A
  collect [] = []
  collect (e ∷ es) = part e ++ collect es

  collect-append : (es fs : List Entry) → collect (es ++ fs) ≡ collect es ++ collect fs
  unfolding collect
  collect-append [] fs = refl
  collect-append (e ∷ es) fs =
      ap (◌++◌ (part e)) (collect-append es fs)
      ∙ sym (append_assoc (part e) (collect es) (collect fs))

-- The ids that leave the queue, for a promise or for JavaScript itself.
abbrev pub ids_in : Entry → List RequestId
ids_in (woken r) = ids_of r
ids_in (taken ids) = ids
ids_in (parked resolver) = []
ids_in (parked_batch resolver) = []

-- The promises for one id that the loop resolves, and those that begin to wait.
abbrev pub woken_one : Entry → List ℕ
woken_one (woken (one resolver id)) = resolver ∷ []
woken_one (woken (batch resolver ids)) = []
woken_one (taken ids) = []
woken_one (parked resolver) = []
woken_one (parked_batch resolver) = []

abbrev pub parked_one : Entry → List ℕ
parked_one (woken r) = []
parked_one (taken ids) = []
parked_one (parked resolver) = resolver ∷ []
parked_one (parked_batch resolver) = []

-- The same for the promises for a batch.
abbrev pub woken_batch : Entry → List ℕ
woken_batch (woken (one resolver id)) = []
woken_batch (woken (batch resolver ids)) = resolver ∷ []
woken_batch (taken ids) = []
woken_batch (parked resolver) = []
woken_batch (parked_batch resolver) = []

abbrev pub parked_for_batch : Entry → List ℕ
parked_for_batch (woken r) = []
parked_for_batch (taken ids) = []
parked_for_batch (parked resolver) = []
parked_for_batch (parked_batch resolver) = resolver ∷ []

abbrev pub resolvers : List (ℕ × ℕ) → List ℕ
resolvers [] = []
resolvers ((resolver, cap) ∷ rest) = resolver ∷ resolvers rest

-- From a state to another by some entries: the ids that they name left the front of the queue, in
-- order, and the promises that they resolve left the front of their list, at whose end those that
-- they park were put.
pub record IsDrained (s : BridgeState) (es : List Entry) (s' : BridgeState) : Type 0 where
  pub order : collect ids_in es ++ s'.queue.pending ≡ s.queue.pending
  pub ones : collect woken_one es ++ s'.pending_pop ≡ s.pending_pop ++ collect parked_one es
  pub batches :
      collect woken_batch es ++ resolvers s'.pending_pop_batch
      ≡ resolvers s.pending_pop_batch ++ collect parked_for_batch es

module _ {A : Type 0} (part park : Entry → List A) where
  -- What was taken first goes in front of what was taken later.
  taken_after :
      (es fs : List Entry) (q q' q'' : List A)
      → collect part es ++ q' ≡ q
      → collect part fs ++ q'' ≡ q'
      → collect part (es ++ fs) ++ q'' ≡ q
  taken_after es fs q q' q'' e f =
      ap (λ x. x ++ q'') (collect-append part es fs)
      ∙ append_assoc (collect part es) (collect part fs) q''
      ∙ ap (◌++◌ (collect part es)) f
      ∙ e

  -- The same for a list that grows at its end.
  served_after :
      (es fs : List Entry) (p p' p'' : List A)
      → collect part es ++ p' ≡ p ++ collect park es
      → collect part fs ++ p'' ≡ p' ++ collect park fs
      → collect part (es ++ fs) ++ p'' ≡ p ++ collect park (es ++ fs)
  served_after es fs p p' p'' e f =
      ap (λ x. x ++ p'') (collect-append part es fs)
      ∙ append_assoc (collect part es) (collect part fs) p''
      ∙ ap (◌++◌ (collect part es)) f
      ∙ sym (append_assoc (collect part es) p' (collect park fs))
      ∙ ap (λ x. x ++ collect park fs) e
      ∙ append_assoc p (collect park es) (collect park fs)
      ∙ ap (◌++◌ p) (sym (collect-append park es fs))

pub nothing-IsDrained : (s : BridgeState) → IsDrained s [] s
unfolding collect
nothing-IsDrained s = record {
  order = refl;
  ones = sym (append-nil s.pending_pop);
  batches = sym (append-nil (resolvers s.pending_pop_batch));
}

pub then-IsDrained :
    (s s' s'' : BridgeState) (es fs : List Entry)
    → IsDrained s es s'
    → IsDrained s' fs s''
    → IsDrained s (es ++ fs) s''
then-IsDrained s s' s'' es fs h k = record {
  order =
      taken_after ids_in ids_in es fs s.queue.pending s'.queue.pending s''.queue.pending h.order
        k.order;
  ones =
      served_after woken_one parked_one es fs s.pending_pop s'.pending_pop s''.pending_pop h.ones
        k.ones;
  batches =
      served_after woken_batch parked_for_batch es fs (resolvers s.pending_pop_batch)
        (resolvers s'.pending_pop_batch) (resolvers s''.pending_pop_batch) h.batches k.batches;
}

-- An empty batch comes from an empty queue only.
pub empty_of_no_batch :
    (q : RequestQueue) (m : ℕ)
    → (try_pop_batch q m).0 ≡ []
    → ((try_pop_batch q m).1.pending ≡ []) × (q.pending ≡ [])
empty_of_no_batch q m e =
    let (front, n) = try_pop_batch_front q m in
    let rest : (try_pop_batch q m).1.pending ≡ q.pending = rw e at front in
    let none_left : length q.pending ≡ 0 = omega (arith, n, ap (length {A = RequestId}) e) in
    elim (List-cases q.pending) [
      | inl nil ↦ (rest ∙ nil, nil)
      | inr (x, xs, more) ↦ absurd (omega (arith, none_left, ap (length {A = RequestId}) more))
    ]

-- A batch of one has one id.
pub single :
    (q : RequestQueue) (id : RequestId) (more : List RequestId)
    → (try_pop_batch q 1).0 ≡ id ∷ more
    → id ∷ [] ++ (try_pop_batch q 1).1.pending ≡ q.pending
single q id more e =
    let (front, n) = try_pop_batch_front q 1 in
    elim (List-cases more) [
      | inl nil ↦
          let one_id : (try_pop_batch q 1).0 ≡ id ∷ [] = e ∙ ap (◌∷◌ id) nil in rw one_id at front
      | inr (x, xs, two) ↦
          absurd (omega (arith, n, ap (length {A = RequestId}) e, ap (length {A = RequestId}) two))
    ]

resolvers-append : (xs ys : List (ℕ × ℕ)) → resolvers (xs ++ ys) ≡ resolvers xs ++ resolvers ys
resolvers-append [] ys = refl
resolvers-append ((r, cap) ∷ xs) ys = ap (◌∷◌ r) (resolvers-append xs ys)

-- Ids that JavaScript takes by itself leave the waiting promises alone.
taken-IsDrained :
    (s : BridgeState) (q : RequestQueue) (ids : List RequestId)
    → ids ++ q.pending ≡ s.queue.pending
    → IsDrained s (taken ids ∷ []) (record s { queue = q })
unfolding collect
taken-IsDrained s q ids e = record {
  order = ap (λ x. x ++ q.pending) (append-nil ids) ∙ e;
  ones = sym (append-nil s.pending_pop);
  batches = sym (append-nil (resolvers s.pending_pop_batch));
}

-- A call of JavaScript.
run_pop-IsDrained :
    (s : BridgeState) (c : PopCall) → IsDrained s ((run_pop s c).1 ∷ []) (run_pop s c).0
unfolding run_pop op_pop_request op_pop_request_batch op_try_pop_request_batch entry_of collect
run_pop-IsDrained s (pop_call resolver) =
    let Good : BridgeState × Entry → Type 0 = λ o. IsDrained s (o.1 ∷ []) o.0 in
    let q = (try_pop_batch s.queue 1).1 in
    elim (List-cases (try_pop_batch s.queue 1).0) [
      | inl nil ↦
          let (left, all) = empty_of_no_batch s.queue 1 nil in
          let e : run_pop s (pop_call resolver) ≡ (
            record s { queue = q; pending_pop = s.pending_pop ++ resolver ∷ [] },
            parked resolver,
          ) =
            rw (run_pop, op_pop_request, nil) refl in
          subst Good (sym e) (record {
            order = left ∙ sym all;
            ones = refl;
            batches = sym (append-nil (resolvers s.pending_pop_batch));
          })
      | inr (id, more, some_ids) ↦
          let e : run_pop s (pop_call resolver) ≡ (record s { queue = q }, taken (id ∷ [])) =
            rw (run_pop, op_pop_request, some_ids) refl in
          subst Good (sym e) (taken-IsDrained s q (id ∷ []) (single s.queue id more some_ids))
    ]
run_pop-IsDrained s (pop_batch_call resolver requested) =
    let Good : BridgeState × Entry → Type 0 = λ o. IsDrained s (o.1 ∷ []) o.0 in
    let m = max requested 1 in
    let q = (try_pop_batch s.queue m).1 in
    elim (List-cases (try_pop_batch s.queue m).0) [
      | inl nil ↦
          let (left, all) = empty_of_no_batch s.queue m nil in
          let e : run_pop s (pop_batch_call resolver requested) ≡ (
            record s { queue = q; pending_pop_batch = s.pending_pop_batch ++ (resolver, m) ∷ [] },
            parked_batch resolver,
          ) =
            rw (run_pop, op_pop_request_batch, nil) refl in
          subst Good (sym e) (record {
            order = left ∙ sym all;
            ones = sym (append-nil s.pending_pop);
            batches = resolvers-append s.pending_pop_batch ((resolver, m) ∷ []);
          })
      | inr (id, more, some_ids) ↦
          let e : run_pop s (pop_batch_call resolver requested)
              ≡ (record s { queue = q }, taken (id ∷ more)) =
            rw (run_pop, op_pop_request_batch, some_ids) refl in
          let front = (try_pop_batch_front s.queue m).0 in
          subst Good (sym e) (taken-IsDrained s q (id ∷ more) (rw some_ids at front))
    ]
run_pop-IsDrained s (try_pop_call requested) =
    taken-IsDrained s (try_pop_batch s.queue (max requested 1)).1
      (try_pop_batch s.queue (max requested 1)).0 (try_pop_batch_front s.queue (max requested 1)).0

pub run_pops-IsDrained :
    (s : BridgeState) (cs : List PopCall) → IsDrained s (run_pops s cs).1 (run_pops s cs).0
unfolding run_pops
run_pops-IsDrained s [] = nothing-IsDrained s
run_pops-IsDrained s (c ∷ cs) =
    let (s', e) = run_pop s c in
    then-IsDrained s s' (run_pops s' cs).0 (e ∷ []) (run_pops s' cs).1 (run_pop-IsDrained s c)
      (run_pops-IsDrained s' cs)

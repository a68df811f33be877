-- ===== src/Server/Accept/Delivery.antt =====
-- Where the connections that the acceptor gets end up.
use nexide.Prelude.{
  ℕ, zero, suc, ◌+◌, ◌<◌, ◌≡◌, refl, sym, ap, ◌∙◌, Bool, List, [], ◌∷◌, ◌++◌, Option, none, some,
  length, length-set, get_elem?, set, if◌then◌else◌, arith, Option-cases, inl, inr,
}
use nexide.Prelude.Options.{some-inj}
use nexide.Prelude.Results.{ok, Result-cases, ok-inj}
use nexide.Server.Accept.{
  Channel, IsChannel, WorkerRuntime, Acceptor, full, closed, send_on, sent, try_send_stream,
  with_worker, drop_stream, after_secondary, after_primary, dispatch_stream, on_sender, worker_acts,
  advanced,
}
use nexide.Server.Accept.Sampling.{pick_worker-AreCandidates}

module _ {Conn : Type 0} where
  -- How many connections of a list pass a test.
  unfoldable pub tally : (Conn → Bool) → List Conn → ℕ
  tally p [] = 0
  tally p (c ∷ cs) = (if p c then 1 else 0) + tally p cs

  pub tally-append :
      (p : Conn → Bool) (xs ys : List Conn) → tally p (xs ++ ys) ≡ tally p xs + tally p ys
  unfolding tally
  tally-append p [] ys = omega arith
  tally-append p (x ∷ xs) ys = omega (arith, tally-append p xs ys)

module _ {Conn : Type 0} (ch : Channel Conn) where
  unfoldable pub entered_on : Option ch.Sender → List Conn
  entered_on none = []
  entered_on (some tx) = ch.entered tx

  -- How many of the connections that ever entered a mailbox pass the test.
  unfoldable pub held : (Conn → Bool) → List (WorkerRuntime ch) → ℕ
  unfolding tally entered_on
  held p [] = 0
  held p (w ∷ ws) = tally p (entered_on w.stream_tx) + held p ws

  -- The connections in the mailboxes and the dropped ones that pass the test.
  unfoldable pub total : (Conn → Bool) → Acceptor ch → ℕ
  unfolding held
  total p s = held p s.workers + tally p s.dropped

  held-set :
      (p : Conn → Bool) (ws : List (WorkerRuntime ch)) (i : ℕ) {w : WorkerRuntime ch}
      (w' : WorkerRuntime ch)
      → get_elem? ws i ≡ some w
      → held p (set ws i w') + tally p (entered_on w.stream_tx)
        ≡ held p ws + tally p (entered_on w'.stream_tx)
  unfolding held
  held-set p [] i w' h = cc
  held-set p (x ∷ ws) zero w' h =
      let same = ap (λ v. tally p (entered_on v.stream_tx)) (some-inj h) in omega arith
  held-set p (x ∷ ws) (suc i) w' h = omega (arith, held-set p ws i w' h)

  -- The state after a connection: it is in a mailbox or dropped.
  pub record IsSettled (c : Conn) (s s' : Acceptor ch) : Type 0 where
    pub size : length s'.workers ≡ length s.workers
    pub balance : (p : Conn → Bool) → total p s' ≡ total p s + tally p (c ∷ [])

  drop_stream-IsSettled : (s : Acceptor ch) (c : Conn) → IsSettled c s (drop_stream ch s c)
  unfolding drop_stream total
  drop_stream-IsSettled s c = record {
    size = refl;
    balance = λ p. omega (arith, tally-append p s.dropped (c ∷ []));
  }

  on_sender-entered :
      (f : ch.Sender → ch.Sender)
      → ((tx : ch.Sender) → ch.entered (f tx) ≡ ch.entered tx)
      → (w : WorkerRuntime ch) → entered_on (on_sender ch f w).stream_tx ≡ entered_on w.stream_tx
  unfolding on_sender entered_on
  on_sender-entered f keeps w = elim (Option-cases w.stream_tx) [
    | inl e ↦ rw e refl
    | inr (tx, e) ↦ rw e (keeps tx)
  ]

  module _ (laws : IsChannel ch) where
    sent-entered :
        (w : WorkerRuntime ch) (o : Option ch.Sender) (c : Conn) {w' : WorkerRuntime ch}
        → send_on ch w o c ≡ ok w'
        → (p : Conn → Bool)
        → tally p (entered_on w'.stream_tx) ≡ tally p (entered_on o) + tally p (c ∷ [])
    unfolding send_on sent entered_on
    sent-entered w none c h p = cc
    sent-entered w (some tx) c {w' = w'} h p = elim (Result-cases (ch.try_send tx c)) [
      | inr (e, refused) ↦ absurd (cc)
      | inl (tx', done) ↦
          let same : record w { stream_tx = some tx' } ≡ w' =
            ok-inj (ap (sent ch w) (sym done) ∙ h) in
          ap (λ v. tally p (entered_on v.stream_tx)) (sym same)
          ∙ ap (tally p) (laws.sends done)
          ∙ tally-append p (ch.entered tx) (c ∷ [])
    ]

    with_worker-IsSettled :
        (s : Acceptor ch) (i : ℕ) (c : Conn) {w w' : WorkerRuntime ch}
        → get_elem? s.workers i ≡ some w
        → try_send_stream ch w c ≡ ok w'
        → IsSettled c s (with_worker ch s i w')
    unfolding with_worker total try_send_stream
    with_worker-IsSettled s i c {w} {w'} at h = record {
      size = length-set s.workers i w';
      balance = λ p. omega (arith, held-set p s.workers i w' at, sent-entered w w.stream_tx c h p);
    }

    after_secondary-IsSettled :
        (s : Acceptor ch) (i : ℕ) (c : Conn) {w : WorkerRuntime ch}
        → get_elem? s.workers i ≡ some w
        → IsSettled c s (after_secondary ch s i c (try_send_stream ch w c))
    unfolding after_secondary
    after_secondary-IsSettled s i c {w} at = elim (Result-cases (try_send_stream ch w c)) [
      | inl (w', done) ↦ rw done (with_worker-IsSettled s i c at done)
      | inr (e, refused) ↦ rw refused (drop_stream-IsSettled s c)
    ]

    after_primary-IsSettled :
        (s : Acceptor ch) (i j : ℕ) (c : Conn) {w v : WorkerRuntime ch}
        → get_elem? s.workers i ≡ some w
        → get_elem? s.workers j ≡ some v
        → (s' : Acceptor ch) × (after_primary ch s i j c (try_send_stream ch w c) ≡ some s')
          × IsSettled c s s'
    unfolding after_primary
    after_primary-IsSettled s i j c {w} {v} at jt = elim (Result-cases (try_send_stream ch w c)) [
      | inl (w', done) ↦ (with_worker ch s i w', rw done refl, with_worker-IsSettled s i c at done)
      | inr (full, refused) ↦ (
        after_secondary ch s j c (try_send_stream ch v c),
        rw (refused, after_primary, jt) refl,
        after_secondary-IsSettled s j c jt,
      )
      | inr (closed, refused) ↦ (drop_stream ch s c, rw refused refl, drop_stream-IsSettled s c)
    ]

    -- One connection: with a worker at hand, `dispatch_stream` never panics.
    pub dispatch_stream-IsSettled :
        (s : Acceptor ch) (c : Conn)
        → 0 < length s.workers
        → (s' : Acceptor ch) × (dispatch_stream ch s c ≡ some s') × IsSettled c s s'
    unfolding dispatch_stream advanced total
    dispatch_stream-IsSettled s c pos =
        let ((i, j), picked, k) = pick_worker-AreCandidates ch s pos in
        let (s', run, settled) =
          after_primary-IsSettled (advanced ch s) i j c k.first_at k.second_at in
        (
          s',
          rw (dispatch_stream, picked, k.first_at) run,
          record { size = settled.size; balance = settled.balance },
        )

    -- What a worker does with its mailbox keeps every tally.
    pub worker_acts-kept :
        (f : ch.Sender → ch.Sender)
        → ((tx : ch.Sender) → ch.entered (f tx) ≡ ch.entered tx)
        → (s : Acceptor ch) (i : ℕ)
        → (length (worker_acts ch f s i).workers ≡ length s.workers)
          × ((p : Conn → Bool) → total p (worker_acts ch f s i) ≡ total p s)
    unfolding worker_acts with_worker total
    worker_acts-kept f keeps s i = elim (Option-cases (get_elem? s.workers i)) [
      | inl e ↦
          let same : worker_acts ch f s i ≡ s = rw (worker_acts, e) refl in
          (ap (λ t. length t.workers) same, λ p. ap (total p) same)
      | inr (w, e) ↦
          let w' = on_sender ch f w in
          let same : worker_acts ch f s i ≡ with_worker ch s i w' = rw (worker_acts, e) refl in
          (
            ap (λ t. length t.workers) same ∙ length-set s.workers i w',
            λ p.
                ap (total p) same
                ∙ omega (
                  arith,
                  held-set p s.workers i w' e,
                  ap (tally p) (on_sender-entered f keeps w),
                ),
          )
    ]

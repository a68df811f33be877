-- ===== src/Server/Accept/Conservation.antt =====
-- The connections through a whole run of the accept loop: each is in a mailbox or dropped.
use nexide.Prelude.{
  ◌+◌, ◌<◌, ◌≡◌, refl, ◌∙◌, Bool, List, [], ◌∷◌, Option, some, length, if◌then◌else◌, arith,
  Bool-cases, inl, inr,
}
use nexide.Server.Accept.{
  Channel, IsChannel, WorkerRuntime, Acceptor, Event, shutdown, accepted, failed, received, ended,
  Ending, running, returned, fatal, worker_acts, is_transient_accept_error, accept_loop,
  run_accept_loop,
}
use nexide.Server.Accept.Delivery.{
  tally, tally-append, held, total, dispatch_stream-IsSettled, worker_acts-kept,
}

module _ {Conn : Type 0} (ch : Channel Conn) where
  -- What the loop accepts before it returns.
  unfoldable pub arrivals : List (Event ch) → List Conn
  unfolding is_transient_accept_error
  arrivals [] = []
  arrivals (shutdown ∷ es) = []
  arrivals (accepted c ∷ es) = c ∷ arrivals es
  arrivals (failed kind ∷ es) =
      let rest = arrivals es in if is_transient_accept_error kind then rest else []
  arrivals (received i ∷ es) = arrivals es
  arrivals (ended i ∷ es) = arrivals es

  module _ (laws : IsChannel ch) where
    -- What the loop leaves behind, for the tests of connections.
    record IsConserved (s : Acceptor ch) (es : List (Event ch))
        (result : Option (Ending ch × Acceptor ch)) : Type 0 where
      ending : Ending ch
      final : Acceptor ch
      run : result ≡ some (ending, final)
      size : length final.workers ≡ length s.workers
      balance : (p : Conn → Bool) → total ch p final ≡ total ch p s + tally p (arrivals es)

    stopped :
        (s : Acceptor ch) (es : List (Event ch)) (e : Ending ch)
        → arrivals es ≡ []
        → IsConserved s es (some (e, s))
    unfolding tally
    stopped s es e none_left = record {
      ending = e;
      final = s;
      run = refl;
      size = refl;
      balance = λ p. rw none_left (omega arith);
    }

    accept_loop-IsConserved :
        (s : Acceptor ch) (es : List (Event ch))
        → 0 < length s.workers
        → IsConserved s es (accept_loop ch s es)
    unfolding accept_loop arrivals
    accept_loop-IsConserved s [] pos = stopped s [] running refl
    accept_loop-IsConserved s (shutdown ∷ es) pos = stopped s (shutdown ∷ es) returned refl
    accept_loop-IsConserved s (accepted c ∷ es) pos =
        let (s', once, settled) = dispatch_stream-IsSettled ch laws s c pos in
        let rest = accept_loop-IsConserved s' es (omega (arith, settled.size)) in
        record {
          ending = rest.ending;
          final = rest.final;
          run = rw once rest.run;
          size = rest.size ∙ settled.size;
          balance = λ p.
              omega
                (arith, rest.balance p, settled.balance p, tally-append p (c ∷ []) (arrivals es));
        }
    accept_loop-IsConserved s (failed kind ∷ es) pos =
        let rest = accept_loop-IsConserved s es pos in
        elim (Bool-cases (is_transient_accept_error kind)) [
          | inl t ↦ record {
            ending = rest.ending;
            final = rest.final;
            run = rw t rest.run;
            size = rest.size;
            balance = λ p. rw t (rest.balance p);
          }
          | inr f ↦ rw f (stopped s (failed kind ∷ es) (fatal kind) (rw f refl))
        ]
    accept_loop-IsConserved s (received i ∷ es) pos =
        let (size, same) = worker_acts-kept ch laws ch.recv laws.receives s i in
        let rest = accept_loop-IsConserved (worker_acts ch ch.recv s i) es (omega arith) in
        record {
          ending = rest.ending;
          final = rest.final;
          run = rest.run;
          size = rest.size ∙ size;
          balance = λ p. omega (arith, rest.balance p, same p);
        }
    accept_loop-IsConserved s (ended i ∷ es) pos =
        let (size, same) = worker_acts-kept ch laws ch.close laws.closes s i in
        let rest = accept_loop-IsConserved (worker_acts ch ch.close s i) es (omega arith) in
        record {
          ending = rest.ending;
          final = rest.final;
          run = rest.run;
          size = rest.size ∙ size;
          balance = λ p. omega (arith, rest.balance p, same p);
        }

    -- With a worker, the loop never panics, whatever the workers do meanwhile; at any time, the
    -- connections that pass a test, in the mailboxes so far or dropped, are as many as those that
    -- were there at first and those that it has accepted: none is lost or delivered twice.
    pub run_accept_loop-conserves :
        (w : WorkerRuntime ch) (ws : List (WorkerRuntime ch)) (es : List (Event ch))
        → (ending : Ending ch) × (s : Acceptor ch) × (run_accept_loop ch (w ∷ ws) es
            ≡ some (ending, s))
          × ((p : Conn → Bool)
              → held ch p s.workers + tally p s.dropped
                ≡ held ch p (w ∷ ws) + tally p (arrivals es))
    unfolding run_accept_loop total tally
    run_accept_loop-conserves w ws es =
        let start : Acceptor ch = record {
          workers = w ∷ ws;
          picker_a = 0;
          picker_b = 0;
          dropped = [];
        } in
        let k = accept_loop-IsConserved start es (omega arith) in
        (k.ending, k.final, k.run, λ p. omega (arith, k.balance p))

-- ===== src/Tests/Accept.antt =====
-- A run of the accept loop on mailboxes for one connection, and its properties there.
use nexide.Prelude.{
  ℕ, ◌+◌, ◌-◌, ◌≡◌, ◌⊎◌, refl, sym, ap, ◌≢◌, lt→ltb, inl, Bool, true, false, List, [], ◌∷◌, ◌++◌,
  Option, none, some, length, get_elem?, ltb, if◌then◌else◌, arith,
}
use nexide.Prelude.Results.{Result, ok, err, ok-inj}
use nexide.Server.Accept.{
  TrySendError, full, closed, Channel, IsChannel, WorkerRuntime, Acceptor, Event, Ending, shutdown,
  accepted, failed, received, interrupted, run_accept_loop, pick_worker, sample_a, sample_b,
  try_send_stream, dispatch_stream, with_worker, advanced, queue_depth,
}
use nexide.Server.Accept.Delivery.{tally, held}
use nexide.Server.Accept.Conservation.{arrivals, run_accept_loop-conserves}
use nexide.Server.Accept.Room.{dispatch_stream-delivers}

-- A sender with the connections that wait, all that ever entered, and whether the worker is gone.
record Line : Type 0 where
  waiting : List ℕ
  log : List ℕ
  gone : Bool

abbrev line_capacity : Line → ℕ
line_capacity line = 1 - length line.waiting

abbrev line_send : Line → ℕ → Result TrySendError Line
line_send line c =
    if line.gone
    then err closed
    else if ltb 0 (line_capacity line)
    then ok (record line { waiting = line.waiting ++ c ∷ []; log = line.log ++ c ∷ [] })
    else err full

abbrev rest_of : List ℕ → List ℕ
rest_of [] = []
rest_of (c ∷ cs) = cs

abbrev lines : Channel ℕ
lines = record {
  Sender = Line;
  capacity = line_capacity;
  try_send = line_send;
  recv = λ line. record line { waiting = rest_of line.waiting };
  close = λ line. record line { gone = true };
  is_closed = λ line. line.gone;
  entered = λ line. line.log;
}

line_send-entered :
    (gone room : Bool) (line line' : Line) (c : ℕ)
    → (if gone
        then err closed
        else if room
        then ok (record line { waiting = line.waiting ++ c ∷ []; log = line.log ++ c ∷ [] })
        else err full)
      ≡ ok line'
    → line'.log ≡ line.log ++ c ∷ []
line_send-entered true room line line' c h = cc
line_send-entered false true line line' c h = ap (λ l. l.log) (sym (ok-inj h))
line_send-entered false false line line' c h = cc

line_not_closed :
    (room gone : Bool) (line : Line)
    → gone ≡ false
    → (if gone then err closed else if room then ok line else err full) ≢ err closed
line_not_closed room true line alive h = cc
line_not_closed true false line alive h = cc
line_not_closed false false line alive h = cc

lines-IsChannel : IsChannel lines
lines-IsChannel = record {
  sends =
      λ {tx}. λ {tx'}. λ {c}. λ h. line_send-entered tx.gone (ltb 0 (line_capacity tx)) tx tx' c h;
  receives = λ tx. refl;
  closes = λ tx. refl;
  has_room = λ tx c alive room. (
    record tx { waiting = tx.waiting ++ c ∷ []; log = tx.log ++ c ∷ [] },
    rw (alive, lt→ltb 0 (line_capacity tx) room) refl,
  );
  closed_only = λ tx c alive h.
      line_not_closed (ltb 0 (line_capacity tx)) tx.gone
        (record tx { waiting = tx.waiting ++ c ∷ []; log = tx.log ++ c ∷ [] }) alive h;
}

abbrev fresh_line : Line
fresh_line = record { waiting = []; log = []; gone = false }

abbrev worker : ℕ → Line → WorkerRuntime lines
worker i line = record { idx = i; stream_tx = some line }

abbrev odd : ℕ → Bool
odd n = ltb n 3

-- Connections 1 and 2 go to the two workers, 3 finds both full and is dropped, 4 enters again.
abbrev busy : List (Event lines)
busy =
    accepted 1
    ∷ accepted 2
    ∷ failed interrupted
    ∷ accepted 3
    ∷ received 0
    ∷ accepted 4
    ∷ shutdown
    ∷ []

run_accept_loop-conserves_example :
    (ending : Ending lines) × (s : Acceptor lines) × (run_accept_loop lines
        (worker 0 fresh_line ∷ worker 1 fresh_line ∷ [])
        busy
      ≡ some (ending, s))
    × ((p : ℕ → Bool)
        → held lines p s.workers + tally p s.dropped
          ≡ held lines p (worker 0 fresh_line ∷ worker 1 fresh_line ∷ [])
            + tally p (arrivals lines busy))
run_accept_loop-conserves_example =
    run_accept_loop-conserves lines lines-IsChannel (worker 0 fresh_line) (worker 1 fresh_line ∷ [])
      busy

-- The second worker has no connection yet: it takes the one that the first has no room for.
abbrev half_full : Acceptor lines
half_full = record {
  workers =
      worker 0 (record fresh_line { waiting = 7 ∷ [] })
      ∷ worker 1 (record fresh_line { waiting = [] })
      ∷ [];
  picker_a = 0;
  picker_b = 7;
  dropped = [];
}

half_full_picks : pick_worker lines half_full ≡ some (1, 0)
unfolding pick_worker sample_a sample_b queue_depth
half_full_picks = refl

dispatch_stream-delivers_example :
    (k : ℕ) × (u : WorkerRuntime lines) × (u' : WorkerRuntime lines) × ((k ≡ 1) ⊎ (k ≡ 0))
    × (get_elem? half_full.workers k ≡ some u)
    × (try_send_stream lines u 8 ≡ ok u')
    × (dispatch_stream lines half_full 8 ≡ some (with_worker lines (advanced lines half_full) k u'))
dispatch_stream-delivers_example =
    dispatch_stream-delivers lines lines-IsChannel half_full 8 1 0 (worker 1 fresh_line)
      (worker 0 (record fresh_line { waiting = 7 ∷ [] })) fresh_line
      (record fresh_line { waiting = 7 ∷ [] }) half_full_picks refl refl
      (record { sender = refl; alive = refl }) (record { sender = refl; alive = refl })
      (inl (omega arith))

-- The run of `busy`: one connection is dropped, and the loop returns.
abbrev dropped_of : Option (Ending lines × Acceptor lines) → List ℕ
dropped_of none = []
dropped_of (some (ending, s)) = s.dropped

busy_drops :
    dropped_of (run_accept_loop lines (worker 0 fresh_line ∷ worker 1 fresh_line ∷ []) busy)
    ≡ 3 ∷ []
unfolding run_accept_loop sample_a sample_b queue_depth
busy_drops = refl

-- ===== src/Server/Accept.antt =====
-- crates/nexide/src/server/accept_loop.rs, and the mailboxes of server/worker_runtime.rs: how
-- connections reach the workers. The channel between the acceptor and a worker is another crate's, a
-- parameter; a panic is `none`.
pub mod Sampling
pub mod Delivery
pub mod Conservation
pub mod Room
use nexide.Prelude.{
  ℕ, zero, suc, ◌+◌, ◌-◌, ◌%◌, ◌^◌, ◌<◌, ◌≡◌, Bool, true, false, List, [], ◌∷◌, ◌++◌, Option, none,
  some, length, get_elem?, set, ltb, ◌==◌, if◌then◌else◌,
}
use nexide.Prelude.Options.{◌>>=◌}
use nexide.Prelude.Results.{Result, ok, err}

-- `mpsc::error::TrySendError`, which hands the connection back.
pub data TrySendError : Type 0 where
  full : TrySendError
  closed : TrySendError

-- `io::ErrorKind` of a failed accept
pub data ErrorKind : Type 0 where
  connection_aborted : ErrorKind
  connection_reset : ErrorKind
  interrupted : ErrorKind
  would_block : ErrorKind
  other_kind : ℕ → ErrorKind

-- A bounded channel for connections, from the side of its sender; what the worker does with its end
-- is `recv` and `close`, and `entered` is every connection that was ever put in, in order.
pub record Channel (Conn : Type 0) : Type 1 where
  pub Sender : Type 0
  pub capacity : Sender → ℕ
  pub try_send : Sender → Conn → Result TrySendError Sender
  pub recv : Sender → Sender
  pub close : Sender → Sender
  pub is_closed : Sender → Bool
  pub entered : Sender → List Conn

-- What a channel promises.
pub record IsChannel {Conn : Type 0} (ch : Channel Conn) : Type 0 where
  pub sends :
      {tx tx' : ch.Sender} {c : Conn}
      → ch.try_send tx c ≡ ok tx'
      → ch.entered tx' ≡ ch.entered tx ++ c ∷ []
  pub receives : (tx : ch.Sender) → ch.entered (ch.recv tx) ≡ ch.entered tx
  pub closes : (tx : ch.Sender) → ch.entered (ch.close tx) ≡ ch.entered tx
  pub has_room :
      (tx : ch.Sender) (c : Conn)
      → ch.is_closed tx ≡ false
      → 0 < ch.capacity tx
      → (tx' : ch.Sender) × (ch.try_send tx c ≡ ok tx')
  pub closed_only :
      (tx : ch.Sender) (c : Conn) → ch.is_closed tx ≡ false → ch.try_send tx c ≡ err closed → ⊥

abbrev pub stream_mailbox_capacity : ℕ
stream_mailbox_capacity = 32

abbrev pub picker_stride_b : ℕ
picker_stride_b = 7

-- `fetch_add` on an `AtomicUsize`
abbrev pub fetch_add : ℕ → ℕ → ℕ
fetch_add n k = (n + k) % 2 ^ 64

-- `is_transient_accept_error`
unfoldable pub is_transient_accept_error : ErrorKind → Bool
is_transient_accept_error connection_aborted = true
is_transient_accept_error connection_reset = true
is_transient_accept_error interrupted = true
is_transient_accept_error would_block = true
is_transient_accept_error (other_kind n) = false

-- The two samples of `pick_worker` among `n` workers.
unfoldable pub sample_a : ℕ → ℕ → ℕ
sample_a n picker_a = picker_a % n

unfoldable pub sample_b : ℕ → ℕ → ℕ → ℕ
unfolding sample_a
sample_b n picker_a picker_b =
    let b = picker_b % n in if b == sample_a n picker_a then (b + 1) % n else b

module _ {Conn : Type 0} (ch : Channel Conn) where
  -- A worker started to accept by itself has no sender.
  pub record WorkerRuntime : Type 0 where
    pub idx : ℕ
    pub stream_tx : Option ch.Sender

  -- The acceptor: its workers, its two counters, and the connections that it has dropped.
  pub record Acceptor : Type 0 where
    pub workers : List WorkerRuntime
    pub picker_a : ℕ
    pub picker_b : ℕ
    pub dropped : List Conn

  unfoldable pub depth_of : Option ch.Sender → ℕ
  depth_of none = 0
  depth_of (some tx) = stream_mailbox_capacity - ch.capacity tx

  -- `WorkerRuntime::queue_depth`
  unfoldable pub queue_depth : WorkerRuntime → ℕ
  unfolding depth_of
  queue_depth w = depth_of w.stream_tx

  unfoldable pub sent :
      WorkerRuntime → Result TrySendError ch.Sender → Result TrySendError WorkerRuntime
  sent w (ok tx) = ok (record w { stream_tx = some tx })
  sent w (err e) = err e

  unfoldable pub send_on :
      WorkerRuntime → Option ch.Sender → Conn → Result TrySendError WorkerRuntime
  unfolding sent
  send_on w none c = err closed
  send_on w (some tx) c = sent w (ch.try_send tx c)

  -- `WorkerRuntime::try_send_stream`, with the worker after the send
  unfoldable pub try_send_stream : WorkerRuntime → Conn → Result TrySendError WorkerRuntime
  unfolding send_on
  try_send_stream w c = send_on w w.stream_tx c

  -- The comparison of the depths: the first of the two goes first on a tie.
  unfoldable pub by_depth : List WorkerRuntime → ℕ → ℕ → Option (ℕ × ℕ)
  unfolding queue_depth
  by_depth workers a b = do
    worker_a ← get_elem? workers a
    worker_b ← get_elem? workers b
    some (if ltb (queue_depth worker_b) (queue_depth worker_a) then (b, a) else (a, b))

  unfoldable pub candidates_among : ℕ → Acceptor → Option (ℕ × ℕ)
  unfolding by_depth sample_a sample_b
  candidates_among zero s = none
  candidates_among (suc zero) s = some (0, 0)
  candidates_among (suc (suc n)) s =
      by_depth s.workers (sample_a (suc (suc n)) s.picker_a)
        (sample_b (suc (suc n)) s.picker_a s.picker_b)

  -- `pick_worker`: the two candidates, the better first. It advances both counters, below.
  unfoldable pub pick_worker : Acceptor → Option (ℕ × ℕ)
  unfolding candidates_among
  pick_worker s = candidates_among (length s.workers) s

  -- The acceptor after the two `fetch_add`s of `pick_worker`.
  unfoldable pub advanced : Acceptor → Acceptor
  advanced s = record s {
    picker_a = fetch_add s.picker_a 1;
    picker_b = fetch_add s.picker_b picker_stride_b;
  }

  unfoldable pub with_worker : Acceptor → ℕ → WorkerRuntime → Acceptor
  with_worker s i w = record s { workers = set s.workers i w }

  unfoldable pub drop_stream : Acceptor → Conn → Acceptor
  drop_stream s c = record s { dropped = s.dropped ++ c ∷ [] }

  -- The second attempt, whose failure of either kind drops the connection.
  unfoldable pub after_secondary :
      Acceptor → ℕ → Conn → Result TrySendError WorkerRuntime → Acceptor
  unfolding with_worker drop_stream
  after_secondary s i c (ok w) = with_worker s i w
  after_secondary s i c (err e) = drop_stream s c

  -- What follows the first attempt: only a full mailbox leads to a second one.
  unfoldable pub after_primary :
      Acceptor → ℕ → ℕ → Conn → Result TrySendError WorkerRuntime → Option Acceptor
  unfolding with_worker drop_stream after_secondary try_send_stream
  after_primary s i j c (ok w) = some (with_worker s i w)
  after_primary s i j c (err full) = do
    worker ← get_elem? s.workers j
    some (after_secondary s j c (try_send_stream worker c))
  after_primary s i j c (err closed) = some (drop_stream s c)

  -- `dispatch_stream`
  unfoldable pub dispatch_stream : Acceptor → Conn → Option Acceptor
  unfolding pick_worker after_primary try_send_stream advanced
  dispatch_stream s c = do
    (primary, secondary) ← pick_worker s
    worker ← get_elem? s.workers primary
    after_primary (advanced s) primary secondary c (try_send_stream worker c)

  -- What wakes the loop, and what the workers do in between: one takes a connection, or ends.
  pub data Event : Type 0 where
    shutdown : Event
    accepted : Conn → Event
    failed : ErrorKind → Event
    received : ℕ → Event
    ended : ℕ → Event

  -- The result of the loop: still running after these events, or returned, with an error if fatal.
  pub data Ending : Type 0 where
    running : Ending
    returned : Ending
    fatal : ErrorKind → Ending

  unfoldable pub on_sender : (ch.Sender → ch.Sender) → WorkerRuntime → WorkerRuntime
  on_sender f w = elim w.stream_tx [ none ↦ w | some tx ↦ record w { stream_tx = some (f tx) } ]

  unfoldable pub worker_acts : (ch.Sender → ch.Sender) → Acceptor → ℕ → Acceptor
  unfolding on_sender with_worker
  worker_acts f s i = elim (get_elem? s.workers i) [
    | none ↦ s
    | some w ↦ with_worker s i (on_sender f w)
  ]

  -- The loop of `run_accept_loop`.
  unfoldable pub accept_loop : Acceptor → List Event → Option (Ending × Acceptor)
  unfolding dispatch_stream is_transient_accept_error worker_acts
  accept_loop s [] = some (running, s)
  accept_loop s (shutdown ∷ es) = some (returned, s)
  accept_loop s (accepted c ∷ es) = dispatch_stream s c >>= λ s'. accept_loop s' es
  accept_loop s (failed kind ∷ es) =
      let rest = accept_loop s es in
      if is_transient_accept_error kind then rest else some (fatal kind, s)
  accept_loop s (received i ∷ es) = accept_loop (worker_acts ch.recv s i) es
  accept_loop s (ended i ∷ es) = accept_loop (worker_acts ch.close s i) es

  -- `run_accept_loop`, which asserts that there is a worker.
  unfoldable pub run_accept_loop : List WorkerRuntime → List Event → Option (Ending × Acceptor)
  unfolding accept_loop
  run_accept_loop [] es = none
  run_accept_loop (w ∷ ws) es =
      accept_loop (record { workers = w ∷ ws; picker_a = 0; picker_b = 0; dropped = [] }) es

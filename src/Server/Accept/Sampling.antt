-- ===== src/Server/Accept/Sampling.antt =====
-- The two candidates of `pick_worker`.
use native.Mathlib.Nat.{mod-lt}
use nexide.Prelude.{
  ℕ, zero, suc, ◌+◌, ◌%◌, ◌≤◌, ◌<◌, ◌≡◌, ◌≢◌, refl, sym, List, some, length, get_elem?,
  get_elem?_below, ltb, ◌==◌, if-elim, arith,
}
use nexide.Prelude.Words.{next_differs}
use nexide.Server.Accept.{
  Channel, WorkerRuntime, Acceptor, sample_a, sample_b, queue_depth, by_depth, candidates_among,
  pick_worker,
}

-- Two workers of the list, different unless there is only one, of which the first has no more
-- connections in its mailbox than the second.
pub record AreCandidates {Conn : Type 0} (ch : Channel Conn) (workers : List (WorkerRuntime ch))
    (ij : ℕ × ℕ) : Type 0 where
  pub first : WorkerRuntime ch
  pub second : WorkerRuntime ch
  pub first_at : get_elem? workers ij.0 ≡ some first
  pub second_at : get_elem? workers ij.1 ≡ some second
  pub lower : queue_depth ch first ≤ queue_depth ch second
  pub apart : 2 ≤ length workers → ij.0 ≢ ij.1

samples_apart :
    (n a b : ℕ)
    → 2 ≤ n
    → (sample_a n a < n) × (sample_b n a b < n) × (sample_a n a ≢ sample_b n a b)
unfolding sample_a sample_b
samples_apart n a b two =
    let la : a % n < n = mod-lt a (omega arith) in
    let lb : b % n < n = mod-lt b (omega arith) in
    (
      la,
      if-elim (λ x. x < n) (b % n == a % n) (λ t. mod-lt (b % n + 1) (omega arith)) (λ f. lb),
      if-elim (λ x. a % n ≢ x) (b % n == a % n)
          (λ t. next_differs n (a % n) (b % n) two la (ground arith))
          (λ f e. absurd (ground arith)),
    )

module _ {Conn : Type 0} (ch : Channel Conn) where
  by_depth-AreCandidates :
      (workers : List (WorkerRuntime ch)) (a b : ℕ)
      → a < length workers
      → b < length workers
      → a ≢ b
      → (ij : ℕ × ℕ) × (by_depth ch workers a b ≡ some ij) × AreCandidates ch workers ij
  unfolding by_depth
  by_depth-AreCandidates workers a b la lb ne =
      let (wa, at) = get_elem?_below workers a la in
      let (wb, bt) = get_elem?_below workers b lb in
      (
        _,
        rw (by_depth, at, bt) refl,
        if-elim (AreCandidates ch workers) (ltb (queue_depth ch wb) (queue_depth ch wa))
            (λ t. record {
              first = wb;
              second = wa;
              first_at = bt;
              second_at = at;
              lower = ground arith;
              apart = λ two e. ne (sym e);
            })
            (λ f. record {
              first = wa;
              second = wb;
              first_at = at;
              second_at = bt;
              lower = ground arith;
              apart = λ two. ne;
            }),
      )

  candidates_among-AreCandidates :
      (n : ℕ) (s : Acceptor ch)
      → n ≡ length s.workers
      → 0 < n
      → (ij : ℕ × ℕ) × (candidates_among ch n s ≡ some ij) × AreCandidates ch s.workers ij
  unfolding candidates_among
  candidates_among-AreCandidates zero s e pos = absurd (omega arith)
  candidates_among-AreCandidates (suc zero) s e pos =
      let (w, at) = get_elem?_below s.workers 0 (omega arith) in
      (
        (0, 0),
        refl,
        record {
          first = w;
          second = w;
          first_at = at;
          second_at = at;
          lower = omega arith;
          apart = λ two. absurd (omega arith);
        },
      )
  candidates_among-AreCandidates (suc (suc n)) s e pos =
      let (la, lb, ne) = samples_apart (suc (suc n)) s.picker_a s.picker_b (omega arith) in
      by_depth-AreCandidates s.workers _ _ (omega arith) (omega arith) ne

  -- With a worker at hand, `pick_worker` gives two candidates.
  pub pick_worker-AreCandidates :
      (s : Acceptor ch)
      → 0 < length s.workers
      → (ij : ℕ × ℕ) × (pick_worker ch s ≡ some ij) × AreCandidates ch s.workers ij
  unfolding pick_worker
  pick_worker-AreCandidates s pos = candidates_among-AreCandidates (length s.workers) s refl pos

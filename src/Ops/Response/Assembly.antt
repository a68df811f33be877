-- ===== src/Ops/Response/Assembly.antt =====
-- The response that a sequence of `send_head` and `send_chunk` calls leaves for `finish`.
use mathlib.Core.List.{append-nil, append_assoc}
use nexide.Prelude.{
  ◌≡◌, refl, sym, ap, ◌∙◌, Bool, true, false, ◌&&◌, List, [], ◌∷◌, ◌++◌, some, leb, if◌then◌else◌,
  Bool-cases, inl, inr,
}
use nexide.Prelude.Results.{Result, ok, err}
use nexide.Ops.Request.{Bytes}
use nexide.Ops.Response.{
  ResponseHead, ResponseSlot, ResponsePayload, ResponseError, finish_without_head, new, send_head,
  send_chunk, concat, assemble, finish,
}

-- One call of the op layer.
pub data Call : Type 0 where
  head : ResponseHead → Call
  chunk : Bytes → Call

-- A call that is refused leaves the slot as it was.
abbrev pub settled : ResponseSlot → Result ResponseError ResponseSlot → ResponseSlot
settled slot (ok slot') = slot'
settled slot (err e) = slot

unfoldable pub apply : ResponseSlot → Call → ResponseSlot
unfolding send_head send_chunk
apply slot (head h) = settled slot (send_head slot h)
apply slot (chunk c) = settled slot (send_chunk slot c)

unfoldable pub run : ResponseSlot → List Call → ResponseSlot
unfolding apply
run slot [] = slot
run slot (c ∷ cs) = run (apply slot c) cs

abbrev pub valid_status : ResponseHead → Bool
valid_status h = leb 100 h.status && leb h.status 599

-- The bytes of the chunks, in order.
unfoldable pub body_of : List Call → Bytes
body_of [] = []
body_of (head _ ∷ cs) = body_of cs
body_of (chunk c ∷ cs) = c ++ body_of cs

-- What the calls amount to: the first head with a valid status, and the chunks behind it.
unfoldable pub expected : List Call → Result ResponseError ResponsePayload
unfolding body_of
expected [] = err finish_without_head
expected (head h ∷ cs) =
    let rest = expected cs in
    if valid_status h then ok (record { head = h; body = body_of cs }) else rest
expected (chunk _ ∷ cs) = expected cs

concat-append : (xs ys : List Bytes) → concat (xs ++ ys) ≡ concat xs ++ concat ys
unfolding concat
concat-append [] ys = refl
concat-append (x ∷ xs) ys = rw (concat-append xs ys) (sym (append_assoc x (concat xs) (concat ys)))

-- The single-chunk and empty cases of `finish` are no exceptions.
pub assemble-eq-concat : (cs : List Bytes) → assemble cs ≡ concat cs
unfolding assemble concat
assemble-eq-concat [] = refl
assemble-eq-concat (c ∷ []) = sym (append-nil c)
assemble-eq-concat (c ∷ d ∷ cs) = refl

abbrev opened : ResponseHead → List Bytes → ResponseSlot
opened h chunks = record { head = some h; chunks = chunks; finished = false }

apply_head_again :
    (h k : ResponseHead) (chunks : List Bytes) → apply (opened h chunks) (head k) ≡ opened h chunks
unfolding apply send_head
apply_head_again h k chunks = refl

concat_chunk :
    (h : ResponseHead) (chunks : List Bytes) (c : Bytes)
    → (chunks' : List Bytes) × (apply (opened h chunks) (chunk c) ≡ opened h chunks')
      × (concat chunks' ≡ concat chunks ++ c)
unfolding apply send_chunk concat
concat_chunk h chunks [] = (chunks, refl, sym (append-nil (concat chunks)))
concat_chunk h chunks (b ∷ bs) = (
  chunks ++ (b ∷ bs) ∷ [],
  refl,
  concat-append chunks ((b ∷ bs) ∷ []) ∙ ap (◌++◌ (concat chunks)) (append-nil (b ∷ bs)),
)

finish-opened :
    (h : ResponseHead) (chunks : List Bytes) (calls : List Call)
    → finish (run (opened h chunks) calls)
      ≡ ok (record { head = h; body = concat chunks ++ body_of calls })
unfolding finish run body_of
finish-opened h chunks [] =
    ap (λ b. ok (record { head = h; body = b }))
      (assemble-eq-concat chunks ∙ sym (append-nil (concat chunks)))
finish-opened h chunks (head k ∷ cs) = rw (apply_head_again h k chunks) (finish-opened h chunks cs)
finish-opened h chunks (chunk c ∷ cs) =
    let (chunks', e, b) = concat_chunk h chunks c in
    rw e (
      finish-opened h chunks' cs
      ∙ ap (λ b. ok (record { head = h; body = b }))
          (ap (λ x. x ++ body_of cs) b ∙ append_assoc (concat chunks) c (body_of cs)))

apply_head_valid : (h : ResponseHead) → valid_status h ≡ true → apply new (head h) ≡ opened h []
unfolding apply send_head
apply_head_valid h e = rw e

apply_head_invalid : (h : ResponseHead) → valid_status h ≡ false → apply new (head h) ≡ new
unfolding apply send_head
apply_head_invalid h e = rw e

apply_chunk_early : (c : Bytes) → apply new (chunk c) ≡ new
unfolding apply send_chunk
apply_chunk_early c = refl

-- Whatever calls JavaScript makes on a fresh slot, valid or not, `finish` gives the first head
-- with a status in 100..=599 and the concatenation of all chunks sent after it, and fails with
-- `finish_without_head` exactly when no such head was sent.
pub finish-run : (calls : List Call) → finish (run new calls) ≡ expected calls
unfolding finish run expected
finish-run [] = refl
finish-run (head h ∷ cs) = elim (Bool-cases (valid_status h)) [
  | inl good ↦ rw (apply_head_valid h good, good) (unfold concat in finish-opened h [] cs)
  | inr bad ↦ rw (apply_head_invalid h bad, bad) (finish-run cs)
]
finish-run (chunk c ∷ cs) = rw (apply_chunk_early c) (finish-run cs)

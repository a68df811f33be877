-- ===== src/Ops/Response.antt =====
-- crates/nexide/src/ops/response.rs: the response that JavaScript builds call by call.
pub mod Assembly
use nexide.Prelude.{
  ℕ, Bool, not, true, false, ◌&&◌, List, [], ◌∷◌, ◌++◌, Option, none, some, leb, if◌then◌else◌,
}
use nexide.Prelude.Results.{Result, ok, err}
use nexide.Ops.Request.{Bytes, HeaderPair, is_empty}

pub record ResponseHead : Type 0 where
  pub status : ℕ
  pub headers : List HeaderPair

pub record ResponseSlot : Type 0 where
  pub head : Option ResponseHead
  pub chunks : List Bytes
  pub finished : Bool

pub record ResponsePayload : Type 0 where
  pub head : ResponseHead
  pub body : Bytes

pub data ResponseError : Type 0 where
  head_already_sent already_finished chunk_before_head finish_without_head : ResponseError
  invalid_status : ℕ → ResponseError

-- `ResponseSlot::new`, which is `Default::default`
abbrev pub new : ResponseSlot
new = record { head = none; chunks = []; finished = false }

unfoldable pub is_some {ℓ} : {A : Type ℓ} → Option A → Bool
is_some none = false
is_some (some _) = true

unfoldable pub send_head : ResponseSlot → ResponseHead → Result ResponseError ResponseSlot
unfolding is_some
send_head slot head =
    if slot.finished
    then err already_finished
    else if is_some slot.head
    then err head_already_sent
    else if not (leb 100 head.status && leb head.status 599)
    then err (invalid_status head.status)
    else ok (record slot { head = some head })

unfoldable pub send_chunk : ResponseSlot → Bytes → Result ResponseError ResponseSlot
unfolding is_some is_empty
send_chunk slot chunk =
    if slot.finished
    then err already_finished
    else if not (is_some slot.head)
    then err chunk_before_head
    else if not (is_empty chunk)
    then ok (record slot { chunks = slot.chunks ++ chunk ∷ [] })
    else ok slot

-- The loop of `extend_from_slice` calls.
pub concat : List Bytes → Bytes
concat [] = []
concat (c ∷ cs) = c ++ concat cs

-- The body: nothing, the only chunk as it is, or the chunks in one buffer.
unfoldable pub assemble : List Bytes → Bytes
unfolding concat
assemble [] = []
assemble (c ∷ []) = c
assemble (c ∷ d ∷ cs) = concat (c ∷ d ∷ cs)

-- `finish` consumes the slot.
unfoldable pub finish : ResponseSlot → Result ResponseError ResponsePayload
unfolding assemble
finish slot = elim slot.head [
  | none ↦ err finish_without_head
  | some head ↦ ok (record { head = head; body = assemble slot.chunks })
]

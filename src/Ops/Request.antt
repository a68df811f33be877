-- ===== src/Ops/Request.antt =====
-- crates/nexide/src/ops/request.rs: the request line, its validation, and the body cursor.
-- Text is the list of its UTF-8 bytes.
pub mod Validation
pub mod Reading
use nexide.Prelude.{
  ℕ, ◌+◌, ◌*◌, Bool, ◌&&◌, ◌||◌, not, true, false, List, [], ◌∷◌, ◌++◌, Option, none, some, min,
  length, take, drop, leb, ltb, ◌==◌, if◌then◌else◌,
}
use nexide.Prelude.Results.{Result, ok, err}

abbrev pub Bytes : Type 0
Bytes = List ℕ

pub record RequestMeta : Type 0 where
  pub method : Bytes
  pub uri : Bytes

-- `REQUEST_META_MAX_LEN`
abbrev pub request_meta_max_len : ℕ
request_meta_max_len = 8 * 1024

pub data Field : Type 0 where
  method_field uri_field : Field

pub data RequestMetaError : Type 0 where
  empty_method empty_uri : RequestMetaError
  too_long : Field → RequestMetaError
  invalid_method : RequestMetaError

unfoldable pub is_empty {ℓ} : {A : Type ℓ} → List A → Bool
is_empty [] = true
is_empty (_ ∷ _) = false

-- The punctuation among the token bytes of RFC 9110, in the order of the source.
abbrev token_punctuation : Bytes
token_punctuation =
    b'!' ∷ b'#' ∷ b'$' ∷ b'%' ∷ b'&' ∷ 39 ∷ b'*' ∷ b'+' ∷ b'-' ∷ b'.' ∷ b'^' ∷ b'_' ∷ b'`' ∷ b'|'
    ∷ b'~' ∷ []

unfoldable pub contains : Bytes → ℕ → Bool
contains [] b = false
contains (c ∷ cs) b = b == c || contains cs b

unfoldable pub is_http_token_byte : ℕ → Bool
unfolding contains
is_http_token_byte b =
    contains token_punctuation b
    || (leb b'0' b && leb b b'9')
    || (leb b'A' b && leb b b'Z')
    || (leb b'a' b && leb b b'z')

-- `bytes().all(p)`
unfoldable pub all : (ℕ → Bool) → Bytes → Bool
all p [] = true
all p (b ∷ bs) = p b && all p bs

unfoldable pub try_new : Bytes → Bytes → Result RequestMetaError RequestMeta
unfolding is_empty
try_new method uri =
    if is_empty method
    then err empty_method
    else if is_empty uri
    then err empty_uri
    else if ltb request_meta_max_len (length method)
    then err (too_long method_field)
    else if ltb request_meta_max_len (length uri)
    then err (too_long uri_field)
    else if not (all is_http_token_byte method)
    then err invalid_method
    else ok (record { method = method; uri = uri })

pub record HeaderPair : Type 0 where
  pub name : Bytes
  pub value : Bytes

pub record RequestSlot : Type 0 where
  pub meta : RequestMeta
  pub headers : List HeaderPair
  pub body : Bytes
  pub body_cursor : ℕ

-- `RequestSlot::new`
unfoldable pub new : RequestMeta → List HeaderPair → Bytes → RequestSlot
new meta headers body = record { meta = meta; headers = headers; body = body; body_cursor = 0 }

-- `read_body` into the buffer `dst`: the count, the buffer, and the slot. `none` is the panic of
-- slicing `body[body_cursor..]` past the end.
unfoldable pub read_body : RequestSlot → Bytes → Option (ℕ × Bytes × RequestSlot)
read_body slot dst =
    if ltb (length slot.body) slot.body_cursor
    then none
    else (let remaining = drop slot.body_cursor slot.body in
        let n = min (length remaining) (length dst) in
        some
          (n, take n remaining ++ drop n dst, record slot { body_cursor = slot.body_cursor + n }))

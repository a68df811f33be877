-- ===== src/Ops/Request/Validation.antt =====
-- About the request lines that `RequestMeta::try_new` accepts.
use nexide.Prelude.{◌≤◌, ◌<◌, ◌≡◌, refl, ◌↔◌, ◌⊎◌, inl, inr, true, false, [], ◌∷◌, arith, length}
use nexide.Prelude.Results.{ok, err}
use nexide.Ops.Request.{
  Bytes, RequestMeta, RequestMetaError, request_meta_max_len, empty_method, empty_uri, too_long,
  invalid_method, method_field, uri_field, is_empty, is_http_token_byte, all, try_new,
}

abbrev pub AllTokens : Bytes → Type 0
AllTokens [] = Unit {0}
AllTokens (b ∷ bs) = (is_http_token_byte b ≡ true) × AllTokens bs

all-AllTokens : (bs : Bytes) → all is_http_token_byte bs ≡ true → AllTokens bs
unfolding all
all-AllTokens [] h = tt
all-AllTokens (b ∷ bs) h = (ground arith, all-AllTokens bs (ground arith))

all_of_AllTokens : (bs : Bytes) → AllTokens bs → all is_http_token_byte bs ≡ true
unfolding all
all_of_AllTokens [] h = refl
all_of_AllTokens (b ∷ bs) (t, h) = rw (t, all_of_AllTokens bs h)

pub record IsAdmissible (method uri : Bytes) : Type 0 where
  pub method_given : 1 ≤ length method
  pub method_fits : length method ≤ request_meta_max_len
  pub uri_given : 1 ≤ length uri
  pub uri_fits : length uri ≤ request_meta_max_len
  pub tokens : AllTokens method

is_empty-length :
    (bs : Bytes)
    → ((is_empty bs ≡ true) × (length bs ≡ 0)) ⊎ ((is_empty bs ≡ false) × (1 ≤ length bs))
unfolding is_empty
is_empty-length [] = inl (refl, refl)
is_empty-length (b ∷ bs) = inr (refl, omega arith)

-- `try_new` accepts a method and a URI exactly if both have 1 to 8192 bytes and every byte of the
-- method is a token byte, and then it stores them unchanged.
pub try_new-IsAdmissible :
    (method uri : Bytes) (meta : RequestMeta)
    → (try_new method uri ≡ ok meta)
      ↔ (IsAdmissible method uri × (meta ≡ record { method = method; uri = uri }))
unfolding try_new
try_new-IsAdmissible method uri meta = (there, back)
  where
    there :
        try_new method uri ≡ ok meta
        → IsAdmissible method uri × (meta ≡ record { method = method; uri = uri })
    there h = ground (arith, is_empty-length method, is_empty-length uri, all-AllTokens method)

    back :
        IsAdmissible method uri × (meta ≡ record { method = method; uri = uri })
        → try_new method uri ≡ ok meta
    back (a, same) =
        ground
          (arith, is_empty-length method, is_empty-length uri, all_of_AllTokens method a.tokens)

-- The refusals, in the order of the tests: a field that is empty or too long is reported before
-- a bad method byte, and the method before the URI within each test.
pub try_new_errors :
    (method uri : Bytes) (e : RequestMetaError)
    → try_new method uri ≡ err e
    → ((length method ≡ 0) × (e ≡ empty_method))
      ⊎ ((1 ≤ length method) × (length uri ≡ 0) × (e ≡ empty_uri))
      ⊎ ((request_meta_max_len < length method) × (1 ≤ length uri) × (e ≡ too_long method_field))
      ⊎ ((length method ≤ request_meta_max_len)
          × (request_meta_max_len < length uri)
          × (e ≡ too_long uri_field))
      ⊎ ((all is_http_token_byte method ≡ false) × (e ≡ invalid_method))
unfolding try_new
try_new_errors method uri e h = ground (arith, is_empty-length method, is_empty-length uri)

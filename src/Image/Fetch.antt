-- ===== src/Image/Fetch.antt =====
-- crates/nexide/src/image/handler.rs: fetching a remote image with its redirects (`fetch_remote`).
-- URLs and the HTTP client are other crates': the parameters are parsing and joining URLs, the
-- allowlist test, and what the client answers to a request. A fetch also gives the URLs requested.
pub mod Redirects
use nexide.Prelude.{
  ℕ, zero, suc, Bool, true, false, not, ◌&&◌, ◌||◌, List, [], ◌∷◌, Option, none, some, length, ltb,
  leb, ◌==◌, if◌then◌else◌,
}
use nexide.Prelude.Results.{Result, ok, err}
use nexide.Prelude.Text.{Text}
use nexide.Ops.Request.{is_empty}

-- The error responses of `fetch_remote`.
pub data FetchError : Type 0 where
  url_invalid : FetchError
  url_not_allowed : FetchError
  timed_out : FetchError
  send_failed : FetchError
  redirect_without_location : FetchError
  too_many_redirects : FetchError
  bad_location : FetchError
  upstream_status : ℕ → FetchError
  payload_too_large : FetchError
  body_failed : FetchError
  empty_body : FetchError

-- An upstream response: what is read of the headers, where `max_age` is what
-- `parse_cache_control_max_age` makes of them, and the body if it arrives.
pub record Upstream : Type 0 where
  pub status : ℕ
  pub location : Option Text
  pub etag : Text
  pub max_age : ℕ
  pub content_length : Option ℕ
  pub body : Option (List ℕ)

pub data SendOutcome : Type 0 where
  timeout : SendOutcome
  failed : SendOutcome
  response : Upstream → SendOutcome

pub record Source : Type 0 where
  pub bytes : List ℕ
  pub upstream_etag : Text
  pub upstream_max_age : ℕ

unfoldable pub is_redirect : ℕ → Bool
is_redirect status =
    (status == 301) || (status == 302) || (status == 303) || (status == 307) || (status == 308)

-- `StatusCode::is_success`
unfoldable pub is_success : ℕ → Bool
is_success status = leb 200 status && ltb status 300

-- `if let Some(cl) = resp.content_length() && cl > max`
unfoldable pub announces_more : Option ℕ → ℕ → Bool
announces_more none max = false
announces_more (some n) max = ltb max n

-- `max_redirects` and `max_body` are the settings `maximum_redirects` and `maximum_response_body`.
unfoldable pub read_source : ℕ → Upstream → Result FetchError Source
unfolding is_success announces_more is_empty
read_source max_body r = elim (is_success r.status) [
  | false ↦ err (upstream_status r.status)
  | true ↦ elim (announces_more r.content_length max_body) [
    | true ↦ err payload_too_large
    | false ↦ elim r.body [
      | none ↦ err body_failed
      | some body ↦ elim (ltb max_body (length body)) [
        | true ↦ err payload_too_large
        | false ↦ elim (is_empty body) [
          | true ↦ err empty_body
          | false ↦
              ok (record { bytes = body; upstream_etag = r.etag; upstream_max_age = r.max_age })
        ]
      ]
    ]
  ]
]

-- What a round of the loop makes of the client's outcome: a result, or a move to a location.
pub data Round : Type 0 where
  ends : Result FetchError Source → Round
  moves : Text → Round

unfoldable pub round_of : ℕ → SendOutcome → Round
unfolding is_redirect read_source
round_of max_body timeout = ends (err timed_out)
round_of max_body failed = ends (err send_failed)
round_of max_body (response r) = elim (is_redirect r.status) [
  | false ↦ ends (read_source max_body r)
  | true ↦ elim r.location [ none ↦ ends (err redirect_without_location) | some loc ↦ moves loc ]
]

module _ {Url : Type 0} (send : Url → SendOutcome) (join : Url → Text → Option Url) where
  -- The loop: `redirects_left` is its counter.
  unfoldable pub fetch_loop : ℕ → ℕ → Url → Result FetchError Source × List Url
  unfolding round_of
  fetch_loop max_body zero current = elim (round_of max_body (send current)) [
    | ends result ↦ (result, current ∷ [])
    | moves loc ↦ (err too_many_redirects, current ∷ [])
  ]
  fetch_loop max_body (suc left) current = elim (round_of max_body (send current)) [
    | ends result ↦ (result, current ∷ [])
    | moves loc ↦ elim (join current loc) [
      | none ↦ (err bad_location, current ∷ [])
      | some next ↦
          let (result, requested) = fetch_loop max_body left next in (result, current ∷ requested)
    ]
  ]

  -- `fetch_remote`
  unfoldable pub fetch_remote :
      (Text → Option Url) → (Url → Bool) → ℕ → ℕ → Text → Result FetchError Source × List Url
  unfolding fetch_loop
  fetch_remote parse_url allowed max_redirects max_body href = elim (parse_url href) [
    | none ↦ (err url_invalid, [])
    | some parsed ↦ elim (allowed parsed) [
      | false ↦ (err url_not_allowed, [])
      | true ↦ fetch_loop max_body max_redirects parsed
    ]
  ]

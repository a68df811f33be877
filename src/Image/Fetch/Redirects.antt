-- ===== src/Image/Fetch/Redirects.antt =====
-- About the requests and the result of a remote fetch.
use nexide.Prelude.{
  ℕ, zero, suc, ◌≤◌, ◌≡◌, ◌⊎◌, refl, ap, inl, inr, Bool, true, false, List, [], ◌∷◌, Option, some,
  length, arith, ltb, Bool-cases, Option-cases,
}
use nexide.Prelude.Results.{Result, ok, err}
use nexide.Prelude.Text.{Text}
use nexide.Ops.Request.{is_empty}
use nexide.Image.Fetch.{
  FetchError, Upstream, SendOutcome, response, timeout, failed, Source, is_redirect, is_success,
  announces_more, read_source, Round, ends, moves, round_of, fetch_loop, fetch_remote,
}

-- The bounds on an image that was fetched.
pub record IsFetched (max_body : ℕ) (source : Source) : Type 0 where
  pub nonempty : 1 ≤ length source.bytes
  pub bounded : length source.bytes ≤ max_body

unfoldable pub GivesFetched : ℕ → Result FetchError Source → Type 0
GivesFetched max_body (ok source) = IsFetched max_body source
GivesFetched max_body (err e) = Unit

nonempty_length : (s : List ℕ) → is_empty s ≡ false → 1 ≤ length s
unfolding is_empty
nonempty_length [] h = absurd (ground arith)
nonempty_length (c ∷ s) h = omega arith

read_source-GivesFetched :
    (max_body : ℕ) (r : Upstream) → GivesFetched max_body (read_source max_body r)
unfolding read_source GivesFetched
read_source-GivesFetched max_body r = elim (Bool-cases (is_success r.status)) [
  | inr f ↦ rw (read_source, f) tt
  | inl t ↦ elim (Bool-cases (announces_more r.content_length max_body)) [
    | inl more ↦ rw (read_source, t, more) tt
    | inr fine ↦ elim (Option-cases r.body) [
      | inl n ↦ rw (read_source, t, fine, n) tt
      | inr (body, b) ↦ elim (Bool-cases (ltb max_body (length body))) [
        | inl large ↦ rw (read_source, t, fine, b, large) tt
        | inr fits ↦ elim (Bool-cases (is_empty body)) [
          | inl e ↦ rw (read_source, t, fine, b, fits, e) tt
          | inr present ↦
              rw (read_source, t, fine, b, fits, present)
                record { nonempty = nonempty_length body present; bounded = ground arith }
        ]
      ]
    ]
  ]
]

unfoldable pub RoundGives : ℕ → Round → Type 0
RoundGives max_body (ends result) = GivesFetched max_body result
RoundGives max_body (moves loc) = Unit

round_of-RoundGives : (max_body : ℕ) (o : SendOutcome) → RoundGives max_body (round_of max_body o)
unfolding round_of RoundGives GivesFetched
round_of-RoundGives max_body timeout = tt
round_of-RoundGives max_body failed = tt
round_of-RoundGives max_body (response r) = elim (Bool-cases (is_redirect r.status)) [
  | inr f ↦ rw (round_of, f) (read_source-GivesFetched max_body r)
  | inl t ↦ elim (Option-cases r.location) [
    | inl n ↦ rw (round_of, t, n) tt
    | inr (loc, l) ↦ rw (round_of, t, l) tt
  ]
]

Round-cases :
    (r : Round)
    → ((res : Result FetchError Source) × (r ≡ ends res)) ⊎ ((loc : Text) × (r ≡ moves loc))
Round-cases (ends res) = inl (res, refl)
Round-cases (moves loc) = inr (loc, refl)

module _ {Url : Type 0} (send : Url → SendOutcome) (join : Url → Text → Option Url) where
  -- Each URL after `url` is where the answer to the one before it points.
  unfoldable pub IsChain : ℕ → Url → List Url → Type 0
  IsChain max_body url [] = Unit
  IsChain max_body url (next ∷ urls) =
      ((loc : Text) × (round_of max_body (send url) ≡ moves loc) × (join url loc ≡ some next))
      × IsChain max_body next urls

  -- A fetch from `url` with at most `redirects` redirects.
  pub record FetchOutcome (max_body redirects : ℕ) (url : Url)
      (o : Result FetchError Source × List Url) : Type 0 where
    pub later : List Url
    pub requested : o.1 ≡ url ∷ later
    pub few : length later ≤ redirects
    pub chain : IsChain max_body url later
    pub gives : GivesFetched max_body o.0

  stops :
      (max_body redirects : ℕ) (url : Url) (res : Result FetchError Source)
      → GivesFetched max_body res
      → FetchOutcome max_body redirects url (res, url ∷ [])
  unfolding IsChain
  stops max_body redirects url res g = record {
    later = [];
    requested = refl;
    few = omega arith;
    chain = tt;
    gives = g;
  }

  fetch_loop-FetchOutcome :
      (max_body redirects : ℕ) (url : Url)
      → FetchOutcome max_body redirects url (fetch_loop send join max_body redirects url)
  unfolding fetch_loop IsChain GivesFetched RoundGives
  fetch_loop-FetchOutcome max_body zero url = elim (Round-cases (round_of max_body (send url))) [
    | inl (res, e) ↦
        rw (fetch_loop, e)
          (stops max_body 0 url res (rw e at (round_of-RoundGives max_body (send url))))
    | inr (loc, e) ↦ rw (fetch_loop, e) (stops max_body 0 url _ tt)
  ]
  fetch_loop-FetchOutcome max_body (suc left) url =
      elim (Round-cases (round_of max_body (send url))) [
        | inl (res, e) ↦
            rw (fetch_loop, e)
              (stops max_body (suc left) url res
                (rw e at (round_of-RoundGives max_body (send url))))
        | inr (loc, e) ↦ elim (Option-cases (join url loc)) [
          | inl n ↦ rw (fetch_loop, e, n) (stops max_body (suc left) url _ tt)
          | inr (next, j) ↦
              let ih = fetch_loop-FetchOutcome max_body left next in
              rw (fetch_loop, e, j)
                record {
                  later = next ∷ ih.later;
                  requested = ap (◌∷◌ url) ih.requested;
                  few = omega (arith, ih.few);
                  chain = ((loc, e, j), ih.chain);
                  gives = ih.gives;
                }
        ]
      ]

  -- Whatever the client, the URL parser and the allowlist do, a fetch whose URL parses and is
  -- allowed ends after at most one request more than the redirects allowed; the first request is
  -- for that URL, each later one for the location that the answer before it gave, and an image that
  -- it gives has at least one byte and at most `max_body`.
  pub fetch_remote-FetchOutcome :
      (parse_url : Text → Option Url) (allowed : Url → Bool) (max_redirects max_body : ℕ)
      (href : Text) (url : Url)
      → parse_url href ≡ some url
      → allowed url ≡ true
      → FetchOutcome max_body max_redirects url
          (fetch_remote send join parse_url allowed max_redirects max_body href)
  unfolding fetch_remote
  fetch_remote-FetchOutcome parse_url allowed max_redirects max_body href url e a =
      rw (fetch_remote, e, a) (fetch_loop-FetchOutcome max_body max_redirects url)

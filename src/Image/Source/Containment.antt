-- ===== src/Image/Source/Containment.antt =====
-- About the local images of Image/Source: the files they are read from.
use nexide.Prelude.{
  ℕ, ◌≡◌, refl, sym, ap, ◌∙◌, Bool, true, false, List, [], ◌++◌, Option, none, some, Option-cases,
  inl, inr, arith,
}
use nexide.Prelude.Results.{Result, ok, >>=-eq-ok, ok-inj}
use nexide.Prelude.Text.{Text}
use nexide.Cjs.Paths.{is_absolute, path_starts_with}
use nexide.Image.Fetch.{FetchError, Source}
use nexide.Image.Patterns.{LocalPattern, UrlParts, or_default, local_pattern_matches}
use nexide.Image.Source.{
  local_prefix, SourceError, url_invalid, url_not_allowed, source_not_found, ImageFiles, require,
  or_error, is_remote, canonical_path, local_target, resolve_local, resolve_source,
}

-- What `canonicalize` does: a canonical path is its own, and a file that is read has one.
pub record CanonicalFiles (files : ImageFiles) : Type 0 where
  pub again : (p q : Text) → files.canonicalize p ≡ some q → files.canonicalize q ≡ some q
  pub readable :
      (p : Text) (bytes : List ℕ)
      → files.read p ≡ some bytes
      → (q : Text) × (files.canonicalize p ≡ some q)

-- A source read from a file that is allowed and stands below the public directory, all links
-- followed.
pub record IsContained (files : ImageFiles) (parse_url : Text → Option UrlParts)
    (patterns : List LocalPattern) (public_dir url : Text) (source : Source) : Type 0 where
  pub path : Text
  pub own : files.canonicalize path ≡ some path
  pub content : files.read path ≡ some source.bytes
  pub within : path_starts_with path (canonical_path files parse_url public_dir) ≡ true
  pub parts : UrlParts
  pub parsed : parse_url (local_prefix ++ url) ≡ some parts
  pub target : path ≡ local_target files parse_url public_dir parts.path
  pub allowed : local_pattern_matches patterns parts.path (or_default parts.query []) ≡ true

require-true : (e : SourceError) (b : Bool) {u : Unit {0}} → require e b ≡ ok u → b ≡ true
unfolding require
require-true e true h = refl
require-true e false h = absurd (ground arith)

or_error-some :
    {A : Type 0} (e : SourceError) (o : Option A) {a : A} → or_error e o ≡ ok a → o ≡ some a
unfolding or_error
or_error-some e none h = absurd (ground arith)
or_error-some e (some a) h = ap some (ok-inj h)

module _ (files : ImageFiles) (parse_url : Text → Option UrlParts) where
  -- A file that is read through the canonical form of its path is read by its own path.
  canonical_own :
      (p : Text) (bytes : List ℕ)
      → CanonicalFiles files
      → files.read (canonical_path files parse_url p) ≡ some bytes
      → files.canonicalize (canonical_path files parse_url p)
        ≡ some (canonical_path files parse_url p)
  unfolding canonical_path
  canonical_own p bytes laws h = elim (Option-cases (files.canonicalize p)) [
    | inl e ↦
        let plain : canonical_path files parse_url p ≡ p = rw (canonical_path, e) refl in
        let (q, found) = laws.readable p bytes (ap files.read (sym plain) ∙ h) in
        absurd (ground (arith, e, found))
    | inr (q, e) ↦
        let same : canonical_path files parse_url p ≡ q = rw (canonical_path, e) refl in
        ap files.canonicalize same ∙ (laws.again p q e ∙ ap some (sym same))
  ]

  local_case :
      (fetch_remote : Text → Result FetchError Source) (patterns : List LocalPattern)
      (public_dir url : Text) (source : Source)
      → is_remote url ≡ false
      → resolve_source files parse_url fetch_remote patterns public_dir url ≡ ok source
      → resolve_local files parse_url patterns public_dir url ≡ ok source
  unfolding resolve_source
  local_case fetch_remote patterns public_dir url source plain h = rw (resolve_source, plain) at h

  -- On a file system whose canonical paths are their own and exist for every file that can be read:
  -- the source that `resolve_source` gives for a URL that is not remote is the content of a file by
  -- its canonical path, which stands by its components below the canonical public directory and is
  -- that of the URL's path as parsed behind a dummy host, and the URL's path and query, so parsed, are
  -- allowed by the local patterns.
  pub resolve_source-IsContained :
      (fetch_remote : Text → Result FetchError Source) (patterns : List LocalPattern)
      (public_dir url : Text) (source : Source)
      → CanonicalFiles files
      → is_remote url ≡ false
      → resolve_source files parse_url fetch_remote patterns public_dir url ≡ ok source
      → IsContained files parse_url patterns public_dir url source
  unfolding resolve_local local_target
  resolve_source-IsContained fetch_remote patterns public_dir url source laws plain h =
      let h' = local_case fetch_remote patterns public_dir url source plain h in
      let (u, slash, h1) = >>=-eq-ok (require url_invalid (is_absolute url)) _ h' in
      let (parsed, e1, h2) =
        >>=-eq-ok (or_error url_invalid (parse_url (local_prefix ++ url))) _ h1 in
      let listed = local_pattern_matches patterns parsed.path (or_default parsed.query []) in
      let (u2, e2, h3) = >>=-eq-ok (require url_not_allowed listed) _ h2 in
      let target = local_target files parse_url public_dir parsed.path in
      let inside = path_starts_with target (canonical_path files parse_url public_dir) in
      let (u3, e3, h4) = >>=-eq-ok (require url_not_allowed inside) _ h3 in
      let (bytes, e4, h5) = >>=-eq-ok (or_error source_not_found (files.read target)) _ h4 in
      let content = or_error-some source_not_found (files.read target) e4 in
      record {
        path = target;
        own = canonical_own _ bytes laws content;
        content = content ∙ ap (λ (s : Source). some s.bytes) (ok-inj h5);
        within = require-true url_not_allowed inside e3;
        parts = parsed;
        parsed = or_error-some url_invalid (parse_url (local_prefix ++ url)) e1;
        target = refl;
        allowed = require-true url_not_allowed listed e2;
      }

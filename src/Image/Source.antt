-- ===== src/Image/Source.antt =====
-- crates/nexide/src/image/handler.rs: the source of an image (`resolve_source`). The files below the
-- public directory, the parsing of URLs and the fetch of a remote image are parameters.
pub mod Containment
use nexide.Prelude.{
  ℕ, Bool, true, false, not, ◌||◌, List, [], ◌∷◌, ◌++◌, Option, none, some, if◌then◌else◌,
}
use nexide.Prelude.Results.{Result, ok, err, ◌>>=◌, map_err}
use nexide.Prelude.Text.{Text, starts_with}
use nexide.Cjs.Paths.{is_absolute, join, path_starts_with}
use nexide.Server.Prerender.{trim_start_slash}
use nexide.Image.Fetch.{FetchError, Source}
use nexide.Image.Patterns.{LocalPattern, UrlParts, or_default, local_pattern_matches}

pub data SourceError : Type 0 where
  url_invalid : SourceError
  url_not_allowed : SourceError
  source_not_found : SourceError
  remote_failed : FetchError → SourceError

pub record ImageFiles : Type 0 where
  pub canonicalize : Text → Option Text
  pub read : Text → Option (List ℕ)

-- `Err(e)` unless the test holds.
unfoldable pub require : SourceError → Bool → Result SourceError (Unit {0})
require e true = ok tt
require e false = err e

-- `o.ok_or(e)`
unfoldable pub or_error : {A : Type 0} → SourceError → Option A → Result SourceError A
or_error e none = err e
or_error e (some a) = ok a

-- `url.starts_with("http://") || url.starts_with("https://")`
unfoldable pub is_remote : Text → Bool
unfolding starts_with
is_remote url =
    starts_with (b'h' ∷ b't' ∷ b't' ∷ b'p' ∷ b':' ∷ b'/' ∷ b'/' ∷ []) url
    || starts_with (b'h' ∷ b't' ∷ b't' ∷ b'p' ∷ b's' ∷ b':' ∷ b'/' ∷ b'/' ∷ []) url

-- `"http://n"`
abbrev pub local_prefix : Text
local_prefix = b'h' ∷ b't' ∷ b't' ∷ b'p' ∷ b':' ∷ b'/' ∷ b'/' ∷ b'n' ∷ []

module _ (files : ImageFiles) (parse_url : Text → Option UrlParts) where
  -- `path.canonicalize().unwrap_or_else(|_| path.clone())`
  unfoldable pub canonical_path : Text → Text
  canonical_path path = elim (files.canonicalize path) [ none ↦ path | some p ↦ p ]

  -- The file of a local path.
  unfoldable pub local_target : Text → Text → Text
  unfolding join trim_start_slash canonical_path
  local_target public_dir path = canonical_path (join public_dir (trim_start_slash path))

  -- `resolve_source` for a URL that is not remote.
  unfoldable pub resolve_local : List LocalPattern → Text → Text → Result SourceError Source
  unfolding is_absolute require or_error or_default local_pattern_matches local_target
      canonical_path path_starts_with
  resolve_local patterns public_dir url = do
    slash ← require url_invalid (is_absolute url)
    parsed ← or_error url_invalid (parse_url (local_prefix ++ url))
    allowed ←
        require url_not_allowed
          (local_pattern_matches patterns parsed.path (or_default parsed.query []))
    within ←
        require url_not_allowed
          (path_starts_with (local_target public_dir parsed.path) (canonical_path public_dir))
    bytes ← or_error source_not_found (files.read (local_target public_dir parsed.path))
    ok (record { bytes = bytes; upstream_etag = []; upstream_max_age = 0 })

  -- `resolve_source`, given `fetch_remote`.
  unfoldable pub resolve_source :
      (Text → Result FetchError Source)
      → List LocalPattern
      → Text
      → Text
      → Result SourceError Source
  unfolding is_remote resolve_local
  resolve_source fetch_remote patterns public_dir url =
      if is_remote url
      then map_err remote_failed (fetch_remote url)
      else resolve_local patterns public_dir url

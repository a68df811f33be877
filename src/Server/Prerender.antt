-- ===== src/Server/Prerender.antt =====
-- crates/nexide/src/server/prerender.rs: prerendered pages and their cache. What the disk holds, and
-- the hash, JSON and header types of other crates, are parameters; the hash map of the cache is a
-- list of entries with distinct keys, and the result of its lock is left out.
pub mod Keys
pub mod Capacity
pub mod Freshness
pub mod Responses
use nexide.Prelude.{
  ℕ, ◌+◌, Bool, true, false, not, ◌||◌, ◌&&◌, List, [], ◌∷◌, ◌++◌, Option, none, some, length, take,
  leb, ◌==◌, if◌then◌else◌,
}
use nexide.Prelude.Options.{◌>>=◌, or_else, map_some}
use nexide.Prelude.Text.{Text, text_eq, starts_with}
use nexide.Prelude.Decimal.{to_string}
use nexide.Ops.Request.{is_empty, contains}
use nexide.Cjs.Paths.{join, rsplit_dot}

abbrev pub Bytes : Type 0
Bytes = List ℕ

abbrev pub Headers : Type 0
Headers = List (Text × Text)

-- `std::fs::Metadata`: `modified` is an error where the platform has no such time.
pub record Metadata : Type 0 where
  pub is_file : Bool
  pub len : ℕ
  pub modified : Option ℕ

-- The files at one time.
pub record Disk : Type 0 where
  pub metadata : Text → Option Metadata
  pub read : Text → Option Bytes

-- What other crates provide: the headers of a `.meta` document, the checks of header names and
-- values, and the hexadecimal SHA-1 digest.
pub record Crates : Type 0 where
  pub meta_headers : Bytes → Option Headers
  pub header_name : Text → Option Text
  pub header_value : Text → Option Text
  pub sha1_hex : Bytes → Text

pub record CachedAsset : Type 0 where
  pub bytes : Bytes
  pub etag : Text
  pub content_type : Text
  pub extra_headers : Headers
  pub mtime : ℕ
  pub size : ℕ

abbrev pub Cache : Type 0
Cache = List (Text × CachedAsset)

-- `CACHE_CAPACITY`
abbrev pub cache_capacity : ℕ
cache_capacity = 4096

-- `s.trim_start_matches('/')`
unfoldable pub trim_start_slash : Text → Text
trim_start_slash [] = []
trim_start_slash (c ∷ s) = let rest = trim_start_slash s in if c == b'/' then rest else c ∷ s

-- `s.trim_end_matches('/')`
unfoldable pub trim_end_slash : Text → Text
unfolding is_empty
trim_end_slash [] = []
trim_end_slash (c ∷ s) =
    let rest = trim_end_slash s in if (c == b'/') && is_empty rest then [] else c ∷ rest

-- `s.contains("..")`
unfoldable pub contains_dots : Text → Bool
contains_dots [] = false
contains_dots (c ∷ []) = false
contains_dots (c ∷ d ∷ s) = ((c == b'.') && (d == b'.')) || contains_dots (d ∷ s)

unfoldable pub suffix_of : Bool → Text
suffix_of true = b'.' ∷ b'r' ∷ b's' ∷ b'c' ∷ []
suffix_of false = b'.' ∷ b'h' ∷ b't' ∷ b'm' ∷ b'l' ∷ []

unfoldable pub stem_of : Text → Text
unfolding is_empty
stem_of trimmed = if is_empty trimmed then b'i' ∷ b'n' ∷ b'd' ∷ b'e' ∷ b'x' ∷ [] else trimmed

-- The paths of Next.js itself.
unfoldable pub is_reserved : Text → Bool
unfolding starts_with
is_reserved path =
    starts_with (b'/' ∷ b'_' ∷ b'n' ∷ b'e' ∷ b'x' ∷ b't' ∷ b'/' ∷ []) path
    || starts_with (b'/' ∷ b'a' ∷ b'p' ∷ b'i' ∷ b'/' ∷ []) path

unfoldable pub lookup_key : Text → Bool → Option Text
unfolding is_reserved trim_start_slash trim_end_slash contains_dots contains stem_of suffix_of
lookup_key path is_rsc =
    let trimmed = trim_end_slash (trim_start_slash path) in
    if is_reserved path
    then none
    else if contains_dots trimmed || contains trimmed 92
    then none
    else some (stem_of trimmed ++ suffix_of is_rsc)

unfoldable pub get_asset : Text → Cache → Option CachedAsset
get_asset key [] = none
get_asset key (entry ∷ cache) =
    let rest = get_asset key cache in if text_eq entry.0 key then some entry.1 else rest

unfoldable pub without : Text → Cache → Cache
without key [] = []
without key (entry ∷ cache) =
    let rest = without key cache in if text_eq entry.0 key then rest else entry ∷ rest

-- The writer's part of `resolve_asset`.
unfoldable pub store : Text → CachedAsset → Cache → Cache
unfolding without
store key fresh cache =
    let kept = if leb cache_capacity (length cache) then [] else cache in
    (key, fresh) ∷ without key kept

-- `meta.modified().map(|m| m == asset.mtime).unwrap_or(false)`
unfoldable pub same_time : Option ℕ → ℕ → Bool
same_time none mtime = false
same_time (some m) mtime = m == mtime

unfoldable pub file_matches : Disk → Text → Text → CachedAsset → Bool
unfolding join same_time
file_matches disk root key asset = elim (disk.metadata (join root key)) [
  | none ↦ false
  | some meta ↦ (meta.len == asset.size) && same_time meta.modified asset.mtime
]

unfoldable pub content_type : Bool → Text
content_type true =
    b't' ∷ b'e' ∷ b'x' ∷ b't' ∷ b'/' ∷ b'x' ∷ b'-' ∷ b'c' ∷ b'o' ∷ b'm' ∷ b'p' ∷ b'o' ∷ b'n' ∷ b'e'
    ∷ b'n' ∷ b't' ∷ []
content_type false =
    b't' ∷ b'e' ∷ b'x' ∷ b't' ∷ b'/' ∷ b'h' ∷ b't' ∷ b'm' ∷ b'l' ∷ b';' ∷ b' ' ∷ b'c' ∷ b'h' ∷ b'a'
    ∷ b'r' ∷ b's' ∷ b'e' ∷ b't' ∷ b'=' ∷ b'u' ∷ b't' ∷ b'f' ∷ b'-' ∷ b'8' ∷ []

module _ (crates : Crates) where
  unfoldable pub compute_etag : Bytes → Text
  compute_etag bytes = b'"' ∷ take 13 (crates.sha1_hex bytes) ++ b'"' ∷ []

  -- The `filter_map` of `load_meta_headers`.
  unfoldable pub valid_headers : Headers → Headers
  valid_headers [] = []
  valid_headers (h ∷ hs) =
      let rest = valid_headers hs in
      elim (crates.header_name h.0) [
        | none ↦ rest
        | some name ↦ elim (crates.header_value h.1) [
          | none ↦ rest
          | some value ↦ (name, value) ∷ rest
        ]
      ]

  unfoldable pub parsed_headers : Disk → Text → Text → Option Headers
  unfolding rsplit_dot join valid_headers
  parsed_headers disk root key = do
    split ← rsplit_dot key
    raw ← disk.read (join root (split.0 ++ b'.' ∷ b'm' ∷ b'e' ∷ b't' ∷ b'a' ∷ []))
    headers ← crates.meta_headers raw
    some (valid_headers headers)

  unfoldable pub load_meta_headers : Disk → Text → Text → Headers
  unfolding parsed_headers
  load_meta_headers disk root key = elim (parsed_headers disk root key) [ none ↦ [] | some hs ↦ hs ]

  unfoldable pub load_asset : Disk → Text → Text → Bool → Option CachedAsset
  unfolding join load_meta_headers compute_etag content_type
  load_asset disk root key is_rsc = do
    found ← disk.metadata (join root key)
    meta ← (if found.is_file then some found else none)
    bytes ← disk.read (join root key)
    mtime ← meta.modified
    some (record {
      bytes = bytes;
      etag = compute_etag bytes;
      content_type = content_type is_rsc;
      extra_headers = load_meta_headers disk root key;
      mtime = mtime;
      size = meta.len;
    })

  -- The reader's part of `resolve_asset`: the entry that is still authoritative.
  unfoldable pub cached : Disk → Text → Text → Cache → Option CachedAsset
  unfolding get_asset file_matches
  cached disk root key cache = do
    hit ← get_asset key cache
    (if file_matches disk root key hit then some hit else none)

  -- The asset and the cache after, given what was loaded and what was cached.
  unfoldable pub refreshed :
      Text → Cache → Option CachedAsset → Option CachedAsset → Option CachedAsset × Cache
  unfolding store
  refreshed key cache loaded (some hit) = (some hit, cache)
  refreshed key cache none none = (none, cache)
  refreshed key cache (some fresh) none = (some fresh, store key fresh cache)

  unfoldable pub resolve_asset : Disk → Text → Text → Bool → Cache → Option CachedAsset × Cache
  unfolding cached load_asset refreshed
  resolve_asset disk root key is_rsc cache =
      refreshed key cache (load_asset disk root key is_rsc) (cached disk root key cache)

pub data Method : Type 0 where
  get_method head_method other_method : Method

pub record Request : Type 0 where
  pub method : Method
  pub path : Text
  pub rsc_header : Option Text

pub record Response : Type 0 where
  pub status : ℕ
  pub headers : Headers
  pub body : Bytes

-- `req.headers().get("rsc").is_some_and(|v| v == "1")`
unfoldable pub is_rsc_request : Request → Bool
is_rsc_request req = elim req.rsc_header [ none ↦ false | some v ↦ text_eq v (b'1' ∷ []) ]

unfoldable pub build_response : CachedAsset → Bool → Response
unfolding to_string
build_response asset head_only = record {
  status = 200;
  headers =
      (
        b'c' ∷ b'o' ∷ b'n' ∷ b't' ∷ b'e' ∷ b'n' ∷ b't' ∷ b'-' ∷ b't' ∷ b'y' ∷ b'p' ∷ b'e' ∷ [],
        asset.content_type,
      )
      ∷ (b'e' ∷ b't' ∷ b'a' ∷ b'g' ∷ [], asset.etag)
      ∷ (
        b'v' ∷ b'a' ∷ b'r' ∷ b'y' ∷ [],
        b'r' ∷ b's' ∷ b'c' ∷ b',' ∷ b' ' ∷ b'n' ∷ b'e' ∷ b'x' ∷ b't' ∷ b'-' ∷ b'r' ∷ b'o' ∷ b'u'
            ∷ b't' ∷ b'e' ∷ b'r' ∷ b'-' ∷ b's' ∷ b't' ∷ b'a' ∷ b't' ∷ b'e' ∷ b'-' ∷ b't' ∷ b'r'
            ∷ b'e' ∷ b'e' ∷ b',' ∷ b' ' ∷ b'n' ∷ b'e' ∷ b'x' ∷ b't' ∷ b'-' ∷ b'r' ∷ b'o' ∷ b'u'
            ∷ b't' ∷ b'e' ∷ b'r' ∷ b'-' ∷ b'p' ∷ b'r' ∷ b'e' ∷ b'f' ∷ b'e' ∷ b't' ∷ b'c' ∷ b'h'
            ∷ [],
      )
      ∷ (
        b'c' ∷ b'a' ∷ b'c' ∷ b'h' ∷ b'e' ∷ b'-' ∷ b'c' ∷ b'o' ∷ b'n' ∷ b't' ∷ b'r' ∷ b'o' ∷ b'l'
            ∷ [],
        b's' ∷ b'-' ∷ b'm' ∷ b'a' ∷ b'x' ∷ b'a' ∷ b'g' ∷ b'e' ∷ b'=' ∷ b'3' ∷ b'1' ∷ b'5' ∷ b'3'
            ∷ b'6' ∷ b'0' ∷ b'0' ∷ b'0' ∷ [],
      )
      ∷ (
        b'x' ∷ b'-' ∷ b'n' ∷ b'e' ∷ b'x' ∷ b't' ∷ b'j' ∷ b's' ∷ b'-' ∷ b'c' ∷ b'a' ∷ b'c' ∷ b'h'
            ∷ b'e' ∷ [],
        b'H' ∷ b'I' ∷ b'T' ∷ [],
      )
      ∷ (
        b'c' ∷ b'o' ∷ b'n' ∷ b't' ∷ b'e' ∷ b'n' ∷ b't' ∷ b'-' ∷ b'l' ∷ b'e' ∷ b'n' ∷ b'g' ∷ b't'
            ∷ b'h' ∷ [],
        to_string asset.size,
      )
      ∷ asset.extra_headers;
  body = if head_only then [] else asset.bytes;
}

unfoldable pub is_head : Method → Bool
is_head head_method = true
is_head _ = false

-- `matches!(method, GET | HEAD)`
unfoldable pub is_read : Method → Bool
is_read other_method = false
is_read _ = true

module _ (crates : Crates) where
  -- The end of `try_serve`, on the key of the path.
  unfoldable pub serve_key : Disk → Text → Cache → Request → Option Text → Option Response × Cache
  unfolding is_rsc_request resolve_asset build_response is_head
  serve_key disk root cache req none = (none, cache)
  serve_key disk root cache req (some key) =
      let found = resolve_asset crates disk root key (is_rsc_request req) cache in
      (map_some (λ asset. build_response asset (is_head req.method)) found.0, found.1)

  -- `try_serve`: the response, if the path is that of a prerendered asset, and the cache after.
  unfoldable pub try_serve : Disk → Text → Cache → Request → Option Response × Cache
  unfolding is_read is_rsc_request lookup_key serve_key
  try_serve disk root cache req =
      if not (is_read req.method)
      then (none, cache)
      else serve_key disk root cache req (lookup_key req.path (is_rsc_request req))

  -- The cache after requests, each with the disk at its time.
  unfoldable pub serve_all : Text → Cache → List (Disk × Request) → Cache
  unfolding try_serve
  serve_all root cache [] = cache
  serve_all root cache (event ∷ events) =
      serve_all root (try_serve event.0 root cache event.1).1 events

-- ===== src/Tests/Server.antt =====
-- Tests of the HTTP server's parts, and the properties at concrete inputs.
use nexide.Prelude.{
  ℕ, ◌≡◌, refl, sym, ◌∙◌, ap, true, false, [], ◌∷◌, none, some, length, if◌then◌else◌,
}
use nexide.Prelude.Text.{Text, text_eq}
use nexide.Ops.Request.{is_empty}
use nexide.Cjs.Paths.{is_absolute, ends_with_slash}
use nexide.Server.Prerender.{
  Disk, Crates, lookup_key, Request, get_method, try_serve, serve_all, build_response, CachedAsset,
  Response,
}
use nexide.Server.Prerender.Keys.{IsSafeKey, lookup_key-IsSafeKey}
use nexide.Server.Prerender.Freshness.{AreStamped}
use nexide.Server.Prerender.Responses.{IsFresh, AllKnown, try_serve-IsFresh}

abbrev app_root : Text
app_root = b'/' ∷ b'a' ∷ b'p' ∷ b'p' ∷ []

abbrev about_key : Text
about_key = b'a' ∷ b'b' ∷ b'o' ∷ b'u' ∷ b't' ∷ b'.' ∷ b'h' ∷ b't' ∷ b'm' ∷ b'l' ∷ []

about_lookup :
    lookup_key (b'/' ∷ b'a' ∷ b'b' ∷ b'o' ∷ b'u' ∷ b't' ∷ b'/' ∷ []) false ≡ some about_key
unfolding lookup_key is_empty
about_lookup = refl

climbing_lookup : lookup_key (b'/' ∷ b'.' ∷ b'.' ∷ b'/' ∷ b'e' ∷ b't' ∷ b'c' ∷ []) false ≡ none
unfolding lookup_key is_empty
climbing_lookup = refl

lookup_key-IsSafeKey_example : IsSafeKey app_root about_key false
unfolding is_absolute ends_with_slash
lookup_key-IsSafeKey_example =
    lookup_key-IsSafeKey app_root (b'/' ∷ b'a' ∷ b'b' ∷ b'o' ∷ b'u' ∷ b't' ∷ b'/' ∷ []) about_key
      false refl refl about_lookup

-- A disk with one page, of the given content and modification time.
abbrev page_disk : Text → ℕ → Disk
page_disk content time = record {
  metadata = λ path.
      if text_eq path (
        b'/' ∷ b'a' ∷ b'p' ∷ b'p' ∷ b'/' ∷ b'a' ∷ b'b' ∷ b'o' ∷ b'u' ∷ b't' ∷ b'.' ∷ b'h' ∷ b't'
        ∷ b'm' ∷ b'l' ∷ [])
      then some (record { is_file = true; len = length content; modified = some time })
      else none;
  read = λ path.
      if text_eq path (
        b'/' ∷ b'a' ∷ b'p' ∷ b'p' ∷ b'/' ∷ b'a' ∷ b'b' ∷ b'o' ∷ b'u' ∷ b't' ∷ b'.' ∷ b'h' ∷ b't'
        ∷ b'm' ∷ b'l' ∷ [])
      then some content
      else none;
}

abbrev old_disk : Disk
old_disk = page_disk (b'o' ∷ []) 1

abbrev new_disk : Disk
new_disk = page_disk (b'n' ∷ []) 2

-- The digest is not computed.
abbrev no_crates : Crates
no_crates = record {
  meta_headers = λ raw. none;
  header_name = λ name. some name;
  header_value = λ value. some value;
  sha1_hex = λ bytes. bytes;
}

abbrev about_request : Request
about_request = record {
  method = get_method;
  path = b'/' ∷ b'a' ∷ b'b' ∷ b'o' ∷ b'u' ∷ b't' ∷ [];
  rsc_header = none;
}

abbrev page_asset : CachedAsset
page_asset = record {
  bytes = b'o' ∷ [];
  etag = b'"' ∷ b'o' ∷ b'"' ∷ [];
  content_type =
      b't' ∷ b'e' ∷ b'x' ∷ b't' ∷ b'/' ∷ b'h' ∷ b't' ∷ b'm' ∷ b'l' ∷ b';' ∷ b' ' ∷ b'c' ∷ b'h'
      ∷ b'a' ∷ b'r' ∷ b's' ∷ b'e' ∷ b't' ∷ b'=' ∷ b'u' ∷ b't' ∷ b'f' ∷ b'-' ∷ b'8' ∷ [];
  extra_headers = [];
  mtime = 1;
  size = 1;
}

abbrev page_response : Response
page_response = build_response page_asset false

-- The second request is served from the cache.
second_request :
    (try_serve no_crates old_disk app_root
      (serve_all no_crates app_root [] ((old_disk, about_request) ∷ []))
      about_request).0
    ≡ some page_response
unfolding try_serve serve_all is_empty
second_request = refl

IsOld : Disk → Type 0
IsOld disk = disk ≡ old_disk

IsOld-AreStamped : AreStamped IsOld
unfolding IsOld
IsOld-AreStamped = record {
  same = λ d d' e e' path m m' t f f' g g' len. ap (λ (x : Disk). x.read path) (e ∙ sym e');
}

try_serve-IsFresh_example : IsFresh no_crates old_disk app_root about_request page_response
unfolding IsOld AllKnown
try_serve-IsFresh_example =
    try_serve-IsFresh no_crates app_root IsOld IsOld-AreStamped ((old_disk, about_request) ∷ [])
      old_disk about_request page_response (refl, tt) refl second_request

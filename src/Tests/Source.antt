-- ===== src/Tests/Source.antt =====
-- Tests of the sources and headers of images, and the property of local images at a concrete input.
use nexide.Prelude.{◌≡◌, refl, false, [], ◌∷◌, Option, none, some, drop, if◌then◌else◌}
use nexide.Prelude.Results.{Result, ok, err}
use nexide.Prelude.Text.{Text, text_eq}
use nexide.Ops.Request.{is_empty}
use nexide.Image.Output.{webp_source}
use nexide.Image.Fetch.{FetchError, Source, timed_out}
use nexide.Image.Patterns.{UrlParts}
use nexide.Image.Source.{ImageFiles, is_remote, resolve_source}
use nexide.Image.Source.Containment.{CanonicalFiles, IsContained, resolve_source-IsContained}
use nexide.Image.Detect.{detect_format}
use nexide.Image.Headers.{parse_cache_control_max_age}

-- A public directory with one file; every path is canonical.
abbrev one_image : ImageFiles
one_image = record {
  canonicalize = λ path. some path;
  read = λ path.
      if text_eq path (b'/' ∷ b'p' ∷ b'/' ∷ b'a' ∷ b'.' ∷ b'p' ∷ b'n' ∷ b'g' ∷ [])
      then some (b'x' ∷ [])
      else none;
}

one_image-CanonicalFiles : CanonicalFiles one_image
one_image-CanonicalFiles = record { again = λ p q h. refl; readable = λ p bytes h. (p, refl) }

-- The path of a URL is its text behind the host here.
abbrev behind_host : Text → Option UrlParts
behind_host url =
    some (record { scheme = []; host = none; port = none; path = drop 8 url; query = none })

abbrev no_fetch : Text → Result FetchError Source
no_fetch url = err timed_out

abbrev a_png : Text
a_png = b'/' ∷ b'a' ∷ b'.' ∷ b'p' ∷ b'n' ∷ b'g' ∷ []

abbrev x_source : Source
x_source = record { bytes = b'x' ∷ []; upstream_etag = []; upstream_max_age = 0 }

local_image : is_remote a_png ≡ false
unfolding is_remote
local_image = refl

resolved_image :
    resolve_source one_image behind_host no_fetch [] (b'/' ∷ b'p' ∷ []) a_png ≡ ok x_source
unfolding resolve_source is_empty
resolved_image = refl

resolve_source-IsContained_example :
    IsContained one_image behind_host [] (b'/' ∷ b'p' ∷ []) a_png x_source
resolve_source-IsContained_example =
    resolve_source-IsContained one_image behind_host no_fetch [] (b'/' ∷ b'p' ∷ []) a_png x_source
      one_image-CanonicalFiles local_image resolved_image

detected_webp :
    detect_format
      (b'R' ∷ b'I' ∷ b'F' ∷ b'F' ∷ b'.' ∷ b'.' ∷ b'.' ∷ b'.' ∷ b'W' ∷ b'E' ∷ b'B' ∷ b'P' ∷ [])
    ≡ webp_source
unfolding detect_format
detected_webp = refl

read_max_age :
    parse_cache_control_max_age (
      b'p' ∷ b'u' ∷ b'b' ∷ b'l' ∷ b'i' ∷ b'c' ∷ b',' ∷ b' ' ∷ b'm' ∷ b'a' ∷ b'x' ∷ b'-' ∷ b'a'
      ∷ b'g' ∷ b'e' ∷ b'=' ∷ b'6' ∷ b'0' ∷ [])
    ≡ 60
unfolding parse_cache_control_max_age is_empty
read_max_age = refl

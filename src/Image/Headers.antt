-- ===== src/Image/Headers.antt =====
-- crates/nexide/src/image/handler.rs: the headers read and written for images: the lifetime in
-- `Cache-Control`, and the file name in `Content-Disposition`. Text is ASCII as far as `trim` and
-- control characters go.
use nexide.Prelude.{
  ℕ, ◌^◌, ◌≡◌, refl, Bool, false, not, ◌&&◌, ◌||◌, List, [], ◌∷◌, ◌++◌, Option, none, some, length,
  drop, ltb, ◌==◌, if◌then◌else◌, if-elim, arith,
}
use nexide.Prelude.Options.{or_else}
use nexide.Prelude.Text.{Text, text_eq, starts_with}
use nexide.Prelude.Decimal.{parse}
use nexide.Ops.Request.{is_empty, contains}
use nexide.Image.Params.{split_on}
use nexide.Prelude.Trim.{trim}
use nexide.Image.Output.{to_lower}

unfoldable pub lowered : Text → Text
unfolding to_lower
lowered [] = []
lowered (c ∷ s) = to_lower c ∷ lowered s

-- `s.trim_matches('"')`
unfoldable pub trim_quote_start : Text → Text
trim_quote_start [] = []
trim_quote_start (c ∷ s) = let rest = trim_quote_start s in if c == b'"' then rest else c ∷ s

unfoldable pub trim_quote_end : Text → Text
unfolding is_empty
trim_quote_end [] = []
trim_quote_end (c ∷ s) =
    let rest = trim_quote_end s in if (c == b'"') && is_empty rest then [] else c ∷ rest

unfoldable pub strip_directive : Text → Text → Option Text
unfolding trim lowered starts_with trim_quote_start trim_quote_end
strip_directive token directive =
    let prefix = directive ++ b'=' ∷ [] in
    if not (starts_with prefix (lowered (trim token)))
    then none
    else some (trim_quote_end (trim_quote_start (drop (length prefix) (trim token))))

-- The directives found so far: `s_maxage` and `max_age`.
abbrev pub Ages : Type 0
Ages = Option ℕ × Option ℕ

unfoldable pub read_token : Ages → Text → Ages
unfolding trim strip_directive parse
read_token ages token =
    elim (strip_directive (trim token)
      (b's' ∷ b'-' ∷ b'm' ∷ b'a' ∷ b'x' ∷ b'a' ∷ b'g' ∷ b'e' ∷ [])) [
        | some v ↦ (parse (2 ^ 64) v, ages.1)
        | none ↦
            elim (strip_directive (trim token)
              (b'm' ∷ b'a' ∷ b'x' ∷ b'-' ∷ b'a' ∷ b'g' ∷ b'e' ∷ [])) [
                | some v ↦ (ages.0, parse (2 ^ 64) v)
                | none ↦ ages
              ]
      ]

unfoldable pub read_tokens : Ages → List Text → Ages
unfolding read_token
read_tokens ages [] = ages
read_tokens ages (token ∷ tokens) = read_tokens (read_token ages token) tokens

unfoldable pub parse_cache_control_max_age : Text → ℕ
unfolding read_tokens split_on
parse_cache_control_max_age header =
    let ages = read_tokens (none, none) (split_on b',' header) in
    elim (or_else ages.0 ages.1) [ none ↦ 0 | some n ↦ n ]

-- `c.is_control()`, in ASCII.
unfoldable pub is_control : ℕ → Bool
is_control c = ltb c 32 || (c == 127)

unfoldable pub sanitize : Text → Text
unfolding is_control
sanitize [] = []
sanitize (c ∷ s) = (if (c == b'"') || is_control c then b'_' else c) ∷ sanitize s

-- `path.rsplit('/').next()`
unfoldable pub last_piece : List Text → Text
last_piece [] = []
last_piece (p ∷ []) = p
last_piece (p ∷ q ∷ ps) = last_piece (q ∷ ps)

unfoldable pub first_piece : List Text → Text
first_piece [] = []
first_piece (p ∷ ps) = p

unfoldable pub extension_of : Text → Text
extension_of mime =
    if text_eq mime (b'i' ∷ b'm' ∷ b'a' ∷ b'g' ∷ b'e' ∷ b'/' ∷ b'w' ∷ b'e' ∷ b'b' ∷ b'p' ∷ [])
    then b'w' ∷ b'e' ∷ b'b' ∷ b'p' ∷ []
    else if text_eq mime (b'i' ∷ b'm' ∷ b'a' ∷ b'g' ∷ b'e' ∷ b'/' ∷ b'j' ∷ b'p' ∷ b'e' ∷ b'g' ∷ [])
    then b'j' ∷ b'p' ∷ b'g' ∷ []
    else if text_eq mime (b'i' ∷ b'm' ∷ b'a' ∷ b'g' ∷ b'e' ∷ b'/' ∷ b'p' ∷ b'n' ∷ b'g' ∷ [])
    then b'p' ∷ b'n' ∷ b'g' ∷ []
    else if text_eq mime (b'i' ∷ b'm' ∷ b'a' ∷ b'g' ∷ b'e' ∷ b'/' ∷ b'g' ∷ b'i' ∷ b'f' ∷ [])
    then b'g' ∷ b'i' ∷ b'f' ∷ []
    else if text_eq mime (
        b'i' ∷ b'm' ∷ b'a' ∷ b'g' ∷ b'e' ∷ b'/' ∷ b's' ∷ b'v' ∷ b'g' ∷ b'+' ∷ b'x' ∷ b'm' ∷ b'l'
        ∷ [])
    then b's' ∷ b'v' ∷ b'g' ∷ []
    else b'i' ∷ b'm' ∷ b'g' ∷ []

-- The last part of the URL's path, or `image`.
unfoldable pub stem_of_url : Text → Text
unfolding split_on first_piece last_piece is_empty
stem_of_url url =
    let last = last_piece (split_on b'/' (first_piece (split_on b'?' url))) in
    if is_empty last then b'i' ∷ b'm' ∷ b'a' ∷ b'g' ∷ b'e' ∷ [] else last

unfoldable pub filename_from_url : Text → Text → Text
unfolding stem_of_url contains sanitize extension_of
filename_from_url url mime =
    let stem = stem_of_url url in
    if contains stem b'.' then sanitize stem else sanitize (stem ++ b'.' ∷ extension_of mime)

unfoldable pub build_content_disposition : Text → Text → Text → Text
unfolding filename_from_url
build_content_disposition url mime disposition_type =
    disposition_type
    ++ (b';' ∷ b' ' ∷ b'f' ∷ b'i' ∷ b'l' ∷ b'e' ∷ b'n' ∷ b'a' ∷ b'm' ∷ b'e' ∷ b'=' ∷ b'"' ∷ [])
    ++ filename_from_url url mime
    ++ b'"' ∷ []

sanitized : (s : Text) → contains (sanitize s) b'"' ≡ false
unfolding contains sanitize
sanitized [] = refl
sanitized (c ∷ s) = ground (arith, sanitized s)

-- No URL puts a quotation mark into the quoted file name of the `Content-Disposition` header.
pub filename_from_url-unquoted :
    (url mime : Text) → contains (filename_from_url url mime) b'"' ≡ false
unfolding filename_from_url
filename_from_url-unquoted url mime =
    if-elim (λ name. contains name b'"' ≡ false) (contains (stem_of_url url) b'.')
      (λ t. sanitized (stem_of_url url))
      (λ f. sanitized (stem_of_url url ++ b'.' ∷ extension_of mime))

-- ===== src/Image/Output.antt =====
-- crates/nexide/src/image/pipeline.rs and handler.rs: the choice of the output format and the size
-- of a resized image. Headers are ASCII, so `trim` is that of ASCII white space.
pub mod Negotiation
pub mod Size
use nexide.Prelude.{
  ℕ, ◌+◌, ◌*◌, ◌/◌, ◌%◌, ◌^◌, max, Bool, true, false, ◌&&◌, ◌||◌, List, [], ◌∷◌, ◌++◌, Option, none,
  some, leb, ◌==◌, if◌then◌else◌,
}
use nexide.Prelude.Text.{Text, text_eq}
use nexide.Prelude.Trim.{trim}
use nexide.Ops.Request.{is_empty}
use nexide.Image.Params.{split_on}

pub data SourceFormat : Type 0 where
  jpeg_source : SourceFormat
  png_source : SourceFormat
  gif_source : SourceFormat
  webp_source : SourceFormat
  svg_source : SourceFormat
  bmp_source : SourceFormat
  ico_source : SourceFormat
  icns_source : SourceFormat
  heic_source : SourceFormat
  jxl_source : SourceFormat
  avif_source : SourceFormat
  unknown_source : SourceFormat

pub data OutputFormat : Type 0 where
  webp_output : OutputFormat
  jpeg_output : OutputFormat
  png_output : OutputFormat

-- `"image/"`
abbrev pub image_slash : Text
image_slash = b'i' ∷ b'm' ∷ b'a' ∷ b'g' ∷ b'e' ∷ b'/' ∷ []

unfoldable pub mime : OutputFormat → Text
mime webp_output = image_slash ++ b'w' ∷ b'e' ∷ b'b' ∷ b'p' ∷ []
mime jpeg_output = image_slash ++ b'j' ∷ b'p' ∷ b'e' ∷ b'g' ∷ []
mime png_output = image_slash ++ b'p' ∷ b'n' ∷ b'g' ∷ []

unfoldable pub from_mime : Text → Option OutputFormat
unfolding mime
from_mime s =
    if text_eq s (mime webp_output)
    then some webp_output
    else if text_eq s (mime jpeg_output)
    then some jpeg_output
    else if text_eq s (mime png_output)
    then some png_output
    else none

unfoldable pub to_lower : ℕ → ℕ
to_lower c = if leb b'A' c && leb c b'Z' then c + 32 else c

unfoldable pub eq_ignore_ascii_case : Text → Text → Bool
unfolding to_lower
eq_ignore_ascii_case [] [] = true
eq_ignore_ascii_case [] (_ ∷ _) = false
eq_ignore_ascii_case (_ ∷ _) [] = false
eq_ignore_ascii_case (x ∷ xs) (y ∷ ys) = (to_lower x == to_lower y) && eq_ignore_ascii_case xs ys

-- `split(';').next().unwrap_or("").trim()`
unfoldable pub media_type : Text → Text
unfolding split_on trim
media_type token = elim (split_on b';' token) [ [] ↦ [] | s ∷ rest ↦ trim s ]

unfoldable pub any_media_type : Text → List Text → Bool
unfolding media_type eq_ignore_ascii_case
any_media_type m [] = false
any_media_type m (token ∷ tokens) =
    eq_ignore_ascii_case (media_type token) m || any_media_type m tokens

-- `accept_contains`, and `accept_contains_mime` of the handler.
unfoldable pub accept_contains : Text → Text → Bool
unfolding any_media_type split_on
accept_contains accept m = any_media_type m (split_on b',' accept)

-- The first of the formats that the client accepts.
unfoldable pub first_accepted : Text → List Text → Option Text
unfolding accept_contains
first_accepted accept [] = none
first_accepted accept (f ∷ formats) =
    let rest = first_accepted accept formats in if accept_contains accept f then some f else rest

unfoldable pub negotiate_accept : Text → List Text → Option Text
unfolding first_accepted
negotiate_accept accept formats = if is_empty accept then none else first_accepted accept formats

unfoldable pub own_format : SourceFormat → OutputFormat
own_format webp_source = webp_output
own_format png_source = png_output
own_format _ = jpeg_output

unfoldable pub choose_output : SourceFormat → Text → List Text → OutputFormat
unfolding negotiate_accept from_mime own_format
choose_output source accept formats = elim (negotiate_accept accept formats) [
  | none ↦ own_format source
  | some m ↦ elim (from_mime m) [ none ↦ own_format source | some format ↦ format ]
]

-- The loop of `preselect_output`.
unfoldable pub preselect_loop : Text → List Text → Option OutputFormat
unfolding accept_contains from_mime
preselect_loop accept [] = none
preselect_loop accept (f ∷ formats) =
    let rest = preselect_loop accept formats in
    if accept_contains accept f
    then elim (from_mime f) [ none ↦ rest | some format ↦ some format ]
    else rest

unfoldable pub preselect_output : Text → List Text → Option OutputFormat
unfolding preselect_loop
preselect_output accept formats = if is_empty accept then none else preselect_loop accept formats

-- The size that `resize` gives an image of `width` and `height`; `none` is the error for an empty
-- dimension. The height is cast from `u64` to `u32`.
unfoldable pub resized : ℕ → ℕ → ℕ → Option (ℕ × ℕ)
resized width height target_w =
    if (width == 0) || (height == 0)
    then none
    else if leb width target_w
    then some (width, height)
    else some (target_w, max (target_w * height / width % 2 ^ 32) 1)

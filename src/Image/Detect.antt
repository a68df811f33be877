-- ===== src/Image/Detect.antt =====
-- crates/nexide/src/image/pipeline.rs: the format of a source image by its first bytes
-- (`detect_format`).
use nexide.Prelude.{ℕ, Bool, ◌&&◌, ◌||◌, [], ◌∷◌, length, take, drop, leb, ◌==◌, if◌then◌else◌}
use nexide.Prelude.Text.{Text, text_eq, starts_with}
use nexide.Image.Output.{
  SourceFormat, jpeg_source, png_source, gif_source, webp_source, svg_source, bmp_source,
  ico_source, icns_source, heic_source, jxl_source, avif_source, unknown_source,
}

-- The bytes from `from` on, as many as the tag has, are the tag.
unfoldable pub tagged : ℕ → Text → Text → Bool
tagged from tag bytes = text_eq (take (length tag) (drop from bytes)) tag

unfoldable pub is_blank : ℕ → Bool
is_blank c = (c == 32) || (c == 9) || (c == 10) || (c == 13)

unfoldable pub skip_blanks : Text → Text
unfolding is_blank
skip_blanks [] = []
skip_blanks (c ∷ s) = let rest = skip_blanks s in if is_blank c then rest else c ∷ s

unfoldable pub trimmed_starts_with : Text → Text → Bool
unfolding skip_blanks starts_with
trimmed_starts_with haystack needle = starts_with needle (skip_blanks haystack)

-- The formats after the `ftyp` box: `JXL` or none.
unfoldable pub detect_jxl : Text → SourceFormat
unfolding starts_with
detect_jxl bytes =
    if starts_with (255 ∷ 10 ∷ []) bytes
      || starts_with (0 ∷ 0 ∷ 0 ∷ 12 ∷ b'J' ∷ b'X' ∷ b'L' ∷ 32 ∷ []) bytes
    then jxl_source
    else unknown_source

-- The brand of an `ftyp` box.
unfoldable pub detect_brand : Text → SourceFormat
unfolding tagged detect_jxl
detect_brand bytes =
    if tagged 8 (b'a' ∷ b'v' ∷ b'i' ∷ b'f' ∷ []) bytes
      || tagged 8 (b'a' ∷ b'v' ∷ b'i' ∷ b's' ∷ []) bytes
    then avif_source
    else if tagged 8 (b'h' ∷ b'e' ∷ b'i' ∷ b'c' ∷ []) bytes
        || tagged 8 (b'h' ∷ b'e' ∷ b'i' ∷ b'x' ∷ []) bytes
        || tagged 8 (b'm' ∷ b'i' ∷ b'f' ∷ b'1' ∷ []) bytes
        || tagged 8 (b'm' ∷ b's' ∷ b'f' ∷ b'1' ∷ []) bytes
    then heic_source
    else detect_jxl bytes

unfoldable pub detect_format : Text → SourceFormat
unfolding starts_with tagged trimmed_starts_with detect_brand detect_jxl
detect_format bytes =
    if starts_with (255 ∷ 216 ∷ 255 ∷ []) bytes
    then jpeg_source
    else if starts_with (137 ∷ 80 ∷ 78 ∷ 71 ∷ 13 ∷ 10 ∷ 26 ∷ 10 ∷ []) bytes
    then png_source
    else if starts_with (b'G' ∷ b'I' ∷ b'F' ∷ b'8' ∷ []) bytes
    then gif_source
    else if leb 12 (length bytes)
        && tagged 0 (b'R' ∷ b'I' ∷ b'F' ∷ b'F' ∷ []) bytes
        && tagged 8 (b'W' ∷ b'E' ∷ b'B' ∷ b'P' ∷ []) bytes
    then webp_source
    else if starts_with (b'<' ∷ b'?' ∷ b'x' ∷ b'm' ∷ b'l' ∷ []) bytes
        || trimmed_starts_with bytes (b'<' ∷ b's' ∷ b'v' ∷ b'g' ∷ [])
    then svg_source
    else if starts_with (b'B' ∷ b'M' ∷ []) bytes
    then bmp_source
    else if starts_with (0 ∷ 0 ∷ 1 ∷ 0 ∷ []) bytes
    then ico_source
    else if starts_with (b'i' ∷ b'c' ∷ b'n' ∷ b's' ∷ []) bytes
    then icns_source
    else if leb 12 (length bytes) && tagged 4 (b'f' ∷ b't' ∷ b'y' ∷ b'p' ∷ []) bytes
    then detect_brand bytes
    else detect_jxl bytes

-- ===== src/Image/Cache.antt =====
-- crates/nexide/src/image/cache.rs: the on-disk cache of optimized images. A directory is the list
-- of its files' names, each with what reading the file gives; the key's directory is taken as
-- given. Hashes and base64 are made outside.
pub mod Names
pub mod Newest
use nexide.Prelude.{
  ℕ, ◌^◌, Bool, true, false, List, [], ◌∷◌, ◌++◌, Option, none, some, ◌==◌, leb, ◌||◌,
  if◌then◌else◌,
}
use nexide.Prelude.Options.{◌>>=◌}
use nexide.Prelude.Text.{Text, text_eq}
use nexide.Prelude.Decimal.{to_string, parse}

pub record CacheEntry : Type 0 where
  pub key : Text
  pub max_age : ℕ
  pub expire_at_ms : ℕ
  pub etag : Text
  pub upstream_etag : Text
  pub extension : Text
  pub bytes : List ℕ

pub record ParsedName : Type 0 where
  pub max_age : ℕ
  pub expire_at_ms : ℕ
  pub etag : Text
  pub upstream_etag : Text
  pub extension : Text

abbrev pub dot : ℕ
dot = b'.'

-- `name.split('.')`
unfoldable pub split_dots : Text → List Text
split_dots [] = [] ∷ []
split_dots (c ∷ s) =
    let rest = split_dots s in
    if c == dot
    then [] ∷ rest
    else elim rest [ [] ↦ (c ∷ []) ∷ [] | piece ∷ pieces ↦ (c ∷ piece) ∷ pieces ]

abbrev pub webp : Text
webp = b'w' ∷ b'e' ∷ b'b' ∷ b'p' ∷ []

abbrev pub jpg : Text
jpg = b'j' ∷ b'p' ∷ b'g' ∷ []

abbrev pub png : Text
png = b'p' ∷ b'n' ∷ b'g' ∷ []

abbrev pub gif : Text
gif = b'g' ∷ b'i' ∷ b'f' ∷ []

abbrev pub svg : Text
svg = b's' ∷ b'v' ∷ b'g' ∷ []

abbrev pub tmp : Text
tmp = b't' ∷ b'm' ∷ b'p' ∷ []

-- The `match` on the last part of a name.
unfoldable pub is_extension : Text → Bool
is_extension s = text_eq s webp || text_eq s jpg || text_eq s png || text_eq s gif || text_eq s svg

-- `parse_filename` on the five parts.
unfoldable pub parse_parts : Text → Text → Text → Text → Text → Option ParsedName
unfolding is_extension
parse_parts age expire etag upstream ext = do
  max_age ← parse (2 ^ 64) age
  expire_at_ms ← parse (2 ^ 128) expire
  (if is_extension ext
      then some (record {
        max_age = max_age;
        expire_at_ms = expire_at_ms;
        etag = etag;
        upstream_etag = upstream;
        extension = ext;
      })
      else none)

unfoldable pub parse_filename : Text → Option ParsedName
unfolding split_dots parse_parts
parse_filename name = elim (split_dots name) [
  | age ∷ expire ∷ etag ∷ upstream ∷ ext ∷ [] ↦ parse_parts age expire etag upstream ext
  | _ ↦ none
]

-- The name of the file that `write` makes, and with `tmp` of the one that it renames.
unfoldable pub file_name : CacheEntry → Text → Text
file_name e ext =
    to_string e.max_age
    ++ dot ∷ (to_string e.expire_at_ms ++ dot ∷ (e.etag ++ dot ∷ (e.upstream_etag ++ dot ∷ ext)))

-- A file: its name, and its bytes if it can be read.
abbrev pub File : Type 0
File = Text × Option (List ℕ)

-- What the loop of `read` makes of a file: `none` is a `continue`.
unfoldable pub candidate : Text → File → Option CacheEntry
unfolding parse_filename
candidate key (name, content) = do
  parsed ← parse_filename name
  bytes ← content
  some (record {
    key = key;
    max_age = parsed.max_age;
    expire_at_ms = parsed.expire_at_ms;
    etag = parsed.etag;
    upstream_etag = parsed.upstream_etag;
    extension = parsed.extension;
    bytes = bytes;
  })

-- `Some((seen, _)) if *seen >= candidate.expire_at_ms => {} _ => newest = ...`
unfoldable pub newer : Option CacheEntry → CacheEntry → CacheEntry
newer none e = e
newer (some seen) e = if leb e.expire_at_ms seen.expire_at_ms then seen else e

-- The loop of `read`.
unfoldable pub read_loop : Text → Option CacheEntry → List File → Option CacheEntry
unfolding candidate newer
read_loop key newest [] = newest
read_loop key newest (file ∷ files) = elim (candidate key file) [
  | none ↦ read_loop key newest files
  | some e ↦ read_loop key (some (newer newest e)) files
]

unfoldable pub read : Text → List File → Option CacheEntry
unfolding read_loop
read key files = read_loop key none files

-- `rename` replaces a file of the same name.
unfoldable pub replace_file : List File → Text → List ℕ → List File
replace_file [] name bytes = (name, some bytes) ∷ []
replace_file (file ∷ files) name bytes =
    if text_eq file.0 name then (name, some bytes) ∷ files else file ∷ replace_file files name bytes

-- `write`, where the operations of the file system succeed.
unfoldable pub write : List File → CacheEntry → List File
unfolding file_name replace_file
write files e = replace_file files (file_name e e.extension) e.bytes

-- ===== src/Image/Cache/Names.antt =====
-- About the names of cache files, in `write` and in `read`.
use nexide.Prelude.{
  ◌<◌, ◌^◌, ◌≡◌, refl, ap, ◌∙◌, false, [], ◌∷◌, ◌++◌, none, some, ◌==◌, arith, if◌then◌else◌,
}
use nexide.Prelude.Text.{Text}
use nexide.Prelude.Decimal.{to_string, parse-to_string, IsDigits, to_string-IsDigits}
use nexide.Image.Cache.{
  CacheEntry, ParsedName, dot, split_dots, is_extension, parse_parts, parse_filename, file_name,
}

unfoldable pub NoDot : Text → Type 0
NoDot [] = Unit
NoDot (c ∷ s) = ((c == dot) ≡ false) × NoDot s

-- The fields of an entry that its file's name can hold.
pub record IsNameable (e : CacheEntry) : Type 0 where
  pub age : e.max_age < 2 ^ 64
  pub expiry : e.expire_at_ms < 2 ^ 128
  pub etag : NoDot e.etag
  pub upstream : NoDot e.upstream_etag

digits-NoDot : (s : Text) → IsDigits s → NoDot s
unfolding IsDigits NoDot
digits-NoDot [] h = tt
digits-NoDot (c ∷ s) (d, h) = (ground arith, digits-NoDot s h)

split_dots-append : (a s : Text) → NoDot a → split_dots (a ++ dot ∷ s) ≡ a ∷ split_dots s
unfolding NoDot split_dots
split_dots-append [] s h = refl
split_dots-append (c ∷ a) s (d, h) = rw (split_dots, d, split_dots-append a s h) refl

split_dots_last : (s : Text) → NoDot s → split_dots s ≡ s ∷ []
unfolding NoDot split_dots
split_dots_last [] h = refl
split_dots_last (c ∷ s) (d, h) = rw (split_dots, d, split_dots_last s h) refl

-- The parts of a name.
parts_of_name :
    (e : CacheEntry) (ext : Text)
    → IsNameable e
    → NoDot ext
    → split_dots (file_name e ext)
      ≡ to_string e.max_age ∷ to_string e.expire_at_ms ∷ e.etag ∷ e.upstream_etag ∷ ext ∷ []
unfolding file_name
parts_of_name e ext n plain =
    split_dots-append (to_string e.max_age) _ (digits-NoDot _ (to_string-IsDigits e.max_age))
    ∙ ap (◌∷◌ (to_string e.max_age)) (
        split_dots-append (to_string e.expire_at_ms) _
          (digits-NoDot _ (to_string-IsDigits e.expire_at_ms))
        ∙ ap (◌∷◌ (to_string e.expire_at_ms)) (
            split_dots-append e.etag _ n.etag
            ∙ ap (◌∷◌ e.etag) (
                split_dots-append e.upstream_etag _ n.upstream
                ∙ ap (◌∷◌ e.upstream_etag) (split_dots_last ext plain))))

abbrev pub fields_of : CacheEntry → Text → ParsedName
fields_of e ext = record {
  max_age = e.max_age;
  expire_at_ms = e.expire_at_ms;
  etag = e.etag;
  upstream_etag = e.upstream_etag;
  extension = ext;
}

-- The name that `write` gives to an entry whose fields fit and whose extension is known reads back
-- as these fields; under the extension of the file that is written before the rename, or any other
-- that is not known, `read` takes it for no entry.
pub parse_filename-file_name :
    (e : CacheEntry) (ext : Text)
    → IsNameable e
    → NoDot ext
    → parse_filename (file_name e ext) ≡ (if is_extension ext then some (fields_of e ext) else none)
unfolding parse_filename parse_parts
parse_filename-file_name e ext n plain =
    let age = parse-to_string (2 ^ 64) e.max_age n.age in
    let expiry = parse-to_string (2 ^ 128) e.expire_at_ms n.expiry in
    rw (parse_filename, parts_of_name e ext n plain, parse_parts, age, expiry) refl

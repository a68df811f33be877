-- ===== src/Tests/Image.antt =====
-- Concrete runs of the image optimizer's parts.
use nexide.Prelude.{
  ◌++◌, ℕ, zero, suc, Option, ◌≤◌, ◌≡◌, ◌↔◌, if◌then◌else◌, refl, true, false, [], ◌∷◌, none, some,
  arith,
}
use nexide.Prelude.Text.{Text}
use nexide.Prelude.Decimal.{parse}
use nexide.Prelude.Results.{ok}
use nexide.Ops.Request.{is_empty}
use nexide.Image.Config.{ImageConfig, default_loader, allows_width, allows_quality}
use nexide.Image.Params.{ValidatedParams, parse_params}
use nexide.Image.Params.Validation.{IsAcceptable, collected, parse_params-IsAcceptable}
use nexide.Image.Fetch.{SendOutcome, response, fetch_remote}
use nexide.Image.Fetch.Redirects.{FetchOutcome, fetch_remote-FetchOutcome}
use nexide.Image.Output.{
  gif_source, png_source, webp_output, png_output, mime, image_slash, from_mime, choose_output,
  preselect_output, resized,
}
use nexide.Image.Output.Negotiation.{AreWritable, choose_output-preselected}
use nexide.Image.Output.Size.{IsResized, resized-IsResized}
use nexide.Image.Memory.{HotEntry, MemCache, with_limits, lookup, inserted, put, get}
use nexide.Image.Memory.Entries.{total, IsKeyed, IsBelow, IsAbsent}
use nexide.Image.Memory.Eviction.{
  IsValid, get_call, put_call, run_calls, run_calls-IsValid, with_limits-IsValid, FitsWord,
}
use nexide.Image.Memory.Recency.{put-get, put_evicts_oldest}
use nexide.Image.Glob.{matches, matches_impl}
use nexide.Image.Glob.Fuel.{matches_impl_fuel}
use nexide.Image.Glob.Meaning.Patterns.{Glob}
use nexide.Image.Glob.Meaning.{matches-Glob}
use nexide.Image.Cache.{
  CacheEntry, File, webp, tmp, png, candidate, read, file_name, is_extension, parse_filename,
}
use nexide.Image.Cache.Names.{IsNameable, NoDot, fields_of, parse_filename-file_name}
use nexide.Image.Cache.Newest.{IsOlder, read_written}

abbrev image : HotEntry
image = record {
  bytes = 1 ∷ 2 ∷ 3 ∷ [];
  max_age = 60;
  expire_at_ms = 0;
  etag = b'x' ∷ [];
  extension = webp;
}

abbrev key_a : Text
key_a = b'a' ∷ []

abbrev key_b : Text
key_b = b'b' ∷ []

abbrev key_c : Text
key_c = b'c' ∷ []

run_calls-IsValid_example : IsValid (
    run_calls
      (with_limits 2 8)
      (put_call key_a image ∷ put_call key_b image ∷ get_call key_a ∷ put_call key_c image ∷ []))
unfolding with_limits FitsWord
run_calls-IsValid_example =
    run_calls-IsValid (with_limits 2 8)
      (put_call key_a image ∷ put_call key_b image ∷ get_call key_a ∷ put_call key_c image ∷ [])
      (with_limits-IsValid 2 8) (omega arith) (omega arith, (omega arith, (omega arith, tt)))

-- Two entries, of which that of `key_a` is older.
abbrev full : MemCache
full = record {
  map =
      record { key = key_b; entry = image; stamp = 2 }
      ∷ record { key = key_a; entry = image; stamp = 1 }
      ∷ [];
  order = 2;
  bytes = 6;
  max_entries = 2;
  max_bytes = 8;
}

full-IsValid : IsValid full
unfolding total IsKeyed IsBelow IsAbsent
full-IsValid = record {
  tracked = record {
    keyed = ((refl, tt), (tt, tt));
    below = (omega arith, (omega arith, tt));
    counted = refl;
  };
  bounded = record { few = omega arith; small = omega arith };
}

put-get_example : (get (put full key_c image) key_c).0 ≡ some image
put-get_example =
    put-get full key_c image full-IsValid (omega arith) (omega arith) (omega arith) (omega arith)

put_evicts_oldest_example :
    (1 ≤ 2)
    × (lookup key_b (inserted full key_c image).map
        ≡ some (record { key = key_b; entry = image; stamp = 2 }))
unfolding lookup inserted put
put_evicts_oldest_example =
    put_evicts_oldest full key_c image key_a key_b
      (record { key = key_a; entry = image; stamp = 1 })
      (record { key = key_b; entry = image; stamp = 2 }) full-IsValid (omega arith) (omega arith)
      refl refl refl

-- `/*.{p,q}`
abbrev pattern_pq : Text
pattern_pq = b'/' ∷ b'*' ∷ b'.' ∷ b'{' ∷ b'p' ∷ b',' ∷ b'q' ∷ b'}' ∷ []

-- `/ab.q`
abbrev text_q : Text
text_q = b'/' ∷ b'a' ∷ b'b' ∷ b'.' ∷ b'q' ∷ []

matches-Glob_example : Glob pattern_pq text_q
unfolding matches
matches-Glob_example = matches-Glob pattern_pq text_q true refl

matches_impl_fuel_example :
    matches_impl 8 pattern_pq text_q 0 true true ≡ matches_impl 100 pattern_pq text_q 0 true true
matches_impl_fuel_example =
    matches_impl_fuel 8 100 pattern_pq text_q 0 true true (omega arith) (omega arith)

-- `a*/b` does not admit `a/b`: `*` is not tried as the empty text before a later slash.
empty_star_before_slash :
    matches (b'a' ∷ b'*' ∷ b'/' ∷ b'b' ∷ []) (b'a' ∷ b'/' ∷ b'b' ∷ []) true ≡ false
unfolding matches
empty_star_before_slash = refl

abbrev stored : CacheEntry
stored = record {
  key = key_a;
  max_age = 60;
  expire_at_ms = 1234;
  etag = b'e' ∷ [];
  upstream_etag = b'u' ∷ [];
  extension = webp;
  bytes = 7 ∷ 8 ∷ [];
}

stored-IsNameable : IsNameable stored
unfolding NoDot
stored-IsNameable = record {
  age = omega arith;
  expiry = omega arith;
  etag = (refl, tt);
  upstream = (refl, tt);
}

parse_filename-file_name_example :
    parse_filename (file_name stored tmp)
    ≡ (if is_extension tmp then some (fields_of stored tmp) else none)
unfolding NoDot
parse_filename-file_name_example =
    parse_filename-file_name stored tmp stored-IsNameable (refl, (refl, (refl, tt)))

-- A file that is no entry, and an entry that expires earlier: `6.5.e.u.png`.
abbrev foreign : File
foreign = (key_b, some [])

abbrev earlier : File
earlier = (b'6' ∷ b'.' ∷ b'5' ∷ b'.' ∷ b'e' ∷ b'.' ∷ b'u' ∷ b'.' ∷ png, some (9 ∷ []))

earlier-candidate :
    candidate key_a earlier
    ≡ some (record stored { max_age = 6; expire_at_ms = 5; extension = png; bytes = 9 ∷ [] })
unfolding candidate parse
earlier-candidate = refl

read_written_example :
    read key_a (foreign ∷ (file_name stored webp, some (7 ∷ 8 ∷ [])) ∷ earlier ∷ []) ≡ some stored
unfolding NoDot IsOlder candidate is_extension
read_written_example =
    read_written stored (foreign ∷ []) (earlier ∷ []) stored-IsNameable
      (refl, (refl, (refl, (refl, tt)))) refl ((λ c h. absurd (ground arith)), tt)
      ((λ c h. ground (arith, earlier-candidate)), tt)

abbrev settings : ImageConfig
settings = record {
  device_sizes = 640 ∷ [];
  image_sizes = 16 ∷ 64 ∷ [];
  qualities = some (75 ∷ []);
  loader = default_loader;
  unoptimized = false;
}

-- `url=%2Fa&w=64&q=75`
abbrev query : Text
query =
    b'u' ∷ b'r' ∷ b'l' ∷ b'=' ∷ b'%' ∷ b'2' ∷ b'F' ∷ b'a' ∷ b'&' ∷ b'w' ∷ b'=' ∷ b'6' ∷ b'4' ∷ b'&'
    ∷ b'q' ∷ b'=' ∷ b'7' ∷ b'5' ∷ []

abbrev params : ValidatedParams
params = record { url = b'/' ∷ b'a' ∷ []; width = 64; quality = 75 }

parse_params-query : parse_params (λ s. s) query settings ≡ ok params
unfolding parse_params parse allows_width allows_quality is_empty
parse_params-query = refl

parse_params-IsAcceptable_example :
    (parse_params (λ s. s) query settings ≡ ok params)
    ↔ IsAcceptable settings (collected (λ s. s) query) params
parse_params-IsAcceptable_example = parse_params-IsAcceptable (λ s. s) query settings params

-- A host that redirects URL 0 to URL 1, which gives two bytes.
abbrev hosts : ℕ → SendOutcome
hosts zero = response (record {
  status = 302;
  location = some (b'n' ∷ []);
  etag = [];
  max_age = 0;
  content_length = none;
  body = none;
})
hosts (suc n) = response (record {
  status = 200;
  location = none;
  etag = [];
  max_age = 60;
  content_length = some 2;
  body = some (1 ∷ 2 ∷ []);
})

abbrev next_host : ℕ → Text → Option ℕ
next_host n loc = some (suc n)

fetch_remote-FetchOutcome_example :
    FetchOutcome hosts next_host 10 3 0
      (fetch_remote hosts next_host (λ href. some 0) (λ url. true) 3 10 (b'h' ∷ []))
fetch_remote-FetchOutcome_example =
    fetch_remote-FetchOutcome hosts next_host (λ href. some 0) (λ url. true) 3 10 (b'h' ∷ []) 0 refl
      refl

-- `image/png,image/webp;q=1`
abbrev accept_header : Text
accept_header = mime png_output ++ (b',' ∷ (mime webp_output ++ (b';' ∷ b'q' ∷ b'=' ∷ b'1' ∷ [])))

choose_output-preselected_example :
    choose_output gif_source accept_header (mime webp_output ∷ mime png_output ∷ []) ≡ webp_output
unfolding AreWritable preselect_output from_mime is_empty
choose_output-preselected_example =
    choose_output-preselected gif_source accept_header (mime webp_output ∷ mime png_output ∷ [])
      webp_output ((webp_output, refl), ((png_output, refl), tt)) refl

-- `image/avif`
abbrev avif : Text
avif = image_slash ++ (b'a' ∷ b'v' ∷ b'i' ∷ b'f' ∷ [])

-- With AVIF configured first, which cannot be written, the two choices differ.
avif_first :
    (preselect_output (avif ++ (b',' ∷ mime webp_output)) (avif ∷ mime webp_output ∷ [])
      ≡ some webp_output)
    × (choose_output png_source (avif ++ (b',' ∷ mime webp_output)) (avif ∷ mime webp_output ∷ [])
        ≡ png_output)
unfolding preselect_output choose_output is_empty
avif_first = (refl, refl)

resized-IsResized_example :
    (size : ℕ × ℕ) × (resized 1000 3 64 ≡ some size) × IsResized 1000 3 64 size
resized-IsResized_example = resized-IsResized 1000 3 64 (omega arith) (omega arith) (omega arith)

-- ===== src/Image/Cache/Newest.antt =====
-- About the choice of the freshest entry of a directory by `read`.
use nexide.Prelude.{
  ℕ, ◌<◌, ◌≡◌, ◌∙◌, refl, true, inl, inr, List, [], ◌∷◌, ◌++◌, Option, none, some, leb, arith,
  Bool-cases, Option-cases,
}
use nexide.Prelude.Text.{Text}
use nexide.Image.Cache.{
  CacheEntry, File, candidate, parse_filename, newer, read_loop, read, file_name, is_extension,
}
use nexide.Image.Cache.Names.{IsNameable, NoDot, parse_filename-file_name, fields_of}

-- Every entry of the files expires before `bound`.
unfoldable pub IsOlder : Text → ℕ → List File → Type 0
IsOlder key bound [] = Unit
IsOlder key bound (file ∷ files) =
    ((c : CacheEntry) → candidate key file ≡ some c → c.expire_at_ms < bound)
    × IsOlder key bound files

keeps_newest :
    (key : Text) (e : CacheEntry) (files : List File)
    → IsOlder key e.expire_at_ms files
    → read_loop key (some e) files ≡ some e
unfolding IsOlder read_loop
keeps_newest key e [] h = refl
keeps_newest key e (file ∷ files) (o, h) = elim (Option-cases (candidate key file)) [
  | inl n ↦ rw (read_loop, n) (keeps_newest key e files h)
  | inr (c, found) ↦
      let older = o c found in
      let same : leb c.expire_at_ms e.expire_at_ms ≡ true = ground arith in
      rw (read_loop, found, newer, same) (keeps_newest key e files h)
]

-- What the loop has found expires before `bound`.
IsOlderEntry : ℕ → Option CacheEntry → Type 0
IsOlderEntry bound none = Unit
IsOlderEntry bound (some c) = c.expire_at_ms < bound

newer-older :
    (newest : Option CacheEntry) (e : CacheEntry)
    → IsOlderEntry e.expire_at_ms newest
    → newer newest e ≡ e
unfolding newer IsOlderEntry
newer-older none e o = refl
newer-older (some c) e o = ground arith

newer_bound :
    (bound : ℕ) (newest : Option CacheEntry) (c : CacheEntry)
    → IsOlderEntry bound newest
    → c.expire_at_ms < bound
    → IsOlderEntry bound (some (newer newest c))
unfolding newer IsOlderEntry
newer_bound bound none c o lt = lt
newer_bound bound (some d) c o lt = elim (Bool-cases (leb c.expire_at_ms d.expire_at_ms)) [
  | inl t ↦ rw t o
  | inr f ↦ rw f lt
]

finds_newest :
    (key : Text) (e : CacheEntry) (file : File) (newest : Option CacheEntry)
    (files files' : List File)
    → candidate key file ≡ some e
    → IsOlderEntry e.expire_at_ms newest
    → IsOlder key e.expire_at_ms files
    → IsOlder key e.expire_at_ms files'
    → read_loop key newest (files ++ file ∷ files') ≡ some e
unfolding IsOlder read_loop
finds_newest key e file newest [] files' found o h h' =
    rw (read_loop, found, newer-older newest e o) (keeps_newest key e files' h')
finds_newest key e file newest (g ∷ files) files' found o (p, h) h' =
    elim (Option-cases (candidate key g)) [
      | inl n ↦ rw (read_loop, n) (finds_newest key e file newest files files' found o h h')
      | inr (c, same) ↦
          rw (read_loop, same)
            (finds_newest key e file (some (newer newest c)) files files' found
              (newer_bound e.expire_at_ms newest c o (p c same)) h h')
    ]

-- An entry that expires after everything else in the directory is what `read` returns, if its
-- fields fit into a file name and its extension is known, wherever the listing has its file.
pub read_written :
    (e : CacheEntry) (files files' : List File)
    → IsNameable e
    → NoDot e.extension
    → is_extension e.extension ≡ true
    → IsOlder e.key e.expire_at_ms files
    → IsOlder e.key e.expire_at_ms files'
    → read e.key (files ++ (file_name e e.extension, some e.bytes) ∷ files') ≡ some e
unfolding read candidate IsOlderEntry
read_written e files files' n plain known h h' =
    let parsed : parse_filename (file_name e e.extension) ≡ some (fields_of e e.extension) =
      parse_filename-file_name e e.extension n plain ∙ rw known refl in
    finds_newest e.key e (file_name e e.extension, some e.bytes) none files files'
      (rw (candidate, parsed) refl) tt h h'

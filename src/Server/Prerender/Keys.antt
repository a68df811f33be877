-- ===== src/Server/Prerender/Keys.antt =====
-- About the keys of Server/Prerender: the files that a path can name.
use nexide.Prelude.{
  ℕ, ◌≡◌, refl, sym, ap, ◌∙◌, Bool, true, false, ◌||◌, List, [], ◌∷◌, ◌++◌, Option, none, some,
  ◌==◌, Bool-cases, inl, inr, arith,
}
use nexide.Prelude.Options.{if-none-eq-some, some-inj}
use nexide.Prelude.Text.{Text, text_eq_self}
use nexide.Ops.Request.{is_empty, contains}
use nexide.Image.Params.{split_on}
use nexide.Cjs.Paths.{
  slash, is_absolute, is_ignored, named, components, is_prefix, path_starts_with, ends_with_slash,
  join,
}
use nexide.Server.Prerender.{
  trim_start_slash, trim_end_slash, contains_dots, suffix_of, stem_of, is_reserved, lookup_key,
}

unfoldable pub trimmed : Text → Text
unfolding trim_start_slash trim_end_slash
trimmed path = trim_end_slash (trim_start_slash path)

lookup_key-eq-some :
    (path key : Text) (r : Bool)
    → lookup_key path r ≡ some key
    → (contains_dots (trimmed path) ≡ false)
      × (contains (trimmed path) 92 ≡ false)
      × (stem_of (trimmed path) ++ suffix_of r ≡ key)
unfolding lookup_key trimmed
lookup_key-eq-some path key r h =
    let (reserved, h1) = if-none-eq-some (is_reserved path) _ h in
    let t = trim_end_slash (trim_start_slash path) in
    let (safe, h2) = if-none-eq-some (contains_dots t || contains t 92) _ h1 in
    (ground arith, ground arith, some-inj h2)

last_byte : Text → Option ℕ
last_byte [] = none
last_byte (c ∷ []) = some c
last_byte (c ∷ d ∷ s) = last_byte (d ∷ s)

last_byte-append : (s : Text) (c : ℕ) (t : Text) → last_byte (s ++ c ∷ t) ≡ last_byte (c ∷ t)
unfolding last_byte
last_byte-append [] c t = refl
last_byte-append (x ∷ []) c t = refl
last_byte-append (x ∷ y ∷ s) c t = last_byte-append (y ∷ s) c t

suffix_byte : Bool → ℕ
suffix_byte true = b'c'
suffix_byte false = b'l'

last_byte-suffix_of :
    (stem : Text) (r : Bool) → last_byte (stem ++ suffix_of r) ≡ some (suffix_byte r)
unfolding suffix_of suffix_byte last_byte
last_byte-suffix_of stem true = last_byte-append stem _ _
last_byte-suffix_of stem false = last_byte-append stem _ _

last_byte-lookup_key :
    (path key : Text) (r : Bool)
    → lookup_key path r ≡ some key
    → last_byte key ≡ some (suffix_byte r)
last_byte-lookup_key path key r h =
    let (dots, backslash, same) = lookup_key-eq-some path key r h in
    ap last_byte (sym same) ∙ last_byte-suffix_of (stem_of (trimmed path)) r

-- The same key is not looked up for both kinds of request.
pub lookup_key_kind :
    (path path' key : Text) (r r' : Bool)
    → lookup_key path r ≡ some key
    → lookup_key path' r' ≡ some key
    → r ≡ r'
unfolding suffix_byte
lookup_key_kind path path' key true true h h' = refl
lookup_key_kind path path' key false false h h' = refl
lookup_key_kind path path' key true false h h' = absurd (
    let e = last_byte-lookup_key path key true h in
    let e' = last_byte-lookup_key path' key false h' in ground (arith, some-inj (sym e ∙ e')))
lookup_key_kind path path' key false true h h' = absurd (
    let e = last_byte-lookup_key path key false h in
    let e' = last_byte-lookup_key path' key true h' in ground (arith, some-inj (sym e ∙ e')))

is_prefix-append : (xs ys : List Text) → is_prefix xs (xs ++ ys) ≡ true
unfolding is_prefix
is_prefix-append [] ys = refl
is_prefix-append (x ∷ xs) ys = ground (arith, text_eq_self x, is_prefix-append xs ys)

named-append : (xs ys : List Text) → named (xs ++ ys) ≡ named xs ++ named ys
unfolding named
named-append [] ys = refl
named-append (x ∷ xs) ys = elim (Bool-cases (is_ignored x)) [
  | inl t ↦ rw t (named-append xs ys)
  | inr f ↦ rw f (ap (◌∷◌ x) (named-append xs ys))
]

split_on-cons : (c : ℕ) (s : Text) → (p : Text) × (ps : List Text) × (split_on c s ≡ p ∷ ps)
unfolding split_on
split_on-cons c [] = ([], [], refl)
split_on-cons c (d ∷ s) =
    let (p, ps, e) = split_on-cons c s in
    elim (Bool-cases (d == c)) [
      | inl t ↦ ([], split_on c s, rw t refl)
      | inr f ↦ (d ∷ p, ps, rw (f, e) refl)
    ]

split_on-append : (c : ℕ) (s t : Text) → split_on c (s ++ c ∷ t) ≡ split_on c s ++ split_on c t
unfolding split_on
split_on-append c [] t = let same : (c == c) ≡ true = ground arith in rw same refl
split_on-append c (d ∷ s) t =
    let (p, ps, e) = split_on-cons c s in
    let rest = split_on-append c s t in
    elim (Bool-cases (d == c)) [ inl h ↦ rw h (ap (◌∷◌ []) rest) | inr h ↦ rw (h, rest, e) refl ]

first_stays : (s : Text) → is_absolute s ≡ false → is_absolute (trim_end_slash s) ≡ false
unfolding is_absolute trim_end_slash
first_stays [] h = refl
first_stays (c ∷ s) h = rw h h

trim_start_slash-relative : (s : Text) → is_absolute (trim_start_slash s) ≡ false
unfolding is_absolute trim_start_slash
trim_start_slash-relative [] = refl
trim_start_slash-relative (c ∷ s) = elim (Bool-cases (c == slash)) [
  | inl t ↦ rw t (trim_start_slash-relative s)
  | inr f ↦ rw f f
]

stem_of-relative : (t x : Text) → is_absolute t ≡ false → is_absolute (stem_of t ++ x) ≡ false
unfolding is_absolute stem_of is_empty
stem_of-relative [] x h = refl
stem_of-relative (c ∷ t) x h = h

-- The components of a path below a directory.
below :
    (root key : Text) → is_absolute root ≡ true → path_starts_with (root ++ slash ∷ key) root ≡ true
unfolding is_absolute path_starts_with components
below [] key h = absurd (ground arith)
below (c ∷ s) key h =
    rw
      (
        h,
        split_on-append slash s key,
        named-append (split_on slash s) (split_on slash key),
        text_eq_self (slash ∷ []),
      )
      (is_prefix-append (named (split_on slash s)) (named (split_on slash key)))

join_below :
    (root key : Text)
    → is_absolute root ≡ true
    → ends_with_slash root ≡ false
    → is_absolute key ≡ false
    → join root key ≡ root ++ slash ∷ key
unfolding join is_absolute is_empty
join_below [] key absolute unended relative = absurd (ground arith)
join_below (c ∷ s) key absolute unended relative = rw (join, relative, unended) refl

-- A key that names a file below the root.
pub record IsSafeKey (root key : Text) (is_rsc : Bool) : Type 0 where
  pub stem : Text
  pub spelled : key ≡ stem_of stem ++ suffix_of is_rsc
  pub dots : contains_dots stem ≡ false
  pub backslash : contains stem 92 ≡ false
  pub within : path_starts_with (join root key) root ≡ true

-- For an absolute directory whose path does not end with a slash: a key that `lookup_key` gives is a
-- stem without two dots in a row and without a backslash (`index` for an empty one) with the suffix
-- of its kind, and the file looked up for it stands, by the components of its path, below the
-- directory.
pub lookup_key-IsSafeKey :
    (root path key : Text) (is_rsc : Bool)
    → is_absolute root ≡ true
    → ends_with_slash root ≡ false
    → lookup_key path is_rsc ≡ some key
    → IsSafeKey root key is_rsc
unfolding trimmed
lookup_key-IsSafeKey root path key is_rsc absolute unended h =
    let (dots, backslash, same) = lookup_key-eq-some path key is_rsc h in
    let relative : is_absolute key ≡ false =
      ap is_absolute (sym same)
      ∙ stem_of-relative (trimmed path) (suffix_of is_rsc)
          (first_stays (trim_start_slash path) (trim_start_slash-relative path)) in
    record {
      stem = trimmed path;
      spelled = sym same;
      dots = dots;
      backslash = backslash;
      within =
          ap (λ x. path_starts_with x root) (join_below root key absolute unended relative)
          ∙ below root key absolute;
    }

-- ===== src/Cjs/Resolver/Packages/Missing.antt =====
-- About the candidates of Cjs/Resolver: what is no file when none is found.
use nexide.Prelude.{
  ℕ, zero, suc, ◌<◌, ◌≡◌, refl, inl, inr, Bool, true, false, List, [], ◌∷◌, ◌++◌, Option, none,
  some, length, if◌then◌else◌, Bool-cases, Option-cases, arith,
}
use nexide.Prelude.Options.{or_else, find_map}
use nexide.Prelude.Text.{Text}
use nexide.Ops.Request.{is_empty}
use nexide.Cjs.Paths.{join, parent, with_extension}
use nexide.Cjs.Paths.Ancestors.{ancestors, length-parent}
use nexide.Cjs.Json.{Value}
use nexide.Cjs.Resolver.{FileSystem}
use nexide.Cjs.Resolver.Candidates.{
  read_package, candidates, index, if_file, with_candidate, try_extensions, try_directory,
}
use nexide.Cjs.Resolver.Packages.Naming.{IsListed, here, later, IsTried, itself, appended, replaced}
use nexide.Cjs.Resolver.Packages.{package_main, resolve_in_package}

-- None of the files that a path without its extension may stand for exists.
pub NoFile : FileSystem → Text → Type 0
NoFile fs base = (p : Text) → IsTried base p → fs.is_file p ≡ false

-- A directory and those above it.
pub data IsAbove : Text → Text → Type 0 where
  same : {dir : Text} → IsAbove dir dir
  up : {base above dir : Text} → parent base ≡ some above → IsAbove above dir → IsAbove base dir

pub or_else-eq-none :
    {A : Type 0} (o other : Option A) → or_else o other ≡ none → (o ≡ none) × (other ≡ none)
or_else-eq-none none other h = (refl, h)
or_else-eq-none (some a) other h = cc

pub if-eq-none : {A : Type 0} (b : Bool) (a : A) → (if b then some a else none) ≡ none → b ≡ false
if-eq-none true a h = cc
if-eq-none false a h = refl

listed-none :
    {A : Type 0} (f : Text → Option A) (xs : List Text) (x : Text)
    → find_map f xs ≡ none
    → IsListed x xs
    → f x ≡ none
listed-none f [] y h l = elim l [ ]
listed-none f (x ∷ xs) _ h here = (or_else-eq-none (f x) (find_map f xs) h).0
listed-none f (x ∷ xs) y h (later l) =
    listed-none f xs y (or_else-eq-none (f x) (find_map f xs) h).1 l

-- The walk up has the directory and all above it.
pub above-none :
    {A : Type 0} (f : Text → Option A) (fuel : ℕ) (base dir : Text)
    → length base < fuel
    → find_map f (ancestors fuel base) ≡ none
    → IsAbove base dir
    → f dir ≡ none
unfolding ancestors
above-none f zero base dir room h above = absurd (omega arith)
above-none f (suc fuel) base _ room h same = elim (Option-cases (parent base)) [
  | inl e ↦ (or_else-eq-none (f base) none (rw (ancestors, e) at h)).0
  | inr (above, e) ↦
      (or_else-eq-none (f base) (find_map f (ancestors fuel above)) (rw (ancestors, e) at h)).0
]
above-none f (suc fuel) base dir room h (up {above = next} e above) =
    above-none f fuel next dir (omega (arith, length-parent base next e))
      (or_else-eq-none (f base) (find_map f (ancestors fuel next)) (rw (ancestors, e) at h)).1 above

module _ (fs : FileSystem) where
  if_file-none : (p : Text) → if_file fs p ≡ none → fs.is_file p ≡ false
  unfolding if_file
  if_file-none p h = if-eq-none (fs.is_file p) p h

  pub try_extensions-NoFile : (base : Text) → try_extensions fs base ≡ none → NoFile fs base
  unfolding try_extensions with_candidate NoFile
  try_extensions-NoFile base h _ itself =
      if_file-none base (or_else-eq-none (if_file fs base) _ h).0
  try_extensions-NoFile base h _ (appended {ext} l) =
      let missed =
        listed-none (with_candidate fs base) candidates ext
          (or_else-eq-none (if_file fs base) _ h).1 l in
      if_file-none (base ++ b'.' ∷ ext)
        (or_else-eq-none (if_file fs (base ++ b'.' ∷ ext)) _ missed).0
  try_extensions-NoFile base h _ (replaced {ext} l) =
      let missed =
        listed-none (with_candidate fs base) candidates ext
          (or_else-eq-none (if_file fs base) _ h).1 l in
      if_file-none (with_extension base ext)
        (or_else-eq-none (if_file fs (base ++ b'.' ∷ ext)) _ missed).1

  pub try_directory-NoFile :
      (dir : Text) → try_directory fs dir ≡ none → fs.is_dir dir ≡ true → NoFile fs (join dir index)
  unfolding try_directory
  try_directory-NoFile dir h is =
      try_extensions-NoFile (join dir index) (or_else-eq-none _ _ (rw (try_directory, is) at h)).1

  package_main-none :
      (pkg : Text) (manifest : Option Value)
      → package_main fs pkg manifest ≡ none
      → try_extensions fs (join pkg index) ≡ none
  unfolding package_main
  package_main-none pkg none h = h
  package_main-none pkg (some manifest) h = (or_else-eq-none _ _ h).1

  pub resolve_in_package-NoFile :
      (pkg sub : Text)
      → resolve_in_package fs pkg sub ≡ none
      → NoFile fs (join pkg (if is_empty sub then index else sub))
  unfolding resolve_in_package
  resolve_in_package-NoFile pkg sub h =
      let manifest = read_package fs pkg in
      let by_path = or_else (try_extensions fs (join pkg sub)) (try_directory fs (join pkg sub)) in
      let plain = if is_empty sub then package_main fs pkg manifest else by_path in
      let h' : plain ≡ none = (or_else-eq-none _ plain h).1 in
      elim (Bool-cases (is_empty sub)) [
        | inl t ↦
            rw t
              (try_extensions-NoFile (join pkg index) (package_main-none pkg manifest (rw t at h')))
        | inr f ↦ rw f (
            try_extensions-NoFile (join pkg sub)
              (or_else-eq-none (try_extensions fs (join pkg sub)) _ (rw f at h')).0)
      ]

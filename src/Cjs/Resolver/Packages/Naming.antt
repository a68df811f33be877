-- ===== src/Cjs/Resolver/Packages/Naming.antt =====
-- About the candidates of Cjs/Resolver: the names of the files that a path or a package stands for.
use mathlib.Core.Path.{subst}
use nexide.Prelude.{
  ◌≡◌, refl, inl, inr, true, false, List, [], ◌∷◌, ◌++◌, Option, none, some, Bool-cases,
}
use nexide.Prelude.Options.{
  or_else, some-inj, find_map, ◌>>=◌, >>=-eq-some, if-eq-some, or_else-eq-some,
}
use nexide.Prelude.Text.{Text}
use nexide.Ops.Request.{is_empty}
use nexide.Cjs.Paths.{join, with_extension}
use nexide.Cjs.Json.{Value, get, as_str}
use nexide.Cjs.Exports.{match_exports}
use nexide.Cjs.Resolver.{FileSystem}
use nexide.Cjs.Resolver.Candidates.{
  candidates, index, main_key, if_file, with_candidate, try_extensions, read_package, main_file,
  try_directory,
}
use nexide.Cjs.Resolver.Packages.{
  exports_key, export_key, export_file, package_main, resolve_in_package, trim_dot_slash,
}

-- `ext` is one of the list.
pub data IsListed (ext : Text) : List Text → Type 0 where
  here : {exts : List Text} → IsListed ext (ext ∷ exts)
  later : {first : Text} {exts : List Text} → IsListed ext exts → IsListed ext (first ∷ exts)

-- The files that a path without its extension may stand for.
pub data IsTried (base : Text) : Text → Type 0 where
  itself : IsTried base base
  appended : {ext : Text} → IsListed ext candidates → IsTried base (base ++ b'.' ∷ ext)
  replaced : {ext : Text} → IsListed ext candidates → IsTried base (with_extension base ext)

-- The files that a directory stands for: those of its `main`, and its index.
pub data IsOfDirectory (fs : FileSystem) (dir file : Text) : Type 0 where
  by_main :
      {manifest value : Value} {name : Text}
      → read_package fs dir ≡ some manifest
      → get main_key manifest ≡ some value
      → as_str value ≡ some name
      → IsTried (join dir name) file
      → IsOfDirectory fs dir file
  by_main_index :
      {manifest value : Value} {name : Text}
      → read_package fs dir ≡ some manifest
      → get main_key manifest ≡ some value
      → as_str value ≡ some name
      → IsTried (join (join dir name) index) file
      → IsOfDirectory fs dir file
  by_index : IsTried (join dir index) file → IsOfDirectory fs dir file

-- The files that a path stands for.
pub data IsOfPath (fs : FileSystem) (path file : Text) : Type 0 where
  tried : IsTried path file → IsOfPath fs path file
  directory : fs.is_dir path ≡ true → IsOfDirectory fs path file → IsOfPath fs path file

-- The files that a path within a package stands for.
pub data IsOfPackage (fs : FileSystem) (pkg sub file : Text) : Type 0 where
  exported :
      {manifest exports : Value} {rel : Text}
      → read_package fs pkg ≡ some manifest
      → get exports_key manifest ≡ some exports
      → match_exports exports (export_key sub) ≡ some rel
      → IsTried (join pkg (trim_dot_slash rel)) file
      → IsOfPackage fs pkg sub file
  whole : is_empty sub ≡ true → IsOfDirectory fs pkg file → IsOfPackage fs pkg sub file
  within : is_empty sub ≡ false → IsOfPath fs (join pkg sub) file → IsOfPackage fs pkg sub file

find_map-IsListed :
    (f : Text → Option Text) (xs : List Text) (q : Text)
    → find_map f xs ≡ some q
    → (x : Text) × IsListed x xs × (f x ≡ some q)
find_map-IsListed f [] q h = cc
find_map-IsListed f (x ∷ xs) q h = elim (or_else-eq-some (f x) (find_map f xs) h) [
  | inl e ↦ (x, here, e)
  | inr e ↦ let (y, l, found) = find_map-IsListed f xs q e in (y, later l, found)
]

module _ (fs : FileSystem) where
  if_file-same : (p q : Text) → if_file fs p ≡ some q → p ≡ q
  unfolding if_file
  if_file-same p q h = some-inj (if-eq-some (fs.is_file p) (some p) h).1

  try_extensions-IsTried : (base q : Text) → try_extensions fs base ≡ some q → IsTried base q
  unfolding try_extensions with_candidate
  try_extensions-IsTried base q h = elim (or_else-eq-some (if_file fs base) _ h) [
    | inl e ↦ subst (IsTried base) (if_file-same base q e) itself
    | inr e ↦
        let (ext, l, found) = find_map-IsListed (with_candidate fs base) candidates q e in
        elim (or_else-eq-some (if_file fs (base ++ b'.' ∷ ext)) _ found) [
          | inl e1 ↦ subst (IsTried base) (if_file-same _ q e1) (appended l)
          | inr e1 ↦ subst (IsTried base) (if_file-same _ q e1) (replaced l)
        ]
  ]

  main_file-IsOfDirectory :
      (dir : Text) (manifest : Value) (q : Text)
      → read_package fs dir ≡ some manifest
      → main_file fs dir manifest ≡ some q
      → IsOfDirectory fs dir q
  unfolding main_file
  main_file-IsOfDirectory dir manifest q at_dir h =
      let (value, e, h1) = >>=-eq-some (get main_key manifest) _ h in
      let (name, e1, h2) = >>=-eq-some (as_str value) _ h1 in
      elim (or_else-eq-some (try_extensions fs (join dir name)) _ h2) [
        | inl found ↦ by_main at_dir e e1 (try_extensions-IsTried _ q found)
        | inr found ↦ by_main_index at_dir e e1 (try_extensions-IsTried _ q found)
      ]

  pub path-IsOfPath :
      (path q : Text)
      → or_else (try_extensions fs path) (try_directory fs path) ≡ some q
      → IsOfPath fs path q
  unfolding try_directory
  path-IsOfPath path q h = elim (or_else-eq-some (try_extensions fs path) _ h) [
    | inl e ↦ tried (try_extensions-IsTried path q e)
    | inr e ↦
        let (d, h1) = if-eq-some (fs.is_dir path) _ e in
        directory d (elim (or_else-eq-some (read_package fs path >>= main_file fs path) _ h1) [
          | inl e1 ↦
              let (manifest, e2, found) = >>=-eq-some (read_package fs path) _ e1 in
              main_file-IsOfDirectory path manifest q e2 found
          | inr e1 ↦ by_index (try_extensions-IsTried _ q e1)
        ])
  ]

  export_file-IsOfPackage :
      (pkg : Text) (manifest : Value) (sub q : Text)
      → read_package fs pkg ≡ some manifest
      → export_file fs pkg manifest sub ≡ some q
      → IsOfPackage fs pkg sub q
  unfolding export_file
  export_file-IsOfPackage pkg manifest sub q at_pkg h =
      let (exports, e, h1) = >>=-eq-some (get exports_key manifest) _ h in
      let (rel, e1, h2) = >>=-eq-some (match_exports exports (export_key sub)) _ h1 in
      let candidate = join pkg (trim_dot_slash rel) in
      exported at_pkg e e1 (elim (or_else-eq-some (if_file fs candidate) _ h2) [
        | inl found ↦ subst (IsTried candidate) (if_file-same _ q found) itself
        | inr found ↦ try_extensions-IsTried _ q found
      ])

  package_main-IsOfDirectory :
      (pkg : Text) (manifest : Option Value) (q : Text)
      → read_package fs pkg ≡ manifest
      → package_main fs pkg manifest ≡ some q
      → IsOfDirectory fs pkg q
  unfolding package_main
  package_main-IsOfDirectory pkg none q at_pkg h = by_index (try_extensions-IsTried _ q h)
  package_main-IsOfDirectory pkg (some manifest) q at_pkg h =
      elim (or_else-eq-some (main_file fs pkg manifest) _ h) [
        | inl e ↦ main_file-IsOfDirectory pkg manifest q at_pkg e
        | inr e ↦ by_index (try_extensions-IsTried _ q e)
      ]

  pub resolve_in_package-IsOfPackage :
      (pkg sub q : Text) → resolve_in_package fs pkg sub ≡ some q → IsOfPackage fs pkg sub q
  unfolding resolve_in_package
  resolve_in_package-IsOfPackage pkg sub q h =
      elim (or_else-eq-some (read_package fs pkg >>= (λ json. export_file fs pkg json sub)) _ h) [
        | inl e ↦
            let (manifest, e1, found) = >>=-eq-some (read_package fs pkg) _ e in
            export_file-IsOfPackage pkg manifest sub q e1 found
        | inr e ↦ elim (Bool-cases (is_empty sub)) [
          | inl t ↦
              whole t (package_main-IsOfDirectory pkg (read_package fs pkg) q refl (rw t at e))
          | inr f ↦ within f (path-IsOfPath (join pkg sub) q (rw f at e))
        ]
      ]

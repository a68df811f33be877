-- ===== src/Cjs/Resolver/Packages/Files.antt =====
-- About the candidates of Cjs/Resolver: what they find.
use nexide.Prelude.{◌≡◌, inl, inr, true, ◌∷◌, ◌++◌, Option, none, some, Bool-cases}
use nexide.Prelude.Options.{
  or_else, some-inj, ◌>>=◌, >>=-eq-some, if-eq-some, or_else-eq-some, find_map-eq-some,
}
use nexide.Prelude.Text.{Text}
use nexide.Ops.Request.{is_empty}
use nexide.Cjs.Paths.{join, with_extension}
use nexide.Cjs.Json.{Value, get, as_str}
use nexide.Cjs.Exports.{match_exports}
use nexide.Cjs.Resolver.{FileSystem}
use nexide.Cjs.Resolver.Candidates.{
  candidates, main_key, if_file, with_candidate, try_extensions, read_package, main_file,
  try_directory,
}
use nexide.Cjs.Resolver.Packages.{
  exports_key, export_key, export_file, package_main, resolve_in_package, trim_dot_slash,
}

module _ (fs : FileSystem) where
  pub if_file-is_file : (p q : Text) → if_file fs p ≡ some q → fs.is_file q ≡ true
  unfolding if_file
  if_file-is_file p q h = let (t, e) = if-eq-some (fs.is_file p) (some p) h in rw (← some-inj e) t

  with_candidate-is_file :
      (base q ext : Text) → with_candidate fs base ext ≡ some q → fs.is_file q ≡ true
  unfolding with_candidate
  with_candidate-is_file base q ext h =
      elim (or_else-eq-some (if_file fs (base ++ b'.' ∷ ext)) _ h) [
        | inl e ↦ if_file-is_file _ q e
        | inr e ↦ if_file-is_file (with_extension base ext) q e
      ]

  pub try_extensions-is_file :
      (base q : Text) → try_extensions fs base ≡ some q → fs.is_file q ≡ true
  unfolding try_extensions
  try_extensions-is_file base q h = elim (or_else-eq-some (if_file fs base) _ h) [
    | inl e ↦ if_file-is_file _ q e
    | inr e ↦
        let (ext, found) = find_map-eq-some (with_candidate fs base) candidates e in
        with_candidate-is_file base q ext found
  ]

  main_file-is_file :
      (dir : Text) (manifest : Value) (q : Text)
      → main_file fs dir manifest ≡ some q
      → fs.is_file q ≡ true
  unfolding main_file
  main_file-is_file dir manifest q h =
      let (value, e, h1) = >>=-eq-some (get main_key manifest) _ h in
      let (name, e1, h2) = >>=-eq-some (as_str value) _ h1 in
      elim (or_else-eq-some (try_extensions fs (join dir name)) _ h2) [
        | inl found ↦ try_extensions-is_file _ q found
        | inr found ↦ try_extensions-is_file _ q found
      ]

  pub try_directory-is_file : (dir q : Text) → try_directory fs dir ≡ some q → fs.is_file q ≡ true
  unfolding try_directory
  try_directory-is_file dir q h =
      let (d, h1) = if-eq-some (fs.is_dir dir) _ h in
      elim (or_else-eq-some (read_package fs dir >>= main_file fs dir) _ h1) [
        | inl e ↦
            let (manifest, e1, found) = >>=-eq-some (read_package fs dir) _ e in
            main_file-is_file dir manifest q found
        | inr e ↦ try_extensions-is_file _ q e
      ]

  pub path-is_file :
      (path q : Text)
      → or_else (try_extensions fs path) (try_directory fs path) ≡ some q
      → fs.is_file q ≡ true
  path-is_file path q h = elim (or_else-eq-some (try_extensions fs path) _ h) [
    | inl e ↦ try_extensions-is_file path q e
    | inr e ↦ try_directory-is_file path q e
  ]

  export_file-is_file :
      (dir : Text) (manifest : Value) (sub q : Text)
      → export_file fs dir manifest sub ≡ some q
      → fs.is_file q ≡ true
  unfolding export_file
  export_file-is_file dir manifest sub q h =
      let (exports, e, h1) = >>=-eq-some (get exports_key manifest) _ h in
      let (rel, e1, h2) = >>=-eq-some (match_exports exports (export_key sub)) _ h1 in
      elim (or_else-eq-some (if_file fs (join dir (trim_dot_slash rel))) _ h2) [
        | inl found ↦ if_file-is_file _ q found
        | inr found ↦ try_extensions-is_file _ q found
      ]

  package_main-is_file :
      (dir : Text) (manifest : Option Value) (q : Text)
      → package_main fs dir manifest ≡ some q
      → fs.is_file q ≡ true
  unfolding package_main
  package_main-is_file dir none q h = try_extensions-is_file _ q h
  package_main-is_file dir (some manifest) q h =
      elim (or_else-eq-some (main_file fs dir manifest) _ h) [
        | inl e ↦ main_file-is_file dir manifest q e
        | inr e ↦ try_extensions-is_file _ q e
      ]

  pub resolve_in_package-is_file :
      (dir sub q : Text) → resolve_in_package fs dir sub ≡ some q → fs.is_file q ≡ true
  unfolding resolve_in_package
  resolve_in_package-is_file dir sub q h =
      elim (or_else-eq-some (read_package fs dir >>= (λ json. export_file fs dir json sub)) _ h) [
        | inl e ↦
            let (manifest, e1, found) = >>=-eq-some (read_package fs dir) _ e in
            export_file-is_file dir manifest sub q found
        | inr e ↦ elim (Bool-cases (is_empty sub)) [
          | inl t ↦ package_main-is_file dir (read_package fs dir) q (rw t at e)
          | inr f ↦ path-is_file (join dir sub) q (rw f at e)
        ]
      ]

-- ===== src/Cjs/Resolver/Candidates.antt =====
-- crates/nexide/src/engine/cjs/resolver.rs: the files that a path can stand for (`try_extensions`,
-- `try_directory`, `resolve_file_path`).
use nexide.Prelude.{List, [], ◌∷◌, ◌++◌, Option, none, some, if◌then◌else◌}
use nexide.Prelude.Options.{or_else, find_map, ◌>>=◌}
use nexide.Prelude.Results.{Result, ok, err}
use nexide.Prelude.Text.{Text}
use nexide.Cjs.Paths.{is_absolute, join, with_extension}
use nexide.Cjs.Json.{Value, get, as_str}
use nexide.Cjs.Registry.{CjsError, not_found, access_denied}
use nexide.Cjs.Resolver.{FileSystem, Resolved, FsResolver, within_roots, classify}

-- `CANDIDATES`
abbrev pub candidates : List Text
candidates =
    (b'j' ∷ b's' ∷ [])
    ∷ (b'c' ∷ b'j' ∷ b's' ∷ [])
    ∷ (b'j' ∷ b's' ∷ b'o' ∷ b'n' ∷ [])
    ∷ (b'm' ∷ b'j' ∷ b's' ∷ [])
    ∷ (b'n' ∷ b'o' ∷ b'd' ∷ b'e' ∷ [])
    ∷ []

abbrev pub package_json : Text
package_json =
    b'p' ∷ b'a' ∷ b'c' ∷ b'k' ∷ b'a' ∷ b'g' ∷ b'e' ∷ b'.' ∷ b'j' ∷ b's' ∷ b'o' ∷ b'n' ∷ []

abbrev pub index : Text
index = b'i' ∷ b'n' ∷ b'd' ∷ b'e' ∷ b'x' ∷ []

abbrev pub main_key : Text
main_key = b'm' ∷ b'a' ∷ b'i' ∷ b'n' ∷ []

module _ (fs : FileSystem) where
  -- `path.is_file().then_some(path)`
  unfoldable pub if_file : Text → Option Text
  if_file path = if fs.is_file path then some path else none

  -- The candidates of one extension: appended, then in place of the path's own.
  unfoldable pub with_candidate : Text → Text → Option Text
  unfolding if_file with_extension
  with_candidate base ext =
      or_else (if_file (base ++ b'.' ∷ ext)) (if_file (with_extension base ext))

  unfoldable pub try_extensions : Text → Option Text
  unfolding if_file with_candidate
  try_extensions base = or_else (if_file base) (find_map (with_candidate base) candidates)

  -- `serde_json::from_str(&read_to_string(path)?)` of a package.json that is a file.
  unfoldable pub read_package : Text → Option Value
  unfolding join
  read_package dir =
      let pkg = join dir package_json in
      if fs.is_file pkg then fs.read_to_string pkg >>= fs.from_str else none

  -- The file that `main` of a package.json names.
  unfoldable pub main_file : Text → Value → Option Text
  unfolding get as_str join try_extensions
  main_file dir manifest = do
    value ← get main_key manifest
    name ← as_str value
    or_else (try_extensions (join dir name)) (try_extensions (join (join dir name) index))

  unfoldable pub try_directory : Text → Option Text
  unfolding read_package main_file join try_extensions
  try_directory dir =
      if fs.is_dir dir
      then or_else (read_package dir >>= main_file dir) (try_extensions (join dir index))
      else none

  -- The end of `resolve_file_path`: the candidate, if there is one, within the roots.
  unfoldable pub accept : FsResolver → Text → Text → Option Text → Result CjsError Resolved
  unfolding within_roots classify
  accept cjs request base_dir none = err (not_found request (fs.to_string_lossy base_dir))
  accept cjs request base_dir (some path) =
      if within_roots fs cjs path then ok (classify fs path) else err (access_denied path)

  -- `FsResolver::resolve_file_path`
  unfoldable pub resolve_file_path : FsResolver → Text → Text → Result CjsError Resolved
  unfolding is_absolute join try_extensions try_directory accept
  resolve_file_path cjs base_dir request =
      let raw = if is_absolute request then request else join base_dir request in
      accept cjs request base_dir (or_else (try_extensions raw) (try_directory raw))

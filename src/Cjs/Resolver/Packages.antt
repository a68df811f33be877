-- ===== src/Cjs/Resolver/Packages.antt =====
-- crates/nexide/src/engine/cjs/resolver.rs: packages in `node_modules`, the imports of a package,
-- and `resolve`.
pub mod Files
pub mod Admission
pub mod Naming
pub mod Missing
pub mod Refusal
pub mod Returning
use nexide.Prelude.{
  ℕ, zero, suc, Bool, true, false, not, ◌||◌, ◌&&◌, List, [], ◌∷◌, ◌++◌, Option, none, some, length,
  if◌then◌else◌, ◌==◌,
}
use nexide.Prelude.Options.{or_else, find_map, map_some, ◌>>=◌}
use nexide.Prelude.Results.{Result, ok, err}
use nexide.Prelude.Text.{Text, text_eq, strip_prefix, starts_with}
use nexide.Ops.Request.{is_empty}
use nexide.Cjs.Paths.{dot, dot_dot, slash, join}
use nexide.Cjs.Paths.Ancestors.{ancestors}
use nexide.Cjs.Json.{Value, get}
use nexide.Cjs.Exports.{split_package_name, match_exports}
use nexide.Cjs.Registry.{CjsError, not_found, contains}
use nexide.Cjs.Resolver.{
  FileSystem, Resolved, builtin, FsResolver, node_prefix, parent_dir, within_roots, classify,
}
use nexide.Cjs.Resolver.Candidates.{
  index, if_file, try_extensions, read_package, main_file, try_directory, resolve_file_path,
}

abbrev pub exports_key : Text
exports_key = b'e' ∷ b'x' ∷ b'p' ∷ b'o' ∷ b'r' ∷ b't' ∷ b's' ∷ []

abbrev pub imports_key : Text
imports_key = b'i' ∷ b'm' ∷ b'p' ∷ b'o' ∷ b'r' ∷ b't' ∷ b's' ∷ []

abbrev pub dot_slash : Text
dot_slash = b'.' ∷ b'/' ∷ []

-- `s.trim_start_matches("./")`
unfoldable pub trim_dot_slash : Text → Text
trim_dot_slash [] = []
trim_dot_slash (c ∷ []) = c ∷ []
trim_dot_slash (c ∷ d ∷ s) =
    let rest = trim_dot_slash s in if (c == b'.') && (d == b'/') then rest else c ∷ d ∷ s

-- The directory and all above it; the walk has one step more than the text has bytes.
unfoldable pub walk_up : Text → List Text
unfolding ancestors
walk_up dir = ancestors (suc (length dir)) dir

-- The key of a path within a package.
unfoldable pub export_key : Text → Text
export_key subpath = if is_empty subpath then dot else dot_slash ++ subpath

-- `s.starts_with("./") || s.starts_with("../")`
unfoldable pub is_dotted : Text → Bool
unfolding starts_with
is_dotted s = starts_with dot_slash s || starts_with (b'.' ∷ b'.' ∷ b'/' ∷ []) s

-- `is_relative` of `resolve`, which an absolute path also is.
unfoldable pub is_relative : Text → Bool
unfolding starts_with is_dotted
is_relative request =
    is_dotted request
    || starts_with (slash ∷ []) request
    || text_eq request dot
    || text_eq request dot_dot

module _ (fs : FileSystem) where
  -- The file that `exports` of the package gives a path within it.
  unfoldable pub export_file : Text → Value → Text → Option Text
  unfolding get export_key match_exports trim_dot_slash join if_file try_extensions
  export_file pkg_dir manifest subpath = do
    exports ← get exports_key manifest
    rel ← match_exports exports (export_key subpath)
    (let candidate = join pkg_dir (trim_dot_slash rel) in
        or_else (if_file fs candidate) (try_extensions fs candidate))

  -- The package itself, by its `main` and its index.
  unfoldable pub package_main : Text → Option Value → Option Text
  unfolding main_file join try_extensions
  package_main pkg_dir none = try_extensions fs (join pkg_dir index)
  package_main pkg_dir (some manifest) =
      or_else (main_file fs pkg_dir manifest) (try_extensions fs (join pkg_dir index))

  unfoldable pub resolve_in_package : Text → Text → Option Text
  unfolding read_package export_file package_main join try_extensions try_directory
  resolve_in_package pkg_dir subpath =
      let manifest = read_package fs pkg_dir in
      or_else (manifest >>= (λ json. export_file pkg_dir json subpath)) (
        if is_empty subpath
        then package_main pkg_dir manifest
        else or_else (try_extensions fs (join pkg_dir subpath))
            (try_directory fs (join pkg_dir subpath)))

  -- `path.filter(|p| self.within_roots(p))`
  unfoldable pub if_admitted : FsResolver → Option Text → Option Text
  unfolding within_roots
  if_admitted cjs none = none
  if_admitted cjs (some path) = if within_roots fs cjs path then some path else none

  -- One round of the walk of `resolve_node_modules`.
  unfoldable pub in_node_modules : FsResolver → Text → Text → Text → Option Text
  unfolding join resolve_in_package if_admitted
  in_node_modules cjs pkg_name subpath dir =
      let pkg_dir =
        join
          (join dir (
            b'n' ∷ b'o' ∷ b'd' ∷ b'e' ∷ b'_' ∷ b'm' ∷ b'o' ∷ b'd' ∷ b'u' ∷ b'l' ∷ b'e' ∷ b's' ∷ []))
          pkg_name in
      if fs.is_dir pkg_dir then if_admitted cjs (resolve_in_package pkg_dir subpath) else none

  -- The file, classified, or that none was found.
  unfoldable pub found_or : Text → Text → Option Text → Result CjsError Resolved
  unfolding classify
  found_or request base_dir none = err (not_found request (fs.to_string_lossy base_dir))
  found_or request base_dir (some path) = ok (classify fs path)

  unfoldable pub resolve_node_modules : FsResolver → Text → Text → Result CjsError Resolved
  unfolding split_package_name walk_up in_node_modules found_or
  resolve_node_modules cjs base_dir request =
      let (pkg_name, subpath) = split_package_name request in
      found_or request base_dir (find_map (in_node_modules cjs pkg_name subpath) (walk_up base_dir))

  -- One round of the walk of `resolve_subpath_imports`: the directory and the target.
  unfoldable pub imports_of : Text → Text → Option (Text × Text)
  unfolding read_package get match_exports
  imports_of request dir = do
    manifest ← read_package fs dir
    imports ← get imports_key manifest
    map_some (λ rel. (dir, rel)) (match_exports imports request)

  -- `FsResolver::resolve_imports_target`, given `resolve_subpath_imports` for a target that is an
  -- import itself; `none` is a call that does not return.
  unfoldable pub resolve_imports_target :
      (Text → Text → Option (Result CjsError Resolved))
      → FsResolver
      → Text
      → Text
      → Text
      → Text
      → Option (Result CjsError Resolved)
  unfolding is_dotted starts_with trim_dot_slash join if_file try_extensions try_directory
      if_admitted found_or resolve_node_modules
  resolve_imports_target again cjs pkg_dir target request base_dir =
      let candidate = join pkg_dir (trim_dot_slash target) in
      if is_dotted target
      then some (
          found_or request base_dir (
            if_admitted cjs (
              or_else (if_file fs candidate)
                (or_else (try_extensions fs candidate) (try_directory fs candidate)))))
      else if starts_with (b'#' ∷ []) target
      then again pkg_dir target
      else some (resolve_node_modules cjs pkg_dir target)

  -- The end of `resolve_subpath_imports`: the directory and the target that the walk has found.
  unfoldable pub follow_import :
      (Text → Text → Option (Result CjsError Resolved))
      → FsResolver
      → Text
      → Text
      → Option (Text × Text)
      → Option (Result CjsError Resolved)
  unfolding resolve_imports_target
  follow_import again cjs request base_dir none =
      some (err (not_found request (fs.to_string_lossy base_dir)))
  follow_import again cjs request base_dir (some found) =
      resolve_imports_target again cjs found.0 found.1 request base_dir

  -- `FsResolver::resolve_subpath_imports`, on fuel for the depth of its recursion.
  unfoldable pub resolve_subpath_imports :
      ℕ → FsResolver → Text → Text → Option (Result CjsError Resolved)
  unfolding walk_up imports_of follow_import
  resolve_subpath_imports zero cjs base_dir request = none
  resolve_subpath_imports (suc fuel) cjs base_dir request =
      follow_import (resolve_subpath_imports fuel cjs) cjs request base_dir
        (find_map (imports_of request) (walk_up base_dir))

  -- A request that is not `node:…`.
  unfoldable pub resolve_plain : ℕ → FsResolver → Text → Text → Option (Result CjsError Resolved)
  unfolding is_relative contains parent_dir starts_with resolve_subpath_imports resolve_file_path
      resolve_node_modules
  resolve_plain fuel cjs parent request =
      let base_dir = parent_dir fs cjs parent in
      if not (is_relative request) && contains request cjs.registry
      then some (ok (builtin request))
      else if starts_with (b'#' ∷ []) request
      then resolve_subpath_imports fuel cjs base_dir request
      else some (
          if is_relative request
          then resolve_file_path fs cjs base_dir request
          else resolve_node_modules cjs base_dir request)

  -- `FsResolver::resolve`
  unfoldable pub resolve : ℕ → FsResolver → Text → Text → Option (Result CjsError Resolved)
  unfolding strip_prefix contains resolve_plain
  resolve fuel cjs parent request = elim (strip_prefix node_prefix request) [
    | some name ↦
        some
          (if contains name cjs.registry then ok (builtin name) else err (not_found request parent))
    | none ↦ resolve_plain fuel cjs parent request
  ]

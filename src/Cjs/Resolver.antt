-- ===== src/Cjs/Resolver.antt =====
-- crates/nexide/src/engine/cjs/resolver.rs: what a `require` resolves to (`FsResolver`). The file
-- system and the JSON parser are parameters; paths are text.
pub mod Candidates
pub mod Packages
use nexide.Prelude.{Bool, true, false, ◌||◌, List, [], ◌∷◌, ◌++◌, Option, none, some, if◌then◌else◌}
use nexide.Prelude.Options.{or_else, find_map, map_some}
use nexide.Prelude.Results.{Result, ok, err}
use nexide.Prelude.Text.{Text, text_eq, strip_prefix, starts_with}
use nexide.Image.Output.{eq_ignore_ascii_case}
use nexide.Cjs.Paths.{is_absolute, path_starts_with, parent, extension}
use nexide.Cjs.Json.{Value}
use nexide.Cjs.Registry.{BuiltinRegistry, CjsError, not_found}

-- What the resolver asks of the operating system and of `serde_json`, and the lossy decoding of UTF-8;
-- `none` is an error.
pub record FileSystem : Type 0 where
  pub is_file : Text → Bool
  pub is_dir : Text → Bool
  pub canonicalize : Text → Option Text
  pub read_to_string : Text → Option Text
  pub from_str : Text → Option Value
  pub to_string_lossy : Text → Text

pub data Resolved : Type 0 where
  file : Text → Resolved
  json : Text → Resolved
  native : Text → Resolved
  builtin : Text → Resolved

-- `ROOT_PARENT`
abbrev pub root_parent : Text
root_parent = b'<' ∷ b'r' ∷ b'o' ∷ b'o' ∷ b't' ∷ b'>' ∷ []

abbrev pub node_prefix : Text
node_prefix = b'n' ∷ b'o' ∷ b'd' ∷ b'e' ∷ b':' ∷ []

-- The bytes of a specifier that names a module.
unfoldable pub name_of : Resolved → Text
name_of (file path) = path
name_of (json path) = path
name_of (native path) = path
name_of (builtin name) = node_prefix ++ name

-- `path.extension().is_some_and(|ext| ext.eq_ignore_ascii_case(name))`
unfoldable pub has_extension : Text → Text → Bool
unfolding extension eq_ignore_ascii_case
has_extension name path = elim (extension path) [
  | none ↦ false
  | some ext ↦ eq_ignore_ascii_case ext name
]

-- The kind of a file by its extension, which `from_specifier` and `classify` tell in the same way.
unfoldable pub by_extension : Text → Resolved
unfolding has_extension
by_extension path =
    if has_extension (b'j' ∷ b's' ∷ b'o' ∷ b'n' ∷ []) path
    then json path
    else if has_extension (b'n' ∷ b'o' ∷ b'd' ∷ b'e' ∷ []) path
    then native path
    else file path

-- `Resolved::from_specifier`
unfoldable pub from_specifier : Text → Result CjsError Resolved
unfolding strip_prefix is_absolute by_extension
from_specifier spec = elim (strip_prefix node_prefix spec) [
  | some name ↦ ok (builtin name)
  | none ↦ if is_absolute spec then ok (by_extension spec) else err (not_found spec root_parent)
]

-- The roots are the first, which is the project's, and the others.
pub record FsResolver : Type 0 where
  pub project_root : Text
  pub more_roots : List Text
  pub registry : BuiltinRegistry

-- `FsResolver::new`, which panics without a root.
unfoldable pub new : List Text → BuiltinRegistry → Option FsResolver
new [] registry = none
new (root ∷ roots) registry =
    some (record { project_root = root; more_roots = roots; registry = registry })

module _ (fs : FileSystem) where
  -- `Resolved::to_specifier`
  unfoldable pub to_specifier : Resolved → Text
  to_specifier (file path) = fs.to_string_lossy path
  to_specifier (json path) = fs.to_string_lossy path
  to_specifier (native path) = fs.to_string_lossy path
  to_specifier (builtin name) = node_prefix ++ name

  -- `path.canonicalize().unwrap_or(path)`
  unfoldable pub canonical : Text → Text
  canonical path = elim (fs.canonicalize path) [ none ↦ path | some p ↦ p ]

  -- `FsResolver::parent_dir`
  unfoldable pub parent_dir : FsResolver → Text → Text
  unfolding starts_with parent canonical
  parent_dir cjs p =
      if text_eq p root_parent || starts_with node_prefix p
      then cjs.project_root
      else canonical (elim (parent p) [ none ↦ cjs.project_root | some dir ↦ dir ])

  unfoldable pub any_root : Text → List Text → Bool
  unfolding canonical path_starts_with
  any_root probe [] = false
  any_root probe (root ∷ roots) = path_starts_with probe (canonical root) || any_root probe roots

  -- `FsResolver::within_roots`, which `is_path_admitted` calls.
  unfoldable pub within_roots : FsResolver → Text → Bool
  unfolding any_root canonical
  within_roots cjs path = any_root (canonical path) (cjs.project_root ∷ cjs.more_roots)

  -- `FsResolver::classify`
  unfoldable pub classify : Text → Resolved
  unfolding canonical by_extension
  classify path = by_extension (canonical path)

-- ===== src/Ops/Sandbox.antt =====
-- crates/nexide/src/ops/fs_sync.rs: the sandbox of the file system ops. The file system, and what it
-- takes for the canonical form of a path, are parameters.
pub mod Handle
pub mod Inside
pub mod Agreement
use nexide.Prelude.{
  ℕ, Bool, true, false, List, [], ◌∷◌, ◌++◌, Option, none, some, map, if◌then◌else◌,
}
use nexide.Prelude.Options.{◌>>=◌, or_else}
use nexide.Prelude.Results.{Result, ok, err}
use nexide.Prelude.Text.{Text, text_eq}
use nexide.Cjs.Paths.{
  dot, dot_dot, slash, init, join, parent, file_name, components, path_starts_with,
}

pub record FsError : Type 0 where
  pub code : Text
  pub message : Text

-- `std::io::ErrorKind`, as far as `from_io` tells the kinds apart.
pub data IoKind : Type 0 where
  not_found : IoKind
  permission_denied : IoKind
  already_exists : IoKind
  invalid_input : IoKind
  invalid_data : IoKind
  unsupported : IoKind
  other_io : ℕ → IoKind

abbrev pub eacces : Text
eacces = b'E' ∷ b'A' ∷ b'C' ∷ b'C' ∷ b'E' ∷ b'S' ∷ []

unfoldable pub code_of : IoKind → Text
code_of not_found = b'E' ∷ b'N' ∷ b'O' ∷ b'E' ∷ b'N' ∷ b'T' ∷ []
code_of permission_denied = eacces
code_of already_exists = b'E' ∷ b'E' ∷ b'X' ∷ b'I' ∷ b'S' ∷ b'T' ∷ []
code_of invalid_input = b'E' ∷ b'I' ∷ b'N' ∷ b'V' ∷ b'A' ∷ b'L' ∷ []
code_of invalid_data = b'E' ∷ b'I' ∷ b'N' ∷ b'V' ∷ b'A' ∷ b'L' ∷ []
code_of unsupported = b'E' ∷ b'N' ∷ b'O' ∷ b'S' ∷ b'Y' ∷ b'S' ∷ []
code_of (other_io n) = b'E' ∷ b'I' ∷ b'O' ∷ []

-- `FsError::from_io`, for the kind and the text of the error.
unfoldable pub from_io : IoKind → Text → Text → FsError
unfolding code_of
from_io kind text path = record {
  code = code_of kind;
  message = code_of kind ++ (b':' ∷ b' ' ∷ []) ++ text ++ (b' ' ∷ b'(' ∷ []) ++ path ++ b')' ∷ [];
}

-- A `PathBuf` that is built of components, by the components. `pop` leaves a root alone.
unfoldable pub popped : List Text → List Text
unfolding init
popped [] = []
popped (c ∷ []) = if text_eq c (slash ∷ []) then c ∷ [] else []
popped (c ∷ d ∷ cs) = init (c ∷ d ∷ cs)

-- The `match comp`.
unfoldable pub normalise_step : List Text → Text → List Text
unfolding popped
normalise_step out c =
    if text_eq c dot_dot then popped out else if text_eq c dot then out else out ++ c ∷ []

-- The loop of `lexical_normalise`.
unfoldable pub normalise_from : List Text → List Text → List Text
unfolding normalise_step
normalise_from out [] = out
normalise_from out (c ∷ cs) = normalise_from (normalise_step out c) cs

-- The path of the components pushed one after the other.
unfoldable pub path_of : Text → List Text → Text
unfolding join
path_of out [] = out
path_of out (c ∷ cs) = path_of (join out c) cs

unfoldable pub lexical_normalise : Text → Text
unfolding normalise_from components path_of
lexical_normalise path = path_of [] (normalise_from [] (components path))

-- The roots of a sandbox, canonical where they exist.
pub record PathSandbox : Type 0 where
  pub roots : List Text

-- `roots.iter().any(|root| probe.starts_with(root))`, as a loop
unfoldable pub within_any : List Text → Text → Bool
unfolding path_starts_with
within_any [] probe = false
within_any (root ∷ roots) probe =
    let rest = within_any roots probe in if path_starts_with probe root then true else rest

-- `o.ok_or(e)`
unfoldable pub ok_or : FsError → Option Text → Result FsError Text
ok_or e none = err e
ok_or e (some p) = ok p

module _ (canonicalize : Text → Option Text) where
  unfoldable pub canonical_root : Text → Text
  canonical_root root = elim (canonicalize root) [ none ↦ root | some r ↦ r ]

  -- `PathSandbox::new`, which asserts that there is a root.
  unfoldable pub new_sandbox : List Text → Option PathSandbox
  unfolding canonical_root
  new_sandbox [] = none
  new_sandbox (r ∷ rs) = some (record { roots = map canonical_root (r ∷ rs) })

  -- The canonical form of a path, or that of a new file in a directory that exists.
  unfoldable pub canonical_target : Text → Option Text
  unfolding parent file_name join
  canonical_target path =
      or_else (canonicalize path)
        (do up ← parent path; dir ← canonicalize up; file ← file_name path; some (join dir file))

  -- What the sandbox tests, and hands to the file system.
  unfoldable pub probe : Text → Text
  unfolding canonical_target lexical_normalise
  probe path = elim (canonical_target path) [ none ↦ lexical_normalise path | some p ↦ p ]

  unfoldable pub canonical_within : PathSandbox → Text → Option Text
  unfolding probe within_any
  canonical_within sandbox path =
      if within_any sandbox.roots (probe path) then some (probe path) else none

  unfoldable pub escape_error : Text → FsError
  escape_error path = record {
    code = eacces;
    message =
        eacces
        ++ (b':' ∷ b' ' ∷ b'p' ∷ b'a' ∷ b't' ∷ b'h' ∷ b' ' ∷ b'e' ∷ b's' ∷ b'c' ∷ b'a' ∷ b'p' ∷ b'e'
            ∷ b's' ∷ b' ' ∷ b's' ∷ b'a' ∷ b'n' ∷ b'd' ∷ b'b' ∷ b'o' ∷ b'x' ∷ b' ' ∷ b'(' ∷ [])
        ++ path
        ++ b')' ∷ [];
  }

  -- `PathSandbox::admit`
  unfoldable pub admit : PathSandbox → Text → Result FsError Text
  unfolding canonical_within escape_error ok_or
  admit sandbox path = ok_or (escape_error path) (canonical_within sandbox path)

-- ===== src/Cjs/Paths.antt =====
-- The operations of `std::path` that crates/nexide/src/engine/cjs/resolver.rs uses, on the text of
-- Unix paths.
pub mod Ancestors
use nexide.Prelude.{
  ℕ, zero, suc, ◌-◌, Bool, true, false, not, ◌&&◌, ◌||◌, List, [], ◌∷◌, ◌++◌, Option, none, some,
  length, take, ◌==◌, if◌then◌else◌,
}
use nexide.Prelude.Text.{Text, text_eq}
use nexide.Prelude.Options.{map_some, or_else}
use nexide.Ops.Request.{is_empty}
use nexide.Image.Params.{split_on}

abbrev pub slash : ℕ
slash = b'/'

abbrev pub dot : Text
dot = b'.' ∷ []

abbrev pub dot_dot : Text
dot_dot = b'.' ∷ b'.' ∷ []

unfoldable pub is_absolute : Text → Bool
is_absolute [] = false
is_absolute (c ∷ s) = c == slash

-- A piece between two slashes that is no component.
unfoldable pub is_ignored : Text → Bool
is_ignored piece = is_empty piece || text_eq piece dot

unfoldable pub named : List Text → List Text
unfolding is_ignored
named [] = []
named (p ∷ ps) = let rest = named ps in if is_ignored p then rest else p ∷ rest

-- `Path::components`, the root as a slash. A dot is a component in front of a relative path only.
unfoldable pub components : Text → List Text
unfolding named split_on
components [] = []
components (c ∷ s) =
    if c == slash
    then (slash ∷ []) ∷ named (split_on slash s)
    else elim (split_on slash (c ∷ s)) [ [] ↦ [] | p ∷ ps ↦ p ∷ named ps ]

unfoldable pub is_prefix : List Text → List Text → Bool
is_prefix [] ys = true
is_prefix (x ∷ xs) [] = false
is_prefix (x ∷ xs) (y ∷ ys) = text_eq x y && is_prefix xs ys

-- `path.starts_with(base)`
unfoldable pub path_starts_with : Text → Text → Bool
unfolding components is_prefix
path_starts_with path base = is_prefix (components base) (components path)

unfoldable pub join_pieces : List Text → Text
join_pieces [] = []
join_pieces (p ∷ []) = p
join_pieces (p ∷ q ∷ ps) = p ++ slash ∷ join_pieces (q ∷ ps)

-- Without the pieces at the end that are no components.
unfoldable pub trim_pieces : List Text → List Text
unfolding is_ignored
trim_pieces [] = []
trim_pieces (p ∷ ps) =
    let rest = trim_pieces ps in if is_ignored p && is_empty rest then [] else p ∷ rest

-- Without the last piece.
unfoldable pub init : List Text → List Text
init [] = []
init (p ∷ []) = []
init (p ∷ q ∷ ps) = p ∷ init (q ∷ ps)

-- The pieces of the parent, if there is a last component to remove.
unfoldable pub parent_pieces : List Text → Option (List Text)
unfolding trim_pieces init
parent_pieces ps = elim (trim_pieces ps) [ [] ↦ none | q ∷ qs ↦ some (trim_pieces (init (q ∷ qs))) ]

-- The parent of a relative path, given by its pieces.
unfoldable pub relative_parent : List Text → Option Text
unfolding parent_pieces join_pieces
relative_parent [] = none
relative_parent (p ∷ ps) =
    if text_eq p dot
    then or_else (map_some (λ qs. join_pieces (p ∷ qs)) (parent_pieces ps)) (some [])
    else map_some join_pieces (parent_pieces (p ∷ ps))

-- `Path::parent`
unfoldable pub parent : Text → Option Text
unfolding split_on parent_pieces relative_parent join_pieces
parent [] = none
parent (c ∷ s) =
    if c == slash
    then map_some (λ qs. slash ∷ join_pieces qs) (parent_pieces (split_on slash s))
    else relative_parent (split_on slash (c ∷ s))

unfoldable pub ends_with_slash : Text → Bool
ends_with_slash [] = false
ends_with_slash (c ∷ []) = c == slash
ends_with_slash (c ∷ d ∷ s) = ends_with_slash (d ∷ s)

-- `Path::join`
unfoldable pub join : Text → Text → Text
unfolding is_absolute ends_with_slash
join base path =
    if is_absolute path
    then path
    else if is_empty base || ends_with_slash base
    then base ++ path
    else base ++ slash ∷ path

unfoldable pub last : List Text → Option Text
last [] = none
last (p ∷ []) = some p
last (p ∷ q ∷ ps) = last (q ∷ ps)

-- `Path::file_name`: the last component, unless it is the root, `.` or `..`.
unfoldable pub file_name : Text → Option Text
unfolding last components
file_name path = elim (last (components path)) [
  | none ↦ none
  | some p ↦ if text_eq p (slash ∷ []) || text_eq p dot || text_eq p dot_dot then none else some p
]

-- `rsplit_once('.')`
unfoldable pub rsplit_dot : Text → Option (Text × Text)
rsplit_dot [] = none
rsplit_dot (c ∷ s) = elim (rsplit_dot s) [
  | some split ↦ some (c ∷ split.0, split.1)
  | none ↦ if c == b'.' then some ([], s) else none
]

-- The stem and the extension of a file name: a dot in front starts no extension.
unfoldable pub split_name : Text → Text × Option Text
unfolding rsplit_dot
split_name name = elim (rsplit_dot name) [
  | none ↦ (name, none)
  | some split ↦ if is_empty split.0 then (name, none) else (split.0, some split.1)
]

-- `Path::extension`
unfoldable pub extension : Text → Option Text
unfolding file_name split_name
extension path = elim (file_name path) [ none ↦ none | some name ↦ (split_name name).1 ]

-- The path without what follows its last component.
unfoldable pub trimmed : Text → Text
unfolding split_on trim_pieces join_pieces
trimmed [] = []
trimmed (c ∷ s) =
    if c == slash
    then slash ∷ join_pieces (trim_pieces (split_on slash s))
    else join_pieces (trim_pieces (split_on slash (c ∷ s)))

-- `Path::with_extension`, for an extension that is not empty.
unfoldable pub with_extension : Text → Text → Text
unfolding file_name split_name trimmed
with_extension path ext = elim (file_name path) [
  | none ↦ path
  | some name ↦
      take (length (trimmed path) - length name) (trimmed path) ++ (split_name name).0 ++ b'.' ∷ ext
]

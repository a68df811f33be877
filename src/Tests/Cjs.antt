-- ===== src/Tests/Cjs.antt =====
-- Tests of the CommonJS loader on a small file system, and the properties at concrete inputs.
use mathlib.Core.Path.{subst}
use nexide.Prelude.{
  ◌≡◌, refl, Bool, true, false, ◌||◌, ◌&&◌, [], ◌∷◌, none, some, if◌then◌else◌, arith,
}
use nexide.Prelude.Options.{if-eq-some, some-inj}
use nexide.Prelude.Results.{Result, ok, err}
use nexide.Prelude.Text.{Text, text_eq, starts_with}
use nexide.Ops.Request.{is_empty}
use nexide.Cjs.Paths.{is_absolute, slash}
use nexide.Cjs.Json.{string, object, Fields, field, no_fields}
use nexide.Cjs.Exports.{match_exports}
use nexide.Cjs.Exports.Targets.{IsTarget, match_exports-IsTarget}
use nexide.Cjs.Registry.{CjsError, access_denied}
use nexide.Cjs.Resolver.{FileSystem, Resolved, file, FsResolver, to_specifier, within_roots}
use nexide.Cjs.Resolver.Packages.{resolve, resolve_subpath_imports, is_dotted}
use nexide.Cjs.Resolver.Packages.Admission.{IsAdmitted, resolve-IsAdmitted}
use nexide.Cjs.Resolver.Packages.Refusal.{IsRefusal, resolve-IsRefusal}
use nexide.Cjs.Resolver.Packages.Returning.{
  found_import, ImportChain, target, resolve_subpath_imports_returns, resolve_subpath_imports_loops,
}
use nexide.Cjs.Loader.{op_cjs_resolve, op_cjs_read_source, bad}
use nexide.Cjs.Loader.Reading.{
  CanonicalPaths, IsReadable, op_cjs_resolve-IsDelivered, op_cjs_read_source-IsReadable,
  IsDelivered,
}

abbrev root : Text
root = b'/' ∷ b'r' ∷ []

abbrev a_js : Text
a_js = b'/' ∷ b'r' ∷ b'/' ∷ b'a' ∷ b'.' ∷ b'j' ∷ b's' ∷ []

-- A file outside the root.
abbrev b_js : Text
b_js = b'/' ∷ b'b' ∷ b'.' ∷ b'j' ∷ b's' ∷ []

abbrev package_path : Text
package_path =
    b'/' ∷ b'r' ∷ b'/' ∷ b'p' ∷ b'a' ∷ b'c' ∷ b'k' ∷ b'a' ∷ b'g' ∷ b'e' ∷ b'.' ∷ b'j' ∷ b's' ∷ b'o'
    ∷ b'n' ∷ []

abbrev loop_import : Text
loop_import = b'#' ∷ b'a' ∷ []

abbrev file_import : Text
file_import = b'#' ∷ b'b' ∷ []

abbrev one_file : Text → Bool
one_file path = text_eq path a_js || (text_eq path b_js || text_eq path package_path)

-- The package of the root imports `#a` as itself and `#b` as `a.js`.
abbrev small_fs : FileSystem
small_fs = record {
  is_file = λ path. is_absolute path && one_file path;
  is_dir = λ path. text_eq path root || text_eq path (slash ∷ []);
  canonicalize = λ path. if is_absolute path then some path else none;
  read_to_string = λ path. if one_file path then some (b'x' ∷ []) else none;
  to_string_lossy = λ path. path;
  from_str = λ text. some (
      object (
        field (b'i' ∷ b'm' ∷ b'p' ∷ b'o' ∷ b'r' ∷ b't' ∷ b's' ∷ [])
          (object (
            field loop_import (string loop_import)
              (field file_import (string (b'.' ∷ b'/' ∷ b'a' ∷ [])) no_fields)))
          no_fields));
}

abbrev cjs : FsResolver
cjs = record {
  project_root = root;
  more_roots = [];
  registry = (record { name = b'f' ∷ b's' ∷ []; source = b'y' ∷ [] }) ∷ [];
}

abbrev a_path : Text
a_path = b'/' ∷ b'r' ∷ b'/' ∷ b'a' ∷ []

absolute_a : resolve small_fs 0 cjs a_js a_path ≡ some (ok (file a_js))
unfolding resolve is_empty
absolute_a = refl

outside_b : resolve small_fs 0 cjs a_js b_js ≡ some (err (access_denied b_js))
unfolding resolve is_empty
outside_b = refl

imported : resolve small_fs 1 cjs a_js file_import ≡ some (ok (file a_js))
unfolding resolve is_empty
imported = refl

within_a : within_roots small_fs cjs a_js ≡ true
unfolding within_roots is_absolute is_empty
within_a = refl

resolve-IsAdmitted_example : IsAdmitted small_fs cjs (file a_js)
resolve-IsAdmitted_example = resolve-IsAdmitted small_fs cjs 1 a_js file_import (file a_js) imported

resolve-IsRefusal_example : IsRefusal small_fs cjs a_js b_js (access_denied b_js)
unfolding starts_with
resolve-IsRefusal_example =
    resolve-IsRefusal small_fs cjs 0 a_js b_js (access_denied b_js) refl outside_b

first_true : (a b : Bool) → (a && b) ≡ true → a ≡ true
first_true true b h = refl
first_true false b h = h

canonical_same : (p q : Text) → small_fs.canonicalize p ≡ some q → (is_absolute p ≡ true) × (p ≡ q)
canonical_same p q h =
    let (absolute, e) = if-eq-some (is_absolute p) (some p) h in (absolute, some-inj e)

small_fs-CanonicalPaths : CanonicalPaths small_fs
small_fs-CanonicalPaths = record {
  again = λ p q h. let (absolute, same) = canonical_same p q h in rw (← same, absolute) refl;
  absolute = λ p q h.
      let (absolute, same) = canonical_same p q h in
      subst (λ x. is_absolute x ≡ true) same absolute;
  utf8 = λ p q h. refl;
  files = λ p h. (p, rw (first_true (is_absolute p) (one_file p) h) refl);
}

specifier_a : op_cjs_resolve small_fs 1 (some cjs) a_js file_import ≡ some (ok a_js)
unfolding op_cjs_resolve is_empty
specifier_a = refl

good_a : bad a_js ≡ false
unfolding bad
good_a = refl

op_cjs_resolve-IsDelivered_example :
    (r : Resolved) × (resolve small_fs 1 cjs a_js file_import ≡ some (ok r))
    × (a_js ≡ to_specifier small_fs r)
    × IsDelivered small_fs cjs r (op_cjs_read_source small_fs (some cjs) a_js)
op_cjs_resolve-IsDelivered_example =
    op_cjs_resolve-IsDelivered small_fs cjs small_fs-CanonicalPaths 1 a_js file_import a_js
      specifier_a good_a

read_a : op_cjs_read_source small_fs (some cjs) a_js ≡ ok (0, b'x' ∷ [])
unfolding op_cjs_read_source is_empty
read_a = refl

op_cjs_read_source-IsReadable_example : IsReadable small_fs cjs a_js (0, b'x' ∷ [])
op_cjs_read_source-IsReadable_example =
    op_cjs_read_source-IsReadable small_fs cjs a_js 0 (b'x' ∷ []) read_a

found_b : found_import small_fs root file_import ≡ some (root, b'.' ∷ b'/' ∷ b'a' ∷ [])
unfolding found_import is_empty
found_b = refl

found_loop : found_import small_fs root loop_import ≡ some (root, loop_import)
unfolding found_import is_empty
found_loop = refl

file_import-ImportChain : ImportChain small_fs 0 root file_import
unfolding starts_with
file_import-ImportChain = target found_b refl

resolve_subpath_imports_loops_example :
    resolve_subpath_imports small_fs 5 cjs root loop_import ≡ none
unfolding starts_with is_dotted
resolve_subpath_imports_loops_example =
    resolve_subpath_imports_loops small_fs cjs 5 root loop_import found_loop refl refl

resolve_subpath_imports_returns_example :
    (result : Result CjsError Resolved) × (resolve_subpath_imports small_fs 1 cjs root file_import
      ≡ some result)
resolve_subpath_imports_returns_example =
    resolve_subpath_imports_returns small_fs cjs 0 1 root file_import file_import-ImportChain
      (omega arith)

abbrev pattern_fields : Fields
pattern_fields =
    field (b'.' ∷ b'/' ∷ b'*' ∷ b'.' ∷ b'j' ∷ b's' ∷ [])
      (string (b'.' ∷ b'/' ∷ b'l' ∷ b'i' ∷ b'b' ∷ b'/' ∷ b'*' ∷ b'.' ∷ b'j' ∷ b's' ∷ [])) no_fields

matched_pattern :
    match_exports (object pattern_fields) (b'.' ∷ b'/' ∷ b'x' ∷ b'.' ∷ b'j' ∷ b's' ∷ [])
    ≡ some (b'.' ∷ b'/' ∷ b'l' ∷ b'i' ∷ b'b' ∷ b'/' ∷ b'x' ∷ b'.' ∷ b'j' ∷ b's' ∷ [])
unfolding match_exports
matched_pattern = refl

match_exports-IsTarget_example :
    IsTarget pattern_fields
      (b'.' ∷ b'/' ∷ b'x' ∷ b'.' ∷ b'j' ∷ b's' ∷ [])
      (b'.' ∷ b'/' ∷ b'l' ∷ b'i' ∷ b'b' ∷ b'/' ∷ b'x' ∷ b'.' ∷ b'j' ∷ b's' ∷ [])
match_exports-IsTarget_example =
    match_exports-IsTarget pattern_fields (b'.' ∷ b'/' ∷ b'x' ∷ b'.' ∷ b'j' ∷ b's' ∷ [])
      (b'.' ∷ b'/' ∷ b'l' ∷ b'i' ∷ b'b' ∷ b'/' ∷ b'x' ∷ b'.' ∷ b'j' ∷ b's' ∷ []) matched_pattern

-- ===== src/Cjs/Resolver/Packages/Admission.antt =====
-- About `resolve` of Cjs/Resolver: what a request resolves to.
use mathlib.Core.Path.{subst}
use nexide.Prelude.{
  ℕ, zero, suc, ◌≡◌, refl, inl, inr, true, not, ◌&&◌, [], ◌∷◌, Option, none, some, if◌then◌else◌,
  if-elim, Option-cases, arith,
}
use nexide.Prelude.Options.{
  or_else, find_map, some-inj, if-eq-some, or_else-eq-some, find_map-eq-some,
}
use nexide.Prelude.Results.{Result, ok, err}
use nexide.Prelude.Text.{Text, strip_prefix, starts_with}
use nexide.Cjs.Paths.{is_absolute, join}
use nexide.Cjs.Exports.{split_package_name}
use nexide.Cjs.Registry.{CjsError, contains}
use nexide.Cjs.Resolver.{
  FileSystem, Resolved, builtin, FsResolver, node_prefix, parent_dir, within_roots, classify,
}
use nexide.Cjs.Resolver.Candidates.{
  if_file, try_extensions, try_directory, resolve_file_path, accept,
}
use nexide.Cjs.Resolver.Packages.Files.{if_file-is_file, path-is_file, resolve_in_package-is_file}
use nexide.Cjs.Resolver.Packages.{
  walk_up, is_relative, if_admitted, in_node_modules, found_or, resolve_node_modules, imports_of,
  resolve_imports_target, follow_import, is_dotted, resolve_subpath_imports, resolve_plain, resolve,
  trim_dot_slash,
}

-- A built-in module that is registered, or a file within the roots.
pub data IsAdmitted (fs : FileSystem) (cjs : FsResolver) : Resolved → Type 0 where
  is_builtin : {name : Text} → contains name cjs.registry ≡ true → IsAdmitted fs cjs (builtin name)
  is_within :
      {path : Text}
      → fs.is_file path ≡ true
      → within_roots fs cjs path ≡ true
      → IsAdmitted fs cjs (classify fs path)

module _ (fs : FileSystem) (cjs : FsResolver) where
  if_admitted-within :
      (o : Option Text) (q : Text)
      → if_admitted fs cjs o ≡ some q
      → (o ≡ some q) × (within_roots fs cjs q ≡ true)
  unfolding if_admitted
  if_admitted-within none q h = absurd (ground arith)
  if_admitted-within (some p) q h =
      let (t, e) = if-eq-some (within_roots fs cjs p) (some p) h in
      (e, subst (λ x. within_roots fs cjs x ≡ true) (some-inj e) t)

  -- A success that the request may have.
  unfoldable pub IsFair : Text → Result CjsError Resolved → Type 0
  IsFair request (ok r) = IsAdmitted fs cjs r
  IsFair request (err e) = Unit

  found_or-IsFair :
      (request again base : Text) (o : Option Text)
      → ((q : Text) → o ≡ some q → (fs.is_file q ≡ true) × (within_roots fs cjs q ≡ true))
      → IsFair request (found_or fs again base o)
  unfolding found_or IsFair
  found_or-IsFair request again base none good = tt
  found_or-IsFair request again base (some q) good =
      let (is, within) = good q refl in is_within is within

  in_node_modules-within :
      (name sub dir q : Text)
      → in_node_modules fs cjs name sub dir ≡ some q
      → (fs.is_file q ≡ true) × (within_roots fs cjs q ≡ true)
  unfolding in_node_modules
  in_node_modules-within name sub dir q h =
      let (d, h1) = if-eq-some (fs.is_dir _) _ h in
      let (e, within) = if_admitted-within _ q h1 in
      (resolve_in_package-is_file fs _ sub q e, within)

  resolve_node_modules-IsFair :
      (request base again : Text) → IsFair request (resolve_node_modules fs cjs base again)
  unfolding resolve_node_modules
  resolve_node_modules-IsFair request base again =
      let name = (split_package_name again).0 in
      let sub = (split_package_name again).1 in
      found_or-IsFair request again base _ (λ q e.
        let (dir, found) = find_map-eq-some (in_node_modules fs cjs name sub) (walk_up base) e in
        in_node_modules-within name sub dir q found)

  accept-IsFair :
      (request base : Text) (o : Option Text)
      → is_relative request ≡ true
      → ((q : Text) → o ≡ some q → fs.is_file q ≡ true)
      → IsFair request (accept fs cjs request base o)
  unfolding accept IsFair
  accept-IsFair request base none relative good = tt
  accept-IsFair request base (some q) relative good =
      if-elim (IsFair request) (within_roots fs cjs q) (λ t. is_within (good q refl) t) (λ f. tt)

  resolve_file_path-IsFair :
      (base request : Text)
      → is_relative request ≡ true
      → IsFair request (resolve_file_path fs cjs base request)
  unfolding resolve_file_path
  resolve_file_path-IsFair base request relative =
      accept-IsFair request base _ relative
        (path-is_file fs (if is_absolute request then request else join base request))

  -- The same of a call that may not return.
  unfoldable pub IsFairIfReturned : Text → Option (Result CjsError Resolved) → Type 0
  unfolding IsFair
  IsFairIfReturned request none = Unit
  IsFairIfReturned request (some result) = IsFair request result

  target-is_file :
      (candidate q : Text)
      → or_else
          (if_file fs candidate)
          (or_else (try_extensions fs candidate) (try_directory fs candidate))
        ≡ some q
      → fs.is_file q ≡ true
  target-is_file candidate q h = elim (or_else-eq-some (if_file fs candidate) _ h) [
    | inl e ↦ if_file-is_file fs candidate q e
    | inr e ↦ path-is_file fs candidate q e
  ]

  resolve_imports_target-IsFair :
      (first : Text) (again : Text → Text → Option (Result CjsError Resolved))
      (dir target request base : Text)
      → ((base request : Text) → IsFairIfReturned first (again base request))
      → IsFairIfReturned first (resolve_imports_target fs again cjs dir target request base)
  unfolding resolve_imports_target IsFairIfReturned
  resolve_imports_target-IsFair first again dir target request base below =
      let path = join dir (trim_dot_slash target) in
      let candidate =
        or_else (if_file fs path) (or_else (try_extensions fs path) (try_directory fs path)) in
      if-elim (IsFairIfReturned first) (is_dotted target)
        (λ t. found_or-IsFair first request base (if_admitted fs cjs candidate) (λ q e.
          let (found, within) = if_admitted-within candidate q e in
          (target-is_file path q found, within)))
        (λ f.
          if-elim (IsFairIfReturned first) (starts_with (b'#' ∷ []) target) (λ h. below dir target)
            (λ h. resolve_node_modules-IsFair first dir target))

  resolve_subpath_imports-IsFair :
      (first : Text) (fuel : ℕ) (base request : Text)
      → IsFairIfReturned first (resolve_subpath_imports fs fuel cjs base request)
  unfolding resolve_subpath_imports follow_import IsFairIfReturned
  resolve_subpath_imports-IsFair first zero base request = tt
  resolve_subpath_imports-IsFair first (suc fuel) base request =
      elim (find_map (imports_of fs request) (walk_up base))
        as (λ o.
          IsFairIfReturned first
            (follow_import fs (resolve_subpath_imports fs fuel cjs) cjs request base o)) [
              | none ↦ tt
              | some found ↦
                  resolve_imports_target-IsFair first (resolve_subpath_imports fs fuel cjs) found.0
                    found.1 request base (resolve_subpath_imports-IsFair first fuel)
            ]

  resolve_plain-IsFair :
      (fuel : ℕ) (parent request : Text)
      → IsFairIfReturned request (resolve_plain fs fuel cjs parent request)
  unfolding resolve_plain IsFairIfReturned IsFair
  resolve_plain-IsFair fuel parent request =
      let base = parent_dir fs cjs parent in
      if-elim (IsFairIfReturned request)
        (not (is_relative request) && contains request cjs.registry)
        (λ t. is_builtin (ground arith))
        (λ f.
          if-elim (IsFairIfReturned request) (starts_with (b'#' ∷ []) request)
            (λ h. resolve_subpath_imports-IsFair request fuel base request)
            (λ h.
              if-elim (IsFair request) (is_relative request) (resolve_file_path-IsFair base request)
                (λ r. resolve_node_modules-IsFair request base request)))

  resolve-IsFair :
      (fuel : ℕ) (parent request : Text)
      → IsFairIfReturned request (resolve fs fuel cjs parent request)
  unfolding resolve IsFairIfReturned IsFair
  resolve-IsFair fuel parent request = elim (Option-cases (strip_prefix node_prefix request)) [
    | inl e ↦ rw e (resolve_plain-IsFair fuel parent request)
    | inr (name, e) ↦
        rw e (if-elim (IsFair request) (contains name cjs.registry) (λ t. is_builtin t) (λ f. tt))
  ]

  -- Whatever `resolve` returns is a registered built-in module, or the class of an existing file
  -- within the roots.
  pub resolve-IsAdmitted :
      (fuel : ℕ) (parent request : Text) (r : Resolved)
      → resolve fs fuel cjs parent request ≡ some (ok r)
      → IsAdmitted fs cjs r
  unfolding IsFairIfReturned IsFair
  resolve-IsAdmitted fuel parent request r h =
      subst (IsFairIfReturned request) h (resolve-IsFair fuel parent request)

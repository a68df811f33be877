-- ===== src/Cjs/Resolver/Packages/Refusal.antt =====
-- About `resolve` of Cjs/Resolver: why it refuses a request that is no import of the package.
use mathlib.Core.Path.{subst}
use nexide.Prelude.{
  ℕ, suc, ◌≡◌, ◌⊎◌, refl, inl, inr, true, false, not, ◌&&◌, [], ◌∷◌, ◌++◌, Option, none, some,
  length, if◌then◌else◌, if-elim, Option-cases, arith,
}
use nexide.Prelude.Results.{Result, ok, err}
use nexide.Prelude.Text.{Text, strip_prefix, starts_with, strip_prefix-eq-some}
use nexide.Ops.Request.{is_empty}
use nexide.Cjs.Paths.{is_absolute, join}
use nexide.Cjs.Exports.{split_package_name}
use nexide.Cjs.Registry.{CjsError, not_found, access_denied, contains}
use nexide.Cjs.Resolver.{FileSystem, Resolved, FsResolver, node_prefix, parent_dir, within_roots}
use nexide.Cjs.Resolver.Candidates.{index, try_extensions, try_directory, resolve_file_path, accept}
use nexide.Cjs.Resolver.Packages.Files.{path-is_file, resolve_in_package-is_file}
use nexide.Cjs.Resolver.Packages.Naming.{
  IsOfPath, IsOfPackage, path-IsOfPath, resolve_in_package-IsOfPackage,
}
use nexide.Cjs.Resolver.Packages.{
  walk_up, is_relative, if_admitted, in_node_modules, found_or, resolve_node_modules,
  resolve_in_package, resolve_plain, resolve,
}
use nexide.Cjs.Resolver.Packages.Missing.{
  NoFile, IsAbove, or_else-eq-none, if-eq-none, above-none, try_extensions-NoFile,
  try_directory-NoFile, resolve_in_package-NoFile,
}

-- `node_modules`
abbrev pub node_modules : Text
node_modules =
    b'n' ∷ b'o' ∷ b'd' ∷ b'e' ∷ b'_' ∷ b'm' ∷ b'o' ∷ b'd' ∷ b'u' ∷ b'l' ∷ b'e' ∷ b's' ∷ []

-- What a package offers for a path within it: a file outside the roots that it stands for, or none
-- with the name of that path, or of the index for the package itself.
pub IsUnusable : FileSystem → FsResolver → Text → Text → Type 0
IsUnusable fs cjs pkg sub =
    ((q : Text) × IsOfPackage fs pkg sub q
      × (fs.is_file q ≡ true)
      × (within_roots fs cjs q ≡ false))
    ⊎ NoFile fs (join pkg (if is_empty sub then index else sub))

-- Where a relative request leads.
unfoldable pub target_path : Text → Text → Text
unfolding is_absolute join
target_path base request = if is_absolute request then request else join base request

-- The reasons for an error.
pub data IsRefusal (fs : FileSystem) (cjs : FsResolver) (parent request : Text)
    : CjsError → Type 0 where
  unregistered :
      {name : Text}
      → request ≡ node_prefix ++ name
      → contains name cjs.registry ≡ false
      → IsRefusal fs cjs parent request (not_found request parent)
  no_file :
      is_relative request ≡ true
      → NoFile fs (target_path (parent_dir fs cjs parent) request)
      → (fs.is_dir (target_path (parent_dir fs cjs parent) request) ≡ true
          → NoFile fs (join (target_path (parent_dir fs cjs parent) request) index))
      → IsRefusal fs cjs parent request
          (not_found request (fs.to_string_lossy (parent_dir fs cjs parent)))
  outside :
      {path : Text}
      → is_relative request ≡ true
      → IsOfPath fs (target_path (parent_dir fs cjs parent) request) path
      → fs.is_file path ≡ true
      → within_roots fs cjs path ≡ false
      → IsRefusal fs cjs parent request (access_denied path)
  no_package :
      is_relative request ≡ false
      → contains request cjs.registry ≡ false
      → ((dir : Text)
          → IsAbove (parent_dir fs cjs parent) dir
          → let pkg = join (join dir node_modules) (split_package_name request).0 in
            fs.is_dir pkg ≡ true → IsUnusable fs cjs pkg (split_package_name request).1)
      → IsRefusal fs cjs parent request
          (not_found request (fs.to_string_lossy (parent_dir fs cjs parent)))

module _ (fs : FileSystem) (cjs : FsResolver) where
  in_node_modules-IsUnusable :
      (name sub dir : Text)
      → in_node_modules fs cjs name sub dir ≡ none
      → fs.is_dir (join (join dir node_modules) name) ≡ true
      → IsUnusable fs cjs (join (join dir node_modules) name) sub
  unfolding in_node_modules if_admitted IsUnusable
  in_node_modules-IsUnusable name sub dir h is =
      let pkg = join (join dir node_modules) name in
      let h' = rw (in_node_modules, is) at h in
      elim (Option-cases (resolve_in_package fs pkg sub)) [
        | inl e ↦ inr (resolve_in_package-NoFile fs pkg sub e)
        | inr (q, e) ↦ inl (
          q,
          resolve_in_package-IsOfPackage fs pkg sub q e,
          resolve_in_package-is_file fs pkg sub q e,
          if-eq-none (within_roots fs cjs q) q (rw e at h'),
        )
      ]

  -- A result is fair if its error, if it has one, is a refusal.
  IsFair : Text → Text → Result CjsError Resolved → Type 0
  IsFair from request (ok r) = Unit
  IsFair from request (err e) = IsRefusal fs cjs from request e

  found_or-IsFair :
      (from request base : Text) (o : Option Text)
      → (o ≡ none → IsFair from request (err (not_found request (fs.to_string_lossy base))))
      → IsFair from request (found_or fs request base o)
  unfolding found_or IsFair
  found_or-IsFair from request base none refused = refused refl
  found_or-IsFair from request base (some q) refused = tt

  resolve_node_modules-IsFair :
      (from request : Text)
      → is_relative request ≡ false
      → contains request cjs.registry ≡ false
      → IsFair from request (resolve_node_modules fs cjs (parent_dir fs cjs from) request)
  unfolding resolve_node_modules walk_up IsFair
  resolve_node_modules-IsFair from request bare unknown =
      let base = parent_dir fs cjs from in
      let name = (split_package_name request).0 in
      let sub = (split_package_name request).1 in
      found_or-IsFair from request base _ (λ h. no_package bare unknown (λ dir above is.
        in_node_modules-IsUnusable name sub dir
          (above-none (in_node_modules fs cjs name sub) (suc (length base)) base dir (omega arith) h
            above)
          is))

  accept-IsFair :
      (from request : Text) (o : Option Text)
      → is_relative request ≡ true
      → ((q : Text)
          → o ≡ some q
          → IsOfPath fs (target_path (parent_dir fs cjs from) request) q × (fs.is_file q ≡ true))
      → (o ≡ none
          → IsFair from request
              (err (not_found request (fs.to_string_lossy (parent_dir fs cjs from)))))
      → IsFair from request (accept fs cjs request (parent_dir fs cjs from) o)
  unfolding accept IsFair
  accept-IsFair from request none relative good refused = refused refl
  accept-IsFair from request (some q) relative good refused =
      if-elim (IsFair from request) (within_roots fs cjs q) (λ t. tt)
        (λ f. outside relative (good q refl).0 (good q refl).1 f)

  resolve_file_path-IsFair :
      (from request : Text)
      → is_relative request ≡ true
      → IsFair from request (resolve_file_path fs cjs (parent_dir fs cjs from) request)
  unfolding resolve_file_path target_path IsFair
  resolve_file_path-IsFair from request relative =
      let path = target_path (parent_dir fs cjs from) request in
      accept-IsFair from request _ relative
        (λ q h. (path-IsOfPath fs path q h, path-is_file fs path q h))
        (λ h.
          let (no_ext, no_dir) =
            or_else-eq-none (try_extensions fs path) (try_directory fs path) h in
          no_file relative (try_extensions-NoFile fs path no_ext)
            (try_directory-NoFile fs path no_dir))

  IsFairIfReturned : Text → Text → Option (Result CjsError Resolved) → Type 0
  unfolding IsFair
  IsFairIfReturned from request none = Unit
  IsFairIfReturned from request (some result) = IsFair from request result

  resolve_plain-IsFair :
      (fuel : ℕ) (from request : Text)
      → starts_with (b'#' ∷ []) request ≡ false
      → IsFairIfReturned from request (resolve_plain fs fuel cjs from request)
  unfolding resolve_plain IsFairIfReturned IsFair
  resolve_plain-IsFair fuel from request plain =
      if-elim (IsFairIfReturned from request)
        (not (is_relative request) && contains request cjs.registry) (λ t. tt)
        (λ f.
          if-elim (IsFairIfReturned from request) (starts_with (b'#' ∷ []) request)
            (λ h. absurd (ground arith))
            (λ h.
              if-elim (IsFair from request) (is_relative request)
                (resolve_file_path-IsFair from request)
                (λ r. resolve_node_modules-IsFair from request r (ground arith))))

  resolve-IsFair :
      (fuel : ℕ) (from request : Text)
      → starts_with (b'#' ∷ []) request ≡ false
      → IsFairIfReturned from request (resolve fs fuel cjs from request)
  unfolding resolve IsFairIfReturned IsFair
  resolve-IsFair fuel from request plain = elim (Option-cases (strip_prefix node_prefix request)) [
    | inl e ↦ rw e (resolve_plain-IsFair fuel from request plain)
    | inr (name, e) ↦ rw e (
        if-elim (IsFair from request) (contains name cjs.registry) (λ t. tt)
          (λ f. unregistered (strip_prefix-eq-some node_prefix request e) f))
  ]

  -- When `resolve` fails on a request that is no import of the package, then it names a built-in module
  -- that is not registered; or the request is relative (or absolute), and leads to an existing file
  -- outside the roots, which the error names and which is that path, one with an extension of the list,
  -- or what the directory of that path names by `main` or has as index, or to no file, with none of the
  -- extensions and with no index as a directory; or the request is bare and unregistered, and each
  -- package of its name in a `node_modules` of the directory or above it has an existing file outside
  -- the roots for it, which its `exports`, its `main`, its index or the path within the package name, or
  -- has none with the name of the path within the package, or of the index, and any of the extensions.
  pub resolve-IsRefusal :
      (fuel : ℕ) (from request : Text) (e : CjsError)
      → starts_with (b'#' ∷ []) request ≡ false
      → resolve fs fuel cjs from request ≡ some (err e)
      → IsRefusal fs cjs from request e
  unfolding IsFairIfReturned IsFair
  resolve-IsRefusal fuel from request e plain h =
      subst (IsFairIfReturned from request) h (resolve-IsFair fuel from request plain)

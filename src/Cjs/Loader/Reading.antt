-- ===== src/Cjs/Loader/Reading.antt =====
-- About the ops of Cjs/Loader: what they give a script to read.
use mathlib.Core.Path.{subst}
use nexide.Prelude.{
  ℕ, ◌≡◌, inl, inr, refl, sym, ap, ◌∙◌, true, false, ◌||◌, ◌∷◌, ◌++◌, some, if◌then◌else◌, if-elim,
  Option-cases, arith,
}
use nexide.Prelude.Options.{map_some, map_some-eq-some}
use nexide.Prelude.Results.{
  Result, ok, err, >>=-eq-ok, ok-inj, map_err, if-err-eq-ok, if-ok-eq-ok, map_err-eq-ok,
}
use nexide.Prelude.Text.{Text, strip_prefix}
use nexide.Ops.Request.{is_empty}
use nexide.Cjs.Paths.{is_absolute}
use nexide.Cjs.Registry.{BuiltinModule, lookup}
use nexide.Cjs.Resolver.{
  FileSystem, Resolved, file, json, native, builtin, FsResolver, node_prefix, name_of, to_specifier,
  has_extension, by_extension, from_specifier, canonical, any_root, within_roots, classify,
}
use nexide.Cjs.Resolver.Packages.{resolve}
use nexide.Cjs.Resolver.Packages.Admission.{IsAdmitted, is_builtin, is_within, resolve-IsAdmitted}
use nexide.Cjs.Loader.{
  LoadError, invalid_specifier, unresolved, bad, specifier_of, builtin_source, configured,
  op_cjs_resolve, read_text, guarded, read_resolved, op_cjs_read_source,
}
use nexide.Cjs.Loader.Specifiers.{
  to_specifier-by_extension, contains-lookup, from_specifier-absolute, from_specifier-eq-ok,
  absolute-present, specifier_of-eq-ok,
}

-- What `canonicalize` does: a canonical path is its own, is absolute, and every file has one. The names
-- of the files are UTF-8, so that the lossy decoding keeps canonical paths.
pub record CanonicalPaths (fs : FileSystem) : Type 0 where
  pub again : (p q : Text) → fs.canonicalize p ≡ some q → fs.canonicalize q ≡ some q
  pub absolute : (p q : Text) → fs.canonicalize p ≡ some q → is_absolute q ≡ true
  pub files : (p : Text) → fs.is_file p ≡ true → (q : Text) × (fs.canonicalize p ≡ some q)
  pub utf8 : (p q : Text) → fs.canonicalize p ≡ some q → fs.to_string_lossy q ≡ q

abbrev pub Delivery : Type 0
Delivery = Result LoadError (ℕ × Text)

-- What a script gets for a module: the source of a built-in one, the text of a file with the kind
-- of the file, or the path of a native one.
pub data IsDelivered (fs : FileSystem) (cjs : FsResolver) : Resolved → Delivery → Type 0 where
  source :
      {name : Text} {m : BuiltinModule}
      → lookup name cjs.registry ≡ some m
      → IsDelivered fs cjs (builtin name) (ok (2, m.source))
  script : {path : Text} → IsDelivered fs cjs (file path) (read_text fs 0 path)
  data_file : {path : Text} → IsDelivered fs cjs (json path) (read_text fs 1 path)
  addon : {path : Text} → IsDelivered fs cjs (native path) (ok (3, path))

-- What a specifier lets a script read.
pub data IsReadable (fs : FileSystem) (cjs : FsResolver) : Text → ℕ × Text → Type 0 where
  module_source :
      {name : Text} {m : BuiltinModule}
      → lookup name cjs.registry ≡ some m
      → IsReadable fs cjs (node_prefix ++ name) (2, m.source)
  file_text :
      {path text : Text} {kind : ℕ}
      → within_roots fs cjs path ≡ true
      → fs.read_to_string path ≡ some text
      → IsReadable fs cjs path (kind, text)
  addon_path : {path : Text} → within_roots fs cjs path ≡ true → IsReadable fs cjs path (3, path)

module _ (fs : FileSystem) (cjs : FsResolver) where
  guarded_within :
      (e : LoadError) (path : Text) (d : Delivery)
      → within_roots fs cjs path ≡ true
      → guarded fs e cjs path d ≡ d
  unfolding guarded
  guarded_within e path d t = ap (λ b. if b then d else err e) t

  read_resolved-by_extension :
      (path : Text)
      → within_roots fs cjs path ≡ true
      → IsDelivered fs cjs (by_extension path) (read_resolved fs cjs (by_extension path))
  unfolding by_extension read_resolved
  read_resolved-by_extension path t =
      if-elim (λ r. IsDelivered fs cjs r (read_resolved fs cjs r)) (has_extension _ path)
        (λ h. rw (guarded_within _ path (read_text fs 1 path) t) data_file)
        (λ h.
          if-elim (λ r. IsDelivered fs cjs r (read_resolved fs cjs r)) (has_extension _ path)
            (λ h'. rw (guarded_within _ path (ok (3, path)) t) addon)
            (λ h'. rw (guarded_within _ path (read_text fs 0 path) t) script))

  canonical-some : (p q : Text) → fs.canonicalize p ≡ some q → canonical fs p ≡ q
  unfolding canonical
  canonical-some p q e = rw (canonical, e) refl

  within_roots-canonical :
      (p q : Text)
      → fs.canonicalize p ≡ some q
      → fs.canonicalize q ≡ some q
      → within_roots fs cjs q ≡ within_roots fs cjs p
  unfolding within_roots
  within_roots-canonical p q e e' =
      ap (λ x. any_root fs x (cjs.project_root ∷ cjs.more_roots))
        (canonical-some q q e' ∙ sym (canonical-some p q e))

  classify-canonical : (p q : Text) → fs.canonicalize p ≡ some q → classify fs p ≡ by_extension q
  unfolding classify
  classify-canonical p q e = ap by_extension (canonical-some p q e)

  -- The specifier of an admitted module names it, and reading it is not refused.
  IsAdmitted-IsDelivered :
      (r : Resolved)
      → CanonicalPaths fs
      → IsAdmitted fs cjs r
      → (is_empty (to_specifier fs r) ≡ false)
        × (from_specifier (to_specifier fs r) ≡ ok r)
        × IsDelivered fs cjs r (read_resolved fs cjs r)
  unfolding to_specifier from_specifier strip_prefix is_empty read_resolved builtin_source
  IsAdmitted-IsDelivered _ laws (is_builtin {name = name} h) =
      let (m, e) = contains-lookup name cjs.registry h in
      (refl, refl, rw (read_resolved, builtin_source, e) (source e))
  IsAdmitted-IsDelivered _ laws (is_within {path = p} is within) =
      let (q, e) = laws.files p is in
      let same = within_roots-canonical p q e (laws.again p q e) in
      let absolute = laws.absolute p q e in
      let spec = to_specifier-by_extension fs q (laws.utf8 p q e) in
      rw (classify-canonical p q e) (
        (rw spec (absolute-present q absolute)),
        (rw spec (from_specifier-absolute q absolute)),
        read_resolved-by_extension q (same ∙ within),
      )

  op_cjs_resolve_good :
      (fuel : ℕ) (parent request spec : Text)
      → op_cjs_resolve fs fuel (some cjs) parent request ≡ some (ok spec)
      → map_some (specifier_of fs) (resolve fs fuel cjs parent request) ≡ some (ok spec)
  unfolding op_cjs_resolve
  op_cjs_resolve_good fuel parent request spec h =
      let outcome = map_some (specifier_of fs) (resolve fs fuel cjs parent request) in
      if-elim (λ o. o ≡ some (ok spec) → outcome ≡ some (ok spec)) (bad parent || bad request)
        (λ t e. absurd (ground arith)) (λ f e. e) h

  op_cjs_read_source_good :
      (spec : Text) (r : Resolved)
      → is_empty spec ≡ false
      → bad spec ≡ false
      → from_specifier spec ≡ ok r
      → op_cjs_read_source fs (some cjs) spec ≡ read_resolved fs cjs r
  unfolding op_cjs_read_source
  op_cjs_read_source_good spec r present good names =
      rw (op_cjs_read_source, present, good, names) refl

  -- On a file system whose canonical paths are absolute, UTF-8 and their own, and exist for every file:
  -- when `op_cjs_resolve` answers a specifier without line breaks or NULs, this specifier names
  -- what the resolver found, and `op_cjs_read_source` is not refused on it: it gives the source of
  -- the built-in module, the text of the file as read, or the path of the native module.
  pub op_cjs_resolve-IsDelivered :
      CanonicalPaths fs
      → (fuel : ℕ) (parent request spec : Text)
      → op_cjs_resolve fs fuel (some cjs) parent request ≡ some (ok spec)
      → bad spec ≡ false
      → (r : Resolved) × (resolve fs fuel cjs parent request ≡ some (ok r))
        × (spec ≡ to_specifier fs r)
        × IsDelivered fs cjs r (op_cjs_read_source fs (some cjs) spec)
  op_cjs_resolve-IsDelivered laws fuel parent request spec h good =
      let (result, e, h1) =
        map_some-eq-some (specifier_of fs) (resolve fs fuel cjs parent request)
          (op_cjs_resolve_good fuel parent request spec h) in
      let (r, is, same) = specifier_of-eq-ok fs result h1 in
      let found = e ∙ ap some is in
      let (present, names, delivered) =
        IsAdmitted-IsDelivered r laws (resolve-IsAdmitted fs cjs fuel parent request r found) in
      (
        r,
        found,
        same,
        subst (IsDelivered fs cjs r)
            (sym (op_cjs_read_source_good spec r (rw same present) good (rw same names))) delivered,
      )

  read_text-eq-ok :
      (n : ℕ) (path : Text) (kind : ℕ) (text : Text)
      → read_text fs n path ≡ ok (kind, text)
      → fs.read_to_string path ≡ some text
  unfolding read_text
  read_text-eq-ok n path kind text h = elim (Option-cases (fs.read_to_string path)) [
    | inl e ↦ absurd (let bad = rw (read_text, e) at h in ground arith)
    | inr (t, e) ↦ let same = ok-inj (rw (read_text, e) at h) in cc
  ]

  read_resolved-IsReadable :
      (r : Resolved) (kind : ℕ) (text : Text)
      → read_resolved fs cjs r ≡ ok (kind, text)
      → IsReadable fs cjs (name_of r) (kind, text)
  unfolding read_resolved guarded name_of builtin_source
  read_resolved-IsReadable (builtin name) kind text h =
      elim (Option-cases (lookup name cjs.registry)) [
        | inl e ↦ absurd (let bad = rw (read_resolved, builtin_source, e) at h in ground arith)
        | inr (m, e) ↦
            subst (IsReadable fs cjs (node_prefix ++ name))
              (ok-inj (rw (read_resolved, builtin_source, e) at h)) (module_source e)
      ]
  read_resolved-IsReadable (file path) kind text h =
      let (t, e) = if-ok-eq-ok (within_roots fs cjs path) _ _ h in
      file_text t (read_text-eq-ok 0 path kind text e)
  read_resolved-IsReadable (json path) kind text h =
      let (t, e) = if-ok-eq-ok (within_roots fs cjs path) _ _ h in
      file_text t (read_text-eq-ok 1 path kind text e)
  read_resolved-IsReadable (native path) kind text h =
      let (t, e) = if-ok-eq-ok (within_roots fs cjs path) _ _ h in
      subst (IsReadable fs cjs path) (ok-inj e) (addon_path t)

  -- Whatever specifier a script passes, `op_cjs_read_source` succeeds only for a registered built-in
  -- module, whose source it gives, or for a specifier that is itself a path within the roots, with
  -- its text or, for a native module, itself.
  pub op_cjs_read_source-IsReadable :
      (spec : Text) (kind : ℕ) (text : Text)
      → op_cjs_read_source fs (some cjs) spec ≡ ok (kind, text)
      → IsReadable fs cjs spec (kind, text)
  unfolding op_cjs_read_source configured
  op_cjs_read_source-IsReadable spec kind text h =
      let (good, h1) = if-err-eq-ok (is_empty spec || bad spec) invalid_specifier _ h in
      let (r, e, h2) = >>=-eq-ok (map_err unresolved (from_specifier spec)) _ h1 in
      let same = from_specifier-eq-ok spec r (map_err-eq-ok unresolved (from_specifier spec) e) in
      rw same (read_resolved-IsReadable r kind text h2)

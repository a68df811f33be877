-- ===== src/Cjs/Resolver/Packages/Returning.antt =====
-- About the recursion of `resolve_subpath_imports` of Cjs/Resolver: when it ends.
use nexide.Prelude.{
  ℕ, zero, suc, ◌≤◌, ◌≡◌, refl, ◌∙◌, true, false, [], ◌∷◌, Option, none, some, if-elim, arith,
}
use nexide.Prelude.Options.{find_map}
use nexide.Prelude.Results.{Result}
use nexide.Prelude.Text.{Text, starts_with}
use nexide.Cjs.Registry.{CjsError}
use nexide.Cjs.Resolver.{FileSystem, Resolved, FsResolver}
use nexide.Cjs.Resolver.Packages.{
  walk_up, is_dotted, imports_of, resolve_imports_target, follow_import, resolve_subpath_imports,
}

abbrev pub hash : Text
hash = b'#' ∷ []

-- The directory and the target that the walk up from `base` finds for an import.
unfoldable pub found_import : FileSystem → Text → Text → Option (Text × Text)
unfolding imports_of walk_up
found_import fs base request = find_map (imports_of fs request) (walk_up base)

-- The number of imports that lead from one to the next, until one is missing or has a target that
-- is no import.
pub data ImportChain (fs : FileSystem) : ℕ → Text → Text → Type 0 where
  missing :
      {base request : Text} → found_import fs base request ≡ none → ImportChain fs 0 base request
  target :
      {base request dir rel : Text}
      → found_import fs base request ≡ some (dir, rel)
      → starts_with hash rel ≡ false
      → ImportChain fs 0 base request
  link :
      {n : ℕ} {base request dir rel : Text}
      → found_import fs base request ≡ some (dir, rel)
      → starts_with hash rel ≡ true
      → ImportChain fs n dir rel
      → ImportChain fs (suc n) base request

module _ (fs : FileSystem) (cjs : FsResolver) where
  abbrev Again : Type 0
  Again = Text → Text → Option (Result CjsError Resolved)

  abbrev Returns : Option (Result CjsError Resolved) → Type 0
  Returns o = (result : Result CjsError Resolved) × (o ≡ some result)

  target-Returns :
      (again : Again) (dir rel request base : Text)
      → (starts_with hash rel ≡ true → Returns (again dir rel))
      → Returns (resolve_imports_target fs again cjs dir rel request base)
  unfolding resolve_imports_target
  target-Returns again dir rel request base below =
      if-elim Returns (is_dotted rel) (λ t. (_, refl))
        (λ f. if-elim Returns (starts_with hash rel) below (λ h. (_, refl)))

  follow_some :
      (again : Again) (request base dir rel : Text)
      → found_import fs base request ≡ some (dir, rel)
      → follow_import fs again cjs request base (found_import fs base request)
        ≡ resolve_imports_target fs again cjs dir rel request base
  unfolding follow_import
  follow_some again request base dir rel e = rw e refl

  level :
      (fuel : ℕ) (base request : Text)
      → resolve_subpath_imports fs (suc fuel) cjs base request
        ≡ follow_import fs
            (resolve_subpath_imports fs fuel cjs)
            cjs
            request
            base
            (found_import fs base request)
  unfolding resolve_subpath_imports found_import
  level fuel base request = refl

  -- `resolve_subpath_imports` returns a result, whatever it is, with more levels of recursion than
  -- there are imports in a row that lead from one to the next.
  pub resolve_subpath_imports_returns :
      (n fuel : ℕ) (base request : Text)
      → ImportChain fs n base request
      → suc n ≤ fuel
      → (result : Result CjsError Resolved) × (resolve_subpath_imports fs fuel cjs base request
          ≡ some result)
  unfolding follow_import
  resolve_subpath_imports_returns n zero base request chain h = absurd (omega arith)
  resolve_subpath_imports_returns zero (suc fuel) base request (missing e) h =
      rw (level fuel base request, e) (_, refl)
  resolve_subpath_imports_returns zero (suc fuel) base request
        (target {dir = dir} {rel = rel} e plain) h =
      rw
        (
          level fuel base request,
          follow_some (resolve_subpath_imports fs fuel cjs) request base dir rel e,
        )
        (target-Returns (resolve_subpath_imports fs fuel cjs) dir rel request base
          (λ t. absurd (ground arith)))
  resolve_subpath_imports_returns (suc n) (suc fuel) base request
        (link {dir = dir} {rel = rel} e t chain) h =
      rw
        (
          level fuel base request,
          follow_some (resolve_subpath_imports fs fuel cjs) request base dir rel e,
        )
        (target-Returns (resolve_subpath_imports fs fuel cjs) dir rel request base
          (λ t. resolve_subpath_imports_returns n fuel dir rel chain (omega arith)))

  -- If the walk up from a directory finds an import whose target is again that import, in that
  -- directory, `resolve_subpath_imports` recurses forever: no depth of recursion is enough.
  pub resolve_subpath_imports_loops :
      (fuel : ℕ) (base request : Text)
      → found_import fs base request ≡ some (base, request)
      → is_dotted request ≡ false
      → starts_with hash request ≡ true
      → resolve_subpath_imports fs fuel cjs base request ≡ none
  unfolding resolve_subpath_imports
  resolve_subpath_imports_loops zero base request e plain t = refl
  resolve_subpath_imports_loops (suc fuel) base request e plain t =
      level fuel base request
      ∙ (follow_some (resolve_subpath_imports fs fuel cjs) request base base request e
          ∙ rw (resolve_imports_target, plain, t)
              (resolve_subpath_imports_loops fuel base request e plain t))

-- ===== src/Ops/Sandbox/Inside.antt =====
-- What the sandbox of Ops/Sandbox hands to the file system.
use nexide.Prelude.{
  ◌≡◌, refl, sym, ap, ◌∙◌, true, false, List, [], ◌∷◌, ◌++◌, Option, none, some, if-elim, ◌||◌,
  Bool-cases, Option-cases, inl, inr, arith,
}
use nexide.Prelude.Options.{◌>>=◌, >>=-eq-some, some-inj, if-eq-some, if-none-eq-some}
use nexide.Prelude.Results.{ok, ok-inj}
use nexide.Prelude.Text.{Text, text_eq}
use nexide.Cjs.Paths.{
  dot, dot_dot, slash, init, join, parent, file_name, last, components, path_starts_with,
}
use nexide.Ops.Sandbox.{
  FsError, PathSandbox, popped, normalise_step, normalise_from, path_of, lexical_normalise,
  within_any, canonical_target, probe, canonical_within, escape_error, ok_or, admit,
}

-- No component goes up.
pub data AllPlain : List Text → Type 0 where
  nothing : AllPlain []
  next : {c : Text} {cs : List Text} → text_eq c dot_dot ≡ false → AllPlain cs → AllPlain (c ∷ cs)

-- The path starts with a root, by components.
pub data IsUnder (p : Text) : List Text → Type 0 where
  here :
      {root : Text} {roots : List Text} → path_starts_with p root ≡ true → IsUnder p (root ∷ roots)
  later : {root : Text} {roots : List Text} → IsUnder p roots → IsUnder p (root ∷ roots)

-- What a path may stand for: its canonical form if it exists, a name in the canonical form of its
-- directory if only that exists, and otherwise a path without components that go up; each below a
-- root.
pub data IsInside (canonicalize : Text → Option Text) (roots : List Text) (path p : Text)
    : Type 0 where
  existing : canonicalize path ≡ some p → IsUnder p roots → IsInside canonicalize roots path p
  fresh :
      {up dir file : Text}
      → canonicalize path ≡ none
      → parent path ≡ some up
      → canonicalize up ≡ some dir
      → file_name path ≡ some file
      → text_eq file dot_dot ≡ false
      → p ≡ join dir file
      → IsUnder p roots
      → IsInside canonicalize roots path p
  missing :
      {names : List Text}
      → canonicalize path ≡ none
      → ((up dir : Text)
          → parent path ≡ some up
          → canonicalize up ≡ some dir
          → file_name path ≡ none)
      → p ≡ path_of [] names
      → AllPlain names
      → IsUnder p roots
      → IsInside canonicalize roots path p

init-AllPlain : (cs : List Text) → AllPlain cs → AllPlain (init cs)
unfolding init
init-AllPlain [] h = h
init-AllPlain (c ∷ []) h = nothing
init-AllPlain (c ∷ d ∷ cs) (next plain h) = next plain (init-AllPlain (d ∷ cs) h)

popped-AllPlain : (cs : List Text) → AllPlain cs → AllPlain (popped cs)
unfolding popped
popped-AllPlain [] h = h
popped-AllPlain (c ∷ []) h = if-elim AllPlain (text_eq c (slash ∷ [])) (λ t. h) (λ f. nothing)
popped-AllPlain (c ∷ d ∷ cs) h = init-AllPlain (c ∷ d ∷ cs) h

pushed-AllPlain :
    (cs : List Text) (c : Text) → text_eq c dot_dot ≡ false → AllPlain cs → AllPlain (cs ++ c ∷ [])
pushed-AllPlain [] c plain h = next plain nothing
pushed-AllPlain (d ∷ cs) c plain (next plain' h) = next plain' (pushed-AllPlain cs c plain h)

normalise_from-AllPlain : (out cs : List Text) → AllPlain out → AllPlain (normalise_from out cs)
unfolding normalise_from normalise_step
normalise_from-AllPlain out [] h = h
normalise_from-AllPlain out (c ∷ cs) h = normalise_from-AllPlain (normalise_step out c) cs (
    if-elim AllPlain (text_eq c dot_dot) (λ t. popped-AllPlain out h)
      (λ f. if-elim AllPlain (text_eq c dot) (λ t. h) (λ f'. pushed-AllPlain out c f h)))

within_any-IsUnder : (roots : List Text) (p : Text) → within_any roots p ≡ true → IsUnder p roots
unfolding within_any
within_any-IsUnder [] p h = absurd (ground arith)
within_any-IsUnder (root ∷ roots) p h = elim (Bool-cases (path_starts_with p root)) [
  | inl t ↦ here t
  | inr f ↦ later (within_any-IsUnder roots p (rw (within_any, f) at h))
]

-- A file name does not go up.
file_name-plain : (path file : Text) → file_name path ≡ some file → text_eq file dot_dot ≡ false
unfolding file_name
file_name-plain path file h = elim (Option-cases (last (components path))) [
  | inl e ↦ absurd (let bad = rw (file_name, e) at h in ground arith)
  | inr (p, e) ↦
      let (special, same) =
        if-none-eq-some (text_eq p (slash ∷ []) || text_eq p dot || text_eq p dot_dot) (some p)
          (rw (file_name, e) at h) in
      ap (λ x. text_eq x dot_dot) (sym (some-inj same)) ∙ ground (arith, special)
]

module _ (canonicalize : Text → Option Text) (roots : List Text) (path : Text) where
  -- The directory and the name of a new file.
  target_of : Option Text
  target_of = do
    up ← parent path
    dir ← canonicalize up
    file ← file_name path
    some (join dir file)

  probed_missing :
      canonicalize path ≡ none
      → canonical_target canonicalize path ≡ none
      → IsUnder (lexical_normalise path) roots
      → IsInside canonicalize roots path (lexical_normalise path)
  unfolding canonical_target lexical_normalise
  probed_missing absent no_target under =
      missing absent
        (λ up dir e e'. elim (Option-cases (file_name path)) [
          | inl n ↦ n
          | inr (file, e'') ↦
              absurd
                (let bad = rw (canonical_target, absent, e, e', e'') at no_target in ground arith)
        ])
        refl (normalise_from-AllPlain [] (components path) nothing) under

  probed_fresh :
      (p : Text)
      → canonicalize path ≡ none
      → canonical_target canonicalize path ≡ some p
      → IsUnder p roots
      → IsInside canonicalize roots path p
  unfolding canonical_target
  probed_fresh p absent h under =
      let (up, e1, h1) = >>=-eq-some (parent path) _ (rw (canonical_target, absent) at h) in
      let (dir, e2, h2) = >>=-eq-some (canonicalize up) _ h1 in
      let (file, e3, h3) = >>=-eq-some (file_name path) _ h2 in
      fresh absent e1 e2 e3 (file_name-plain path file e3) (sym (some-inj h3)) under

  probed_existing :
      (p q : Text)
      → canonicalize path ≡ some q
      → canonical_target canonicalize path ≡ some p
      → IsUnder p roots
      → IsInside canonicalize roots path p
  unfolding canonical_target
  probed_existing p q found h under = existing (found ∙ (rw (canonical_target, found) at h)) under

  probe-IsInside :
      IsUnder (probe canonicalize path) roots
      → IsInside canonicalize roots path (probe canonicalize path)
  unfolding probe
  probe-IsInside under = elim (Option-cases (canonical_target canonicalize path)) [
    | inr (p, e) ↦
        let same : probe canonicalize path ≡ p = rw (probe, e) refl in
        let under' = rw same at under in
        rw same (elim (Option-cases (canonicalize path)) [
          | inl absent ↦ probed_fresh p absent e under'
          | inr (q, found) ↦ probed_existing p q found e under'
        ])
    | inl e ↦
        let same : probe canonicalize path ≡ lexical_normalise path = rw (probe, e) refl in
        let under' = rw same at under in
        rw same (elim (Option-cases (canonicalize path)) [
          | inl absent ↦ probed_missing absent e under'
          | inr (q, found) ↦ absurd (let bad = rw (canonical_target, found) at e in ground arith)
        ])
  ]

ok_or-eq-ok : (e : FsError) (o : Option Text) {p : Text} → ok_or e o ≡ ok p → o ≡ some p
unfolding ok_or
ok_or-eq-ok e none h = absurd (cc)
ok_or-eq-ok e (some q) h = ap some (ok-inj h)

-- Whatever path the sandbox admits, it hands on one that is inside.
pub admit-IsInside :
    (canonicalize : Text → Option Text) (sandbox : PathSandbox) (path p : Text)
    → admit canonicalize sandbox path ≡ ok p
    → IsInside canonicalize sandbox.roots path p
unfolding canonical_within admit
admit-IsInside canonicalize sandbox path p h =
    let found =
      ok_or-eq-ok (escape_error canonicalize path) (canonical_within canonicalize sandbox path) h in
    let (inside, same) =
      if-eq-some (within_any sandbox.roots (probe canonicalize path))
        (some (probe canonicalize path)) found in
    rw (sym (some-inj same)) (
      probe-IsInside canonicalize sandbox.roots path
        (within_any-IsUnder sandbox.roots (probe canonicalize path) inside))

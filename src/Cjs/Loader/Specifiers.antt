-- ===== src/Cjs/Loader/Specifiers.antt =====
-- About the specifiers of modules, in which scripts name them to the ops of Cjs/Loader.
use nexide.Prelude.{
  ◌≡◌, inl, inr, refl, sym, ap, ◌∙◌, true, false, [], ◌∷◌, some, Bool-cases, Option-cases, arith,
  ==_iff, if-elim,
}
use nexide.Prelude.Results.{Result, ok, err, ok-inj, if-ok-eq-ok}
use nexide.Prelude.Text.{Text, text_eq, strip_prefix, strip_prefix-eq-some}
use nexide.Ops.Request.{is_empty}
use nexide.Cjs.Paths.{slash, is_absolute}
use nexide.Cjs.Registry.{CjsError, BuiltinRegistry, BuiltinModule, lookup, contains}
use nexide.Cjs.Resolver.{
  FileSystem, Resolved, node_prefix, name_of, to_specifier, by_extension, from_specifier,
  has_extension,
}
use nexide.Cjs.Loader.{specifier_of}

pub name_of-by_extension : (path : Text) → name_of (by_extension path) ≡ path
unfolding by_extension name_of
name_of-by_extension path = ground arith

-- The specifier of a file whose path is UTF-8 is that path.
pub to_specifier-by_extension :
    (fs : FileSystem) (path : Text)
    → fs.to_string_lossy path ≡ path
    → to_specifier fs (by_extension path) ≡ path
unfolding by_extension to_specifier
to_specifier-by_extension fs path utf8 =
    if-elim (λ r. to_specifier fs r ≡ path) (has_extension _ path) (λ t. utf8)
      (λ f. if-elim (λ r. to_specifier fs r ≡ path) (has_extension _ path) (λ t. utf8) (λ f'. utf8))

pub contains-lookup :
    (name : Text) (ms : BuiltinRegistry)
    → contains name ms ≡ true
    → (m : BuiltinModule) × (lookup name ms ≡ some m)
unfolding contains lookup
contains-lookup name [] h = absurd (ground arith)
contains-lookup name (m ∷ ms) h = elim (Bool-cases (text_eq m.name name)) [
  | inl t ↦ (m, rw t refl)
  | inr f ↦ let (n, e) = contains-lookup name ms (ground arith) in (n, rw f e)
]

pub from_specifier-absolute :
    (path : Text) → is_absolute path ≡ true → from_specifier path ≡ ok (by_extension path)
unfolding from_specifier is_absolute strip_prefix
from_specifier-absolute [] h = absurd (ground arith)
from_specifier-absolute (c ∷ s) h = rw ((==_iff c slash).0 h) refl

pub from_specifier-eq-ok :
    (spec : Text) (r : Resolved) → from_specifier spec ≡ ok r → spec ≡ name_of r
unfolding from_specifier name_of
from_specifier-eq-ok spec r h = elim (Option-cases (strip_prefix node_prefix spec)) [
  | inl e ↦
      let (absolute, e1) = if-ok-eq-ok (is_absolute spec) _ _ (rw (from_specifier, e) at h) in
      sym (name_of-by_extension spec) ∙ ap name_of (ok-inj e1)
  | inr (name, e) ↦
      strip_prefix-eq-some node_prefix spec e ∙ ap name_of (ok-inj (rw (from_specifier, e) at h))
]

pub absolute-present : (path : Text) → is_absolute path ≡ true → is_empty path ≡ false
unfolding is_absolute is_empty
absolute-present [] h = absurd (ground arith)
absolute-present (c ∷ s) h = refl

pub specifier_of-eq-ok :
    (fs : FileSystem) (result : Result CjsError Resolved) {spec : Text}
    → specifier_of fs result ≡ ok spec
    → (r : Resolved) × (result ≡ ok r) × (spec ≡ to_specifier fs r)
unfolding specifier_of
specifier_of-eq-ok fs (ok r) h = (r, refl, sym (ok-inj h))
specifier_of-eq-ok fs (err e) h = absurd (ground arith)

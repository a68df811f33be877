-- ===== src/Cjs/Exports/Targets.antt =====
-- About `match_exports` of Cjs/Exports: the targets it gives.
use mathlib.Core.Path.{subst}
use nexide.Prelude.{◌≡◌, inl, inr, ap, ◌∙◌, [], ◌∷◌, ◌++◌, some, ◌==◌, ==_iff, Bool-cases, arith}
use nexide.Prelude.Options.{>>=-eq-some, map_some-eq-some, or_else-eq-some, some-inj}
use nexide.Prelude.Text.{Text}
use nexide.Cjs.Json.{Value, object, Fields, no_fields, field, get_field}
use nexide.Cjs.Exports.{
  pick_condition, split_star, middle, replace_star, match_pattern, match_patterns, direct_target,
  match_exports,
}
use nexide.Cjs.Exports.Patterns.{middle-eq-some}

-- A field of an object.
pub data HasField (pat : Text) (val : Value) : Fields → Type 0 where
  here : {fs : Fields} → HasField pat val (field pat val fs)
  there :
      {k : Text} {v : Value} {fs : Fields} → HasField pat val fs → HasField pat val (field k v fs)

-- The key's own target, or that of a pattern `prefix*suffix` whose star stands for `m` in the key.
pub data IsTarget (fs : Fields) (key : Text) : Text → Type 0 where
  own :
      {v : Value} {target : Text}
      → get_field key fs ≡ some v
      → pick_condition v ≡ some target
      → IsTarget fs key target
  by_pattern :
      {val : Value} (prefix suffix m template : Text)
      → HasField (prefix ++ b'*' ∷ suffix) val fs
      → key ≡ prefix ++ (m ++ suffix)
      → pick_condition val ≡ some template
      → IsTarget fs key (replace_star template m)

split_star-append :
    (pat : Text) {prefix suffix : Text}
    → split_star pat ≡ some (prefix, suffix)
    → pat ≡ prefix ++ b'*' ∷ suffix
unfolding split_star
split_star-append [] h = absurd (ground arith)
split_star-append (c ∷ s) {prefix} {suffix} h = elim (Bool-cases (c == b'*')) [
  | inl t ↦
      let star = (==_iff c b'*').0 t in let e = some-inj (rw t at h) in ground (arith, star, e)
  | inr f ↦
      let (split, e, same) =
        map_some-eq-some (λ split. (c ∷ split.0, split.1)) (split_star s) (rw f at h) in
      ap (◌∷◌ c) (split_star-append s e) ∙ ap (λ (sp : Text × Text). sp.0 ++ b'*' ∷ sp.1) same
]

match_pattern-IsTarget :
    (fs : Fields) (pat : Text) (val : Value) (key target : Text)
    → HasField pat val fs
    → match_pattern pat val key ≡ some target
    → IsTarget fs key target
unfolding match_pattern
match_pattern-IsTarget fs pat val key target has h =
    let (split, e, h1) = >>=-eq-some (split_star pat) _ h in
    let (m, e1, h2) = >>=-eq-some (middle split.0 split.1 key) _ h1 in
    let (template, e2, same) = map_some-eq-some (λ t. replace_star t m) (pick_condition val) h2 in
    subst (IsTarget fs key) same (
      by_pattern split.0 split.1 m template
        (subst (λ p. HasField p val fs) (split_star-append pat e) has)
        (middle-eq-some split.0 split.1 key m e1) e2)

match_patterns-IsTarget :
    (all fs : Fields) (key target : Text)
    → ((pat : Text) (val : Value) → HasField pat val fs → HasField pat val all)
    → match_patterns fs key ≡ some target
    → IsTarget all key target
unfolding match_patterns
match_patterns-IsTarget all no_fields key target inside h = absurd (ground arith)
match_patterns-IsTarget all (field pat val fs) key target inside h =
    elim (or_else-eq-some (match_pattern pat val key) _ h) [
      | inl e ↦ match_pattern-IsTarget all pat val key target (inside pat val here) e
      | inr e ↦ match_patterns-IsTarget all fs key target (λ p v has. inside p v (there has)) e
    ]

-- A target that `match_exports` gives for a key is the key's own target in the object, or that of
-- a field `prefix*suffix` for which the key is `prefix`, some text and `suffix`: the first star of
-- its target is replaced by that text.
pub match_exports-IsTarget :
    (fs : Fields) (key target : Text)
    → match_exports (object fs) key ≡ some target
    → IsTarget fs key target
unfolding match_exports direct_target
match_exports-IsTarget fs key target h =
    elim (or_else-eq-some (direct_target fs key) (match_patterns fs key) h) [
      | inl e ↦ let (v, e1, e2) = >>=-eq-some (get_field key fs) _ e in own e1 e2
      | inr e ↦ match_patterns-IsTarget fs fs key target (λ p v has. has) e
    ]

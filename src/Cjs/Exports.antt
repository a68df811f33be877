-- ===== src/Cjs/Exports.antt =====
-- crates/nexide/src/engine/cjs/resolver.rs: package names, and the targets that `exports` and
-- `imports` of a package.json give (`split_package_name`, `match_exports`, `pick_condition`).
pub mod Patterns
pub mod Targets
use nexide.Prelude.{
  ℕ, ◌-◌, ◌+◌, Bool, true, false, ◌&&◌, List, [], ◌∷◌, ◌++◌, Option, none, some, length, take, drop,
  leb, ◌==◌, if◌then◌else◌,
}
use nexide.Prelude.Options.{or_else, map_some, ◌>>=◌}
use nexide.Prelude.Text.{Text, text_eq, starts_with}
use nexide.Ops.Request.{is_empty}
use nexide.Cjs.Json.{
  Value, null, boolean, number, string, array, object, Fields, no_fields, field, get_field,
}

-- The text in front of the first slash and the text behind it, as `splitn` gives them.
unfoldable pub split_slash : Text → Text × Text
split_slash [] = ([], [])
split_slash (c ∷ s) =
    let (front, rest) = split_slash s in if c == b'/' then ([], s) else (c ∷ front, rest)

-- A request without its `@`: its scope and name, and the rest.
unfoldable pub split_scoped : Text → Text × Text
unfolding split_slash
split_scoped stripped =
    let (scope, behind) = split_slash stripped in
    let (name, rest) = split_slash behind in (b'@' ∷ scope ++ b'/' ∷ name, rest)

unfoldable pub split_package_name : Text → Text × Text
unfolding split_slash split_scoped
split_package_name [] = ([], [])
split_package_name (c ∷ s) = if c == b'@' then split_scoped s else split_slash (c ∷ s)

-- The condition with the given name, in a package.json's object of conditions.
unfoldable mutual
  pub pick_condition : Value → Option Text
  pick_condition (string s) = some s
  pick_condition (object fs) =
      or_else (pick_field (b'r' ∷ b'e' ∷ b'q' ∷ b'u' ∷ b'i' ∷ b'r' ∷ b'e' ∷ []) fs) (
        or_else (pick_field (b'n' ∷ b'o' ∷ b'd' ∷ b'e' ∷ []) fs)
          (pick_field (b'd' ∷ b'e' ∷ b'f' ∷ b'a' ∷ b'u' ∷ b'l' ∷ b't' ∷ []) fs))
  pick_condition null = none
  pick_condition (boolean b) = none
  pick_condition (number n) = none
  pick_condition (array xs) = none

  pub pick_field : Text → Fields → Option Text
  pick_field cond no_fields = none
  pick_field cond (field k v fs) =
      let here = pick_condition v in
      let rest = pick_field cond fs in if text_eq k cond then here else rest

-- `pat.find('*')`, as the text in front of the star and the text behind it.
unfoldable pub split_star : Text → Option (Text × Text)
split_star [] = none
split_star (c ∷ s) =
    let rest = split_star s in
    if c == b'*' then some ([], s) else map_some (λ split. (c ∷ split.0, split.1)) rest

-- `s.ends_with(suffix)`
unfoldable pub ends_with : Text → Text → Bool
ends_with suffix s =
    leb (length suffix) (length s) && text_eq (drop (length s - length suffix) s) suffix

-- What the star of the pattern `prefix*suffix` stands for in the key.
unfoldable pub middle : Text → Text → Text → Option Text
unfolding ends_with starts_with
middle prefix suffix key =
    if starts_with prefix key
      && ends_with suffix key
      && leb (length prefix + length suffix) (length key)
    then some (take (length key - length suffix - length prefix) (drop (length prefix) key))
    else none

-- `template.replacen('*', middle, 1)`
unfoldable pub replace_star : Text → Text → Text
unfolding split_star
replace_star template m = elim (split_star template) [
  | none ↦ template
  | some split ↦ split.0 ++ m ++ split.1
]

-- One round of the loop over the patterns.
unfoldable pub match_pattern : Text → Value → Text → Option Text
unfolding split_star middle pick_condition replace_star
match_pattern pat val key = do
  split ← split_star pat
  m ← middle split.0 split.1 key
  map_some (λ template. replace_star template m) (pick_condition val)

unfoldable pub match_patterns : Fields → Text → Option Text
unfolding match_pattern
match_patterns no_fields key = none
match_patterns (field pat val fs) key = or_else (match_pattern pat val key) (match_patterns fs key)

-- The target of the key itself.
unfoldable pub direct_target : Fields → Text → Option Text
unfolding get_field pick_condition
direct_target fs key = get_field key fs >>= pick_condition

unfoldable pub match_exports : Value → Text → Option Text
unfolding direct_target match_patterns
match_exports (object fs) key = or_else (direct_target fs key) (match_patterns fs key)
match_exports (string s) key = if text_eq key (b'.' ∷ []) then some s else none
match_exports _ key = none

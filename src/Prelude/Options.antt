-- ===== src/Prelude/Options.antt =====
-- `Option` as the monad of partial steps: `none` is a panic or a missing value.
use mathlib.Core.List.{List, [], ◌∷◌}
use mathlib.Core.Logic.{◌⊎◌, inl, inr}
use mathlib.Core.Option.{Option, none, some}
use mathlib.Core.Path.{◌≡◌, refl}
use mathlib.Core.Bool.{Bool, true, false}
use nexide.Prelude.Tests.{if◌then◌else◌}

infixl 5 ◌>>=◌
abbrev pub ◌>>=◌ {ℓ κ} : {A : Type ℓ} {B : Type κ} → Option A → (A → Option B) → Option B
none >>= f = none
some a >>= f = f a

-- The inversion of a bind that gives a value.
pub >>=-eq-some {ℓ κ} :
    {A : Type ℓ} {B : Type κ} (m : Option A) (f : A → Option B) {b : B}
    → (m >>= f) ≡ some b
    → (a : A) × (m ≡ some a) × (f a ≡ some b)
>>=-eq-some none f h = cc
>>=-eq-some (some a) f h = (a, refl, h)

pub some-inj {ℓ} : {A : Type ℓ} {a b : A} → some a ≡ some b → a ≡ b
some-inj h = cc

module _ {ℓ κ} {A : Type ℓ} {B : Type κ} where
  -- `o.map(f)`
  abbrev pub map_some : (A → B) → Option A → Option B
  map_some f none = none
  map_some f (some a) = some (f a)

  pub map_some-eq-some :
      (f : A → B) (o : Option A) {b : B}
      → map_some f o ≡ some b
      → (a : A) × (o ≡ some a) × (f a ≡ b)
  map_some-eq-some f none h = cc
  map_some-eq-some f (some a) h = (a, refl, cc)

module _ {ℓ} {A : Type ℓ} where
  -- `o.or_else(|| other)`
  abbrev pub or_else : Option A → Option A → Option A
  or_else none other = other
  or_else (some a) other = some a

  -- `items.find_map(f)`
  abbrev pub find_map {κ} : {B : Type κ} → (B → Option A) → List B → Option A
  find_map f [] = none
  find_map f (x ∷ xs) = or_else (f x) (find_map f xs)

  pub or_else-eq-some :
      (o other : Option A) {a : A} → or_else o other ≡ some a → (o ≡ some a) ⊎ (other ≡ some a)
  or_else-eq-some none other h = inr h
  or_else-eq-some (some a) other h = inl h

  pub find_map-eq-some {κ} :
      {B : Type κ} (f : B → Option A) (xs : List B) {a : A}
      → find_map f xs ≡ some a
      → (x : B) × (f x ≡ some a)
  find_map-eq-some f [] h = cc
  find_map-eq-some f (x ∷ xs) h = elim (or_else-eq-some (f x) (find_map f xs) h) [
    | inl e ↦ (x, e)
    | inr e ↦ find_map-eq-some f xs e
  ]

  pub if-eq-some :
      (b : Bool) (o : Option A) {a : A}
      → (if b then o else none) ≡ some a
      → (b ≡ true) × (o ≡ some a)
  if-eq-some true o h = (refl, h)
  if-eq-some false o h = cc

  pub if-none-eq-some :
      (b : Bool) (o : Option A) {a : A}
      → (if b then none else o) ≡ some a
      → (b ≡ false) × (o ≡ some a)
  if-none-eq-some true o h = cc
  if-none-eq-some false o h = (refl, h)

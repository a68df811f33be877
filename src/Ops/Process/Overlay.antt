-- ===== src/Ops/Process/Overlay.antt =====
-- About the overlay and the sets of keys of Ops/Process.
use nexide.Prelude.{
  ◌≡◌, refl, sym, ap, ◌∙◌, Bool, false, not, ◌||◌, ◌&&◌, List, [], ◌∷◌, Option, none, some,
  if◌then◌else◌, if-elim, Bool-cases, inl, inr, arith,
}
use nexide.Prelude.Text.{Text, text_eq, text_eq_self, text_eq→eq}
use nexide.Ops.Process.{
  EnvOverlay, without, insert_entry, lookup, live_keys, deleted_keys, ProcessConfig, mem,
  is_visible, text_ltb, insert_key, insert_keys, remove_key, remove_keys, visible_only, is_some,
}

-- The two are different, and stay so after a change of sides.
other_text : (s t : Text) → text_eq s t ≡ false → text_eq t s ≡ false
other_text s t h = elim (Bool-cases (text_eq t s)) [
  | inl e ↦
      let same : text_eq s t ≡ text_eq s s = ap (text_eq s) (text_eq→eq t s e) in
      absurd (let self = text_eq_self s in ground arith)
  | inr f ↦ f
]

lookup-without_self : (key : Text) (o : EnvOverlay) → lookup key (without key o) ≡ none
unfolding lookup without
lookup-without_self key [] = refl
lookup-without_self key (entry ∷ o) = elim (Bool-cases (text_eq entry.0 key)) [
  | inl t ↦ rw t (lookup-without_self key o)
  | inr f ↦ rw (f, f) (lookup-without_self key o)
]

lookup-without_ne :
    (key other : Text) (o : EnvOverlay)
    → text_eq key other ≡ false
    → lookup other (without key o) ≡ lookup other o
unfolding lookup without
lookup-without_ne key other [] ne = refl
lookup-without_ne key other (entry ∷ o) ne = elim (Bool-cases (text_eq entry.0 key)) [
  | inl t ↦
      let differs : text_eq entry.0 other ≡ false =
        ap (λ k. text_eq k other) (text_eq→eq entry.0 key t) ∙ ne in
      rw (t, differs) (lookup-without_ne key other o ne)
  | inr f ↦ rw f (
      ap (λ rest. if text_eq entry.0 other then some entry.1 else rest)
        (lookup-without_ne key other o ne))
]

pub lookup-insert_entry :
    (key : Text) (value : Option Text) (other : Text) (o : EnvOverlay)
    → lookup other (insert_entry key value o)
      ≡ (if text_eq key other then some value else lookup other o)
unfolding lookup insert_entry
lookup-insert_entry key value other o = elim (Bool-cases (text_eq key other)) [
  | inl t ↦ rw (lookup, insert_entry, t) refl
  | inr f ↦ rw f (lookup-without_ne key other o f)
]

-- No key occurs twice.
unfoldable pub AreDistinct : EnvOverlay → Type 0
AreDistinct [] = Unit
AreDistinct (entry ∷ o) = (lookup entry.0 o ≡ none) × AreDistinct o

without-AreDistinct : (key : Text) (o : EnvOverlay) → AreDistinct o → AreDistinct (without key o)
unfolding without AreDistinct
without-AreDistinct key [] d = tt
without-AreDistinct key (entry ∷ o) d =
    if-elim AreDistinct (text_eq entry.0 key) (λ t. without-AreDistinct key o d.1)
      (λ f. (
        lookup-without_ne key entry.0 o (other_text entry.0 key f) ∙ d.0,
        without-AreDistinct key o d.1,
      ))

pub insert_entry-AreDistinct :
    (key : Text) (value : Option Text) (o : EnvOverlay)
    → AreDistinct o
    → AreDistinct (insert_entry key value o)
unfolding insert_entry AreDistinct
insert_entry-AreDistinct key value o d = (lookup-without_self key o, without-AreDistinct key o d)

mem-insert_key :
    (key x : Text) (set : List Text) → mem x (insert_key key set) ≡ (text_eq key x || mem x set)
unfolding mem insert_key
mem-insert_key key x [] = refl
mem-insert_key key x (k ∷ ks) = elim (Bool-cases (text_eq k key)) [
  | inl t ↦ let same = text_eq→eq k key t in rw (insert_key, t, same) (ground arith)
  | inr f ↦ rw f (
      if-elim (λ set. mem x set ≡ (text_eq key x || (text_eq k x || mem x ks))) (text_ltb key k)
        (λ t. refl) (λ g. ground (arith, mem-insert_key key x ks)))
]

pub mem-insert_keys :
    (keys : List Text) (x : Text) (set : List Text)
    → mem x (insert_keys keys set) ≡ (mem x keys || mem x set)
unfolding mem insert_keys
mem-insert_keys [] x set = refl
mem-insert_keys (k ∷ ks) x set =
    ground (arith, mem-insert_keys ks x (insert_key k set), mem-insert_key k x set)

mem-remove_key :
    (key x : Text) (set : List Text)
    → mem x (remove_key key set) ≡ (not (text_eq key x) && mem x set)
unfolding mem remove_key
mem-remove_key key x [] = ground arith
mem-remove_key key x (k ∷ ks) = elim (Bool-cases (text_eq k key)) [
  | inl t ↦
      let same = ap (λ y. text_eq y x) (text_eq→eq k key t) in
      rw t (ground (arith, mem-remove_key key x ks, same))
  | inr f ↦ elim (Bool-cases (text_eq k x)) [
    | inl t ↦
        let differs : text_eq key x ≡ false =
          other_text x key (sym (ap (λ y. text_eq y key) (text_eq→eq k x t)) ∙ f) in
        rw f (ground (arith, differs, t))
    | inr g ↦ rw f (ground (arith, mem-remove_key key x ks, g))
  ]
]

pub mem-remove_keys :
    (keys : List Text) (x : Text) (set : List Text)
    → mem x (remove_keys keys set) ≡ (not (mem x keys) && mem x set)
unfolding mem remove_keys
mem-remove_keys [] x set = refl
mem-remove_keys (k ∷ ks) x set =
    ground (arith, mem-remove_keys ks x (remove_key k set), mem-remove_key k x set)

pub mem-visible_only :
    (p : ProcessConfig) (x : Text) (ks : List Text)
    → mem x (visible_only p ks) ≡ (is_visible p x && mem x ks)
unfolding mem visible_only
mem-visible_only p x [] = ground arith
mem-visible_only p x (k ∷ ks) =
    let rest = mem-visible_only p x ks in
    elim (Bool-cases (text_eq k x)) [
      | inl t ↦
          let same : is_visible p k ≡ is_visible p x = ap (is_visible p) (text_eq→eq k x t) in
          rw (visible_only, same)
            (elim (Bool-cases (is_visible p x)) [
              | inl v ↦ rw v (ground (arith, t))
              | inr v ↦ rw v (rest ∙ rw v refl)
            ])
      | inr f ↦ elim (Bool-cases (is_visible p k)) [
        | inl v ↦ rw v (ground (arith, f, rest))
        | inr v ↦ rw v (ground (arith, f, rest))
      ]
    ]

-- What the overlay says of a key that is set, and of one that is deleted.
unfoldable pub says_live : Option (Option Text) → Bool
unfolding is_some
says_live none = false
says_live (some value) = is_some value

unfoldable pub says_deleted : Option (Option Text) → Bool
unfolding is_some
says_deleted none = false
says_deleted (some value) = not (is_some value)

pub mem-live_keys :
    (x : Text) (o : EnvOverlay) → AreDistinct o → mem x (live_keys o) ≡ says_live (lookup x o)
unfolding mem live_keys lookup says_live AreDistinct
mem-live_keys x [] d = refl
mem-live_keys x ((key, none) ∷ o) d = elim (Bool-cases (text_eq key x)) [
  | inl t ↦
      let absent : lookup x o ≡ none = ap (λ k. lookup k o) (sym (text_eq→eq key x t)) ∙ d.0 in
      rw t (mem-live_keys x o d.1 ∙ ap says_live absent)
  | inr f ↦ rw f (mem-live_keys x o d.1)
]
mem-live_keys x ((key, some value) ∷ o) d = elim (Bool-cases (text_eq key x)) [
  | inl t ↦ rw t refl
  | inr f ↦ rw f (mem-live_keys x o d.1)
]

pub mem-deleted_keys :
    (x : Text) (o : EnvOverlay) → AreDistinct o → mem x (deleted_keys o) ≡ says_deleted (lookup x o)
unfolding mem deleted_keys lookup says_deleted AreDistinct
mem-deleted_keys x [] d = refl
mem-deleted_keys x ((key, some value) ∷ o) d = elim (Bool-cases (text_eq key x)) [
  | inl t ↦
      let absent : lookup x o ≡ none = ap (λ k. lookup k o) (sym (text_eq→eq key x t)) ∙ d.0 in
      rw t (mem-deleted_keys x o d.1 ∙ ap says_deleted absent)
  | inr f ↦ rw f (mem-deleted_keys x o d.1)
]
mem-deleted_keys x ((key, none) ∷ o) d = elim (Bool-cases (text_eq key x)) [
  | inl t ↦ rw t refl
  | inr f ↦ rw f (mem-deleted_keys x o d.1)
]

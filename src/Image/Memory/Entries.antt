-- ===== src/Image/Memory/Entries.antt =====
-- The map of the LRU cache: distinct keys, its size in bytes, and what lookups see after a change.
use nexide.Prelude.{
  ℕ, suc, ◌+◌, ◌≤◌, ◌<◌, ◌≡◌, refl, sym, ◌∙◌, inl, inr, false, List, [], ◌∷◌, none, some, length,
  arith, Bool-cases, Option-cases, leb,
}
use nexide.Prelude.Text.{Text, text_eq, text_eq_self, text_eq→eq}
use nexide.Image.Memory.{Cached, lookup, without, restamp, oldest}

-- The bytes that the entries hold together.
unfoldable pub total : List Cached → ℕ
total [] = 0
total (c ∷ map) = length c.entry.bytes + total map

unfoldable pub IsAbsent : Text → List Cached → Type 0
IsAbsent key [] = Unit
IsAbsent key (c ∷ map) = (text_eq c.key key ≡ false) × IsAbsent key map

unfoldable pub IsKeyed : List Cached → Type 0
unfolding IsAbsent
IsKeyed [] = Unit
IsKeyed (c ∷ map) = IsAbsent c.key map × IsKeyed map

-- Every stamp of the map is below `bound`.
unfoldable pub IsBelow : ℕ → List Cached → Type 0
IsBelow bound [] = Unit
IsBelow bound (c ∷ map) = (c.stamp < bound) × IsBelow bound map

pub without-found :
    (key : Text) (map : List Cached) (c : Cached)
    → lookup key map ≡ some c
    → (length map ≡ suc (length (without key map)))
      × (total map ≡ length c.entry.bytes + total (without key map))
unfolding lookup without total
without-found key [] c h = absurd (ground arith)
without-found key (d ∷ map) c h = elim (Bool-cases (text_eq d.key key)) [
  | inl t ↦ ground arith
  | inr f ↦ let (l, n) = without-found key map c (ground arith) in ground arith
]

pub without-missing :
    (key : Text) (map : List Cached) → lookup key map ≡ none → without key map ≡ map
unfolding lookup without
without-missing key [] h = refl
without-missing key (d ∷ map) h = ground (arith, without-missing key map)

pub oldest-lookup :
    (map : List Cached) (v : Cached)
    → oldest map ≡ some v
    → (c : Cached) × (lookup v.key map ≡ some c)
unfolding oldest lookup
oldest-lookup [] v h = absurd (ground arith)
oldest-lookup (c ∷ map) v h = elim (Bool-cases (text_eq c.key v.key)) [
  | inl t ↦ (c, ground arith)
  | inr f ↦ elim (Option-cases (oldest map)) [
    | inl e ↦ absurd (ground (arith, text_eq_self c.key))
    | inr (d, e) ↦ elim (Bool-cases (leb c.stamp d.stamp)) [
      | inl le ↦ absurd (ground (arith, text_eq_self c.key))
      | inr gt ↦
          let same : d ≡ v = ground arith in
          let (w, found) = oldest-lookup map v (rw (← same) e) in (w, ground arith)
    ]
  ]
]

pub oldest-none : (map : List Cached) → oldest map ≡ none → map ≡ []
unfolding oldest
oldest-none [] h = refl
oldest-none (c ∷ map) h = absurd (ground arith)

pub IsAbsent-without :
    (key j : Text) (map : List Cached) → IsAbsent key map → IsAbsent key (without j map)
unfolding IsAbsent without
IsAbsent-without key j [] h = tt
IsAbsent-without key j (c ∷ map) (d, h) = elim (Bool-cases (text_eq c.key j)) [
  | inl t ↦ rw t h
  | inr f ↦ rw f ((d, IsAbsent-without key j map h))
]

pub without-IsKeyed : (key : Text) (map : List Cached) → IsKeyed map → IsKeyed (without key map)
unfolding IsKeyed without
without-IsKeyed key [] h = tt
without-IsKeyed key (c ∷ map) (a, h) = elim (Bool-cases (text_eq c.key key)) [
  | inl t ↦ rw t h
  | inr f ↦ rw f ((IsAbsent-without c.key key map a, without-IsKeyed key map h))
]

pub without-IsAbsent :
    (key : Text) (map : List Cached) → IsKeyed map → IsAbsent key (without key map)
unfolding IsKeyed IsAbsent without
without-IsAbsent key [] h = tt
without-IsAbsent key (c ∷ map) (a, h) = elim (Bool-cases (text_eq c.key key)) [
  | inl t ↦ rw t (rw (text_eq→eq c.key key t) at a)
  | inr f ↦ rw f ((f, without-IsAbsent key map h))
]

pub without-IsBelow :
    (bound : ℕ) (key : Text) (map : List Cached)
    → IsBelow bound map
    → IsBelow bound (without key map)
unfolding IsBelow without
without-IsBelow bound key [] h = tt
without-IsBelow bound key (c ∷ map) (l, h) = elim (Bool-cases (text_eq c.key key)) [
  | inl t ↦ rw t h
  | inr f ↦ rw f ((l, without-IsBelow bound key map h))
]

pub IsBelow-weaken : (a b : ℕ) (map : List Cached) → a ≤ b → IsBelow a map → IsBelow b map
unfolding IsBelow
IsBelow-weaken a b [] le h = tt
IsBelow-weaken a b (c ∷ map) le (l, h) = (omega arith, IsBelow-weaken a b map le h)

IsAbsent-restamp :
    (key j : Text) (stamp : ℕ) (map : List Cached)
    → IsAbsent key map
    → IsAbsent key (restamp j stamp map)
unfolding IsAbsent restamp
IsAbsent-restamp key j stamp [] h = tt
IsAbsent-restamp key j stamp (c ∷ map) (d, h) = elim (Bool-cases (text_eq c.key j)) [
  | inl t ↦ rw t ((d, h))
  | inr f ↦ rw f ((d, IsAbsent-restamp key j stamp map h))
]

pub restamp-IsKeyed :
    (key : Text) (stamp : ℕ) (map : List Cached) → IsKeyed map → IsKeyed (restamp key stamp map)
unfolding IsKeyed restamp
restamp-IsKeyed key stamp [] h = tt
restamp-IsKeyed key stamp (c ∷ map) (a, h) = elim (Bool-cases (text_eq c.key key)) [
  | inl t ↦ rw t ((a, h))
  | inr f ↦ rw f ((IsAbsent-restamp c.key key stamp map a, restamp-IsKeyed key stamp map h))
]

pub restamp-IsBelow :
    (key : Text) (stamp bound : ℕ) (map : List Cached)
    → stamp < bound
    → IsBelow bound map
    → IsBelow bound (restamp key stamp map)
unfolding IsBelow restamp
restamp-IsBelow key stamp bound [] lt h = tt
restamp-IsBelow key stamp bound (c ∷ map) lt (l, h) = elim (Bool-cases (text_eq c.key key)) [
  | inl t ↦ rw t ((lt, h))
  | inr f ↦ rw f ((l, restamp-IsBelow key stamp bound map lt h))
]

pub restamp_sizes :
    (key : Text) (stamp : ℕ) (map : List Cached)
    → (length (restamp key stamp map) ≡ length map) × (total (restamp key stamp map) ≡ total map)
unfolding total restamp
restamp_sizes key stamp [] = (refl, refl)
restamp_sizes key stamp (c ∷ map) =
    let (l, n) = restamp_sizes key stamp map in
    elim (Bool-cases (text_eq c.key key)) [
      | inl t ↦ rw t ((refl, refl))
      | inr f ↦ rw f ((omega arith, omega arith))
    ]

pub absent-lookup : (key : Text) (map : List Cached) → IsAbsent key map → lookup key map ≡ none
unfolding IsAbsent lookup
absent-lookup key [] h = refl
absent-lookup key (c ∷ map) (d, h) = rw d (absent-lookup key map h)

pub lookup-without_ne :
    (j key : Text) (map : List Cached)
    → text_eq j key ≡ false
    → lookup key (without j map) ≡ lookup key map
unfolding lookup without
lookup-without_ne j key [] h = refl
lookup-without_ne j key (c ∷ map) h = elim (Bool-cases (text_eq c.key j)) [
  | inl t ↦ let skip : text_eq c.key key ≡ false = rw (text_eq→eq c.key j t) h in rw (t, skip) refl
  | inr f ↦ rw (f, lookup, lookup-without_ne j key map h) refl
]

-- What is found after a removal was found before it.
pub lookup-without :
    (j key : Text) (map : List Cached) (c : Cached)
    → IsKeyed map
    → lookup key (without j map) ≡ some c
    → lookup key map ≡ some c
lookup-without j key map c k h = elim (Bool-cases (text_eq j key)) [
  | inr f ↦ sym (lookup-without_ne j key map f) ∙ h
  | inl t ↦
      let gone : lookup key (without j map) ≡ none =
        rw (text_eq→eq j key t)
          (absent-lookup key (without key map) (without-IsAbsent key map k)) in
      absurd (ground arith)
]

pub oldest_least :
    (map : List Cached) (v : Cached) (key : Text) (c : Cached)
    → oldest map ≡ some v
    → lookup key map ≡ some c
    → v.stamp ≤ c.stamp
unfolding oldest lookup
oldest_least [] v key c e h = absurd (ground arith)
oldest_least (d ∷ map) v key c e h = elim (Option-cases (oldest map)) [
  | inl n ↦ let h' : lookup key (d ∷ []) ≡ some c = rw (oldest-none map n) at h in ground arith
  | inr (w, s) ↦ elim (Bool-cases (text_eq d.key key)) [
    | inl t ↦ ground arith
    | inr f ↦ let le = oldest_least map w key c s (ground arith) in ground arith
  ]
]

-- With distinct keys, the oldest entry is the one its key finds.
pub lookup-oldest :
    (map : List Cached) (v : Cached) → IsKeyed map → oldest map ≡ some v → lookup v.key map ≡ some v
unfolding IsKeyed oldest lookup
lookup-oldest [] v k e = absurd (ground arith)
lookup-oldest (c ∷ map) v (a, k) e = elim (Option-cases (oldest map)) [
  | inl n ↦ ground (arith, text_eq_self c.key)
  | inr (d, s) ↦ elim (Bool-cases (leb c.stamp d.stamp)) [
    | inl le ↦ ground (arith, text_eq_self c.key)
    | inr gt ↦
        let same : d ≡ v = ground arith in
        let found = lookup-oldest map v k (rw (← same) s) in
        elim (Bool-cases (text_eq c.key v.key)) [
          | inr f ↦ rw f found
          | inl t ↦
              let gone = absent-lookup v.key map (rw (text_eq→eq c.key v.key t) at a) in
              absurd (ground arith)
        ]
  ]
]

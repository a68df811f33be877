-- ===== src/Cjs/Paths/Ancestors.antt =====
-- About `Path::parent` of Cjs/Paths: the walk from a directory up to the root.
use nexide.Prelude.Options.{some-inj, map_some, map_some-eq-some, or_else-eq-some, or_else}
use nexide.Prelude.{
  Option-cases, Bool-cases, List-cases, inl, inr, ℕ, zero, suc, ◌+◌, ◌≤◌, ◌≡◌, refl, ap, sym, ◌∙◌,
  true, false, List, [], ◌∷◌, none, some, length, length-append, arith, ◌==◌,
}
use nexide.Prelude.Text.{Text, text_eq}
use nexide.Ops.Request.{is_empty}
use nexide.Image.Params.{split_on}
use nexide.Cjs.Paths.{
  slash, dot, is_ignored, join_pieces, trim_pieces, init, parent_pieces, relative_parent, parent,
}

-- The directory and its ancestors, on fuel for the steps of
-- `while let Some(dir) = current { …; current = dir.parent() }`.
unfoldable pub ancestors : ℕ → Text → List Text
unfolding parent
ancestors zero dir = []
ancestors (suc fuel) dir = elim (parent dir) [ none ↦ dir ∷ [] | some up ↦ dir ∷ ancestors fuel up ]

-- The text of some pieces, with a slash after each.
size : List Text → ℕ
size [] = 0
size (p ∷ ps) = suc (length p) + size ps

size-trim_pieces : (ps : List Text) → size (trim_pieces ps) ≤ size ps
unfolding trim_pieces size
size-trim_pieces [] = omega arith
size-trim_pieces (p ∷ ps) = ground (arith, size-trim_pieces ps)

size-init : (p : Text) (ps : List Text) → suc (size (init (p ∷ ps))) ≤ size (p ∷ ps)
unfolding init size
size-init p [] = omega arith
size-init p (q ∷ ps) = omega (arith, size-init q ps)

size-trim_pieces_named :
    (ps : List Text) (q : Text) (qs : List Text) → trim_pieces ps ≡ q ∷ qs → 2 ≤ size ps
unfolding trim_pieces is_ignored is_empty size
size-trim_pieces_named [] q qs h = absurd (ground arith)
size-trim_pieces_named ([] ∷ ps) q qs h = elim (List-cases (trim_pieces ps)) [
  | inl e ↦ absurd (ground arith)
  | inr (r, rs, e) ↦ omega (arith, size-trim_pieces_named ps r rs e)
]
size-trim_pieces_named ((c ∷ p) ∷ ps) q qs h = omega arith

size-parent_pieces :
    (ps qs : List Text) → parent_pieces ps ≡ some qs → (suc (size qs) ≤ size ps) × (2 ≤ size ps)
unfolding parent_pieces
size-parent_pieces ps qs h = elim (List-cases (trim_pieces ps)) [
  | inl e ↦ absurd (ground arith)
  | inr (r, rs, e) ↦
      let eq : trim_pieces (init (r ∷ rs)) ≡ qs = ground arith in
      let small : size (trim_pieces ps) ≤ size ps = size-trim_pieces ps in
      let cut : size (trim_pieces (init (r ∷ rs))) ≤ size (init (r ∷ rs)) =
        size-trim_pieces (init (r ∷ rs)) in
      let shorter = size-init r rs in
      (rw (← eq) (omega (arith, rw e at small)), size-trim_pieces_named ps r rs e)
]

length-join_pieces :
    (p : Text) (ps : List Text) → suc (length (join_pieces (p ∷ ps))) ≡ size (p ∷ ps)
unfolding join_pieces size
length-join_pieces p [] = omega arith
length-join_pieces p (q ∷ ps) =
    rw (length-append p (slash ∷ join_pieces (q ∷ ps))) (omega (arith, length-join_pieces q ps))

-- The text of no piece is empty, that of some pieces a slash shorter.
length-join_pieces_le :
    (qs : List Text) (n : ℕ) → suc (size qs) ≤ n → 2 ≤ n → suc (suc (length (join_pieces qs))) ≤ n
unfolding join_pieces size
length-join_pieces_le [] n h k = omega arith
length-join_pieces_le (q ∷ qs) n h k = omega (arith, length-join_pieces q qs)

size-split_on : (c : ℕ) (s : Text) → size (split_on c s) ≡ suc (length s)
unfolding split_on size
size-split_on c [] = refl
size-split_on c (d ∷ s) =
    let rest = size-split_on c s in
    elim (Bool-cases (d == c)) [
      | inl t ↦ rw (split_on, t) (omega (arith, rest))
      | inr f ↦ elim (List-cases (split_on c s)) [
        | inl e ↦ absurd (omega (arith, rw e at rest))
        | inr (p, ps, e) ↦ rw (split_on, f, e) (omega (arith, rw e at rest))
      ]
    ]

relative_parent-dot :
    (p : Text) (ps : List Text)
    → text_eq p dot ≡ true
    → relative_parent (p ∷ ps)
      ≡ or_else (map_some (λ qs. join_pieces (p ∷ qs)) (parent_pieces ps)) (some [])
unfolding relative_parent
relative_parent-dot p ps t = rw (relative_parent, t) refl

relative_parent_piece :
    (p : Text) (ps : List Text)
    → text_eq p dot ≡ false
    → relative_parent (p ∷ ps) ≡ map_some join_pieces (parent_pieces (p ∷ ps))
unfolding relative_parent
relative_parent_piece p ps f = rw (relative_parent, f) refl

parent_absolute :
    (c : ℕ) (s : Text)
    → (c == slash) ≡ true
    → parent (c ∷ s) ≡ map_some (λ qs. slash ∷ join_pieces qs) (parent_pieces (split_on slash s))
unfolding parent
parent_absolute c s t = rw (parent, t) refl

parent_relative :
    (c : ℕ) (s : Text)
    → (c == slash) ≡ false
    → parent (c ∷ s) ≡ relative_parent (split_on slash (c ∷ s))
unfolding parent
parent_relative c s f = rw (parent, f) refl

length-relative_parent :
    (ps : List Text) (n : ℕ) (up : Text)
    → size ps ≡ suc n
    → 1 ≤ n
    → relative_parent ps ≡ some up
    → suc (length up) ≤ n
unfolding size relative_parent
length-relative_parent [] n up e k h = absurd (omega arith)
length-relative_parent (p ∷ ps) n up e k h = elim (Bool-cases (text_eq p dot)) [
  | inl t ↦ elim (or_else-eq-some _ (some []) (sym (relative_parent-dot p ps t) ∙ h)) [
    | inl o ↦
        let (qs, e', same) = map_some-eq-some (λ qs. join_pieces (p ∷ qs)) (parent_pieces ps) o in
        let (short, two) = size-parent_pieces ps qs e' in
        rw (← same) (omega (arith, length-join_pieces p qs))
    | inr o ↦ rw (← some-inj o) (omega arith)
  ]
  | inr f ↦
      let (qs, e', same) =
        map_some-eq-some join_pieces (parent_pieces (p ∷ ps))
          (sym (relative_parent_piece p ps f) ∙ h) in
      let (short, two) = size-parent_pieces (p ∷ ps) qs e' in
      rw (← same) (omega (arith, length-join_pieces_le qs (suc n) (omega arith) (omega arith)))
]

pub length-parent : (dir up : Text) → parent dir ≡ some up → suc (length up) ≤ length dir
unfolding parent
length-parent [] up h = absurd (ground arith)
length-parent (c ∷ s) up h = elim (Bool-cases (c == slash)) [
  | inl t ↦
      let total = size-split_on slash s in
      let (qs, e, same) =
        map_some-eq-some (λ qs. slash ∷ join_pieces qs) (parent_pieces (split_on slash s))
          (sym (parent_absolute c s t) ∙ h) in
      let (short, two) = size-parent_pieces (split_on slash s) qs e in
      rw (← same)
        (length-join_pieces_le qs (suc (length s)) (omega (arith, total)) (omega (arith, total)))
  | inr f ↦
      length-relative_parent (split_on slash (c ∷ s)) (suc (length s)) up
        (size-split_on slash (c ∷ s)) (omega arith) (sym (parent_relative c s f) ∙ h)
]

ancestors_root : (fuel : ℕ) (dir : Text) → parent dir ≡ none → ancestors (suc fuel) dir ≡ dir ∷ []
unfolding ancestors
ancestors_root fuel dir e = rw (ancestors, e) refl

-- The walk from a directory up ends: with more steps than the directory's text has bytes, the number
-- of steps makes no difference to the directories it visits.
pub ancestors_enough :
    (fuel more : ℕ) (dir : Text)
    → suc (length dir) ≤ fuel
    → suc (length dir) ≤ more
    → ancestors fuel dir ≡ ancestors more dir
unfolding ancestors
ancestors_enough zero more dir h k = absurd (omega arith)
ancestors_enough (suc fuel) zero dir h k = absurd (omega arith)
ancestors_enough (suc fuel) (suc more) dir h k = elim (Option-cases (parent dir)) [
  | inl e ↦ ancestors_root fuel dir e ∙ sym (ancestors_root more dir e)
  | inr (up, e) ↦
      let shorter = length-parent dir up e in
      rw (ancestors, e) (ap (◌∷◌ dir) (ancestors_enough fuel more up (omega arith) (omega arith)))
]

-- ===== src/Image/Glob/Meaning.antt =====
-- The declarative meaning of glob patterns, and the matcher against it.
pub mod Patterns
pub mod Heads
use nexide.Prelude.{
  ℕ, zero, suc, ◌+◌, ◌-◌, ◌≤◌, ◌<◌, ◌≡◌, refl, sym, ap, ◌∙◌, inl, inr, Bool, true, false, not, ◌&&◌,
  ◌||◌, List, [], ◌∷◌, ◌++◌, some, length, take, drop, get_elem?, take-append-drop, arith,
  Bool-cases, Option-cases, ◌==◌,
}
use nexide.Prelude.Text.{Text}
use nexide.Image.Glob.{
  Head, globstar, star, any_byte, alternatives, unclosed, byte, head_of, has_slash, first_is,
  at_segment, any_from, star_loop, any_alt, match_head, matches_impl, matches,
}
use nexide.Image.Glob.Meaning.Patterns.{
  Glob, done, IsListed, here, later, HeadMeaning, skips, in_segment, one_byte, one_alt, same_byte,
}
use nexide.Image.Glob.Meaning.Heads.{head_of_sound}

drop_get : (t : Text) (i d : ℕ) → get_elem? t i ≡ some d → drop i t ≡ d ∷ drop (suc i) t
drop_get [] i d h = absurd (ground arith)
drop_get (c ∷ t) zero d h = ground arith
drop_get (c ∷ t) (suc i) d h = drop_get t i d h

get_lt : (t : Text) (i d : ℕ) → get_elem? t i ≡ some d → i < length t
get_lt [] i d h = absurd (ground arith)
get_lt (c ∷ t) zero d h = omega arith
get_lt (c ∷ t) (suc i) d h = omega (arith, get_lt t i d h)

drop_nil : (n : ℕ) → drop {A = ℕ} n [] ≡ []
drop_nil zero = refl
drop_nil (suc n) = refl

drop-drop : (t : Text) (n i : ℕ) → drop n (drop i t) ≡ drop (i + n) t
drop-drop t n zero = ap (λ k. drop k t) (omega arith)
drop-drop [] n (suc i) = drop_nil n ∙ sym (drop_nil (suc i + n))
drop-drop (c ∷ t) n (suc i) =
    drop-drop t n i ∙ ap (λ k. drop k (c ∷ t)) {x = suc (i + n)} {y = suc i + n} (omega arith)

drop_all : (t : Text) → drop (length t) t ≡ []
drop_all [] = refl
drop_all (c ∷ t) = drop_all t

-- The text from `ti` is the slice up to `end` and the text from there.
slices : (t : Text) (ti end : ℕ) → ti ≤ end → drop ti t ≡ take (end - ti) (drop ti t) ++ drop end t
slices t ti end le =
    let there : ti + (end - ti) ≡ end = omega arith in
    sym (take-append-drop (end - ti) (drop ti t))
    ∙ ap (◌++◌ (take (end - ti) (drop ti t))) (drop-drop t (end - ti) ti ∙ ap (λ e. drop e t) there)

any_from_found :
    (test : ℕ → Bool) (n from : ℕ)
    → any_from test from n ≡ true
    → (end : ℕ) × (from ≤ end) × (end < from + n) × (test end ≡ true)
unfolding any_from
any_from_found test zero from h = absurd (ground arith)
any_from_found test (suc n) from h = elim (Bool-cases (test from)) [
  | inl t ↦ (from, omega arith, omega arith, t)
  | inr f ↦
      let (end, le, lt, found) = any_from_found test n (suc from) (rw (any_from, f) at h) in
      (end, omega arith, omega arith, found)
]

star_loop_found :
    (test : ℕ → Bool) (t : Text) (ti : ℕ) (dot at_seg : Bool) (bound n end : ℕ)
    → ti ≤ end
    → end + n ≤ bound
    → star_loop test t ti dot at_seg end n ≡ true
    → (last : ℕ) × (ti ≤ last)
      × (last < bound)
      × (has_slash (take (last - ti) (drop ti t)) ≡ false)
      × (test last ≡ true)
unfolding star_loop
star_loop_found test t ti dot at_seg bound zero end le room h = absurd (ground arith)
star_loop_found test t ti dot at_seg bound (suc n) end le room h =
    let more = star_loop_found test t ti dot at_seg bound n (suc end) (omega arith) (omega arith) in
    let slice = take (end - ti) (drop ti t) in
    elim (Bool-cases (has_slash (drop end t) && (end == ti))) [
      | inl skip ↦ (more (rw (star_loop, skip) at h))
      | inr try ↦ elim (Bool-cases (has_slash slice)) [
        | inl stop ↦ absurd (ground (arith, rw (star_loop, try, stop) at h))
        | inr plain ↦ elim (Bool-cases (not dot && at_seg && first_is b'.' slice)) [
          | inl dotted ↦ (more (rw (star_loop, try, plain, dotted) at h))
          | inr fine ↦ elim (Bool-cases (test end)) [
            | inl found ↦ (end, le, omega arith, plain, found)
            | inr miss ↦ (more (rw (star_loop, try, plain, fine, miss) at h))
          ]
        ]
      ]
    ]

any_alt_found :
    (test : Text → Bool) (alts : List Text)
    → any_alt test alts ≡ true
    → (alt : Text) × IsListed alt alts × (test alt ≡ true)
unfolding any_alt
any_alt_found test [] h = absurd (ground arith)
any_alt_found test (alt ∷ alts) h = elim (Bool-cases (test alt)) [
  | inl t ↦ (alt, here, t)
  | inr f ↦
      let (other, one, found) = any_alt_found test alts (rw (any_alt, f) at h) in
      (other, later one, found)
]

any_byte_inv :
    (d : ℕ) (dotted found : Bool)
    → elim ((d == b'/') || dotted) [ true ↦ false | false ↦ found ] ≡ true
    → ((d == b'/') ≡ false) × (found ≡ true)
any_byte_inv d dotted found h = ground arith

match_head_sound :
    (rec : Text → ℕ → Bool → Bool) (h : Head) (t : Text) (ti : ℕ) (dot at_seg : Bool)
    → ti ≤ length t
    → ((p : Text) (i : ℕ) (seg : Bool) → i ≤ length t → rec p i seg ≡ true → Glob p (drop i t))
    → match_head rec h t ti dot at_seg ≡ true
    → HeadMeaning h (drop ti t)
unfolding match_head
match_head_sound rec (globstar rest) t ti dot at_seg le ih h =
    let (end, lo, hi, found) =
      any_from_found (λ end. rec rest end (at_segment t end)) (suc (length t) - ti) ti h in
    rw (slices t ti end lo)
      (skips (take (end - ti) (drop ti t)) (ih rest end (at_segment t end) (omega arith) found))
match_head_sound rec (star rest) t ti dot at_seg le ih h =
    let (end, lo, hi, plain, found) =
      star_loop_found (λ end. rec rest end false) t ti dot at_seg (suc (length t))
        (suc (length t) - ti) ti (omega arith) (omega arith) h in
    rw (slices t ti end lo)
      (in_segment (take (end - ti) (drop ti t)) plain (ih rest end false (omega arith) found))
match_head_sound rec (any_byte rest) t ti dot at_seg le ih h =
    elim (Option-cases (get_elem? t ti)) [
      | inl n ↦ absurd (ground (arith, rw (match_head, n) at h))
      | inr (d, e) ↦
          let (plain, found) = any_byte_inv d _ _ (rw (match_head, e) at h) in
          rw (drop_get t ti d e)
            (one_byte d plain (ih rest (suc ti) false (omega (arith, get_lt t ti d e)) found))
    ]
match_head_sound rec (alternatives alts after) t ti dot at_seg le ih h =
    let (alt, one, found) = any_alt_found (λ alt. rec (alt ++ after) ti at_seg) alts h in
    one_alt alt one (ih (alt ++ after) ti at_seg le found)
match_head_sound rec unclosed t ti dot at_seg le ih h = absurd (ground arith)
match_head_sound rec (byte d rest) t ti dot at_seg le ih h = elim (Option-cases (get_elem? t ti)) [
  | inl n ↦ absurd (ground (arith, rw (match_head, n) at h))
  | inr (e, at) ↦ elim (Bool-cases (e == d)) [
    | inl same ↦
        let found = rw (match_head, at, same) at h in
        let eq : e ≡ d = ground arith in
        rw (drop_get t ti e at, eq)
          (same_byte d (ih rest (suc ti) (e == b'/') (omega (arith, get_lt t ti e at)) found))
    | inr other ↦ absurd (ground (arith, rw (match_head, at, other) at h))
  ]
]

-- With any fuel, a text that the matcher admits from position `ti` on has the pattern's meaning.
matches_impl_sound :
    (fuel : ℕ) (p t : Text) (ti : ℕ) (dot at_seg : Bool)
    → ti ≤ length t
    → matches_impl fuel p t ti dot at_seg ≡ true
    → Glob p (drop ti t)
unfolding matches_impl
matches_impl_sound fuel [] t ti dot at_seg le h =
    let at_end : ti ≡ length t = ground arith in rw (at_end, drop_all t) done
matches_impl_sound zero (c ∷ p) t ti dot at_seg le h = absurd (ground arith)
matches_impl_sound (suc fuel) (c ∷ p) t ti dot at_seg le h = head_of_sound c p _ (
    match_head_sound (λ rest i seg. matches_impl fuel rest t i dot seg) (head_of c p) t ti dot
      at_seg le (λ q i seg le' found. matches_impl_sound fuel q t i dot seg le' found) h)

-- A text that the matcher admits, with either setting of `dot`, is a text of the pattern: nothing is
-- left over on either side, `**` stands for any bytes and takes a slash behind it along, `*` for any
-- bytes but slashes, `?` for one byte but a slash, a brace group for one of its alternatives between
-- the commas outside of inner groups, an escaped byte and any other byte for itself.
pub matches-Glob :
    (pattern text : Text) (dot : Bool) → matches pattern text dot ≡ true → Glob pattern text
unfolding matches
matches-Glob pattern text dot h =
    matches_impl_sound (length pattern) pattern text 0 dot true (omega arith) h

-- ===== src/Image/Glob/Fuel.antt =====
-- About the fuel of the glob matcher's recursion.
use nexide.Prelude.{
  ℕ, zero, suc, ◌+◌, ◌-◌, ◌≤◌, ◌<◌, ◌&&◌, ◌≡◌, refl, ap, inl, inr, Bool, false, List, [], ◌∷◌, ◌++◌,
  some, length, length-append, arith, Bool-cases, Option-cases, ◌==◌, get_elem?, if◌then◌else◌,
}
use nexide.Prelude.Text.{Text}
use nexide.Image.Glob.{
  close_brace, split_alts, split_brace_alts, Head, globstar, star, any_byte, alternatives, unclosed,
  byte, skip_slash, star_head, brace_head, escape_head, head_of, any_from, star_loop, any_alt,
  match_head, matches_impl, at_segment,
}

-- Every alternative, followed by `after` bytes, has at most `n` bytes.
unfoldable pub AltsFit : ℕ → ℕ → List Text → Type 0
AltsFit n after [] = Unit
AltsFit n after (alt ∷ alts) = (length alt + after ≤ n) × AltsFit n after alts

-- The patterns that a head leaves have at most `n` bytes.
unfoldable pub HeadFits : ℕ → Head → Type 0
unfolding AltsFit
HeadFits n (globstar rest) = length rest ≤ n
HeadFits n (star rest) = length rest ≤ n
HeadFits n (any_byte rest) = length rest ≤ n
HeadFits n (alternatives alts after) = AltsFit n (length after) alts
HeadFits n unclosed = Unit
HeadFits n (byte d rest) = length rest ≤ n

length-close_brace :
    (depth : ℕ) (p inner after : Text)
    → close_brace depth p ≡ some (inner, after)
    → length inner + length after < length p
unfolding close_brace
length-close_brace depth [] inner after h = absurd (ground arith)
length-close_brace depth (c ∷ p) inner after h =
    let depth' = if c == b'{' then suc depth else if c == b'}' then depth - 1 else depth in
    elim (Bool-cases (depth' == 0)) [
      | inl t ↦ ground arith
      | inr f ↦ elim (Option-cases (close_brace depth' p)) [
        | inl n ↦ ground arith
        | inr ((inner', after'), e) ↦
            let ih = length-close_brace depth' p inner' after' e in ground arith
      ]
    ]

split_alts-AltsFit :
    (n after : ℕ) (s : Text) (depth : ℕ) (buf : Text)
    → length buf + length s + after ≤ n
    → AltsFit n after (split_alts depth buf s)
unfolding AltsFit split_alts
split_alts-AltsFit n after [] depth buf h = (omega arith, tt)
split_alts-AltsFit n after (b ∷ s) depth buf h = elim (Bool-cases ((b == b',') && (depth == 0))) [
  | inl t ↦ rw t ((omega arith, split_alts-AltsFit n after s _ [] (omega arith)))
  | inr f ↦ rw f (
      split_alts-AltsFit n after s _ (buf ++ b ∷ []) (omega (arith, length-append buf (b ∷ []), h)))
]

any_alt_cong :
    (f g : Text → Bool) (n after : ℕ) (alts : List Text)
    → AltsFit n after alts
    → ((alt : Text) → length alt + after ≤ n → f alt ≡ g alt)
    → any_alt f alts ≡ any_alt g alts
unfolding AltsFit any_alt
any_alt_cong f g n after [] h same = refl
any_alt_cong f g n after (alt ∷ alts) (fit, fits) same =
    let e = same alt fit in let es = any_alt_cong f g n after alts fits same in ground arith

match_head_cong :
    (n : ℕ) (rec rec' : Text → ℕ → Bool → Bool) (h : Head) (t : Text) (ti : ℕ) (dot at_seg : Bool)
    → HeadFits n h
    → ((p : Text) (i : ℕ) (seg : Bool) → length p ≤ n → rec p i seg ≡ rec' p i seg)
    → match_head rec h t ti dot at_seg ≡ match_head rec' h t ti dot at_seg
unfolding HeadFits match_head
match_head_cong n rec rec' (globstar rest) t ti dot at_seg fit same =
    ap (λ test. any_from test ti (suc (length t) - ti))
      (λ i end. same rest end (at_segment t end) fit i)
match_head_cong n rec rec' (star rest) t ti dot at_seg fit same =
    ap (λ test. star_loop test t ti dot at_seg ti (suc (length t) - ti))
      (λ i end. same rest end false fit i)
match_head_cong n rec rec' (any_byte rest) t ti dot at_seg fit same =
    let e = same rest (suc ti) false fit in ground arith
match_head_cong n rec rec' (alternatives alts after) t ti dot at_seg fit same =
    any_alt_cong _ _ n (length after) alts fit
      (λ alt le. same (alt ++ after) ti at_seg (omega (arith, length-append alt after)))
match_head_cong n rec rec' unclosed t ti dot at_seg fit same = refl
match_head_cong n rec rec' (byte d rest) t ti dot at_seg fit same =
    elim (Option-cases (get_elem? t ti)) [
      | inl m ↦ rw (match_head, m) refl
      | inr (e, at) ↦ let q = same rest (suc ti) (e == b'/') fit in ground arith
    ]

length-skip_slash : (p : Text) → length (skip_slash p) ≤ length p
unfolding skip_slash
length-skip_slash [] = omega arith
length-skip_slash (c ∷ p) = ground arith

star_head-HeadFits : (p : Text) → HeadFits (length p) (star_head p)
unfolding HeadFits star_head
star_head-HeadFits [] = omega arith
star_head-HeadFits (c ∷ p) = elim (Bool-cases (c == b'*')) [
  | inl t ↦ rw t (omega (arith, length-skip_slash p))
  | inr f ↦ rw f (omega arith)
]

brace_head-HeadFits : (p : Text) → HeadFits (length p) (brace_head p)
unfolding HeadFits brace_head split_brace_alts
brace_head-HeadFits p = elim (Option-cases (close_brace 1 p)) [
  | inl n ↦ rw (brace_head, n) tt
  | inr ((inner, after), e) ↦
      rw (brace_head, e)
        (split_alts-AltsFit (length p) (length after) inner 0 []
          (omega (arith, length-close_brace 1 p inner after e)))
]

escape_head-HeadFits : (p : Text) → HeadFits (length p) (escape_head p)
unfolding HeadFits escape_head
escape_head-HeadFits [] = omega arith
escape_head-HeadFits (c ∷ p) = omega arith

head_of-HeadFits : (c : ℕ) (p : Text) → HeadFits (length p) (head_of c p)
unfolding HeadFits head_of
head_of-HeadFits c p = elim (Bool-cases (c == b'*')) [
  | inl t ↦ rw (head_of, t) (star_head-HeadFits p)
  | inr f ↦ elim (Bool-cases (c == b'?')) [
    | inl t ↦ rw (head_of, f, t) (omega arith)
    | inr f' ↦ elim (Bool-cases (c == b'{')) [
      | inl t ↦ rw (head_of, f, f', t) (brace_head-HeadFits p)
      | inr f'' ↦ elim (Bool-cases (c == b'\\')) [
        | inl t ↦ rw (head_of, f, f', f'', t) (escape_head-HeadFits p)
        | inr f''' ↦ rw (head_of, f, f', f'', f''') (omega arith)
      ]
    ]
  ]
]

-- With fuel for the length of the pattern, the matcher's answer does not depend on the fuel: the
-- recursion ends before it is used up.
pub matches_impl_fuel :
    (fuel fuel' : ℕ) (p t : Text) (ti : ℕ) (dot at_seg : Bool)
    → length p ≤ fuel
    → length p ≤ fuel'
    → matches_impl fuel p t ti dot at_seg ≡ matches_impl fuel' p t ti dot at_seg
unfolding matches_impl
matches_impl_fuel fuel fuel' [] t ti dot at_seg le le' = refl
matches_impl_fuel zero fuel' (c ∷ p) t ti dot at_seg le le' = absurd (omega arith)
matches_impl_fuel (suc fuel) zero (c ∷ p) t ti dot at_seg le le' = absurd (omega arith)
matches_impl_fuel (suc fuel) (suc fuel') (c ∷ p) t ti dot at_seg le le' =
    match_head_cong (length p) _ _ (head_of c p) t ti dot at_seg (head_of-HeadFits c p)
      (λ rest i seg fit. matches_impl_fuel fuel fuel' rest t i dot seg (omega arith) (omega arith))

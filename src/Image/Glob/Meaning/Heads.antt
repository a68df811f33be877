-- ===== src/Image/Glob/Meaning/Heads.antt =====
-- What the matcher of Image/Glob reads at the front of a pattern is what stands there.
use mathlib.Core.List.{append_assoc, append-nil}
use mathlib.Core.Path.{subst}
use nexide.Prelude.{
  ℕ, zero, suc, ◌-◌, ◌≡◌, ◌≢◌, ◌⊎◌, refl, sym, ap, ◌∙◌, inl, inr, false, ◌&&◌, List, [], ◌∷◌, ◌++◌,
  some, arith, Bool-cases, Option-cases, ◌==◌, if◌then◌else◌,
}
use nexide.Prelude.Options.{>>=-eq-some, some-inj, ◌>>=◌}
use nexide.Prelude.Text.{Text}
use nexide.Image.Glob.{
  globstar, star, any_byte, alternatives, unclosed, byte, head_of, has_slash, close_brace,
  split_alts, split_brace_alts, skip_slash, star_head, brace_head, escape_head,
}
use nexide.Image.Glob.Meaning.Patterns.{
  Group, First, Later, NoSlash, none_left, next, Glob, two_stars, two_stars_slash, one_star,
  question, group, escaped, backslash, literal, IsListed, here, later, HeadMeaning, skips,
  in_segment, one_byte, one_alt, same_byte, closed,
}

recast : {p q t : Text} → p ≡ q → Glob p t → Glob q t
recast {t = t} e g = subst (λ x. Glob x t) e g

differs : (c d : ℕ) → (c == d) ≡ false → c ≢ d
differs c d h e = absurd (ground arith)

has_slash-NoSlash : (s : Text) → has_slash s ≡ false → NoSlash s
unfolding has_slash
has_slash-NoSlash [] h = none_left
has_slash-NoSlash (c ∷ s) h = next (λ e. absurd (ground arith)) (has_slash-NoSlash s (ground arith))

-- The parts of `**` and of `*`.
globstar_sound :
    (p rest : Text) {t : Text}
    → skip_slash p ≡ rest
    → HeadMeaning (globstar rest) t
    → Glob (b'*' ∷ b'*' ∷ p) t
unfolding skip_slash
globstar_sound [] rest e (skips s g) = two_stars s (λ q e'. absurd (cc)) (recast (sym e) g)
globstar_sound (c ∷ p) rest e (skips s g) = elim (Bool-cases (c == b'/')) [
  | inl t ↦
      let same : c ≡ b'/' = ground arith in
      let left : p ≡ rest = rw (skip_slash, t) at e in
      recast (ap (λ x. b'*' ∷ b'*' ∷ x ∷ p) (sym same)) (two_stars_slash s (recast (sym left) g))
  | inr f ↦
      let left : c ∷ p ≡ rest = rw (skip_slash, f) at e in
      two_stars s (λ q e'. absurd (ground arith)) (recast (sym left) g)
]

star_sound :
    (p rest : Text) {t : Text}
    → ((q : Text) → p ≢ b'*' ∷ q)
    → p ≡ rest
    → HeadMeaning (star rest) t
    → Glob (b'*' ∷ p) t
star_sound p rest no_star e (in_segment s plain g) =
    one_star s no_star (has_slash-NoSlash s plain) (recast (sym e) g)

star_head_sound : (p t : Text) → HeadMeaning (star_head p) t → Glob (b'*' ∷ p) t
unfolding star_head
star_head_sound [] t h = star_sound [] [] (λ q e. absurd (cc)) refl h
star_head_sound (c ∷ p) t h = elim (Bool-cases (c == b'*')) [
  | inl two ↦
      let same : c ≡ b'*' = ground arith in
      recast (ap (λ x. b'*' ∷ x ∷ p) (sym same))
        (globstar_sound p (skip_slash p) refl (rw (star_head, two) at h))
  | inr f ↦ star_sound (c ∷ p) (c ∷ p) (λ q e. absurd (ground arith)) refl (rw (star_head, f) at h)
]

not_zero : (d : ℕ) → (suc d == 0) ≡ false
not_zero d = ground arith

-- One byte of the scan inside a group.
scanned :
    (c k : ℕ) (p inner after : Text)
    → ◌>>=◌ {B = Text × Text} (close_brace k p) (λ r. some (c ∷ r.0, r.1)) ≡ some (inner, after)
    → (inner' : Text) × (c ∷ inner' ≡ inner) × (close_brace k p ≡ some (inner', after))
scanned c k p inner after h =
    let ((inner', after'), e, e') = >>=-eq-some (close_brace k p) _ h in
    let same : ◌≡◌ {A = Text × Text} (c ∷ inner', after') (inner, after) = some-inj e' in
    (inner', ap (λ r. r.0) same, e ∙ ap (λ r. some (inner', r.1)) same)

regroup :
    (depth c d : ℕ) (p inner inner' after : Text)
    → d ≡ c
    → c ∷ inner' ≡ inner
    → Group depth (d ∷ p) (d ∷ inner') after
    → Group depth (c ∷ p) inner after
regroup depth c d p inner inner' after e e' g =
    subst (λ x. Group depth (c ∷ p) x after) e'
      (subst (λ x. Group depth (x ∷ p) (x ∷ inner') after) e g)

closing :
    (depth : ℕ) (p inner after : Text) (c : ℕ)
    → b'}' ≡ c
    → ((d : ℕ) (inner' : Text)
        → depth ≡ suc d
        → close_brace (suc d) p ≡ some (inner', after)
        → Group d p inner' after)
    → (if depth == 0
        then some ([], p)
        else ◌>>=◌ {B = Text × Text} (close_brace depth p) (λ r. some (c ∷ r.0, r.1)))
      ≡ some (inner, after)
    → Group depth (c ∷ p) inner after
closing zero p inner after c e ih h =
    let same : ◌≡◌ {A = Text × Text} ([], p) (inner, after) = some-inj h in
    subst (λ (r : Text × Text). Group 0 (c ∷ p) r.0 r.1) same
      (subst (λ x. Group 0 (x ∷ p) [] p) e closed)
closing (suc d) p inner after c e ih h =
    let (inner', e', found) = scanned c (suc d) p inner after (rw (not_zero d) at h) in
    regroup (suc d) c b'}' p inner inner' after e e' (Group.closes (ih d inner' refl found))

close_brace-Group :
    (depth : ℕ) (p inner after : Text)
    → close_brace (suc depth) p ≡ some (inner, after)
    → Group depth p inner after
unfolding close_brace
close_brace-Group depth [] inner after h = absurd (ground arith)
close_brace-Group depth (c ∷ p) inner after h = elim (Bool-cases (c == b'{')) [
  | inl o ↦
      let (inner', e, found) =
        scanned c (suc (suc depth)) p inner after
          (rw (close_brace, o, not_zero (suc depth)) at h) in
      regroup depth c b'{' p inner inner' after (ground arith) e
        (Group.opens (close_brace-Group (suc depth) p inner' after found))
  | inr n1 ↦ elim (Bool-cases (c == b'}')) [
    | inl o ↦
        let less : suc depth - 1 ≡ depth = omega arith in
        closing depth p inner after c (ground arith)
          (λ d inner' e found. close_brace-Group d p inner' after found)
          (rw (close_brace, n1, o, less) at h)
    | inr n2 ↦
        let (inner', e, found) =
          scanned c (suc depth) p inner after (rw (close_brace, n1, n2, not_zero depth) at h) in
        subst (λ x. Group depth (c ∷ p) x after) e
          (Group.other (differs c b'{' n1) (differs c b'}' n2)
            (close_brace-Group depth p inner' after found))
  ]
]

-- A listed piece, from the byte that the scan is at: its first one, or one behind a comma.
Piece : ℕ → Text → Text → Text → Type 0
Piece depth buf s alt = ((a : Text) × (alt ≡ buf ++ a) × First depth s a) ⊎ Later depth s alt

-- A byte that does not end a piece.
grown :
    (depth below : ℕ) (buf : Text) (c d : ℕ) (s alt : Text)
    → d ≡ c
    → ((a : Text) → First below s a → First depth (d ∷ s) (d ∷ a))
    → (Later below s alt → Later depth (d ∷ s) alt)
    → Piece below (buf ++ c ∷ []) s alt
    → Piece depth buf (c ∷ s) alt
unfolding Piece
grown depth below buf c d s alt e first behind (inl (a, same, f)) = inl (
  c ∷ a,
  same ∙ append_assoc buf (c ∷ []) a,
  subst (λ x. First depth (x ∷ s) (x ∷ a)) e (first a f),
)
grown depth below buf c d s alt e first behind (inr l) =
    inr (subst (λ x. Later depth (x ∷ s) alt) e (behind l))

-- A comma outside of groups.
cut_off :
    (buf s alt : Text) (alts : List Text)
    → (IsListed alt alts → Piece 0 [] s alt)
    → IsListed alt (buf ∷ alts)
    → Piece 0 buf (b',' ∷ s) alt
unfolding Piece
cut_off buf s alt alts ih here = inl ([], sym (append-nil buf), First.comma)
cut_off buf s alt alts ih (later l) = elim (ih l) [
  | inl (a, same, f) ↦ inr (subst (Later 0 (b',' ∷ s)) (sym same) (Later.comma f))
  | inr more ↦ inr (Later.other (λ e. absurd (omega arith)) (λ e. absurd (omega arith)) more)
]

split_alts-Piece :
    (depth : ℕ) (buf s alt : Text) → IsListed alt (split_alts depth buf s) → Piece depth buf s alt
unfolding split_alts Piece
split_alts-Piece depth buf [] alt here = inl ([], sym (append-nil buf), First.all)
split_alts-Piece depth buf [] alt (later l) = elim l [ ]
split_alts-Piece depth buf (c ∷ s) alt h = elim (Bool-cases (c == b'{')) [
  | inl o ↦
      let plain : ((c == b',') && (depth == 0)) ≡ false = ground arith in
      grown depth (suc depth) buf c b'{' s alt (ground arith) (λ a. First.opens) Later.opens
        (split_alts-Piece (suc depth) (buf ++ c ∷ []) s alt (rw (split_alts, plain, o) at h))
  | inr n1 ↦ elim (Bool-cases (c == b'}')) [
    | inl o ↦
        let plain : ((c == b',') && (depth == 0)) ≡ false = ground arith in
        grown depth (depth - 1) buf c b'}' s alt (ground arith) (λ a. First.closes) Later.closes
          (split_alts-Piece (depth - 1) (buf ++ c ∷ []) s alt (rw (split_alts, plain, n1, o) at h))
    | inr n2 ↦ elim (Bool-cases ((c == b',') && (depth == 0))) [
      | inr plain ↦
          let still : (c ≢ b',') ⊎ (depth ≢ 0) = elim (Bool-cases (c == b',')) [
            | inl t ↦ inr (λ e. absurd (ground arith))
            | inr f ↦ inl (differs c b',' f)
          ] in
          grown depth depth buf c c s alt refl
            (λ a. First.other (differs c b'{' n1) (differs c b'}' n2) still)
            (Later.other (differs c b'{' n1) (differs c b'}' n2))
            (split_alts-Piece depth (buf ++ c ∷ []) s alt (rw (split_alts, plain, n1, n2) at h))
      | inl cut ↦
          let outside : 0 ≡ depth = ground arith in
          let comma : b',' ≡ c = ground arith in
          subst (λ k. Piece k buf (c ∷ s) alt) outside
            (subst (λ x. Piece 0 buf (x ∷ s) alt) comma
              (cut_off buf s alt (split_alts depth [] s)
                (λ l.
                  subst (λ k. Piece k [] s alt) (sym outside) (split_alts-Piece depth [] s alt l))
                (rw (split_alts, cut, n1, n2) at h)))
    ]
  ]
]

brace_head_sound : (p t : Text) → HeadMeaning (brace_head p) t → Glob (b'{' ∷ p) t
unfolding brace_head split_brace_alts Piece
brace_head_sound p t h = elim (Option-cases (close_brace 1 p)) [
  | inl n ↦ unclosed_sound (rw (brace_head, n) at h)
  | inr ((inner, after), e) ↦
      alternatives_sound p inner after (close_brace-Group 0 p inner after e)
        (rw (brace_head, e) at h)
]
  where
    unclosed_sound : {t : Text} {q : Text} → HeadMeaning unclosed t → Glob q t
    unclosed_sound h = elim h [ ]

    alternatives_sound :
        (p inner after : Text) {t : Text}
        → Group 0 p inner after
        → HeadMeaning (alternatives (split_alts 0 [] inner) after) t
        → Glob (b'{' ∷ p) t
    alternatives_sound p inner after g (one_alt alt l rest) =
        group alt g
          (elim (split_alts-Piece 0 [] inner alt l) [
            | inl (a, same, f) ↦ inl (subst (First 0 inner) (sym same) f)
            | inr more ↦ inr more
          ])
          rest

byte_sound :
    (c d : ℕ) (p rest : Text)
    → ((t : Text) → Glob rest t → Glob (c ∷ p) (d ∷ t))
    → (t : Text) → HeadMeaning (byte d rest) t
    → Glob (c ∷ p) t
byte_sound c _ p rest k _ (same_byte _ g) = k _ g

question_sound : (p : Text) {t : Text} → HeadMeaning (any_byte p) t → Glob (b'?' ∷ p) t
question_sound p (one_byte d plain g) = question d (differs d b'/' plain) g

escape_head_sound : (p t : Text) → HeadMeaning (escape_head p) t → Glob (b'\\' ∷ p) t
unfolding escape_head
escape_head_sound [] t h = byte_sound b'\\' b'\\' [] [] (λ t. backslash) t h
escape_head_sound (d ∷ p) t h = byte_sound b'\\' d (d ∷ p) p (λ t. escaped d) t h

-- A byte that the matcher reads at the front of a pattern, with what follows.
pub head_of_sound : (c : ℕ) (p t : Text) → HeadMeaning (head_of c p) t → Glob (c ∷ p) t
unfolding head_of
head_of_sound c p t h = elim (Bool-cases (c == b'*')) [
  | inl o ↦ recast (ap (λ x. x ∷ p) (ground arith)) (star_head_sound p t (rw (head_of, o) at h))
  | inr n1 ↦ elim (Bool-cases (c == b'?')) [
    | inl o ↦ recast (ap (λ x. x ∷ p) (ground arith)) (question_sound p (rw (head_of, n1, o) at h))
    | inr n2 ↦ elim (Bool-cases (c == b'{')) [
      | inl o ↦
          recast (ap (λ x. x ∷ p) (ground arith))
            (brace_head_sound p t (rw (head_of, n1, n2, o) at h))
      | inr n3 ↦ elim (Bool-cases (c == b'\\')) [
        | inl o ↦
            recast (ap (λ x. x ∷ p) (ground arith))
              (escape_head_sound p t (rw (head_of, n1, n2, n3, o) at h))
        | inr n4 ↦
            byte_sound c c p p
              (λ t.
                literal c (differs c b'*' n1) (differs c b'?' n2) (differs c b'{' n3)
                  (differs c b'\\' n4))
              t (rw (head_of, n1, n2, n3, n4) at h)
      ]
    ]
  ]
]

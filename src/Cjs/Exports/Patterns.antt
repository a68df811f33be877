-- ===== src/Cjs/Exports/Patterns.antt =====
-- About the patterns of Cjs/Exports, and the parts of a request for a package.
use mathlib.Core.List.{append_assoc}
use nexide.Prelude.{
  ℕ, zero, suc, ◌+◌, ◌-◌, ◌≤◌, ◌≡◌, ◌↔◌, refl, sym, ap, ◌∙◌, true, ◌&&◌, [], ◌∷◌, ◌++◌, some,
  length, take, drop, leb, arith, length-append, take-append-drop,
}
use nexide.Prelude.Text.{Text, text_eq_self, text_eq→eq, starts_with}
use nexide.Prelude.Options.{if-eq-some, some-inj}
use nexide.Cjs.Exports.{ends_with, middle}

drop_append : (xs ys : Text) → drop (length xs) (xs ++ ys) ≡ ys
drop_append [] ys = refl
drop_append (x ∷ xs) ys = drop_append xs ys

take_append : (xs ys : Text) → take (length xs) (xs ++ ys) ≡ xs
take_append [] ys = refl
take_append (x ∷ xs) ys = ap (◌∷◌ x) (take_append xs ys)

drop_nil : (n : ℕ) → drop {A = ℕ} n [] ≡ []
drop_nil zero = refl
drop_nil (suc n) = refl

drop-drop : (m n k : ℕ) (xs : Text) → k ≡ m + n → drop n (drop m xs) ≡ drop k xs
drop-drop zero n k xs h = ap (λ i. drop i xs) (omega arith)
drop-drop (suc m) n k [] h = drop_nil n ∙ sym (drop_nil k)
drop-drop (suc m) n zero (x ∷ xs) h = absurd (omega arith)
drop-drop (suc m) n (suc k) (x ∷ xs) h = drop-drop m n k xs (omega arith)

starts_with_append : (xs ys : Text) → starts_with xs (xs ++ ys) ≡ true
unfolding starts_with
starts_with_append [] ys = refl
starts_with_append (x ∷ xs) ys = ground (arith, starts_with_append xs ys)

starts_with-drop : (xs s : Text) → starts_with xs s ≡ true → s ≡ xs ++ drop (length xs) s
unfolding starts_with
starts_with-drop [] s h = refl
starts_with-drop (x ∷ xs) [] h = absurd (ground arith)
starts_with-drop (x ∷ xs) (c ∷ s) h =
    let same : x ≡ c = ground arith in let rest = starts_with-drop xs s (ground arith) in cc

-- The key in front of its suffix.
suffix-drop :
    (suffix key : Text)
    → ends_with suffix key ≡ true
    → drop (length key - length suffix) key ≡ suffix
unfolding ends_with
suffix-drop suffix key h = text_eq→eq _ suffix (ground arith)

pub middle-eq-some :
    (prefix suffix key m : Text) → middle prefix suffix key ≡ some m → key ≡ prefix ++ (m ++ suffix)
unfolding middle
middle-eq-some prefix suffix key m h =
    let (fits, e) =
      if-eq-some
        (starts_with prefix key
          && ends_with suffix key
          && leb (length prefix + length suffix) (length key))
        _ h in
    let n = length key - length suffix - length prefix in
    let rest = drop (length prefix) key in
    let long : length prefix + length suffix ≤ length key = ground arith in
    let is_m : take n rest ≡ m = some-inj e in
    let is_suffix : drop n rest ≡ suffix =
      drop-drop (length prefix) n (length key - length suffix) key (omega arith)
      ∙ suffix-drop suffix key (ground arith) in
    starts_with-drop prefix key (ground arith)
    ∙ ap (λ t. prefix ++ t)
        (sym (take-append-drop n rest)
          ∙ (ap (λ t. t ++ drop n rest) is_m ∙ ap (λ t. m ++ t) is_suffix))

ends_with_append : (front suffix : Text) → ends_with suffix (front ++ suffix) ≡ true
unfolding ends_with
ends_with_append front suffix =
    let total = length-append front suffix in
    let long : leb (length suffix) (length (front ++ suffix)) ≡ true = ground arith in
    let cut : length (front ++ suffix) - length suffix ≡ length front = omega arith in
    rw (long, cut, drop_append front suffix) (text_eq_self suffix)

middle-append : (prefix suffix m : Text) → middle prefix suffix (prefix ++ (m ++ suffix)) ≡ some m
unfolding middle
middle-append prefix suffix m =
    let total = length-append prefix (m ++ suffix) in
    let behind = length-append m suffix in
    let starts = starts_with_append prefix (m ++ suffix) in
    let ends : ends_with suffix (prefix ++ (m ++ suffix)) ≡ true =
      sym (ap (ends_with suffix) (append_assoc prefix m suffix))
      ∙ ends_with_append (prefix ++ m) suffix in
    let long : leb (length prefix + length suffix) (length (prefix ++ (m ++ suffix))) ≡ true =
      ground arith in
    let cut : length (prefix ++ (m ++ suffix)) - length suffix - length prefix ≡ length m =
      omega arith in
    rw (middle, starts, ends, long, cut, drop_append prefix (m ++ suffix), take_append m suffix)
      refl

-- A key matches a pattern with one star exactly if it is the pattern with some text in place of the
-- star, and this text is the one that the star stands for.
pub middle_iff :
    (prefix suffix key m : Text)
    → (middle prefix suffix key ≡ some m) ↔ (key ≡ prefix ++ (m ++ suffix))
middle_iff prefix suffix key m = (
  middle-eq-some prefix suffix key m,
  λ same. ap (middle prefix suffix) same ∙ middle-append prefix suffix m,
)

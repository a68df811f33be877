-- ===== src/Prelude/Decimal.antt =====
-- Rust's `to_string` and `str::parse` of unsigned integers, on ASCII bytes.
use Prim.Native.Nat.{ℕ, zero, suc, ◌+◌, ◌-◌, ◌*◌, ◌/◌, ◌%◌, ◌≤◌, ◌<◌}
use mathlib.Core.Path.{◌≡◌, refl, sym, ap, ◌∙◌}
use mathlib.Core.Logic.{inl, inr}
use mathlib.Core.Bool.{Bool, true, false, ◌&&◌}
use mathlib.Core.List.{[], ◌∷◌}
use mathlib.Core.Option.{Option, none, some}
use native.Mathlib.Omega.{arith}
use nexide.Prelude.Tests.{◌==◌, leb, ltb, if◌then◌else◌, tests, Bool-cases}
use nexide.Prelude.Text.{Text}

abbrev pub is_digit : ℕ → Bool
is_digit c = leb b'0' c && leb c b'9'

-- The digits of `n` before `acc`; `fuel` bounds their number.
unfoldable pub digits : ℕ → ℕ → Text → Text
digits zero n acc = (b'0' + n % 10) ∷ acc
digits (suc fuel) n acc = elim (ltb n 10) [
  | true ↦ (b'0' + n) ∷ acc
  | false ↦ digits fuel (n / 10) ((b'0' + n % 10) ∷ acc)
]

-- `n.to_string()`
unfoldable pub to_string : ℕ → Text
unfolding digits
to_string n = digits n n []

-- The loop of `parse` below `bound`: an overflow or another byte is an error.
unfoldable pub parse_digits : ℕ → ℕ → Text → Option ℕ
parse_digits bound n [] = some n
parse_digits bound n (c ∷ s) = elim (is_digit c && ltb (n * 10 + (c - b'0')) bound) [
  | true ↦ parse_digits bound (n * 10 + (c - b'0')) s
  | false ↦ none
]

-- `s.parse()` for an unsigned type of `bound` values: a leading `+` is allowed.
unfoldable pub parse : ℕ → Text → Option ℕ
unfolding parse_digits
parse bound [] = none
parse bound (c ∷ []) = parse_digits bound 0 (c ∷ [])
parse bound (c ∷ d ∷ s) =
    if c == b'+' then parse_digits bound 0 (d ∷ s) else parse_digits bound 0 (c ∷ d ∷ s)

parse_digits_digit :
    (bound m d : ℕ) (acc : Text)
    → d < 10
    → m * 10 + d < bound
    → parse_digits bound m ((b'0' + d) ∷ acc) ≡ parse_digits bound (m * 10 + d) acc
unfolding parse_digits
parse_digits_digit bound m d acc lt room =
    let low : leb b'0' (b'0' + d) ≡ true = ground arith in
    let high : leb (b'0' + d) b'9' ≡ true = ground arith in
    let value : b'0' + d - b'0' ≡ d = omega arith in
    let fits : ltb (m * 10 + d) bound ≡ true = ground arith in
    let fits' : ltb (m * 10 + (b'0' + d - b'0')) bound ≡ true = rw value fits in
    rw (parse_digits, low, high, fits') (ap (λ k. parse_digits bound (m * 10 + k) acc) value)

parse_digits-digits :
    (bound fuel n : ℕ) (acc : Text)
    → n ≤ fuel
    → n < bound
    → parse_digits bound 0 (digits fuel n acc) ≡ parse_digits bound n acc
unfolding digits
parse_digits-digits bound zero n acc le lt =
    let nil : n ≡ 0 = omega arith in
    rw nil (parse_digits_digit bound 0 0 acc (omega arith) (omega arith))
parse_digits-digits bound (suc fuel) n acc le lt = elim (Bool-cases (ltb n 10)) [
  | inl t ↦
      rw (digits, t)
        (parse_digits_digit bound 0 n acc (omega (tests, t)) (omega arith)
          ∙ ap (λ k. parse_digits bound k acc) {x = 0 * 10 + n} {y = n} (omega arith))
  | inr f ↦
      let large : 10 ≤ n = ground arith in
      let value : n / 10 * 10 + n % 10 ≡ n = omega arith in
      rw (digits, f)
        (parse_digits-digits bound fuel (n / 10) ((b'0' + n % 10) ∷ acc) (omega arith) (omega arith)
          ∙ parse_digits_digit bound (n / 10) (n % 10) acc (omega arith) (rw value lt)
          ∙ ap (λ k. parse_digits bound k acc) value)
]

-- The digits start with no `+`.
digits_first :
    (fuel n : ℕ) (acc : Text) → (d : ℕ) × (s : Text) × (digits fuel n acc ≡ (b'0' + d) ∷ s)
unfolding digits
digits_first zero n acc = (n % 10, acc, refl)
digits_first (suc fuel) n acc = elim (Bool-cases (ltb n 10)) [
  | inl t ↦ rw (digits, t) ((n, acc, refl))
  | inr f ↦ rw (digits, f) (digits_first fuel (n / 10) ((b'0' + n % 10) ∷ acc))
]

parse_of_digits :
    (bound d : ℕ) (s : Text) → parse bound ((b'0' + d) ∷ s) ≡ parse_digits bound 0 ((b'0' + d) ∷ s)
unfolding parse
parse_of_digits bound d [] = refl
parse_of_digits bound d (c ∷ s) = let ne : ((b'0' + d) == b'+') ≡ false = ground arith in rw ne refl

-- A number below the bound is read back from its decimal digits.
pub parse-to_string : (bound n : ℕ) → n < bound → parse bound (to_string n) ≡ some n
unfolding to_string parse_digits
parse-to_string bound n lt =
    let (d, s, e) = digits_first n n [] in
    ap (parse bound) e
    ∙ parse_of_digits bound d s
    ∙ ap (parse_digits bound 0) (sym e)
    ∙ parse_digits-digits bound n n [] (omega arith) lt

-- The bytes of a number's text are digits.
unfoldable pub IsDigits : Text → Type 0
IsDigits [] = Unit
IsDigits (c ∷ s) = (is_digit c ≡ true) × IsDigits s

digits-IsDigits : (fuel n : ℕ) (acc : Text) → IsDigits acc → IsDigits (digits fuel n acc)
unfolding digits IsDigits
digits-IsDigits zero n acc h = (ground arith, h)
digits-IsDigits (suc fuel) n acc h = elim (Bool-cases (ltb n 10)) [
  | inl t ↦ rw (digits, t) ((ground arith, h))
  | inr f ↦
      rw (digits, f) (digits-IsDigits fuel (n / 10) ((b'0' + n % 10) ∷ acc) ((ground arith, h)))
]

pub to_string-IsDigits : (n : ℕ) → IsDigits (to_string n)
unfolding to_string IsDigits
to_string-IsDigits n = digits-IsDigits n n [] tt

-- ===== src/Image/Params/Validation.antt =====
-- About the image queries of Image/Params: the conditions on an accepted query.
use nexide.Prelude.{
  ℕ, ◌^◌, ◌≤◌, ◌≡◌, ◌↔◌, refl, sym, ◌∙◌, Bool, true, false, not, ◌&&◌, [], ◌∷◌, Option, none, some,
  length, arith, leb, ◌==◌,
}
use nexide.Prelude.Results.{ok, >>=-eq-ok, ok-inj}
use nexide.Prelude.Text.{Text}
use nexide.Prelude.Decimal.{parse}
use nexide.Ops.Request.{is_empty}
use nexide.Image.Config.{ImageConfig, allows_width, allows_quality}
use nexide.Image.Params.{
  ParamError, ValidatedParams, Param, Collected, double_slash, all_digits, check, ok_or, check_url,
  check_width, quality_byte, check_quality, validate, split_on, collect, missing, parse_params,
  url_array, url_required, url_too_long, url_protocol_relative, width_array, width_required,
  width_invalid, width_not_allowed, quality_array, quality_required, quality_invalid,
  quality_not_allowed,
}

-- A `url` parameter that is served.
pub record IsUrl (p : Param) (url : Text) : Type 0 where
  pub once : p.count ≤ 1
  pub value : p.value ≡ some url
  pub present : 1 ≤ length url
  pub short : length url ≤ 3072
  pub absolute : double_slash url ≡ false

-- A parameter of decimal digits for a `u32`.
pub record IsNumber (p : Param) (n : ℕ) : Type 0 where
  pub once : p.count ≤ 1
  pub text : Text
  pub value : p.value ≡ some text
  pub digits : all_digits text ≡ true
  pub present : 1 ≤ length text
  pub number : parse (2 ^ 32) text ≡ some n

pub record IsAcceptable (cfg : ImageConfig) (c : Collected) (v : ValidatedParams) : Type 0 where
  pub url : IsUrl c.url v.url
  pub width : IsNumber c.width v.width
  pub width_positive : 1 ≤ v.width
  pub width_allowed : allows_width cfg v.width ≡ true
  pub quality : IsNumber c.quality v.quality
  pub quality_low : 1 ≤ v.quality
  pub quality_high : v.quality ≤ 100
  pub quality_allowed : allows_quality cfg v.quality ≡ true

check-eq-ok : (e : ParamError) (b : Bool) {u : Unit {0}} → check e b ≡ ok u → b ≡ true
unfolding check
check-eq-ok e true h = refl
check-eq-ok e false h = absurd (ground arith)

ok_or-eq-ok : {A : Type 0} (e : ParamError) (o : Option A) {a : A} → ok_or e o ≡ ok a → o ≡ some a
unfolding ok_or
ok_or-eq-ok e none h = absurd (ground arith)
ok_or-eq-ok e (some a) h = ground arith

present_length : (s : Text) → not (is_empty s) ≡ true → 1 ≤ length s
unfolding is_empty
present_length [] h = absurd (ground arith)
present_length (c ∷ s) h = omega arith

nonempty : (s : Text) → 1 ≤ length s → is_empty s ≡ false
unfolding is_empty
nonempty [] h = absurd (omega arith)
nonempty (c ∷ s) h = refl

quality_byte_small : (n : ℕ) → n ≤ 100 → quality_byte n ≡ n
unfolding quality_byte
quality_byte_small n le = ground arith

-- What the loop of `parse` makes of a query.
unfoldable pub collected : (Text → Text) → Text → Collected
collected lossy query =
    collect lossy (record { url = missing; width = missing; quality = missing })
      (split_on b'&' query)

check_url-IsUrl : (p : Param) (url : Text) → check_url p ≡ ok url → IsUrl p url
unfolding check_url
check_url-IsUrl p url h =
    let (u, once, h1) = >>=-eq-ok (check url_array (leb p.count 1)) _ h in
    let (t, value, h2) = >>=-eq-ok (ok_or url_required p.value) _ h1 in
    let (u2, present, h3) = >>=-eq-ok (check url_required (not (is_empty t))) _ h2 in
    let (u3, short, h4) = >>=-eq-ok (check url_too_long (leb (length t) 3072)) _ h3 in
    let (u4, absolute, h5) = >>=-eq-ok (check url_protocol_relative (not (double_slash t))) _ h4 in
    let same : t ≡ url = ok-inj h5 in
    let once' = check-eq-ok url_array (leb p.count 1) once in
    let short' = check-eq-ok url_too_long (leb (length t) 3072) short in
    let absolute' = check-eq-ok url_protocol_relative (not (double_slash t)) absolute in
    rw (← same) record {
      once = ground arith;
      value = ok_or-eq-ok url_required p.value value;
      present = present_length t (check-eq-ok url_required (not (is_empty t)) present);
      short = ground arith;
      absolute = ground arith;
    }

-- The digits of a number parameter.
text-IsNumber :
    (p : Param) (e : ParamError) (text : Text) (n : ℕ)
    → leb p.count 1 ≡ true
    → p.value ≡ some text
    → (all_digits text && not (is_empty text)) ≡ true
    → parse (2 ^ 32) text ≡ some n
    → IsNumber p n
text-IsNumber p e text n once value digits number = record {
  once = ground arith;
  text = text;
  value = value;
  digits = ground arith;
  present = present_length text (ground arith);
  number = number;
}

check_width-IsNumber :
    (cfg : ImageConfig) (p : Param) (width : ℕ)
    → check_width cfg p ≡ ok width
    → IsNumber p width × (1 ≤ width) × (allows_width cfg width ≡ true)
unfolding check_width
check_width-IsNumber cfg p width h =
    let (u, once, h1) = >>=-eq-ok (check width_array (leb p.count 1)) _ h in
    let (t, value, h2) = >>=-eq-ok (ok_or width_required p.value) _ h1 in
    let digits_test = all_digits t && not (is_empty t) in
    let (u2, digits, h3) = >>=-eq-ok (check width_invalid digits_test) _ h2 in
    let (n, number, h4) = >>=-eq-ok (ok_or width_invalid (parse (2 ^ 32) t)) _ h3 in
    let (u3, positive, h5) = >>=-eq-ok (check width_invalid (not (n == 0))) _ h4 in
    let (u4, allowed, h6) = >>=-eq-ok (check (width_not_allowed n) (allows_width cfg n)) _ h5 in
    let same : n ≡ width = ok-inj h6 in
    let positive' = check-eq-ok width_invalid (not (n == 0)) positive in
    rw (← same) (
      (
        text-IsNumber p width_invalid t n (check-eq-ok width_array (leb p.count 1) once)
            (ok_or-eq-ok width_required p.value value)
            (check-eq-ok width_invalid digits_test digits)
            (ok_or-eq-ok width_invalid (parse (2 ^ 32) t) number),
        ground arith,
        check-eq-ok (width_not_allowed n) (allows_width cfg n) allowed,
      ))

check_quality-IsNumber :
    (cfg : ImageConfig) (p : Param) (quality : ℕ)
    → check_quality cfg p ≡ ok quality
    → IsNumber p quality × (1 ≤ quality) × (quality ≤ 100) × (allows_quality cfg quality ≡ true)
unfolding check_quality
check_quality-IsNumber cfg p quality h =
    let (u, once, h1) = >>=-eq-ok (check quality_array (leb p.count 1)) _ h in
    let (t, value, h2) = >>=-eq-ok (ok_or quality_required p.value) _ h1 in
    let digits_test = all_digits t && not (is_empty t) in
    let (u2, digits, h3) = >>=-eq-ok (check quality_invalid digits_test) _ h2 in
    let (n, number, h4) = >>=-eq-ok (ok_or quality_invalid (parse (2 ^ 32) t)) _ h3 in
    let (u3, range, h5) = >>=-eq-ok (check quality_invalid (leb 1 n && leb n 100)) _ h4 in
    let byte = quality_byte n in
    let (u4, allowed, h6) =
      >>=-eq-ok (check (quality_not_allowed byte) (allows_quality cfg byte)) _ h5 in
    let range' = check-eq-ok quality_invalid (leb 1 n && leb n 100) range in
    let high : n ≤ 100 = ground arith in
    let allowed' = check-eq-ok (quality_not_allowed byte) (allows_quality cfg byte) allowed in
    let same : n ≡ quality = sym (quality_byte_small n high) ∙ ok-inj h6 in
    rw (← same) (
      (
        text-IsNumber p quality_invalid t n (check-eq-ok quality_array (leb p.count 1) once)
            (ok_or-eq-ok quality_required p.value value)
            (check-eq-ok quality_invalid digits_test digits)
            (ok_or-eq-ok quality_invalid (parse (2 ^ 32) t) number),
        ground arith,
        high,
        rw (quality_byte_small n high) at allowed',
      ))

validate-IsAcceptable :
    (cfg : ImageConfig) (c : Collected) (v : ValidatedParams)
    → validate cfg c ≡ ok v
    → IsAcceptable cfg c v
unfolding validate
validate-IsAcceptable cfg c v h =
    let (url, e, h1) = >>=-eq-ok (check_url c.url) _ h in
    let (width, e', h2) = >>=-eq-ok (check_width cfg c.width) _ h1 in
    let (quality, e'', h3) = >>=-eq-ok (check_quality cfg c.quality) _ h2 in
    let (w, wp, wa) = check_width-IsNumber cfg c.width width e' in
    let (q, ql, qh, qa) = check_quality-IsNumber cfg c.quality quality e'' in
    rw (← ok-inj h3) record {
      url = check_url-IsUrl c.url url e;
      width = w;
      width_positive = wp;
      width_allowed = wa;
      quality = q;
      quality_low = ql;
      quality_high = qh;
      quality_allowed = qa;
    }

-- The other way round.
IsUrl-check_url : (p : Param) (url : Text) → IsUrl p url → check_url p ≡ ok url
unfolding check_url
IsUrl-check_url p url r =
    let once : leb p.count 1 ≡ true = let o = r.once in ground arith in
    let short : leb (length url) 3072 ≡ true = let s = r.short in ground arith in
    rw (check_url, check, once, ok_or, r.value, nonempty url r.present, short, r.absolute) refl

IsNumber-check_width :
    (cfg : ImageConfig) (p : Param) (width : ℕ)
    → IsNumber p width
    → 1 ≤ width
    → allows_width cfg width ≡ true
    → check_width cfg p ≡ ok width
unfolding check_width
IsNumber-check_width cfg p width r positive allowed =
    let once : leb p.count 1 ≡ true = let o = r.once in ground arith in
    let nonzero : (width == 0) ≡ false = ground arith in
    rw
      (
        check_width,
        check,
        once,
        ok_or,
        r.value,
        r.digits,
        nonempty r.text r.present,
        r.number,
        nonzero,
        allowed,
      )
      refl

IsNumber-check_quality :
    (cfg : ImageConfig) (p : Param) (quality : ℕ)
    → IsNumber p quality
    → 1 ≤ quality
    → quality ≤ 100
    → allows_quality cfg quality ≡ true
    → check_quality cfg p ≡ ok quality
unfolding check_quality
IsNumber-check_quality cfg p quality r low high allowed =
    let once : leb p.count 1 ≡ true = let o = r.once in ground arith in
    let lo : leb 1 quality ≡ true = ground arith in
    let hi : leb quality 100 ≡ true = ground arith in
    let byte = quality_byte_small quality high in
    rw
      (
        check_quality,
        check,
        once,
        ok_or,
        r.value,
        r.digits,
        nonempty r.text r.present,
        r.number,
        lo,
        hi,
        byte,
        allowed,
      )
      refl

-- For any query and any lossy decoding of bytes to text, `parse` accepts it as `v` exactly if its
-- loop finds a value for each of `url`, `w` and `q` and counts it once at most, and `v` holds these
-- values: a URL of 1 to 3072 bytes that does not start with two slashes, a positive decimal width
-- below 2^32 and a decimal quality of 1 to 100, both allowed by the configuration.
pub parse_params-IsAcceptable :
    (lossy : Text → Text) (query : Text) (cfg : ImageConfig) (v : ValidatedParams)
    → (parse_params lossy query cfg ≡ ok v) ↔ IsAcceptable cfg (collected lossy query) v
unfolding parse_params collected
parse_params-IsAcceptable lossy query cfg v = (
  validate-IsAcceptable cfg (collected lossy query) v,
  λ r.
      rw
        (
          validate,
          IsUrl-check_url _ v.url r.url,
          IsNumber-check_width cfg _ v.width r.width r.width_positive r.width_allowed,
          IsNumber-check_quality cfg _ v.quality r.quality r.quality_low r.quality_high
              r.quality_allowed,
        )
        refl,
)

-- ===== src/Image/Params.antt =====
-- crates/nexide/src/image/handler.rs: the query of an image request (`ValidatedParams::parse`). An
-- error stands for its message; all have the status 400.
pub mod Validation
use nexide.Prelude.{
  ℕ, zero, suc, ◌+◌, ◌-◌, ◌*◌, ◌^◌, ◌≡◌, Bool, true, false, not, ◌&&◌, ◌||◌, List, [], ◌∷◌, ◌++◌,
  Option, none, some, length, ltb, leb, ◌==◌, if◌then◌else◌,
}
use nexide.Prelude.Words.{wrapping_succ}
use nexide.Prelude.Results.{Result, ok, err, ◌>>=◌}
use nexide.Prelude.Text.{Text, text_eq}
use nexide.Prelude.Decimal.{parse, is_digit}
use nexide.Ops.Request.{is_empty}
use nexide.Image.Config.{ImageConfig, allows_width, allows_quality}

pub data ParamError : Type 0 where
  url_array : ParamError
  url_required : ParamError
  url_too_long : ParamError
  url_protocol_relative : ParamError
  width_array : ParamError
  width_required : ParamError
  width_invalid : ParamError
  width_not_allowed : ℕ → ParamError
  quality_array : ParamError
  quality_required : ParamError
  quality_invalid : ParamError
  quality_not_allowed : ℕ → ParamError

pub record ValidatedParams : Type 0 where
  pub url : Text
  pub width : ℕ
  pub quality : ℕ

-- The last value of a parameter and how often it occurs.
pub record Param : Type 0 where
  pub value : Option Text
  pub count : ℕ

pub record Collected : Type 0 where
  pub url : Param
  pub width : Param
  pub quality : Param

unfoldable pub hex_digit : ℕ → Option ℕ
hex_digit b =
    if leb b'0' b && leb b b'9'
    then some (b - b'0')
    else if leb b'a' b && leb b b'f'
    then some (b - b'a' + 10)
    else if leb b'A' b && leb b b'F'
    then some (b - b'A' + 10)
    else none

-- The byte that two hexadecimal digits stand for.
unfoldable pub hex_pair : ℕ → ℕ → Option ℕ
unfolding hex_digit
hex_pair b b' = elim (hex_digit b) [
  | none ↦ none
  | some h ↦ elim (hex_digit b') [ none ↦ none | some l ↦ some (h * 16 + l) ]
]

-- The loop of `percent_decode`, on fuel for its rounds: each takes at least one byte.
unfoldable pub decode_bytes : ℕ → Text → Text
unfolding hex_pair
decode_bytes fuel [] = []
decode_bytes zero (c ∷ s) = []
decode_bytes (suc fuel) (c ∷ s) = elim (c == b'+') [
  | true ↦ b' ' ∷ decode_bytes fuel s
  | false ↦ elim (c == b'%') [
    | false ↦ c ∷ decode_bytes fuel s
    | true ↦ elim s [
      | h ∷ l ∷ rest ↦ elim (hex_pair h l) [
        | none ↦ c ∷ decode_bytes fuel (h ∷ l ∷ rest)
        | some b ↦ b ∷ decode_bytes fuel rest
      ]
      | short ↦ c ∷ decode_bytes fuel short
    ]
  ]
]

-- The pieces between the separators.
unfoldable pub split_on : ℕ → Text → List Text
split_on separator [] = [] ∷ []
split_on separator (c ∷ s) =
    let rest = split_on separator s in
    if c == separator
    then [] ∷ rest
    else elim rest [ [] ↦ (c ∷ []) ∷ [] | piece ∷ pieces ↦ (c ∷ piece) ∷ pieces ]

-- `pair.split_once('=').unwrap_or((pair, ""))`
unfoldable pub key_value : Text → Text × Text
key_value [] = ([], [])
key_value (c ∷ s) =
    let (key, value) = key_value s in if c == b'=' then ([], s) else (c ∷ key, value)

abbrev pub url_key : Text
url_key = b'u' ∷ b'r' ∷ b'l' ∷ []

unfoldable pub seen_again : Param → Text → Param
seen_again p value = record { value = some value; count = wrapping_succ p.count }

module _ (from_utf8_lossy : Text → Text) where
  unfoldable pub percent_decode : Text → Text
  unfolding decode_bytes
  percent_decode input = from_utf8_lossy (decode_bytes (length input) input)

  -- The `match k` of the loop.
  unfoldable pub collect_pair : Collected → Text → Collected
  unfolding key_value percent_decode seen_again
  collect_pair c pair =
      let (key, v) = key_value pair in
      let value = percent_decode v in
      if is_empty pair
      then c
      else if text_eq key url_key
      then record c { url = seen_again c.url value }
      else if text_eq key (b'w' ∷ [])
      then record c { width = seen_again c.width value }
      else if text_eq key (b'q' ∷ [])
      then record c { quality = seen_again c.quality value }
      else c

  unfoldable pub collect : Collected → List Text → Collected
  unfolding collect_pair
  collect c [] = c
  collect c (pair ∷ pairs) = collect (collect_pair c pair) pairs

abbrev pub missing : Param
missing = record { value = none; count = 0 }

unfoldable pub double_slash : Text → Bool
double_slash (c ∷ d ∷ s) = (c == b'/') && (d == b'/')
double_slash _ = false

unfoldable pub all_digits : Text → Bool
all_digits [] = true
all_digits (c ∷ s) = is_digit c && all_digits s

-- `Err(e)` unless the test holds.
unfoldable pub check : ParamError → Bool → Result ParamError (Unit {0})
check e true = ok tt
check e false = err e

-- `value.ok_or(e)`
unfoldable pub ok_or : {A : Type 0} → ParamError → Option A → Result ParamError A
ok_or e none = err e
ok_or e (some a) = ok a

unfoldable pub check_url : Param → Result ParamError Text
unfolding check ok_or double_slash
check_url p = do
  once ← check url_array (leb p.count 1)
  url ← ok_or url_required p.value
  present ← check url_required (not (is_empty url))
  short ← check url_too_long (leb (length url) 3072)
  local ← check url_protocol_relative (not (double_slash url))
  ok url

unfoldable pub check_width : ImageConfig → Param → Result ParamError ℕ
unfolding check ok_or all_digits
check_width cfg p = do
  once ← check width_array (leb p.count 1)
  text ← ok_or width_required p.value
  digits ← check width_invalid (all_digits text && not (is_empty text))
  width ← ok_or width_invalid (parse (2 ^ 32) text)
  positive ← check width_invalid (not (width == 0))
  allowed ← check (width_not_allowed width) (allows_width cfg width)
  ok width

-- `u8::try_from(n).unwrap_or(75)`
unfoldable pub quality_byte : ℕ → ℕ
quality_byte n = if ltb n 256 then n else 75

unfoldable pub check_quality : ImageConfig → Param → Result ParamError ℕ
unfolding check ok_or all_digits quality_byte
check_quality cfg p = do
  once ← check quality_array (leb p.count 1)
  text ← ok_or quality_required p.value
  digits ← check quality_invalid (all_digits text && not (is_empty text))
  number ← ok_or quality_invalid (parse (2 ^ 32) text)
  range ← check quality_invalid (leb 1 number && leb number 100)
  allowed ←
      check (quality_not_allowed (quality_byte number)) (allows_quality cfg (quality_byte number))
  ok (quality_byte number)

-- The tests of `parse` after its loop, in its order.
unfoldable pub validate : ImageConfig → Collected → Result ParamError ValidatedParams
unfolding check_url check_width check_quality
validate cfg c = do
  url ← check_url c.url
  width ← check_width cfg c.width
  quality ← check_quality cfg c.quality
  ok (record { url = url; width = width; quality = quality })

-- `ValidatedParams::parse`
unfoldable pub parse_params : (Text → Text) → Text → ImageConfig → Result ParamError ValidatedParams
unfolding collect split_on validate
parse_params from_utf8_lossy query cfg = validate cfg (
    collect from_utf8_lossy (record { url = missing; width = missing; quality = missing })
      (split_on b'&' query))

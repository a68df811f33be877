-- ===== src/Image/Glob.antt =====
-- crates/nexide/src/image/glob.rs: the glob matcher of the image allowlists, on bytes. A position
-- in the pattern is the rest of the pattern from there on.
pub mod Fuel
pub mod Meaning
use nexide.Prelude.{
  ℕ, zero, suc, ◌+◌, ◌-◌, Bool, true, false, not, ◌&&◌, ◌||◌, List, [], ◌∷◌, ◌++◌, Option, none,
  some, length, get_elem?, take, drop, ◌==◌, if◌then◌else◌,
}
use nexide.Prelude.Options.{◌>>=◌}
use nexide.Prelude.Text.{Text, text_eq}

-- The scan for the end of a brace group from inside it: what stands before and after its `}`.
unfoldable pub close_brace : ℕ → Text → Option (Text × Text)
close_brace depth [] = none
close_brace depth (c ∷ p) =
    let depth' = if c == b'{' then suc depth else if c == b'}' then depth - 1 else depth in
    let rest = close_brace depth' p in
    if depth' == 0 then some ([], p) else (do (inner, after) ← rest; some (c ∷ inner, after))

-- The loop of `split_brace_alts`.
unfoldable pub split_alts : ℕ → Text → Text → List Text
split_alts depth buf [] = buf ∷ []
split_alts depth buf (b ∷ s) =
    let depth' = if b == b'{' then suc depth else if b == b'}' then depth - 1 else depth in
    let cut = (b == b',') && (depth == 0) in
    let rest = split_alts depth' (if cut then [] else buf ++ b ∷ []) s in
    if cut then buf ∷ rest else rest

unfoldable pub split_brace_alts : Text → List Text
unfolding split_alts
split_brace_alts s = split_alts 0 [] s

-- The arms of the `match` on the pattern's first byte, with the pattern that follows.
pub data Head : Type 0 where
  globstar : Text → Head
  star : Text → Head
  any_byte : Text → Head
  alternatives : List Text → Text → Head
  unclosed : Head
  byte : ℕ → Text → Head

-- `if np < p.len() && p[np] == b'/' { np + 1 } else { np }`
unfoldable pub skip_slash : Text → Text
skip_slash [] = []
skip_slash (c ∷ p) = if c == b'/' then p else c ∷ p

unfoldable pub star_head : Text → Head
unfolding skip_slash
star_head [] = star []
star_head (c ∷ p) = if c == b'*' then globstar (skip_slash p) else star (c ∷ p)

unfoldable pub brace_head : Text → Head
unfolding close_brace split_brace_alts
brace_head p = elim (close_brace 1 p) [
  | none ↦ unclosed
  | some (inner, after) ↦ alternatives (split_brace_alts inner) after
]

-- A backslash stands for the byte after it, if there is one.
unfoldable pub escape_head : Text → Head
escape_head [] = byte b'\\' []
escape_head (c ∷ p) = byte c p

unfoldable pub head_of : ℕ → Text → Head
unfolding star_head brace_head escape_head
head_of c p =
    if c == b'*'
    then star_head p
    else if c == b'?'
    then any_byte p
    else if c == b'{'
    then brace_head p
    else if c == b'\\'
    then escape_head p
    else byte c p

unfoldable pub has_slash : Text → Bool
has_slash [] = false
has_slash (c ∷ t) = (c == b'/') || has_slash t

unfoldable pub first_is : ℕ → Text → Bool
first_is d [] = false
first_is d (c ∷ t) = c == d

-- `end == 0 || t.get(end - 1) == Some(&b'/')`
unfoldable pub at_segment : Text → ℕ → Bool
at_segment t zero = true
at_segment t (suc i) = elim (get_elem? t i) [ none ↦ false | some c ↦ c == b'/' ]

-- `for end in from..from + n { if test(end) { return true; } } false`
unfoldable pub any_from : (ℕ → Bool) → ℕ → ℕ → Bool
any_from test from zero = false
any_from test from (suc n) = elim (test from) [ true ↦ true | false ↦ any_from test (suc from) n ]

-- The loop of the `*` arm from `end` on, with `n` rounds left.
unfoldable pub star_loop : (ℕ → Bool) → Text → ℕ → Bool → Bool → ℕ → ℕ → Bool
unfolding has_slash first_is
star_loop test t ti dot at_seg end zero = false
star_loop test t ti dot at_seg end (suc n) =
    let slice = take (end - ti) (drop ti t) in
    elim (has_slash (drop end t) && (end == ti)) [
      | true ↦ star_loop test t ti dot at_seg (suc end) n
      | false ↦ elim (has_slash slice) [
        | true ↦ false
        | false ↦ elim (not dot && at_seg && first_is b'.' slice) [
          | true ↦ star_loop test t ti dot at_seg (suc end) n
          | false ↦ elim (test end) [
            | true ↦ true
            | false ↦ star_loop test t ti dot at_seg (suc end) n
          ]
        ]
      ]
    ]

-- `alts.any(...)`
unfoldable pub any_alt : (Text → Bool) → List Text → Bool
any_alt test [] = false
any_alt test (alt ∷ alts) = elim (test alt) [ true ↦ true | false ↦ any_alt test alts ]

-- The arms of the `match` on the head, with `rec` for the recursive calls: it takes the pattern,
-- the position in the text and `at_seg`.
unfoldable pub match_head : (Text → ℕ → Bool → Bool) → Head → Text → ℕ → Bool → Bool → Bool
unfolding any_from star_loop any_alt at_segment
match_head rec (globstar rest) t ti dot at_seg =
    any_from (λ end. rec rest end (at_segment t end)) ti (suc (length t) - ti)
match_head rec (star rest) t ti dot at_seg =
    star_loop (λ end. rec rest end false) t ti dot at_seg ti (suc (length t) - ti)
match_head rec (any_byte rest) t ti dot at_seg = elim (get_elem? t ti) [
  | none ↦ false
  | some d ↦ elim ((d == b'/') || (not dot && at_seg && (d == b'.'))) [
    | true ↦ false
    | false ↦ rec rest (suc ti) false
  ]
]
match_head rec (alternatives alts after) t ti dot at_seg =
    any_alt (λ alt. rec (alt ++ after) ti at_seg) alts
match_head rec unclosed t ti dot at_seg = false
match_head rec (byte d rest) t ti dot at_seg = elim (get_elem? t ti) [
  | none ↦ false
  | some e ↦ elim (e == d) [ true ↦ rec rest (suc ti) (e == b'/') | false ↦ false ]
]

-- `matches_impl`. Every recursive call has a shorter pattern, so the length of the pattern is fuel
-- enough.
unfoldable pub matches_impl : ℕ → Text → Text → ℕ → Bool → Bool → Bool
unfolding head_of match_head
matches_impl fuel [] t ti dot at_seg = ti == length t
matches_impl zero (c ∷ p) t ti dot at_seg = false
matches_impl (suc fuel) (c ∷ p) t ti dot at_seg =
    match_head (λ rest i seg. matches_impl fuel rest t i dot seg) (head_of c p) t ti dot at_seg

unfoldable pub matches : Text → Text → Bool → Bool
unfolding matches_impl
matches pattern text dot = matches_impl (length pattern) pattern text 0 dot true

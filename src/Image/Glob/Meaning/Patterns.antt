-- ===== src/Image/Glob/Meaning/Patterns.antt =====
-- The texts of a glob pattern, said of the pattern's own bytes, and those of a head that the matcher of
-- Image/Glob has read.
use nexide.Prelude.{ℕ, suc, ◌-◌, ◌≡◌, ◌≢◌, ◌⊎◌, false, List, [], ◌∷◌, ◌++◌, ◌==◌}
use nexide.Prelude.Text.{Text}
use nexide.Image.Glob.{Head, globstar, star, any_byte, alternatives, byte, has_slash}

-- A group from behind its brace on, with a number of inner groups still open: what is in the group,
-- and what follows its closing brace.
pub data Group : ℕ → Text → Text → Text → Type 0 where
  closed : {after : Text} → Group 0 (b'}' ∷ after) [] after
  opens :
      {depth : ℕ} {p inner after : Text}
      → Group (suc depth) p inner after
      → Group depth (b'{' ∷ p) (b'{' ∷ inner) after
  closes :
      {depth : ℕ} {p inner after : Text}
      → Group depth p inner after
      → Group (suc depth) (b'}' ∷ p) (b'}' ∷ inner) after
  other :
      {depth c : ℕ} {p inner after : Text}
      → c ≢ b'{'
      → c ≢ b'}'
      → Group depth p inner after
      → Group depth (c ∷ p) (c ∷ inner) after

-- The text up to the first comma outside of inner groups, or all of it.
pub data First : ℕ → Text → Text → Type 0 where
  all : {depth : ℕ} → First depth [] []
  comma : {s : Text} → First 0 (b',' ∷ s) []
  opens : {depth : ℕ} {s a : Text} → First (suc depth) s a → First depth (b'{' ∷ s) (b'{' ∷ a)
  closes : {depth : ℕ} {s a : Text} → First (depth - 1) s a → First depth (b'}' ∷ s) (b'}' ∷ a)
  other :
      {depth c : ℕ} {s a : Text}
      → c ≢ b'{'
      → c ≢ b'}'
      → ((c ≢ b',') ⊎ (depth ≢ 0))
      → First depth s a
      → First depth (c ∷ s) (c ∷ a)

-- A piece behind such a comma.
pub data Later : ℕ → Text → Text → Type 0 where
  comma : {s a : Text} → First 0 s a → Later 0 (b',' ∷ s) a
  opens : {depth : ℕ} {s a : Text} → Later (suc depth) s a → Later depth (b'{' ∷ s) a
  closes : {depth : ℕ} {s a : Text} → Later (depth - 1) s a → Later depth (b'}' ∷ s) a
  other : {depth c : ℕ} {s a : Text} → c ≢ b'{' → c ≢ b'}' → Later depth s a → Later depth (c ∷ s) a

-- The bytes without a slash.
pub data NoSlash : Text → Type 0 where
  none_left : NoSlash []
  next : {c : ℕ} {s : Text} → c ≢ b'/' → NoSlash s → NoSlash (c ∷ s)

-- The texts of a pattern.
pub data Glob : Text → Text → Type 0 where
  done : Glob [] []
  two_stars :
      {rest t : Text} (s : Text)
      → ((q : Text) → rest ≢ b'/' ∷ q)
      → Glob rest t
      → Glob (b'*' ∷ b'*' ∷ rest) (s ++ t)
  two_stars_slash :
      {rest t : Text} (s : Text) → Glob rest t → Glob (b'*' ∷ b'*' ∷ b'/' ∷ rest) (s ++ t)
  one_star :
      {rest t : Text} (s : Text)
      → ((q : Text) → rest ≢ b'*' ∷ q)
      → NoSlash s
      → Glob rest t
      → Glob (b'*' ∷ rest) (s ++ t)
  question : {rest t : Text} (d : ℕ) → d ≢ b'/' → Glob rest t → Glob (b'?' ∷ rest) (d ∷ t)
  group :
      {p inner after t : Text} (alt : Text)
      → Group 0 p inner after
      → (First 0 inner alt ⊎ Later 0 inner alt)
      → Glob (alt ++ after) t
      → Glob (b'{' ∷ p) t
  escaped : {rest t : Text} (d : ℕ) → Glob rest t → Glob (b'\\' ∷ d ∷ rest) (d ∷ t)
  backslash : {t : Text} → Glob [] t → Glob (b'\\' ∷ []) (b'\\' ∷ t)
  literal :
      {rest t : Text} (d : ℕ)
      → d ≢ b'*'
      → d ≢ b'?'
      → d ≢ b'{'
      → d ≢ b'\\'
      → Glob rest t
      → Glob (d ∷ rest) (d ∷ t)

-- `alt` is one of the list.
pub data IsListed (alt : Text) : List Text → Type 0 where
  here : {alts : List Text} → IsListed alt (alt ∷ alts)
  later : {first : Text} {alts : List Text} → IsListed alt alts → IsListed alt (first ∷ alts)

-- The texts of a head that the matcher has read.
pub data HeadMeaning : Head → Text → Type 0 where
  skips : {rest t : Text} (s : Text) → Glob rest t → HeadMeaning (globstar rest) (s ++ t)
  in_segment :
      {rest t : Text} (s : Text)
      → has_slash s ≡ false
      → Glob rest t
      → HeadMeaning (star rest) (s ++ t)
  one_byte :
      {rest t : Text} (d : ℕ)
      → (d == b'/') ≡ false
      → Glob rest t
      → HeadMeaning (any_byte rest) (d ∷ t)
  one_alt :
      {alts : List Text} {after t : Text} (alt : Text)
      → IsListed alt alts
      → Glob (alt ++ after) t
      → HeadMeaning (alternatives alts after) t
  same_byte : {rest t : Text} (d : ℕ) → Glob rest t → HeadMeaning (byte d rest) (d ∷ t)

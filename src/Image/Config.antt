-- ===== src/Image/Config.antt =====
-- crates/nexide/src/image/config.rs: the image settings that the handler tests.
use nexide.Prelude.{ℕ, Bool, true, false, not, ◌&&◌, ◌||◌, List, [], ◌∷◌, Option, none, some, ◌==◌}
use nexide.Prelude.Text.{Text, text_eq}

pub record ImageConfig : Type 0 where
  pub device_sizes : List ℕ
  pub image_sizes : List ℕ
  pub qualities : Option (List ℕ)
  pub loader : Text
  pub unoptimized : Bool

unfoldable pub contains : List ℕ → ℕ → Bool
contains [] n = false
contains (x ∷ xs) n = (x == n) || contains xs n

unfoldable pub allows_width : ImageConfig → ℕ → Bool
unfolding contains
allows_width cfg width = contains cfg.device_sizes width || contains cfg.image_sizes width

unfoldable pub allows_quality : ImageConfig → ℕ → Bool
unfolding contains
allows_quality cfg quality = elim cfg.qualities [ none ↦ true | some list ↦ contains list quality ]

-- `"default"`
abbrev pub default_loader : Text
default_loader = b'd' ∷ b'e' ∷ b'f' ∷ b'a' ∷ b'u' ∷ b'l' ∷ b't' ∷ []

unfoldable pub route_enabled : ImageConfig → Bool
route_enabled cfg = text_eq cfg.loader default_loader && not cfg.unoptimized

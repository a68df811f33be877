-- ===== src/Image/Output/Size.antt =====
-- The size of a resized image.
use native.Mathlib.Nat.{div-le_of_le-mul, mul-le-mul_right, mod-eq_of_lt}
use nexide.Prelude.{
  ℕ, ◌*◌, ◌/◌, ◌%◌, ◌^◌, ◌≤◌, ◌<◌, ◌≡◌, refl, inl, inr, min, max, false, ◌||◌, some, leb, ◌==◌,
  if◌then◌else◌, arith, Bool-cases,
}
use nexide.Image.Output.{resized}

scaled_le : (width height target : ℕ) → target ≤ width → target * height / width ≤ height
scaled_le width height target le = div-le_of_le-mul width (mul-le-mul_right height le)

-- What `resize` makes of an image with nonzero `u32` dimensions and a positive target width.
pub record IsResized (width height target : ℕ) (size : ℕ × ℕ) : Type 0 where
  pub width_is : size.0 ≡ min target width
  pub positive : 1 ≤ size.1
  pub not_taller : size.1 ≤ height
  pub height_is : size.1 ≡ (if leb width target then height else max (target * height / width) 1)

-- An image with nonzero 32-bit dimensions always gets a size: the smaller of the two widths, and a
-- height of at least one pixel and at most that of the image, which below the image's own width is
-- the height in proportion, rounded down to at least one; the cast to 32 bits loses nothing.
pub resized-IsResized :
    (width height target : ℕ)
    → 1 ≤ width
    → 1 ≤ height
    → height < 2 ^ 32
    → (size : ℕ × ℕ) × (resized width height target ≡ some size)
      × IsResized width height target size
unfolding resized
resized-IsResized width height target w h fits =
    let nonzero : ((width == 0) || (height == 0)) ≡ false = ground arith in
    elim (Bool-cases (leb width target)) [
      | inl t ↦ (
        (width, height),
        rw (resized, nonzero, t) refl,
        record {
          width_is = let le : width ≤ target = ground arith in omega arith;
          positive = h;
          not_taller = omega arith;
          height_is = rw t refl;
        },
      )
      | inr f ↦
          let lt : target < width = ground arith in
          let le = scaled_le width height target (omega arith) in
          let exact : target * height / width % 2 ^ 32 ≡ target * height / width =
            mod-eq_of_lt (omega arith) in
          (
            (target, max (target * height / width % 2 ^ 32) 1),
            rw (resized, nonzero, f) refl,
            record {
              width_is = omega arith;
              positive = omega arith;
              not_taller = omega arith;
              height_is = rw (f, exact) refl;
            },
          )
    ]

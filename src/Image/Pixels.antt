-- ===== src/Image/Pixels.antt =====
-- `checkPixels`: the multiplication of Go's 64-bit integers is exact where the code reaches it.
use goprofile.Prelude.{ℕ, ◌*◌, ◌≤◌, ◌<◌, ◌≡◌, ◌↔◌, none, arith}
use goprofile.Prelude.Int.{ℤ, pos, negsuc, mul64, ◌*ℤ◌}
use goprofile.Domain.Avatar.{max_pixels}
use goprofile.Image.{check_pixels}

product-bound : (a b : ℕ) → a ≤ 20000000 → b ≤ 20000000 → a * b ≤ 400000000000000
product-bound a b h k = grind arith

factor-le : (a b : ℕ) → 0 < b → a ≤ a * b
factor-le a b h = grind arith

-- The product of two numbers within the limit is not wrapped.
mul64-pos : (a b : ℕ) → a ≤ 20000000 → b ≤ 20000000 → mul64 (pos a) (pos b) ≡ pos (a * b)
unfolding mul64 ◌*ℤ◌
mul64-pos a b h k = ground (arith, product-bound a b h k)

-- Both sides are positive, and the exact product is within the limit.
abbrev pub FitsPixels : ℤ → ℤ → Type 0
FitsPixels (pos a) (pos b) = (0 < a) × (0 < b) × (a * b ≤ max_pixels)
FitsPixels _ _ = ⊥

factors-le : (a b : ℕ) → 0 < a → 0 < b → a * b ≤ 20000000 → (a ≤ 20000000) × (b ≤ 20000000)
factors-le a b p q h = grind arith

-- An image is accepted exactly when both sides are positive and their product, as integers without
-- bounds, is at most `max_pixels`.
pub check_pixels_iff : (w h : ℤ) → (check_pixels w h ≡ none) ↔ FitsPixels w h
unfolding check_pixels
check_pixels_iff (pos a) (pos b) = (
  λ e. ground (arith, mul64-pos a b),
  λ (p, q, r). ground (arith, mul64-pos a b, factors-le a b p q r),
)
check_pixels_iff (pos a) (negsuc b) = (λ e. ground arith, λ h. absurd h)
check_pixels_iff (negsuc a) (pos b) = (λ e. ground arith, λ h. absurd h)
check_pixels_iff (negsuc a) (negsuc b) = (λ e. ground arith, λ h. absurd h)

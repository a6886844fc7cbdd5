-- ===== src/Text/Visible.antt =====
-- Trimming leaves strings of visible characters as they are.
use goprofile.Prelude.{ℕ, ◌≤◌, ◌≡◌, refl, Bytes, [], ◌∷◌, All, All-reverse, reverse, arith}
use mathlib.Core.List.{reverse-reverse}
use goprofile.Text.{trim_space, trim_left, trim_back, is_space1, is_space2, is_space3}

-- The visible characters of ASCII.
abbrev pub IsVisible : ℕ → Type 0
IsVisible b = (33 ≤ b) × (b ≤ 126)

pub trim_left-visible : (s : Bytes) → All IsVisible s → trim_left s ≡ s
unfolding trim_left is_space1 is_space2 is_space3
trim_left-visible [] h = refl
trim_left-visible (a ∷ []) h = ground arith
trim_left-visible (a ∷ b ∷ []) h = ground arith
trim_left-visible (a ∷ b ∷ c ∷ s) h = ground arith

pub trim_back-visible : (s : Bytes) → All IsVisible s → trim_back s ≡ s
unfolding trim_back is_space1 is_space2 is_space3
trim_back-visible [] h = refl
trim_back-visible (a ∷ []) h = ground arith
trim_back-visible (a ∷ b ∷ []) h = ground arith
trim_back-visible (a ∷ b ∷ c ∷ s) h = ground arith

pub trim_space-visible : (s : Bytes) → All IsVisible s → trim_space s ≡ s
unfolding trim_space
trim_space-visible s h =
    rw (trim_left-visible s h)
      (rw (trim_back-visible (reverse s) (All-reverse IsVisible s h)) (reverse-reverse s))

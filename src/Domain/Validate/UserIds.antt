-- ===== src/Domain/Validate/UserIds.antt =====
-- What an accepted user id looks like: the checks see it without the white space at its ends, and
-- the service goes on with the id as it was sent.
use goprofile.Prelude.{
  ℕ, ◌≤◌, ◌≡◌, ◌≢◌, refl, inl, inr, Bool-cases, true, false, Bytes, [], ◌∷◌, none, All, All-reverse,
  length, reverse, arith, eq_iff, nat_eq, text_eq,
}
use mathlib.Core.List.{reverse-reverse}
use goprofile.Text.{trim_space, trim_left, has_control, is_space1}
use goprofile.Text.Visible.{IsVisible, trim_left-visible, trim_back-visible, trim_space-visible}
use goprofile.Domain.Validate.{validate_user_id}

-- The bytes of unicode.IsControl below U+0080.
abbrev pub IsPrintable : ℕ → Type 0
IsPrintable b = (32 ≤ b) × (b ≢ 127)

has_control-false : (s : Bytes) → has_control s ≡ false → All IsPrintable s
unfolding has_control
has_control-false [] h = tt
has_control-false (a ∷ []) h = ground arith
has_control-false (a ∷ b ∷ s) h = ground (arith, has_control-false (b ∷ s))

has_control-visible : (s : Bytes) → All IsVisible s → has_control s ≡ false
unfolding has_control
has_control-visible [] h = refl
has_control-visible (a ∷ []) h = ground arith
has_control-visible (a ∷ b ∷ s) (p, h) = ground (arith, has_control-visible (b ∷ s) h)

-- An accepted user id has 1 to 255 bytes without the white space at its ends, none of them a
-- control character of ASCII.
pub validate_user_id_sound :
    (u : Bytes)
    → validate_user_id u ≡ none
    → (trim_space u ≢ []) × (length (trim_space u) ≤ 255) × All IsPrintable (trim_space u)
unfolding validate_user_id
validate_user_id_sound u h = elim (Bool-cases (has_control (trim_space u))) [
  | inl bad ↦ absurd (ground arith)
  | inr good ↦ (
    ground (arith, eq_iff (trim_space u) []),
    ground arith,
    has_control-false (trim_space u) good,
  )
]

-- Every user id of 1 to 255 visible ASCII characters is accepted.
pub validate_user_id_complete :
    (u : Bytes) → u ≢ [] → length u ≤ 255 → All IsVisible u → validate_user_id u ≡ none
unfolding validate_user_id
validate_user_id_complete u n l h =
    rw (trim_space-visible u h) (ground (arith, has_control-visible u h, eq_iff u []))

trim_left-padded : (c : ℕ) (u : Bytes) → 9 ≤ c → c ≤ 13 → All IsVisible u → trim_left (c ∷ u) ≡ u
unfolding trim_left is_space1
trim_left-padded c [] p q h = ground arith
trim_left-padded c (a ∷ []) p q h = ground (arith, trim_left-visible (a ∷ []) h)
trim_left-padded c (a ∷ b ∷ s) p q h = ground (arith, trim_left-visible (a ∷ b ∷ s) h)

trim_space-padded : (c : ℕ) (u : Bytes) → 9 ≤ c → c ≤ 13 → All IsVisible u → trim_space (c ∷ u) ≡ u
unfolding trim_space
trim_space-padded c u p q h =
    rw (trim_left-padded c u p q h)
      (rw (trim_back-visible (reverse u) (All-reverse IsVisible u h)) (reverse-reverse u))

has_control-padded : (c : ℕ) (u : Bytes) → c ≤ 13 → has_control (c ∷ u) ≡ true
unfolding has_control
has_control-padded c [] q = ground arith
has_control-padded c (a ∷ u) q = ground arith

-- A user id of a tab, a line feed or another control character of white space, and 1 to 255 visible
-- ASCII characters behind it, is accepted, though it holds a control character.
pub validate_user_id-padded :
    (c : ℕ) (u : Bytes)
    → 9 ≤ c
    → c ≤ 13
    → u ≢ []
    → length u ≤ 255
    → All IsVisible u
    → (validate_user_id (c ∷ u) ≡ none) × (has_control (c ∷ u) ≡ true)
unfolding validate_user_id
validate_user_id-padded c u p q n l h = (
  rw (trim_space-padded c u p q h) (ground (arith, has_control-visible u h, eq_iff u [])),
  has_control-padded c u q,
)

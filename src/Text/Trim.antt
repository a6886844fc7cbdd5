-- ===== src/Text/Trim.antt =====
-- What trimming, replacing and taking the base name keep of the bytes of a string.
use goprofile.Prelude.{ℕ, ◌≢◌, Bytes, [], ◌∷◌, All, arith, eq_iff, nat_eq}
use goprofile.Text.{trim_byte, replace_all}
use goprofile.Text.Path.{until_slash}

-- Every byte of the result satisfies what every byte of the string does.
module _ (P : ℕ → Type 0) where
  All-trim_byte : (c : ℕ) (s : Bytes) → All P s → All P (trim_byte c s)
  unfolding trim_byte
  All-trim_byte c [] h = tt
  All-trim_byte c (a ∷ s) (p, h) = ground (arith, All-trim_byte c s h)

pub until_slash-NoSlash : (s : Bytes) → All (λ b. b ≢ b'/') (until_slash s)
unfolding until_slash
until_slash-NoSlash [] = tt
until_slash-NoSlash (a ∷ s) = ground (arith, until_slash-NoSlash s, eq_iff a b'/')

-- The byte that is replaced is gone, if it is not put in again, and other bytes stay away.
pub replace_all-ne_old :
    (s : Bytes) (old new : ℕ) → new ≢ old → All (λ b. b ≢ old) (replace_all s old new)
unfolding replace_all
replace_all-ne_old [] old new h = tt
replace_all-ne_old (a ∷ s) old new h = ground (arith, replace_all-ne_old s old new h, eq_iff a old)

pub replace_all-ne :
    (s : Bytes) (old new c : ℕ)
    → new ≢ c
    → All (λ b. b ≢ c) s
    → All (λ b. b ≢ c) (replace_all s old new)
unfolding replace_all
replace_all-ne [] old new c h k = tt
replace_all-ne (a ∷ s) old new c h (p, k) =
    ground (arith, replace_all-ne s old new c h k, eq_iff a old)

-- ===== src/Config/Lists.antt =====
-- The lists of brokers and of origins, which are written with commas between them.
use goprofile.Prelude.{
  ℕ, ◌≡◌, ◌≢◌, refl, ap, ◌∙◌, Bytes, List, [], ◌∷◌, ◌++◌, All, arith, eq_iff, nat_eq, text_eq,
  text_beq, reverse,
}
use mathlib.Core.List.{reverse-cons, append_assoc, append-nil}
use goprofile.Text.{trim_space, split, split_on}
use goprofile.Text.Visible.{IsVisible, trim_space-visible}
use goprofile.Config.{trimmed_parts, split_csv}

-- Entries with commas between them.
abbrev pub join : List Bytes → Bytes
join [] = []
join (x ∷ []) = x
join (x ∷ y ∷ xs) = x ++ b',' ∷ join (y ∷ xs)

-- An entry of visible characters of ASCII, none of them a comma.
pub record IsEntry (x : Bytes) : Type 0 where
  pub nonempty : x ≢ []
  pub visible : All IsVisible x
  pub no_comma : All (λ b. b ≢ b',') x

reverse-shift : (a : ℕ) (cur x : Bytes) → reverse (a ∷ cur) ++ x ≡ reverse cur ++ a ∷ x
reverse-shift a cur x = rw reverse-cons (append_assoc (reverse cur) (a ∷ []) x)

split_on-last :
    (x cur : Bytes) → All (λ b. b ≢ b',') x → split_on b',' cur x ≡ (reverse cur ++ x) ∷ []
unfolding split_on
split_on-last [] cur h = rw (append-nil (reverse cur))
split_on-last (a ∷ x) cur (p, h) =
    ground (arith, split_on-last x (a ∷ cur) h, reverse-shift a cur x)

split_on-comma :
    (x cur rest : Bytes)
    → All (λ b. b ≢ b',') x
    → split_on b',' cur (x ++ b',' ∷ rest) ≡ (reverse cur ++ x) ∷ split_on b',' [] rest
unfolding split_on
split_on-comma [] cur rest h = rw (append-nil (reverse cur))
split_on-comma (a ∷ x) cur rest (p, h) =
    ground (arith, split_on-comma x (a ∷ cur) rest h, reverse-shift a cur x)

trimmed_parts-entry :
    (x : Bytes) (parts : List Bytes)
    → IsEntry x
    → trimmed_parts (x ∷ parts) ≡ x ∷ trimmed_parts parts
unfolding trimmed_parts
trimmed_parts-entry x parts h =
    rw (trim_space-visible x h.visible) (ground (arith, eq_iff x [], h.nonempty))

-- A list of entries that are written with commas between them is read back as it was.
pub split_csv-join : (xs : List Bytes) → All IsEntry xs → split_csv (join xs) ≡ xs
unfolding split_csv split trimmed_parts trim_space text_beq
split_csv-join [] h = refl
split_csv-join (x ∷ []) (p, _) = rw (split_on-last x [] p.no_comma) (trimmed_parts-entry x [] p)
split_csv-join (x ∷ y ∷ xs) (p, h) = rw (split_on-comma x [] (join (y ∷ xs)) p.no_comma) (
    trimmed_parts-entry x (split_on b',' [] (join (y ∷ xs))) p
    ∙ ap (λ rest. x ∷ rest) (split_csv-join (y ∷ xs) h))

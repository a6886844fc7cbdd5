-- ===== src/Services/FileName/Safe.antt =====
-- The file names that are stored.
use goprofile.Prelude.{
  ◌≤◌, ◌<◌, ap, ◌≡◌, ◌≢◌, refl, ◌⊎◌, inl, inr, Bool-cases, Bytes, text, [], ◌∷◌, ◌++◌, All,
  All-take, All-reverse, length, length-take, take, reverse, ltb, arith, eq_iff, ◌==◌, text_eq,
  ◌||◌,
}
use goprofile.Text.{trim_space, trim_byte, replace_all}
use goprofile.Text.Path.{base, last_element, until_slash}
use goprofile.Text.Trim.{until_slash-NoSlash, replace_all-ne_old, replace_all-ne}
use goprofile.Image.{ext_for_mime}
use goprofile.Services.FileName.{clip, sanitize_file_name}

-- A name that names a file of the directory in which it is used, on Unix and on Windows; or "/".
pub record IsSafe (name : Bytes) : Type 0 where
  pub not_empty : name ≢ []
  pub not_dot : name ≢ text "."
  pub not_dots : name ≢ text ".."
  pub fits : length name ≤ 255
  pub no_backslash : All (λ b. b ≢ b'\\') name
  pub no_slash : (name ≡ text "/") ⊎ All (λ b. b ≢ b'/') name

last_element-cases :
    (s : Bytes) → (last_element s ≡ text "/") ⊎ All (λ b. b ≢ b'/') (last_element s)
last_element-cases [] = inl refl
last_element-cases (a ∷ s) = inr (All-reverse _ (until_slash (a ∷ s)) (until_slash-NoSlash (a ∷ s)))

base-cases : (s : Bytes) → (base s ≡ text "/") ⊎ All (λ b. b ≢ b'/') (base s)
unfolding base
base-cases [] = inr (omega arith, tt)
base-cases (a ∷ s) = last_element-cases (trim_byte b'/' (reverse (a ∷ s)))

replaced-cases :
    (s : Bytes)
    → (s ≡ text "/") ⊎ All (λ b. b ≢ b'/') s
    → (replace_all s b'\\' b'_' ≡ text "/") ⊎ All (λ b. b ≢ b'/') (replace_all s b'\\' b'_')
unfolding replace_all
replaced-cases s (inl e) = inl (rw e)
replaced-cases s (inr h) = inr (replace_all-ne s b'\\' b'_' b'/' (omega arith) h)

abbrev Cleaned : Bytes → Type 0
Cleaned s = All (λ b. b ≢ b'\\') s × ((s ≡ text "/") ⊎ All (λ b. b ≢ b'/') s)

cleaned : (name : Bytes) → Cleaned (replace_all (base name) b'\\' b'_')
cleaned name = (
  replace_all-ne_old (base name) b'\\' b'_' (omega arith),
  replaced-cases (base name) (base-cases name),
)

long-IsSafe :
    (s : Bytes)
    → 3 ≤ length s
    → length s ≤ 255
    → All (λ b. b ≢ b'\\') s
    → All (λ b. b ≢ b'/') s
    → IsSafe s
long-IsSafe s long fits h k = record {
  not_empty = λ e. omega (arith, ap (length {0}) e);
  not_dot = λ e. omega (arith, ap (length {0}) e);
  not_dots = λ e. omega (arith, ap (length {0}) e);
  fits = fits;
  no_backslash = h;
  no_slash = inr k;
}

clipped-IsSafe : (s : Bytes) → 255 < length s → Cleaned s → IsSafe (take 255 s)
clipped-IsSafe s long (h, inl e) = absurd (omega (arith, ap (length {0}) e))
clipped-IsSafe s long (h, inr k) =
    let l = length-take 255 s in
    long-IsSafe (take 255 s) (omega arith) (omega arith) (All-take _ 255 s h) (All-take _ 255 s k)

clip-IsSafe : (s : Bytes) → Cleaned s → s ≢ [] → s ≢ text "." → s ≢ text ".." → IsSafe (clip s)
unfolding clip
clip-IsSafe s (h, k) e d dd = elim (Bool-cases (ltb 255 (length s))) [
  | inl long ↦ rw long (clipped-IsSafe s (ground arith) (h, k))
  | inr short ↦ rw short (record {
    not_empty = e;
    not_dot = d;
    not_dots = dd;
    fits = ground arith;
    no_backslash = h;
    no_slash = k;
  })
]

abbrev IsExt : Bytes → Type 0
IsExt ext = (ext ≡ text ".jpg") ⊎ (ext ≡ text ".png") ⊎ (ext ≡ text ".webp") ⊎ (ext ≡ [])

ext_for_mime-IsExt : (mime : Bytes) → IsExt (ext_for_mime mime)
unfolding ext_for_mime
ext_for_mime-IsExt mime = ground arith

default-IsSafe : (ext : Bytes) → IsExt ext → IsSafe (text "avatar" ++ ext)
default-IsSafe ext (inl e) =
    rw e (long-IsSafe (text "avatar.jpg") (omega arith) (omega arith) (omega arith) (omega arith))
default-IsSafe ext (inr (inl e)) =
    rw e (long-IsSafe (text "avatar.png") (omega arith) (omega arith) (omega arith) (omega arith))
default-IsSafe ext (inr (inr (inl e))) =
    rw e (long-IsSafe (text "avatar.webp") (omega arith) (omega arith) (omega arith) (omega arith))
default-IsSafe ext (inr (inr (inr e))) =
    rw e (long-IsSafe (text "avatar") (omega arith) (omega arith) (omega arith) (omega arith))

-- Whatever name a client sends, the name that is stored is not empty and not "." or "..", has at
-- most 255 bytes and no backslash, and has no slash unless it is "/".
pub sanitize_file_name-IsSafe :
    (name mime : Bytes) → IsSafe (sanitize_file_name name (ext_for_mime mime))
unfolding sanitize_file_name
sanitize_file_name-IsSafe name mime =
    let s = replace_all (base (trim_space name)) b'\\' b'_' in
    elim (Bool-cases (s == [] || s == text "." || s == text "..")) [
      | inl poor ↦ rw poor (default-IsSafe (ext_for_mime mime) (ext_for_mime-IsExt mime))
      | inr good ↦ rw good (
          clip-IsSafe s (cleaned (trim_space name)) (ground (arith, eq_iff s []))
            (ground (arith, eq_iff s (text "."))) (ground (arith, eq_iff s (text ".."))))
    ]

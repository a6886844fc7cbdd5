-- ===== src/Domain/Validate/Params.antt =====
-- What the accepted size and format parameters are.
use goprofile.Prelude.{
  ◌≡◌, ◌≢◌, ◌⊎◌, inl, inr, Bytes, text, [], true, Bool-cases, any, arith, eq_iff, ◌==◌, text_eq,
  text_beq,
}
use goprofile.Text.{trim_space, trim_left, trim_back, to_lower}
use goprofile.Result.{ok}
use goprofile.Domain.Avatar.{size_original, size_100, size_300}
use goprofile.Domain.Validate.{
  normalize_size, normalize_format, canonical_format, allowed_sizes, allowed_formats,
}

abbrev pub IsSize : Bytes → Type 0
IsSize s = (s ≡ size_original) ⊎ (s ≡ size_100) ⊎ (s ≡ size_300)

abbrev pub IsFormat : Bytes → Type 0
IsFormat f = (f ≡ []) ⊎ (f ≡ text "jpeg") ⊎ (f ≡ text "png") ⊎ (f ≡ text "webp")

any-sizes : (s : Bytes) → any (λ x. x == s) allowed_sizes ≡ true → IsSize s
unfolding any
any-sizes s h = ground (arith, eq_iff size_original s, eq_iff size_100 s, eq_iff size_300 s)

normalize_size-of_IsSize : (t : Bytes) → IsSize t → normalize_size t ≡ ok t
unfolding normalize_size trim_space to_lower trim_left trim_back any text_beq
normalize_size-of_IsSize t (inl e) = rw e
normalize_size-of_IsSize t (inr (inl e)) = rw e
normalize_size-of_IsSize t (inr (inr e)) = rw e

normalize_size-IsSize : (s t : Bytes) → normalize_size s ≡ ok t → IsSize t
unfolding normalize_size
normalize_size-IsSize s t h = elim (Bool-cases (trim_space (to_lower s) == [])) [
  | inl empty ↦ ground arith
  | inr full ↦ elim (Bool-cases (any (λ x. x == trim_space (to_lower s)) allowed_sizes)) [
    | inl listed ↦ ground (arith, any-sizes (trim_space (to_lower s)) listed)
    | inr other ↦ absurd (ground arith)
  ]
]

-- A size that is accepted becomes one of the three sizes in its canonical spelling, which is
-- accepted again and stays as it is.
normalize_size_idem : (s t : Bytes) → normalize_size s ≡ ok t → IsSize t × (normalize_size t ≡ ok t)
normalize_size_idem s t h =
    let size = normalize_size-IsSize s t h in (size, normalize_size-of_IsSize t size)

any-formats : (f : Bytes) → f ≢ text "jpg" → any (λ x. x == f) allowed_formats ≡ true → IsFormat f
unfolding any
any-formats f n h = ground (
  arith,
  eq_iff (text "jpeg") f,
  eq_iff (text "jpg") f,
  eq_iff (text "png") f,
  eq_iff (text "webp") f,
)

canonical_format-ne : (f : Bytes) → canonical_format f ≢ text "jpg"
unfolding canonical_format text_beq
canonical_format-ne f e = ground (arith, eq_iff f (text "jpg"), eq_iff (text "jpeg") (text "jpg"))

normalize_format-of_IsFormat : (t : Bytes) → IsFormat t → normalize_format t ≡ ok t
unfolding normalize_format canonical_format trim_space to_lower trim_left trim_back any text_beq
normalize_format-of_IsFormat t (inl e) = rw e
normalize_format-of_IsFormat t (inr (inl e)) = rw e
normalize_format-of_IsFormat t (inr (inr (inl e))) = rw e
normalize_format-of_IsFormat t (inr (inr (inr e))) = rw e

normalize_format-IsFormat : (s t : Bytes) → normalize_format s ≡ ok t → IsFormat t
unfolding normalize_format
normalize_format-IsFormat s t h = elim (Bool-cases (trim_space (to_lower s) == [])) [
  | inl empty ↦ ground arith
  | inr full ↦
      let f = canonical_format (trim_space (to_lower s)) in
      elim (Bool-cases (any (λ x. x == f) allowed_formats)) [
        | inl listed ↦
            ground (arith, any-formats f (canonical_format-ne (trim_space (to_lower s))) listed)
        | inr other ↦ absurd (ground arith)
      ]
]

-- A format that is accepted becomes "", jpeg, png or webp, never jpg, and is accepted again as it
-- is.
normalize_format_idem :
    (s t : Bytes) → normalize_format s ≡ ok t → IsFormat t × (normalize_format t ≡ ok t)
normalize_format_idem s t h =
    let format = normalize_format-IsFormat s t h in (format, normalize_format-of_IsFormat t format)

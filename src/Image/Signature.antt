-- ===== src/Image/Signature.antt =====
-- `DetectMIME` against the published signatures of the three formats.
use goprofile.Prelude.{
  ℕ, ◌≤◌, ◌≡◌, ◌↔◌, inl, inr, Bytes, text, [], ◌∷◌, arith, length, take, drop, eq_of_take,
  Bool-cases, eq_iff, ◌&&◌, ltb, ◌==◌, nat_eq, text_eq, text_beq,
}
use mathlib.Core.Path.{subst}
use goprofile.Result.{ok}
use goprofile.Image.{mime_jpeg, mime_png, mime_webp, detect_mime, png_magic, byte_at}

-- The MIME type of data that begins with a signature.
pub data Signature : Bytes → Bytes → Type 0 where
  jpeg : (rest : Bytes) → Signature mime_jpeg (0xFF ∷ 0xD8 ∷ 0xFF ∷ rest)
  png :
      (rest : Bytes)
      → Signature mime_png (0x89 ∷ 0x50 ∷ 0x4E ∷ 0x47 ∷ 0x0D ∷ 0x0A ∷ 0x1A ∷ 0x0A ∷ rest)
  -- RIFF, the size of the file in four bytes, WEBP
  webp :
      (a b c d : ℕ) (rest : Bytes)
      → Signature mime_webp
          (b'R' ∷ b'I' ∷ b'F' ∷ b'F' ∷ a ∷ b ∷ c ∷ d ∷ b'W' ∷ b'E' ∷ b'B' ∷ b'P' ∷ rest)

-- Data of twelve bytes or more that bears a signature has the MIME type of the signature.
detect_mime_of_Signature :
    (mime bytes : Bytes) → Signature mime bytes → 12 ≤ length bytes → detect_mime bytes ≡ ok mime
unfolding detect_mime text_beq
detect_mime_of_Signature mime bytes (jpeg rest) h = ground arith
detect_mime_of_Signature mime bytes (png rest) h = ground arith
detect_mime_of_Signature mime bytes (webp a b c d rest) h = ground arith

jpeg-Signature :
    (bytes : Bytes)
    → byte_at bytes 0 ≡ 0xFF
    → byte_at bytes 1 ≡ 0xD8
    → byte_at bytes 2 ≡ 0xFF
    → Signature mime_jpeg bytes
jpeg-Signature [] p q r = absurd (omega arith)
jpeg-Signature (a ∷ []) p q r = absurd (omega arith)
jpeg-Signature (a ∷ b ∷ []) p q r = absurd (omega arith)
jpeg-Signature (a ∷ b ∷ c ∷ rest) p q r = rw (p, q, r) (jpeg rest)

png-Signature : (bytes : Bytes) → take 8 bytes ≡ png_magic → Signature mime_png bytes
png-Signature bytes e = rw (eq_of_take 8 bytes e) (png (drop 8 bytes))

webp-Signature :
    (bytes : Bytes)
    → 12 ≤ length bytes
    → take 4 bytes ≡ text "RIFF"
    → take 4 (drop 8 bytes) ≡ text "WEBP"
    → Signature mime_webp bytes
webp-Signature (r ∷ i ∷ f ∷ g ∷ a ∷ b ∷ c ∷ d ∷ w ∷ e ∷ x ∷ p ∷ rest) h t u =
    let r' : r ≡ b'R' = cc in
    let i' : i ≡ b'I' = cc in
    let f' : f ≡ b'F' = cc in
    let g' : g ≡ b'F' = cc in
    let w' : w ≡ b'W' = cc in
    let e' : e ≡ b'E' = cc in
    let x' : x ≡ b'B' = cc in
    let p' : p ≡ b'P' = cc in rw (r', i', f', g', w', e', x', p') (webp a b c d rest)
webp-Signature _ h t u = absurd (omega arith)

Signature-of_branches :
    (mime bytes : Bytes) → 12 ≤ length bytes → detect_mime bytes ≡ ok mime → Signature mime bytes
unfolding detect_mime
Signature-of_branches mime bytes h e =
    elim (Bool-cases
      (byte_at bytes 0 == 0xFF && byte_at bytes 1 == 0xD8 && byte_at bytes 2 == 0xFF)) [
        | inl j ↦
            subst (λ m. Signature m bytes) (ground arith)
              (jpeg-Signature bytes (ground arith) (ground arith) (ground arith))
        | inr j ↦ elim (Bool-cases (take 8 bytes == png_magic)) [
          | inl p ↦
              subst (λ m. Signature m bytes) (ground arith) (png-Signature bytes ((eq_iff _ _).0 p))
          | inr p ↦
              elim (Bool-cases
                (take 4 bytes == text "RIFF" && take 4 (drop 8 bytes) == text "WEBP")) [
                  | inl w ↦
                      subst (λ m. Signature m bytes) (ground arith)
                        (webp-Signature bytes h
                          (ground (arith, eq_iff (take 4 bytes) (text "RIFF")))
                          (ground (arith, eq_iff (take 4 (drop 8 bytes)) (text "WEBP"))))
                  | inr w ↦ ground arith
                ]
        ]
      ]

-- Data that is given a MIME type has twelve bytes or more, and bears the signature of that type.
Signature-of_detect_mime :
    (mime bytes : Bytes) → detect_mime bytes ≡ ok mime → (12 ≤ length bytes) × Signature mime bytes
unfolding detect_mime
Signature-of_detect_mime mime bytes e = elim (Bool-cases (ltb (length bytes) 12)) [
  | inl short ↦ ground arith
  | inr long ↦ (ground arith, Signature-of_branches mime bytes (ground arith) e)
]

-- Data is given a MIME type exactly when it has twelve bytes or more and bears the signature of that
-- type.
pub detect_mime_iff :
    (mime bytes : Bytes)
    → (detect_mime bytes ≡ ok mime) ↔ ((12 ≤ length bytes) × Signature mime bytes)
detect_mime_iff mime bytes =
    (Signature-of_detect_mime mime bytes, λ (h, bears). detect_mime_of_Signature mime bytes bears h)

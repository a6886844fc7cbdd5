-- ===== src/Image.antt =====
-- internal/imageutil. The codecs (image, jpeg, png, x/image/webp, nativewebp, imaging) are
-- parameters.
pub mod Signature
pub mod Pixels
use goprofile.Prelude.{
  ℕ, zero, suc, Bool, ◌&&◌, ◌||◌, Bytes, text, [], ◌∷◌, Option, none, some, ltb, length, take, drop,
  if◌then◌else◌, ◌==◌, nat_eq, text_eq,
}
use goprofile.Prelude.Int.{ℤ, pos, mul64, ltb_ℤ, leb_ℤ}
use goprofile.Text.{trim_space, to_lower}
use goprofile.Result.{Result, ok, err}
use goprofile.Domain.Errors.{
  Err, sentinel, wrapped, joined, invalid_file_format, invalid_image, image_too_large,
  invalid_format_param,
}
use goprofile.Domain.Avatar.{max_pixels}

-- What the program uses of the image libraries.
pub record Codec (Image : Type 0) : Type 0 where
  -- image.DecodeConfig: width and height, or none for an error
  pub decode_config : Bytes → Option (ℤ × ℤ)
  -- image.Decode
  pub decode_image : Bytes → Option Image
  -- imaging.Fill with Center and Lanczos
  pub fill : Image → ℕ → ℕ → Image
  -- jpeg.Encode at quality 85, png.Encode and nativewebp.Encode
  pub encode_jpeg : Image → Result Bytes
  pub encode_png : Image → Result Bytes
  pub encode_webp : Image → Result Bytes

abbrev pub mime_jpeg : Bytes
mime_jpeg = text "image/jpeg"

abbrev pub mime_png : Bytes
mime_png = text "image/png"

abbrev pub mime_webp : Bytes
mime_webp = text "image/webp"

pub record Info : Type 0 where
  pub mime : Bytes
  pub ext : Bytes
  pub width : ℤ
  pub height : ℤ

abbrev pub jpeg_magic : Bytes
jpeg_magic = 0xFF ∷ 0xD8 ∷ 0xFF ∷ []

abbrev pub png_magic : Bytes
png_magic = 0x89 ∷ 0x50 ∷ 0x4E ∷ 0x47 ∷ 0x0D ∷ 0x0A ∷ 0x1A ∷ 0x0A ∷ []

-- `data[i]`, behind a test of the length
abbrev pub byte_at : Bytes → ℕ → ℕ
byte_at [] i = 0
byte_at (b ∷ bs) zero = b
byte_at (b ∷ bs) (suc i) = byte_at bs i

unfoldable pub detect_mime : Bytes → Result Bytes
detect_mime bytes =
    if ltb (length bytes) 12
    then err (sentinel invalid_file_format)
    else if byte_at bytes 0 == 0xFF && byte_at bytes 1 == 0xD8 && byte_at bytes 2 == 0xFF
    then ok mime_jpeg
    else if take 8 bytes == png_magic
    then ok mime_png
    else if take 4 bytes == text "RIFF" && take 4 (drop 8 bytes) == text "WEBP"
    then ok mime_webp
    else err (sentinel invalid_file_format)

unfoldable pub ext_for_mime : Bytes → Bytes
ext_for_mime mime =
    if mime == mime_jpeg
    then text ".jpg"
    else if mime == mime_png
    then text ".png"
    else if mime == mime_webp
    then text ".webp"
    else []

unfoldable pub format_from_mime : Bytes → Bytes
format_from_mime mime =
    if mime == mime_jpeg
    then text "jpeg"
    else if mime == mime_png
    then text "png"
    else if mime == mime_webp
    then text "webp"
    else []

unfoldable pub check_pixels : ℤ → ℤ → Option Err
check_pixels w h =
    if leb_ℤ w (pos 0) || leb_ℤ h (pos 0)
    then some (sentinel invalid_image)
    else if ltb_ℤ (pos max_pixels) w
        || ltb_ℤ (pos max_pixels) h
        || ltb_ℤ (pos max_pixels) (mul64 w h)
    then some (sentinel image_too_large)
    else none

infixl 5 ◌>>=◌
abbrev ◌>>=◌ {ℓ κ} : {A : Type ℓ} {B : Type κ} → Result A → (A → Result B) → Result B
ok a >>= f = f a
err e >>= f = err e

abbrev unless {ℓ} : {A : Type ℓ} → Option Err → Result A → Result A
unless none r = r
unless (some e) r = err e

abbrev or_error {ℓ} : {A : Type ℓ} → Option A → Err → Result A
or_error none e = err e
or_error (some a) e = ok a

module _ {Image : Type 0} (codec : Codec Image) where
  -- The text of the codec's error, which `%v` prints, carries no sentinel and is left out.
  abbrev bad_image : Err
  bad_image = wrapped [] (sentinel invalid_image)

  unfoldable pub inspect : Bytes → Result Info
  inspect bytes = do
    mime ← detect_mime bytes
    (w, h) ← or_error (codec.decode_config bytes) (sentinel invalid_image)
    unless (check_pixels w h)
        (ok (record { mime = mime; ext = ext_for_mime mime; width = w; height = h }))

  unfoldable pub decode : Bytes → Result Image
  decode bytes = do
    (w, h) ← or_error (codec.decode_config bytes) bad_image
    unless (check_pixels w h) (or_error (codec.decode_image bytes) bad_image)

  unfoldable pub resize : Image → ℕ → ℕ → Image
  resize src width height = codec.fill src width height

  abbrev tagged : Bytes → Result Bytes → Result (Bytes × Bytes)
  tagged mime r = r >>= λ bytes. ok (bytes, mime)

  unfoldable pub encode : Image → Bytes → Result (Bytes × Bytes)
  encode img format =
      let lower = to_lower (trim_space format) in
      let format' = if lower == text "jpg" then text "jpeg" else lower in
      if format' == text "jpeg" || format' == []
      then tagged mime_jpeg (codec.encode_jpeg img)
      else if format' == text "png"
      then tagged mime_png (codec.encode_png img)
      else if format' == text "webp"
      then tagged mime_webp (codec.encode_webp img)
      else err (sentinel invalid_format_param)

  unfoldable pub convert : Bytes → Bytes → Result (Bytes × Bytes)
  convert bytes format = do img ← decode bytes; encode img format

  unfoldable pub make_thumbnail : Bytes → ℕ → ℕ → Bytes → Result (Bytes × Bytes)
  make_thumbnail bytes width height format = do
    img ← decode bytes
    encode (resize img width height) format

-- ===== src/Tests/Domain.antt =====
-- Runs of the checks of user ids, of parameters, of file names and of images.
use goprofile.Prelude.{
  ◌≤◌, text, [], ◌∷◌, none, some, ◌≡◌, ◌≢◌, ◌↔◌, All, length, arith, true, refl, text_beq, any,
}
use goprofile.Prelude.Int.{pos}
use goprofile.Result.{ok}
use goprofile.Text.{to_lower, trim_space, has_control}
use goprofile.Domain.Validate.{validate_user_id, canonical_format, normalize_size, normalize_format}
use goprofile.Domain.Validate.UserIds.{
  IsPrintable, validate_user_id_sound, validate_user_id_complete, validate_user_id-padded,
}
use goprofile.Services.FileName.{sanitize_file_name}
use goprofile.Services.FileName.Safe.{IsSafe, sanitize_file_name-IsSafe}
use goprofile.Image.{check_pixels, detect_mime, ext_for_mime, mime_jpeg}
use goprofile.Image.Pixels.{FitsPixels, check_pixels_iff}
use goprofile.Image.Signature.{Signature, detect_mime_iff}
use goprofile.Handlers.Health.{Ping, serve_health, serve_health_lem}
use goprofile.Tests.{photo}

ann_lem : validate_user_id (text "ann") ≡ none
ann_lem = validate_user_id_complete (text "ann") (λ e. ground arith) (omega arith) (ground arith)

validate_user_id_sound_example :
    (trim_space (text "ann") ≢ [])
    × (length (trim_space (text "ann")) ≤ 255)
    × All IsPrintable (trim_space (text "ann"))
validate_user_id_sound_example = validate_user_id_sound (text "ann") ann_lem

validate_user_id-padded_example :
    (validate_user_id (9 ∷ text "ann") ≡ none) × (has_control (9 ∷ text "ann") ≡ true)
validate_user_id-padded_example =
    validate_user_id-padded 9 (text "ann") (omega arith) (omega arith) (λ e. ground arith)
      (omega arith) (ground arith)

size_lem : normalize_size (text " 100X100 ") ≡ ok (text "100x100")
unfolding normalize_size text_beq trim_space to_lower any
size_lem = refl

format_lem : normalize_format (text "JPG") ≡ ok (text "jpeg")
unfolding normalize_format text_beq trim_space to_lower any canonical_format
format_lem = refl

sanitize_file_name-IsSafe_example :
    IsSafe (sanitize_file_name (text "..\\a/b.png") (ext_for_mime (text "image/png")))
sanitize_file_name-IsSafe_example =
    sanitize_file_name-IsSafe (text "..\\a/b.png") (text "image/png")

check_pixels_iff_example :
    (check_pixels (pos 5000) (pos 5000) ≡ none) ↔ FitsPixels (pos 5000) (pos 5000)
check_pixels_iff_example = check_pixels_iff (pos 5000) (pos 5000)

detect_mime_iff_example :
    (detect_mime photo ≡ ok mime_jpeg) ↔ ((12 ≤ length photo) × Signature mime_jpeg photo)
detect_mime_iff_example = detect_mime_iff mime_jpeg photo

abbrev all_well : Ping
all_well = some (ok tt)

abbrev absent : Ping
absent = none

serve_health_lem_example :
    ((serve_health all_well absent all_well).status ≡ 200)
    ↔ ((all_well ≡ some (ok tt)) × (absent ≡ some (ok tt)) × (all_well ≡ some (ok tt)))
serve_health_lem_example = serve_health_lem all_well absent all_well

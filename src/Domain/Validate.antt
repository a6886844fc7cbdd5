-- ===== src/Domain/Validate.antt =====
-- internal/domain/validate.go. `validate_user_id` returns nil as `none`.
pub mod UserIds
pub mod Params
use goprofile.Prelude.{
  Bool, true, false, ◌||◌, Bytes, text, List, [], ◌∷◌, Option, none, some, any, length, ltb,
  if◌then◌else◌, ◌==◌, text_eq,
}
use goprofile.Text.{trim_space, to_lower, has_control}
use goprofile.Domain.Errors.{
  Err, sentinel, invalid_user_id, invalid_size_param, invalid_format_param,
}
use goprofile.Domain.Avatar.{size_original, size_100, size_300}
use goprofile.Result.{Result, ok, err}

unfoldable pub validate_user_id : Bytes → Option Err
validate_user_id user_id =
    let trimmed = trim_space user_id in
    if trimmed == [] || ltb 255 (length trimmed)
    then some (sentinel invalid_user_id)
    else if has_control trimmed
    then some (sentinel invalid_user_id)
    else none

-- the keys of `AllowedSizes` and of `AllowedFormats`
abbrev pub allowed_sizes : List Bytes
allowed_sizes = size_original ∷ size_100 ∷ size_300 ∷ []

abbrev pub allowed_formats : List Bytes
allowed_formats = text "jpeg" ∷ text "jpg" ∷ text "png" ∷ text "webp" ∷ []

unfoldable pub normalize_size : Bytes → Result Bytes
normalize_size size =
    let size' = trim_space (to_lower size) in
    if size' == []
    then ok size_original
    else if any (λ s. s == size') allowed_sizes
    then ok size'
    else err (sentinel invalid_size_param)

unfoldable pub canonical_format : Bytes → Bytes
canonical_format format = if format == text "jpg" then text "jpeg" else format

unfoldable pub normalize_format : Bytes → Result Bytes
normalize_format format =
    let format' = trim_space (to_lower format) in
    if format' == []
    then ok []
    else let format'' = canonical_format format' in
      if any (λ f. f == format'') allowed_formats
      then ok format''
      else err (sentinel invalid_format_param)

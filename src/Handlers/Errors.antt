-- ===== src/Handlers/Errors.antt =====
-- `writeJSON`, `writeError` and `toMetadata` of internal/handlers/json.go.
pub mod Laws
use goprofile.Prelude.{ℕ, ◌||◌, Bytes, text, List, [], ◌∷◌, none, some, if◌then◌else◌}
use goprofile.Domain.Errors.{
  Err, is, avatar_not_found, forbidden, invalid_user_id, file_required, file_too_large,
  invalid_file_format, invalid_image, image_too_large, invalid_size_param, invalid_format_param,
}
use goprofile.Domain.Avatar.{Uuid, Avatar, max_file_size, size_100, size_300, thumbnail_key}
use goprofile.Http.{Response, Body, error_json, too_large_json, Metadata, ThumbnailDto}

unfoldable pub write_json : ℕ → Body → Response
write_json status body = record {
  status = status;
  headers = (text "Content-Type", text "application/json") ∷ [];
  body = body;
}

abbrev message : ℕ → Bytes → Response
message status error = write_json status (error_json error none)

abbrev detailed : ℕ → Bytes → Bytes → Response
detailed status error details = write_json status (error_json error (some details))

unfoldable pub write_error : Err → Response
write_error e =
    if is e avatar_not_found
    then message 404 (text "Avatar not found")
    else if is e forbidden
    then detailed 403 (text "Forbidden") (text "You can only delete your own avatars")
    else if is e invalid_user_id
    then detailed 400 (text "Invalid user id") (text "X-User-ID header is required")
    else if is e file_required
    then message 400 (text "file is required")
    else if is e file_too_large
    then write_json 413 (too_large_json (text "File too large") max_file_size)
    else if is e invalid_file_format || is e invalid_image
    then detailed 400 (text "Invalid file format") (text "Supported formats: jpeg, png, webp")
    else if is e image_too_large
    then detailed 400 (text "Image too large") (text "Maximum resolution is 20 megapixels")
    else if is e invalid_size_param
    then detailed 400 (text "Invalid size") (text "Supported values: original, 100x100, 300x300")
    else if is e invalid_format_param
    then detailed 400 (text "Invalid format") (text "Supported values: jpeg, png, webp")
    else message 500 (text "internal server error")

unfoldable pub thumbnails_of : Avatar → (Bytes → Bytes) → List Bytes → List ThumbnailDto
thumbnails_of a url [] = []
thumbnails_of a url (size ∷ sizes) =
    let rest = thumbnails_of a url sizes in
    let (_, found) = thumbnail_key a size in
    if found then record { size = size; url = url size } ∷ rest else rest

-- `id.String()` and the format of the times are parameters.
module _ (uuid_string : Uuid → Bytes) (format_time : ℕ → Bytes) where
  unfoldable pub to_metadata : Avatar → (Bytes → Bytes) → Metadata
  to_metadata a url = record {
    id = uuid_string a.id;
    user_id = a.user_id;
    file_name = a.file_name;
    mime_type = a.mime_type;
    size = a.size_bytes;
    width = a.width;
    height = a.height;
    thumbnails = thumbnails_of a url (size_100 ∷ size_300 ∷ []);
    status = a.processing_status;
    created_at = format_time a.created_at;
    updated_at = format_time a.updated_at;
  }

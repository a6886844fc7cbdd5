-- ===== src/Services/Fetch.antt =====
-- `FetchImage` and `PublicURL` of internal/services/avatar.go.
use goprofile.Prelude.{
  ℕ, ◌/◌, ◌%◌, ◌+◌, ◌-◌, Bool, ◌&&◌, not, Bytes, text, [], ◌∷◌, ◌++◌, take, ltb, if◌then◌else◌,
  ◌==◌, text_eq,
}
use goprofile.Result.{Exec, return, lift, ◌>>=◌}
use goprofile.Domain.Avatar.{Uuid, Avatar, size_original, thumbnail_key}
use goprofile.Domain.Validate.{normalize_size, normalize_format}
use goprofile.Image.{format_from_mime, convert}
use goprofile.Services.Deps.{AvatarService}

pub record ImagePayload : Type 0 where
  pub bytes : Bytes
  pub content_type : Bytes
  pub etag : Bytes

-- hex.EncodeToString
unfoldable pub hex_digit : ℕ → ℕ
hex_digit n = if ltb n 10 then b'0' + n else b'a' + (n - 10)

unfoldable pub hex : Bytes → Bytes
hex [] = []
hex (b ∷ bs) = hex_digit (b / 16) ∷ hex_digit (b % 16) ∷ hex bs

-- The object that holds the image at a normalised size.
abbrev chosen : Bytes → Bytes × Bool → Bytes
chosen original (thumb, found) = if found then thumb else original

unfoldable pub image_key : Avatar → Bytes → Bytes
image_key a size =
    if size == size_original then a.s3_key else chosen a.s3_key (thumbnail_key a size)

-- The format of what was downloaded, by its content type or else by the row.
unfoldable pub current_format : Avatar → Bytes → Bytes
current_format a content_type =
    let current = format_from_mime content_type in
    if current == [] then format_from_mime a.mime_type else current

unfoldable pub needs_conversion : Bytes → Bytes → Bool
needs_conversion format current = not (format == []) && not (format == current)

module _ {S Image : Type 0} (service : AvatarService S Image) where
  open service use {objects, library, public_base}

  unfoldable pub etag_of : Avatar → Bytes → Bytes → Bytes → Bytes
  etag_of a size format bytes =
      let sum =
        library.sha256 (
          library.uuid_string a.id
          ++ text "|"
          ++ size
          ++ text "|"
          ++ format
          ++ text "|"
          ++ bytes) in
      text "\"" ++ hex (take 8 sum) ++ text "\""

  unfoldable pub payload_of : Avatar → Bytes → Bytes → Bytes × Bytes → ImagePayload
  payload_of a size format (bytes, content_type) = record {
    bytes = bytes;
    content_type = content_type;
    etag = etag_of a size format bytes;
  }

  -- From the download on.
  unfoldable pub convert_download : Avatar → Bytes → Bytes → Bytes × Bytes → Exec S ImagePayload
  convert_download a size format (bytes, content_type) =
      if needs_conversion format (current_format a content_type)
      then (do
        converted ← lift (convert library.codec bytes format)
        return (payload_of a size format converted))
      else return (
          payload_of a size format
            (bytes, if content_type == [] then a.mime_type else content_type))

  unfoldable pub fetch_image : Avatar → Bytes → Bytes → Exec S ImagePayload
  fetch_image a size format = do
    size' ← lift (normalize_size size)
    format' ← lift (normalize_format format)
    downloaded ← objects.download (image_key a size')
    convert_download a size' format' downloaded

  unfoldable pub public_url : Uuid → Bytes → Bytes
  public_url id size =
      let u = public_base ++ text "/api/v1/avatars/" ++ library.uuid_string id in
      if not (size == []) && not (size == size_original) then u ++ text "?size=" ++ size else u

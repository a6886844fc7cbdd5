-- ===== src/Http.antt =====
-- Requests and responses, as far as internal/handlers reads and writes them.
use goprofile.Prelude.{ℕ, Bool, Bytes, List, Option}
use goprofile.Prelude.Int.{ℤ}
use goprofile.Domain.Avatar.{ProcessingStatus}

-- `thumbnailDTO` of internal/handlers/json.go
pub record ThumbnailDto : Type 0 where
  pub size : Bytes
  pub url : Bytes

-- `metadataResponse`, its dimensions inline
pub record Metadata : Type 0 where
  pub id : Bytes
  pub user_id : Bytes
  pub file_name : Bytes
  pub mime_type : Bytes
  pub size : ℕ
  pub width : ℤ
  pub height : ℤ
  pub thumbnails : List ThumbnailDto
  pub status : ProcessingStatus
  pub created_at : Bytes
  pub updated_at : Bytes

-- `uploadResponse`
pub record UploadResponse : Type 0 where
  pub id : Bytes
  pub user_id : Bytes
  pub url : Bytes
  pub status : Bytes
  pub created_at : Bytes

-- What a handler encodes: a JSON value, a text, the bytes of an image, or nothing.
pub data Body : Type 0 where
  empty : Body
  -- {"error": …} with or without "details"
  error_json : Bytes → Option Bytes → Body
  -- {"error": …, "max_size": …}
  too_large_json : Bytes → ℕ → Body
  uploaded_json : UploadResponse → Body
  metadata_json : Metadata → Body
  list_json : List Metadata → Body
  -- {"status": …, "components": …}
  health_json : Bytes → List (Bytes × Bytes) → Body
  plain : Bytes → Body
  image : Bytes → Body

pub record Response : Type 0 where
  pub status : ℕ
  pub headers : List (Bytes × Bytes)
  pub body : Body

-- What ParseMultipartForm and FormFile("file") make of a request whose body is cut off at a limit.
pub data Form : Type 0 where
  -- an *http.MaxBytesError, or another error
  over_limit malformed : Form
  -- the value of `user_id`, and the file's name, its bytes, and whether reading it fails
  no_file : Bytes → Form
  with_file : Bytes → Bytes → Bytes → Bool → Form

-- The limit of the body, and that of the memory.
abbrev pub FormReader : Type 0
FormReader = ℤ → ℤ → Form

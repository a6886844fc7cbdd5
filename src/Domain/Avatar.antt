-- ===== src/Domain/Avatar.antt =====
-- internal/domain/avatar.go. A string field that only ever holds one of the package's constants is
-- an enumeration. A `map[string]string` is an association list, its nil map is `none`. The JSON of
-- the thumbnail map is encoding/json's, a parameter.
use goprofile.Prelude.{
  ℕ, ◌*◌, ◌^◌, Bool, true, false, ◌&&◌, not, Bytes, text, List, [], ◌∷◌, ◌++◌, Option, none, some,
  if◌then◌else◌, ◌==◌, text_eq,
}
use goprofile.Prelude.Int.{ℤ}

-- A UUID, as the 128-bit number that it is.
abbrev pub Uuid : Type 0
Uuid = ℕ

pub data UploadStatus : Type 0 where
  uploading stored failed : UploadStatus

pub data ProcessingStatus : Type 0 where
  pending processing completed failed : ProcessingStatus

abbrev pub size_original : Bytes
size_original = text "original"

abbrev pub size_100 : Bytes
size_100 = text "100x100"

abbrev pub size_300 : Bytes
size_300 = text "300x300"

abbrev pub max_file_size : ℕ
max_file_size = 10 * 2 ^ 20

abbrev pub max_pixels : ℕ
max_pixels = 20000000

pub data Kind : Type 0 where
  outbox_upload outbox_delete : Kind
  -- any other text in the column `kind`
  other_kind : Bytes → Kind

pub record OutboxEvent : Type 0 where
  pub id : ℕ
  pub event_id : Bytes
  pub kind : Kind
  pub payload : Bytes

abbrev pub KeyMap : Type 0
KeyMap = List (Bytes × Bytes)

-- The value at a key, and "" with false where there is none.
unfoldable pub map_get : KeyMap → Bytes → Bytes × Bool
map_get [] k = ([], false)
map_get ((j, v) ∷ m) k = if j == k then (v, true) else map_get m k

-- `m[k] = v`
unfoldable pub map_set : KeyMap → Bytes → Bytes → KeyMap
map_set [] key value = (key, value) ∷ []
map_set ((k, v) ∷ rest) key value =
    if k == key then (key, value) ∷ rest else (k, v) ∷ map_set rest key value

pub record Avatar : Type 0 where
  pub id : Uuid
  pub user_id : Bytes
  pub file_name : Bytes
  pub mime_type : Bytes
  pub size_bytes : ℕ
  pub width : ℤ
  pub height : ℤ
  pub s3_key : Bytes
  pub thumbnail_s3_keys : Option KeyMap
  pub upload_status : UploadStatus
  pub processing_status : ProcessingStatus
  pub created_at : ℕ
  pub updated_at : ℕ
  pub deleted_at : Option ℕ

abbrev key_of : Option KeyMap → Bytes → Bytes × Bool
key_of none size = ([], false)
key_of (some keys) size = let (key, found) = map_get keys size in (key, found && not (key == []))

unfoldable pub thumbnail_key : Avatar → Bytes → Bytes × Bool
unfolding map_get
thumbnail_key a size = key_of a.thumbnail_s3_keys size

-- encoding/json on a map of strings: `json.Marshal`, with `none` for an error, and `json.Unmarshal`.
pub record JsonMap : Type 0 where
  pub marshal : KeyMap → Option Bytes
  pub unmarshal : Bytes → Option KeyMap

module _ (json : JsonMap) where
  abbrev or_braces : Option Bytes → Bytes
  or_braces none = text "{}"
  or_braces (some b) = b

  unfoldable pub thumbnail_keys_json : Option KeyMap → Bytes
  thumbnail_keys_json none = text "{}"
  thumbnail_keys_json (some m) = or_braces (json.marshal m)

  abbrev or_empty : Option KeyMap → KeyMap
  or_empty none = []
  or_empty (some m) = m

  unfoldable pub parse_thumbnail_keys : Bytes → KeyMap
  parse_thumbnail_keys [] = []
  parse_thumbnail_keys (b ∷ raw) = or_empty (json.unmarshal (b ∷ raw))

unfoldable pub original_object_key : Bytes → Bytes → Bytes → Bytes
original_object_key user_id avatar_id ext =
    text "originals/" ++ (user_id ++ (text "/" ++ (avatar_id ++ ext)))

unfoldable pub thumbnail_object_key : Bytes → Bytes → Bytes → Bytes
thumbnail_object_key avatar_id size ext =
    text "thumbnails/" ++ (avatar_id ++ (text "/" ++ (size ++ ext)))

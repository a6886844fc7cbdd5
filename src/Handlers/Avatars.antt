-- ===== src/Handlers/Avatars.antt =====
-- internal/handlers/avatar.go. A handler is given what it reads of the request, and answers with
-- one response.
pub mod Laws
use goprofile.Prelude.{
  ℕ, ◌+◌, ◌*◌, true, false, ◌&&◌, not, Bytes, text, [], ◌∷◌, map, take, length, if◌then◌else◌, ◌==◌,
  text_eq,
}
use goprofile.Prelude.Int.{ℤ, pos, pos_part, ltb_ℤ, add64}
use goprofile.Result.{Result, ok, err}
use goprofile.Domain.Errors.{
  sentinel, external, avatar_not_found, forbidden, file_required, file_too_large,
}
use goprofile.Domain.Avatar.{Uuid, Avatar, size_original}
use goprofile.Services.Deps.{AvatarService, effective_max}
use goprofile.Services.Upload.{upload}
use goprofile.Services.Delete.{get, get_latest, list, delete, delete_latest}
use goprofile.Services.Fetch.{ImagePayload, fetch_image, public_url}
use goprofile.Http.{
  Response, empty, uploaded_json, metadata_json, list_json, image, Form, over_limit, malformed,
  no_file, with_file, FormReader,
}
use goprofile.Handlers.Errors.{write_json, write_error, to_metadata}

pub record AvatarHandler (S Image : Type 0) : Type 0 where
  pub svc : AvatarService S Image
  pub max_bytes : ℤ

-- What `writeImage` reads of a request.
pub record ImageRequest : Type 0 where
  pub size : Bytes
  pub format : Bytes
  pub if_none_match : Bytes

module _ {S Image : Type 0} where
  unfoldable pub new_avatar_handler : AvatarService S Image → ℤ → AvatarHandler S Image
  new_avatar_handler svc max_bytes = record { svc = svc; max_bytes = effective_max max_bytes }

-- The bytes of a file through io.LimitReader at one more than the limit
abbrev pub limited : ℤ → Bytes → Bytes
limited max content = take (pos_part (add64 max (pos 1))) content

-- The body may be larger than the file by 512 KiB.
abbrev pub body_limit : ℤ → ℤ
body_limit max = add64 max (pos (512 * 1024))

-- The status line and headers of an answer without a body
abbrev pub bare : ℕ → Response
bare status = record { status = status; headers = []; body = empty }

module _ {S Image : Type 0} (h : AvatarHandler S Image) (format_time : ℕ → Bytes) where
  open h use {svc, max_bytes}

  -- `writeError(w, err)`, or the answer to a value
  abbrev pub answer : {A : Type 0} → (A → Response) → Result A × S → Response × S
  answer f (ok a, s) = (f a, s)
  answer f (err e, s) = (write_error e, s)

  unfoldable pub uploaded : Avatar → Response
  uploaded a = write_json 201 (
      uploaded_json (record {
        id = svc.library.uuid_string a.id;
        user_id = a.user_id;
        url = public_url svc a.id size_original;
        status = text "processing";
        created_at = format_time a.created_at;
      }))

  abbrev pub upload_form : Bytes → Form → S → Response × S
  upload_form user_id over_limit s = (write_error (sentinel file_too_large), s)
  upload_form user_id malformed s = (write_error (sentinel file_required), s)
  upload_form user_id (no_file _) s = (write_error (sentinel file_required), s)
  upload_form user_id (with_file _ name content true) s = (write_error (external 5), s)
  upload_form user_id (with_file _ name content false) s =
      if ltb_ℤ max_bytes (pos (length (limited max_bytes content)))
      then (write_error (sentinel file_too_large), s)
      else answer uploaded (upload svc user_id name (limited max_bytes content) s)

  unfoldable pub upload_handler : Bytes → FormReader → S → Response × S
  upload_handler user_id form s = upload_form user_id (form (body_limit max_bytes) max_bytes) s

  unfoldable pub image_answer : ImageRequest → ImagePayload → Response
  image_answer r payload =
      if not (r.if_none_match == []) && r.if_none_match == payload.etag then bare 304 else record {
        status = 200;
        headers =
            (text "Content-Type", payload.content_type)
            ∷ (text "Cache-Control", text "max-age=86400")
            ∷ (text "ETag", payload.etag)
            ∷ [];
        body = image payload.bytes;
      }

  unfoldable pub write_image : ImageRequest → Avatar → S → Response × S
  write_image r a s = answer (image_answer r) (fetch_image svc a r.size r.format s)

  abbrev pub with_avatar : (Avatar → S → Response × S) → Result Avatar × S → Response × S
  with_avatar k (ok a, s) = k a s
  with_avatar k (err e, s) = (write_error e, s)

  abbrev pub with_id : (Uuid → S → Response × S) → Result Uuid → S → Response × S
  with_id k (ok id) s = k id s
  with_id k (err _) s = (write_error (sentinel avatar_not_found), s)

  unfoldable pub get_by_id_handler : Bytes → ImageRequest → S → Response × S
  get_by_id_handler raw r =
      with_id (λ id s. with_avatar (write_image r) (get svc id s)) (svc.library.uuid_parse raw)

  unfoldable pub get_by_user_handler : Bytes → ImageRequest → S → Response × S
  get_by_user_handler user_id r s = with_avatar (write_image r) (get_latest svc user_id s)

  abbrev pub metadata_of : Avatar → Response
  metadata_of a =
      write_json 200
        (metadata_json (to_metadata svc.library.uuid_string format_time a (public_url svc a.id)))

  unfoldable pub metadata_handler : Bytes → S → Response × S
  metadata_handler raw =
      with_id (λ id s. answer metadata_of (get svc id s)) (svc.library.uuid_parse raw)

  unfoldable pub list_by_user_handler : Bytes → S → Response × S
  list_by_user_handler user_id s =
      answer
        (λ items. write_json 200 (
          list_json (
            map (λ a. to_metadata svc.library.uuid_string format_time a (public_url svc a.id))
              items)))
        (list svc user_id s)

  unfoldable pub delete_by_id_handler : Bytes → Bytes → S → Response × S
  delete_by_id_handler user_id raw =
      with_id (λ id s. answer (λ _. bare 204) (delete svc id user_id s))
        (svc.library.uuid_parse raw)

  -- The user of the header, and the one of the path.
  unfoldable pub delete_by_user_handler : Bytes → Bytes → S → Response × S
  delete_by_user_handler user_id target s =
      if user_id == target
      then answer (λ _. bare 204) (delete_latest svc user_id s)
      else (write_error (sentinel forbidden), s)

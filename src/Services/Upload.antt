-- ===== src/Services/Upload.antt =====
-- `NewAvatarService`'s uploads: `Upload` and `upload` of internal/services/avatar.go.
pub mod Outcome
use goprofile.Prelude.{
  ℕ, ◌-◌, Bytes, List, [], ◌∷◌, Option, none, some, length, if◌then◌else◌, ◌==◌, nat_eq,
}
use goprofile.Prelude.Int.{pos, ltb_ℤ}
use goprofile.Result.{
  Result, ok, err, Exec, return, fail, lift, gets, attempt, modify, unless_error, ◌>>=◌, ◌>>◌,
  ◌or_undo◌,
}
use goprofile.Domain.Errors.{sentinel, file_required, file_too_large}
use goprofile.Domain.Avatar.{
  Uuid, Avatar, stored, pending, OutboxEvent, outbox_upload, original_object_key,
}
use goprofile.Domain.Events.{AvatarUploadEvent, upload_event_id}
use goprofile.Domain.Validate.{validate_user_id}
use goprofile.Image.{Info, inspect}
use goprofile.Services.Deps.{
  AvatarService, Library, Runtime, status_of, uploads_total, upload_duration, storage_add,
}
use goprofile.Services.FileName.{sanitize_file_name}
use goprofile.Services.Outbox.{new_outbox_event}

module _ {Image : Type 0} (library : Library Image) where
  -- The row that `upload` builds.
  unfoldable pub new_avatar : Uuid → ℕ → Bytes → Bytes → Bytes → Info → Avatar
  new_avatar id now user_id file_name bytes info = record {
    id = id;
    user_id = user_id;
    file_name = sanitize_file_name file_name info.ext;
    mime_type = info.mime;
    size_bytes = length bytes;
    width = info.width;
    height = info.height;
    s3_key = original_object_key user_id (library.uuid_string id) info.ext;
    thumbnail_s3_keys = some [];
    upload_status = stored;
    processing_status = pending;
    created_at = now;
    updated_at = now;
    deleted_at = none;
  }

  unfoldable pub upload_event : Avatar → AvatarUploadEvent
  upload_event a = record {
    event_id = upload_event_id (library.uuid_string a.id);
    avatar_id = library.uuid_string a.id;
    user_id = a.user_id;
    s3_key = a.s3_key;
  }

  unfoldable pub upload_outbox_event : Avatar → Result OutboxEvent
  upload_outbox_event a =
      let event = upload_event a in
      new_outbox_event outbox_upload event.event_id (library.marshal_upload event)

module _ {S Image : Type 0} (service : AvatarService S Image) where
  open service use {repo, objects, runtime, library, max_bytes}

  -- From the object store's upload on.
  unfoldable pub store_avatar : Avatar → Bytes → Exec S Avatar
  store_avatar avatar bytes = do
    objects.upload avatar.s3_key avatar.mime_type bytes
    ev ← ◌or_undo◌ (lift (upload_outbox_event library avatar)) (objects.delete (avatar.s3_key ∷ []))
    ◌or_undo◌ (repo.create_with_outbox avatar ev) (objects.delete (avatar.s3_key ∷ []))
    return avatar

  -- Behind the checks, with the image's properties.
  unfoldable pub upload_inspected : Bytes → Bytes → Bytes → Info → Exec S Avatar
  upload_inspected user_id file_name bytes info = do
    now ← gets runtime.clock
    id ← λ s. let (fresh, s') = runtime.new_uuid s in (ok fresh, s')
    store_avatar (new_avatar library id now user_id file_name bytes info) bytes

  unfoldable pub upload_checked : Bytes → Bytes → Bytes → Exec S Avatar
  upload_checked user_id file_name bytes = unless_error (validate_user_id user_id) (
      if length bytes == 0
      then fail (sentinel file_required)
      else if ltb_ℤ max_bytes (pos (length bytes))
      then fail (sentinel file_too_large)
      else do
        info ← lift (inspect library.codec bytes)
        upload_inspected user_id file_name bytes info)

  unfoldable pub upload : Bytes → Bytes → Bytes → Exec S Avatar
  upload user_id file_name bytes = do
    start ← gets runtime.clock
    result ← attempt (upload_checked user_id file_name bytes)
    modify (runtime.observe (uploads_total (status_of result)))
    stop ← gets runtime.clock
    modify (runtime.observe (upload_duration (status_of result) (stop - start)))
    avatar ← lift result
    modify (runtime.observe (storage_add avatar.size_bytes))
    return avatar

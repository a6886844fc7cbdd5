-- ===== src/Services/Process.antt =====
-- `ProcessUpload`, `processUpload` and `RecoverStuck` of internal/services/avatar.go.
pub mod Outcome
use goprofile.Prelude.{
  ℕ, Bool, true, false, Bytes, text, List, [], ◌∷◌, Option, none, some, if◌then◌else◌, ◌==◌,
  text_eq,
}
use goprofile.Prelude.Int.{pos}
use goprofile.Result.{
  Result, ok, err, Exec, return, fail, lift, attempt, ignore, modify, error, first_of, or_first,
  ◌>>=◌, ◌>>◌, ◌or_undo◌,
}
use goprofile.Domain.Errors.{Err, avatar_not_found, is, permanent, wrapped}
use goprofile.Domain.Avatar.{
  Uuid, Avatar, ProcessingStatus, pending, processing, completed, failed, KeyMap, map_set, size_100,
  size_300, thumbnail_object_key,
}
use goprofile.Domain.Events.{AvatarUploadEvent, upload_event_id}
use goprofile.Image.{Info, inspect, make_thumbnail, format_from_mime, ext_for_mime}
use goprofile.Services.Deps.{AvatarService, status_of, processed_total}

abbrev is_completed : ProcessingStatus → Bool
is_completed completed = true
is_completed _ = false

-- The sizes of the loop, with their widths and heights.
abbrev pub specs : List (Bytes × ℕ × ℕ)
specs = (size_100, 100, 100) ∷ (size_300, 300, 300) ∷ []

module _ {S Image : Type 0} (service : AvatarService S Image) where
  open service use {repo, objects, runtime, library}

  -- One round of the loop over the sizes: the key of the thumbnail.
  unfoldable pub store_thumbnail : Uuid → Bytes → Bytes → Info → Bytes × ℕ × ℕ → Exec S Bytes
  store_thumbnail id avatar_id bytes info (size, w, h) = do
    (body, mime) ←
        ◌or_undo◌ (lift (make_thumbnail library.codec bytes w h (format_from_mime info.mime)))
          (repo.fail_processing id)
    let key = thumbnail_object_key avatar_id size (ext_for_mime mime)
    ◌or_undo◌ (objects.upload key mime body) (repo.fail_processing id)
    return key

  unfoldable pub store_thumbnails :
      Uuid → Bytes → Bytes → Info → List (Bytes × ℕ × ℕ) → KeyMap → Exec S KeyMap
  store_thumbnails id avatar_id bytes info [] thumbs = return thumbs
  store_thumbnails id avatar_id bytes info ((size, w, h) ∷ more) thumbs = do
    key ← store_thumbnail id avatar_id bytes info (size, w, h)
    store_thumbnails id avatar_id bytes info more (map_set thumbs size key)

  -- Behind the download. An image that cannot be read is no error of the message.
  abbrev pub process_image : Uuid → Bytes → Bytes → Result Info → Exec S (Unit {0})
  process_image id avatar_id bytes (err _) = do ignore (repo.fail_processing id); return tt
  process_image id avatar_id bytes (ok info) = do
    thumbs ← store_thumbnails id avatar_id bytes info specs []
    repo.complete_processing id (some thumbs) info.width info.height

  -- Behind the claim of the row.
  unfoldable pub process_claimed : Uuid → Bytes → Bytes → Exec S (Unit {0})
  process_claimed id avatar_id s3_key = do
    (bytes, _) ← ◌or_undo◌ (objects.download s3_key) (repo.fail_processing id)
    process_image id avatar_id bytes (inspect library.codec bytes)

  -- Behind the lookup of the row.
  unfoldable pub process_found : AvatarUploadEvent → Uuid → Avatar → Exec S (Unit {0})
  process_found event id avatar = if is_completed avatar.processing_status then return tt else (do
    let key = if event.s3_key == [] then avatar.s3_key else event.s3_key
    claimed ← repo.mark_processing id
    if claimed then process_claimed id event.avatar_id key else return tt)

  -- A row that is not found is no error.
  abbrev pub looked_up : AvatarUploadEvent → Uuid → Result Avatar → Exec S (Unit {0})
  looked_up event id (ok avatar) = process_found event id avatar
  looked_up event id (err e) = if is e avatar_not_found then return tt else fail e

  abbrev pub parsed : AvatarUploadEvent → Result Uuid → Exec S (Unit {0})
  parsed event (err e) = fail (permanent (wrapped (text "invalid avatar_id") e))
  parsed event (ok id) = do found ← attempt (repo.get_by_id id); looked_up event id found

  unfoldable pub process_upload_event : AvatarUploadEvent → Exec S (Unit {0})
  process_upload_event event = parsed event (library.uuid_parse event.avatar_id)

  unfoldable pub process_upload : AvatarUploadEvent → Exec S (Unit {0})
  process_upload event = do
    result ← attempt (process_upload_event event)
    modify (runtime.observe (processed_total (text "upload") (status_of result)))
    lift result

  -- The event that `RecoverStuck` makes of a row.
  unfoldable pub recovery_event : Avatar → AvatarUploadEvent
  recovery_event a = record {
    event_id = upload_event_id (library.uuid_string a.id);
    avatar_id = library.uuid_string a.id;
    user_id = a.user_id;
    s3_key = a.s3_key;
  }

  unfoldable pub recover_items : List Avatar → Option Err → S → Option Err × S
  recover_items [] first s = (first, s)
  recover_items (a ∷ items) first s =
      let (r, s') = process_upload (recovery_event a) s in
      recover_items items (first_of first (error r)) s'

  unfoldable pub recover_stuck : Exec S (Unit {0})
  recover_stuck = do
    items ← repo.list_stuck_uploads (pos 20)
    λ s. let (first, s') = recover_items items none s in (or_first first, s')

-- ===== src/Services/Delete.antt =====
-- Reads and deletions of internal/services/avatar.go: `Get`, `GetLatest`, `List`, `Delete`,
-- `delete`, `DeleteLatest` and `ProcessDelete`.
use goprofile.Prelude.{Bytes, text, List, if◌then◌else◌, ◌==◌, text_eq}
use goprofile.Result.{Exec, fail, lift, attempt, modify, unless_error, ◌>>=◌, ◌>>◌}
use goprofile.Domain.Errors.{sentinel, forbidden}
use goprofile.Domain.Avatar.{Uuid, Avatar}
use goprofile.Domain.Events.{AvatarDeleteEvent}
use goprofile.Domain.Validate.{validate_user_id}
use goprofile.Services.Deps.{AvatarService, status_of, deletes_total, processed_total, storage_sub}
use goprofile.Services.Outbox.{delete_outbox_event}

module _ {S Image : Type 0} (service : AvatarService S Image) where
  open service use {repo, objects, runtime, library}

  unfoldable pub get : Uuid → Exec S Avatar
  get id = repo.get_by_id id

  unfoldable pub get_latest : Bytes → Exec S Avatar
  get_latest user_id = unless_error (validate_user_id user_id) (repo.get_latest_by_user_id user_id)

  unfoldable pub list : Bytes → Exec S (List Avatar)
  list user_id = unless_error (validate_user_id user_id) (repo.list_by_user_id user_id)

  -- `delete` behind the lookup of the row.
  unfoldable pub delete_existing : Avatar → Uuid → Bytes → Exec S (Unit {0})
  delete_existing existing id user_id =
      if existing.user_id == user_id
      then (do
        ev ← lift (delete_outbox_event library existing)
        repo.soft_delete_owned_with_outbox id user_id ev
        modify (runtime.observe (storage_sub existing.size_bytes)))
      else fail (sentinel forbidden)

  unfoldable pub delete_checked : Uuid → Bytes → Exec S (Unit {0})
  delete_checked id user_id =
      unless_error (validate_user_id user_id)
        (do existing ← repo.get_by_id id; delete_existing existing id user_id)

  unfoldable pub delete : Uuid → Bytes → Exec S (Unit {0})
  delete id user_id = do
    result ← attempt (delete_checked id user_id)
    modify (runtime.observe (deletes_total (status_of result)))
    lift result

  unfoldable pub delete_latest : Bytes → Exec S (Unit {0})
  delete_latest user_id =
      unless_error (validate_user_id user_id)
        (do current ← repo.get_latest_by_user_id user_id; delete current.id user_id)

  unfoldable pub process_delete : AvatarDeleteEvent → Exec S (Unit {0})
  process_delete event = do
    result ← attempt (objects.delete event.s3_keys)
    modify (runtime.observe (processed_total (text "delete") (status_of result)))
    lift result

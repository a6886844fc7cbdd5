-- ===== src/Services/Moves.antt =====
-- What the service's methods do to the state, along a relation that its interfaces keep.
pub mod Retries
pub mod Background
use goprofile.Prelude.{
  ℕ, ◌≡◌, refl, ◌==◌, text_eq, zero, suc, ◌*◌, Bytes, List, [], ◌∷◌, Option, none,
}
use goprofile.Prelude.Int.{ℤ}
use goprofile.Result.{Result, ok, err, Exec, or_first, ◌>>=◌, ◌>>◌}
use goprofile.Domain.Errors.{Err}
use goprofile.Result.Moves.{
  IsPreorder, Moves, Moves-bind, Moves-bind_returned, Moves-lift_bind, Moves-lift_undo, Moves-if,
  Moves-unless_error, Moves-fail, Moves-or_undo, Moves-return, Moves-then, moves_rules,
}
use goprofile.Domain.Avatar.{
  Uuid, Avatar, KeyMap, OutboxEvent, Kind, outbox_upload, outbox_delete, other_kind,
}
use goprofile.Domain.Events.{AvatarUploadEvent, AvatarDeleteEvent}
use goprofile.Image.{Info}
use goprofile.Services.Deps.{AvatarService, Observation}
use goprofile.Services.Delete.{
  delete_existing, delete_checked, delete, delete_latest, process_delete,
}
use goprofile.Services.Outbox.{
  delete_outbox_event, publish_rounds, publish_with_retry, publish_kind, flush_item, flush_items,
  flush_outbox,
}
use goprofile.Services.Process.{
  store_thumbnail, store_thumbnails, process_image, process_claimed, process_found, looked_up,
  parsed, process_upload_event, process_upload, recover_items, recover_stuck,
}
use goprofile.Services.Upload.{
  upload_outbox_event, new_avatar, store_avatar, upload_inspected, upload_checked, upload,
}

-- Every operation that the service calls moves along the relation, `MarkOutboxPublished` apart.
pub record AllMove {S Image : Type 0} (R : S → S → Type 0) (service : AvatarService S Image)
    : Type 0 where
  -- with the event that the service builds for a new avatar
  pub create_moves :
      (a : Avatar) (ev : OutboxEvent)
      → upload_outbox_event service.library a ≡ ok ev
      → a.deleted_at ≡ none
      → Moves R (service.repo.create_with_outbox a ev)
  pub get_moves : (id : Uuid) → Moves R (service.repo.get_by_id id)
  pub get_returns :
      (id : Uuid) (s s' : S) (a : Avatar) → service.repo.get_by_id id s ≡ (ok a, s') → a.id ≡ id
  pub latest_moves : (user_id : Bytes) → Moves R (service.repo.get_latest_by_user_id user_id)
  pub list_moves : (user_id : Bytes) → Moves R (service.repo.list_by_user_id user_id)
  -- with the event that the service builds for the avatar with the id
  pub delete_moves :
      (id : Uuid) (user_id : Bytes) (a : Avatar) (ev : OutboxEvent)
      → delete_outbox_event service.library a ≡ ok ev
      → a.id ≡ id
      → Moves R (service.repo.soft_delete_owned_with_outbox id user_id ev)
  pub mark_moves : (id : Uuid) → Moves R (service.repo.mark_processing id)
  pub complete_moves :
      (id : Uuid) (thumbs : Option KeyMap) (width height : ℤ)
      → Moves R (service.repo.complete_processing id thumbs width height)
  pub fail_moves : (id : Uuid) → Moves R (service.repo.fail_processing id)
  pub unpublished_moves : (limit : ℤ) → Moves R (service.repo.list_unpublished limit)
  pub stuck_moves : (limit : ℤ) → Moves R (service.repo.list_stuck_uploads limit)
  pub put_moves : (key mime body : Bytes) → Moves R (service.objects.upload key mime body)
  pub fetch_moves : (key : Bytes) → Moves R (service.objects.download key)
  pub remove_moves : (keys : List Bytes) → Moves R (service.objects.delete keys)
  pub publish_upload_moves :
      (event : AvatarUploadEvent) → Moves R (service.publisher.publish_upload event)
  pub publish_delete_moves :
      (event : AvatarDeleteEvent) → Moves R (service.publisher.publish_delete event)
  pub draw_moves : (s : S) → R s (service.runtime.new_uuid s).1
  pub wait_moves : (backoff : ℕ) → Moves R (service.runtime.wait backoff)
  pub observe_moves : (o : Observation) (s : S) → R s (service.runtime.observe o s)

module _ {S Image : Type 0} {R : S → S → Type 0} (order : IsPreorder R)
    (service : AvatarService S Image) (all : AllMove R service) where
  open all use {
    create_moves, get_moves, latest_moves, list_moves, delete_moves, get_returns, mark_moves,
    complete_moves, fail_moves, unpublished_moves, stuck_moves, put_moves, fetch_moves,
    remove_moves, publish_upload_moves, publish_delete_moves, draw_moves, wait_moves, observe_moves,
  }

  store_avatar-Moves :
      (a : Avatar) (bytes : Bytes) → a.deleted_at ≡ none → Moves R (store_avatar service a bytes)
  unfolding store_avatar
  store_avatar-Moves a bytes live = Moves-then order _ _ (put_moves a.s3_key a.mime_type bytes) (
      Moves-lift_undo order (upload_outbox_event service.library a) _ _ (remove_moves _) (λ ev made.
        Moves-then order _ _
          (Moves-or_undo order _ _ (create_moves a ev made live) (remove_moves _))
          (Moves-return order a)))

  new_uuid-Moves :
      {B : Type 0} (f : Uuid → Exec S B)
      → ((id : Uuid) → Moves R (f id))
      → Moves R ((λ s. let (fresh, s') = service.runtime.new_uuid s in (ok fresh, s')) >>= f)
  new_uuid-Moves f h =
      Moves-bind order (λ s. (ok (service.runtime.new_uuid s).0, (service.runtime.new_uuid s).1)) f
        (record { at = draw_moves }) h

  new_avatar-Moves :
      (id : Uuid) (now : ℕ) (user_id file_name bytes : Bytes) (info : Info)
      → Moves R (
          store_avatar service
            (new_avatar service.library id now user_id file_name bytes info)
            bytes)
  unfolding new_avatar
  new_avatar-Moves id now user_id file_name bytes info = store_avatar-Moves _ bytes refl

  upload_inspected-Moves :
      (user_id file_name bytes : Bytes) (info : Info)
      → Moves R (upload_inspected service user_id file_name bytes info)
  unfolding upload_inspected
  upload_inspected-Moves user_id file_name bytes info =
      search (moves_rules, new_uuid-Moves, new_avatar-Moves)

  upload_checked-Moves :
      (user_id file_name bytes : Bytes) → Moves R (upload_checked service user_id file_name bytes)
  unfolding upload_checked
  upload_checked-Moves user_id file_name bytes = search (moves_rules, upload_inspected-Moves)

  pub upload-Moves :
      (user_id file_name bytes : Bytes) → Moves R (upload service user_id file_name bytes)
  unfolding upload
  upload-Moves user_id file_name bytes =
      search (moves_rules, upload_checked-Moves, observe_moves) depth 10

  delete_existing-Moves :
      (a : Avatar) (id : Uuid) (user_id : Bytes)
      → a.id ≡ id
      → Moves R (delete_existing service a id user_id)
  unfolding delete_existing
  delete_existing-Moves a id user_id same =
      Moves-if order (a.user_id == user_id) _ _
        (Moves-lift_bind order (delete_outbox_event service.library a) _ (λ ev made.
          let deletes = delete_moves id user_id a ev made same in
          search (moves_rules, deletes, observe_moves)))
        (Moves-fail order _)

  delete_checked-Moves : (id : Uuid) (user_id : Bytes) → Moves R (delete_checked service id user_id)
  unfolding delete_checked
  delete_checked-Moves id user_id = Moves-unless_error order _ _ (
      Moves-bind_returned order _ _ (get_moves id)
        (λ a s s' got. delete_existing-Moves a id user_id (get_returns id s s' a got)))

  pub delete-Moves : (id : Uuid) (user_id : Bytes) → Moves R (delete service id user_id)
  unfolding delete
  delete-Moves id user_id = search (moves_rules, delete_checked-Moves, observe_moves)

  pub delete_latest-Moves : (user_id : Bytes) → Moves R (delete_latest service user_id)
  unfolding delete_latest
  delete_latest-Moves user_id = search (moves_rules, latest_moves, delete-Moves)

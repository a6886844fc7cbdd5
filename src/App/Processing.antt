-- ===== src/App/Processing.antt =====
-- Processing an upload again, on the tables and the bucket.
use goprofile.Prelude.{◌≡◌, refl, inl, inr, some, arith}
use goprofile.Result.{ok}
use goprofile.Result.Laws.{Exec-cases}
use goprofile.Domain.Avatar.{Avatar, Uuid, completed}
use goprofile.Domain.Events.{AvatarUploadEvent}
use goprofile.Services.Deps.{new_avatar_service}
use goprofile.Services.Process.{process_found, process_upload_event, process_upload}
use goprofile.World.{World, Row, real_runtime, external_call}
use goprofile.Repository.Tables.{select_one, is_live_row}
use goprofile.Repository.Tx.{query}
use goprofile.Repository.Queries.{avatar_of, scan_avatar, get_by_id}
use goprofile.App.{Setup, new_service}
use goprofile.App.Deletions.{db-get_by_id}
use goprofile.Repository.Found.{get_by_id-ok}

module _ {Image : Type 0} (setup : Setup Image) where
  open setup use {json, library}

  status-avatar_of : (r : Row) → (avatar_of json r).processing_status ≡ r.processing_status
  unfolding avatar_of
  status-avatar_of r = refl

  objects-get_by_id : (id : Uuid) (w : World) → (get_by_id json id w).1.objects ≡ w.objects
  unfolding get_by_id scan_avatar query external_call
  objects-get_by_id id w = ground arith

  found_completed :
      (event : AvatarUploadEvent) (id : Uuid) (a : Avatar) (w : World)
      → a.processing_status ≡ completed
      → process_found (new_service setup) event id a w ≡ (ok tt, w)
  unfolding process_found
  found_completed event id a w h = ground arith

  event_completed :
      (event : AvatarUploadEvent) (id : Uuid) (w : World) (r : Row)
      → library.uuid_parse event.avatar_id ≡ ok id
      → select_one (is_live_row id) w.db.avatars ≡ some r
      → r.processing_status ≡ completed
      → ((process_upload_event (new_service setup) event w).1.db ≡ w.db)
        × ((process_upload_event (new_service setup) event w).1.objects ≡ w.objects)
  unfolding process_upload_event new_service new_avatar_service
  event_completed event id w r parse there done = elim (Exec-cases (get_by_id json id) w) [
    | inr (e, w₁, got) ↦
        (ground (arith, db-get_by_id setup id w), ground (arith, objects-get_by_id id w))
    | inl (a, w₁, got) ↦
        let (r', there', same) = get_by_id-ok json id w w₁ a got in
        let status : a.processing_status ≡ completed = ground (arith, status-avatar_of r') in
        (
          ground (arith, db-get_by_id setup id w, found_completed event id a w₁ status),
          ground (arith, objects-get_by_id id w, found_completed event id a w₁ status),
        )
  ]

  -- A message whose avatar id is that of a live avatar, the processing of which is completed,
  -- changes neither the tables nor the bucket, whatever calls fail.
  pub process_upload-completed :
      (event : AvatarUploadEvent) (id : Uuid) (w : World) (r : Row)
      → library.uuid_parse event.avatar_id ≡ ok id
      → select_one (is_live_row id) w.db.avatars ≡ some r
      → r.processing_status ≡ completed
      → ((process_upload (new_service setup) event w).1.db ≡ w.db)
        × ((process_upload (new_service setup) event w).1.objects ≡ w.objects)
  unfolding process_upload new_service new_avatar_service real_runtime
  process_upload-completed event id w r parse there done =
      let (same, objects) = event_completed event id w r parse there done in
      (ground arith, ground arith)

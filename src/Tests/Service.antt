-- ===== src/Tests/Service.antt =====
-- Runs of the service on the tables, the bucket and the topics.
use goprofile.Prelude.{ℕ, text, List, [], ◌∷◌, none, some, ◌≡◌, ◌≢◌, refl, arith}
use goprofile.Prelude.Int.{pos}
use goprofile.Result.{Result, ok, err}
use goprofile.Domain.Errors.{invalid_user_id, sentinel}
use goprofile.Domain.Avatar.{Avatar, OutboxEvent}
use goprofile.Domain.Events.{AvatarUploadEvent}
use goprofile.Domain.Validate.{validate_user_id}
use goprofile.Services.FileName.{sanitize_file_name}
use goprofile.Domain.Avatar.{original_object_key}
use goprofile.Image.{ext_for_mime, Info, inspect, detect_mime, check_pixels, mime_jpeg}
use goprofile.World.{World, Row, external_call, real_runtime}
use goprofile.Services.Deps.{new_avatar_service, effective_max}
use goprofile.Services.Upload.{
  upload, upload_checked, upload_inspected, store_avatar, new_avatar, upload_event,
  upload_outbox_event,
}
use goprofile.Services.Outbox.{new_outbox_event}
use goprofile.Text.{trim_space, trim_left, trim_back, is_space1, is_space2, is_space3, has_control}
use goprofile.Prelude.Int.{mul64, ◌*ℤ◌}
use goprofile.Prelude.{text_beq}
use goprofile.Repository.Tables.{select_one, insert_avatar, upsert_outbox}
use goprofile.Repository.Tx.{query, commit_over, begin, finish, with_tx}
use goprofile.Repository.Queries.{create_with_outbox, create_statements, insert_row, insert_outbox}
use goprofile.Storage.{upload as put}
use goprofile.App.{new_service}
use goprofile.Prelude.{length}
use goprofile.Services.Deps.{outbox_unpublished}
use goprofile.Services.Delete.{delete, delete_checked, delete_existing}
use goprofile.Services.Outbox.{
  delete_outbox_event, flush_outbox, flush_items, flush_item, publish_with_retry, publish_rounds,
  publish_kind,
}
use goprofile.Broker.{publish_upload, write_json, write_message, observe}
use goprofile.Repository.Queries.{mark_outbox_published}
use goprofile.Repository.Statements.{publish_row}
use goprofile.Repository.Tables.{update_where}
use goprofile.Services.Outbox.Flush.{Flushed, flush_outbox-Flushed}
use goprofile.Services.Process.{process_upload, process_claimed}
use goprofile.Services.Process.Outcome.{EndsOf, process_claimed-Ends}
use goprofile.Domain.Avatar.{outbox_upload}
use goprofile.Repository.Tables.{is_live_row, select_all, order_by, insert_sorted}
use goprofile.Repository.Tables.Laws.{Holds}
use goprofile.Repository.Statements.{unpublished, mark_deleted}
use goprofile.Repository.Queries.{
  avatar_of, scan_avatar, get_by_id, delete_row, delete_statements, soft_delete_owned_with_outbox,
  list_unpublished,
}
use goprofile.Repository.Removal.{removed}
use goprofile.App.Deletions.{delete-ok, delete-not_owner}
use goprofile.App.Processing.{process_upload-completed}
use goprofile.App.Uploads.{upload-err, upload-ok, built, IsStored}
use goprofile.Tests.{test_library, test_setup, test_row, test_world, photo}

abbrev pub start : World
start = test_world [] []

abbrev refused_upload : Result Avatar × World
refused_upload = upload (new_service test_setup) [] (text "me.jpg") photo start

refused_lem : refused_upload ≡ (err (sentinel invalid_user_id), refused_upload.1)
unfolding upload new_service new_avatar_service real_runtime upload_checked validate_user_id
    trim_space trim_left trim_back text_beq
refused_lem = refl

abbrev pub accepted_upload : Result Avatar × World
accepted_upload = upload (new_service test_setup) (text "ann") (text "me.jpg") photo start

abbrev photo_info : Info
photo_info = record { mime = mime_jpeg; width = pos 2; ext = text ".jpg"; height = pos 2 }

abbrev pub accepted_avatar : Avatar
accepted_avatar = built test_setup (text "ann") (text "me.jpg") photo photo_info start

pub accepted_lem : accepted_upload ≡ (ok accepted_avatar, accepted_upload.1)
unfolding upload new_service new_avatar_service real_runtime upload_checked validate_user_id
    trim_space trim_left trim_back is_space1 is_space2 is_space3 has_control inspect detect_mime
    check_pixels effective_max upload_inspected store_avatar new_avatar upload_event
    upload_outbox_event new_outbox_event create_with_outbox create_statements insert_row
    insert_outbox insert_avatar upsert_outbox query commit_over begin finish with_tx external_call
    mul64 ◌*ℤ◌ ext_for_mime sanitize_file_name original_object_key put text_beq select_one
accepted_lem = refl

upload-err_example : refused_upload.1.db ≡ start.db
upload-err_example =
    upload-err test_setup [] (text "me.jpg") photo start refused_upload.1 (sentinel invalid_user_id)
      tt refused_lem

upload-ok_example :
    (validate_user_id (text "ann") ≡ none)
    × ((info : Info) × (inspect test_library.codec photo ≡ ok info)
        × (accepted_avatar ≡ built test_setup (text "ann") (text "me.jpg") photo info start))
    × IsStored test_setup accepted_avatar photo start accepted_upload.1
upload-ok_example =
    upload-ok test_setup (text "ann") (text "me.jpg") photo start accepted_upload.1 accepted_avatar
      accepted_lem

-- One avatar, of ann.
abbrev pub stocked : World
stocked = test_world (test_row 3 (text "ann") ∷ []) []

found_lem : select_one (is_live_row 3) stocked.db.avatars ≡ some (test_row 3 (text "ann"))
unfolding select_one
found_lem = refl

delete-not_owner_example :
    ((delete (new_service test_setup) 3 (text "bob") stocked).1.db ≡ stocked.db)
    × ((delete (new_service test_setup) 3 (text "bob") stocked).0 ≢ ok tt)
unfolding text_beq
delete-not_owner_example =
    delete-not_owner test_setup 3 (text "bob") stocked (test_row 3 (text "ann")) found_lem
      (λ e. ground arith)

abbrev pub deletion : Result (Unit {0}) × World
deletion = delete (new_service test_setup) 3 (text "ann") stocked

pub deletion_lem : deletion ≡ (ok tt, deletion.1)
unfolding delete delete_checked delete_existing new_service new_avatar_service real_runtime
    validate_user_id trim_space trim_left trim_back is_space1 is_space2 is_space3 has_control
    text_beq get_by_id scan_avatar query external_call select_one delete_outbox_event
    soft_delete_owned_with_outbox with_tx begin commit_over finish insert_outbox upsert_outbox
    delete_statements avatar_of new_outbox_event delete_row mark_deleted
deletion_lem = refl

delete-ok_example :
    (validate_user_id (text "ann") ≡ none)
    × ((r : Row) × (ev : OutboxEvent) × (now : ℕ) × (select_one (is_live_row 3) stocked.db.avatars
          ≡ some r)
        × (r.user_id ≡ text "ann")
        × (delete_outbox_event test_library (avatar_of test_setup.json r) ≡ ok ev)
        × (deletion.1.db.avatars ≡ removed test_setup.json 3 (text "ann") now stocked.db.avatars)
        × Holds ev deletion.1.db.outbox)
delete-ok_example = delete-ok test_setup 3 (text "ann") stocked deletion.1 deletion_lem

abbrev event : AvatarUploadEvent
event = record { event_id = text "e"; avatar_id = 3 ∷ []; user_id = text "ann"; s3_key = text "k" }

process_upload-completed_example :
    ((process_upload (new_service test_setup) event stocked).1.db ≡ stocked.db)
    × ((process_upload (new_service test_setup) event stocked).1.objects ≡ stocked.objects)
process_upload-completed_example =
    process_upload-completed test_setup event 3 stocked (test_row 3 (text "ann")) refl found_lem
      refl

process_claimed-Ends_example :
    EndsOf
      (new_service test_setup)
      3
      (text "3")
      (text "k")
      stocked
      (process_claimed (new_service test_setup) 3 (text "3") (text "k") stocked)
process_claimed-Ends_example =
    process_claimed-Ends (new_service test_setup) 3 (text "3") (text "k") stocked

-- An outbox whose one row was not published yet.
abbrev waiting : World
waiting = test_world [] (
    record {
      id = 1;
      event_id = text "upload:3";
      kind = outbox_upload;
      payload = text "{}";
      published_at = none;
    }
    ∷ [])

abbrev flushed : Result (Unit {0}) × World
flushed = flush_outbox (new_service test_setup) waiting

flushed_lem : flushed ≡ (ok tt, flushed.1)
unfolding flush_outbox flush_items new_service new_avatar_service real_runtime list_unpublished
    query external_call unpublished select_all order_by insert_sorted flush_item publish_with_retry
    publish_rounds publish_kind publish_upload write_json write_message mark_outbox_published
    publish_row update_where observe
flushed_lem = refl

flush_outbox-Flushed_example :
    (items : List OutboxEvent) × (s₁ : World) × (list_unpublished test_setup.json (pos 50) waiting
      ≡ (ok items, s₁))
    × Flushed
        (new_service test_setup)
        items
        (real_runtime.observe (outbox_unpublished (length items)) s₁)
        flushed.1
unfolding new_service new_avatar_service
flush_outbox-Flushed_example =
    flush_outbox-Flushed (new_service test_setup) waiting flushed.1 flushed_lem

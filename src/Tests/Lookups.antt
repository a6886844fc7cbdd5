-- ===== src/Tests/Lookups.antt =====
-- Runs of lookups, of the handlers, and of the headers of a message.
use goprofile.Prelude.{
  text, [], ◌∷◌, ◌≡◌, ◌≢◌, ◌↔◌, refl, none, some, false, All, ◌&&◌, ◌==◌, text_eq,
}
use mathlib.Core.List.{Perm}
use goprofile.Result.{ok}
use goprofile.Domain.Errors.{Err, wrapped, external, is}
use goprofile.World.{World, Db}
use goprofile.Handlers.Errors.{write_error}
use goprofile.Handlers.Errors.Laws.{client_errors, write_error_lem}
use goprofile.Repository.Tables.{is_live, select_all, to_micros}
use goprofile.Repository.Statements.{rows_of_user}
use goprofile.Repository.Order.{IsNewestFirst, rows_of_user_lem}
use goprofile.Repository.Queries.{get_by_id}
use goprofile.Domain.Avatar.{thumbnail_keys_json, parse_thumbnail_keys}
use goprofile.App.Lookups.{delete-get_by_id, upload-get_by_id}
use goprofile.Tests.{test_setup, test_row, test_world, photo}
use goprofile.Tests.Service.{
  start, accepted_upload, accepted_avatar, accepted_lem, stocked, deletion, deletion_lem,
}

delete-get_by_id_example : (get_by_id test_setup.json 3 deletion.1).0 ≢ ok accepted_avatar
delete-get_by_id_example =
    delete-get_by_id test_setup 3 (text "ann") stocked deletion.1 deletion.1 accepted_avatar
      (tt, tt) deletion_lem refl

abbrev later : World
later = test_world accepted_upload.1.db.avatars []

upload-get_by_id_example :
    (get_by_id test_setup.json accepted_avatar.id later).0
    ≡ ok (record accepted_avatar {
      thumbnail_s3_keys = some (
          parse_thumbnail_keys test_setup.json
            (thumbnail_keys_json test_setup.json accepted_avatar.thumbnail_s3_keys));
      created_at = to_micros accepted_avatar.created_at;
      updated_at = to_micros accepted_avatar.updated_at;
      deleted_at = none;
    })
upload-get_by_id_example =
    upload-get_by_id test_setup (text "ann") (text "me.jpg") photo start accepted_upload.1 later
      accepted_avatar tt accepted_lem refl refl

-- Two avatars of ann and one of bob.
abbrev shared : Db
shared = record {
  avatars = test_row 3 (text "ann") ∷ test_row 4 (text "bob") ∷ test_row 5 (text "ann") ∷ [];
  outbox = [];
  next_outbox_id = 1;
}

rows_of_user_lem_example :
    IsNewestFirst (rows_of_user (text "ann") shared)
    × Perm
        (rows_of_user (text "ann") shared)
        (select_all (λ r. r.user_id == text "ann" && is_live r.deleted_at) shared.avatars)
rows_of_user_lem_example = rows_of_user_lem (text "ann") shared

abbrev hidden : Err
hidden = wrapped (text "begin tx") (external 1)

write_error_lem_example :
    ((write_error hidden).status ≡ 500) ↔ All (λ t. is hidden t ≡ false) client_errors
write_error_lem_example = write_error_lem hidden

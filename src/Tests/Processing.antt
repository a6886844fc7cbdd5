-- ===== src/Tests/Processing.antt =====
-- A run of the processing of an avatar, on the tables and the bucket.
use goprofile.Prelude.{text, [], ◌∷◌, ◌≡◌, refl}
use goprofile.Result.{Result, ok}
use goprofile.Prelude.{some}
use goprofile.Prelude.Int.{pos}
use goprofile.Domain.Avatar.{pending}
use goprofile.Domain.Events.{AvatarUploadEvent}
use goprofile.Image.{mime_jpeg, ext_for_mime, resize}
use goprofile.Services.Process.{process_upload}
use goprofile.Storage.{object_at}
use goprofile.Repository.Tables.{is_live_row}
use goprofile.App.Processed.{IsReadable, IsProcessed, both_keys, process_upload-IsProcessed}
use goprofile.World.{World, Row, external_call}
use goprofile.Services.Process.{process_claimed}
use goprofile.Prelude.{text_beq}
use goprofile.Prelude.Int.{mul64}
use goprofile.Text.{to_lower, trim_space}
use goprofile.Image.{
  inspect, detect_mime, check_pixels, decode, encode, make_thumbnail, format_from_mime,
}
use goprofile.Services.Deps.{new_avatar_service}
use goprofile.Services.Process.{store_thumbnail, store_thumbnails}
use goprofile.Storage.{download, upload as put}
use goprofile.Repository.Tables.{select_one}
use goprofile.Repository.Tx.{query}
use goprofile.Repository.Statements.{complete}
use goprofile.Repository.Queries.{complete_processing}
use goprofile.App.{new_service}
use goprofile.App.Completion.{HasEnded, process_claimed-HasEnded}
use goprofile.Tests.{test_codec, test_setup, test_row, test_world, photo}

-- The object of the avatar is in the bucket.
abbrev ready : World
ready = record (test_world (test_row 3 (text "ann") ∷ []) []) {
  objects = (text "k", text "image/jpeg", photo) ∷ [];
}

abbrev processed : Result (Unit {0}) × World
processed = process_claimed (new_service test_setup) 3 (text "3") (text "k") ready

processed_lem : processed ≡ (ok tt, processed.1)
unfolding process_claimed new_service new_avatar_service download text_beq inspect detect_mime
    check_pixels mul64 store_thumbnails store_thumbnail make_thumbnail decode encode to_lower
    trim_space format_from_mime put complete_processing complete query external_call select_one
processed_lem = refl

process_claimed-HasEnded_example : HasEnded test_setup 3 (text "3") (text "k") ready processed.1
process_claimed-HasEnded_example =
    process_claimed-HasEnded test_setup 3 (text "3") (text "k") ready processed.1 processed_lem

abbrev waiting_row : Row
waiting_row =
    let row = test_row 3 (text "ann") in
    record row { avatar = record row.avatar { processing_status = pending } }

abbrev pending_world : World
pending_world = record ready { db = record ready.db { avatars = waiting_row ∷ [] } }

abbrev upload_message : AvatarUploadEvent
upload_message = record {
  event_id = text "e";
  avatar_id = 3 ∷ [];
  user_id = text "ann";
  s3_key = text "k";
}

readable_lem : IsReadable test_codec (text "k") pending_world
unfolding object_at text_beq inspect detect_mime check_pixels mul64 make_thumbnail decode encode
    to_lower trim_space format_from_mime ext_for_mime resize
readable_lem = record {
  kind = text "image/jpeg";
  bytes = photo;
  info = record { mime = mime_jpeg; width = pos 2; ext = text ".jpg"; height = pos 2 };
  small = (photo, mime_jpeg);
  large = (photo, mime_jpeg);
  stored = refl;
  inspected = refl;
  made_small = refl;
  made_large = refl;
}

waiting_lem : select_one (is_live_row 3) pending_world.db.avatars ≡ some waiting_row
unfolding select_one
waiting_lem = refl

process_upload-IsProcessed_example :
    IsProcessed test_setup 3
      (both_keys test_setup 3 upload_message.avatar_id mime_jpeg mime_jpeg)
      (process_upload (new_service test_setup) upload_message pending_world)
unfolding text_beq readable_lem
process_upload-IsProcessed_example =
    process_upload-IsProcessed test_setup 3 upload_message pending_world waiting_row refl refl
      waiting_lem refl readable_lem

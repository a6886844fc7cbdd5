-- ===== src/Tests/Outbox.antt =====
-- Runs of a flush, from worlds whose outbox has rows.
use goprofile.Prelude.{arith, text, [], ◌∷◌}
use goprofile.Prelude.{Bytes, none, some, length, ◌≤◌, ◌≡◌, refl}
use goprofile.Result.{ok}
use goprofile.World.{World}
use goprofile.Domain.Avatar.{outbox_upload, outbox_delete}
use goprofile.Repository.Tables.{select_all}
use goprofile.Services.Outbox.{flush_outbox}
use goprofile.App.{new_service}
use goprofile.App.Delivered.Among.{waiting}
use goprofile.App.Delivered.Drained.{IsDrained, CanSend, flush_outbox-IsDrained}
use goprofile.Tests.{test_world, test_row, test_setup, test_library}
use goprofile.Prelude.{arith}
use goprofile.World.{Row, OutboxRow}
use goprofile.Domain.Events.{upload_event_id, delete_event_id}

-- Two events wait, and one is published.
abbrev loaded : World
loaded = test_world (test_row 3 (text "ann") ∷ []) (
    record {
      id = 1;
      event_id = text "upload:3";
      kind = outbox_upload;
      payload = text "upload:3";
      published_at = none;
    }
    ∷ record {
      id = 2;
      event_id = text "upload:4";
      kind = outbox_upload;
      payload = text "upload:4";
      published_at = some 9;
    }
    ∷ record {
      id = 3;
      event_id = text "upload:5";
      kind = outbox_upload;
      payload = text "upload:5";
      published_at = none;
    }
    ∷ [])

few_lem : length (waiting loaded.db) ≤ 50
unfolding select_all
few_lem = omega arith

sends_lem : (payload : Bytes) → CanSend test_library outbox_upload payload
sends_lem payload = (
  record { event_id = payload; avatar_id = text "3"; user_id = text "ann"; s3_key = text "k" },
  payload,
  refl,
  refl,
)

flush_outbox-IsDrained_example :
    ((flush_outbox (new_service test_setup) loaded).0 ≡ ok tt)
    × IsDrained (flush_outbox (new_service test_setup) loaded).1.db
flush_outbox-IsDrained_example =
    flush_outbox-IsDrained test_setup loaded refl
      ((λ live. sends_lem _), ((λ live. sends_lem _), ((λ live. sends_lem _), tt))) few_lem

-- An avatar whose upload waits, and one that is deleted, whose upload and deletion wait.
abbrev uploaded_row : OutboxRow
uploaded_row = record {
  id = 1;
  event_id = upload_event_id (3 ∷ []);
  kind = outbox_upload;
  payload = upload_event_id (3 ∷ []);
  published_at = none;
}

abbrev gone_row : Row
gone_row =
    let row = test_row 4 (text "bob") in
    record row { avatar = record row.avatar { deleted_at = some 50 } }

abbrev gone_upload : OutboxRow
gone_upload = record {
  id = 2;
  event_id = upload_event_id (4 ∷ []);
  kind = outbox_upload;
  payload = upload_event_id (4 ∷ []);
  published_at = none;
}

abbrev gone_delete : OutboxRow
gone_delete = record {
  id = 3;
  event_id = delete_event_id (4 ∷ []);
  kind = outbox_delete;
  payload = delete_event_id (4 ∷ []);
  published_at = none;
}

abbrev uploaded_world : World
uploaded_world =
    test_world (test_row 3 (text "ann") ∷ gone_row ∷ [])
      (uploaded_row ∷ gone_upload ∷ gone_delete ∷ [])

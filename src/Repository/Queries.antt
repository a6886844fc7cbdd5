-- ===== src/Repository/Queries.antt =====
-- The methods of `AvatarRepository`, in internal/repository/postgres.go.
use goprofile.Prelude.{
  ℕ, Bool, Bytes, text, List, Option, none, some, map, if◌then◌else◌, nat_eq, text_eq,
}
use goprofile.Prelude.Int.{ℤ}
use goprofile.Result.{Result, ok, err, Exec, return, fail, ◌>>=◌, ◌>>◌}
use goprofile.Domain.Errors.{sentinel, external, wrapped, avatar_not_found}
use goprofile.Domain.Avatar.{
  Uuid, Avatar, KeyMap, OutboxEvent, JsonMap, thumbnail_keys_json, parse_thumbnail_keys,
}
use goprofile.Services.Deps.{AvatarStore}
use goprofile.World.{Row, Db, World}
use goprofile.Repository.Statements.{
  rows_of_user, first_row, mark_deleted, claim, map_or_empty, complete, fail_row, limit_or,
  unpublished, publish_row, stuck_rows,
}
use goprofile.Result.{naming}
use goprofile.Repository.Tx.{query, with_tx}
use goprofile.Repository.Tables.{is_live_row, select_one, insert_avatar, upsert_outbox}

unfoldable pub insert_outbox : OutboxEvent → Exec World ℕ
insert_outbox ev =
    naming (text "insert outbox")
      (query (λ now db. let (id, db') = upsert_outbox ev db in (ok id, db')))

-- `scanAvatar`, over COALESCE(thumbnail_s3_keys, '{}')

module _ (json : JsonMap) where
  abbrev coalesce : Option Bytes → Bytes
  coalesce none = text "{}"
  coalesce (some raw) = raw

  unfoldable pub avatar_of : Row → Avatar
  avatar_of r = record r.avatar {
    thumbnail_s3_keys = some (parse_thumbnail_keys json (coalesce r.thumbnails));
  }

  -- A row, or pgx.ErrNoRows as `none`
  abbrev scanned : Result (Option Row) → Result Avatar
  scanned (ok none) = err (sentinel avatar_not_found)
  scanned (ok (some r)) = ok (avatar_of r)
  scanned (err e) = err (wrapped (text "scan avatar") e)

  unfoldable pub scan_avatar : Exec World (Option Row) → Exec World Avatar
  scan_avatar m w = let (r, w') = m w in (scanned r, w')

  abbrev stored_rows : Db → Option (List Row) → Result (Unit {0}) × Db
  stored_rows db none = (err (external 2), db)
  stored_rows db (some rows) = (ok tt, record db { avatars = rows })

  unfoldable pub insert_row : Avatar → Exec World (Unit {0})
  insert_row a = naming (text "insert avatar") (
      query (λ now db.
        stored_rows db (insert_avatar a (thumbnail_keys_json json a.thumbnail_s3_keys) db.avatars)))

  unfoldable pub create_statements : Avatar → OutboxEvent → Exec World ℕ
  create_statements a ev = do insert_row a; insert_outbox ev

  unfoldable pub create_with_outbox : Avatar → OutboxEvent → Exec World ℕ
  create_with_outbox a ev = with_tx (create_statements a ev)

  unfoldable pub get_by_id : Uuid → Exec World Avatar
  get_by_id id = scan_avatar (query (λ now db. (ok (select_one (is_live_row id) db.avatars), db)))

  unfoldable pub get_latest_by_user_id : Bytes → Exec World Avatar
  get_latest_by_user_id user_id =
      scan_avatar (query (λ now db. (ok (first_row (rows_of_user user_id db)), db)))

  unfoldable pub list_by_user_id : Bytes → Exec World (List Avatar)
  list_by_user_id user_id =
      naming (text "list avatars")
        (query (λ now db. (ok (map avatar_of (rows_of_user user_id db)), db)))

  -- NOW() is the start of the transaction.
  unfoldable pub delete_row : ℕ → Uuid → Bytes → Exec World Avatar
  delete_row start id user_id =
      scan_avatar (query (λ now db. let (r, db') = mark_deleted id user_id start db in (ok r, db')))

  -- Behind the begin of the transaction.
  unfoldable pub delete_statements : Uuid → Bytes → OutboxEvent → Exec World (Avatar × ℕ)
  delete_statements id user_id ev w =
      (do a ← delete_row w.now id user_id; oid ← insert_outbox ev; return (a, oid)) w

  unfoldable pub soft_delete_owned_with_outbox :
      Uuid → Bytes → OutboxEvent → Exec World (Avatar × ℕ)
  soft_delete_owned_with_outbox id user_id ev = with_tx (delete_statements id user_id ev)

  unfoldable pub mark_processing : Uuid → Exec World Bool
  mark_processing id =
      naming (text "mark processing")
        (query (λ now db. let (claimed, db') = claim id now db in (ok claimed, db')))

  unfoldable pub complete_processing : Uuid → Option KeyMap → ℤ → ℤ → Exec World (Unit {0})
  complete_processing id thumbs width height = do
    let raw = thumbnail_keys_json json (some (map_or_empty thumbs))
    affected ←
        naming (text "complete processing")
          (query (λ now db. let (hit, db') = complete id raw width height now db in (ok hit, db')))
    if affected then return tt else fail (sentinel avatar_not_found)

  unfoldable pub fail_processing : Uuid → Exec World (Unit {0})
  fail_processing id =
      naming (text "fail processing") (query (λ now db. (ok tt, fail_row id now db)))

  unfoldable pub list_unpublished : ℤ → Exec World (List OutboxEvent)
  list_unpublished limit =
      naming (text "list outbox") (query (λ now db. (ok (unpublished (limit_or limit 50) db), db)))

  unfoldable pub mark_outbox_published : ℕ → Exec World (Unit {0})
  mark_outbox_published id = query (λ now db. (ok tt, publish_row id now db))

  unfoldable pub list_stuck_uploads : ℤ → Exec World (List Avatar)
  list_stuck_uploads limit =
      naming (text "list stuck")
        (query (λ now db. (ok (map avatar_of (stuck_rows (limit_or limit 20) now db)), db)))

  -- The repository as the service's `AvatarStore`
  abbrev pub avatar_repository : AvatarStore World
  avatar_repository = record {
    create_with_outbox = create_with_outbox;
    get_by_id = get_by_id;
    get_latest_by_user_id = get_latest_by_user_id;
    list_by_user_id = list_by_user_id;
    soft_delete_owned_with_outbox = soft_delete_owned_with_outbox;
    mark_processing = mark_processing;
    complete_processing = complete_processing;
    fail_processing = fail_processing;
    list_unpublished = list_unpublished;
    mark_outbox_published = mark_outbox_published;
    list_stuck_uploads = list_stuck_uploads;
  }

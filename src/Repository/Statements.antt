-- ===== src/Repository/Statements.antt =====
-- The statements of internal/repository/postgres.go as functions of the tables. `now` is NOW().
use goprofile.Prelude.{
  ℕ, Bool, true, false, ◌&&◌, Bytes, List, [], ◌∷◌, Option, none, some, map, take, if◌then◌else◌,
  ◌==◌, nat_eq, text_eq,
}
use goprofile.Prelude.Int.{ℤ, pos, leb_ℤ, pos_part}
use goprofile.Domain.Avatar.{Uuid, KeyMap, processing, failed, OutboxEvent}
use goprofile.World.{Row, OutboxRow, Db}
use goprofile.Repository.Tables.{
  is_live, is_live_row, select_one, select_all, update_where, order_by, newer, older, smaller_id,
  is_claimable, set_deleted, set_status, set_completed,
}

-- WHERE user_id = $1 AND deleted_at IS NULL ORDER BY created_at DESC
unfoldable pub rows_of_user : Bytes → Db → List Row
rows_of_user user_id db =
    order_by newer (select_all (λ r. r.user_id == user_id && is_live r.deleted_at) db.avatars)

abbrev pub first_row : List Row → Option Row
first_row [] = none
first_row (r ∷ _) = some r

-- UPDATE … WHERE id = $1 AND user_id = $2 AND deleted_at IS NULL RETURNING …
abbrev pub is_owned_row : Uuid → Bytes → Row → Bool
is_owned_row id user_id r = r.id == id && r.user_id == user_id && is_live r.deleted_at

unfoldable pub mark_deleted : Uuid → Bytes → ℕ → Db → Option Row × Db
mark_deleted id user_id now db = elim (select_one (is_owned_row id user_id) db.avatars) [
  | none ↦ (none, db)
  | some r ↦ (
    some (set_deleted now r),
    record db { avatars = update_where (is_owned_row id user_id) (set_deleted now) db.avatars },
  )
]

-- The row claimed, and whether there was one.
abbrev pub is_claimed_row : Uuid → ℕ → Row → Bool
is_claimed_row id now r = is_live_row id r && is_claimable now r

unfoldable pub claim : Uuid → ℕ → Db → Bool × Db
claim id now db = elim (select_one (is_claimed_row id now) db.avatars) [
  | none ↦ (false, db)
  | some _ ↦ (
    true,
    record db {
      avatars = update_where (is_claimed_row id now) (set_status processing now) db.avatars;
    },
  )
]

abbrev pub map_or_empty : Option KeyMap → KeyMap
map_or_empty none = []
map_or_empty (some m) = m

-- Whether a row was affected.
unfoldable pub complete : Uuid → Bytes → ℤ → ℤ → ℕ → Db → Bool × Db
complete id raw width height now db = elim (select_one (is_live_row id) db.avatars) [
  | none ↦ (false, db)
  | some _ ↦ (
    true,
    record db {
      avatars = update_where (is_live_row id) (set_completed raw width height now) db.avatars;
    },
  )
]

unfoldable pub fail_row : Uuid → ℕ → Db → Db
fail_row id now db = record db {
  avatars = update_where (is_live_row id) (set_status failed now) db.avatars;
}

-- `if limit <= 0 { limit = … }`
abbrev pub limit_or : ℤ → ℕ → ℕ
limit_or limit default = if leb_ℤ limit (pos 0) then default else pos_part limit

abbrev pub event_of : OutboxRow → OutboxEvent
event_of o = record { id = o.id; event_id = o.event_id; kind = o.kind; payload = o.payload }

unfoldable pub unpublished : ℕ → Db → List OutboxEvent
unpublished limit db =
    map event_of
      (take limit (order_by smaller_id (select_all (λ o. is_live o.published_at) db.outbox)))

unfoldable pub publish_row : ℕ → ℕ → Db → Db
publish_row id now db = record db {
  outbox = update_where (λ o. o.id == id) (λ o. record o { published_at = some now }) db.outbox;
}

unfoldable pub stuck_rows : ℕ → ℕ → Db → List Row
stuck_rows limit now db =
    take limit
      (order_by older (select_all (λ r. is_live r.deleted_at && is_claimable now r) db.avatars))

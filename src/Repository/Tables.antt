-- ===== src/Repository/Tables.antt =====
-- What each SQL statement of internal/repository/postgres.go does to the tables. `now` is NOW().
pub mod Laws
use goprofile.Prelude.{
  ℕ, ◌+◌, ◌*◌, ◌/◌, ◌^◌, Bool, true, false, ◌&&◌, Bytes, List, [], ◌∷◌, ◌++◌, Option, none, some,
  leb, ltb, if◌then◌else◌, ◌==◌, nat_eq, text_eq,
}
unfoldable pub use goprofile.Prelude.{insert_sorted, order_by}
use goprofile.Prelude.Int.{ℤ, pos, ltb_ℤ}
use goprofile.Domain.Avatar.{
  Uuid, Avatar, ProcessingStatus, pending, processing, completed, failed, stored, OutboxEvent,
}
use goprofile.World.{Row, OutboxRow, Db}

abbrev pub is_live : Option ℕ → Bool
is_live none = true
is_live (some _) = false

-- WHERE id = $1 AND deleted_at IS NULL
abbrev pub is_live_row : Uuid → Row → Bool
is_live_row id r = r.id == id && is_live r.deleted_at

module _ {A : Type 0} where
  -- The first row that meets the condition.
  unfoldable pub select_one : (A → Bool) → List A → Option A
  select_one p [] = none
  select_one p (r ∷ rs) = let rest = select_one p rs in if p r then some r else rest

  unfoldable pub select_all : (A → Bool) → List A → List A
  select_all p [] = []
  select_all p (r ∷ rs) = let rest = select_all p rs in if p r then r ∷ rest else rest

  -- UPDATE … SET … WHERE …
  unfoldable pub update_where : (A → Bool) → (A → A) → List A → List A
  update_where p f [] = []
  update_where p f (r ∷ rs) = (if p r then f r else r) ∷ update_where p f rs

-- ORDER BY, by insertion behind the rows that come first or are equal. The order of equal rows is
-- PostgreSQL's choice; here it is that of the table.
abbrev pub newer : Row → Row → Bool
newer a b = leb b.created_at a.created_at

abbrev pub older : Row → Row → Bool
older a b = leb a.created_at b.created_at

abbrev pub smaller_id : OutboxRow → OutboxRow → Bool
smaller_id a b = leb a.id b.id

-- A time in nanoseconds as a column TIMESTAMPTZ keeps it: to the microsecond.
abbrev pub to_micros : ℕ → ℕ
to_micros t = t / 1000 * 1000

-- The row of the VALUES, which have no deleted_at.
abbrev pub inserted_row : Avatar → Bytes → Row
inserted_row a raw = record {
  avatar = record a {
    created_at = to_micros a.created_at;
    updated_at = to_micros a.updated_at;
    deleted_at = none;
  };
  thumbnails = some raw;
}

-- INSERT INTO avatars, with none for a violation of the primary key.
unfoldable pub insert_avatar : Avatar → Bytes → List Row → Option (List Row)
insert_avatar a raw rows = elim (select_one (λ r. r.id == a.id) rows) [
  | none ↦ some (rows ++ inserted_row a raw ∷ [])
  | some _ ↦ none
]

abbrev pub outbox_row : ℕ → OutboxEvent → OutboxRow
outbox_row id ev = record {
  id = id;
  event_id = ev.event_id;
  kind = ev.kind;
  payload = ev.payload;
  published_at = none;
}

abbrev pub has_event_id : Bytes → OutboxRow → Bool
has_event_id event_id o = o.event_id == event_id

-- SET kind = EXCLUDED.kind, payload = EXCLUDED.payload
abbrev pub excluded : OutboxEvent → OutboxRow → OutboxRow
excluded ev o = record o { kind = ev.kind; payload = ev.payload }

-- The insert, with what it found at its event id. The sequence advances on a conflict too.
abbrev pub upsert_found : OutboxEvent → Db → Option OutboxRow → ℕ × Db
upsert_found ev db none = (
  db.next_outbox_id,
  record db {
    outbox = db.outbox ++ outbox_row db.next_outbox_id ev ∷ [];
    next_outbox_id = db.next_outbox_id + 1;
  },
)
upsert_found ev db (some old) = (
  old.id,
  record db {
    outbox = update_where (has_event_id ev.event_id) (excluded ev) db.outbox;
    next_outbox_id = db.next_outbox_id + 1;
  },
)

unfoldable pub upsert_outbox : OutboxEvent → Db → ℕ × Db
upsert_outbox ev db = upsert_found ev db (select_one (has_event_id ev.event_id) db.outbox)

-- Two minutes, in nanoseconds
abbrev pub stale_after : ℕ
stale_after = 120 * 10 ^ 9

-- processing_status IN (pending, failed) OR (processing_status = processing AND it is stale)
abbrev claimable_status : ProcessingStatus → Bool → Bool
claimable_status pending stale = true
claimable_status failed stale = true
claimable_status processing stale = stale
claimable_status completed stale = false

unfoldable pub is_claimable : ℕ → Row → Bool
is_claimable now r = claimable_status r.processing_status (ltb (r.updated_at + stale_after) now)

unfoldable pub set_deleted : ℕ → Row → Row
set_deleted now r = record r {
  avatar = record r.avatar { deleted_at = some now; updated_at = now };
}

unfoldable pub set_status : ProcessingStatus → ℕ → Row → Row
set_status status now r = record r {
  avatar = record r.avatar { processing_status = status; updated_at = now };
}

-- CASE WHEN $3 > 0 THEN $3 ELSE width END
abbrev positive_or : ℤ → ℤ → ℤ
positive_or new old = if ltb_ℤ (pos 0) new then new else old

unfoldable pub set_completed : Bytes → ℤ → ℤ → ℕ → Row → Row
set_completed raw width height now r = record r {
  avatar = record r.avatar {
    width = positive_or width r.width;
    height = positive_or height r.height;
    processing_status = completed;
    upload_status = stored;
    updated_at = now;
  };
  thumbnails = some raw;
}

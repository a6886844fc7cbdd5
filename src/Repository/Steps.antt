-- ===== src/Repository/Steps.antt =====
-- The writes of the service as steps on the tables, one for each statement or transaction that is
-- committed, in any order and by any number of processes.
use goprofile.Prelude.{ℕ, ◌≡◌, ◌⊎◌, Bytes, List, some}
use goprofile.Prelude.Int.{ℤ}
use goprofile.Domain.Avatar.{Uuid, Avatar, OutboxEvent}
use goprofile.World.{Row, Db}
use goprofile.Repository.Tables.{
  insert_avatar, upsert_outbox, select_one, update_where, set_deleted,
}
use goprofile.Repository.Statements.{is_owned_row, claim, complete, fail_row, publish_row}

-- What a transaction of `CreateWithOutbox` writes: the row, whose id was free, and the event.
abbrev pub Creates : Avatar → OutboxEvent → Db → Db → Type 0
Creates a ev d d' =
    (raw : Bytes) × (rows : List Row) × (insert_avatar a raw d.avatars ≡ some rows)
    × (d' ≡ (upsert_outbox ev (record d { avatars = rows })).1)

-- What a transaction of `SoftDeleteOwnedWithOutbox` writes: the owner's live row is deleted, and
-- the event is put into the outbox.
abbrev pub Deletes : Uuid → Bytes → OutboxEvent → Db → Db → Type 0
Deletes id user_id ev d d' =
    (now : ℕ) × (r : Row) × (select_one (is_owned_row id user_id) d.avatars ≡ some r)
    × (d'
        ≡ (upsert_outbox ev (record d {
          avatars = update_where (is_owned_row id user_id) (set_deleted now) d.avatars;
        })).1)

abbrev pub Claims : Uuid → Db → Db → Type 0
Claims id d d' = (now : ℕ) × (d' ≡ (claim id now d).1)

abbrev pub Completes : Uuid → ℤ → ℤ → Db → Db → Type 0
Completes id width height d d' =
    (raw : Bytes) × (now : ℕ) × (d' ≡ (complete id raw width height now d).1)

abbrev pub Fails : Uuid → Db → Db → Type 0
Fails id d d' = (now : ℕ) × (d' ≡ fail_row id now d)

abbrev pub Publishes : ℕ → Db → Db → Type 0
Publishes id d d' = (now : ℕ) × (d' ≡ publish_row id now d)

pub data Step (d d' : Db) : Type 0 where
  creation : (a : Avatar) (ev : OutboxEvent) → Creates a ev d d' → Step d d'
  deletion :
      (id : Uuid) (user_id : Bytes) (ev : OutboxEvent) → Deletes id user_id ev d d' → Step d d'
  claiming : (id : Uuid) → Claims id d d' → Step d d'
  completion : (id : Uuid) (width height : ℤ) → Completes id width height d d' → Step d d'
  failure : (id : Uuid) → Fails id d d' → Step d d'
  publication : (id : ℕ) → Publishes id d d' → Step d d'

-- Any number of steps.
pub data Reach (d : Db) : Db → Type 0 where
  here : Reach d d
  next : {d' d'' : Db} → Reach d d' → Step d' d'' → Reach d d''

-- The write, or none.
abbrev pub AtMost : (Db → Db → Type 0) → Db → Db → Type 0
AtMost Write d d' = (d' ≡ d) ⊎ Write d d'

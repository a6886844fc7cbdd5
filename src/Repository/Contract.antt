-- ===== src/Repository/Contract.antt =====
-- What the methods of `AvatarRepository`, in internal/repository/postgres.go, promise of the tables,
-- row by row and without the statements.
pub mod Rows
pub mod Writes
pub mod Laws
use goprofile.Prelude.{
  ℕ, ◌+◌, ◌*◌, ◌/◌, ◌^◌, ◌<◌, ◌≡◌, ◌≢◌, ◌⊎◌, ◌↔◌, Bool, true, Bytes, List, [], ◌∷◌, ◌++◌, Option,
  none, some, All, if◌then◌else◌,
}
use goprofile.Prelude.Int.{ℤ, pos, ltb_ℤ}
use goprofile.Result.{Result, ok, err}
use goprofile.Domain.Errors.{Err}
use goprofile.Domain.Avatar.{
  Uuid, Avatar, KeyMap, OutboxEvent, JsonMap, thumbnail_keys_json, pending, processing, completed,
  failed, stored,
}
use goprofile.Services.Deps.{AvatarStore}
use goprofile.World.{Row, OutboxRow, Db, World, begin_call}

module _ {A : Type 0} where
  abbrev pub Pairs : (A → A → Type 0) → List A → List A → Type 0
  Pairs R [] [] = Unit
  Pairs R [] (y ∷ ys) = ⊥
  Pairs R (x ∷ xs) [] = ⊥
  Pairs R (x ∷ xs) (y ∷ ys) = R x y × Pairs R xs ys

  -- The rows with the property have changed, and the others stay, in their order.
  abbrev pub Changes : (A → Type 0) → (A → A) → List A → List A → Type 0
  Changes P f = Pairs (λ x y. (P x × (y ≡ f x)) ⊎ ((¬ P x) × (y ≡ x)))

-- The rows of the first table with the property have changed, and nothing else.
abbrev pub ChangesAvatars : (Row → Type 0) → (Row → Row) → Db → Db → Type 0
ChangesAvatars P f d d' =
    Changes P f d.avatars d'.avatars
    × (d'.outbox ≡ d.outbox)
    × (d'.next_outbox_id ≡ d.next_outbox_id)

abbrev pub IsLive : Uuid → Row → Type 0
IsLive id r = (r.id ≡ id) × (r.deleted_at ≡ none)

abbrev pub IsOwned : Uuid → Bytes → Row → Type 0
IsOwned id user_id r = (r.id ≡ id) × (r.user_id ≡ user_id) × (r.deleted_at ≡ none)

-- Nobody has begun with the row, or a try has failed, or has not ended within two minutes.
abbrev pub IsFree : ℕ → Row → Type 0
IsFree now r =
    (r.processing_status ≡ pending)
    ⊎ (r.processing_status ≡ failed)
    ⊎ ((r.processing_status ≡ processing) × (r.updated_at + 120 * 10 ^ 9 < now))

abbrev pub Claimed : Uuid → ℕ → Db → Db → Type 0
Claimed id now =
    ChangesAvatars (λ r. IsLive id r × IsFree now r)
      (λ r. record r {
        avatar = record r.avatar { processing_status = processing; updated_at = now };
      })

abbrev pub Completed : Uuid → Bytes → ℤ → ℤ → ℕ → Db → Db → Type 0
Completed id keys width height now = ChangesAvatars (IsLive id) (λ r. record r {
  avatar = record r.avatar {
    width = if ltb_ℤ (pos 0) width then width else r.width;
    height = if ltb_ℤ (pos 0) height then height else r.height;
    processing_status = completed;
    upload_status = stored;
    updated_at = now;
  };
  thumbnails = some keys;
})

abbrev pub Failed : Uuid → ℕ → Db → Db → Type 0
Failed id now =
    ChangesAvatars (IsLive id)
      (λ r. record r { avatar = record r.avatar { processing_status = failed; updated_at = now } })

abbrev pub Published : ℕ → ℕ → Db → Db → Type 0
Published id now d d' =
    (d'.avatars ≡ d.avatars)
    × Changes (λ o. o.id ≡ id) (λ o. record o { published_at = some now }) d.outbox d'.outbox
    × (d'.next_outbox_id ≡ d.next_outbox_id)

-- The event is in the outbox: as a new row, or in place of what the rows with its id had.
abbrev pub Enqueued : OutboxEvent → Db → Db → Type 0
Enqueued ev d d' =
    ((All (λ o. o.event_id ≢ ev.event_id) d.outbox
        × (d'.outbox
            ≡ d.outbox
              ++ record {
                id = d.next_outbox_id;
                event_id = ev.event_id;
                kind = ev.kind;
                payload = ev.payload;
                published_at = none;
              }
                ∷ []))
      ⊎ ((¬ All (λ o. o.event_id ≢ ev.event_id) d.outbox)
          × Changes (λ o. o.event_id ≡ ev.event_id)
              (λ o. record o { kind = ev.kind; payload = ev.payload }) d.outbox d'.outbox))
    × (d'.next_outbox_id ≡ d.next_outbox_id + 1)

-- The avatar's id was free; its row is there, with its times to the microsecond, and its event.
abbrev pub Created : Avatar → Bytes → OutboxEvent → Db → Db → Type 0
Created a keys ev d d' =
    All (λ r. r.id ≢ a.id) d.avatars
    × (d'.avatars
        ≡ d.avatars
          ++ record {
            avatar = record a {
              created_at = a.created_at / 1000 * 1000;
              updated_at = a.updated_at / 1000 * 1000;
              deleted_at = none;
            };
            thumbnails = some keys;
          }
            ∷ [])
    × Enqueued ev d d'

-- The user has a live row with the id; it is deleted, and the event is there.
abbrev pub Deleted : Uuid → Bytes → OutboxEvent → ℕ → Db → Db → Type 0
Deleted id user_id ev now d d' =
    (¬ All (λ r. ¬ IsOwned id user_id r) d.avatars)
    × Changes (IsOwned id user_id)
        (λ r. record r { avatar = record r.avatar { deleted_at = some now; updated_at = now } })
        d.avatars d'.avatars
    × Enqueued ev d d'

-- The write was made, at the time when the call returned, or the call failed, and nothing was.
abbrev pub Made : {A : Type 0} → (ℕ → Db → Db → Type 0) → Db → Result A × World → Type 0
Made Write d (r, w') = Write w'.now d w'.db ⊎ ((w'.db ≡ d) × ((e : Err) × (r ≡ err e)))

-- The same for a transaction, which has one time, that of its start.
abbrev pub MadeAt : {A : Type 0} → ℕ → (ℕ → Db → Db → Type 0) → Db → Result A × World → Type 0
MadeAt now Write d (r, w') = Write now d w'.db ⊎ ((w'.db ≡ d) × ((e : Err) × (r ≡ err e)))

abbrev pub map_or_none : Option KeyMap → KeyMap
map_or_none none = []
map_or_none (some keys) = keys

pub record Obeys (json : JsonMap) (store : AvatarStore World) : Type 0 where
  pub creates :
      (a : Avatar) (ev : OutboxEvent) (w : World)
      → Made
          (λ now. Created a (thumbnail_keys_json json a.thumbnail_s3_keys) ev)
          w.db
          (store.create_with_outbox a ev w)
  pub deletes :
      (id : Uuid) (user_id : Bytes) (ev : OutboxEvent) (w : World)
      → MadeAt
          (begin_call w).1.now
          (Deleted id user_id ev)
          w.db
          (store.soft_delete_owned_with_outbox id user_id ev w)
  pub claims : (id : Uuid) (w : World) → Made (Claimed id) w.db (store.mark_processing id w)
  -- whether there was such a row
  pub claims_tell :
      (id : Uuid) (hit : Bool) (w w' : World)
      → store.mark_processing id w ≡ (ok hit, w')
      → (hit ≡ true) ↔ (¬ All (λ r. ¬ (IsLive id r × IsFree w'.now r)) w.db.avatars)
  pub completes :
      (id : Uuid) (thumbs : Option KeyMap) (width height : ℤ) (w : World)
      → Made
          (Completed id (thumbnail_keys_json json (some (map_or_none thumbs))) width height)
          w.db
          (store.complete_processing id thumbs width height w)
  pub fails : (id : Uuid) (w : World) → Made (Failed id) w.db (store.fail_processing id w)
  pub publishes : (id : ℕ) (w : World) → Made (Published id) w.db (store.mark_outbox_published id w)

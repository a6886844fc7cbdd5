-- ===== src/Services/Outbox.antt =====
-- The outbox of internal/services/avatar.go: building events, publishing them with retries, and
-- flushing what is unpublished.
pub mod Flush
use goprofile.Prelude.{
  ℕ, zero, suc, ◌*◌, ◌^◌, Bytes, text, List, [], ◌∷◌, ◌++◌, Option, none, some, length,
  if◌then◌else◌, ◌==◌, text_eq, nat_eq,
}
use goprofile.Prelude.Int.{pos}
use goprofile.Result.{
  Result, ok, err, Exec, fail, lift, modify, error, first_of, or_first, ◌>>=◌, ◌>>◌,
}
use goprofile.Domain.Errors.{Err, wrapped, message}
use goprofile.Domain.Avatar.{
  Avatar, KeyMap, OutboxEvent, Kind, outbox_upload, outbox_delete, other_kind,
}
use goprofile.Domain.Events.{AvatarDeleteEvent, delete_event_id}
use goprofile.Services.Deps.{AvatarService, Library, outbox_unpublished}

-- `newOutboxEvent` behind its json.Marshal; the database numbers the row.
unfoldable pub new_outbox_event : Kind → Bytes → Result Bytes → Result OutboxEvent
new_outbox_event kind event_id (ok body) =
    ok (record { id = 0; event_id = event_id; kind = kind; payload = body })
new_outbox_event kind event_id (err e) = err e

-- The values of the map that are not "".
unfoldable pub present_keys : KeyMap → List Bytes
present_keys [] = []
present_keys ((_, k) ∷ m) = let rest = present_keys m in if k == [] then rest else k ∷ rest

abbrev pub thumbnail_values : Option KeyMap → List Bytes
thumbnail_values none = []
thumbnail_values (some m) = present_keys m

module _ {Image : Type 0} (library : Library Image) where
  unfoldable pub delete_event : Avatar → AvatarDeleteEvent
  delete_event a = record {
    event_id = delete_event_id (library.uuid_string a.id);
    avatar_id = library.uuid_string a.id;
    s3_keys = a.s3_key ∷ thumbnail_values a.thumbnail_s3_keys;
  }

  -- Go's order of the map's keys is random; here it is that of the list.
  unfoldable pub delete_outbox_event : Avatar → Result OutboxEvent
  delete_outbox_event a =
      let event = delete_event a in
      new_outbox_event outbox_delete event.event_id (library.marshal_delete event)

module _ {S : Type 0} (wait : ℕ → Exec S (Unit {0})) (fn : Exec S (Unit {0})) where
  -- The rounds left of `publishWithRetry`, with the time to wait after a failure.
  unfoldable pub publish_rounds : ℕ → ℕ → Exec S (Unit {0})
  publish_rounds zero backoff s = (ok tt, s)
  publish_rounds (suc zero) backoff s = fn s
  publish_rounds (suc (suc n)) backoff s =
      let again = publish_rounds (suc n) (backoff * 2) in
      let (r, s') = fn s in elim r [ ok _ ↦ (ok tt, s') | err e ↦ (wait backoff >> again) s' ]

  unfoldable pub publish_with_retry : ℕ → Exec S (Unit {0})
  publish_with_retry attempts = publish_rounds attempts (100 * 10 ^ 6)

module _ {S Image : Type 0} (service : AvatarService S Image) where
  open service use {repo, publisher, runtime, library}

  unfoldable pub publish_kind : Kind → Bytes → Exec S (Unit {0})
  publish_kind outbox_upload body = do
    event ← lift (library.unmarshal_upload body)
    publisher.publish_upload event
  publish_kind outbox_delete body = do
    event ← lift (library.unmarshal_delete body)
    publisher.publish_delete event
  publish_kind (other_kind kind) body = fail (message (text "unknown outbox kind " ++ kind))

  -- One round of the loop of `FlushOutbox`.
  unfoldable pub flush_item : OutboxEvent → Exec S (Unit {0})
  flush_item item = do
    publish_with_retry runtime.wait (publish_kind item.kind item.payload) 3
    repo.mark_outbox_published item.id

  -- The loop, with the first error so far.
  unfoldable pub flush_items : List OutboxEvent → Option Err → S → Option Err × S
  flush_items [] first s = (first, s)
  flush_items (item ∷ items) first s =
      let (r, s') = flush_item item s in flush_items items (first_of first (error r)) s'

  unfoldable pub flush_outbox : Exec S (Unit {0})
  flush_outbox = do
    items ← repo.list_unpublished (pos 50)
    modify (runtime.observe (outbox_unpublished (length items)))
    λ s. let (first, s') = flush_items items none s in (or_first first, s')

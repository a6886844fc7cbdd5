-- ===== src/App/Delivered/Served.antt =====
-- The outbox and the topics behind any sequence of calls of the service.
use goprofile.Prelude.{◌≡◌, ◌≢◌, inl, inr, Bytes, List, [], ◌++◌, arith}
use mathlib.Core.Path.{subst}
use goprofile.Result.{ok}
use goprofile.Result.Laws.{Result-cases}
use goprofile.Result.Moves.{IsPreorder}
use goprofile.Domain.Avatar.{Avatar, OutboxEvent, outbox_upload, outbox_delete}
use goprofile.Domain.Events.{AvatarUploadEvent, AvatarDeleteEvent, upload_event_id, delete_event_id}
use goprofile.Services.Upload.{upload_outbox_event, upload_event}
use goprofile.Services.Outbox.{delete_outbox_event, new_outbox_event, delete_event}
use goprofile.World.{World, Header}
use goprofile.App.{Setup}
use goprofile.App.Moves.{WritesMove, new_service-AllMove}
use goprofile.App.Requests.{Request, served_all, served_all-moves}
use goprofile.App.Delivered.{IsWhole, IsDelivered, Quiet-IsDelivered}
use goprofile.App.Delivered.Writes.{
  Creates-IsDelivered, Deletes-IsDelivered, Claims-IsDelivered, Completes-IsDelivered,
  Fails-IsDelivered,
}
use goprofile.App.Delivered.Flush.{flush_outbox-IsDelivered}

-- What the model relies on: the propagator adds its headers behind those that are there, and the id
-- of an event survives its encoding as JSON.
pub record Faithful {Image : Type 0} (setup : Setup Image) : Type 0 where
  pub own : List Header
  pub appends : (headers : List Header) → setup.producer.inject headers ≡ headers ++ own
  pub upload_ids :
      (a : Avatar) (body : Bytes) (e : AvatarUploadEvent)
      → setup.library.marshal_upload (upload_event setup.library a) ≡ ok body
      → setup.library.unmarshal_upload body ≡ ok e
      → e.event_id ≡ (upload_event setup.library a).event_id
  pub delete_ids :
      (a : Avatar) (body : Bytes) (e : AvatarDeleteEvent)
      → setup.library.marshal_delete (delete_event setup.library a) ≡ ok body
      → setup.library.unmarshal_delete body ≡ ok e
      → e.event_id ≡ (delete_event setup.library a).event_id

upload_event_id-nonempty : (x : Bytes) → upload_event_id x ≢ []
unfolding upload_event_id
upload_event_id-nonempty x h = ground arith

delete_event_id-nonempty : (x : Bytes) → delete_event_id x ≢ []
unfolding delete_event_id
delete_event_id-nonempty x h = ground arith

module _ {Image : Type 0} (setup : Setup Image) (faithful : Faithful setup) where
  open setup use {library}

  abbrev IsWholeEvent : OutboxEvent → Type 0
  IsWholeEvent ev = IsWhole library ev.kind ev.payload ev.event_id

  upload_outbox_event-IsWhole :
      (a : Avatar) (ev : OutboxEvent) → upload_outbox_event library a ≡ ok ev → IsWholeEvent ev
  unfolding upload_outbox_event upload_event new_outbox_event
  upload_outbox_event-IsWhole a ev made =
      elim (Result-cases (library.marshal_upload (upload_event library a))) [
        | inr (e, failed) ↦ absurd (ground arith)
        | inl (body, worked) ↦
            let built : OutboxEvent = record {
              id = 0;
              event_id = upload_event_id (library.uuid_string a.id);
              kind = outbox_upload;
              payload = body;
            } in
            let same : built ≡ ev = ground arith in
            subst IsWholeEvent same (
              (λ e read. faithful.upload_ids a body e worked read),
              upload_event_id-nonempty (library.uuid_string a.id),
            )
      ]

  delete_outbox_event-IsWhole :
      (a : Avatar) (ev : OutboxEvent) → delete_outbox_event library a ≡ ok ev → IsWholeEvent ev
  unfolding delete_outbox_event delete_event new_outbox_event
  delete_outbox_event-IsWhole a ev made =
      elim (Result-cases (library.marshal_delete (delete_event library a))) [
        | inr (e, failed) ↦ absurd (ground arith)
        | inl (body, worked) ↦
            let built : OutboxEvent = record {
              id = 0;
              event_id = delete_event_id (library.uuid_string a.id);
              kind = outbox_delete;
              payload = body;
            } in
            let same : built ≡ ev = ground arith in
            subst IsWholeEvent same (
              (λ e read. faithful.delete_ids a body e worked read),
              delete_event_id-nonempty (library.uuid_string a.id),
            )
      ]

  abbrev KeepsDelivered : World → World → Type 0
  KeepsDelivered w w' = IsDelivered library w → IsDelivered library w'

  KeepsDelivered-IsPreorder : IsPreorder KeepsDelivered
  KeepsDelivered-IsPreorder = record { stays = λ w h. h; joins = λ s t u h k x. k (h x) }

  KeepsDelivered-WritesMove : WritesMove library KeepsDelivered
  KeepsDelivered-WritesMove = record {
    quiet = Quiet-IsDelivered library;
    creates = λ a ev w w' made live.
        Creates-IsDelivered library a ev w w' (upload_outbox_event-IsWhole a ev made);
    deletes = λ id user_id a ev w w' made same.
        Deletes-IsDelivered library id user_id ev w w' (delete_outbox_event-IsWhole a ev made);
    claims = Claims-IsDelivered library;
    completes = Completes-IsDelivered library;
    fails = Fails-IsDelivered library;
  }

  -- Where the propagator only adds headers, and JSON keeps the ids of events: behind any sequence
  -- of calls of the service, whatever calls of theirs fail or lose their replies, each outbox row
  -- that is marked as published has a message in the topics from which a consumer reads the row's
  -- event id, the tables are consistent, and each payload that can be read has its row's event id,
  -- if all of this held before.
  pub served_all-IsDelivered :
      (requests : List Request) (w : World)
      → IsDelivered library w
      → IsDelivered library (served_all setup requests w)
  served_all-IsDelivered requests w =
      served_all-moves setup KeepsDelivered KeepsDelivered-IsPreorder
        (new_service-AllMove setup KeepsDelivered-WritesMove)
        (record { at = flush_outbox-IsDelivered setup faithful.own faithful.appends }) requests w

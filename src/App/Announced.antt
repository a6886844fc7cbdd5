-- ===== src/App/Announced.antt =====
-- The outbox behind any sequence of calls of the service.
use goprofile.Prelude.{◌≡◌, inl, inr, none, List, arith}
use goprofile.Result.{ok}
use goprofile.Result.Laws.{Result-cases}
use goprofile.Result.Moves.{IsPreorder}
use mathlib.Core.Path.{subst}
use goprofile.Prelude.{sym}
use goprofile.Domain.Avatar.{Avatar, OutboxEvent}
use goprofile.Services.Upload.{upload_outbox_event, upload_event}
use goprofile.Services.Outbox.{delete_outbox_event, new_outbox_event, delete_event}
use goprofile.World.{World}
use goprofile.Repository.Announced.{IsAnnounced, AnnouncesUpload, AnnouncesDelete}
use goprofile.Repository.Announced.Writes.{
  Creates-IsAnnounced, Deletes-IsAnnounced, Claims-IsAnnounced, Completes-IsAnnounced,
  Fails-IsAnnounced, Publishes-IsAnnounced,
}
use goprofile.App.{Setup, new_service}
use goprofile.App.Quiet.{Quiet}
use goprofile.Services.Moves.Background.{flush_outbox-Moves}
use goprofile.App.Moves.{WritesMove, new_service-AllMove, mark_outbox_published-Moves}
use goprofile.App.Requests.{Request, served_all, served_all-moves}

module _ {Image : Type 0} (setup : Setup Image) where
  open setup use {library}

  upload_outbox_event-AnnouncesUpload :
      (a : Avatar) (ev : OutboxEvent)
      → upload_outbox_event library a ≡ ok ev
      → a.deleted_at ≡ none
      → AnnouncesUpload library.uuid_string a ev
  unfolding upload_outbox_event upload_event new_outbox_event
  upload_outbox_event-AnnouncesUpload a ev made live =
      elim (Result-cases (library.marshal_upload (upload_event library a))) [
        | inl (body, worked) ↦ (ground arith, ground arith, live)
        | inr (e, failed) ↦ absurd (ground arith)
      ]

  delete_outbox_event-AnnouncesDelete :
      (a : Avatar) (ev : OutboxEvent)
      → delete_outbox_event library a ≡ ok ev
      → AnnouncesDelete library.uuid_string a.id ev
  unfolding delete_outbox_event delete_event new_outbox_event
  delete_outbox_event-AnnouncesDelete a ev made =
      elim (Result-cases (library.marshal_delete (delete_event library a))) [
        | inl (body, worked) ↦ (ground arith, ground arith)
        | inr (e, failed) ↦ absurd (ground arith)
      ]

  abbrev KeepsAnnounced : World → World → Type 0
  KeepsAnnounced w w' = IsAnnounced library.uuid_string w.db → IsAnnounced library.uuid_string w'.db

  KeepsAnnounced-IsPreorder : IsPreorder KeepsAnnounced
  KeepsAnnounced-IsPreorder = record { stays = λ w h. h; joins = λ s t u h k x. k (h x) }

  Quiet-KeepsAnnounced : (w w' : World) → Quiet w w' → KeepsAnnounced w w'
  Quiet-KeepsAnnounced w w' (same, _) = subst (IsAnnounced library.uuid_string) (sym same)

  KeepsAnnounced-WritesMove : WritesMove library KeepsAnnounced
  KeepsAnnounced-WritesMove = record {
    quiet = Quiet-KeepsAnnounced;
    creates = λ a ev w w' made live wrote silent.
        Creates-IsAnnounced _ a ev w.db w'.db (upload_outbox_event-AnnouncesUpload a ev made live)
          wrote;
    deletes = λ id user_id a ev w w' made same wrote silent.
        Deletes-IsAnnounced _ id user_id ev w.db w'.db
          (subst (λ id. AnnouncesDelete library.uuid_string id ev) same
            (delete_outbox_event-AnnouncesDelete a ev made))
          wrote;
    claims = λ id w w' wrote silent. Claims-IsAnnounced _ id w.db w'.db wrote;
    completes = λ id width height w w' wrote silent.
        Completes-IsAnnounced _ id width height w.db w'.db wrote;
    fails = λ id w w' wrote silent. Fails-IsAnnounced _ id w.db w'.db wrote;
  }

  -- Behind any sequence of calls of the service, whatever calls of theirs fail or lose their
  -- replies, the outbox has the upload event of every avatar, and the deletion event of every
  -- avatar that is deleted, if it had them before.
  pub served_all-IsAnnounced :
      (requests : List Request) (w : World)
      → IsAnnounced library.uuid_string w.db
      → IsAnnounced library.uuid_string (served_all setup requests w).db
  served_all-IsAnnounced requests w =
      let all = new_service-AllMove setup KeepsAnnounced-WritesMove in
      served_all-moves setup KeepsAnnounced KeepsAnnounced-IsPreorder all
        (flush_outbox-Moves KeepsAnnounced-IsPreorder (new_service setup) all (λ id.
          mark_outbox_published-Moves setup id Quiet-KeepsAnnounced
            (λ w w' wrote silent. Publishes-IsAnnounced _ id w.db w'.db wrote)))
        requests w

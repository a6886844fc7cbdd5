-- ===== src/App/Moves.antt =====
-- What the calls of the whole service do to the tables, from what the repository writes.
use goprofile.Prelude.{◌+◌, ◌∷◌, ℕ, ◌≡◌, refl, none, inl, inr, Bytes}
use goprofile.Result.{Exec, ok}
use goprofile.Result.Moves.{Moves}
use goprofile.Prelude.Int.{ℤ}
use goprofile.Domain.Avatar.{Uuid, Avatar, OutboxEvent}
use goprofile.Services.Deps.{new_avatar_service}
use goprofile.Services.Upload.{upload_outbox_event}
use goprofile.Services.Outbox.{delete_outbox_event}
use goprofile.Services.Moves.{AllMove}
use goprofile.Repository.Steps.{AtMost, Creates, Deletes, Claims, Completes, Fails, Publishes}
use goprofile.Repository.Refines.{avatar_repository-Refines}
use goprofile.World.{World, Db, real_runtime}
use goprofile.Services.Deps.{Library}
use goprofile.Repository.Topics.{
  Silent, topics-create_with_outbox, topics-soft_delete, topics-mark_processing,
  topics-complete_processing, topics-fail_processing, topics-mark_outbox_published,
  topics-get_by_id, topics-get_latest, topics-list, topics-list_unpublished, topics-list_stuck,
}
use goprofile.App.Quiet.{
  Quiet, Silent-Quiet, download-Quiet, upload-Quiet, delete-Quiet, wait-Quiet, publish_upload-Quiet,
  publish_delete-Quiet,
}
use goprofile.App.{Setup, new_service}

-- The relation has what the service writes, but for the marks of the outbox, and what it sends.
pub record WritesMove {Image : Type 0} (library : Library Image) (R : World → World → Type 0)
    : Type 0 where
  pub quiet : (w w' : World) → Quiet w w' → R w w'
  pub creates :
      (a : Avatar) (ev : OutboxEvent) (w w' : World)
      → upload_outbox_event library a ≡ ok ev
      → a.deleted_at ≡ none
      → Creates a ev w.db w'.db
      → w'.topics ≡ w.topics
      → R w w'
  pub deletes :
      (id : Uuid) (user_id : Bytes) (a : Avatar) (ev : OutboxEvent) (w w' : World)
      → delete_outbox_event library a ≡ ok ev
      → a.id ≡ id
      → Deletes id user_id ev w.db w'.db
      → w'.topics ≡ w.topics
      → R w w'
  pub claims : (id : Uuid) (w w' : World) → Claims id w.db w'.db → w'.topics ≡ w.topics → R w w'
  pub completes :
      (id : Uuid) (width height : ℤ) (w w' : World)
      → Completes id width height w.db w'.db
      → w'.topics ≡ w.topics
      → R w w'
  pub fails : (id : Uuid) (w w' : World) → Fails id w.db w'.db → w'.topics ≡ w.topics → R w w'

module _ {R : World → World → Type 0} (quiet : (w w' : World) → Quiet w w' → R w w') where
  AtMost-Moves :
      {A : Type 0} (Write : Db → Db → Type 0) (m : Exec World A)
      → ((w w' : World) → Write w.db w'.db → w'.topics ≡ w.topics → R w w')
      → Silent m
      → ((w : World) → AtMost Write w.db (m w).1.db)
      → Moves R m
  AtMost-Moves Write m moves silent writes = record {
    at = λ w. elim (writes w) [
      | inl same ↦ quiet w _ (Silent-Quiet w (m w).1 same (silent w))
      | inr wrote ↦ moves w _ wrote (silent w)
    ];
  }

  Silent-Moves :
      {A : Type 0} (m : Exec World A) → ((w : World) → (m w).1.db ≡ w.db) → Silent m → Moves R m
  Silent-Moves m same silent = record {
    at = λ w. quiet w (m w).1 (Silent-Quiet w (m w).1 (same w) (silent w));
  }

  Quiet-Moves : {A : Type 0} (m : Exec World A) → ((w : World) → Quiet w (m w).1) → Moves R m
  Quiet-Moves m same = record { at = λ w. quiet w _ (same w) }

module _ {Image : Type 0} (setup : Setup Image) where
  open setup use {json, library, detect_content_type, producer}

  pub mark_outbox_published-Moves :
      {R : World → World → Type 0} (id : ℕ)
      → ((w w' : World) → Quiet w w' → R w w')
      → ((w w' : World) → Publishes id w.db w'.db → w'.topics ≡ w.topics → R w w')
      → Moves R ((new_service setup).repo.mark_outbox_published id)
  unfolding new_service new_avatar_service
  mark_outbox_published-Moves id quiet publishes =
      AtMost-Moves quiet _ _ publishes (topics-mark_outbox_published json id)
        ((avatar_repository-Refines json).mark_outbox_published_publishes id)

  pub new_service-AllMove :
      {R : World → World → Type 0} → WritesMove library R → AllMove R (new_service setup)
  unfolding new_service new_avatar_service real_runtime
  new_service-AllMove writes =
      let store = avatar_repository-Refines json in
      let quiet = writes.quiet in
      record {
        create_moves = λ a ev made live.
            AtMost-Moves quiet _ _ (λ w w'. writes.creates a ev w w' made live)
              (topics-create_with_outbox json a ev) (store.create_with_outbox_creates a ev);
        get_moves =
            λ id. Silent-Moves quiet _ (store.get_by_id_reads id) (topics-get_by_id json id);
        get_returns = store.get_by_id_returns;
        latest_moves = λ user_id.
            Silent-Moves quiet _ (store.get_latest_reads user_id) (topics-get_latest json user_id);
        list_moves =
            λ user_id. Silent-Moves quiet _ (store.list_reads user_id) (topics-list json user_id);
        delete_moves = λ id user_id a ev made same.
            AtMost-Moves quiet _ _ (λ w w'. writes.deletes id user_id a ev w w' made same)
              (topics-soft_delete json id user_id ev) (store.soft_delete_deletes id user_id ev);
        mark_moves = λ id.
            AtMost-Moves quiet _ _ (writes.claims id) (topics-mark_processing json id)
              (store.mark_processing_claims id);
        complete_moves = λ id thumbs width height.
            AtMost-Moves quiet _ _ (writes.completes id width height)
              (topics-complete_processing json id thumbs width height)
              (store.complete_processing_completes id thumbs width height);
        fail_moves = λ id.
            AtMost-Moves quiet _ _ (writes.fails id) (topics-fail_processing json id)
              (store.fail_processing_fails id);
        unpublished_moves = λ limit.
            Silent-Moves quiet _ (store.list_unpublished_reads limit)
              (topics-list_unpublished json limit);
        stuck_moves = λ limit.
            Silent-Moves quiet _ (store.list_stuck_reads limit) (topics-list_stuck json limit);
        put_moves =
            λ key mime body. Quiet-Moves quiet _ (upload-Quiet detect_content_type key mime body);
        fetch_moves = λ key. Quiet-Moves quiet _ (download-Quiet key);
        remove_moves = λ keys. Quiet-Moves quiet _ (delete-Quiet keys);
        publish_upload_moves =
            λ event. Quiet-Moves quiet _ (publish_upload-Quiet library producer event);
        publish_delete_moves =
            λ event. Quiet-Moves quiet _ (publish_delete-Quiet library producer event);
        draw_moves = λ w. quiet w _ (Silent-Quiet w (record w { drawn = w.drawn + 1 }) refl refl);
        wait_moves = λ backoff. Quiet-Moves quiet _ (wait-Quiet backoff);
        observe_moves =
            λ o w. quiet w _ (Silent-Quiet w (record w { metrics = o ∷ w.metrics }) refl refl);
      }

-- ===== src/App/Requests.antt =====
-- Any sequence of calls of the service, with any failures, and what holds of the tables behind it.
use goprofile.Prelude.{ℕ, sym, Bytes, List, [], ◌∷◌}
use mathlib.Core.Path.{subst}
use goprofile.Result.Moves.{IsPreorder, Moves}
use goprofile.Domain.Avatar.{Uuid}
use goprofile.Domain.Events.{AvatarUploadEvent, AvatarDeleteEvent}
use goprofile.Services.Upload.{upload}
use goprofile.Services.Delete.{delete, delete_latest, process_delete}
use goprofile.Services.Outbox.{flush_outbox}
use goprofile.Services.Process.{process_upload, recover_stuck}
use goprofile.Services.Moves.{AllMove, upload-Moves, delete-Moves, delete_latest-Moves}
use goprofile.Services.Moves.Background.{
  process_delete-Moves, process_upload-Moves, recover_stuck-Moves, flush_outbox-Moves,
}
use goprofile.World.{World, Db}
use goprofile.Repository.Steps.{
  Reach, here, next, creation, deletion, claiming, completion, failure, publication,
}
use goprofile.Repository.Invariant.{IsConsistent, Reach-IsConsistent}
use goprofile.Repository.History.{Follows, Reach-Follows}
use goprofile.App.{Setup, new_service}
use goprofile.App.Quiet.{Quiet}
use goprofile.App.Moves.{WritesMove, new_service-AllMove, mark_outbox_published-Moves}

-- The tables move by steps of the repository.
abbrev pub Writes : World → World → Type 0
Writes w w' = Reach w.db w'.db

Reach-trans : {d d' d'' : Db} → Reach d d' → Reach d' d'' → Reach d d''
Reach-trans h here = h
Reach-trans h (next r st) = next (Reach-trans h r) st

Writes-IsPreorder : IsPreorder Writes
Writes-IsPreorder = record { stays = λ w. here; joins = λ s t u h k. Reach-trans h k }

module _ {Image : Type 0} (setup : Setup Image) where
  open setup use {library}

  Quiet-Writes : (w w' : World) → Quiet w w' → Writes w w'
  Quiet-Writes w w' (same, _) = subst (Reach w.db) (sym same) here

  Writes-WritesMove : WritesMove library Writes
  Writes-WritesMove = record {
    quiet = Quiet-Writes;
    creates = λ a ev w w' made live wrote silent. next here (creation a ev wrote);
    deletes =
        λ id user_id a ev w w' made same wrote silent. next here (deletion id user_id ev wrote);
    claims = λ id w w' wrote silent. next here (claiming id wrote);
    completes = λ id width height w w' wrote silent. next here (completion id width height wrote);
    fails = λ id w w' wrote silent. next here (failure id wrote);
  }

  mark-Writes : (id : ℕ) → Moves Writes ((new_service setup).repo.mark_outbox_published id)
  mark-Writes id =
      mark_outbox_published-Moves setup id Quiet-Writes
        (λ w w' wrote silent. next here (publication id wrote))

-- The calls of the service that may write, by the server and by the worker.
pub data Request : Type 0 where
  uploading : Bytes → Bytes → Bytes → Request
  deleting : Uuid → Bytes → Request
  deleting_latest : Bytes → Request
  processing_upload : AvatarUploadEvent → Request
  processing_delete : AvatarDeleteEvent → Request
  flushing recovering : Request

module _ {Image : Type 0} (setup : Setup Image) where
  -- The world that a call leaves, whatever it returns.
  abbrev pub served : Request → World → World
  served (uploading user_id file_name bytes) w =
      (upload (new_service setup) user_id file_name bytes w).1
  served (deleting id user_id) w = (delete (new_service setup) id user_id w).1
  served (deleting_latest user_id) w = (delete_latest (new_service setup) user_id w).1
  served (processing_upload event) w = (process_upload (new_service setup) event w).1
  served (processing_delete event) w = (process_delete (new_service setup) event w).1
  served flushing w = (flush_outbox (new_service setup) w).1
  served recovering w = (recover_stuck (new_service setup) w).1

  abbrev pub served_all : List Request → World → World
  served_all [] w = w
  served_all (q ∷ requests) w = served_all requests (served q w)

  -- Each call moves along a relation that the service's interfaces keep.
  module _ (R : World → World → Type 0) (order : IsPreorder R) (all : AllMove R (new_service setup))
      (flushes : Moves R (flush_outbox (new_service setup))) where
    served-moves : (q : Request) (w : World) → R w (served q w)
    served-moves q w =
        let service = new_service setup in
        elim q as (λ q. R w (served q w)) [
          | uploading user_id file_name bytes ↦
              (upload-Moves order service all user_id file_name bytes).at w
          | deleting id user_id ↦ (delete-Moves order service all id user_id).at w
          | deleting_latest user_id ↦ (delete_latest-Moves order service all user_id).at w
          | processing_upload event ↦ (process_upload-Moves order service all event).at w
          | processing_delete event ↦ (process_delete-Moves order service all event).at w
          | flushing ↦ flushes.at w
          | recovering ↦ (recover_stuck-Moves order service all).at w
        ]

    pub served_all-moves : (requests : List Request) (w : World) → R w (served_all requests w)
    served_all-moves [] w = order.stays w
    served_all-moves (q ∷ requests) w =
        order.joins w _ _ (served-moves q w) (served_all-moves requests (served q w))

  served_all-Writes : (requests : List Request) (w : World) → Writes w (served_all requests w)
  served_all-Writes =
      let all = new_service-AllMove setup (Writes-WritesMove setup) in
      served_all-moves Writes Writes-IsPreorder all
        (flush_outbox-Moves Writes-IsPreorder (new_service setup) all (mark-Writes setup))

  -- Any sequence of calls of the service, whatever calls of theirs fail or lose their replies,
  -- keeps the ids of avatars and of outbox rows and the event ids unique, and the sequence of the
  -- outbox ahead of its ids.
  pub served_all-IsConsistent :
      (requests : List Request) (w : World)
      → IsConsistent w.db
      → IsConsistent (served_all requests w).db
  served_all-IsConsistent requests w c = Reach-IsConsistent c (served_all-Writes requests w)

  -- Behind any sequence of calls of the service, whatever calls of theirs fail or lose their
  -- replies, every avatar's row is still in its place, with the same id, user, file name, MIME
  -- type, size, object key and creation time; a row that was deleted is the same in every column;
  -- and every outbox row is still in its place, with the same ids, and is published if it was.
  pub served_all-Follows :
      (requests : List Request) (w : World) → Follows w.db (served_all requests w).db
  served_all-Follows requests w = Reach-Follows (served_all-Writes requests w)

-- ===== src/App/Quiet.antt =====
-- Calls that leave the tables and only add to the topics.
use goprofile.Prelude.{ℕ, ◌≡◌, refl, sym, ◌∙◌, inl, inr, Bytes, List, [], ◌∷◌, ◌++◌, arith}
use mathlib.Core.List.{append-nil}
use goprofile.Text.{trim_space}
use goprofile.Result.{Result, ok, err}
use goprofile.Domain.Events.{AvatarUploadEvent, AvatarDeleteEvent}
use goprofile.Services.Deps.{Library}
use goprofile.World.{World, Message, real_runtime, external_call, begin_call}
use goprofile.Repository.Tx.Laws.{Outcome-cases}
use goprofile.Storage.{upload, download, delete, remove_call}
use goprofile.Storage.Laws.{db-upload, db-delete}
use goprofile.Broker.{
  Producer, publish_upload, publish_delete, write_json, write_message, message_of, observe,
}

-- The tables stay, and the topics may grow.
abbrev pub Quiet : World → World → Type 0
Quiet w w' = (w'.db ≡ w.db) × ((more : List Message) × (w'.topics ≡ w.topics ++ more))

pub Silent-Quiet : (w w' : World) → w'.db ≡ w.db → w'.topics ≡ w.topics → Quiet w w'
Silent-Quiet w w' db topics = (db, ([], topics ∙ sym (append-nil w.topics)))

pub db-download : (key : Bytes) (w : World) → (download key w).1.db ≡ w.db
unfolding download external_call
db-download key w = ground arith

topics-download : (key : Bytes) (w : World) → (download key w).1.topics ≡ w.topics
unfolding download external_call
topics-download key w = ground arith

pub download-Quiet : (key : Bytes) (w : World) → Quiet w (download key w).1
download-Quiet key w = Silent-Quiet w (download key w).1 (db-download key w) (topics-download key w)

topics-upload :
    (detect : Bytes → Bytes) (key kind body : Bytes) (w : World)
    → (upload detect key kind body w).1.topics ≡ w.topics
unfolding upload external_call
topics-upload detect key kind body w = ground arith

pub upload-Quiet :
    (detect : Bytes → Bytes) (key kind body : Bytes) (w : World)
    → Quiet w (upload detect key kind body w).1
upload-Quiet detect key kind body w =
    Silent-Quiet w (upload detect key kind body w).1 (db-upload detect key kind body w)
      (topics-upload detect key kind body w)

topics-remove_call : (key : Bytes) (w : World) → (remove_call key w).1.topics ≡ w.topics
unfolding remove_call external_call
topics-remove_call key w = ground arith

topics-delete : (keys : List Bytes) (w : World) → (delete keys w).1.topics ≡ w.topics
unfolding delete
topics-delete [] w = refl
topics-delete (k ∷ keys) w = ground (
  arith,
  topics-delete keys w,
  topics-remove_call (trim_space k) w,
  topics-delete keys (remove_call (trim_space k) w).1,
)

pub delete-Quiet : (keys : List Bytes) (w : World) → Quiet w (delete keys w).1
delete-Quiet keys w = Silent-Quiet w (delete keys w).1 (db-delete keys w) (topics-delete keys w)

pub wait-Quiet : (backoff : ℕ) (w : World) → Quiet w (real_runtime.wait backoff w).1
unfolding real_runtime external_call
wait-Quiet backoff w = Silent-Quiet w (real_runtime.wait backoff w).1 (ground arith) (ground arith)

-- The message is there, unless the call breaks.
write_message-Quiet : (msg : Message) (w : World) → Quiet w (write_message msg w).1
unfolding write_message external_call
write_message-Quiet msg w = elim (Outcome-cases (begin_call w).0) [
  | inl worked ↦ (ground arith, (msg ∷ [], ground arith))
  | inr (inl broke) ↦ Silent-Quiet w (write_message msg w).1 (ground arith) (ground arith)
  | inr (inr lost) ↦ (ground arith, (msg ∷ [], ground arith))
]

module _ (p : Producer) (topic key event_id : Bytes) where
  write_json-Quiet :
      (marshalled : Result Bytes) (w : World)
      → Quiet w (write_json p topic key event_id marshalled w).1
  unfolding write_json observe
  write_json-Quiet (err e) w = Silent-Quiet w w refl refl
  write_json-Quiet (ok body) w = write_message-Quiet (message_of p topic key event_id body) w

  -- A publication that works has put its message at the end of the topics.
  pub write_json-ok :
      (body : Bytes) (w w' : World)
      → write_json p topic key event_id (ok body) w ≡ (ok tt, w')
      → w'.topics ≡ w.topics ++ message_of p topic key event_id body ∷ []
  unfolding write_json write_message observe external_call
  write_json-ok body w w' h = ground arith

module _ {Image : Type 0} (library : Library Image) (p : Producer) where
  pub publish_upload-Quiet :
      (event : AvatarUploadEvent) (w : World) → Quiet w (publish_upload library p event w).1
  unfolding publish_upload
  publish_upload-Quiet event w = write_json-Quiet p _ _ _ (library.marshal_upload event) w

  pub publish_delete-Quiet :
      (event : AvatarDeleteEvent) (w : World) → Quiet w (publish_delete library p event w).1
  unfolding publish_delete
  publish_delete-Quiet event w = write_json-Quiet p _ _ _ (library.marshal_delete event) w

-- ===== src/App/Processed.antt =====
-- The processing of an upload where every call works.
use goprofile.Prelude.{
  ◌≡◌, refl, ap, ◌∙◌, Bytes, [], some, arith, if◌then◌else◌, ◌==◌, text_eq, nat_eq, text_beq, ◌∷◌,
}
use mathlib.Core.Path.{subst}
use goprofile.Result.{Result, ok}
use goprofile.Domain.Avatar.{
  Uuid, Avatar, KeyMap, map_set, pending, size_100, size_300, thumbnail_object_key,
}
use goprofile.Domain.Events.{AvatarUploadEvent}
use goprofile.Image.{Codec, Info, inspect, make_thumbnail, format_from_mime, ext_for_mime}
use goprofile.Services.Deps.{new_avatar_service}
use goprofile.Services.Process.{
  store_thumbnail, store_thumbnails, process_image, process_claimed, process_found,
  process_upload_event, process_upload,
}
use goprofile.World.{World, Row, real_runtime}
use goprofile.Storage.{object_at, download}
use goprofile.Repository.Tables.{select_one, is_live_row}
use goprofile.Repository.Queries.{avatar_of, get_by_id, mark_processing, complete_processing}
use goprofile.App.{Setup, new_service}
use goprofile.App.Completion.{IsCompleted, complete-IsCompleted}
use goprofile.App.Calm.{
  IsCalm, get_by_id-works, download-works, store_thumbnail-works, mark_processing-works,
  complete_processing-works,
}

-- The object is there, it is an image, and both of its thumbnails can be made.
pub record IsReadable {Image : Type 0} (codec : Codec Image) (key : Bytes) (w : World)
    : Type 0 where
  pub kind : Bytes
  pub bytes : Bytes
  pub info : Info
  pub small : Bytes × Bytes
  pub large : Bytes × Bytes
  pub stored : object_at key w.objects ≡ some (kind, bytes)
  pub inspected : inspect codec bytes ≡ ok info
  pub made_small : make_thumbnail codec bytes 100 100 (format_from_mime info.mime) ≡ ok small
  pub made_large : make_thumbnail codec bytes 300 300 (format_from_mime info.mime) ≡ ok large

abbrev kept-IsReadable :
    {Image : Type 0} (codec : Codec Image) (key : Bytes) (w w' : World)
    → w'.objects ≡ w.objects
    → IsReadable codec key w
    → IsReadable codec key w'
kept-IsReadable codec key w w' same image = record {
  kind = image.kind;
  bytes = image.bytes;
  info = image.info;
  small = image.small;
  large = image.large;
  stored = ap (object_at key) same ∙ image.stored;
  inspected = image.inspected;
  made_small = image.made_small;
  made_large = image.made_large;
}

module _ {Image : Type 0} (setup : Setup Image) (id : Uuid) where
  open setup use {json, library}

  -- The processing worked, and the row is completed, with these keys of its thumbnails.
  abbrev pub IsProcessed : KeyMap → Result (Unit {0}) × World → Type 0
  IsProcessed thumbs (r, w') = (r ≡ ok tt) × IsCompleted setup id thumbs w'

  -- The keys of two thumbnails of these MIME types.
  abbrev pub both_keys : Bytes → Bytes → Bytes → KeyMap
  both_keys avatar_id mime₁ mime₂ =
      (size_100, thumbnail_object_key avatar_id size_100 (ext_for_mime mime₁))
      ∷ (size_300, thumbnail_object_key avatar_id size_300 (ext_for_mime mime₂))
      ∷ []

  completed-IsProcessed :
      (thumbs : KeyMap) (info : Info) (w : World) (r : Row)
      → IsCalm w
      → select_one (is_live_row id) w.db.avatars ≡ some r
      → IsProcessed thumbs (complete_processing json id (some thumbs) info.width info.height w)
  completed-IsProcessed thumbs info w r calm there =
      let worked =
        complete_processing-works setup id thumbs info.width info.height w r calm there in
      let w' = (complete_processing json id (some thumbs) info.width info.height w).1 in
      (
        worked,
        complete-IsCompleted setup id thumbs info.width info.height w w' (ap (λ r. (r, w')) worked),
      )

  process_image-IsProcessed :
      (avatar_id bytes : Bytes) (info : Info) (small large : Bytes × Bytes) (w : World) (r : Row)
      → IsCalm w
      → select_one (is_live_row id) w.db.avatars ≡ some r
      → make_thumbnail library.codec bytes 100 100 (format_from_mime info.mime) ≡ ok small
      → make_thumbnail library.codec bytes 300 300 (format_from_mime info.mime) ≡ ok large
      → IsProcessed
          (both_keys avatar_id small.1 large.1)
          (process_image (new_service setup) id avatar_id bytes (ok info) w)
  unfolding store_thumbnails new_service new_avatar_service map_set text_beq
  process_image-IsProcessed avatar_id bytes info (body₁, mime₁) (body₂, mime₂) w r calm there made₁
        made₂ =
      let service = new_service setup in
      let (worked₁, db₁, calm₁) =
        store_thumbnail-works setup id avatar_id bytes size_100 info 100 100 body₁ mime₁ w calm
          made₁ in
      let w₁ = (store_thumbnail service id avatar_id bytes info (size_100, 100, 100) w).1 in
      let (worked₂, db₂, calm₂) =
        store_thumbnail-works setup id avatar_id bytes size_300 info 300 300 body₂ mime₂ w₁ calm₁
          made₂ in
      let w₂ = (store_thumbnail service id avatar_id bytes info (size_300, 300, 300) w₁).1 in
      let thumbs = both_keys avatar_id mime₁ mime₂ in
      let end : complete_processing json id (some thumbs) info.width info.height w₂
          ≡ process_image service id avatar_id bytes (ok info) w =
        ground arith in
      subst (IsProcessed thumbs) end (
        completed-IsProcessed thumbs info w₂ r calm₂
          (ap (λ d. select_one (is_live_row id) d.avatars) (db₂ ∙ db₁) ∙ there))

  process_claimed-IsProcessed :
      (avatar_id key : Bytes) (w : World) (r : Row)
      → IsCalm w
      → select_one (is_live_row id) w.db.avatars ≡ some r
      → (image : IsReadable library.codec key w)
      → IsProcessed
          (both_keys avatar_id image.small.1 image.large.1)
          (process_claimed (new_service setup) id avatar_id key w)
  unfolding process_claimed new_service new_avatar_service
  process_claimed-IsProcessed avatar_id key w r calm there image =
      let service = new_service setup in
      let (read, db, calm₁) =
        download-works setup id key image.kind image.bytes w calm image.stored in
      let w₁ = (download key w).1 in
      let inspected = image.inspected in
      let end : process_image service id avatar_id image.bytes (ok image.info) w₁
          ≡ process_claimed service id avatar_id key w =
        ground arith in
      subst (IsProcessed _) end (
        process_image-IsProcessed avatar_id image.bytes image.info image.small image.large w₁ r
          calm₁ (ap (λ d. select_one (is_live_row id) d.avatars) db ∙ there) image.made_small
          image.made_large)

  -- The key of the original, of the event or else of the row.
  abbrev pub key_of_event : AvatarUploadEvent → Bytes → Bytes
  key_of_event event s3_key = if event.s3_key == [] then s3_key else event.s3_key

  process_found-IsProcessed :
      (event : AvatarUploadEvent) (a : Avatar) (w : World) (r : Row)
      → IsCalm w
      → select_one (is_live_row id) w.db.avatars ≡ some r
      → r.processing_status ≡ pending
      → a.processing_status ≡ pending
      → (image : IsReadable library.codec (key_of_event event a.s3_key) w)
      → IsProcessed
          (both_keys event.avatar_id image.small.1 image.large.1)
          (process_found (new_service setup) event id a w)
  unfolding process_found new_service new_avatar_service
  process_found-IsProcessed event a w r calm there fresh fresh' image =
      let service = new_service setup in
      let key = key_of_event event a.s3_key in
      let (marked, (r', still), objects, calm₁) =
        mark_processing-works setup id w r calm there fresh in
      let w₁ = (mark_processing json id w).1 in
      let end : process_claimed service id event.avatar_id key w₁
          ≡ process_found service event id a w =
        ground arith in
      subst (IsProcessed _) end (
        process_claimed-IsProcessed event.avatar_id key w₁ r' calm₁ still
          (kept-IsReadable library.codec key w w₁ objects image))

  status-avatar_of : (r : Row) → (avatar_of json r).processing_status ≡ r.processing_status
  unfolding avatar_of
  status-avatar_of r = refl

  process_upload_event-IsProcessed :
      (event : AvatarUploadEvent) (w : World) (r : Row)
      → IsCalm w
      → library.uuid_parse event.avatar_id ≡ ok id
      → select_one (is_live_row id) w.db.avatars ≡ some r
      → r.processing_status ≡ pending
      → (image : IsReadable library.codec (key_of_event event r.s3_key) w)
      → IsProcessed
          (both_keys event.avatar_id image.small.1 image.large.1)
          (process_upload_event (new_service setup) event w)
  unfolding process_upload_event avatar_of new_service new_avatar_service
  process_upload_event-IsProcessed event w r calm parse there fresh image =
      let service = new_service setup in
      let (got, db, objects, calm₁) = get_by_id-works setup id w r calm there in
      let w₁ = (get_by_id json id w).1 in
      let a = avatar_of json r in
      let readable : IsReadable library.codec (key_of_event event a.s3_key) w₁ =
        kept-IsReadable library.codec _ w w₁ objects image in
      let end : process_found service event id a w₁ ≡ process_upload_event service event w =
        ground arith in
      subst (IsProcessed _) end (
        process_found-IsProcessed event a w₁ r calm₁
          (ap (λ d. select_one (is_live_row id) d.avatars) db ∙ there) fresh
          (status-avatar_of r ∙ fresh) readable)

  seen-IsCompleted :
      (thumbs : KeyMap) (w w' : World)
      → w'.db ≡ w.db
      → IsCompleted setup id thumbs w
      → IsCompleted setup id thumbs w'
  seen-IsCompleted thumbs w w' same done = record {
    row = done.row;
    found = ap (λ d. select_one (is_live_row id) d.avatars) same ∙ done.found;
    done = done.done;
    keys = done.keys;
  }

  -- Where every call works, the message of a live avatar whose processing is pending, whose object
  -- is an image, and both of whose thumbnails can be made, is processed without an error, and the
  -- row is completed behind it: it has, as JSON, the keys of the avatar's thumbnails of 100 and of
  -- 300 pixels, with the extensions of the types that they were encoded in.
  pub process_upload-IsProcessed :
      (event : AvatarUploadEvent) (w : World) (r : Row)
      → IsCalm w
      → library.uuid_parse event.avatar_id ≡ ok id
      → select_one (is_live_row id) w.db.avatars ≡ some r
      → r.processing_status ≡ pending
      → (image : IsReadable library.codec (key_of_event event r.s3_key) w)
      → IsProcessed
          (both_keys event.avatar_id image.small.1 image.large.1)
          (process_upload (new_service setup) event w)
  unfolding process_upload new_service new_avatar_service real_runtime
  process_upload-IsProcessed event w r calm parse there fresh image =
      let service = new_service setup in
      let (worked, done) =
        process_upload_event-IsProcessed event w r calm parse there fresh image in
      let same : (process_upload service event w).1.db
          ≡ (process_upload_event service event w).1.db =
        ground arith in
      (
        ground arith,
        seen-IsCompleted _ (process_upload_event service event w).1
            (process_upload service event w).1 same done,
      )

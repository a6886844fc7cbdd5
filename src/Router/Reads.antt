-- ===== src/Router/Reads.antt =====
-- The handlers of the GET routes leave the tables as they are.
use goprofile.Prelude.{ℕ, ◌≡◌, refl, ◌∙◌, Bytes, Option, none, some}
use goprofile.Prelude.Int.{ℤ}
use goprofile.Domain.Errors.{Err}
use goprofile.Result.{Result, ok, err, Exec, unless_error}
use goprofile.Result.Moves.{IsPreorder, Moves, moves_rules}
use goprofile.Domain.Avatar.{Uuid, Avatar}
use goprofile.Domain.Validate.{validate_user_id}
use goprofile.Services.Deps.{AvatarService, new_avatar_service}
use goprofile.Repository.Queries.{avatar_repository}
use goprofile.Services.Delete.{get, get_latest, list}
use goprofile.Services.Fetch.{fetch_image, convert_download}
use goprofile.World.{World}
use goprofile.Repository.Refines.{avatar_repository-Refines}
use goprofile.App.{Setup, new_service}
use goprofile.App.Quiet.{db-download}
use goprofile.Http.{Response}
use goprofile.Handlers.Avatars.{
  AvatarHandler, ImageRequest, answer, with_avatar, with_id, write_image, get_by_id_handler,
  get_by_user_handler, metadata_handler, list_by_user_handler,
}

-- The tables stay.
abbrev pub SameDb : World → World → Type 0
SameDb w w' = w'.db ≡ w.db

SameDb-IsPreorder : IsPreorder SameDb
SameDb-IsPreorder = record { stays = λ w. refl; joins = λ s t u p q. q ∙ p }

-- A conversion only downloads.
module _ {S Image : Type 0} {R : S → S → Type 0} (order : IsPreorder R)
    (service : AvatarService S Image)
    (fetch_moves : (key : Bytes) → Moves R (service.objects.download key)) where
  convert_download-Moves :
      (a : Avatar) (size format : Bytes) (downloaded : Bytes × Bytes)
      → Moves R (convert_download service a size format downloaded)
  unfolding convert_download
  convert_download-Moves a size format (bytes, content_type) = search moves_rules

  fetch_image-Moves :
      (a : Avatar) (size format : Bytes) → Moves R (fetch_image service a size format)
  unfolding fetch_image
  fetch_image-Moves a size format = search (moves_rules, fetch_moves, convert_download-Moves)

module _ {A : Type 0} {S Image : Type 0} (h : AvatarHandler S Image) (format_time : ℕ → Bytes)
    (R : S → S → Type 0) where
  answer-moves :
      (f : A → Response) (p : Result A × S) (s : S) → R s p.1 → R s (answer h format_time f p).1
  answer-moves f (ok a, t) s k = k
  answer-moves f (err e, t) s k = k

module _ {Image : Type 0} (setup : Setup Image) (max_bytes : ℤ) (format_time : ℕ → Bytes) where
  abbrev pub avatars : AvatarHandler World Image
  avatars = record { svc = new_service setup; max_bytes = max_bytes }

  download-SameDb : (key : Bytes) → Moves SameDb ((new_service setup).objects.download key)
  unfolding new_service new_avatar_service
  download-SameDb key = record { at = db-download key }

  get-SameDb : (id : Uuid) (w : World) → SameDb w (get (new_service setup) id w).1
  unfolding get new_service new_avatar_service
  get-SameDb id w = (avatar_repository-Refines setup.json).get_by_id_reads id w

  unless_error-SameDb :
      {A : Type 0} (o : Option Err) (m : Exec World A) (w : World)
      → SameDb w (m w).1
      → SameDb w (unless_error o m w).1
  unless_error-SameDb none m w h = h
  unless_error-SameDb (some e) m w h = refl

  get_latest-SameDb :
      (user_id : Bytes) (w : World) → SameDb w (get_latest (new_service setup) user_id w).1
  unfolding get_latest new_service new_avatar_service
  get_latest-SameDb user_id w =
      unless_error-SameDb (validate_user_id user_id)
        ((avatar_repository setup.json).get_latest_by_user_id user_id) w
        ((avatar_repository-Refines setup.json).get_latest_reads user_id w)

  list-SameDb : (user_id : Bytes) (w : World) → SameDb w (list (new_service setup) user_id w).1
  unfolding list new_service new_avatar_service
  list-SameDb user_id w =
      unless_error-SameDb (validate_user_id user_id)
        ((avatar_repository setup.json).list_by_user_id user_id) w
        ((avatar_repository-Refines setup.json).list_reads user_id w)

  write_image-SameDb :
      (r : ImageRequest) (a : Avatar) (w : World)
      → SameDb w (write_image avatars format_time r a w).1
  unfolding write_image
  write_image-SameDb r a w =
      answer-moves avatars format_time SameDb _
        (fetch_image (new_service setup) a r.size r.format w) w
        ((fetch_image-Moves SameDb-IsPreorder (new_service setup) download-SameDb a r.size
            r.format).at
          w)

  with_avatar-SameDb :
      (k : Avatar → World → Response × World) (p : Result Avatar × World) (w : World)
      → ((a : Avatar) (v : World) → SameDb v (k a v).1)
      → SameDb w p.1
      → SameDb w (with_avatar avatars format_time k p).1
  with_avatar-SameDb k (ok a, v) w h same = h a v ∙ same
  with_avatar-SameDb k (err e, v) w h same = same

  with_id-SameDb :
      (k : Uuid → World → Response × World) (o : Result Uuid) (w : World)
      → ((id : Uuid) → SameDb w (k id w).1)
      → SameDb w (with_id avatars format_time k o w).1
  with_id-SameDb k (ok id) w h = h id
  with_id-SameDb k (err e) w h = refl

  pub get_by_id_handler-SameDb :
      (raw : Bytes) (r : ImageRequest) (w : World)
      → SameDb w (get_by_id_handler avatars format_time raw r w).1
  unfolding get_by_id_handler
  get_by_id_handler-SameDb raw r w =
      with_id-SameDb _ ((new_service setup).library.uuid_parse raw) w (λ id.
        with_avatar-SameDb (write_image avatars format_time r) (get (new_service setup) id w) w
          (write_image-SameDb r) (get-SameDb id w))

  pub get_by_user_handler-SameDb :
      (user_id : Bytes) (r : ImageRequest) (w : World)
      → SameDb w (get_by_user_handler avatars format_time user_id r w).1
  unfolding get_by_user_handler
  get_by_user_handler-SameDb user_id r w =
      with_avatar-SameDb (write_image avatars format_time r)
        (get_latest (new_service setup) user_id w) w (write_image-SameDb r)
        (get_latest-SameDb user_id w)

  pub metadata_handler-SameDb :
      (raw : Bytes) (w : World) → SameDb w (metadata_handler avatars format_time raw w).1
  unfolding metadata_handler
  metadata_handler-SameDb raw w =
      with_id-SameDb _ ((new_service setup).library.uuid_parse raw) w (λ id.
        answer-moves avatars format_time SameDb _ (get (new_service setup) id w) w
          (get-SameDb id w))

  pub list_by_user_handler-SameDb :
      (user_id : Bytes) (w : World)
      → SameDb w (list_by_user_handler avatars format_time user_id w).1
  unfolding list_by_user_handler
  list_by_user_handler-SameDb user_id w =
      answer-moves avatars format_time SameDb _ (list (new_service setup) user_id w) w
        (list-SameDb user_id w)

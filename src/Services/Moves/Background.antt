-- ===== src/Services/Moves/Background.antt =====
-- The same for the methods that the worker calls.
use goprofile.Prelude.{ℕ, text_eq, Bytes, List, [], ◌∷◌, Option, none}
use goprofile.Result.{Result, ok, err, or_first}
use goprofile.Domain.Errors.{Err}
use goprofile.Result.Moves.{IsPreorder, Moves, moves_rules}
use goprofile.Domain.Avatar.{
  Uuid, Avatar, KeyMap, OutboxEvent, Kind, outbox_upload, outbox_delete, other_kind,
}
use goprofile.Domain.Events.{AvatarUploadEvent, AvatarDeleteEvent}
use goprofile.Image.{Info}
use goprofile.Services.Deps.{AvatarService}
use goprofile.Services.Delete.{process_delete}
use goprofile.Services.Outbox.{publish_kind, flush_item, flush_items, flush_outbox}
use goprofile.Services.Process.{
  store_thumbnail, store_thumbnails, process_image, process_claimed, process_found, looked_up,
  parsed, process_upload_event, process_upload, recover_items, recover_stuck,
}
use goprofile.Services.Moves.{AllMove}
use goprofile.Services.Moves.Retries.{publish_with_retry-Moves}

module _ {S Image : Type 0} {R : S → S → Type 0} (order : IsPreorder R)
    (service : AvatarService S Image) (all : AllMove R service) where
  open all use {
    create_moves, get_moves, latest_moves, list_moves, delete_moves, get_returns, mark_moves,
    complete_moves, fail_moves, unpublished_moves, stuck_moves, put_moves, fetch_moves,
    remove_moves, publish_upload_moves, publish_delete_moves, draw_moves, wait_moves, observe_moves,
  }

  pub process_delete-Moves : (event : AvatarDeleteEvent) → Moves R (process_delete service event)
  unfolding process_delete
  process_delete-Moves event = search (moves_rules, remove_moves, observe_moves)

  store_thumbnail-Moves :
      (id : Uuid) (avatar_id bytes : Bytes) (info : Info) (spec : Bytes × ℕ × ℕ)
      → Moves R (store_thumbnail service id avatar_id bytes info spec)
  unfolding store_thumbnail
  store_thumbnail-Moves id avatar_id bytes info (size, w, h) =
      search (moves_rules, put_moves, fail_moves)

  store_thumbnails-Moves :
      (id : Uuid) (avatar_id bytes : Bytes) (info : Info) (more : List (Bytes × ℕ × ℕ))
      (thumbs : KeyMap)
      → Moves R (store_thumbnails service id avatar_id bytes info more thumbs)
  unfolding store_thumbnails
  store_thumbnails-Moves id avatar_id bytes info [] thumbs = search moves_rules
  store_thumbnails-Moves id avatar_id bytes info ((size, w, h) ∷ more) thumbs =
      search
        (moves_rules, store_thumbnail-Moves, store_thumbnails-Moves id avatar_id bytes info more)

  process_image-Moves :
      (id : Uuid) (avatar_id bytes : Bytes) (r : Result Info)
      → Moves R (process_image service id avatar_id bytes r)
  process_image-Moves id avatar_id bytes (err e) = search (moves_rules, fail_moves)
  process_image-Moves id avatar_id bytes (ok info) =
      search (moves_rules, store_thumbnails-Moves, complete_moves)

  process_claimed-Moves :
      (id : Uuid) (avatar_id s3_key : Bytes) → Moves R (process_claimed service id avatar_id s3_key)
  unfolding process_claimed
  process_claimed-Moves id avatar_id s3_key =
      search (moves_rules, fetch_moves, fail_moves, process_image-Moves)

  process_found-Moves :
      (event : AvatarUploadEvent) (id : Uuid) (a : Avatar)
      → Moves R (process_found service event id a)
  unfolding process_found
  process_found-Moves event id a = search (moves_rules, mark_moves, process_claimed-Moves)

  looked_up-Moves :
      (event : AvatarUploadEvent) (id : Uuid) (r : Result Avatar)
      → Moves R (looked_up service event id r)
  looked_up-Moves event id (ok a) = process_found-Moves event id a
  looked_up-Moves event id (err e) = search moves_rules

  parsed-Moves : (event : AvatarUploadEvent) (r : Result Uuid) → Moves R (parsed service event r)
  parsed-Moves event (err e) = search moves_rules
  parsed-Moves event (ok id) = search (moves_rules, get_moves, looked_up-Moves)

  process_upload_event-Moves :
      (event : AvatarUploadEvent) → Moves R (process_upload_event service event)
  unfolding process_upload_event
  process_upload_event-Moves event = parsed-Moves event _

  pub process_upload-Moves : (event : AvatarUploadEvent) → Moves R (process_upload service event)
  unfolding process_upload
  process_upload-Moves event = search (moves_rules, process_upload_event-Moves, observe_moves)

  recover_items-moves :
      (items : List Avatar) (first : Option Err) (s : S)
      → R s (recover_items service items first s).1
  unfolding recover_items
  recover_items-moves [] first s = order.stays s
  recover_items-moves (a ∷ items) first s =
      order.joins s _ _ ((process_upload-Moves _).at s) (recover_items-moves items _ _)

  recovering-Moves :
      (items : List Avatar)
      → Moves R (λ s. let (first, s') = recover_items service items none s in (or_first first, s'))
  recovering-Moves items = record { at = recover_items-moves items none }

  pub recover_stuck-Moves : Moves R (recover_stuck service)
  unfolding recover_stuck
  recover_stuck-Moves = search (moves_rules, stuck_moves, recovering-Moves)

  publish_kind-Moves : (kind : Kind) (body : Bytes) → Moves R (publish_kind service kind body)
  unfolding publish_kind
  publish_kind-Moves outbox_upload body = search (moves_rules, publish_upload_moves)
  publish_kind-Moves outbox_delete body = search (moves_rules, publish_delete_moves)
  publish_kind-Moves (other_kind kind) body = search moves_rules

  -- The flush, where its marks move along the relation, too.
  module _ (published : (id : ℕ) → Moves R (service.repo.mark_outbox_published id)) where
    flush_item-Moves : (item : OutboxEvent) → Moves R (flush_item service item)
    unfolding flush_item
    flush_item-Moves item =
        let publishing = publish_with_retry-Moves order service.runtime.wait wait_moves in
        search (moves_rules, publishing, publish_kind-Moves, published)

    flush_items-moves :
        (items : List OutboxEvent) (first : Option Err) (s : S)
        → R s (flush_items service items first s).1
    unfolding flush_items
    flush_items-moves [] first s = order.stays s
    flush_items-moves (item ∷ items) first s =
        order.joins s _ _ ((flush_item-Moves item).at s) (flush_items-moves items _ _)

    flushing-Moves :
        (items : List OutboxEvent)
        → Moves R (λ s. let (first, s') = flush_items service items none s in (or_first first, s'))
    flushing-Moves items = record { at = flush_items-moves items none }

    pub flush_outbox-Moves : Moves R (flush_outbox service)
    unfolding flush_outbox
    flush_outbox-Moves = search (moves_rules, unpublished_moves, observe_moves, flushing-Moves)

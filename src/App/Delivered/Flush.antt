-- ===== src/App/Delivered/Flush.antt =====
-- A flush marks only what it has sent.
use goprofile.Prelude.{
  ◌≡◌, ◌≢◌, refl, ◌∙◌, sym, ap, inl, inr, Bytes, List, [], ◌∷◌, ◌++◌, Option, none, All, All-map,
  arith, nat_eq, length,
}
use goprofile.Prelude.Int.{pos}
use mathlib.Core.List.{append_assoc}
use mathlib.Core.Path.{subst}
use goprofile.Domain.Errors.{Err}
use goprofile.Repository.Tx.{query}
use goprofile.Result.{Result, ok, err, lift, ◌>>◌}
use goprofile.Result.Laws.{Result-cases, Exec-cases}
use goprofile.Result.Moves.{IsPreorder, Moves, moves_rules}
use goprofile.Domain.Avatar.{OutboxEvent, Kind, outbox_upload, outbox_delete, other_kind}
use goprofile.Domain.Events.{AvatarUploadEvent, AvatarDeleteEvent}
use goprofile.Services.Deps.{new_avatar_service, outbox_unpublished}
use goprofile.Services.Outbox.{
  publish_with_retry, publish_kind, flush_item, flush_items, flush_outbox,
}
use goprofile.Services.Outbox.Flush.{publish_with_retry-ok}
use goprofile.Services.Moves.Retries.{publish_with_retry-Moves}
use goprofile.World.{World, Header, real_runtime, external_call}
use goprofile.Broker.{publish_upload, publish_delete, message_of, write_json}
use goprofile.Broker.Laws.{event_id_from-message_of}
use goprofile.Repository.Statements.{unpublished}
use goprofile.App.{Setup, new_service}
use goprofile.App.Quiet.{
  Quiet, Silent-Quiet, write_json-ok, publish_upload-Quiet, publish_delete-Quiet, wait-Quiet,
}
use goprofile.App.Delivered.{HasMessage, IsWhole, IsDelivered, Quiet-IsDelivered}
use goprofile.App.Delivered.Items.{
  IsListed, unpublished-IsListed, publish_row-IsListed, publish_row-IsDelivered,
}
use goprofile.Repository.Queries.{mark_outbox_published, list_unpublished}
use goprofile.Repository.Refines.{avatar_repository-Refines}
use goprofile.Repository.Topics.{topics-mark_outbox_published, topics-list_unpublished}

Quiet-IsPreorder : IsPreorder Quiet
Quiet-IsPreorder = record {
  stays = λ w. Silent-Quiet w w refl refl;
  joins = λ s t u (p, (more, h)) (q, (more', k)).
      (q ∙ p, (more ++ more', k ∙ ap (λ t. t ++ more') h ∙ append_assoc s.topics more more'));
}

module _ {Image : Type 0} (setup : Setup Image) (own : List Header)
    (appends : (headers : List Header) → setup.producer.inject headers ≡ headers ++ own) where
  open setup use {json, library, producer}

  write_json-HasMessage :
      (topic key event_id id : Bytes) (marshalled : Result Bytes) (w w' : World)
      → write_json producer topic key event_id marshalled w ≡ (ok tt, w')
      → event_id ≡ id
      → id ≢ []
      → HasMessage id w'.topics
  unfolding write_json
  write_json-HasMessage topic key event_id id (err e) w w' h same there = absurd (ground arith)
  write_json-HasMessage topic key event_id id (ok body) w w' h same there = (
    message_of producer topic key event_id body,
    w.topics,
    [],
    write_json-ok producer topic key event_id body w w' h,
    event_id_from-message_of producer topic key event_id body [] own appends
          (λ e. there (sym same ∙ e))
        ∙ same,
  )

  -- A publication that works has sent the message of an event with the payload's id.
  publish_kind-HasMessage :
      (kind : Kind) (payload id : Bytes) (w w' : World)
      → IsWhole library kind payload id
      → publish_kind (new_service setup) kind payload w ≡ (ok tt, w')
      → HasMessage id w'.topics
  unfolding publish_kind new_service new_avatar_service publish_upload publish_delete
  publish_kind-HasMessage outbox_upload payload id w w' (decodes, there) h =
      elim (Result-cases (library.unmarshal_upload payload)) [
        | inr (e, failed) ↦ absurd (ground arith)
        | inl (event, read) ↦
            write_json-HasMessage producer.topic_upload event.avatar_id event.event_id id
              (library.marshal_upload event) w w' (ground arith) (decodes event read) there
      ]
  publish_kind-HasMessage outbox_delete payload id w w' (decodes, there) h =
      elim (Result-cases (library.unmarshal_delete payload)) [
        | inr (e, failed) ↦ absurd (ground arith)
        | inl (event, read) ↦
            write_json-HasMessage producer.topic_delete event.avatar_id event.event_id id
              (library.marshal_delete event) w w' (ground arith) (decodes event read) there
      ]
  publish_kind-HasMessage (other_kind kind) payload id w w' whole h = absurd (ground arith)

  publish_kind-Quiet :
      (kind : Kind) (payload : Bytes) → Moves Quiet (publish_kind (new_service setup) kind payload)
  unfolding publish_kind new_service new_avatar_service
  publish_kind-Quiet outbox_upload payload =
      let order = Quiet-IsPreorder in
      let sends : (event : AvatarUploadEvent)
          → Moves Quiet (publish_upload library producer event) =
        λ event. record { at = publish_upload-Quiet library producer event } in
      search (moves_rules, order, sends)
  publish_kind-Quiet outbox_delete payload =
      let order = Quiet-IsPreorder in
      let sends : (event : AvatarDeleteEvent)
          → Moves Quiet (publish_delete library producer event) =
        λ event. record { at = publish_delete-Quiet library producer event } in
      search (moves_rules, order, sends)
  publish_kind-Quiet (other_kind kind) payload = record { at = λ w. Silent-Quiet w w refl refl }

  retried-Quiet :
      (kind : Kind) (payload : Bytes) (w : World)
      → Quiet w
          (publish_with_retry real_runtime.wait
            (publish_kind (new_service setup) kind payload)
            3
            w).1
  retried-Quiet kind payload =
      (publish_with_retry-Moves Quiet-IsPreorder real_runtime.wait
        (λ b. record { at = wait-Quiet b }) _ 3 (publish_kind-Quiet kind payload)).at

  -- What a flush keeps before it goes through the items.
  abbrev Ready : List OutboxEvent → World → Type 0
  Ready items w = IsDelivered library w × All (IsListed library w.db) items

  Quiet-Ready :
      (items : List OutboxEvent) (w w' : World) → Quiet w w' → Ready items w → Ready items w'
  Quiet-Ready items w w' quiet (delivered, listed) = (
    Quiet-IsDelivered library w w' quiet delivered,
    subst (λ d. All (IsListed library d) items) (sym quiet.0) listed,
  )

  -- The mark of an event that was sent.
  mark-Ready :
      (ev : OutboxEvent) (items : List OutboxEvent) (w : World)
      → HasMessage ev.event_id w.topics
      → Ready (ev ∷ items) w
      → Ready items (mark_outbox_published json ev.id w).1
  mark-Ready ev items w message (delivered, (first, listed)) =
      elim ((avatar_repository-Refines json).mark_outbox_published_publishes ev.id w) [
        | inl same ↦
            Quiet-Ready items w (mark_outbox_published json ev.id w).1
              (Silent-Quiet w (mark_outbox_published json ev.id w).1 same
                (topics-mark_outbox_published json ev.id w))
              (delivered, listed)
        | inr (now, wrote) ↦ (
          publish_row-IsDelivered library ev now w (mark_outbox_published json ev.id w).1 wrote
              (topics-mark_outbox_published json ev.id w) message first delivered,
          subst (λ d. All (IsListed library d) items) (sym wrote)
              (All-map items (λ e. publish_row-IsListed library ev.id now w.db e) listed),
        )
      ]

  marked-Ready :
      (ev : OutboxEvent) (items : List OutboxEvent) (r : Result (Unit {0})) (w : World)
      → Ready (ev ∷ items) w
      → (r ≡ ok tt → HasMessage ev.event_id w.topics)
      → Ready items (◌>>◌ (lift r) (mark_outbox_published json ev.id) w).1
  marked-Ready ev items (ok _) w ready sent = mark-Ready ev items w (sent refl) ready
  marked-Ready ev items (err e) w (delivered, (_, listed)) sent = (delivered, listed)

  flush_item-Ready :
      (ev : OutboxEvent) (items : List OutboxEvent) (w : World)
      → Ready (ev ∷ items) w
      → Ready items (flush_item (new_service setup) ev w).1
  unfolding flush_item new_service new_avatar_service
  flush_item-Ready ev items w ready =
      let publish = publish_kind (new_service setup) ev.kind ev.payload in
      let (r, w₁) = publish_with_retry real_runtime.wait publish 3 w in
      marked-Ready ev items r w₁
        (Quiet-Ready (ev ∷ items) w w₁ (retried-Quiet ev.kind ev.payload w) ready)
        (λ worked.
          let (t, accepted) =
            publish_with_retry-ok real_runtime.wait publish w w₁ (ap (λ r. (r, w₁)) worked) in
          publish_kind-HasMessage ev.kind ev.payload ev.event_id t w₁ ready.1.0.0 accepted)

  flush_items-IsDelivered :
      (items : List OutboxEvent) (first : Option Err) (w : World)
      → Ready items w
      → IsDelivered library (flush_items (new_service setup) items first w).1
  unfolding flush_items
  flush_items-IsDelivered [] first w ready = ready.0
  flush_items-IsDelivered (ev ∷ items) first w ready =
      flush_items-IsDelivered items _ _ (flush_item-Ready ev items w ready)

  list_unpublished-ok :
      (w w' : World) (items : List OutboxEvent)
      → list_unpublished json (pos 50) w ≡ (ok items, w')
      → items ≡ unpublished 50 w.db
  unfolding list_unpublished query external_call
  list_unpublished-ok w w' items h = ground arith

  -- A flush keeps what is published sent.
  pub flush_outbox-IsDelivered :
      (w : World)
      → IsDelivered library w
      → IsDelivered library (flush_outbox (new_service setup) w).1
  unfolding flush_outbox new_service new_avatar_service real_runtime
  flush_outbox-IsDelivered w delivered =
      let service = new_service setup in
      let list = list_unpublished json (pos 50) in
      let quiet =
        Silent-Quiet w (list w).1
          ((avatar_repository-Refines json).list_unpublished_reads (pos 50) w)
          (topics-list_unpublished json (pos 50) w) in
      let kept = Quiet-IsDelivered library w (list w).1 quiet delivered in
      elim (Exec-cases list w) [
        | inr (e, w₁, failed) ↦
            let end : (list w).1 ≡ (flush_outbox service w).1 = ground arith in
            subst (IsDelivered library) end kept
        | inl (items, w₁, listed) ↦
            let w₂ : World = record w₁ {
              metrics = outbox_unpublished (length items) ∷ w₁.metrics;
            } in
            let same : (list w).1 ≡ w₁ = ap (λ p. p.1) listed in
            let seen : IsDelivered library w₂ =
              Quiet-IsDelivered library w₁ w₂ (Silent-Quiet w₁ w₂ refl refl)
                (subst (IsDelivered library) same kept) in
            let ready : All (IsListed library w₂.db) items =
              subst (λ items. All (IsListed library w₂.db) items)
                (sym (list_unpublished-ok w w₁ items listed))
                (subst (λ d. All (IsListed library d) (unpublished 50 w.db))
                  (sym quiet.0 ∙ ap (λ v. v.db) same)
                  (unpublished-IsListed library 50 w delivered)) in
            let end : (flush_items service items none w₂).1 ≡ (flush_outbox service w).1 =
              ground arith in
            subst (IsDelivered library) end (flush_items-IsDelivered items none w₂ (seen, ready))
      ]

-- ===== src/App/Delivered/Drained.antt =====
-- A flush where every call works.
use goprofile.Prelude.{
  ℕ, ◌≡◌, ◌≤◌, refl, sym, inl, inr, ◌⊎◌, true, Bytes, List, [], ◌∷◌, none, some, All, All-map,
  All-take, length, arith, eq_iff, nat_eq, Option-cases,
}
use goprofile.Prelude.Int.{pos}
use mathlib.Core.Path.{subst}
use goprofile.Result.{Result, ok, error}
use goprofile.Domain.Avatar.{OutboxEvent, Kind, outbox_upload, outbox_delete, other_kind}
use goprofile.Domain.Events.{AvatarUploadEvent, AvatarDeleteEvent}
use goprofile.Services.Deps.{Library, new_avatar_service, outbox_unpublished}
use goprofile.Services.Outbox.{
  publish_rounds, publish_with_retry, publish_kind, flush_item, flush_items, flush_outbox,
}
use goprofile.World.{World, OutboxRow, Db, real_runtime, external_call, begin_call}
use goprofile.Broker.{publish_upload, publish_delete, write_json, write_message, observe}
use goprofile.Repository.Tx.{query}
use goprofile.Repository.Tables.{is_live}
use goprofile.Repository.Found.{All-update}
use goprofile.Repository.Statements.{unpublished, publish_row}
use goprofile.Repository.Queries.{mark_outbox_published, list_unpublished}
use goprofile.App.{Setup, new_service}
use goprofile.App.Delivered.Items.{All-select_all, All-order_by, All-event_of}
use goprofile.App.Delivered.Among.{Among, waiting, unpublished-Among}

module _ {Image : Type 0} (library : Library Image) where
  -- The payload is read as an event of its kind, which can be encoded again.
  abbrev pub CanSend : Kind → Bytes → Type 0
  CanSend outbox_upload payload =
      (e : AvatarUploadEvent) × (body : Bytes) × (library.unmarshal_upload payload ≡ ok e)
      × (library.marshal_upload e ≡ ok body)
  CanSend outbox_delete payload =
      (e : AvatarDeleteEvent) × (body : Bytes) × (library.unmarshal_delete payload ≡ ok e)
      × (library.marshal_delete e ≡ ok body)
  CanSend (other_kind kind) payload = ⊥

-- Each outbox row is published.
abbrev pub IsDrained : Db → Type 0
IsDrained d = All (λ o. (t : ℕ) × (o.published_at ≡ some t)) d.outbox

module _ {Image : Type 0} (setup : Setup Image) where
  open setup use {json, library, producer}

  -- The call works, and leaves the tables; the calls behind it work, too.
  abbrev Works : World → Result (Unit {0}) × World → Type 0
  Works w (r, w') = (r ≡ ok tt) × (w'.db ≡ w.db) × (w'.turns ≡ [])

  publish_kind-Works :
      (kind : Kind) (payload : Bytes) (w : World)
      → w.turns ≡ []
      → CanSend library kind payload
      → Works w (publish_kind (new_service setup) kind payload w)
  unfolding publish_kind new_service new_avatar_service publish_upload publish_delete write_json
      write_message observe external_call
  publish_kind-Works outbox_upload payload w calm (e, body, read, made) =
      (ground arith, ground arith, ground arith)
  publish_kind-Works outbox_delete payload w calm (e, body, read, made) =
      (ground arith, ground arith, ground arith)
  publish_kind-Works (other_kind kind) payload w calm sends = absurd sends

  -- The retries of a publication that works are one call of it.
  retried-Works :
      (kind : Kind) (payload : Bytes) (w : World)
      → w.turns ≡ []
      → CanSend library kind payload
      → Works w
          (publish_with_retry real_runtime.wait (publish_kind (new_service setup) kind payload) 3 w)
  unfolding publish_with_retry publish_rounds
  retried-Works kind payload w calm sends =
      let (worked, db, turns) = publish_kind-Works kind payload w calm sends in
      (ground arith, ground arith, ground arith)

  flush_item-works :
      (ev : OutboxEvent) (w : World)
      → w.turns ≡ []
      → CanSend library ev.kind ev.payload
      → (now : ℕ) × ((flush_item (new_service setup) ev w).0 ≡ ok tt)
        × ((flush_item (new_service setup) ev w).1.db ≡ publish_row ev.id now w.db)
        × ((flush_item (new_service setup) ev w).1.turns ≡ [])
  unfolding flush_item new_service new_avatar_service mark_outbox_published query external_call
  flush_item-works ev w calm sends =
      let (worked, db, turns) = retried-Works ev.kind ev.payload w calm sends in
      let w₁ =
        (publish_with_retry real_runtime.wait (publish_kind (new_service setup) ev.kind ev.payload)
          3 w).1 in
      let now = (begin_call w₁).1.now in (now, ground arith, ground arith, ground arith)

  -- Each row is published, or its id is that of an event that is left.
  abbrev Settles : List OutboxEvent → Db → Type 0
  Settles items d =
      All
        (λ o. ((t : ℕ) × (o.published_at ≡ some t)) ⊎ Among (λ (e : OutboxEvent). e.id) o.id items)
        d.outbox

  publish_row-Settles :
      (ev : OutboxEvent) (items : List OutboxEvent) (now : ℕ) (d : Db)
      → Settles (ev ∷ items) d
      → Settles items (publish_row ev.id now d)
  unfolding publish_row
  publish_row-Settles ev items now d h =
      All-update _ _ _ _
        (λ o miss x. elim x [
          | inl done ↦ inl done
          | inr (inl here) ↦ absurd (ground (arith, eq_iff o.id ev.id))
          | inr (inr there) ↦ inr there
        ])
        (λ o hit x. inl (now, refl)) d.outbox h

  flush_items-IsDrained :
      (items : List OutboxEvent) (w : World)
      → w.turns ≡ []
      → All (λ ev. CanSend library ev.kind ev.payload) items
      → Settles items w.db
      → ((flush_items (new_service setup) items none w).0 ≡ none)
        × IsDrained (flush_items (new_service setup) items none w).1.db
  unfolding flush_items
  flush_items-IsDrained [] w calm sends settles = (
    refl,
    All-map w.db.outbox (λ o x. elim x [ inl done ↦ done | inr none_left ↦ absurd none_left ])
        settles,
  )
  flush_items-IsDrained (ev ∷ items) w calm (first, sends) settles =
      let (now, worked, db, turns) = flush_item-works ev w calm first in
      let (r, w₁) = flush_item (new_service setup) ev w in
      let rest =
        flush_items-IsDrained items w₁ turns sends
          (subst (Settles items) (sym db) (publish_row-Settles ev items now w.db settles)) in
      subst
        (λ r.
          ((flush_items (new_service setup) items (error r) w₁).0 ≡ none)
          × IsDrained (flush_items (new_service setup) items (error r) w₁).1.db)
        (sym worked) rest

  settled :
      (items : List OutboxEvent) (o : OutboxRow)
      → (is_live o.published_at ≡ true → Among (λ (e : OutboxEvent). e.id) o.id items)
      → ((t : ℕ) × (o.published_at ≡ some t)) ⊎ Among (λ (e : OutboxEvent). e.id) o.id items
  settled items o h = elim (Option-cases o.published_at) [
    | inl live ↦ inr (h (ground arith))
    | inr (t, gone) ↦ inl (t, gone)
  ]

  list_unpublished-works :
      (w : World)
      → w.turns ≡ []
      → ((list_unpublished json (pos 50) w).0 ≡ ok (unpublished 50 w.db))
        × ((list_unpublished json (pos 50) w).1.db ≡ w.db)
        × ((list_unpublished json (pos 50) w).1.turns ≡ [])
  unfolding list_unpublished query external_call
  list_unpublished-works w calm = (ground arith, ground arith, ground arith)

  -- Where every call works, the payload of each row that waits can be read and encoded again, and
  -- at most 50 rows wait, a flush succeeds, and behind it each row of the outbox is published.
  pub flush_outbox-IsDrained :
      (w : World)
      → w.turns ≡ []
      → All (λ o. is_live o.published_at ≡ true → CanSend library o.kind o.payload) w.db.outbox
      → length (waiting w.db) ≤ 50
      → ((flush_outbox (new_service setup) w).0 ≡ ok tt)
        × IsDrained (flush_outbox (new_service setup) w).1.db
  unfolding flush_outbox unpublished new_service new_avatar_service real_runtime
  flush_outbox-IsDrained w calm sends few =
      let service = new_service setup in
      let items = unpublished 50 w.db in
      let (listed, db, turns) = list_unpublished-works w calm in
      let w₁ = (list_unpublished json (pos 50) w).1 in
      let w₂ : World = record w₁ { metrics = outbox_unpublished (length items) ∷ w₁.metrics } in
      let Sends : OutboxRow → Type 0 = λ o. CanSend library o.kind o.payload in
      let all_send : All (λ ev. CanSend library ev.kind ev.payload) items =
        All-event_of (λ ev. CanSend library ev.kind ev.payload) _
          (All-take Sends 50 _ (
            All-order_by Sends _
              (All-select_all Sends (λ o. is_live o.published_at) w.db.outbox sends))) in
      let settles : Settles items w₂.db =
        subst (Settles items) (sym db)
          (All-map w.db.outbox (settled items) (unpublished-Among 50 w.db few)) in
      let (clean, drained) = flush_items-IsDrained items w₂ turns all_send settles in
      let end : (flush_items service items none w₂).1.db ≡ (flush_outbox service w).1.db =
        ground arith in
      (ground arith, subst IsDrained end drained)

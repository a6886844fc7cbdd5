-- ===== src/App/Delivered/Writes.antt =====
-- What the writes of the repository do to the rows of the outbox and their messages.
use goprofile.Prelude.{
  ℕ, ◌≡◌, refl, ◌∙◌, sym, ap, Bytes, List, [], ◌∷◌, Option, none, some, All, All-append, arith,
  eq_iff, text_eq,
}
use mathlib.Core.Path.{subst}
use goprofile.Prelude.Int.{ℤ}
use goprofile.Domain.Avatar.{Avatar, OutboxEvent}
use goprofile.Services.Deps.{Library}
use goprofile.World.{World, Message, OutboxRow, Db}
use goprofile.Repository.Tables.{has_event_id, excluded, outbox_row, upsert_outbox, upsert_found}
use goprofile.Repository.Found.{All-update}
use goprofile.Repository.Statements.{claim, complete, fail_row}
use goprofile.Repository.Steps.{
  Step, Creates, Deletes, Claims, Completes, Fails, creation, deletion, claiming, completion,
  failure,
}
use goprofile.Repository.Invariant.{Step-IsConsistent}
use goprofile.App.Delivered.{IsWhole, IsDeliveredRow, IsDelivered}

module _ {Image : Type 0} (library : Library Image) where
  upsert_found-IsDeliveredRow :
      (topics : List Message) (ev : OutboxEvent) (d : Db) (found : Option OutboxRow)
      → IsWhole library ev.kind ev.payload ev.event_id
      → All (IsDeliveredRow library topics) d.outbox
      → All (IsDeliveredRow library topics) (upsert_found ev d found).1.outbox
  upsert_found-IsDeliveredRow topics ev d none whole sent =
      All-append (IsDeliveredRow library topics) d.outbox (outbox_row d.next_outbox_id ev ∷ []) sent
        ((whole, λ t h. absurd (ground arith)), tt)
  upsert_found-IsDeliveredRow topics ev d (some old) whole sent =
      All-update (IsDeliveredRow library topics) (IsDeliveredRow library topics)
        (has_event_id ev.event_id) (excluded ev) (λ o miss x. x)
        (λ o hit x.
          let same : ev.event_id ≡ o.event_id = ground (arith, eq_iff o.event_id ev.event_id) in
          (subst (IsWhole library ev.kind ev.payload) same whole, x.1))
        d.outbox sent

  upsert_outbox-IsDeliveredRow :
      (topics : List Message) (ev : OutboxEvent) (d : Db)
      → IsWhole library ev.kind ev.payload ev.event_id
      → All (IsDeliveredRow library topics) d.outbox
      → All (IsDeliveredRow library topics) (upsert_outbox ev d).1.outbox
  unfolding upsert_outbox
  upsert_outbox-IsDeliveredRow topics ev d = upsert_found-IsDeliveredRow topics ev d _

  -- A write of the avatars, and the tables that it leaves, whose outbox is the same.
  kept-IsDelivered :
      (w w' : World)
      → Step w.db w'.db
      → w'.db.outbox ≡ w.db.outbox
      → w'.topics ≡ w.topics
      → IsDelivered library w
      → IsDelivered library w'
  kept-IsDelivered w w' step outbox topics (c, sent) = (
    Step-IsConsistent step c,
    subst (λ o. All (IsDeliveredRow library w'.topics) o) (sym outbox)
        (subst (λ t. All (IsDeliveredRow library t) w.db.outbox) (sym topics) sent),
  )

  -- A write of the avatars with an event.
  with_event-IsDelivered :
      (w w' : World) (ev : OutboxEvent) (d : Db)
      → Step w.db w'.db
      → w'.db ≡ (upsert_outbox ev d).1
      → d.outbox ≡ w.db.outbox
      → w'.topics ≡ w.topics
      → IsWhole library ev.kind ev.payload ev.event_id
      → IsDelivered library w
      → IsDelivered library w'
  with_event-IsDelivered w w' ev d step wrote outbox topics whole (c, sent) = (
    Step-IsConsistent step c,
    subst (λ d. All (IsDeliveredRow library w'.topics) d.outbox) (sym wrote)
        (upsert_outbox-IsDeliveredRow w'.topics ev d whole (
          subst (λ o. All (IsDeliveredRow library w'.topics) o) (sym outbox)
            (subst (λ t. All (IsDeliveredRow library t) w.db.outbox) (sym topics) sent))),
  )

  pub Creates-IsDelivered :
      (a : Avatar) (ev : OutboxEvent) (w w' : World)
      → IsWhole library ev.kind ev.payload ev.event_id
      → Creates a ev w.db w'.db
      → w'.topics ≡ w.topics
      → IsDelivered library w
      → IsDelivered library w'
  Creates-IsDelivered a ev w w' whole (raw, rows, made, wrote) topics =
      with_event-IsDelivered w w' ev (record w.db { avatars = rows })
        (creation a ev (raw, rows, made, wrote)) wrote refl topics whole

  pub Deletes-IsDelivered :
      (id : ℕ) (user_id : Bytes) (ev : OutboxEvent) (w w' : World)
      → IsWhole library ev.kind ev.payload ev.event_id
      → Deletes id user_id ev w.db w'.db
      → w'.topics ≡ w.topics
      → IsDelivered library w
      → IsDelivered library w'
  Deletes-IsDelivered id user_id ev w w' whole (now, r, there, wrote) topics =
      with_event-IsDelivered w w' ev _ (deletion id user_id ev (now, r, there, wrote)) wrote refl
        topics whole

  outbox-claim : (id now : ℕ) (d : Db) → (claim id now d).1.outbox ≡ d.outbox
  unfolding claim
  outbox-claim id now d = ground arith

  outbox-complete :
      (id : ℕ) (raw : Bytes) (width height : ℤ) (now : ℕ) (d : Db)
      → (complete id raw width height now d).1.outbox ≡ d.outbox
  unfolding complete
  outbox-complete id raw width height now d = ground arith

  outbox-fail_row : (id now : ℕ) (d : Db) → (fail_row id now d).outbox ≡ d.outbox
  unfolding fail_row
  outbox-fail_row id now d = refl

  pub Claims-IsDelivered :
      (id : ℕ) (w w' : World)
      → Claims id w.db w'.db
      → w'.topics ≡ w.topics
      → IsDelivered library w
      → IsDelivered library w'
  Claims-IsDelivered id w w' (now, wrote) =
      kept-IsDelivered w w' (claiming id (now, wrote))
        (ap (λ d. d.outbox) wrote ∙ outbox-claim id now w.db)

  pub Completes-IsDelivered :
      (id : ℕ) (width height : ℤ) (w w' : World)
      → Completes id width height w.db w'.db
      → w'.topics ≡ w.topics
      → IsDelivered library w
      → IsDelivered library w'
  Completes-IsDelivered id width height w w' (raw, now, wrote) =
      kept-IsDelivered w w' (completion id width height (raw, now, wrote))
        (ap (λ d. d.outbox) wrote ∙ outbox-complete id raw width height now w.db)

  pub Fails-IsDelivered :
      (id : ℕ) (w w' : World)
      → Fails id w.db w'.db
      → w'.topics ≡ w.topics
      → IsDelivered library w
      → IsDelivered library w'
  Fails-IsDelivered id w w' (now, wrote) =
      kept-IsDelivered w w' (failure id (now, wrote))
        (ap (λ d. d.outbox) wrote ∙ outbox-fail_row id now w.db)

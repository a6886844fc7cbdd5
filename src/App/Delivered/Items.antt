-- ===== src/App/Delivered/Items.antt =====
-- The events that a flush lists, and their rows.
use goprofile.Prelude.{
  true, Bool-cases, inl, inr, ℕ, ◌≡◌, refl, sym, Bool, List, [], ◌∷◌, All, All-map, All-both,
  All-take, map, arith, eq_iff, nat_eq,
}
use mathlib.Core.Path.{subst}
use goprofile.Domain.Avatar.{OutboxEvent}
use goprofile.Services.Deps.{Library}
use goprofile.World.{World, OutboxRow, Db}
use goprofile.Repository.Tables.{select_all, order_by, insert_sorted, smaller_id, is_live}
use goprofile.Repository.Unique.{HasUnique}
use goprofile.Repository.Found.{All-update}
use goprofile.Repository.Statements.{unpublished, event_of, publish_row}
use goprofile.Repository.Steps.{publication}
use goprofile.Repository.Invariant.{Step-IsConsistent}
use goprofile.App.Delivered.{HasMessage, IsWhole, IsDeliveredRow, IsDelivered}

module _ (P : OutboxRow → Type 0) where
  pub All-select_all :
      (p : OutboxRow → Bool) (rows : List OutboxRow)
      → All (λ o. p o ≡ true → P o) rows
      → All P (select_all p rows)
  unfolding select_all
  All-select_all p [] h = tt
  All-select_all p (o ∷ rows) (x, h) = elim (Bool-cases (p o)) [
    | inl hit ↦ rw hit (x hit, All-select_all p rows h)
    | inr miss ↦ rw miss (All-select_all p rows h)
  ]

  All-insert_sorted :
      (o : OutboxRow) (rows : List OutboxRow)
      → P o
      → All P rows
      → All P (insert_sorted smaller_id o rows)
  unfolding insert_sorted
  All-insert_sorted o [] x h = (x, tt)
  All-insert_sorted o (q ∷ rows) x (y, h) = ground (arith, All-insert_sorted o rows x h)

  pub All-order_by : (rows : List OutboxRow) → All P rows → All P (order_by smaller_id rows)
  unfolding order_by
  All-order_by [] h = tt
  All-order_by (o ∷ rows) (x, h) =
      All-insert_sorted o (order_by smaller_id rows) x (All-order_by rows h)

pub All-event_of :
    (P : OutboxEvent → Type 0) (rows : List OutboxRow)
    → All (λ o. P (event_of o)) rows
    → All P (map event_of rows)
All-event_of P [] h = tt
All-event_of P (o ∷ rows) (x, h) = (x, All-event_of P rows h)

-- The rows with the id have the event's id.
abbrev HasOnly : List OutboxRow → OutboxRow → Type 0
HasOnly rows o = All (λ q. q.id ≡ o.id → q.event_id ≡ o.event_id) rows

unique-HasOnly :
    (rows : List OutboxRow) → HasUnique (λ (o : OutboxRow). o.id) rows → All (HasOnly rows) rows
unique-HasOnly [] h = tt
unique-HasOnly (o ∷ rows) (fresh, h) = (
  ((λ e. refl), All-map rows (λ q other e. absurd (other e)) fresh),
  All-map rows (λ q both. ((λ e. absurd (both.0 (sym e))), both.1))
      (All-both _ _ rows fresh (unique-HasOnly rows h)),
)

module _ {Image : Type 0} (library : Library Image) where
  -- The event is whole, and the rows with its number have its id.
  abbrev pub IsListed : Db → OutboxEvent → Type 0
  IsListed d ev =
      IsWhole library ev.kind ev.payload ev.event_id
      × All (λ o. o.id ≡ ev.id → o.event_id ≡ ev.event_id) d.outbox

  pub unpublished-IsListed :
      (limit : ℕ) (w : World) → IsDelivered library w → All (IsListed w.db) (unpublished limit w.db)
  unfolding unpublished
  unpublished-IsListed limit w (c, sent) =
      let P : OutboxRow → Type 0 = λ o. IsListed w.db (event_of o) in
      let rows = w.db.outbox in
      let listed : All P rows =
        All-map rows (λ o both. (both.0.0, both.1))
          (All-both _ _ rows sent (unique-HasOnly rows c.unique_outbox)) in
      All-event_of (IsListed w.db) _ (
        All-take P limit _ (
          All-order_by P _ (
            All-select_all P (λ o. is_live o.published_at) rows
              (All-map rows (λ o x live. x) listed))))

  pub publish_row-IsListed :
      (id now : ℕ) (d : Db) (ev : OutboxEvent) → IsListed d ev → IsListed (publish_row id now d) ev
  unfolding publish_row
  publish_row-IsListed id now d ev (whole, only) =
      (whole, All-update _ _ _ _ (λ o miss x. x) (λ o hit x. x) d.outbox only)

  -- The mark of an event whose message was sent.
  pub publish_row-IsDelivered :
      (ev : OutboxEvent) (now : ℕ) (w w' : World)
      → w'.db ≡ publish_row ev.id now w.db
      → w'.topics ≡ w.topics
      → HasMessage ev.event_id w.topics
      → IsListed w.db ev
      → IsDelivered library w
      → IsDelivered library w'
  unfolding publish_row
  publish_row-IsDelivered ev now w w' wrote topics message (_, only) (c, sent) =
      let Before : OutboxRow → Type 0 =
        λ o. IsDeliveredRow library w.topics o × (o.id ≡ ev.id → o.event_id ≡ ev.event_id) in
      (
        Step-IsConsistent (publication ev.id (now, wrote)) c,
        subst (λ d. All (IsDeliveredRow library w'.topics) d.outbox) (sym wrote)
            (subst (λ t. All (IsDeliveredRow library t) (publish_row ev.id now w.db).outbox)
              (sym topics)
              (All-update Before (IsDeliveredRow library w.topics) _ _ (λ o miss x. x.0)
                (λ o hit x.
                  let same : o.id ≡ ev.id = ground (arith, eq_iff o.id ev.id) in
                  (x.0.0, λ t h. subst (λ e. HasMessage e w.topics) (sym (x.1 same)) message))
                w.db.outbox (All-both _ _ w.db.outbox sent only))),
      )

-- ===== src/Repository/Contract/Writes.antt =====
-- What each statement does, in the terms of the contract of the repository.
use goprofile.Prelude.{
  ℕ, ◌≡◌, ◌≢◌, inl, inr, refl, true, false, Bytes, some, arith, eq_iff, Option-cases, nat_eq,
  text_eq, ◌==◌,
}
use goprofile.Prelude.Int.{ℤ}
use goprofile.Domain.Avatar.{Uuid, OutboxEvent, processing, failed}
use goprofile.World.{OutboxRow, Db}
use goprofile.Repository.Tables.{
  is_live_row, select_one, upsert_outbox, has_event_id, excluded, set_status, set_completed,
}
use goprofile.Repository.Statements.{is_claimed_row, claim, complete, fail_row, publish_row}
use goprofile.Repository.Contract.{Claimed, Completed, Failed, Published, Enqueued}
use goprofile.Repository.Contract.Rows.{
  absent-All, found-All, update_where-Changes, kept-Changes, is_live_row-IsLive, IsLive-is_live_row,
  is_claimed_row-IsFree, IsFree-is_claimed_row,
}

module _ (id : Uuid) (now : ℕ) (d : Db) where
  pub claim-Claimed : Claimed id now d (claim id now d).1
  unfolding claim set_status
  claim-Claimed = elim (Option-cases (select_one (is_claimed_row id now) d.avatars)) [
    | inl missing ↦
        rw (missing, claim)
          (
            kept-Changes (is_claimed_row id now) _ _ (IsFree-is_claimed_row id now) d.avatars
                missing,
            refl,
            refl,
          )
    | inr (r, found) ↦
        rw (found, claim)
          (
            update_where-Changes (is_claimed_row id now) _ (set_status processing now)
                (is_claimed_row-IsFree id now) (IsFree-is_claimed_row id now) d.avatars,
            refl,
            refl,
          )
  ]

  pub complete-Completed :
      (keys : Bytes) (width height : ℤ)
      → Completed id keys width height now d (complete id keys width height now d).1
  unfolding complete set_completed
  complete-Completed keys width height =
      elim (Option-cases (select_one (is_live_row id) d.avatars)) [
        | inl missing ↦
            rw (missing, complete)
              (
                kept-Changes (is_live_row id) _ _ (IsLive-is_live_row id) d.avatars missing,
                refl,
                refl,
              )
        | inr (r, found) ↦
            rw (found, complete)
              (
                update_where-Changes (is_live_row id) _ (set_completed keys width height now)
                    (is_live_row-IsLive id) (IsLive-is_live_row id) d.avatars,
                refl,
                refl,
              )
      ]

  pub fail_row-Failed : Failed id now d (fail_row id now d)
  unfolding fail_row set_status
  fail_row-Failed = (
    update_where-Changes (is_live_row id) _ (set_status failed now) (is_live_row-IsLive id)
        (IsLive-is_live_row id) d.avatars,
    refl,
    refl,
  )

pub publish_row-Published : (id now : ℕ) (d : Db) → Published id now d (publish_row id now d)
unfolding publish_row
publish_row-Published id now d = (
  refl,
  update_where-Changes (λ o. o.id == id) (λ o. o.id ≡ id)
      (λ o. record o { published_at = some now }) (λ o h. (eq_iff o.id id).0 h)
      (λ o h e. ground (arith, eq_iff o.id id)) d.outbox,
  refl,
)

module _ (ev : OutboxEvent) where
  hit_event : (o : OutboxRow) → has_event_id ev.event_id o ≡ true → o.event_id ≡ ev.event_id
  hit_event o h = (eq_iff o.event_id ev.event_id).0 h

  missed_event : (o : OutboxRow) → has_event_id ev.event_id o ≡ false → o.event_id ≢ ev.event_id
  missed_event o h e = ground (arith, eq_iff o.event_id ev.event_id)

  pub upsert_outbox-Enqueued : (d : Db) → Enqueued ev d (upsert_outbox ev d).1
  unfolding upsert_outbox
  upsert_outbox-Enqueued d = elim (Option-cases (select_one (has_event_id ev.event_id) d.outbox)) [
    | inl missing ↦
        rw missing
          (inl (absent-All (has_event_id ev.event_id) _ missed_event d.outbox missing, refl), refl)
    | inr (o, found) ↦ rw found (
      inr (
        found-All (has_event_id ev.event_id) _ hit_event d.outbox o found,
        update_where-Changes (has_event_id ev.event_id) _ (excluded ev) hit_event missed_event
            d.outbox,
      ),
      refl,
    )
  ]

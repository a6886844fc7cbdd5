-- ===== src/Repository/Removal.antt =====
-- The soft deletion of a row with its event.
use mathlib.Core.Path.{subst}
use goprofile.Repository.Queries.{insert_outbox}
use goprofile.Prelude.{ℕ, ◌≡◌, sym, ap, ◌∙◌, inl, inr, List, some, Option-cases, Bytes, arith}
use goprofile.Result.{ok, err}
use goprofile.Result.Laws.{Exec-cases}
use goprofile.Domain.Errors.{Err}
use goprofile.Domain.Avatar.{Avatar, Uuid, OutboxEvent, JsonMap}
use goprofile.World.{World, Row, external_call}
use goprofile.Repository.Tables.{select_one, update_where, set_deleted, upsert_outbox}
use goprofile.Repository.Tables.Laws.{upsert_outbox-Holds, avatars-upsert_outbox, Holds}
use goprofile.Repository.Tx.{query}
use goprofile.Repository.Tx.Laws.{NoLostReply, with_tx-ok, with_tx-err}
use goprofile.Repository.Outcome.{insert_outbox-NoLostReply, insert_outbox-ok}
use goprofile.Repository.Statements.{is_owned_row, mark_deleted}
use goprofile.Repository.Queries.{
  scan_avatar, delete_row, delete_statements, soft_delete_owned_with_outbox,
}

module _ (json : JsonMap) (id : Uuid) (user_id : Bytes) where
  delete_row-NoLostReply :
      (start : ℕ) (w : World) → NoLostReply w → NoLostReply (delete_row json start id user_id w).1
  unfolding delete_row scan_avatar query external_call
  delete_row-NoLostReply start w h = ground arith

  -- The rows of the user with the id become deleted; all others stay.
  abbrev pub removed : ℕ → List Row → List Row
  removed now rows = update_where (is_owned_row id user_id) (set_deleted now) rows

  delete_row-ok :
      (start : ℕ) (w w' : World) (a : Avatar)
      → delete_row json start id user_id w ≡ (ok a, w')
      → (r : Row) × (select_one (is_owned_row id user_id) w.db.avatars ≡ some r)
        × (w'.db ≡ record w.db { avatars = removed start w.db.avatars })
        × (w'.objects ≡ w.objects)
  unfolding delete_row scan_avatar mark_deleted query external_call
  delete_row-ok start w w' a h =
      elim (Option-cases (select_one (is_owned_row id user_id) w.db.avatars)) [
        | inl missing ↦ absurd (ground arith)
        | inr (r, there) ↦ (r, there, ground arith, ground arith)
      ]

  module _ (ev : OutboxEvent) where
    statements-NoLostReply :
        (w : World) → NoLostReply w → NoLostReply (delete_statements json id user_id ev w).1
    unfolding delete_statements
    statements-NoLostReply w h =
        let w₁ = (delete_row json w.now id user_id w).1 in
        let q = delete_row-NoLostReply w.now w h in
        ground (arith, insert_outbox-NoLostReply ev w₁ q)

    -- A deletion that fails has changed no table.
    soft_delete-err :
        (w w' : World) (e : Err)
        → NoLostReply w
        → soft_delete_owned_with_outbox json id user_id ev w ≡ (err e, w')
        → w'.db ≡ w.db
    unfolding soft_delete_owned_with_outbox
    soft_delete-err w w' e h p = with_tx-err _ w w' e h statements-NoLostReply p

    pub statements-ok :
        (w w' : World) (p : Avatar × ℕ)
        → delete_statements json id user_id ev w ≡ (ok p, w')
        → (r : Row) × (select_one (is_owned_row id user_id) w.db.avatars ≡ some r)
          × (w'.db ≡ (upsert_outbox ev (record w.db { avatars = removed w.now w.db.avatars })).1)
    unfolding delete_statements
    statements-ok w w' p h = elim (Exec-cases (delete_row json w.now id user_id) w) [
      | inr (e, w₁, q) ↦ absurd (ground arith)
      | inl (a, w₁, q) ↦
          let (r, there, db, _) = delete_row-ok w.now w w₁ a q in
          elim (Exec-cases (insert_outbox ev) w₁) [
            | inr (e, w₂, q') ↦ absurd (ground arith)
            | inl (n, w₂, q') ↦
                let (db', _) = insert_outbox-ok ev w₁ w₂ n q' in
                let last : w'.db ≡ w₂.db = ground arith in
                (r, there, last ∙ db' ∙ ap (λ d. (upsert_outbox ev d).1) db)
          ]
    ]

    -- A deletion that succeeds has found a live row of the user's, has deleted it and no other
    -- user's, and has put the event into the outbox.
    pub soft_delete-ok :
        (w w' : World) (p : Avatar × ℕ)
        → soft_delete_owned_with_outbox json id user_id ev w ≡ (ok p, w')
        → (r : Row) × (now : ℕ) × (select_one (is_owned_row id user_id) w.db.avatars ≡ some r)
          × (w'.db.avatars ≡ removed now w.db.avatars)
          × Holds ev w'.db.outbox
    unfolding soft_delete_owned_with_outbox
    soft_delete-ok w w' p h =
        let (w₁, w₂, db₁, _, ran, db₂, _) = with_tx-ok _ w w' p h in
        let (r, there, db) = statements-ok w₁ w₂ p ran in
        let now = w₁.now in
        let after = record w₁.db { avatars = removed now w₁.db.avatars } in
        let whole = db₂ ∙ db in
        (
          r,
          now,
          ap (λ d. select_one (is_owned_row id user_id) d.avatars) (sym db₁) ∙ there,
          ap (λ d. d.avatars) whole
              ∙ avatars-upsert_outbox ev after
              ∙ ap (λ d. removed now d.avatars) db₁,
          subst (λ d. Holds ev d.outbox) (sym whole) (upsert_outbox-Holds ev after),
        )

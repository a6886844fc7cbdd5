-- ===== src/App/Deletions.antt =====
-- Who may delete an avatar, and what a deletion does to the tables.
use mathlib.Core.Path.{subst}
use goprofile.Prelude.{
  ℕ, ◌≡◌, ◌≢◌, refl, sym, ap, ◌∙◌, inl, inr, none, some, Option-cases, Bool-cases, Bytes, arith,
  eq_iff, ◌==◌, text_eq,
}
use goprofile.Result.{Result, ok}
use goprofile.Result.Laws.{Result-cases, Exec-cases}
use goprofile.Domain.Avatar.{Avatar, Uuid, OutboxEvent}
use goprofile.Domain.Validate.{validate_user_id}
use goprofile.Services.Deps.{new_avatar_service}
use goprofile.Services.Delete.{delete_existing, delete_checked, delete}
use goprofile.World.{World, Row, Db, real_runtime, external_call}
use goprofile.Repository.Found.{get_by_id-ok}
use goprofile.Repository.Tables.{select_one, is_live_row}
use goprofile.Repository.Tx.{query}
use goprofile.Services.Outbox.{delete_outbox_event}
use goprofile.Repository.Tables.Laws.{Holds}
use goprofile.Repository.Removal.{removed, soft_delete-ok}
use goprofile.Repository.Queries.{avatar_of, scan_avatar, get_by_id, soft_delete_owned_with_outbox}
use goprofile.App.{Setup, new_service}

module _ {Image : Type 0} (setup : Setup Image) where
  open setup use {json, library}

  pub db-get_by_id : (id : Uuid) (w : World) → (get_by_id json id w).1.db ≡ w.db
  unfolding get_by_id scan_avatar query external_call
  db-get_by_id id w = ground arith

  user_id-avatar_of : (r : Row) → (avatar_of json r).user_id ≡ r.user_id
  unfolding avatar_of
  user_id-avatar_of r = refl

  delete_checked-not_owner :
      (id : Uuid) (user_id : Bytes) (w : World) (r : Row)
      → select_one (is_live_row id) w.db.avatars ≡ some r
      → r.user_id ≢ user_id
      → ((delete_checked (new_service setup) id user_id w).1.db ≡ w.db)
        × ((delete_checked (new_service setup) id user_id w).0 ≢ ok tt)
  unfolding delete_checked delete_existing new_service new_avatar_service
  delete_checked-not_owner id user_id w r there other =
      elim (Option-cases (validate_user_id user_id)) [
        | inr (e, bad) ↦ (ground arith, ground arith)
        | inl good ↦ elim (Exec-cases (get_by_id json id) w) [
          | inr (e, w₁, got) ↦ (ground (arith, db-get_by_id id w), ground arith)
          | inl (a, w₁, got) ↦
              let (r', there', same) = get_by_id-ok json id w w₁ a got in
              let not_mine : a.user_id ≢ user_id =
                λ e. other (ground (arith, user_id-avatar_of r')) in
              (
                ground (arith, db-get_by_id id w, eq_iff a.user_id user_id),
                ground (arith, eq_iff a.user_id user_id),
              )
        ]
      ]

  db-delete_wrapped :
      (id : Uuid) (user_id : Bytes) (w w' : World) (r : Result (Unit {0}))
      → delete (new_service setup) id user_id w ≡ (r, w')
      → (w₁ : World) × (delete_checked (new_service setup) id user_id w ≡ (r, w₁)) × (w'.db ≡ w₁.db)
  unfolding delete new_service new_avatar_service real_runtime
  db-delete_wrapped id user_id w w' r h =
      let w₁ = (delete_checked (new_service setup) id user_id w).1 in
      (w₁, ground arith, ground arith)

  -- Where the live avatar with the id is another user's, a deletion does not succeed, and changes
  -- no table, whatever calls fail or lose their replies.
  pub delete-not_owner :
      (id : Uuid) (user_id : Bytes) (w : World) (r : Row)
      → select_one (is_live_row id) w.db.avatars ≡ some r
      → r.user_id ≢ user_id
      → ((delete (new_service setup) id user_id w).1.db ≡ w.db)
        × ((delete (new_service setup) id user_id w).0 ≢ ok tt)
  delete-not_owner id user_id w r there other =
      let (result, w') = delete (new_service setup) id user_id w in
      let (w₁, ran, db) = db-delete_wrapped id user_id w w' result refl in
      let (same, refused) = delete_checked-not_owner id user_id w r there other in
      (db ∙ sym (ap (λ q. q.1.db) ran) ∙ same, λ e. refused (ap (λ q. q.0) ran ∙ e))

  delete_checked-ok :
      (id : Uuid) (user_id : Bytes) (w w' : World)
      → delete_checked (new_service setup) id user_id w ≡ (ok tt, w')
      → (validate_user_id user_id ≡ none)
        × ((r : Row) × (ev : OutboxEvent) × (now : ℕ) × (select_one (is_live_row id) w.db.avatars
              ≡ some r)
            × (r.user_id ≡ user_id)
            × (delete_outbox_event library (avatar_of json r) ≡ ok ev)
            × (w'.db.avatars ≡ removed json id user_id now w.db.avatars)
            × Holds ev w'.db.outbox)
  unfolding delete_checked delete_existing new_service new_avatar_service real_runtime
  delete_checked-ok id user_id w w' h = elim (Option-cases (validate_user_id user_id)) [
    | inr (e, bad) ↦ absurd (ground arith)
    | inl good ↦ elim (Exec-cases (get_by_id json id) w) [
      | inr (e, w₁, got) ↦ absurd (ground arith)
      | inl (a, w₁, got) ↦ elim (Bool-cases (a.user_id == user_id)) [
        | inr other ↦ absurd (ground arith)
        | inl mine ↦ elim (Result-cases (delete_outbox_event library a)) [
          | inr (e, failed) ↦ absurd (ground arith)
          | inl (ev, encoded) ↦
              elim (Exec-cases (soft_delete_owned_with_outbox json id user_id ev) w₁) [
                | inr (e, w₂, deleted) ↦ absurd (ground arith)
                | inl (p, w₂, deleted) ↦
                    let (r, there, same) = get_by_id-ok json id w w₁ a got in
                    let (_, now, _, rows, held) =
                      soft_delete-ok json id user_id ev w₁ w₂ p deleted in
                    let start : w₁.db ≡ w.db = ground (arith, db-get_by_id id w) in
                    let last : w'.db ≡ w₂.db = ground arith in
                    (
                      good,
                      (
                        r,
                        ev,
                        now,
                        there,
                        sym (ap (λ (b : Avatar). b.user_id) same ∙ user_id-avatar_of r)
                            ∙ (eq_iff a.user_id user_id).0 mine,
                        ap (delete_outbox_event library) (sym same) ∙ encoded,
                        ap (λ (d : Db). d.avatars) last
                            ∙ rows
                            ∙ ap (λ (d : Db). removed json id user_id now d.avatars) start,
                        subst (λ (d : Db). Holds ev d.outbox) (sym last) held,
                      ),
                    )
              ]
        ]
      ]
    ]
  ]

  -- A successful deletion had a valid user id, and found a live row with the id that is the
  -- user's; it has marked the user's row of that id as deleted and left the other rows as they
  -- were, and the outbox holds the delete event made of the row.
  pub delete-ok :
      (id : Uuid) (user_id : Bytes) (w w' : World)
      → delete (new_service setup) id user_id w ≡ (ok tt, w')
      → (validate_user_id user_id ≡ none)
        × ((r : Row) × (ev : OutboxEvent) × (now : ℕ) × (select_one (is_live_row id) w.db.avatars
              ≡ some r)
            × (r.user_id ≡ user_id)
            × (delete_outbox_event library (avatar_of json r) ≡ ok ev)
            × (w'.db.avatars ≡ removed json id user_id now w.db.avatars)
            × Holds ev w'.db.outbox)
  delete-ok id user_id w w' h =
      let (w₁, ran, db) = db-delete_wrapped id user_id w w' (ok tt) h in
      let (valid, (r, ev, now, there, mine, encoded, rows, held)) =
        delete_checked-ok id user_id w w₁ ran in
      (
        valid,
        (
          r,
          ev,
          now,
          there,
          mine,
          encoded,
          ap (λ (d : Db). d.avatars) db ∙ rows,
          subst (λ (d : Db). Holds ev d.outbox) (sym db) held,
        ),
      )

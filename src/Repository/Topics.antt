-- ===== src/Repository/Topics.antt =====
-- The repository sends nothing to the topics.
use goprofile.Prelude.{ℕ, ◌≡◌, refl, inl, inr, Bytes, Option, arith}
use goprofile.Prelude.Int.{ℤ}
use goprofile.Result.{Result, Exec, ok, err}
use goprofile.Result.Laws.{Exec-cases}
use goprofile.Domain.Avatar.{Uuid, Avatar, KeyMap, OutboxEvent, JsonMap}
use goprofile.World.{Db, World, external_call}
use goprofile.Repository.Tx.{query, begin, commit_over, finish, with_tx}
use goprofile.Repository.Queries.{
  scan_avatar, insert_row, insert_outbox, create_statements, create_with_outbox, delete_row,
  delete_statements, soft_delete_owned_with_outbox, mark_processing, complete_processing,
  fail_processing, mark_outbox_published, get_by_id, get_latest_by_user_id, list_by_user_id,
  list_unpublished, list_stuck_uploads,
}

abbrev pub Silent : {A : Type 0} → Exec World A → Type 0
Silent m = (w : World) → (m w).1.topics ≡ w.topics

topics-begin : Silent begin
unfolding begin query external_call
topics-begin w = ground arith

module _ {A : Type 0} where
  topics-query : (f : ℕ → Db → Result A × Db) → Silent (query f)
  unfolding query external_call
  topics-query f w = ground arith

  topics-finish : (saved : Db) (r : Result A) → Silent (finish saved r)
  unfolding finish commit_over external_call
  topics-finish saved (err e) w = refl
  topics-finish saved (ok a) w = ground arith

  topics-with_tx : (fn : Exec World A) → Silent fn → Silent (with_tx fn)
  unfolding with_tx
  topics-with_tx fn silent w = elim (Exec-cases begin w) [
    | inr (e, w₁, p) ↦ ground (arith, topics-begin w)
    | inl (u, w₁, p) ↦
        let (r, w₂) = fn w₁ in ground (arith, topics-begin w, silent w₁, topics-finish w₁.db r w₂)
  ]

module _ (json : JsonMap) where
  topics-insert_outbox : (ev : OutboxEvent) → Silent (insert_outbox ev)
  unfolding insert_outbox
  topics-insert_outbox ev w = topics-query _ w

  topics-create_statements : (a : Avatar) (ev : OutboxEvent) → Silent (create_statements json a ev)
  unfolding create_statements insert_row query external_call
  topics-create_statements a ev w = elim (Exec-cases (insert_row json a) w) [
    | inr (e, w₁, p) ↦ ground arith
    | inl (u, w₁, p) ↦ ground (arith, topics-insert_outbox ev w₁)
  ]

  pub topics-create_with_outbox :
      (a : Avatar) (ev : OutboxEvent) → Silent (create_with_outbox json a ev)
  unfolding create_with_outbox
  topics-create_with_outbox a ev = topics-with_tx _ (topics-create_statements a ev)

  topics-delete_statements :
      (id : Uuid) (user_id : Bytes) (ev : OutboxEvent)
      → Silent (delete_statements json id user_id ev)
  unfolding delete_statements delete_row scan_avatar query external_call
  topics-delete_statements id user_id ev w =
      elim (Exec-cases (delete_row json w.now id user_id) w) [
        | inr (e, w₁, p) ↦ ground arith
        | inl (a, w₁, p) ↦ elim (Exec-cases (insert_outbox ev) w₁) [
          | inr (e, w₂, q) ↦ ground (arith, topics-insert_outbox ev w₁)
          | inl (n, w₂, q) ↦ ground (arith, topics-insert_outbox ev w₁)
        ]
      ]

  pub topics-soft_delete :
      (id : Uuid) (user_id : Bytes) (ev : OutboxEvent)
      → Silent (soft_delete_owned_with_outbox json id user_id ev)
  unfolding soft_delete_owned_with_outbox
  topics-soft_delete id user_id ev = topics-with_tx _ (topics-delete_statements id user_id ev)

  pub topics-mark_processing : (id : Uuid) → Silent (mark_processing json id)
  unfolding mark_processing
  topics-mark_processing id w = topics-query _ w

  pub topics-complete_processing :
      (id : Uuid) (thumbs : Option KeyMap) (width height : ℤ)
      → Silent (complete_processing json id thumbs width height)
  unfolding complete_processing query external_call
  topics-complete_processing id thumbs width height w = ground arith

  pub topics-fail_processing : (id : Uuid) → Silent (fail_processing json id)
  unfolding fail_processing
  topics-fail_processing id w = topics-query _ w

  pub topics-mark_outbox_published : (id : ℕ) → Silent (mark_outbox_published json id)
  unfolding mark_outbox_published
  topics-mark_outbox_published id w = topics-query _ w

  pub topics-get_by_id : (id : Uuid) → Silent (get_by_id json id)
  unfolding get_by_id scan_avatar query external_call
  topics-get_by_id id w = ground arith

  pub topics-get_latest : (user_id : Bytes) → Silent (get_latest_by_user_id json user_id)
  unfolding get_latest_by_user_id scan_avatar query external_call
  topics-get_latest user_id w = ground arith

  pub topics-list : (user_id : Bytes) → Silent (list_by_user_id json user_id)
  unfolding list_by_user_id
  topics-list user_id w = topics-query _ w

  pub topics-list_unpublished : (limit : ℤ) → Silent (list_unpublished json limit)
  unfolding list_unpublished
  topics-list_unpublished limit w = topics-query _ w

  pub topics-list_stuck : (limit : ℤ) → Silent (list_stuck_uploads json limit)
  unfolding list_stuck_uploads
  topics-list_stuck limit w = topics-query _ w

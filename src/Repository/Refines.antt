-- ===== src/Repository/Refines.antt =====
-- Each method of the repository writes at once or not at all: it makes one step, or none.
use goprofile.Prelude.{ℕ, ◌≡◌, ap, sym, ◌∙◌, ◌⊎◌, inl, inr, Bytes, Option, some, Bool, arith}
use goprofile.Prelude.Int.{ℤ}
use goprofile.Result.{Result, ok}
use goprofile.Domain.Avatar.{Uuid, Avatar, KeyMap, OutboxEvent, JsonMap, thumbnail_keys_json}
use goprofile.Services.Deps.{AvatarStore}
use goprofile.World.{Db, World, external_call, begin_call}
use goprofile.Repository.Tables.{select_one, insert_avatar, upsert_outbox}
use goprofile.Repository.Statements.{
  is_owned_row, claim, map_or_empty, complete, fail_row, publish_row,
}
use goprofile.Repository.Tx.{query}
use goprofile.Repository.Tx.Laws.{Outcome-cases, with_tx_atomic}
use goprofile.Repository.Queries.{
  scan_avatar, create_statements, create_with_outbox, delete_statements,
  soft_delete_owned_with_outbox, mark_processing, complete_processing, fail_processing,
  mark_outbox_published, get_by_id, get_latest_by_user_id, list_by_user_id, list_unpublished,
  list_stuck_uploads, avatar_repository,
}
use goprofile.Repository.Outcome.{statements-ok as create_statements-ok}
use goprofile.Repository.Removal.{removed, statements-ok as delete_statements-ok}
use goprofile.Repository.Found.{get_by_id-same_id}
use goprofile.Repository.Steps.{AtMost, Creates, Deletes, Claims, Completes, Fails, Publishes}

-- What an implementation of `AvatarStore` on the world may do to the tables, whatever calls fail or
-- lose their replies: a writing method makes its own write once or not at all, and a reading method
-- writes nothing; what is got by an id has the id.
pub record Refines (store : AvatarStore World) : Type 0 where
  pub create_with_outbox_creates :
      (a : Avatar) (ev : OutboxEvent) (w : World)
      → AtMost (Creates a ev) w.db (store.create_with_outbox a ev w).1.db
  pub soft_delete_deletes :
      (id : Uuid) (user_id : Bytes) (ev : OutboxEvent) (w : World)
      → AtMost
          (Deletes id user_id ev)
          w.db
          (store.soft_delete_owned_with_outbox id user_id ev w).1.db
  pub mark_processing_claims :
      (id : Uuid) (w : World) → AtMost (Claims id) w.db (store.mark_processing id w).1.db
  pub complete_processing_completes :
      (id : Uuid) (thumbs : Option KeyMap) (width height : ℤ) (w : World)
      → AtMost
          (Completes id width height)
          w.db
          (store.complete_processing id thumbs width height w).1.db
  pub fail_processing_fails :
      (id : Uuid) (w : World) → AtMost (Fails id) w.db (store.fail_processing id w).1.db
  pub mark_outbox_published_publishes :
      (id : ℕ) (w : World) → AtMost (Publishes id) w.db (store.mark_outbox_published id w).1.db
  pub get_by_id_returns :
      (id : Uuid) (w w' : World) (a : Avatar) → store.get_by_id id w ≡ (ok a, w') → a.id ≡ id
  pub get_by_id_reads : (id : Uuid) (w : World) → (store.get_by_id id w).1.db ≡ w.db
  pub get_latest_reads :
      (user_id : Bytes) (w : World) → (store.get_latest_by_user_id user_id w).1.db ≡ w.db
  pub list_reads : (user_id : Bytes) (w : World) → (store.list_by_user_id user_id w).1.db ≡ w.db
  pub list_unpublished_reads :
      (limit : ℤ) (w : World) → (store.list_unpublished limit w).1.db ≡ w.db
  pub list_stuck_reads : (limit : ℤ) (w : World) → (store.list_stuck_uploads limit w).1.db ≡ w.db

-- A statement has its effect at the time of its call, or none.
query-cases :
    {A : Type 0} (f : ℕ → Db → Result A × Db) (w : World)
    → ((query f w).1.db ≡ w.db) ⊎ ((now : ℕ) × ((query f w).1.db ≡ (f now w.db).1))
unfolding query external_call
query-cases f w = elim (Outcome-cases (begin_call w).0) [
  | inl worked ↦ inr ((begin_call w).1.now, ground arith)
  | inr (inl broke) ↦ inl (ground arith)
  | inr (inr lost) ↦ inr ((begin_call w).1.now, ground arith)
]

-- The statement of `CompleteProcessing`.
abbrev completing : Uuid → Bytes → ℤ → ℤ → ℕ → Db → Result Bool × Db
completing id raw width height now db =
    let (hit, db') = complete id raw width height now db in (ok hit, db')

module _ (json : JsonMap) where
  create_with_outbox-Creates :
      (a : Avatar) (ev : OutboxEvent) (w : World)
      → AtMost (Creates a ev) w.db (create_with_outbox json a ev w).1.db
  unfolding create_with_outbox
  create_with_outbox-Creates a ev w = elim (with_tx_atomic (create_statements json a ev) w) [
    | inl same ↦ inl same
    | inr (w₁, w₂, n, found, ran, wrote) ↦
        let raw = thumbnail_keys_json json a.thumbnail_s3_keys in
        let (rows, made, db, _) = create_statements-ok json a ev w₁ w₂ n ran in
        inr (
          raw,
          rows,
          ap (λ d. insert_avatar a raw d.avatars) (sym found) ∙ made,
          (wrote ∙ db ∙ ap (λ d. (upsert_outbox ev (record d { avatars = rows })).1) found),
        )
  ]

  soft_delete-Deletes :
      (id : Uuid) (user_id : Bytes) (ev : OutboxEvent) (w : World)
      → AtMost
          (Deletes id user_id ev)
          w.db
          (soft_delete_owned_with_outbox json id user_id ev w).1.db
  unfolding soft_delete_owned_with_outbox
  soft_delete-Deletes id user_id ev w =
      elim (with_tx_atomic (delete_statements json id user_id ev) w) [
        | inl same ↦ inl same
        | inr (w₁, w₂, p, found, ran, wrote) ↦
            let (r, there, db) = delete_statements-ok json id user_id ev w₁ w₂ p ran in
            let now = w₁.now in
            inr (
              now,
              r,
              ap (λ d. select_one (is_owned_row id user_id) d.avatars) (sym found) ∙ there,
              (wrote
                  ∙ db
                  ∙ ap
                      (λ d.
                        (upsert_outbox ev
                          (record d { avatars = removed json id user_id now d.avatars })).1)
                      found),
            )
      ]

  mark_processing-Claims :
      (id : Uuid) (w : World) → AtMost (Claims id) w.db (mark_processing json id w).1.db
  unfolding mark_processing
  mark_processing-Claims id w =
      elim (query-cases (λ now db. let (hit, db') = claim id now db in (ok hit, db')) w) [
        | inl same ↦ inl same
        | inr (now, wrote) ↦ inr (now, wrote)
      ]

  complete_processing-Completes :
      (id : Uuid) (thumbs : Option KeyMap) (width height : ℤ) (w : World)
      → AtMost
          (Completes id width height)
          w.db
          (complete_processing json id thumbs width height w).1.db
  unfolding complete_processing
  complete_processing-Completes id thumbs width height w =
      let raw = thumbnail_keys_json json (some (map_or_empty thumbs)) in
      let write = completing id raw width height in
      let last : (complete_processing json id thumbs width height w).1.db ≡ (query write w).1.db =
        ground arith in
      elim (query-cases write w) [
        | inl same ↦ inl (last ∙ same)
        | inr (now, wrote) ↦ inr (raw, now, last ∙ wrote)
      ]

  fail_processing-Fails :
      (id : Uuid) (w : World) → AtMost (Fails id) w.db (fail_processing json id w).1.db
  unfolding fail_processing
  fail_processing-Fails id w = elim (query-cases (λ now db. (ok tt, fail_row id now db)) w) [
    | inl same ↦ inl same
    | inr (now, wrote) ↦ inr (now, wrote)
  ]

  mark_outbox_published-Publishes :
      (id : ℕ) (w : World) → AtMost (Publishes id) w.db (mark_outbox_published json id w).1.db
  unfolding mark_outbox_published
  mark_outbox_published-Publishes id w =
      elim (query-cases (λ now db. (ok tt, publish_row id now db)) w) [
        | inl same ↦ inl same
        | inr (now, wrote) ↦ inr (now, wrote)
      ]

  -- The repository refines the step system: whatever calls fail or lose their replies, each of its
  -- writing methods makes its own write at once or not at all, with the id, the avatar and the event
  -- that it was given, its reading methods change nothing, and the avatar that is got by an id has
  -- that id.
  pub avatar_repository-Refines : Refines (avatar_repository json)
  unfolding get_by_id get_latest_by_user_id list_by_user_id list_unpublished list_stuck_uploads
      scan_avatar query external_call
  avatar_repository-Refines = record {
    create_with_outbox_creates = create_with_outbox-Creates;
    soft_delete_deletes = soft_delete-Deletes;
    mark_processing_claims = mark_processing-Claims;
    complete_processing_completes = complete_processing-Completes;
    fail_processing_fails = fail_processing-Fails;
    mark_outbox_published_publishes = mark_outbox_published-Publishes;
    get_by_id_returns = get_by_id-same_id json;
    get_by_id_reads = λ id w. ground arith;
    get_latest_reads = λ user_id w. ground arith;
    list_reads = λ user_id w. ground arith;
    list_unpublished_reads = λ limit w. ground arith;
    list_stuck_reads = λ limit w. ground arith;
  }

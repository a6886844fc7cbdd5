-- ===== src/Repository/Outcome.antt =====
-- What creating and deleting a row with its event does, seen from the service.
use goprofile.Prelude.{ℕ, ◌≡◌, ap, ◌∙◌, inl, inr, List, [], ◌∷◌, ◌++◌, some, Option-cases, arith}
use goprofile.Result.{ok, err}
use goprofile.Result.Laws.{Exec-cases}
use goprofile.Domain.Errors.{Err}
use goprofile.Domain.Avatar.{Avatar, OutboxEvent, JsonMap, thumbnail_keys_json}
use goprofile.World.{World, Row, external_call}
use goprofile.Repository.Tables.{inserted_row, insert_avatar, upsert_outbox}
use goprofile.Repository.Tables.Laws.{
  insert_avatar-some, upsert_outbox-Holds, avatars-upsert_outbox, Holds,
}
use goprofile.Repository.Tx.{query}
use goprofile.Repository.Tx.Laws.{NoLostReply, with_tx-ok, with_tx-err}
use goprofile.Repository.Queries.{insert_outbox, insert_row, create_statements, create_with_outbox}

module _ (json : JsonMap) (a : Avatar) where
  insert_row-NoLostReply : (w : World) → NoLostReply w → NoLostReply (insert_row json a w).1
  unfolding insert_row query external_call
  insert_row-NoLostReply w h = ground arith

  insert_row-ok :
      (w w' : World) (u : Unit)
      → insert_row json a w ≡ (ok u, w')
      → (rows : List Row) × (insert_avatar a
            (thumbnail_keys_json json a.thumbnail_s3_keys)
            w.db.avatars
          ≡ some rows)
        × (w'.db ≡ record w.db { avatars = rows })
        × (w'.objects ≡ w.objects)
  unfolding insert_row query external_call
  insert_row-ok w w' u h =
      elim (Option-cases
        (insert_avatar a (thumbnail_keys_json json a.thumbnail_s3_keys) w.db.avatars)) [
          | inl taken ↦ absurd (ground arith)
          | inr (rows, made) ↦ (rows, made, ground arith, ground arith)
        ]

module _ (ev : OutboxEvent) where
  pub insert_outbox-NoLostReply : (w : World) → NoLostReply w → NoLostReply (insert_outbox ev w).1
  unfolding insert_outbox query external_call
  insert_outbox-NoLostReply w h = ground arith

  pub insert_outbox-ok :
      (w w' : World) (n : ℕ)
      → insert_outbox ev w ≡ (ok n, w')
      → (w'.db ≡ (upsert_outbox ev w.db).1) × (w'.objects ≡ w.objects)
  unfolding insert_outbox query external_call
  insert_outbox-ok w w' n h = (ground arith, ground arith)

module _ (json : JsonMap) (a : Avatar) (ev : OutboxEvent) where
  statements-NoLostReply :
      (w : World) → NoLostReply w → NoLostReply (create_statements json a ev w).1
  unfolding create_statements
  statements-NoLostReply w h =
      let w₁ = (insert_row json a w).1 in
      let q = insert_row-NoLostReply json a w h in ground (arith, insert_outbox-NoLostReply ev w₁ q)

  -- A creation that fails has changed no table.
  pub create-err :
      (w w' : World) (e : Err)
      → NoLostReply w
      → create_with_outbox json a ev w ≡ (err e, w')
      → w'.db ≡ w.db
  unfolding create_with_outbox
  create-err w w' e h p = with_tx-err _ w w' e h statements-NoLostReply p

  pub statements-ok :
      (w w' : World) (n : ℕ)
      → create_statements json a ev w ≡ (ok n, w')
      → (rows : List Row) × (insert_avatar a
            (thumbnail_keys_json json a.thumbnail_s3_keys)
            w.db.avatars
          ≡ some rows)
        × (w'.db ≡ (upsert_outbox ev (record w.db { avatars = rows })).1)
        × (w'.objects ≡ w.objects)
  unfolding create_statements
  statements-ok w w' n h = elim (Exec-cases (insert_row json a) w) [
    | inr (e, w₁, p) ↦ absurd (ground arith)
    | inl (u, w₁, p) ↦
        let (rows, made, db, objects) = insert_row-ok json a w w₁ u p in
        let (db', objects') = insert_outbox-ok ev w₁ w' n (ground arith) in
        (rows, made, db' ∙ ap (λ d. (upsert_outbox ev d).1) db, objects' ∙ objects)
  ]

  -- A creation that succeeds has appended the row, whose id was free, and has put the event into
  -- the outbox.
  pub create-ok :
      (w w' : World) (n : ℕ)
      → create_with_outbox json a ev w ≡ (ok n, w')
      → (w'.db.avatars
          ≡ w.db.avatars ++ inserted_row a (thumbnail_keys_json json a.thumbnail_s3_keys) ∷ [])
        × Holds ev w'.db.outbox
        × (w'.objects ≡ w.objects)
  unfolding create_with_outbox
  create-ok w w' n h =
      let (w₁, w₂, db₁, objects₁, ran, db₂, objects₂) = with_tx-ok _ w w' n h in
      let (rows, made, db, objects) = statements-ok w₁ w₂ n ran in
      let (_, appended) = insert_avatar-some a _ w₁.db.avatars rows made in
      let whole = db₂ ∙ db in
      let inserted = record w₁.db { avatars = rows } in
      (
        ap (λ d. d.avatars) whole
            ∙ avatars-upsert_outbox ev inserted
            ∙ appended
            ∙ ap
                (λ d.
                  d.avatars ++ inserted_row a (thumbnail_keys_json json a.thumbnail_s3_keys) ∷ [])
                db₁,
        rw whole (upsert_outbox-Holds ev inserted),
        objects₂ ∙ objects ∙ objects₁,
      )

-- ===== src/App/Uploads.antt =====
-- What an upload leaves in the tables and in the bucket.
use mathlib.Core.Path.{subst}
use goprofile.Prelude.{
  ◌+◌, ◌≡◌, refl, sym, ap, ◌∙◌, ◌⊎◌, inl, inr, [], ◌∷◌, ◌++◌, none, some, Option-cases, Bool-cases,
  Bytes, length, arith, eq_iff, if◌then◌else◌, ◌==◌, text_eq, nat_eq,
}
use goprofile.Prelude.Int.{pos, ltb_ℤ}
use goprofile.Result.{Result, ok, err}
use goprofile.Result.Laws.{Result-cases}
use goprofile.Domain.Errors.{Err, sentinel, file_required, file_too_large}
use goprofile.Domain.Avatar.{Avatar, OutboxEvent, thumbnail_keys_json}
use goprofile.Domain.Validate.{validate_user_id}
use goprofile.Image.{Info, inspect}
use goprofile.Services.Deps.{new_avatar_service}
use goprofile.Services.Upload.{
  new_avatar, upload_outbox_event, store_avatar, upload_inspected, upload_checked, upload,
}
use goprofile.Services.Upload.Outcome.{
  Stores, refused, unencoded, uncreated, created, store_avatar-Stores,
}
use goprofile.World.{World, Row, real_runtime}
use goprofile.Repository.Tables.{inserted_row}
use goprofile.Repository.Tables.Laws.{Holds}
use goprofile.Repository.Tx.Laws.{NoLostReply}
use goprofile.Repository.Outcome.{create-err, create-ok}
use goprofile.Storage.{object_at}
use goprofile.Storage.Laws.{
  object_at-put, db-upload, upload-NoLostReply, upload-ok as put-ok, db-delete,
}
use goprofile.App.{Setup, new_service}

module _ {Image : Type 0} (setup : Setup Image) where
  open setup use {json, library, detect_content_type}

  Stores-err :
      (a : Avatar) (bytes : Bytes) (w w' : World) (r : Result Avatar) (e : Err)
      → Stores (new_service setup) a bytes w r w'
      → r ≡ err e
      → NoLostReply w
      → w'.db ≡ w.db
  unfolding new_service new_avatar_service
  Stores-err a bytes w w' r e (refused e' w₁ put) p h =
      ground (arith, db-upload detect_content_type a.s3_key a.mime_type bytes w)
  Stores-err a bytes w w' r e (unencoded e' w₁ put encoded) p h = ground (
    arith,
    db-upload detect_content_type a.s3_key a.mime_type bytes w,
    db-delete (a.s3_key ∷ []) w₁,
  )
  Stores-err a bytes w w' r e (uncreated e' ev w₁ w₂ put encoded made) p h =
      let quiet = upload-NoLostReply detect_content_type a.s3_key a.mime_type bytes w h in
      let quiet₁ : NoLostReply w₁ = rw (ap (λ q. q.1) put) at quiet in
      ground (
        arith,
        db-upload detect_content_type a.s3_key a.mime_type bytes w,
        create-err json a ev w₁ w₂ e' quiet₁ made,
        db-delete (a.s3_key ∷ []) w₂,
      )
  Stores-err a bytes w w' r e (created ev n w₁ w₂ put encoded made) p h = cc

  -- The row that is inserted.
  abbrev pub stored_row : Avatar → Row
  stored_row a = inserted_row a (thumbnail_keys_json json a.thumbnail_s3_keys)

  -- What is there behind a success: the row, its event, and the object.
  abbrev pub IsStored : Avatar → Bytes → World → World → Type 0
  IsStored a bytes w w' =
      (w'.db.avatars ≡ w.db.avatars ++ stored_row a ∷ [])
      × ((ev : OutboxEvent) × (upload_outbox_event library a ≡ ok ev) × Holds ev w'.db.outbox)
      × (object_at a.s3_key w'.objects
          ≡ some (if a.mime_type == [] then detect_content_type bytes else a.mime_type, bytes))

  Stores-ok :
      (a a' : Avatar) (bytes : Bytes) (w w' : World) (r : Result Avatar)
      → Stores (new_service setup) a bytes w r w'
      → r ≡ ok a'
      → (a ≡ a') × IsStored a bytes w w'
  unfolding new_service new_avatar_service
  Stores-ok a a' bytes w w' r (refused e' w₁ put) p = cc
  Stores-ok a a' bytes w w' r (unencoded e' w₁ put encoded) p = cc
  Stores-ok a a' bytes w w' r (uncreated e' ev w₁ w₂ put encoded made) p = cc
  Stores-ok a a' bytes w w' r (created ev n w₁ w₂ put encoded made) p =
      let kind = if a.mime_type == [] then detect_content_type bytes else a.mime_type in
      let (rows, held, same) = create-ok json a ev w₁ w₂ n made in
      let db : w₁.db ≡ w.db =
        sym (ap (λ q. q.1.db) put) ∙ db-upload detect_content_type a.s3_key a.mime_type bytes w in
      (
        cc,
        (
          rows ∙ ap (λ d. d.avatars ++ stored_row a ∷ []) db,
          (ev, encoded, held),
          ap (object_at a.s3_key)
                (same ∙ put-ok detect_content_type a.s3_key a.mime_type bytes w w₁ put)
              ∙ object_at-put a.s3_key a.s3_key kind bytes w.objects
              ∙ ground (arith, eq_iff a.s3_key a.s3_key),
        ),
      )

  Checked : Bytes → Bytes → Bytes → World → Result Avatar → World → Type 0
  Checked user_id file_name bytes w r w' =
      ((e : Err) × (r ≡ err e) × (w' ≡ w))
      ⊎ ((info : Info) × (validate_user_id user_id ≡ none)
          × (inspect library.codec bytes ≡ ok info)
          × (upload_inspected (new_service setup) user_id file_name bytes info w ≡ (r, w')))

  upload_checked_lem :
      (user_id file_name bytes : Bytes) (w w' : World) (r : Result Avatar)
      → upload_checked (new_service setup) user_id file_name bytes w ≡ (r, w')
      → Checked user_id file_name bytes w r w'
  unfolding upload_checked Checked new_service new_avatar_service
  upload_checked_lem user_id file_name bytes w w' r h =
      elim (Option-cases (validate_user_id user_id)) [
        | inr (e, bad) ↦ inl (e, ground arith, ground arith)
        | inl good ↦ elim (Result-cases (inspect library.codec bytes)) [
          | inr (e, bad) ↦ elim (Bool-cases (length bytes == 0)) [
            | inl empty ↦ inl (sentinel file_required, ground arith, ground arith)
            | inr full ↦
                elim (Bool-cases (ltb_ℤ (new_service setup).max_bytes (pos (length bytes)))) [
                  | inl large ↦ inl (sentinel file_too_large, ground arith, ground arith)
                  | inr fits ↦ inl (e, ground arith, ground arith)
                ]
          ]
          | inl (info, read) ↦ elim (Bool-cases (length bytes == 0)) [
            | inl empty ↦ inl (sentinel file_required, ground arith, ground arith)
            | inr full ↦
                elim (Bool-cases (ltb_ℤ (new_service setup).max_bytes (pos (length bytes)))) [
                  | inl large ↦ inl (sentinel file_too_large, ground arith, ground arith)
                  | inr fits ↦ inr (info, good, read, ground arith)
                ]
          ]
        ]
      ]

  db-upload_wrapped :
      (user_id file_name bytes : Bytes) (w w' : World) (r : Result Avatar)
      → upload (new_service setup) user_id file_name bytes w ≡ (r, w')
      → (w₁ : World) × (upload_checked (new_service setup) user_id file_name bytes w ≡ (r, w₁))
        × (w'.db ≡ w₁.db)
        × (w'.objects ≡ w₁.objects)
  unfolding upload new_service new_avatar_service real_runtime
  db-upload_wrapped user_id file_name bytes w w' r h =
      let w₁ = (upload_checked (new_service setup) user_id file_name bytes w).1 in
      (w₁, ground arith, ground arith, ground arith)

  -- The world behind uuid.New, and the row that is built.
  abbrev drawn_from : World → World
  drawn_from w = record w { drawn = w.drawn + 1 }

  abbrev pub built : Bytes → Bytes → Bytes → Info → World → Avatar
  built user_id file_name bytes info w =
      new_avatar library (w.uuids w.drawn) w.now user_id file_name bytes info

  upload_inspected_lem :
      (user_id file_name bytes : Bytes) (info : Info) (w : World)
      → upload_inspected (new_service setup) user_id file_name bytes info w
        ≡ store_avatar
            (new_service setup)
            (built user_id file_name bytes info w)
            bytes
            (drawn_from w)
  unfolding upload_inspected new_service new_avatar_service real_runtime
  upload_inspected_lem user_id file_name bytes info w = refl

  stores :
      (user_id file_name bytes : Bytes) (info : Info) (w w' : World) (r : Result Avatar)
      → upload_inspected (new_service setup) user_id file_name bytes info w ≡ (r, w')
      → Stores (new_service setup) (built user_id file_name bytes info w) bytes (drawn_from w) r w'
  stores user_id file_name bytes info w w' r h =
      let a = built user_id file_name bytes info w in
      let e = sym (upload_inspected_lem user_id file_name bytes info w) ∙ h in
      subst (λ q. Stores (new_service setup) a bytes (drawn_from w) q.0 q.1) e
        (store_avatar-Stores (new_service setup) a bytes (drawn_from w))

  -- Where no reply of a call is lost, an upload that is answered with an error has changed no table.
  pub upload-err :
      (user_id file_name bytes : Bytes) (w w' : World) (e : Err)
      → NoLostReply w
      → upload (new_service setup) user_id file_name bytes w ≡ (err e, w')
      → w'.db ≡ w.db
  unfolding Checked
  upload-err user_id file_name bytes w w' e quiet h =
      let (w₁, ran, db, _) = db-upload_wrapped user_id file_name bytes w w' (err e) h in
      elim (upload_checked_lem user_id file_name bytes w w₁ (err e) ran) [
        | inl (e', _, same) ↦ db ∙ ap (λ v. v.db) same
        | inr (info, _, _, went) ↦
            db
            ∙ Stores-err (built user_id file_name bytes info w) bytes (drawn_from w) w₁ (err e) e
                (stores user_id file_name bytes info w w₁ (err e) went) refl quiet
      ]

  -- A successful upload had a valid user id and a readable image, and answers with the row built
  -- from them; that row has been appended to the table, the outbox holds its upload event, and the
  -- bucket holds the uploaded bytes under its key.
  pub upload-ok :
      (user_id file_name bytes : Bytes) (w w' : World) (a : Avatar)
      → upload (new_service setup) user_id file_name bytes w ≡ (ok a, w')
      → (validate_user_id user_id ≡ none)
        × ((info : Info) × (inspect library.codec bytes ≡ ok info)
            × (a ≡ built user_id file_name bytes info w))
        × IsStored a bytes w w'
  unfolding Checked
  upload-ok user_id file_name bytes w w' a h =
      let (w₁, ran, db, objects) = db-upload_wrapped user_id file_name bytes w w' (ok a) h in
      elim (upload_checked_lem user_id file_name bytes w w₁ (ok a) ran) [
        | inl (e', failed, _) ↦ cc
        | inr (info, valid, read, went) ↦
            let b = built user_id file_name bytes info w in
            let (same, (rows, (ev, encoded, held), object)) =
              Stores-ok b a bytes (drawn_from w) w₁ (ok a)
                (stores user_id file_name bytes info w w₁ (ok a) went) refl in
            (
              valid,
              (info, read, sym same),
              subst (λ c. IsStored c bytes w w') same
                  (
                    ap (λ d. d.avatars) db ∙ rows,
                    (ev, encoded, subst (λ d. Holds ev d.outbox) (sym db) held),
                    ap (object_at b.s3_key) objects ∙ object,
                  ),
            )
      ]

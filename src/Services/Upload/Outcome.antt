-- ===== src/Services/Upload/Outcome.antt =====
-- What `upload` does behind its checks, over any implementation of the interfaces: the calls that
-- were made and their results, for each way in which it can end.
use goprofile.Prelude.{ℕ, ◌≡◌, inl, inr, Bytes, [], ◌∷◌}
use goprofile.Result.{Result, ok, err}
use goprofile.Result.Laws.{Result-cases, Exec-cases}
use goprofile.Domain.Errors.{Err}
use goprofile.Domain.Avatar.{Avatar, OutboxEvent}
use goprofile.Services.Deps.{AvatarService}
use goprofile.Services.Upload.{store_avatar, upload_outbox_event}

module _ {S Image : Type 0} (service : AvatarService S Image) (a : Avatar) (bytes : Bytes)
    (s : S) where
  open service use {repo, objects, library}

  pub data Stores : Result Avatar → S → Type 0 where
    -- the object store refused
    refused :
        (e : Err) (s₁ : S)
        → objects.upload a.s3_key a.mime_type bytes s ≡ (err e, s₁)
        → Stores (err e) s₁
    -- the event could not be encoded, and the object was deleted again
    unencoded :
        (e : Err) (s₁ : S)
        → objects.upload a.s3_key a.mime_type bytes s ≡ (ok tt, s₁)
        → upload_outbox_event library a ≡ err e
        → Stores (err e) (objects.delete (a.s3_key ∷ []) s₁).1
    -- the row could not be created, and the object was deleted again
    uncreated :
        (e : Err) (ev : OutboxEvent) (s₁ s₂ : S)
        → objects.upload a.s3_key a.mime_type bytes s ≡ (ok tt, s₁)
        → upload_outbox_event library a ≡ ok ev
        → repo.create_with_outbox a ev s₁ ≡ (err e, s₂)
        → Stores (err e) (objects.delete (a.s3_key ∷ []) s₂).1
    -- the object, the row and the event are there
    created :
        (ev : OutboxEvent) (n : ℕ) (s₁ s₂ : S)
        → objects.upload a.s3_key a.mime_type bytes s ≡ (ok tt, s₁)
        → upload_outbox_event library a ≡ ok ev
        → repo.create_with_outbox a ev s₁ ≡ (ok n, s₂)
        → Stores (ok a) s₂

  abbrev Ends : Result Avatar × S → Type 0
  Ends (r, s') = Stores r s'

  -- The storing of an upload ends in one of four ways: the object store refused; the event could
  -- not be encoded, or the row could not be created, and then the object was deleted again and the
  -- error is returned; or the object, the row and the event are there.
  pub store_avatar-Stores : Ends (store_avatar service a bytes s)
  unfolding store_avatar
  store_avatar-Stores = elim (Exec-cases (objects.upload a.s3_key a.mime_type bytes) s) [
    | inr (e, s₁, put) ↦ rw put (refused e s₁ put)
    | inl (_, s₁, put) ↦ elim (Result-cases (upload_outbox_event library a)) [
      | inr (e, encoded) ↦ rw (put, encoded) (unencoded e s₁ put encoded)
      | inl (ev, encoded) ↦ elim (Exec-cases (repo.create_with_outbox a ev) s₁) [
        | inr (e, s₂, made) ↦ rw (put, encoded, made) (uncreated e ev s₁ s₂ put encoded made)
        | inl (n, s₂, made) ↦ rw (put, encoded, made) (created ev n s₁ s₂ put encoded made)
      ]
    ]
  ]

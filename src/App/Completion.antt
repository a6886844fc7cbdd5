-- ===== src/App/Completion.antt =====
-- The row behind a processing that ends without an error.
use goprofile.Prelude.{
  ℕ, ◌≡◌, refl, ap, ◌∙◌, inl, inr, Bytes, [], ◌∷◌, Option-cases, some, true, arith,
}
use mathlib.Core.Path.{subst}
use goprofile.Prelude.Int.{ℤ}
use goprofile.Result.{Result, ok, err}
use goprofile.Domain.Errors.{Err}
use goprofile.Image.{Info, inspect}
use goprofile.Storage.{download}
use goprofile.Domain.Avatar.{
  Uuid, KeyMap, size_100, size_300, completed as completed_status, thumbnail_keys_json,
}
use goprofile.Services.Deps.{new_avatar_service}
use goprofile.Services.Process.{process_claimed}
use goprofile.Services.Process.Outcome.{
  Puts, Finishes, no_small, no_large, completes, Ends, EndsOf, not_fetched, unreadable, readable,
  process_claimed-Ends,
}
use goprofile.World.{World, Row, external_call}
use goprofile.Repository.Tables.{is_live_row, select_one, update_where, set_completed}
use goprofile.Repository.Tables.Laws.{select_one-update}
use goprofile.Repository.Tx.{query}
use goprofile.Repository.Statements.{complete}
use goprofile.Repository.Queries.{complete_processing, fail_processing}
use goprofile.App.{Setup, new_service}

module _ {Image : Type 0} (setup : Setup Image) (id : Uuid) where
  open setup use {json, library}

  -- The live row with the id is completed, and has the thumbnails.
  pub record IsCompleted (thumbs : KeyMap) (w : World) : Type 0 where
    pub row : Row
    pub found : select_one (is_live_row id) w.db.avatars ≡ some row
    pub done : row.processing_status ≡ completed_status
    pub keys : row.thumbnails ≡ some (thumbnail_keys_json json (some thumbs))

  stays_live :
      (raw : Bytes) (width height : ℤ) (now : ℕ) (r : Row)
      → is_live_row id r ≡ true
      → is_live_row id (set_completed raw width height now r) ≡ true
  unfolding set_completed
  stays_live raw width height now r h = h

  pub complete-IsCompleted :
      (thumbs : KeyMap) (width height : ℤ) (w w' : World)
      → complete_processing json id (some thumbs) width height w ≡ (ok tt, w')
      → IsCompleted thumbs w'
  unfolding complete_processing complete query external_call set_completed
  complete-IsCompleted thumbs width height w w' h =
      elim (Option-cases (select_one (is_live_row id) w.db.avatars)) [
        | inl missing ↦ absurd (ground arith)
        | inr (r, there) ↦
            let raw = thumbnail_keys_json json (some thumbs) in
            let rows : w'.db.avatars
                ≡ update_where (is_live_row id) (set_completed raw width height w'.now)
                    w.db.avatars =
              ground arith in
            record {
              row = set_completed raw width height w'.now r;
              found =
                  ap (select_one (is_live_row id)) rows
                  ∙ select_one-update (is_live_row id) (set_completed raw width height w'.now)
                      w.db.avatars r (stays_live raw width height w'.now) there;
              done = refl;
              keys = refl;
            }
      ]

  -- How a processing that began in the world `w` has ended without an error.
  pub data HasEnded (avatar_id s3_key : Bytes) (w w' : World) : Type 0 where
    given_up :
        (bytes kind : Bytes) (e : Err) (t : World)
        → download s3_key w ≡ (ok (bytes, kind), t)
        → inspect library.codec bytes ≡ err e
        → w' ≡ (fail_processing json id t).1
        → HasEnded avatar_id s3_key w w'
    finished :
        (bytes kind : Bytes) (info : Info) (small large : Bytes) (t t₁ t₂ : World)
        → download s3_key w ≡ (ok (bytes, kind), t)
        → inspect library.codec bytes ≡ ok info
        → Puts (new_service setup) id avatar_id bytes info size_100 100 100 small t t₁
        → Puts (new_service setup) id avatar_id bytes info size_300 300 300 large t₁ t₂
        → IsCompleted ((size_100, small) ∷ (size_300, large) ∷ []) w'
        → HasEnded avatar_id s3_key w w'

  Finishes-HasEnded :
      (avatar_id s3_key bytes kind : Bytes) (info : Info) (w t w' : World) (r : Result (Unit {0}))
      → download s3_key w ≡ (ok (bytes, kind), t)
      → inspect library.codec bytes ≡ ok info
      → Finishes (new_service setup) id avatar_id bytes info t r w'
      → r ≡ ok tt
      → HasEnded avatar_id s3_key w w'
  unfolding new_service new_avatar_service
  Finishes-HasEnded avatar_id s3_key bytes kind info w t w' r got good (no_small e t₁ stops) h =
      absurd (ground arith)
  Finishes-HasEnded avatar_id s3_key bytes kind info w t w' r got good
        (no_large small e t₁ t₂ puts stops) h =
      absurd (ground arith)
  Finishes-HasEnded avatar_id s3_key bytes kind info w t w' r got good
        (completes small large t₁ t₂ puts puts' ran) h =
      let thumbs : KeyMap = (size_100, small) ∷ (size_300, large) ∷ [] in
      finished bytes kind info small large t t₁ t₂ got good puts puts' (
        complete-IsCompleted thumbs info.width info.height t₂ w'
          (ran ∙ ap (λ result. (result, w')) h))

  Ends-HasEnded :
      (avatar_id s3_key : Bytes) (w : World) (r : Result (Unit {0})) (w' : World)
      → Ends (new_service setup) id avatar_id s3_key w r w'
      → r ≡ ok tt
      → HasEnded avatar_id s3_key w w'
  unfolding new_service new_avatar_service
  Ends-HasEnded avatar_id s3_key w r w' (not_fetched e t got) h = absurd (ground arith)
  Ends-HasEnded avatar_id s3_key w r w' (unreadable bytes kind e t got bad) h =
      given_up bytes kind e t got bad refl
  Ends-HasEnded avatar_id s3_key w r w' (readable bytes kind info t got good ran) h =
      Finishes-HasEnded avatar_id s3_key bytes kind info w t w' r got good ran h

  -- A processing of a claimed avatar that ends without an error has downloaded the object. Either
  -- the object cannot be read as an image, and behind the download `FailProcessing` was the only
  -- call; or both thumbnails were made of it and put, one behind the other, and the row is completed:
  -- the live row with the id has the keys of these two thumbnails.
  pub process_claimed-HasEnded :
      (avatar_id s3_key : Bytes) (w w' : World)
      → process_claimed (new_service setup) id avatar_id s3_key w ≡ (ok tt, w')
      → HasEnded avatar_id s3_key w w'
  process_claimed-HasEnded avatar_id s3_key w w' h =
      Ends-HasEnded avatar_id s3_key w (ok tt) w'
        (subst (λ p. EndsOf (new_service setup) id avatar_id s3_key w p) h
          (process_claimed-Ends (new_service setup) id avatar_id s3_key w))
        refl

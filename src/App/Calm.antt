-- ===== src/App/Calm.antt =====
-- The calls of the processing of an upload, where every call works.
use goprofile.Prelude.{
  ℕ, ◌≡◌, refl, inl, inr, Bool, true, Bool-cases, Bytes, List, [], ◌∷◌, some, arith, text_eq,
  nat_eq,
}
use goprofile.Prelude.Int.{ℤ}
use goprofile.Result.{ok}
use goprofile.Domain.Avatar.{Uuid, KeyMap, pending, processing, thumbnail_object_key}
use goprofile.Image.{Info, make_thumbnail, format_from_mime, ext_for_mime}
use goprofile.Services.Deps.{new_avatar_service}
use goprofile.Services.Process.{store_thumbnail}
use goprofile.World.{World, Row, external_call, begin_call}
use goprofile.Storage.{object_at, download, upload}
use goprofile.Repository.Tx.{query}
use goprofile.Repository.Tables.{select_one, update_where, is_live_row, is_claimable, set_status}
use goprofile.Repository.Statements.{is_claimed_row, claim, complete}
use goprofile.Repository.Queries.{
  avatar_of, scan_avatar, get_by_id, mark_processing, complete_processing,
}
use goprofile.Repository.Found.{select_one-holds}
use goprofile.Repository.Announced.{updated-select_one}
use goprofile.App.{Setup, new_service}

-- Every call from here on works.
abbrev pub IsCalm : World → Type 0
IsCalm w = w.turns ≡ []

module _ {A : Type 0} (p q : A → Bool) where
  narrowed-select_one :
      (xs : List A) (x : A)
      → ((y : A) → q y ≡ true → p y ≡ true)
      → select_one p xs ≡ some x
      → q x ≡ true
      → select_one q xs ≡ some x
  unfolding select_one
  narrowed-select_one [] x within h hit = ground arith
  narrowed-select_one (y ∷ xs) x within h hit = elim (Bool-cases (p y)) [
    | inl there ↦ ground arith
    | inr miss ↦ ground (arith, within y, narrowed-select_one xs x within)
  ]

module _ {Image : Type 0} (setup : Setup Image) (id : Uuid) where
  open setup use {json, library, detect_content_type}

  pub get_by_id-works :
      (w : World) (r : Row)
      → IsCalm w
      → select_one (is_live_row id) w.db.avatars ≡ some r
      → ((get_by_id json id w).0 ≡ ok (avatar_of json r))
        × ((get_by_id json id w).1.db ≡ w.db)
        × ((get_by_id json id w).1.objects ≡ w.objects)
        × IsCalm (get_by_id json id w).1
  unfolding get_by_id scan_avatar query external_call
  get_by_id-works w r calm there = (ground arith, ground arith, ground arith, ground arith)

  pub download-works :
      (key kind bytes : Bytes) (w : World)
      → IsCalm w
      → object_at key w.objects ≡ some (kind, bytes)
      → ((download key w).0 ≡ ok (bytes, kind))
        × ((download key w).1.db ≡ w.db)
        × IsCalm (download key w).1
  unfolding download external_call
  download-works key kind bytes w calm there = (ground arith, ground arith, ground arith)

  pub store_thumbnail-works :
      (avatar_id bytes size : Bytes) (info : Info) (x y : ℕ) (body mime : Bytes) (w : World)
      → IsCalm w
      → make_thumbnail library.codec bytes x y (format_from_mime info.mime) ≡ ok (body, mime)
      → ((store_thumbnail (new_service setup) id avatar_id bytes info (size, x, y) w).0
          ≡ ok (thumbnail_object_key avatar_id size (ext_for_mime mime)))
        × ((store_thumbnail (new_service setup) id avatar_id bytes info (size, x, y) w).1.db ≡ w.db)
        × IsCalm (store_thumbnail (new_service setup) id avatar_id bytes info (size, x, y) w).1
  unfolding store_thumbnail new_service new_avatar_service upload external_call
  store_thumbnail-works avatar_id bytes size info x y body mime w calm made =
      (ground arith, ground arith, ground arith)

  is_pending_claimed :
      (now : ℕ) (r : Row)
      → is_live_row id r ≡ true
      → r.processing_status ≡ pending
      → is_claimed_row id now r ≡ true
  unfolding is_claimable
  is_pending_claimed now r live fresh = ground arith

  set_status-live :
      (now : ℕ) (r : Row) → is_live_row id (set_status processing now r) ≡ is_live_row id r
  unfolding set_status
  set_status-live now r = refl

  -- A row that is found is found behind its claim.
  claimed-select_one :
      (now : ℕ) (rows : List Row) (r : Row)
      → select_one (is_live_row id) rows ≡ some r
      → (r' : Row) × (select_one
            (is_live_row id)
            (update_where (is_claimed_row id now) (set_status processing now) rows)
          ≡ some r')
  claimed-select_one now rows r there =
      elim (updated-select_one (is_live_row id) (is_claimed_row id now) (set_status processing now)
        rows r (set_status-live now) there) [
          | inl kept ↦ (r, kept)
          | inr (changed, _) ↦ (set_status processing now r, changed)
        ]

  pub mark_processing-works :
      (w : World) (r : Row)
      → IsCalm w
      → select_one (is_live_row id) w.db.avatars ≡ some r
      → r.processing_status ≡ pending
      → ((mark_processing json id w).0 ≡ ok true)
        × ((r' : Row) × (select_one (is_live_row id) (mark_processing json id w).1.db.avatars
              ≡ some r'))
        × ((mark_processing json id w).1.objects ≡ w.objects)
        × IsCalm (mark_processing json id w).1
  unfolding mark_processing claim query external_call
  mark_processing-works w r calm there fresh =
      let now = (begin_call w).1.now in
      let live = select_one-holds (is_live_row id) w.db.avatars r there in
      let claimed =
        narrowed-select_one (is_live_row id) (is_claimed_row id now) w.db.avatars r
          (λ q hit. ground arith) there (is_pending_claimed now r live fresh) in
      let (r', still) = claimed-select_one now w.db.avatars r there in
      (ground arith, (r', ground arith), ground arith, ground arith)

  pub complete_processing-works :
      (thumbs : KeyMap) (width height : ℤ) (w : World) (r : Row)
      → IsCalm w
      → select_one (is_live_row id) w.db.avatars ≡ some r
      → (complete_processing json id (some thumbs) width height w).0 ≡ ok tt
  unfolding complete_processing complete query external_call
  complete_processing-works thumbs width height w r calm there = ground arith

-- ===== src/App/Lookups.antt =====
-- What a lookup finds behind an upload or a deletion.
use goprofile.Prelude.{
  ℕ, ◌≡◌, ◌≢◌, refl, sym, ap, ◌∙◌, inl, inr, Bool-cases, Bytes, List, [], ◌∷◌, ◌++◌, none, some,
  true, All, arith, eq_iff, nat_eq, text_eq,
}
use mathlib.Core.Path.{subst}
use goprofile.Result.{ok}
use goprofile.Domain.Avatar.{Uuid, Avatar, thumbnail_keys_json, parse_thumbnail_keys}
use goprofile.Image.{Info}
use goprofile.Services.Upload.{upload, new_avatar}
use goprofile.Services.Delete.{delete}
use goprofile.World.{World, Row, external_call}
use goprofile.Repository.Tables.{is_live_row, select_one, update_where, set_deleted, to_micros}
use goprofile.Repository.Tx.{query}
use goprofile.Repository.Statements.{is_owned_row}
use goprofile.Repository.Queries.{avatar_of, scan_avatar, get_by_id}
use goprofile.Repository.Lease.{HasUniqueIds}
use goprofile.App.{Setup, new_service}
use goprofile.App.Uploads.{upload-ok, stored_row, built}
use goprofile.App.Deletions.{delete-ok}
use goprofile.Repository.Found.{get_by_id-ok}

module _ (id : Uuid) where
  absent-select_one :
      (rows : List Row) → All (λ q. q.id ≢ id) rows → select_one (is_live_row id) rows ≡ none
  unfolding select_one
  absent-select_one [] h = refl
  absent-select_one (q ∷ rows) (p, h) = ground (arith, absent-select_one rows h, eq_iff q.id id)

  appended-select_one :
      (rows : List Row) (r : Row)
      → All (λ q. q.id ≢ id) rows
      → is_live_row id r ≡ true
      → select_one (is_live_row id) (rows ++ r ∷ []) ≡ some r
  unfolding select_one
  appended-select_one [] r h live = ground arith
  appended-select_one (q ∷ rows) r (p, h) live =
      ground (arith, appended-select_one rows r h live, eq_iff q.id id)

  absent-update :
      (user_id : Bytes) (now : ℕ) (rows : List Row)
      → All (λ q. q.id ≢ id) rows
      → select_one (is_live_row id) (update_where (is_owned_row id user_id) (set_deleted now) rows)
        ≡ none
  unfolding select_one update_where
  absent-update user_id now [] h = refl
  absent-update user_id now (q ∷ rows) (p, h) =
      ground (arith, absent-update user_id now rows h, eq_iff q.id id)

  removed-select_one :
      (user_id : Bytes) (now : ℕ) (rows : List Row) (r : Row)
      → HasUniqueIds rows
      → select_one (is_live_row id) rows ≡ some r
      → r.user_id ≡ user_id
      → select_one (is_live_row id) (update_where (is_owned_row id user_id) (set_deleted now) rows)
        ≡ none
  unfolding select_one update_where set_deleted
  removed-select_one user_id now [] r u h mine = ground arith
  removed-select_one user_id now (q ∷ rows) r (fresh, u) h mine =
      elim (Bool-cases (is_live_row id q)) [
        | inl here ↦
            let same : q.id ≡ id = ground (arith, eq_iff q.id id) in
            let user : q.user_id ≡ user_id = ground arith in
            ground (
              arith,
              (eq_iff q.user_id user_id),
              absent-update user_id now rows (subst (λ k. All (λ p. p.id ≢ k) rows) same fresh),
            )
        | inr there ↦
            let found : select_one (is_live_row id) rows ≡ some r = ground arith in
            ground (arith, removed-select_one user_id now rows r u found mine)
      ]

module _ {Image : Type 0} (setup : Setup Image) where
  open setup use {json, library}

  -- Where ids are unique, no lookup of an avatar's id succeeds any more behind its deletion, as
  -- long as the table of avatars is not written.
  pub delete-get_by_id :
      (id : Uuid) (user_id : Bytes) (w w' v : World) (a : Avatar)
      → HasUniqueIds w.db.avatars
      → delete (new_service setup) id user_id w ≡ (ok tt, w')
      → v.db.avatars ≡ w'.db.avatars
      → (get_by_id json id v).0 ≢ ok a
  delete-get_by_id id user_id w w' v a unique h same got =
      let (_, (r, _, now, there, mine, _, rows, _)) = delete-ok setup id user_id w w' h in
      let (q, found, _) =
        get_by_id-ok json id v (get_by_id json id v).1 a
          (ap (λ result. (result, (get_by_id json id v).1)) got) in
      let gone =
        ap (select_one (is_live_row id)) (same ∙ rows)
        ∙ removed-select_one id user_id now w.db.avatars r unique there mine in
      ground (arith, gone, found)

  built_lem :
      (user_id file_name bytes : Bytes) (info : Info) (w : World)
      → ((built setup user_id file_name bytes info w).id ≡ w.uuids w.drawn)
        × ((built setup user_id file_name bytes info w).deleted_at ≡ none)
  unfolding new_avatar
  built_lem user_id file_name bytes info w = (refl, refl)

  get_by_id-found :
      (id : Uuid) (v : World) (r : Row)
      → v.turns ≡ []
      → select_one (is_live_row id) v.db.avatars ≡ some r
      → (get_by_id json id v).0 ≡ ok (avatar_of json r)
  unfolding get_by_id scan_avatar query external_call
  get_by_id-found id v r calm found = ground arith

  -- Where the new id is no row's, an upload that succeeds is found by a lookup of its id, which
  -- works, as long as the table of avatars is not written: the avatar is the uploaded one, not
  -- deleted, with its times cut to the microsecond, and with its map of thumbnails as it is read
  -- back from its JSON.
  pub upload-get_by_id :
      (user_id file_name bytes : Bytes) (w w' v : World) (a : Avatar)
      → All (λ q. q.id ≢ w.uuids w.drawn) w.db.avatars
      → upload (new_service setup) user_id file_name bytes w ≡ (ok a, w')
      → v.db.avatars ≡ w'.db.avatars
      → v.turns ≡ []
      → (get_by_id json a.id v).0
        ≡ ok (record a {
          thumbnail_s3_keys =
              some (parse_thumbnail_keys json (thumbnail_keys_json json a.thumbnail_s3_keys));
          created_at = to_micros a.created_at;
          updated_at = to_micros a.updated_at;
          deleted_at = none;
        })
  unfolding avatar_of
  upload-get_by_id user_id file_name bytes w w' v a fresh h same calm =
      let (_, (info, _, made), (rows, _, _)) = upload-ok setup user_id file_name bytes w w' a h in
      let (id, live) = built_lem user_id file_name bytes info w in
      let a_id : a.id ≡ w.uuids w.drawn = ap (λ b. b.id) made ∙ id in
      let a_live : a.deleted_at ≡ none = ap (λ b. b.deleted_at) made ∙ live in
      let live_row : is_live_row a.id (stored_row setup a) ≡ true =
        ground (arith, eq_iff a.id a.id) in
      get_by_id-found a.id v (stored_row setup a) calm (
        ap (select_one (is_live_row a.id)) (same ∙ rows)
        ∙ appended-select_one a.id w.db.avatars (stored_row setup a)
            (subst (λ k. All (λ q. q.id ≢ k) w.db.avatars) (sym a_id) fresh) live_row)

-- ===== src/Repository/Contract/Laws.antt =====
-- The repository keeps its contract, whatever calls fail or lose their replies.
use goprofile.Prelude.{
  ℕ, ◌≡◌, ◌⊎◌, ◌↔◌, inl, inr, refl, sym, ap, ◌∙◌, Bool, true, Bytes, text, Option, none, some, All,
  arith, eq_iff, Option-cases, nat_eq, text_eq, ◌==◌,
}
use mathlib.Core.Path.{subst}
use goprofile.Prelude.Int.{ℤ}
use goprofile.Result.{Result, ok, err, Exec, naming}
use goprofile.Result.Laws.{Exec-cases}
use goprofile.Domain.Errors.{Err, external, wrapped}
use goprofile.Domain.Avatar.{Uuid, Avatar, KeyMap, OutboxEvent, JsonMap, thumbnail_keys_json}
use goprofile.World.{Db, World, external_call, begin_call}
use goprofile.Repository.Tables.{select_one, set_deleted}
use goprofile.Repository.Tables.Laws.{insert_avatar-some, avatars-upsert_outbox}
use goprofile.Repository.Statements.{
  is_owned_row, is_claimed_row, claim, map_or_empty, complete, fail_row, publish_row,
}
use goprofile.Repository.Tx.{query, commit_over, begin, finish, with_tx}
use goprofile.Repository.Tx.Laws.{Outcome-cases}
use goprofile.Repository.Queries.{
  create_statements, create_with_outbox, delete_statements, soft_delete_owned_with_outbox,
  mark_processing, complete_processing, fail_processing, mark_outbox_published, avatar_repository,
}
use goprofile.Repository.Outcome.{statements-ok as create_statements-ok}
use goprofile.Repository.Removal.{removed, statements-ok as delete_statements-ok}
use goprofile.Repository.Contract.{
  Changes, IsLive, IsOwned, IsFree, Claimed, Completed, Failed, Published, Enqueued, Created,
  Deleted, Made, MadeAt, map_or_none, Obeys,
}
use goprofile.Repository.Contract.Rows.{
  absent-All, found-All, update_where-Changes, is_owned_row-IsOwned, IsOwned-is_owned_row,
  is_claimed_row-IsFree, IsFree-is_claimed_row,
}
use goprofile.Repository.Contract.Writes.{
  claim-Claimed, complete-Completed, fail_row-Failed, publish_row-Published, upsert_outbox-Enqueued,
}

-- The statements of the methods, with their results.
abbrev claiming : Uuid → ℕ → Db → Result Bool × Db
claiming id now db = let (claimed, db') = claim id now db in (ok claimed, db')

abbrev completing : Uuid → Bytes → ℤ → ℤ → ℕ → Db → Result Bool × Db
completing id keys width height now db =
    let (hit, db') = complete id keys width height now db in (ok hit, db')

abbrev failing : Uuid → ℕ → Db → Result (Unit {0}) × Db
failing id now db = (ok tt, fail_row id now db)

abbrev publishing : ℕ → ℕ → Db → Result (Unit {0}) × Db
publishing id now db = (ok tt, publish_row id now db)

module _ {A : Type 0} (Write : ℕ → Db → Db → Type 0) where
  -- A statement with the effect is made or fails.
  query-Made :
      (f : ℕ → Db → Result A × Db) (w : World)
      → ((now : ℕ) (d : Db) → Write now d (f now d).1)
      → Made Write w.db (query f w)
  unfolding query external_call
  query-Made f w writes = elim (Outcome-cases (begin_call w).0) [
    | inl worked ↦ rw worked (inl (writes (begin_call w).1.now w.db))
    | inr (inl broke) ↦ rw broke (inr (refl, (_, refl)))
    | inr (inr lost) ↦ rw lost (inl (writes (begin_call w).1.now w.db))
  ]

  naming-Made :
      (message : Bytes) (m : Exec World A) (d : Db) (w : World)
      → Made Write d (m w)
      → Made Write d (naming message m w)
  naming-Made message m d w (inl wrote) = inl wrote
  naming-Made message m d w (inr (same, (e, bad))) = inr (same, (wrapped message e, rw bad refl))

begin_lem :
    (w w' : World) (r : Result (Unit {0}))
    → begin w ≡ (r, w')
    → (w'.db ≡ w.db) × (w'.now ≡ (begin_call w).1.now)
unfolding begin query external_call
begin_lem w w' r h = (ground arith, ground arith)

-- A commit works, or fails with its effect or without.
commit_over-made :
    (saved : Db) (w : World)
    → (((commit_over saved w).0 ≡ ok tt) × ((commit_over saved w).1.db ≡ w.db))
      ⊎ ((e : Err) × ((commit_over saved w).0 ≡ err e)
          × (((commit_over saved w).1.db ≡ w.db) ⊎ ((commit_over saved w).1.db ≡ saved)))
unfolding commit_over external_call
commit_over-made saved w = elim (Outcome-cases (begin_call w).0) [
  | inl worked ↦ inl (ground arith, ground arith)
  | inr (inl broke) ↦ inr (external 1, ground arith, inr (ground arith))
  | inr (inr lost) ↦ inr (external 1, ground arith, inl (ground arith))
]

module _ {A : Type 0} (Write : ℕ → Db → Db → Type 0) (fn : Exec World A) where
  -- A transaction whose statements have the effect, at its start, is made or fails.
  with_tx-MadeAt :
      (w : World)
      → ((w₁ w₂ : World) (a : A) → fn w₁ ≡ (ok a, w₂) → Write w₁.now w₁.db w₂.db)
      → MadeAt (begin_call w).1.now Write w.db (with_tx fn w)
  unfolding with_tx finish
  with_tx-MadeAt w writes = elim (Exec-cases begin w) [
    | inr (e, w₁, b) ↦ let (same, _) = begin_lem w w₁ (err e) b in rw b (inr (same, (e, refl)))
    | inl (u, w₁, b) ↦
        let (same, time) = begin_lem w w₁ (ok u) b in
        elim (Exec-cases fn w₁) [
          | inr (e, w₂, f) ↦ rw (b, f) (inr (same, (e, refl)))
          | inl (a, w₂, f) ↦
              let wrote : Write (begin_call w).1.now w.db w₂.db =
                subst (λ t. Write t w.db w₂.db) time
                  (subst (λ d. Write w₁.now d w₂.db) same (writes w₁ w₂ a f)) in
              elim (commit_over-made w₁.db w₂) [
                | inl (c, there) ↦
                    rw (b, f, finish, c)
                      (inl (subst (Write (begin_call w).1.now w.db) (sym there) wrote))
                | inr (e, c, inl there) ↦
                    rw (b, f, finish, c)
                      (inl (subst (Write (begin_call w).1.now w.db) (sym there) wrote))
                | inr (e, c, inr back) ↦ rw (b, f, finish, c) (inr (back ∙ same, (_, refl)))
              ]
        ]
  ]

module _ (json : JsonMap) where
  create_statements-Created :
      (a : Avatar) (ev : OutboxEvent) (w w' : World) (n : ℕ)
      → create_statements json a ev w ≡ (ok n, w')
      → Created a (thumbnail_keys_json json a.thumbnail_s3_keys) ev w.db w'.db
  create_statements-Created a ev w w' n ran =
      let keys = thumbnail_keys_json json a.thumbnail_s3_keys in
      let (rows, made, db, _) = create_statements-ok json a ev w w' n ran in
      let (free, appended) = insert_avatar-some a keys w.db.avatars rows made in
      let inserted = record w.db { avatars = rows } in
      (
        absent-All (λ r. r.id == a.id) (λ r. r.id ≡ a.id)
            (λ r h e. ground (arith, eq_iff r.id a.id)) w.db.avatars free,
        ap (λ d. d.avatars) db ∙ avatars-upsert_outbox ev inserted ∙ appended,
        subst (λ d. Enqueued ev inserted d) (sym db) (upsert_outbox-Enqueued ev inserted),
      )

  delete_statements-Deleted :
      (id : Uuid) (user_id : Bytes) (ev : OutboxEvent) (w w' : World) (p : Avatar × ℕ)
      → delete_statements json id user_id ev w ≡ (ok p, w')
      → Deleted id user_id ev w.now w.db w'.db
  unfolding set_deleted
  delete_statements-Deleted id user_id ev w w' p ran =
      let (r, there, db) = delete_statements-ok json id user_id ev w w' p ran in
      let now = w.now in
      let rows = removed json id user_id now w.db.avatars in
      let marked = record w.db { avatars = rows } in
      let hit = is_owned_row-IsOwned id user_id in
      (
        found-All (is_owned_row id user_id) (IsOwned id user_id) hit w.db.avatars r there,
        subst (λ rows. Changes (IsOwned id user_id) (set_deleted now) w.db.avatars rows)
            (sym (ap (λ d. d.avatars) db ∙ avatars-upsert_outbox ev marked))
            (update_where-Changes (is_owned_row id user_id) (IsOwned id user_id) (set_deleted now)
              hit (IsOwned-is_owned_row id user_id) w.db.avatars),
        subst (λ d. Enqueued ev marked d) (sym db) (upsert_outbox-Enqueued ev marked),
      )

  complete_processing-Made :
      (id : Uuid) (thumbs : Option KeyMap) (width height : ℤ) (w : World)
      → Made
          (Completed id (thumbnail_keys_json json (some (map_or_empty thumbs))) width height)
          w.db
          (complete_processing json id thumbs width height w)
  unfolding complete_processing
  complete_processing-Made id thumbs width height w =
      let keys = thumbnail_keys_json json (some (map_or_empty thumbs)) in
      let write = completing id keys width height in
      let last : (complete_processing json id thumbs width height w).1 ≡ (query write w).1 =
        ground arith in
      elim (query-Made (Completed id keys width height) write w
        (λ now d. complete-Completed id now d keys width height)) [
          | inl wrote ↦
              inl (subst (λ v. Completed id keys width height v.now w.db v.db) (sym last) wrote)
          | inr (same, (e, bad)) ↦
              inr
                (ap (λ v. v.db) last ∙ same, (wrapped (text "complete processing") e, ground arith))
        ]

  claims_tell_lem :
      (id : Uuid) (hit : Bool) (w w' : World)
      → mark_processing json id w ≡ (ok hit, w')
      → (hit ≡ true) ↔ (¬ All (λ r. ¬ (IsLive id r × IsFree w'.now r)) w.db.avatars)
  unfolding mark_processing query external_call claim
  claims_tell_lem id hit w w' h =
      let now = (begin_call w).1.now in
      elim (Option-cases (select_one (is_claimed_row id now) w.db.avatars)) [
        | inl missing ↦
            let same : w'.now ≡ now = ground arith in
            let free =
              absent-All (is_claimed_row id now) _ (IsFree-is_claimed_row id now) w.db.avatars
                missing in
            (
              λ taken. absurd (ground arith),
              λ some_free. absurd (
                  some_free (
                    subst (λ t. All (λ r. ¬ (IsLive id r × IsFree t r)) w.db.avatars) (sym same)
                      free)),
            )
        | inr (r, found) ↦
            let same : w'.now ≡ now = ground arith in
            let some_free =
              found-All (is_claimed_row id now) _ (is_claimed_row-IsFree id now) w.db.avatars r
                found in
            (
              λ taken free.
                  some_free
                    (subst (λ t. All (λ r. ¬ (IsLive id r × IsFree t r)) w.db.avatars) same free),
              λ _. ground arith,
            )
      ]

  map_or_none_lem : (thumbs : Option KeyMap) → map_or_empty thumbs ≡ map_or_none thumbs
  map_or_none_lem none = refl
  map_or_none_lem (some keys) = refl

  -- Whatever calls fail or lose their replies, each writing method of the repository makes its
  -- whole write or, returning an error, changes no table. Row by row: a claim takes the live row
  -- with the id if it is pending, failed, or stale for two minutes, tells whether there was one,
  -- and changes nothing else; a completion gives the live row with the id the size and the JSON of
  -- the keys; a failure marks it; a publication marks the outbox row with the id; all of them at
  -- the clock's time behind the call. A creation appends the avatar's row, whose id was free. A
  -- deletion marks the rows with the id and the user that are not deleted, of which there is one,
  -- with the time at which its transaction began. Both leave the event in the outbox, new or in
  -- place of the one with its id.
  pub avatar_repository-Obeys : Obeys json (avatar_repository json)
  unfolding create_with_outbox soft_delete_owned_with_outbox mark_processing fail_processing
      mark_outbox_published
  avatar_repository-Obeys = record {
    creates = λ a ev w.
        with_tx-MadeAt (λ now. Created a (thumbnail_keys_json json a.thumbnail_s3_keys) ev)
          (create_statements json a ev) w (create_statements-Created a ev);
    deletes = λ id user_id ev w.
        with_tx-MadeAt (Deleted id user_id ev) (delete_statements json id user_id ev) w
          (delete_statements-Deleted id user_id ev);
    claims = λ id w.
        naming-Made (Claimed id) (text "mark processing") (query (claiming id)) w.db w
          (query-Made (Claimed id) (claiming id) w (claim-Claimed id));
    claims_tell = claims_tell_lem;
    completes = λ id thumbs width height w.
        subst
          (λ keys.
            Made (Completed id (thumbnail_keys_json json (some keys)) width height) w.db
              (complete_processing json id thumbs width height w))
          (map_or_none_lem thumbs) (complete_processing-Made id thumbs width height w);
    fails = λ id w.
        naming-Made (Failed id) (text "fail processing") (query (failing id)) w.db w
          (query-Made (Failed id) (failing id) w (fail_row-Failed id));
    publishes = λ id w. query-Made (Published id) (publishing id) w (publish_row-Published id);
  }

-- ===== src/Repository/Announced/Writes.antt =====
-- What each write of the repository does to the record of the avatars in the outbox.
use goprofile.Prelude.{
  All-map, ℕ, ◌≡◌, sym, ap, ◌∙◌, inl, inr, Bool, true, Bytes, [], ◌∷◌, All, All-append,
  Option-cases, arith, eq_iff, nat_eq, text_eq,
}
use mathlib.Core.Path.{subst}
use goprofile.Prelude.Int.{ℤ}
use goprofile.Domain.Avatar.{Uuid, Avatar, OutboxEvent, Kind}
use goprofile.Domain.Events.{delete_event_id}
use goprofile.World.{Row, Db}
use goprofile.Repository.Tables.{
  select_one, update_where, inserted_row, upsert_outbox, set_deleted, set_status, set_completed,
  is_live_row,
}
use goprofile.Repository.Tables.Laws.{
  insert_avatar-some, upsert_outbox-Holds, avatars-upsert_outbox,
}
use goprofile.Repository.Statements.{
  is_owned_row, is_claimed_row, claim, complete, fail_row, publish_row,
}
use goprofile.Repository.Steps.{Creates, Deletes, Claims, Completes, Fails, Publishes}
use goprofile.Repository.Found.{All-update}
use goprofile.Repository.Announced.{
  HasEvent, IsAnnounced, IsAnnouncedRow, AnnouncesUpload, AnnouncesDelete,
  upsert_outbox-KeepsEvents, publish-KeepsEvents, kept-IsAnnouncedRow,
}

module _ (uuid_string : Uuid → Bytes) where
  Holds-HasEvent :
      (ev : OutboxEvent) (d : Db) (kind : Kind) (event_id : Bytes)
      → ev.kind ≡ kind
      → ev.event_id ≡ event_id
      → HasEvent kind event_id (upsert_outbox ev d).1.outbox
  Holds-HasEvent ev d kind event_id p q =
      let (o, there, same, _) = upsert_outbox-Holds ev d in
      subst (λ e. HasEvent kind e (upsert_outbox ev d).1.outbox) q (o, there, same ∙ p)

  pub Creates-IsAnnounced :
      (a : Avatar) (ev : OutboxEvent) (d d' : Db)
      → AnnouncesUpload uuid_string a ev
      → Creates a ev d d'
      → IsAnnounced uuid_string d
      → IsAnnounced uuid_string d'
  Creates-IsAnnounced a ev d d' (kind, id, live) (raw, rows, made, e) h =
      let (_, appended) = insert_avatar-some a raw d.avatars rows made in
      let d₁ = record d { avatars = rows } in
      let after = (upsert_outbox ev d₁).1 in
      let keeps = upsert_outbox-KeepsEvents ev d₁ (uuid_string a.id, inl (kind, id)) in
      let new : Row = inserted_row a raw in
      subst (IsAnnounced uuid_string) (sym e) (
        subst (All (IsAnnouncedRow uuid_string after.outbox))
          (sym (avatars-upsert_outbox ev d₁ ∙ appended))
          (All-append (IsAnnouncedRow uuid_string after.outbox) d.avatars (new ∷ [])
            (All-map d.avatars (kept-IsAnnouncedRow uuid_string d.outbox after.outbox keeps) h)
            ((Holds-HasEvent ev d₁ _ _ kind id, λ t gone. absurd (ground arith)), tt)))

  pub Deletes-IsAnnounced :
      (id : Uuid) (user_id : Bytes) (ev : OutboxEvent) (d d' : Db)
      → AnnouncesDelete uuid_string id ev
      → Deletes id user_id ev d d'
      → IsAnnounced uuid_string d
      → IsAnnounced uuid_string d'
  unfolding set_deleted
  Deletes-IsAnnounced id user_id ev d d' (kind, event) (now, r, there, e) h =
      let d₁ = record d {
        avatars = update_where (is_owned_row id user_id) (set_deleted now) d.avatars;
      } in
      let after = (upsert_outbox ev d₁).1 in
      let keeps = upsert_outbox-KeepsEvents ev d₁ (uuid_string id, inr (kind, event)) in
      let kept = kept-IsAnnouncedRow uuid_string d.outbox after.outbox keeps in
      subst (IsAnnounced uuid_string) (sym e) (
        subst (All (IsAnnouncedRow uuid_string after.outbox)) (sym (avatars-upsert_outbox ev d₁)) (
          All-update (IsAnnouncedRow uuid_string d.outbox) (IsAnnouncedRow uuid_string after.outbox)
            (is_owned_row id user_id) (set_deleted now) (λ r miss. kept r)
            (λ r hit announced.
              let same : id ≡ r.id = ground (arith, eq_iff r.id id) in
              (
                (kept r announced).0,
                λ t gone.
                    Holds-HasEvent ev d₁ _ _ kind
                      (event ∙ ap (λ id. delete_event_id (uuid_string id)) same),
              ))
            d.avatars h))

  -- An update that leaves ids and deletions.
  update-IsAnnounced :
      (d : Db) (p : Row → Bool) (f : Row → Row)
      → ((r : Row)
          → p r ≡ true
          → IsAnnouncedRow uuid_string d.outbox r
          → IsAnnouncedRow uuid_string d.outbox (f r))
      → IsAnnounced uuid_string d
      → IsAnnounced uuid_string (record d { avatars = update_where p f d.avatars })
  update-IsAnnounced d p f keeps h = All-update _ _ p f (λ r miss x. x) keeps d.avatars h

  pub Claims-IsAnnounced :
      (id : Uuid) (d d' : Db)
      → Claims id d d'
      → IsAnnounced uuid_string d
      → IsAnnounced uuid_string d'
  unfolding claim set_status
  Claims-IsAnnounced id d d' (now, e) h =
      subst (IsAnnounced uuid_string) (sym e)
        (elim (Option-cases (select_one (is_claimed_row id now) d.avatars)) [
          | inl missing ↦ rw (missing, claim) h
          | inr (r, there) ↦ rw (there, claim) (update-IsAnnounced d _ _ (λ r hit x. x) h)
        ])

  pub Completes-IsAnnounced :
      (id : Uuid) (width height : ℤ) (d d' : Db)
      → Completes id width height d d'
      → IsAnnounced uuid_string d
      → IsAnnounced uuid_string d'
  unfolding complete set_completed
  Completes-IsAnnounced id width height d d' (raw, now, e) h =
      subst (IsAnnounced uuid_string) (sym e)
        (elim (Option-cases (select_one (is_live_row id) d.avatars)) [
          | inl missing ↦ rw (missing, complete) h
          | inr (r, there) ↦ rw (there, complete) (update-IsAnnounced d _ _ (λ r hit x. x) h)
        ])

  pub Fails-IsAnnounced :
      (id : Uuid) (d d' : Db)
      → Fails id d d'
      → IsAnnounced uuid_string d
      → IsAnnounced uuid_string d'
  unfolding fail_row set_status
  Fails-IsAnnounced id d d' (now, e) h =
      subst (IsAnnounced uuid_string) (sym e) (update-IsAnnounced d _ _ (λ r hit x. x) h)

  pub Publishes-IsAnnounced :
      (id : ℕ) (d d' : Db)
      → Publishes id d d'
      → IsAnnounced uuid_string d
      → IsAnnounced uuid_string d'
  unfolding publish_row
  Publishes-IsAnnounced id d d' (now, e) h =
      let keeps = publish-KeepsEvents id now d in
      subst (IsAnnounced uuid_string) (sym e)
        (All-map d.avatars (kept-IsAnnouncedRow uuid_string d.outbox _ keeps) h)

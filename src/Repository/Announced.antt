-- ===== src/Repository/Announced.antt =====
-- The outbox as a record of what happened to the avatars.
pub mod Writes
use goprofile.Prelude.{
  ℕ, ◌≡◌, ◌≢◌, refl, sym, ap, ◌∙◌, ◌⊎◌, inl, inr, Bool, true, Bool-cases, Bytes, List, [], ◌∷◌,
  ◌++◌, All, All-append, some, none, Option, Option-cases, arith, eq_iff, nat_eq, text_eq,
}
use mathlib.Core.Path.{subst}
use goprofile.Prelude.Int.{ℤ}
use goprofile.Domain.Avatar.{Uuid, Avatar, OutboxEvent, Kind, outbox_upload, outbox_delete}
use goprofile.Domain.Events.{upload_event_id, delete_event_id}
use goprofile.World.{Row, OutboxRow, Db}
use goprofile.Repository.Tables.{
  select_one, update_where, has_event_id, excluded, upsert_outbox, upsert_found, set_deleted,
  set_status, set_completed, is_live_row,
}
use goprofile.Repository.Tables.Laws.{
  insert_avatar-some, upsert_outbox-Holds, avatars-upsert_outbox,
}
use goprofile.Repository.Found.{select_one-holds}
use goprofile.Repository.Statements.{
  is_owned_row, is_claimed_row, claim, complete, fail_row, publish_row,
}
use goprofile.Repository.Steps.{Creates, Deletes, Claims, Completes, Fails, Publishes}

-- The outbox has a row of the kind under the event id.
abbrev pub HasEvent : Kind → Bytes → List OutboxRow → Type 0
HasEvent kind event_id outbox =
    (o : OutboxRow) × (select_one (has_event_id event_id) outbox ≡ some o) × (o.kind ≡ kind)

-- The kind of an event and its id, as the service builds them.
abbrev pub IsEvent : Kind → Bytes → Type 0
IsEvent kind event_id =
    (id : Bytes) × (((kind ≡ outbox_upload) × (event_id ≡ upload_event_id id))
      ⊎ ((kind ≡ outbox_delete) × (event_id ≡ delete_event_id id)))

upload≢delete : (x y : Bytes) → upload_event_id x ≢ delete_event_id y
unfolding upload_event_id delete_event_id
upload≢delete x y h = ground arith

-- An event id has one kind.
IsEvent-kind : (k k' : Kind) (e : Bytes) → IsEvent k e → IsEvent k' e → k ≡ k'
IsEvent-kind k k' e (x, inl (p, q)) (y, inl (p', q')) = p ∙ sym p'
IsEvent-kind k k' e (x, inl (p, q)) (y, inr (p', q')) = absurd (upload≢delete x y (sym q ∙ q'))
IsEvent-kind k k' e (x, inr (p, q)) (y, inl (p', q')) = absurd (upload≢delete y x (sym q' ∙ q))
IsEvent-kind k k' e (x, inr (p, q)) (y, inr (p', q')) = p ∙ sym p'

module _ {A : Type 0} (p : A → Bool) where
  appended-select_one :
      (xs ys : List A) (x : A) → select_one p xs ≡ some x → select_one p (xs ++ ys) ≡ some x
  unfolding select_one
  appended-select_one [] ys x h = ground arith
  appended-select_one (y ∷ xs) ys x h = ground (arith, appended-select_one xs ys x)

  -- A row that is found is found behind an update that leaves the condition, updated or not.
  pub updated-select_one :
      (q : A → Bool) (f : A → A) (xs : List A) (x : A)
      → ((y : A) → p (f y) ≡ p y)
      → select_one p xs ≡ some x
      → (select_one p (update_where q f xs) ≡ some x)
        ⊎ ((select_one p (update_where q f xs) ≡ some (f x)) × (q x ≡ true))
  unfolding select_one update_where
  updated-select_one q f [] x keeps h = absurd (ground arith)
  updated-select_one q f (y ∷ xs) x keeps h = elim (Bool-cases (p y)) [
    | inl hit ↦
        let same : y ≡ x = ground arith in
        elim (Bool-cases (q y)) [
          | inl changed ↦ inr (ground (arith, keeps y), ground arith)
          | inr kept ↦ inl (ground arith)
        ]
    | inr miss ↦ elim (updated-select_one q f xs x keeps (ground arith)) [
      | inl found ↦ inl (elim (Bool-cases (q y)) [
        | inl changed ↦ ground (arith, keeps y)
        | inr kept ↦ ground arith
      ])
      | inr (found, changed) ↦ inr (
        elim (Bool-cases (q y)) [ inl hit ↦ ground (arith, keeps y) | inr kept ↦ ground arith ],
        changed,
      )
    ]
  ]

-- Every event of the service that the first outbox has is in the second.
abbrev KeepsEvents : List OutboxRow → List OutboxRow → Type 0
KeepsEvents outbox outbox' =
    (kind : Kind) (event_id : Bytes)
    → IsEvent kind event_id
    → HasEvent kind event_id outbox
    → HasEvent kind event_id outbox'

upsert_found-KeepsEvents :
    (ev : OutboxEvent) (d : Db) (found : Option OutboxRow)
    → IsEvent ev.kind ev.event_id
    → KeepsEvents d.outbox (upsert_found ev d found).1.outbox
upsert_found-KeepsEvents ev d none own kind event_id is (o, there, same) =
    (o, appended-select_one (has_event_id event_id) d.outbox _ o there, same)
upsert_found-KeepsEvents ev d (some old) own kind event_id is (o, there, same) =
    let p = has_event_id event_id in
    elim (updated-select_one p (has_event_id ev.event_id) (excluded ev) d.outbox o (λ o. refl)
      there) [
        | inl kept ↦ (o, kept, same)
        | inr (changed, hit) ↦
            let here = select_one-holds p d.outbox o there in
            let one : ev.event_id ≡ event_id =
              ground (arith, eq_iff o.event_id event_id, eq_iff o.event_id ev.event_id) in
            (
              excluded ev o,
              changed,
              IsEvent-kind ev.kind kind event_id (subst (IsEvent ev.kind) one own) is,
            )
      ]

upsert_outbox-KeepsEvents :
    (ev : OutboxEvent) (d : Db)
    → IsEvent ev.kind ev.event_id
    → KeepsEvents d.outbox (upsert_outbox ev d).1.outbox
unfolding upsert_outbox
upsert_outbox-KeepsEvents ev d own = upsert_found-KeepsEvents ev d _ own

publish-KeepsEvents : (id now : ℕ) (d : Db) → KeepsEvents d.outbox (publish_row id now d).outbox
unfolding publish_row
publish-KeepsEvents id now d kind event_id is (o, there, same) =
    elim (updated-select_one (has_event_id event_id) _ _ d.outbox o (λ o. refl) there) [
      | inl kept ↦ (o, kept, same)
      | inr (changed, hit) ↦ (_, changed, same)
    ]

module _ (uuid_string : Uuid → Bytes) where
  -- The outbox has the avatar's upload, and the deletion of an avatar that is deleted.
  abbrev pub IsAnnouncedRow : List OutboxRow → Row → Type 0
  IsAnnouncedRow outbox r =
      HasEvent outbox_upload (upload_event_id (uuid_string r.id)) outbox
      × ((t : ℕ)
          → r.deleted_at ≡ some t
          → HasEvent outbox_delete (delete_event_id (uuid_string r.id)) outbox)

  abbrev pub IsAnnounced : Db → Type 0
  IsAnnounced d = All (IsAnnouncedRow d.outbox) d.avatars

  kept-IsAnnouncedRow :
      (outbox outbox' : List OutboxRow)
      → KeepsEvents outbox outbox'
      → (r : Row) → IsAnnouncedRow outbox r
      → IsAnnouncedRow outbox' r
  kept-IsAnnouncedRow outbox outbox' keeps r (made, gone) = (
    keeps _ _ (uuid_string r.id, inl (refl, refl)) made,
    λ t h. keeps _ _ (uuid_string r.id, inr (refl, refl)) (gone t h),
  )

  -- The event of an upload of the avatar.
  abbrev pub AnnouncesUpload : Avatar → OutboxEvent → Type 0
  AnnouncesUpload a ev =
      (ev.kind ≡ outbox_upload)
      × (ev.event_id ≡ upload_event_id (uuid_string a.id))
      × (a.deleted_at ≡ none)

  -- The event of a deletion of the avatar with the id.
  abbrev pub AnnouncesDelete : Uuid → OutboxEvent → Type 0
  AnnouncesDelete id ev =
      (ev.kind ≡ outbox_delete) × (ev.event_id ≡ delete_event_id (uuid_string id))

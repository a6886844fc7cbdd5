-- ===== src/Repository/Tables/Laws.antt =====
-- Selecting and updating rows, and the outbox behind an upsert.
use goprofile.Prelude.{
  ℕ, ◌≡◌, refl, ◌∙◌, inl, inr, Option-cases, Bytes, Bool, true, List, [], ◌∷◌, ◌++◌, none, some,
  arith, eq_iff, ◌==◌, text_eq, nat_eq,
}
use goprofile.Domain.Avatar.{Avatar, OutboxEvent}
use goprofile.World.{Row, OutboxRow, Db}
use goprofile.Repository.Tables.{
  select_one, update_where, inserted_row, insert_avatar, upsert_outbox, has_event_id, excluded,
  outbox_row,
}

eq_refl_text : (s : Bytes) → (s == s) ≡ true
eq_refl_text s = (eq_iff s s).1 refl

module _ {A : Type 0} (p : A → Bool) where
  select_one-append :
      (xs ys : List A) → select_one p xs ≡ none → select_one p (xs ++ ys) ≡ select_one p ys
  unfolding select_one
  select_one-append [] ys h = refl
  select_one-append (x ∷ xs) ys h = ground (arith, select_one-append xs ys)

  select_one-cons : (x : A) (xs : List A) → p x ≡ true → select_one p (x ∷ xs) ≡ some x
  unfolding select_one
  select_one-cons x xs h = ground arith

  -- An update that keeps its own condition is seen by the next selection.
  pub select_one-update :
      (f : A → A) (xs : List A) (x : A)
      → ((y : A) → p y ≡ true → p (f y) ≡ true)
      → select_one p xs ≡ some x
      → select_one p (update_where p f xs) ≡ some (f x)
  unfolding select_one update_where
  select_one-update f [] x keeps h = ground arith
  select_one-update f (y ∷ xs) x keeps h = ground (arith, keeps y, select_one-update f xs x keeps)

abbrev pub Holds : OutboxEvent → List OutboxRow → Type 0
Holds ev outbox =
    (o : OutboxRow) × (select_one (has_event_id ev.event_id) outbox ≡ some o)
    × (o.kind ≡ ev.kind)
    × (o.payload ≡ ev.payload)

-- The row with an event's id that the outbox holds behind its insert has its kind and payload.
pub upsert_outbox-Holds : (ev : OutboxEvent) (db : Db) → Holds ev (upsert_outbox ev db).1.outbox
unfolding upsert_outbox
upsert_outbox-Holds ev db = elim (Option-cases (select_one (has_event_id ev.event_id) db.outbox)) [
  | inl new ↦ rw new (
    outbox_row db.next_outbox_id ev,
    select_one-append (has_event_id ev.event_id) db.outbox _ new
        ∙ select_one-cons (has_event_id ev.event_id) _ [] (eq_refl_text ev.event_id),
    refl,
    refl,
  )
  | inr (old, there) ↦ rw there (
    excluded ev old,
    select_one-update (has_event_id ev.event_id) (excluded ev) db.outbox old (λ y h. h) there,
    refl,
    refl,
  )
]

pub avatars-upsert_outbox :
    (ev : OutboxEvent) (db : Db) → (upsert_outbox ev db).1.avatars ≡ db.avatars
unfolding upsert_outbox
avatars-upsert_outbox ev db = ground arith

-- An insertion that the primary key allows appends the row.
pub insert_avatar-some :
    (a : Avatar) (raw : List ℕ) (rows rows' : List Row)
    → insert_avatar a raw rows ≡ some rows'
    → (select_one (λ r. r.id == a.id) rows ≡ none) × (rows' ≡ rows ++ inserted_row a raw ∷ [])
unfolding insert_avatar
insert_avatar-some a raw rows rows' h = ground arith

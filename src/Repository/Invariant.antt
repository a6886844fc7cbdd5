-- ===== src/Repository/Invariant.antt =====
-- What holds of the tables between any two steps.
use mathlib.Core.Path.{subst}
use goprofile.Repository.Unique.{HasUnique, update_where-HasUnique, append-HasUnique}
use goprofile.Prelude.Int.{ℤ}
use goprofile.Prelude.{
  Bool, All-append, ℕ, ◌+◌, ◌<◌, ◌≡◌, ◌≢◌, refl, sym, inl, inr, Option-cases, Bytes, List, [], ◌∷◌,
  Option, none, some, All, arith, eq_iff, ◌==◌, nat_eq, text_eq,
}
use goprofile.Domain.Avatar.{Uuid, Avatar, OutboxEvent}
use goprofile.World.{Row, OutboxRow, Db}
use goprofile.Repository.Tables.{
  inserted_row, insert_avatar, upsert_outbox, upsert_found, outbox_row, has_event_id, excluded,
  select_one, update_where, is_live_row, set_deleted, set_status, set_completed,
}
use goprofile.Repository.Tables.Laws.{insert_avatar-some}
use goprofile.Repository.Statements.{is_claimed_row, claim, complete, fail_row, publish_row}
use goprofile.Repository.Steps.{
  Step, Reach, creation, deletion, claiming, completion, failure, publication, here, next,
}

absent_id :
    (id : Uuid) (rows : List Row)
    → select_one (λ r. r.id == id) rows ≡ none
    → All (λ r. r.id ≢ id) rows
unfolding select_one
absent_id id [] h = tt
absent_id id (r ∷ rows) h =
    (λ e. ground (arith, eq_iff r.id id), absent_id id rows (ground (arith, eq_iff r.id id)))

absent_event_id :
    (event_id : Bytes) (outbox : List OutboxRow)
    → select_one (has_event_id event_id) outbox ≡ none
    → All (λ o. o.event_id ≢ event_id) outbox
unfolding select_one
absent_event_id event_id [] h = tt
absent_event_id event_id (o ∷ outbox) h = (
  λ e. ground (arith, eq_iff o.event_id event_id),
  absent_event_id event_id outbox (ground (arith, eq_iff o.event_id event_id)),
)

-- The keys of both tables are unique, and the sequence is ahead of the ids that it gave out.
pub record IsConsistent (d : Db) : Type 0 where
  pub unique_avatars : HasUnique (λ (r : Row). r.id) d.avatars
  pub unique_outbox : HasUnique (λ (o : OutboxRow). o.id) d.outbox
  pub unique_events : HasUnique (λ (o : OutboxRow). o.event_id) d.outbox
  pub given_out : All (λ o. o.id < d.next_outbox_id) d.outbox

ids_below :
    (n : ℕ) (outbox : List OutboxRow) → All (λ o. o.id < n) outbox → All (λ o. o.id ≢ n) outbox
ids_below n [] h = tt
ids_below n (o ∷ outbox) (p, h) = (λ e. omega arith, ids_below n outbox h)

below_suc :
    (n : ℕ) (outbox : List OutboxRow) → All (λ o. o.id < n) outbox → All (λ o. o.id < n + 1) outbox
below_suc n [] h = tt
below_suc n (o ∷ outbox) (p, h) = (omega arith, below_suc n outbox h)

below-update :
    (n : ℕ) (p : OutboxRow → Bool) (f : OutboxRow → OutboxRow) (outbox : List OutboxRow)
    → ((o : OutboxRow) → (f o).id ≡ o.id)
    → All (λ o. o.id < n) outbox
    → All (λ o. o.id < n) (update_where p f outbox)
unfolding update_where
below-update n p f [] keeps h = tt
below-update n p f (o ∷ outbox) keeps (q, h) =
    ground (arith, keeps o, below-update n p f outbox keeps h)

upsert_found-IsConsistent :
    (ev : OutboxEvent) (d : Db) (found : Option OutboxRow)
    → select_one (has_event_id ev.event_id) d.outbox ≡ found
    → IsConsistent d
    → IsConsistent (upsert_found ev d found).1
upsert_found-IsConsistent ev d none h c = record {
  unique_avatars = c.unique_avatars;
  unique_outbox =
      append-HasUnique (λ o. o.id) d.outbox (outbox_row d.next_outbox_id ev) c.unique_outbox
        (ids_below d.next_outbox_id d.outbox c.given_out);
  unique_events =
      append-HasUnique (λ o. o.event_id) d.outbox (outbox_row d.next_outbox_id ev) c.unique_events
        (absent_event_id ev.event_id d.outbox h);
  given_out =
      All-append (λ o. o.id < d.next_outbox_id + 1) d.outbox (outbox_row d.next_outbox_id ev ∷ [])
        (below_suc d.next_outbox_id d.outbox c.given_out) (omega arith);
}
upsert_found-IsConsistent ev d (some old) h c = record {
  unique_avatars = c.unique_avatars;
  unique_outbox =
      update_where-HasUnique (λ o. o.id) (has_event_id ev.event_id) (excluded ev) d.outbox
        (λ o. refl) c.unique_outbox;
  unique_events =
      update_where-HasUnique (λ o. o.event_id) (has_event_id ev.event_id) (excluded ev) d.outbox
        (λ o. refl) c.unique_events;
  given_out = below_suc d.next_outbox_id _ (
      below-update d.next_outbox_id (has_event_id ev.event_id) (excluded ev) d.outbox (λ o. refl)
        c.given_out);
}

upsert_outbox-IsConsistent :
    (ev : OutboxEvent) (d : Db) → IsConsistent d → IsConsistent (upsert_outbox ev d).1
unfolding upsert_outbox
upsert_outbox-IsConsistent ev d c = upsert_found-IsConsistent ev d _ refl c

-- An update of the avatars that leaves the ids keeps the invariant.
update-IsConsistent :
    (d : Db) (p : Row → Bool) (f : Row → Row)
    → ((r : Row) → (f r).id ≡ r.id)
    → IsConsistent d
    → IsConsistent (record d { avatars = update_where p f d.avatars })
update-IsConsistent d p f keeps c = record {
  unique_avatars = update_where-HasUnique (λ r. r.id) p f d.avatars keeps c.unique_avatars;
  unique_outbox = c.unique_outbox;
  unique_events = c.unique_events;
  given_out = c.given_out;
}

creation-IsConsistent :
    (d : Db) (a : Avatar) (raw : Bytes) (rows : List Row)
    → insert_avatar a raw d.avatars ≡ some rows
    → IsConsistent d
    → IsConsistent (record d { avatars = rows })
creation-IsConsistent d a raw rows made c =
    let (free, appended) = insert_avatar-some a raw d.avatars rows made in
    record {
      unique_avatars = subst (HasUnique (λ (r : Row). r.id)) (sym appended) (
          append-HasUnique (λ (r : Row). r.id) d.avatars (inserted_row a raw) c.unique_avatars
            (absent_id a.id d.avatars free));
      unique_outbox = c.unique_outbox;
      unique_events = c.unique_events;
      given_out = c.given_out;
    }

claim-IsConsistent :
    (id : Uuid) (now : ℕ) (d : Db) → IsConsistent d → IsConsistent (claim id now d).1
unfolding claim set_status
claim-IsConsistent id now d c = elim (Option-cases (select_one (is_claimed_row id now) d.avatars)) [
  | inl missing ↦ rw (missing, claim) c
  | inr (r, there) ↦ rw (there, claim) (update-IsConsistent d _ _ (λ r. refl) c)
]

complete-IsConsistent :
    (id : Uuid) (raw : Bytes) (width height : ℤ) (now : ℕ) (d : Db)
    → IsConsistent d
    → IsConsistent (complete id raw width height now d).1
unfolding complete set_completed
complete-IsConsistent id raw width height now d c =
    elim (Option-cases (select_one (is_live_row id) d.avatars)) [
      | inl missing ↦ rw (missing, complete) c
      | inr (r, there) ↦ rw (there, complete) (update-IsConsistent d _ _ (λ r. refl) c)
    ]

publish-IsConsistent : (id now : ℕ) (d : Db) → IsConsistent d → IsConsistent (publish_row id now d)
unfolding publish_row
publish-IsConsistent id now d c = record {
  unique_avatars = c.unique_avatars;
  unique_outbox = update_where-HasUnique (λ o. o.id) _ _ d.outbox (λ o. refl) c.unique_outbox;
  unique_events = update_where-HasUnique (λ o. o.event_id) _ _ d.outbox (λ o. refl) c.unique_events;
  given_out = below-update d.next_outbox_id _ _ d.outbox (λ o. refl) c.given_out;
}

pub Step-IsConsistent : {d d' : Db} → Step d d' → IsConsistent d → IsConsistent d'
unfolding set_deleted fail_row set_status
Step-IsConsistent {d} (creation a ev (raw, rows, made, e)) c =
    subst IsConsistent (sym e)
      (upsert_outbox-IsConsistent ev _ (creation-IsConsistent d a raw rows made c))
Step-IsConsistent {d} (deletion id user_id ev (now, r, there, e)) c =
    subst IsConsistent (sym e)
      (upsert_outbox-IsConsistent ev _ (update-IsConsistent d _ _ (λ r. refl) c))
Step-IsConsistent {d} (claiming id (now, e)) c =
    subst IsConsistent (sym e) (claim-IsConsistent id now d c)
Step-IsConsistent {d} (completion id width height (raw, now, e)) c =
    subst IsConsistent (sym e) (complete-IsConsistent id raw width height now d c)
Step-IsConsistent {d} (failure id (now, e)) c =
    subst IsConsistent (sym e) (update-IsConsistent d _ _ (λ r. refl) c)
Step-IsConsistent {d} (publication id (now, e)) c =
    subst IsConsistent (sym e) (publish-IsConsistent id now d c)

-- Any number of writes, in any order, keeps the ids of avatars and of outbox rows and the event ids
-- unique, and the sequence of the outbox ahead of its ids.
pub Reach-IsConsistent : {d d' : Db} → IsConsistent d → Reach d d' → IsConsistent d'
Reach-IsConsistent c here = c
Reach-IsConsistent c (next r st) = Step-IsConsistent st (Reach-IsConsistent c r)

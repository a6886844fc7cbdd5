-- ===== src/Repository/History.antt =====
-- What no write ever changes: the rows that there are, who owns them, and what is deleted.
use mathlib.Core.Path.{subst}
use goprofile.Prelude.{
  ℕ, ◌≡◌, refl, sym, ap, ◌∙◌, inl, inr, Bool, Option-cases, Bytes, List, Option, none, some, true,
  arith,
}
use goprofile.Prelude.Int.{ℤ}
use goprofile.Domain.Avatar.{Uuid, Avatar, OutboxEvent, ProcessingStatus, processing, failed}
use goprofile.World.{Row, OutboxRow, Db}
use goprofile.Repository.Tables.{
  insert_avatar, upsert_outbox, upsert_found, has_event_id, excluded, select_one, update_where,
  is_live, is_live_row, set_deleted, set_status, set_completed,
}
use goprofile.Repository.Grows.{Grows, Grows-refl, Grows-trans, Grows-append, Grows-update}
use goprofile.Repository.Tables.Laws.{insert_avatar-some}
use goprofile.Repository.Statements.{is_claimed_row, claim, complete, fail_row, publish_row}
use goprofile.Repository.Steps.{
  Step, Reach, creation, deletion, claiming, completion, failure, publication, here, next,
}

-- A later version of an avatar's row: the columns that identify it stay, and once it is deleted all
-- of it stays.
pub record Evolves (r r' : Row) : Type 0 where
  pub same_id : r'.id ≡ r.id
  pub same_user : r'.user_id ≡ r.user_id
  pub same_name : r'.file_name ≡ r.file_name
  pub same_type : r'.mime_type ≡ r.mime_type
  pub same_size : r'.size_bytes ≡ r.size_bytes
  pub same_key : r'.s3_key ≡ r.s3_key
  pub same_start : r'.created_at ≡ r.created_at
  pub frozen : (t : ℕ) → r.deleted_at ≡ some t → r' ≡ r

-- A later version of an outbox row: its ids stay, and what is published stays published.
pub record Advances (o o' : OutboxRow) : Type 0 where
  pub same_id : o'.id ≡ o.id
  pub same_event : o'.event_id ≡ o.event_id
  pub stays_published : (t : ℕ) → o.published_at ≡ some t → (t' : ℕ) × (o'.published_at ≡ some t')

Evolves-refl : (r : Row) → Evolves r r
Evolves-refl r = record {
  same_id = refl;
  same_user = refl;
  same_name = refl;
  same_type = refl;
  same_size = refl;
  same_key = refl;
  same_start = refl;
  frozen = λ t h. refl;
}

Evolves-trans : (x y z : Row) → Evolves x y → Evolves y z → Evolves x z
Evolves-trans x y z h k = record {
  same_id = k.same_id ∙ h.same_id;
  same_user = k.same_user ∙ h.same_user;
  same_name = k.same_name ∙ h.same_name;
  same_type = k.same_type ∙ h.same_type;
  same_size = k.same_size ∙ h.same_size;
  same_key = k.same_key ∙ h.same_key;
  same_start = k.same_start ∙ h.same_start;
  frozen = λ t d. let e = h.frozen t d in k.frozen t (ap (λ (r : Row). r.deleted_at) e ∙ d) ∙ e;
}

Advances-refl : (o : OutboxRow) → Advances o o
Advances-refl o = record { same_id = refl; same_event = refl; stays_published = λ t h. (t, h) }

Advances-trans : (x y z : OutboxRow) → Advances x y → Advances y z → Advances x z
Advances-trans x y z h k = record {
  same_id = k.same_id ∙ h.same_id;
  same_event = k.same_event ∙ h.same_event;
  stays_published = λ t d. let (t', d') = h.stays_published t d in k.stays_published t' d';
}

module _ (r : Row) (live : is_live r.deleted_at ≡ true) where
  set_deleted-Evolves : (now : ℕ) → Evolves r (set_deleted now r)
  unfolding set_deleted
  set_deleted-Evolves now = ground arith

  set_status-Evolves : (status : ProcessingStatus) (now : ℕ) → Evolves r (set_status status now r)
  unfolding set_status
  set_status-Evolves status now = ground arith

  set_completed-Evolves :
      (raw : Bytes) (width height : ℤ) (now : ℕ) → Evolves r (set_completed raw width height now r)
  unfolding set_completed
  set_completed-Evolves raw width height now = ground arith

-- What holds between the tables at two times.
pub record Follows (d d' : Db) : Type 0 where
  pub avatars_grow : Grows Evolves d.avatars d'.avatars
  pub outbox_grows : Grows Advances d.outbox d'.outbox

Follows-refl : (d : Db) → Follows d d
Follows-refl d = record {
  avatars_grow = Grows-refl Evolves Evolves-refl d.avatars;
  outbox_grows = Grows-refl Advances Advances-refl d.outbox;
}

Follows-trans : (d d' d'' : Db) → Follows d d' → Follows d' d'' → Follows d d''
Follows-trans d d' d'' h k = record {
  avatars_grow =
      Grows-trans Evolves Evolves-trans d.avatars d'.avatars d''.avatars h.avatars_grow
        k.avatars_grow;
  outbox_grows =
      Grows-trans Advances Advances-trans d.outbox d'.outbox d''.outbox h.outbox_grows
        k.outbox_grows;
}

update-Follows :
    (d : Db) (p : Row → Bool) (f : Row → Row)
    → ((r : Row) → p r ≡ true → Evolves r (f r))
    → Follows d (record d { avatars = update_where p f d.avatars })
update-Follows d p f moves = record {
  avatars_grow = Grows-update Evolves p f d.avatars Evolves-refl moves;
  outbox_grows = Grows-refl Advances Advances-refl d.outbox;
}

upsert_found-Follows :
    (ev : OutboxEvent) (d : Db) (found : Option OutboxRow) → Follows d (upsert_found ev d found).1
upsert_found-Follows ev d none = record {
  avatars_grow = Grows-refl Evolves Evolves-refl d.avatars;
  outbox_grows = Grows-append Advances Advances-refl d.outbox _;
}
upsert_found-Follows ev d (some old) = record {
  avatars_grow = Grows-refl Evolves Evolves-refl d.avatars;
  outbox_grows =
      Grows-update Advances (has_event_id ev.event_id) (excluded ev) d.outbox Advances-refl
        (λ o hit. record { same_id = refl; same_event = refl; stays_published = λ t h. (t, h) });
}

upsert_outbox-Follows : (ev : OutboxEvent) (d : Db) → Follows d (upsert_outbox ev d).1
unfolding upsert_outbox
upsert_outbox-Follows ev d = upsert_found-Follows ev d _

creation-Follows :
    (d : Db) (a : Avatar) (raw : Bytes) (rows : List Row)
    → insert_avatar a raw d.avatars ≡ some rows
    → Follows d (record d { avatars = rows })
creation-Follows d a raw rows made =
    let (_, appended) = insert_avatar-some a raw d.avatars rows made in
    record {
      avatars_grow =
          subst (Grows Evolves d.avatars) (sym appended)
            (Grows-append Evolves Evolves-refl d.avatars _);
      outbox_grows = Grows-refl Advances Advances-refl d.outbox;
    }

claim-Follows : (id : Uuid) (now : ℕ) (d : Db) → Follows d (claim id now d).1
unfolding claim
claim-Follows id now d = elim (Option-cases (select_one (is_claimed_row id now) d.avatars)) [
  | inl missing ↦ rw (missing, claim) (Follows-refl d)
  | inr (r, there) ↦
      rw (there, claim)
        (update-Follows d _ _ (λ r hit. set_status-Evolves r (ground arith) processing now))
]

complete-Follows :
    (id : Uuid) (raw : Bytes) (width height : ℤ) (now : ℕ) (d : Db)
    → Follows d (complete id raw width height now d).1
unfolding complete
complete-Follows id raw width height now d =
    elim (Option-cases (select_one (is_live_row id) d.avatars)) [
      | inl missing ↦ rw (missing, complete) (Follows-refl d)
      | inr (r, there) ↦
          rw (there, complete)
            (update-Follows d _ _
              (λ r hit. set_completed-Evolves r (ground arith) raw width height now))
    ]

publish-Follows : (id now : ℕ) (d : Db) → Follows d (publish_row id now d)
unfolding publish_row
publish-Follows id now d = record {
  avatars_grow = Grows-refl Evolves Evolves-refl d.avatars;
  outbox_grows =
      Grows-update Advances _ _ d.outbox Advances-refl (λ o hit. record {
        same_id = refl;
        same_event = refl;
        stays_published = λ t h. (now, refl);
      });
}

Step-Follows : {d d' : Db} → Step d d' → Follows d d'
unfolding fail_row
Step-Follows {d} (creation a ev (raw, rows, made, e)) =
    subst (Follows d) (sym e)
      (Follows-trans d _ _ (creation-Follows d a raw rows made) (upsert_outbox-Follows ev _))
Step-Follows {d} (deletion id user_id ev (now, r, there, e)) = subst (Follows d) (sym e) (
    Follows-trans d _ _ (update-Follows d _ _ (λ r hit. set_deleted-Evolves r (ground arith) now))
      (upsert_outbox-Follows ev _))
Step-Follows {d} (claiming id (now, e)) = subst (Follows d) (sym e) (claim-Follows id now d)
Step-Follows {d} (completion id width height (raw, now, e)) =
    subst (Follows d) (sym e) (complete-Follows id raw width height now d)
Step-Follows {d} (failure id (now, e)) =
    subst (Follows d) (sym e)
      (update-Follows d _ _ (λ r hit. set_status-Evolves r (ground arith) failed now))
Step-Follows {d} (publication id (now, e)) = subst (Follows d) (sym e) (publish-Follows id now d)

-- Behind any number of writes, in any order, every avatar's row is still in its place, with the
-- same id, user, file name, MIME type, size, object key and creation time; a row that was deleted
-- is the same in every column; and every outbox row is still in its place, with the same ids, and
-- is published if it was.
pub Reach-Follows : {d d' : Db} → Reach d d' → Follows d d'
Reach-Follows {d} here = Follows-refl d
Reach-Follows {d} (next r st) = Follows-trans d _ _ (Reach-Follows r) (Step-Follows st)

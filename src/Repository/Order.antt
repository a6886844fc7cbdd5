-- ===== src/Repository/Order.antt =====
-- ORDER BY created_at DESC: the avatars of a user, the newest first.
use goprofile.Prelude.{
  ℕ, ◌≤◌, ◌≡◌, ◌&&◌, inl, inr, Bool-cases, Bytes, List, [], ◌∷◌, none, some, All, arith, eq_iff,
  ◌==◌, text_eq,
}
use mathlib.Core.List.{Perm}
use mathlib.Core.List.Perm
use mathlib.Core.Path.{subst}
use goprofile.World.{Row, Db}
use goprofile.Repository.Tables.{is_live, select_all, insert_sorted, order_by, newer}
use goprofile.Repository.Statements.{rows_of_user, first_row}

-- No row is older than one behind it.
abbrev pub IsNewestFirst : List Row → Type 0
IsNewestFirst [] = Unit
IsNewestFirst (r ∷ rows) = All (λ q. q.created_at ≤ r.created_at) rows × IsNewestFirst rows

module _ (P : Row → Type 0) where
  All-insert_sorted :
      (r : Row) (rows : List Row) → P r → All P rows → All P (insert_sorted newer r rows)
  unfolding insert_sorted
  All-insert_sorted r [] p h = (p, tt)
  All-insert_sorted r (q ∷ rows) p h = ground (arith, All-insert_sorted r rows p)

  All-order_by : (rows : List Row) → All P rows → All P (order_by newer rows)
  unfolding order_by
  All-order_by [] h = tt
  All-order_by (r ∷ rows) (p, h) = All-insert_sorted r (order_by newer rows) p (All-order_by rows h)

older_rows :
    (r q : Row) (rows : List Row)
    → q.created_at ≤ r.created_at
    → All (λ x. x.created_at ≤ q.created_at) rows
    → All (λ x. x.created_at ≤ r.created_at) rows
older_rows r q [] p h = tt
older_rows r q (x ∷ rows) p (k, h) = (omega arith, older_rows r q rows p h)

insert_sorted-IsNewestFirst :
    (r : Row) (rows : List Row) → IsNewestFirst rows → IsNewestFirst (insert_sorted newer r rows)
unfolding insert_sorted
insert_sorted-IsNewestFirst r [] h = (tt, tt)
insert_sorted-IsNewestFirst r (q ∷ rows) (p, h) = elim (Bool-cases (newer r q)) [
  | inl before ↦ rw before ((ground arith, older_rows r q rows (ground arith) p), (p, h))
  | inr behind ↦ rw behind (
    All-insert_sorted (λ x. x.created_at ≤ q.created_at) r rows (ground arith) p,
    insert_sorted-IsNewestFirst r rows h,
  )
]

order_by-IsNewestFirst : (rows : List Row) → IsNewestFirst (order_by newer rows)
unfolding order_by
order_by-IsNewestFirst [] = tt
order_by-IsNewestFirst (r ∷ rows) =
    insert_sorted-IsNewestFirst r (order_by newer rows) (order_by-IsNewestFirst rows)

insert_sorted-Perm : (r : Row) (rows : List Row) → Perm (insert_sorted newer r rows) (r ∷ rows)
unfolding insert_sorted
insert_sorted-Perm r [] = Perm.refl (r ∷ [])
insert_sorted-Perm r (q ∷ rows) = elim (Bool-cases (newer r q)) [
  | inl before ↦ rw before (Perm.refl (r ∷ q ∷ rows))
  | inr behind ↦
      rw behind (Perm.trans (Perm.cons q (insert_sorted-Perm r rows)) (Perm.swap r q rows))
]

order_by-Perm : (rows : List Row) → Perm (order_by newer rows) rows
unfolding order_by
order_by-Perm [] = Perm.refl []
order_by-Perm (r ∷ rows) =
    Perm.trans (insert_sorted-Perm r (order_by newer rows)) (Perm.cons r (order_by-Perm rows))

-- The rows listed for a user are the user's rows that are not deleted, each as often as in the
-- table, and none is older than one behind it.
pub rows_of_user_lem :
    (user_id : Bytes) (db : Db)
    → IsNewestFirst (rows_of_user user_id db)
      × Perm
          (rows_of_user user_id db)
          (select_all (λ r. r.user_id == user_id && is_live r.deleted_at) db.avatars)
unfolding rows_of_user
rows_of_user_lem user_id db = (order_by-IsNewestFirst _, order_by-Perm _)

module _ (P : Row → Type 0) where
  All-of_insert :
      (r : Row) (rows : List Row) → All P (insert_sorted newer r rows) → P r × All P rows
  unfolding insert_sorted
  All-of_insert r [] h = h
  All-of_insert r (q ∷ rows) h = ground (arith, All-of_insert r rows)

  All-of_order : (rows : List Row) → All P (order_by newer rows) → All P rows
  unfolding order_by
  All-of_order [] h = tt
  All-of_order (r ∷ rows) h =
      let (p, k) = All-of_insert r (order_by newer rows) h in (p, All-of_order rows k)

first-IsNewestFirst :
    (rows : List Row) (r : Row)
    → first_row rows ≡ some r
    → IsNewestFirst rows
    → All (λ q. q.created_at ≤ r.created_at) rows
first-IsNewestFirst [] r h k = tt
first-IsNewestFirst (q ∷ rows) r h (p, k) =
    let same : q.created_at ≡ r.created_at = ground arith in
    (omega arith, older_rows r q rows (omega arith) p)

owned_by_select :
    (user_id : Bytes) (rows : List Row) (t : ℕ)
    → All
        (λ q. q.created_at ≤ t)
        (select_all (λ q. q.user_id == user_id && is_live q.deleted_at) rows)
    → All (λ q. q.user_id ≡ user_id → q.deleted_at ≡ none → q.created_at ≤ t) rows
unfolding select_all
owned_by_select user_id [] t h = tt
owned_by_select user_id (r ∷ rows) t h =
    elim (Bool-cases (r.user_id == user_id && is_live r.deleted_at)) [
      | inl own ↦
          let (p, k) : (r.created_at ≤ t)
              × All (λ q. q.created_at ≤ t)
                  (select_all (λ q. q.user_id == user_id && is_live q.deleted_at) rows) =
            rw own at h in
          (λ _ _. p, owned_by_select user_id rows t k)
      | inr other ↦
          let k : All (λ q. q.created_at ≤ t)
              (select_all (λ q. q.user_id == user_id && is_live q.deleted_at) rows) =
            rw other at h in
          (λ mine live. ground (arith, eq_iff r.user_id user_id), owned_by_select user_id rows t k)
    ]

first_of_all :
    (P : Row → Type 0) (rows : List Row) (r : Row) → first_row rows ≡ some r → All P rows → P r
first_of_all P [] r h k = ground arith
first_of_all P (q ∷ rows) r h (p, k) = subst P (ground arith) p

select_all-All :
    (user_id : Bytes) (rows : List Row)
    → All
        (λ q. (q.user_id ≡ user_id) × (q.deleted_at ≡ none))
        (select_all (λ q. q.user_id == user_id && is_live q.deleted_at) rows)
unfolding select_all
select_all-All user_id [] = tt
select_all-All user_id (r ∷ rows) =
    ground (arith, select_all-All user_id rows, eq_iff r.user_id user_id)

-- The row that `GetLatestByUserID` takes is the user's and not deleted, and no row of the user that
-- is not deleted is newer.
rows_of_user-first :
    (user_id : Bytes) (db : Db) (r : Row)
    → first_row (rows_of_user user_id db) ≡ some r
    → (r.user_id ≡ user_id)
      × (r.deleted_at ≡ none)
      × All
          (λ q. q.user_id ≡ user_id → q.deleted_at ≡ none → q.created_at ≤ r.created_at)
          db.avatars
unfolding rows_of_user
rows_of_user-first user_id db r h =
    let own = select_all (λ q. q.user_id == user_id && is_live q.deleted_at) db.avatars in
    let (mine, live) =
      first_of_all (λ q. (q.user_id ≡ user_id) × (q.deleted_at ≡ none)) (order_by newer own) r h
        (All-order_by (λ q. (q.user_id ≡ user_id) × (q.deleted_at ≡ none)) own
          (select_all-All user_id db.avatars)) in
    let newest =
      All-of_order (λ q. q.created_at ≤ r.created_at) own
        (first-IsNewestFirst (order_by newer own) r h (order_by-IsNewestFirst own)) in
    (mine, live, owned_by_select user_id db.avatars r.created_at newest)

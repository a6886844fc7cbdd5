-- ===== src/App/Delivered/Among.antt =====
-- Which ids the events that a flush lists have.
use goprofile.Prelude.{
  ℕ, suc, zero, ◌≡◌, ◌≤◌, refl, sym, ap, inl, inr, ◌⊎◌, Bool, true, List, [], ◌∷◌, All, All-map,
  map, take, length, arith, Bool-cases,
}
use mathlib.Core.Path.{subst}
use goprofile.World.{OutboxRow, Db}
use goprofile.Domain.Avatar.{OutboxEvent}
use goprofile.Repository.Tables.{select_all, order_by, insert_sorted, smaller_id, is_live}
use goprofile.Repository.Statements.{unpublished, event_of}

-- The key is that of an element.
abbrev pub Among : {A : Type 0} → (A → ℕ) → ℕ → List A → Type 0
Among key k [] = ⊥
Among key k (x ∷ xs) = (key x ≡ k) ⊎ Among key k xs

abbrev row_id : OutboxRow → ℕ
row_id o = o.id

more_selected :
    (p : OutboxRow → Bool) (o q : OutboxRow) (rows : List OutboxRow)
    → Among row_id q.id (select_all p rows)
    → Among row_id q.id (select_all p (o ∷ rows))
unfolding select_all
more_selected p o q rows h = elim (Bool-cases (p o)) [
  | inl hit ↦ rw hit (inr h)
  | inr miss ↦ rw miss h
]

selected :
    (p : OutboxRow → Bool) (o : OutboxRow) (rows : List OutboxRow)
    → p o ≡ true
    → Among row_id o.id (select_all p (o ∷ rows))
unfolding select_all
selected p o rows hit = rw hit (inl refl)

select_all-Among :
    (p : OutboxRow → Bool) (rows : List OutboxRow)
    → All (λ o. p o ≡ true → Among row_id o.id (select_all p rows)) rows
select_all-Among p [] = tt
select_all-Among p (o ∷ rows) = (
  selected p o rows,
  All-map rows (λ q h hit. more_selected p o q rows (h hit)) (select_all-Among p rows),
)

insert_sorted-Among :
    (k : ℕ) (o : OutboxRow) (rows : List OutboxRow)
    → Among row_id k (o ∷ rows)
    → Among row_id k (insert_sorted smaller_id o rows)
unfolding insert_sorted
insert_sorted-Among k o [] h = h
insert_sorted-Among k o (q ∷ rows) h = elim (Bool-cases (smaller_id o q)) [
  | inl before ↦ rw before h
  | inr behind ↦ rw behind (elim h [
    | inl here ↦ inr (insert_sorted-Among k o rows (inl here))
    | inr (inl next) ↦ inl next
    | inr (inr there) ↦ inr (insert_sorted-Among k o rows (inr there))
  ])
]

order_by-Among :
    (k : ℕ) (rows : List OutboxRow)
    → Among row_id k rows
    → Among row_id k (order_by smaller_id rows)
unfolding order_by
order_by-Among k [] h = h
order_by-Among k (o ∷ rows) (inl here) = insert_sorted-Among k o _ (inl here)
order_by-Among k (o ∷ rows) (inr there) =
    insert_sorted-Among k o _ (inr (order_by-Among k rows there))

length-insert_sorted :
    (o : OutboxRow) (rows : List OutboxRow)
    → length (insert_sorted smaller_id o rows) ≡ suc (length rows)
unfolding insert_sorted
length-insert_sorted o [] = refl
length-insert_sorted o (q ∷ rows) = ground (arith, length-insert_sorted o rows)

length-order_by : (rows : List OutboxRow) → length (order_by smaller_id rows) ≡ length rows
unfolding order_by
length-order_by [] = refl
length-order_by (o ∷ rows) =
    ground (arith, length-order_by rows, length-insert_sorted o (order_by smaller_id rows))

take_all : {A : Type 0} (n : ℕ) (xs : List A) → length xs ≤ n → take n xs ≡ xs
take_all zero [] h = refl
take_all zero (x ∷ xs) h = absurd (omega arith)
take_all (suc n) [] h = refl
take_all (suc n) (x ∷ xs) h = ap (λ xs. x ∷ xs) (take_all n xs (omega arith))

event_of-Among :
    (k : ℕ) (rows : List OutboxRow)
    → Among row_id k rows
    → Among (λ (e : OutboxEvent). e.id) k (map event_of rows)
event_of-Among k [] h = h
event_of-Among k (o ∷ rows) (inl here) = inl here
event_of-Among k (o ∷ rows) (inr there) = inr (event_of-Among k rows there)

abbrev pub waiting : Db → List OutboxRow
waiting d = select_all (λ o. is_live o.published_at) d.outbox

-- Where no more rows wait than the limit, each row that waits is listed.
pub unpublished-Among :
    (limit : ℕ) (d : Db)
    → length (waiting d) ≤ limit
    → All
        (λ o.
          is_live o.published_at ≡ true
          → Among (λ (e : OutboxEvent). e.id) o.id (unpublished limit d))
        d.outbox
unfolding unpublished
unpublished-Among limit d few =
    let sorted = order_by smaller_id (waiting d) in
    let whole : take limit sorted ≡ sorted =
      take_all limit sorted (omega (arith, length-order_by (waiting d))) in
    All-map d.outbox
      (λ o h live. event_of-Among o.id _ (
        subst (λ rows. Among row_id o.id rows) (sym whole)
          (order_by-Among o.id (waiting d) (h live))))
      (select_all-Among (λ o. is_live o.published_at) d.outbox)

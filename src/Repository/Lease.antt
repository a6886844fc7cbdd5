-- ===== src/Repository/Lease.antt =====
-- The claim of `MarkProcessing`: for two minutes no other worker gets the row.
use mathlib.Core.Path.{subst}
use goprofile.Prelude.{
  ℕ, ◌+◌, ◌≤◌, ◌≡◌, ◌≢◌, refl, inl, inr, true, false, List, [], ◌∷◌, none, some, Option-cases,
  Bool-cases, All, arith, eq_iff, nat_eq,
}
use goprofile.Domain.Avatar.{Uuid, processing}
use goprofile.World.{Row, Db}
use goprofile.Repository.Tables.{select_one, update_where, stale_after, is_claimable, set_status}
use goprofile.Repository.Statements.{is_claimed_row, claim}

-- The primary key of the table.
abbrev pub HasUniqueIds : List Row → Type 0
HasUniqueIds [] = Unit
HasUniqueIds (r ∷ rows) = All (λ q. q.id ≢ r.id) rows × HasUniqueIds rows

module _ (id : Uuid) (now : ℕ) where
  abbrev claimed_rows : List Row → List Row
  claimed_rows rows = update_where (is_claimed_row id now) (set_status processing now) rows

  -- A row that was just claimed cannot be claimed again before the claim is stale.
  not_claimable :
      (later : ℕ) (r : Row)
      → later ≤ now + stale_after
      → is_claimed_row id later (set_status processing now r) ≡ false
  unfolding is_claimable set_status
  not_claimable later r h = ground arith

  others_not_claimed :
      (later : ℕ) (rows : List Row)
      → All (λ q. q.id ≢ id) rows
      → select_one (is_claimed_row id later) (claimed_rows rows) ≡ none
  unfolding select_one update_where
  others_not_claimed later [] h = refl
  others_not_claimed later (q ∷ rows) (p, h) =
      ground (arith, others_not_claimed later rows h, eq_iff q.id id)

  absent_ne :
      (k : Uuid) (rows : List Row) (r : Row)
      → select_one (is_claimed_row id now) rows ≡ some r
      → All (λ q. q.id ≢ k) rows
      → k ≢ id
  unfolding select_one
  absent_ne k [] r s h = λ _. ground arith
  absent_ne k (q ∷ rows) r s (p, h) = λ e. ground (arith, absent_ne k rows r, eq_iff q.id id)

  none_claimed :
      (later : ℕ) (rows : List Row) (r : Row)
      → HasUniqueIds rows
      → later ≤ now + stale_after
      → select_one (is_claimed_row id now) rows ≡ some r
      → select_one (is_claimed_row id later) (claimed_rows rows) ≡ none
  unfolding select_one update_where
  none_claimed later [] r u h s = refl
  none_claimed later (q ∷ rows) r (fresh, u) h s = elim (Bool-cases (is_claimed_row id now q)) [
    | inl here ↦
        let same : q.id ≡ id = ground (arith, eq_iff q.id id) in
        ground (
          arith,
          not_claimable later q h,
          others_not_claimed later rows (subst (λ k. All (λ p. p.id ≢ k) rows) same fresh),
        )
    | inr there ↦
        let found : select_one (is_claimed_row id now) rows ≡ some r = ground arith in
        ground (
          arith,
          absent_ne q.id rows r found fresh,
          eq_iff q.id id,
          none_claimed later rows r u h found,
        )
  ]

-- With unique ids, a claim of a row that succeeds at `now` keeps every claim of it from succeeding,
-- and from changing anything, until two minutes have passed, if nothing else writes the row.
pub claim_excludes :
    (id : Uuid) (now later : ℕ) (db : Db)
    → HasUniqueIds db.avatars
    → (claim id now db).0 ≡ true
    → later ≤ now + stale_after
    → claim id later (claim id now db).1 ≡ (false, (claim id now db).1)
unfolding claim
claim_excludes id now later db u c h =
    elim (Option-cases (select_one (is_claimed_row id now) db.avatars)) [
      | inl missing ↦ absurd (ground arith)
      | inr (r, found) ↦ ground (arith, none_claimed id now later db.avatars r u h found)
    ]

-- ===== src/Repository/Contract/Rows.antt =====
-- The clauses of the SQL statements, in the terms of the contract of the repository.
use goprofile.Prelude.{
  ℕ, ◌≡◌, inl, inr, refl, Bool, true, false, Bytes, List, [], ◌∷◌, none, some, All, arith, eq_iff,
  Bool-cases, nat_eq, text_eq,
}
use goprofile.Domain.Avatar.{Uuid}
use goprofile.World.{Row}
use goprofile.Repository.Tables.{is_live_row, select_one, update_where, is_claimable}
use goprofile.Repository.Statements.{is_owned_row, is_claimed_row}
use goprofile.Repository.Contract.{Changes, IsLive, IsOwned, IsFree}

module _ {A : Type 0} (p : A → Bool) where
  module _ (P : A → Type 0) where
    -- A row that is not found has not the property, and one that is found has it.
    pub absent-All :
        ((x : A) → p x ≡ false → ¬ P x)
        → (xs : List A) → select_one p xs ≡ none
        → All (λ x. ¬ P x) xs
    unfolding select_one
    absent-All complete [] h = tt
    absent-All complete (x ∷ xs) h = elim (Bool-cases (p x)) [
      | inl hit ↦ absurd (ground arith)
      | inr miss ↦ (complete x miss, absent-All complete xs (ground arith))
    ]

    pub found-All :
        ((x : A) → p x ≡ true → P x)
        → (xs : List A) (r : A) → select_one p xs ≡ some r
        → ¬ All (λ x. ¬ P x) xs
    unfolding select_one
    found-All sound [] r h none_of = ground arith
    found-All sound (x ∷ xs) r h (q, none_of) = elim (Bool-cases (p x)) [
      | inl hit ↦ q (sound x hit)
      | inr miss ↦ found-All sound xs r (ground arith) none_of
    ]

  module _ (P : A → Type 0) (f : A → A) where
    pub update_where-Changes :
        ((x : A) → p x ≡ true → P x)
        → ((x : A) → p x ≡ false → ¬ P x)
        → (xs : List A) → Changes P f xs (update_where p f xs)
    unfolding update_where
    update_where-Changes sound complete [] = tt
    update_where-Changes sound complete (x ∷ xs) = elim (Bool-cases (p x)) [
      | inl hit ↦ (inl (sound x hit, rw hit refl), update_where-Changes sound complete xs)
      | inr miss ↦ (inr (complete x miss, rw miss refl), update_where-Changes sound complete xs)
    ]

    pub kept-Changes :
        ((x : A) → p x ≡ false → ¬ P x) → (xs : List A) → select_one p xs ≡ none → Changes P f xs xs
    unfolding select_one
    kept-Changes complete [] h = tt
    kept-Changes complete (x ∷ xs) h = elim (Bool-cases (p x)) [
      | inl hit ↦ absurd (ground arith)
      | inr miss ↦ (inr (complete x miss, refl), kept-Changes complete xs (ground arith))
    ]

module _ (id : Uuid) where
  pub is_live_row-IsLive : (r : Row) → is_live_row id r ≡ true → IsLive id r
  is_live_row-IsLive r h = ground (arith, eq_iff r.id id)

  pub IsLive-is_live_row : (r : Row) → is_live_row id r ≡ false → ¬ IsLive id r
  IsLive-is_live_row r h (same, live) = ground (arith, eq_iff r.id id)

  pub is_owned_row-IsOwned :
      (user_id : Bytes) (r : Row) → is_owned_row id user_id r ≡ true → IsOwned id user_id r
  is_owned_row-IsOwned user_id r h = ground (arith, eq_iff r.id id, eq_iff r.user_id user_id)

  pub IsOwned-is_owned_row :
      (user_id : Bytes) (r : Row) → is_owned_row id user_id r ≡ false → ¬ IsOwned id user_id r
  IsOwned-is_owned_row user_id r h (same, mine, live) =
      ground (arith, eq_iff r.id id, eq_iff r.user_id user_id)

  pub is_claimed_row-IsFree :
      (now : ℕ) (r : Row) → is_claimed_row id now r ≡ true → IsLive id r × IsFree now r
  unfolding is_claimable
  is_claimed_row-IsFree now r h = ground (arith, eq_iff r.id id)

  pub IsFree-is_claimed_row :
      (now : ℕ) (r : Row) → is_claimed_row id now r ≡ false → ¬ (IsLive id r × IsFree now r)
  unfolding is_claimable
  IsFree-is_claimed_row now r h ((same, live), free) = ground (arith, eq_iff r.id id)

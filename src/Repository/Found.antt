-- ===== src/Repository/Found.antt =====
-- The rows that a selection by id finds.
use goprofile.Prelude.{
  All, Bool-cases, ◌≡◌, refl, ap, ◌∙◌, inl, inr, Bool, true, false, List, [], ◌∷◌, some,
  Option-cases, arith, eq_iff, nat_eq,
}
use goprofile.Result.{ok}
use goprofile.Domain.Avatar.{Uuid, Avatar, JsonMap}
use goprofile.World.{World, Row, external_call}
use goprofile.Repository.Tables.{select_one, update_where, is_live_row}
use goprofile.Repository.Tx.{query}
use goprofile.Repository.Queries.{avatar_of, scan_avatar, get_by_id}

module _ {A : Type 0} (p : A → Bool) where
  -- What is selected meets the condition.
  pub select_one-holds : (xs : List A) (x : A) → select_one p xs ≡ some x → p x ≡ true
  unfolding select_one
  select_one-holds [] x h = ground arith
  select_one-holds (y ∷ xs) x h = ground (arith, select_one-holds xs x)

module _ {A : Type 0} (P Q : A → Type 0) (p : A → Bool) (f : A → A)
    (same : (x : A) → p x ≡ false → P x → Q x)
    (updated : (x : A) → p x ≡ true → P x → Q (f x)) where
  -- An update turns what holds of all rows into what holds of the rows that it leaves and of those
  -- that it has written.
  pub All-update : (xs : List A) → All P xs → All Q (update_where p f xs)
  unfolding update_where
  All-update [] h = tt
  All-update (x ∷ xs) (y, h) = elim (Bool-cases (p x)) [
    | inl hit ↦ rw hit (updated x hit y, All-update xs h)
    | inr miss ↦ rw miss (same x miss y, All-update xs h)
  ]

module _ (json : JsonMap) where
  pub get_by_id-ok :
      (id : Uuid) (w w' : World) (a : Avatar)
      → get_by_id json id w ≡ (ok a, w')
      → (r : Row) × (select_one (is_live_row id) w.db.avatars ≡ some r) × (a ≡ avatar_of json r)
  unfolding get_by_id scan_avatar query external_call
  get_by_id-ok id w w' a h = elim (Option-cases (select_one (is_live_row id) w.db.avatars)) [
    | inl missing ↦ absurd (ground arith)
    | inr (r, there) ↦ (r, there, ground arith)
  ]

  id-avatar_of : (r : Row) → (avatar_of json r).id ≡ r.id
  unfolding avatar_of
  id-avatar_of r = refl

  -- The avatar that is got by an id has the id.
  pub get_by_id-same_id :
      (id : Uuid) (w w' : World) (a : Avatar) → get_by_id json id w ≡ (ok a, w') → a.id ≡ id
  get_by_id-same_id id w w' a h =
      let (r, there, same) = get_by_id-ok id w w' a h in
      let live = select_one-holds (is_live_row id) w.db.avatars r there in
      ap (λ a. a.id) same ∙ id-avatar_of r ∙ ground (arith, eq_iff r.id id)

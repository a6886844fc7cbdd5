-- ===== src/Repository/Unique.antt =====
-- Lists of rows without two of the same key, behind appends and updates.
use goprofile.Prelude.{
  ◌≡◌, ◌≢◌, sym, ◌∙◌, Bool, inl, inr, Bool-cases, List, [], ◌∷◌, ◌++◌, All, All-append,
}
use goprofile.Repository.Tables.{update_where}

module _ {A K : Type 0} (key : A → K) where
  -- No key stands twice.
  abbrev pub HasUnique : List A → Type 0
  HasUnique [] = Unit
  HasUnique (x ∷ xs) = All (λ y. key y ≢ key x) xs × HasUnique xs

  pub absent-update :
      (k : K) (p : A → Bool) (f : A → A) (xs : List A)
      → ((x : A) → key (f x) ≡ key x)
      → All (λ y. key y ≢ k) xs
      → All (λ y. key y ≢ k) (update_where p f xs)
  unfolding update_where
  absent-update k p f [] keeps h = tt
  absent-update k p f (x ∷ xs) keeps (q, h) = elim (Bool-cases (p x)) [
    | inl hit ↦ rw hit ((λ e. q (sym (keeps x) ∙ e)), absent-update k p f xs keeps h)
    | inr miss ↦ rw miss (q, absent-update k p f xs keeps h)
  ]

  pub update_where-HasUnique :
      (p : A → Bool) (f : A → A) (xs : List A)
      → ((x : A) → key (f x) ≡ key x)
      → HasUnique xs
      → HasUnique (update_where p f xs)
  unfolding update_where
  update_where-HasUnique p f [] keeps h = tt
  update_where-HasUnique p f (x ∷ xs) keeps (fresh, h) =
      let rest = absent-update (key x) p f xs keeps fresh in
      elim (Bool-cases (p x)) [
        | inl hit ↦ rw (hit, keeps x) (rest, update_where-HasUnique p f xs keeps h)
        | inr miss ↦ rw miss (rest, update_where-HasUnique p f xs keeps h)
      ]

  pub append-HasUnique :
      (xs : List A) (x : A) → HasUnique xs → All (λ y. key y ≢ key x) xs → HasUnique (xs ++ x ∷ [])
  append-HasUnique [] x h a = (tt, tt)
  append-HasUnique (y ∷ xs) x (fresh, h) (p, a) = (
    All-append (λ z. key z ≢ key y) xs (x ∷ []) fresh ((λ e. p (sym e)), tt),
    append-HasUnique xs x h a,
  )

-- ===== src/Repository/Grows.antt =====
-- Tables that only grow, and whose rows only advance.
use goprofile.Prelude.{◌≡◌, inl, inr, Bool, Bool-cases, List, [], ◌∷◌, ◌++◌, true}
use goprofile.Repository.Tables.{update_where}

-- The second list has a later version of each row of the first, in place, and perhaps more rows.
module _ {A : Type 0} (Later : A → A → Type 0) where
  abbrev pub Grows : List A → List A → Type 0
  Grows [] ys = Unit
  Grows (x ∷ xs) [] = ⊥
  Grows (x ∷ xs) (y ∷ ys) = Later x y × Grows xs ys

  pub Grows-refl : ((x : A) → Later x x) → (xs : List A) → Grows xs xs
  Grows-refl same [] = tt
  Grows-refl same (x ∷ xs) = (same x, Grows-refl same xs)

  pub Grows-trans :
      ((x y z : A) → Later x y → Later y z → Later x z)
      → (xs ys zs : List A) → Grows xs ys
      → Grows ys zs
      → Grows xs zs
  Grows-trans both [] ys zs h k = tt
  Grows-trans both (x ∷ xs) [] zs h k = elim h [ ]
  Grows-trans both (x ∷ xs) (y ∷ ys) [] h k = elim k [ ]
  Grows-trans both (x ∷ xs) (y ∷ ys) (z ∷ zs) (p, h) (q, k) =
      (both x y z p q, Grows-trans both xs ys zs h k)

  pub Grows-append : ((x : A) → Later x x) → (xs ys : List A) → Grows xs (xs ++ ys)
  Grows-append same [] ys = tt
  Grows-append same (x ∷ xs) ys = (same x, Grows-append same xs ys)

  pub Grows-update :
      (p : A → Bool) (f : A → A) (xs : List A)
      → ((x : A) → Later x x)
      → ((x : A) → p x ≡ true → Later x (f x))
      → Grows xs (update_where p f xs)
  unfolding update_where
  Grows-update p f [] same moves = tt
  Grows-update p f (x ∷ xs) same moves = elim (Bool-cases (p x)) [
    | inl hit ↦ rw hit (moves x hit, Grows-update p f xs same moves)
    | inr miss ↦ rw miss (same x, Grows-update p f xs same moves)
  ]

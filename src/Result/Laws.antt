-- ===== src/Result/Laws.antt =====
-- Splitting on the result of a step, with the equation kept.
use goprofile.Prelude.{◌≡◌, ◌≢◌, refl, sym, ap, ◌∙◌, arith, ◌⊎◌, inl, inr}
use goprofile.Result.{Result, ok, err, Exec, follow, ◌>>=◌}
use goprofile.Domain.Errors.{Err}

pub Result-cases {ℓ} :
    {A : Type ℓ} (r : Result A) → ((a : A) × (r ≡ ok a)) ⊎ ((e : Err) × (r ≡ err e))
Result-cases (ok a) = inl (a, refl)
Result-cases (err e) = inr (e, refl)

err≢ok : {S A : Type 0} {e : Err} {a : A} {s s' : S} → ◌≢◌ {A = Result A × S} (err e, s) (ok a, s')
err≢ok h = ground arith

module _ {S A : Type 0} where
  pair-cases :
      (p : Result A × S)
      → ((a : A) × (s' : S) × (p ≡ (ok a, s'))) ⊎ ((e : Err) × (s' : S) × (p ≡ (err e, s')))
  pair-cases (ok a, s') = inl (a, s', refl)
  pair-cases (err e, s') = inr (e, s', refl)

  pub Exec-cases :
      (m : Exec S A) (s : S)
      → ((a : A) × (s' : S) × (m s ≡ (ok a, s'))) ⊎ ((e : Err) × (s' : S) × (m s ≡ (err e, s')))
  Exec-cases m s = pair-cases (m s)

module _ {S A B : Type 0} where
  -- Both steps of a sequence that worked have worked.
  pub bind-ok :
      (m : Exec S A) (f : A → Exec S B) (s s' : S) (b : B)
      → (m >>= f) s ≡ (ok b, s')
      → (a : A) × (s₁ : S) × (m s ≡ (ok a, s₁)) × (f a s₁ ≡ (ok b, s'))
  bind-ok m f s s' b h = elim (Exec-cases m s) [
    | inl (a, s₁, p) ↦ (a, s₁, p, sym (ap (λ r. follow r.0 f r.1) p) ∙ h)
    | inr (e, s₁, p) ↦ absurd (err≢ok (sym (ap (λ r. follow r.0 f r.1) p) ∙ h))
  ]

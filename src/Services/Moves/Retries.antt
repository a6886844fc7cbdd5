-- ===== src/Services/Moves/Retries.antt =====
-- What the retries of a publication do to the state, along a relation.
use goprofile.Prelude.{ℕ, zero, suc, ◌*◌}
use goprofile.Result.{Result, ok, err, Exec, ◌>>◌}
use goprofile.Result.Moves.{IsPreorder, Moves, Moves-then}
use goprofile.Services.Outbox.{publish_rounds, publish_with_retry}

module _ {S : Type 0} {R : S → S → Type 0} (order : IsPreorder R) (wait : ℕ → Exec S (Unit {0}))
    (wait_moves : (backoff : ℕ) → Moves R (wait backoff)) where
  again-moves :
      (r : Result (Unit {0})) (again : Exec S (Unit {0})) (s t : S)
      → R s t
      → Moves R again
      → R s (elim r as (λ _. Result (Unit {0}) × S) [ ok _ ↦ (ok tt, t) | err e ↦ again t ]).1
  again-moves (ok _) again s t h k = h
  again-moves (err e) again s t h k = order.joins s t _ h (k.at t)

  publish_rounds-Moves :
      (fn : Exec S (Unit {0})) (n backoff : ℕ)
      → Moves R fn
      → Moves R (publish_rounds wait fn n backoff)
  unfolding publish_rounds
  publish_rounds-Moves fn zero backoff h = record { at = order.stays }
  publish_rounds-Moves fn (suc zero) backoff h = record { at = h.at }
  publish_rounds-Moves fn (suc (suc n)) backoff h = record {
    at = λ s.
        again-moves (fn s).0 (wait backoff >> publish_rounds wait fn (suc n) (backoff * 2)) s
          (fn s).1 (h.at s)
          (Moves-then order _ _ (wait_moves backoff)
            (publish_rounds-Moves fn (suc n) (backoff * 2) h));
  }

  pub publish_with_retry-Moves :
      (fn : Exec S (Unit {0})) (n : ℕ) → Moves R fn → Moves R (publish_with_retry wait fn n)
  unfolding publish_with_retry
  publish_with_retry-Moves fn n h = publish_rounds-Moves fn n _ h

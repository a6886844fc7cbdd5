-- ===== src/Tests/Run.antt =====
-- A worker whose first consumer fails.
use goprofile.Prelude.{◌≡◌, ◌≢◌, ◌↔◌, refl, true, [], ◌∷◌, Option, none, some, inr, All, arith}
use goprofile.Domain.Errors.{Err, external}
use goprofile.Worker.Run.{
  going, returned, done, Running, started, stops, cancels, sends, receives, acts, fails, Reach,
  start, next,
}
use goprofile.Worker.Run.Laws.{IsDone, run_returns}
use goprofile.Worker.Run.Ends.{Halts, run_ends}

abbrev failure : Option Err
failure = some (external 1)

abbrev finished : Running
finished = record {
  phases = done failure ∷ done none ∷ done none ∷ [];
  cancelled = true;
  channel = [];
  first = failure;
  rounds = 3;
}

abbrev failing : Running
failing = record started { phases = returned failure ∷ going ∷ going ∷ [] }

failing-Reach : Reach failing
failing-Reach = next start (fails [] (going ∷ going ∷ []) (external 1) refl refl)

cancelled-Reach : Reach (record started {
  phases = done failure ∷ going ∷ going ∷ [];
  cancelled = true;
  channel = failure ∷ [];
})
cancelled-Reach =
    next (next failing-Reach (acts (cancels [] (going ∷ going ∷ []) failure refl refl)))
      (acts (sends [] (going ∷ going ∷ []) failure refl (omega arith) refl))

finished-Reach : Reach finished
finished-Reach =
    next
      (next
        (next
          (next
            (next
              (next
                (next
                  (next
                    (next cancelled-Reach
                      (acts (stops (done failure ∷ going ∷ []) [] refl refl refl)))
                    (acts (stops (done failure ∷ []) (returned none ∷ []) refl refl refl)))
                  (acts (receives failure [] refl (omega arith) refl)))
                (acts (cancels (done failure ∷ returned none ∷ []) [] none refl refl)))
              (acts (sends (done failure ∷ returned none ∷ []) [] none refl (omega arith) refl)))
            (acts (cancels (done failure ∷ []) (done none ∷ []) none refl refl)))
          (acts (sends (done failure ∷ []) (done none ∷ []) none refl (omega arith) refl)))
        (acts (receives none (none ∷ []) refl (omega arith) refl)))
      (acts (receives none [] refl (omega arith) refl))

run_returns_example :
    All IsDone finished.phases
    × ((finished.first ≡ none) ↔ All (λ p. p ≡ done none) finished.phases)
    × (finished.first ≢ none → finished.cancelled ≡ true)
run_returns_example = run_returns finished finished-Reach refl

run_ends_example : Halts failing
run_ends_example = run_ends failing failing-Reach (inr (omega arith))

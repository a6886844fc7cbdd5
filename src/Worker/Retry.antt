-- ===== src/Worker/Retry.antt =====
-- What `withRetry` does with the results of its function, and how long it waits between them.
use native.Mathlib.Nat.{pow-suc}
use goprofile.Prelude.{ℕ, zero, suc, ◌+◌, ◌*◌, ◌^◌, ◌<◌, ◌≡◌, true, false, arith}
use goprofile.Result.{Result, ok, err, Exec}
use goprofile.Domain.Errors.{Err, is_permanent}
use goprofile.Worker.{retry_rounds, with_retry}

times_one : (b : ℕ) → b * 2 ^ 0 ≡ b
times_one b = omega arith

times_double : (b n : ℕ) → b * 2 * 2 ^ n ≡ b * 2 ^ suc n
times_double b n = simp pow-suc (omega arith)

module _ {S : Type 0} (wait : ℕ → Exec S (Unit {0})) (fn : Exec S (Unit {0})) where
  -- So many failures in a row that are not permanent, with waits of twice the length each time.
  pub data Failures : ℕ → ℕ → S → S → Type 0 where
    start : {backoff : ℕ} {s : S} → Failures 0 backoff s s
    fails :
        {n backoff : ℕ} {s s' s'' t : S} (e : Err)
        → fn s ≡ (err e, s')
        → is_permanent e ≡ false
        → wait backoff s' ≡ (ok tt, s'')
        → Failures n (backoff * 2) s'' t
        → Failures (suc n) backoff s t

  -- A result that ends the retries behind `n` failures out of `attempts` calls.
  pub data IsFinal : ℕ → ℕ → Result (Unit {0}) → Type 0 where
    worked : {n attempts : ℕ} → IsFinal n attempts (ok tt)
    poisoned : {n attempts : ℕ} (e : Err) → is_permanent e ≡ true → IsFinal n attempts (err e)
    exhausted : {n attempts : ℕ} (e : Err) → attempts ≡ n + 1 → IsFinal n attempts (err e)

  IsFinal-pred :
      {n attempts : ℕ} {r : Result (Unit {0})}
      → IsFinal (suc n) (suc attempts) r
      → IsFinal n attempts r
  IsFinal-pred worked = worked
  IsFinal-pred (poisoned e p) = poisoned e p
  IsFinal-pred (exhausted e p) = exhausted e (omega arith)

  retry_rounds_lem :
      (attempts n backoff : ℕ) (s t t' : S) (r : Result (Unit {0}))
      → Failures n backoff s t
      → n < attempts
      → fn t ≡ (r, t')
      → IsFinal n attempts r
      → retry_rounds wait fn attempts backoff s ≡ (r, t')
  unfolding retry_rounds
  retry_rounds_lem zero n backoff s t t' r f h c d = absurd (omega arith)
  retry_rounds_lem (suc zero) n backoff s t t' r start h c d = c
  retry_rounds_lem (suc zero) n backoff s t t' r (fails e p q w f) h c d = absurd (omega arith)
  retry_rounds_lem (suc (suc k)) n backoff s t t' r start h c worked = ground arith
  retry_rounds_lem (suc (suc k)) n backoff s t t' r start h c (poisoned e p) = ground arith
  retry_rounds_lem (suc (suc k)) n backoff s t t' r start h c (exhausted e p) = absurd (omega arith)
  retry_rounds_lem (suc (suc k)) n backoff s t t' r (fails {s''} e p q w f) h c d = ground (
    arith,
    retry_rounds_lem (suc k) _ (backoff * 2) s'' t t' r f (omega arith) c (IsFinal-pred d),
  )

  -- A message whose handler fails `n` times with errors that are not permanent, with waits of 200,
  -- 400, 800, … milliseconds that are not cut short, and then works, or fails permanently, or fails
  -- in the last of the attempts, is answered with that last result, behind exactly `n + 1` calls.
  pub with_retry_lem :
      (attempts n : ℕ) (s t t' : S) (r : Result (Unit {0}))
      → Failures n (200 * 10 ^ 6) s t
      → n < attempts
      → fn t ≡ (r, t')
      → IsFinal n attempts r
      → with_retry wait fn attempts s ≡ (r, t')
  unfolding with_retry
  with_retry_lem attempts n s t t' r f h c d = retry_rounds_lem attempts n _ s t t' r f h c d

  -- Behind `n` such failures a cancelled wait ends the retries with the context's error.
  retry_rounds_cancelled :
      (attempts n backoff : ℕ) (s t t' t'' : S) (e cancelled : Err)
      → Failures n backoff s t
      → n + 1 < attempts
      → fn t ≡ (err e, t')
      → is_permanent e ≡ false
      → wait (backoff * 2 ^ n) t' ≡ (err cancelled, t'')
      → retry_rounds wait fn attempts backoff s ≡ (err cancelled, t'')
  unfolding retry_rounds
  retry_rounds_cancelled zero n backoff s t t' t'' e c f h p q w = absurd (omega arith)
  retry_rounds_cancelled (suc zero) n backoff s t t' t'' e c f h p q w = absurd (omega arith)
  retry_rounds_cancelled (suc (suc k)) n backoff s t t' t'' e c start h p q w =
      let w' : wait backoff t' ≡ (err c, t'') = rw times_one at w in ground arith
  retry_rounds_cancelled (suc (suc k)) n backoff s t t' t'' e c (fails {n = m} {s''} d p' q' w' f) h
        p q w =
      ground (
        arith,
        retry_rounds_cancelled (suc k) m (backoff * 2) s'' t t' t'' e c f (omega arith) p q
            (rw times_double w),
      )

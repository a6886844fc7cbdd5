-- ===== src/Result/Moves.antt =====
-- Steps of a program along a relation on the state, with a rule for each way to build a program.
use goprofile.Prelude.{◌≡◌, refl, Bool, true, false, Option, none, some, if◌then◌else◌}
use goprofile.Result.{
  Result, ok, err, Exec, return, fail, lift, gets, attempt, unless_error, modify, ignore, ◌>>=◌,
  ◌>>◌, ◌or_undo◌,
}
use goprofile.Domain.Errors.{Err}

-- Any number of moves is a move.
pub record IsPreorder {S : Type 0} (R : S → S → Type 0) : Type 0 where
  pub stays : (s : S) → R s s
  pub joins : (s t u : S) → R s t → R t u → R s u

-- However the program ends, the state that it leaves is reached by moves.
pub record Moves {S A : Type 0} (R : S → S → Type 0) (m : Exec S A) : Type 0 where
  pub at : (s : S) → R s (m s).1

module _ {S A : Type 0} {R : S → S → Type 0} (order : IsPreorder R) where
  pub Moves-return : (a : A) → Moves R (return a)
  Moves-return a = record { at = order.stays }

  pub Moves-fail : (e : Err) → Moves R (fail {A = A} e)
  Moves-fail e = record { at = order.stays }

  pub Moves-lift : (r : Result A) → Moves R (lift r)
  Moves-lift r = record { at = order.stays }

  pub Moves-gets : (view : S → A) → Moves R (gets view)
  Moves-gets view = record { at = order.stays }

  pub Moves-attempt : (m : Exec S A) → Moves R m → Moves R (attempt m)
  Moves-attempt m h = record { at = h.at }

  pub Moves-ignore : (m : Exec S A) → Moves R m → Moves R (ignore m)
  Moves-ignore m h = record { at = h.at }

  pub Moves-unless_error : (o : Option Err) (m : Exec S A) → Moves R m → Moves R (unless_error o m)
  Moves-unless_error none m h = h
  Moves-unless_error (some e) m h = Moves-fail e

  pub Moves-if : (b : Bool) (m n : Exec S A) → Moves R m → Moves R n → Moves R (if b then m else n)
  Moves-if true m n h k = h
  Moves-if false m n h k = k

module _ {S : Type 0} {R : S → S → Type 0} where
  pub Moves-modify : (f : S → S) → ((s : S) → R s (f s)) → Moves R (modify f)
  Moves-modify f h = record { at = h }

module _ {S A B : Type 0} {R : S → S → Type 0} (order : IsPreorder R) where
  Moves-follow :
      (r : Result A) (f : A → Exec S B) (s t : S)
      → R s t
      → ((a : A) → Moves R (f a))
      → R s (◌>>=◌ (lift r) f t).1
  Moves-follow (ok a) f s t h k = order.joins s t _ h ((k a).at t)
  Moves-follow (err e) f s t h k = h

  pub Moves-bind :
      (m : Exec S A) (f : A → Exec S B) → Moves R m → ((a : A) → Moves R (f a)) → Moves R (m >>= f)
  Moves-bind m f h k = record { at = λ s. Moves-follow (m s).0 f s (m s).1 (h.at s) k }

  -- What follows a step is only asked about what the step returned.
  pub Moves-bind_returned :
      (m : Exec S A) (f : A → Exec S B)
      → Moves R m
      → ((a : A) (s s' : S) → m s ≡ (ok a, s') → Moves R (f a))
      → Moves R (m >>= f)
  Moves-bind_returned m f h k = record { at = λ s. of s (m s) refl (h.at s) }
    where
      of : (s : S) (p : Result A × S) → m s ≡ p → R s p.1 → R s (◌>>=◌ (lift p.0) f p.1).1
      of s (ok a, t) e j = order.joins s t _ j ((k a s t e).at t)
      of s (err e, t) _ j = j

  pub Moves-lift_bind :
      (r : Result A) (f : A → Exec S B)
      → ((a : A) → r ≡ ok a → Moves R (f a))
      → Moves R (lift r >>= f)
  Moves-lift_bind (ok a) f k = record { at = (k a refl).at }
  Moves-lift_bind (err e) f k = record { at = order.stays }

  pub Moves-then : (m : Exec S A) (n : Exec S B) → Moves R m → Moves R n → Moves R (m >> n)
  Moves-then m n h k = record {
    at = λ s. Moves-follow (m s).0 (λ _. n) s (m s).1 (h.at s) (λ _. k);
  }

  Moves-cleanup :
      (r : Result A) (n : Exec S B) (s t : S) → R s t → Moves R n → R s (◌or_undo◌ (lift r) n t).1
  Moves-cleanup (ok a) n s t h k = h
  Moves-cleanup (err e) n s t h k = order.joins s t _ h (k.at t)

  pub Moves-or_undo :
      (m : Exec S A) (n : Exec S B) → Moves R m → Moves R n → Moves R (◌or_undo◌ m n)
  Moves-or_undo m n h k = record { at = λ s. Moves-cleanup (m s).0 n s (m s).1 (h.at s) k }

module _ {S A B C : Type 0} {R : S → S → Type 0} (order : IsPreorder R) where
  pub Moves-lift_undo :
      (r : Result A) (n : Exec S C) (f : A → Exec S B)
      → Moves R n
      → ((a : A) → r ≡ ok a → Moves R (f a))
      → Moves R (◌or_undo◌ (lift r) n >>= f)
  Moves-lift_undo (ok a) n f h k = record { at = (k a refl).at }
  Moves-lift_undo (err e) n f h k = record { at = h.at }

pub ruleset moves_rules = (
  Moves-return, Moves-fail, Moves-lift, Moves-gets, Moves-attempt, Moves-ignore, Moves-unless_error,
  Moves-if, Moves-modify, Moves-bind, Moves-then, Moves-or_undo,
)

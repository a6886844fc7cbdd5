-- ===== src/Result.antt =====
-- Go's `(value, error)` results, and computations over a shared state. A failed step keeps what was
-- written before it, so the state comes back beside the error.
pub mod Laws
pub mod Moves
use goprofile.Prelude.{Bytes, Option, none, some}
use goprofile.Domain.Errors.{wrapped, Err}

pub data Result {ℓ} (A : Type ℓ) : Type ℓ where
  ok : A → Result A
  err : Err → Result A

-- The error, or nil.
abbrev pub error {ℓ} : {A : Type ℓ} → Result A → Option Err
error (ok _) = none
error (err e) = some e

-- `if first == nil { first = err }`
abbrev pub first_of : Option Err → Option Err → Option Err
first_of none e = e
first_of (some e) _ = some e

-- `return first`
abbrev pub or_first : Option Err → Result (Unit {0})
or_first none = ok tt
or_first (some e) = err e

abbrev pub Exec : Type 0 → Type 0 → Type 0
Exec S A = S → Result A × S

-- fmt.Errorf("message: %w", err) around the error of a call
abbrev pub named_error : {A : Type 0} → Bytes → Result A → Result A
named_error message (ok a) = ok a
named_error message (err e) = err (wrapped message e)

module _ {S A : Type 0} where
  abbrev pub naming : Bytes → Exec S A → Exec S A
  naming message m s = let (r, s') = m s in (named_error message r, s')

  abbrev pub return : A → Exec S A
  return a s = (ok a, s)

  abbrev pub fail : Err → Exec S A
  fail e s = (err e, s)

  abbrev pub lift : Result A → Exec S A
  lift result st = (result, st)

  -- A read or a write of the state that cannot fail.
  abbrev pub gets : (view : S → A) → Exec S A
  gets view st = (ok (view st), st)

  -- The pair `value, err := m`, for code that looks at the error itself.
  abbrev pub attempt : Exec S A → Exec S (Result A)
  attempt step st = let (result, next) = step st in (ok result, next)

  -- `if err != nil { return err }`
  abbrev pub unless_error : Option Err → Exec S A → Exec S A
  unless_error none m = m
  unless_error (some e) m = fail e

module _ {S : Type 0} where
  abbrev pub modify : (S → S) → Exec S Unit
  modify f s = (ok tt, f s)

  -- `_ = m`
  abbrev pub ignore : {A : Type 0} → Exec S A → Exec S (Unit {0})
  ignore m s = (ok tt, (m s).1)

module _ {S A B : Type 0} where
  abbrev pub follow : Result A → (A → Exec S B) → Exec S B
  follow (ok value) rest st = rest value st
  follow (err e) rest st = (err e, st)

  infixl 5 ◌>>=◌ ◌>>◌
  abbrev pub ◌>>=◌ : (first : Exec S A) (rest : A → Exec S B) → Exec S B
  ◌>>=◌ first rest st = let (result, next) = first st in follow result rest next

  abbrev pub ◌>>◌ : (first : Exec S A) (rest : Exec S B) → Exec S B
  first >> rest = first >>= λ _. rest

  abbrev undo : Result A → Exec S B → Exec S A
  undo (ok a) m s = (ok a, s)
  undo (err e) m s = (err e, (m s).1)

  -- `if err != nil { _ = cleanup; return err }`
  abbrev pub ◌or_undo◌ : Exec S A → Exec S B → Exec S A
  ◌or_undo◌ step cleanup st = let (result, next) = step st in undo result cleanup next

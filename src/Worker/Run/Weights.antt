-- ===== src/Worker/Run/Weights.antt =====
-- Counting the phases of the goroutines of `Run`, and the results in its channel.
use goprofile.Prelude.{ℕ, ◌+◌, ◌≡◌, ap, List, [], ◌∷◌, ◌++◌, Option, none, some, arith}
use goprofile.Domain.Errors.{Err}
use goprofile.Worker.Run.{Phase, going, returned, sending, done}

-- The goroutines that have sent, the errors among their results, and those of a list of results.
abbrev pub error_weight : Option Err → ℕ
error_weight none = 0
error_weight (some _) = 1

abbrev pub sent_weight : Phase → ℕ
sent_weight going = 0
sent_weight (returned e) = 0
sent_weight (sending e) = 0
sent_weight (done e) = 1

abbrev pub failed_weight : Phase → ℕ
failed_weight going = 0
failed_weight (returned e) = 0
failed_weight (sending e) = 0
failed_weight (done e) = error_weight e

-- The goroutines whose functions still run, and those that have seen a context that is done.
abbrev pub going_weight : Phase → ℕ
going_weight going = 1
going_weight (returned e) = 0
going_weight (sending e) = 0
going_weight (done e) = 0

abbrev pub stopped_weight : Phase → ℕ
stopped_weight going = 0
stopped_weight (returned none) = 1
stopped_weight (returned (some e)) = 0
stopped_weight (sending e) = 1
stopped_weight (done e) = 1

abbrev pub total : {A : Type 0} → (A → ℕ) → List A → ℕ
total f [] = 0
total f (x ∷ xs) = f x + total f xs

pub total-append :
    {A : Type 0} (f : A → ℕ) (xs ys : List A) → total f (xs ++ ys) ≡ total f xs + total f ys
total-append f [] ys = omega arith
total-append f (x ∷ xs) ys = omega (arith, total-append f xs ys)

abbrev pub one : {A : Type 0} → A → ℕ
one x = 1

-- The weight of the phases when one of them changes.
pub changed :
    (f : Phase → ℕ) (phases before after : List Phase) (p q : Phase)
    → phases ≡ before ++ p ∷ after
    → total f (before ++ q ∷ after) + f p ≡ total f phases + f q
changed f phases before after p q h =
    omega
      (arith, ap (total f) h, total-append f before (p ∷ after), total-append f before (q ∷ after))

-- ===== src/Prelude/Equality.antt =====
-- The Boolean equality of Go's `==`, for numbers and for texts.
use Prim.Native.Nat.{ℕ}
use mathlib.Core.Path.{◌≡◌, refl}
use Prim.Native.Char.{code}
use mathlib.Core.Logic.{◌↔◌}
use Prim.Native.String.{String}
use mathlib.Core.Bool.{Bool, true, false, ◌&&◌}
use mathlib.Core.List.{List, [], ◌∷◌}
use native.Mathlib.Omega.{arith}
use goprofile.Prelude.Tests.{nat_beq, nat_beq_iff}

-- A comparison whose answer can be trusted in both directions.
pub record HasEquality {κ} (T : Type κ) : Type κ where
  pub equals : T → T → Bool
  pub sound : (x y : T) → equals x y ≡ true → x ≡ y
  pub complete : (x y : T) → x ≡ y → equals x y ≡ true

abbrev pub ◌==◌ {κ} : {T : Type κ} ⦃cmp : HasEquality T⦄ → T → T → Bool
◌==◌ ⦃cmp⦄ = cmp.equals

infix 50 ◌==◌
-- The fact by which a proof reads a test, at the two values that are compared.
pub eq_iff {κ} : {T : Type κ} ⦃cmp : HasEquality T⦄ (x y : T) → ((x == y) ≡ true) ↔ (x ≡ y)
eq_iff ⦃cmp⦄ x y = (cmp.sound x y, cmp.complete x y)

instance abbrev pub nat_eq : HasEquality ℕ
nat_eq = record {
  equals = nat_beq;
  sound = λ x y. (nat_beq_iff x y).0;
  complete = λ x y. (nat_beq_iff x y).1;
}

-- A Go string or byte slice: the list of its bytes.
abbrev pub Bytes : Type 0
Bytes = List ℕ

-- The bytes of an ASCII literal.
abbrev pub text : String → Bytes
text String.[] = []
text (String.◌∷◌ c s) = code c ∷ text s

unfoldable pub text_beq : Bytes → Bytes → Bool
text_beq [] [] = true
text_beq [] (_ ∷ _) = false
text_beq (_ ∷ _) [] = false
text_beq (a ∷ s) (b ∷ t) = nat_beq a b && text_beq s t

pub text_beq_iff : (s t : Bytes) → (text_beq s t ≡ true) ↔ (s ≡ t)
unfolding text_beq
text_beq_iff [] [] = (λ _. refl, λ _. refl)
text_beq_iff [] (b ∷ t) = ground arith
text_beq_iff (a ∷ s) [] = ground arith
text_beq_iff (a ∷ s) (b ∷ t) = ground (arith, text_beq_iff s t)

instance abbrev pub text_eq : HasEquality Bytes
text_eq = record {
  equals = text_beq;
  sound = λ x y. (text_beq_iff x y).0;
  complete = λ x y. (text_beq_iff x y).1;
}

-- ===== src/Text/Number.antt =====
-- Go's strconv.Atoi and strconv.ParseInt(s, 10, 64), without the text of their errors.
use goprofile.Prelude.{
  ℕ, zero, suc, ◌+◌, ◌-◌, ◌*◌, ◌^◌, ◌&&◌, Bytes, [], ◌∷◌, Option, none, some, leb, ltb,
  if◌then◌else◌, ◌==◌, nat_eq,
}
use goprofile.Prelude.Int.{ℤ, pos, negsuc}

-- The value of a row of decimal digits behind the value of those before it.
unfoldable pub digits_value : ℕ → Bytes → Option ℕ
digits_value n [] = some n
digits_value n (a ∷ s) =
    let rest = digits_value (n * 10 + (a - b'0')) s in
    if leb b'0' a && leb a b'9' then rest else none

-- At least one digit.
unfoldable pub unsigned : Bytes → Option ℕ
unfolding digits_value
unsigned [] = none
unsigned (a ∷ s) = digits_value 0 (a ∷ s)

-- The range of 64 bits, on each side.
abbrev pub positive : Option ℕ → Option ℤ
positive none = none
positive (some n) = if ltb n (2 ^ 63) then some (pos n) else none

abbrev pub negative : Option ℕ → Option ℤ
negative none = none
negative (some zero) = some (pos 0)
negative (some (suc n)) = if ltb n (2 ^ 63) then some (negsuc n) else none

unfoldable pub parse_int : Bytes → Option ℤ
unfolding unsigned
parse_int [] = none
parse_int (a ∷ s) =
    if a == b'-'
    then negative (unsigned s)
    else if a == b'+'
    then positive (unsigned s)
    else positive (unsigned (a ∷ s))

-- ===== src/Observability/Carrier.antt =====
-- internal/observability/kafka.go: the headers of a message as a carrier of trace contexts. Keys
-- are compared by strings.EqualFold, here on ASCII with the two runes that fold to it.
use goprofile.Prelude.{
  ◌+◌, ◌≡◌, refl, sym, ◌∙◌, inl, inr, Bool-cases, Bool, true, false, ◌&&◌, Bytes, List, [], ◌∷◌,
  leb, if◌then◌else◌, ◌==◌, eq_iff, text_eq, nat_eq,
}
use mathlib.Core.Bool.{true≢false}
use goprofile.World.{Header}

-- U+017F folds to 's', and U+212A to 'k'. Other runes beyond ASCII are left as they are.
unfoldable pub fold : Bytes → Bytes
fold [] = []
fold (a ∷ []) = (if leb 65 a && leb a 90 then a + 32 else a) ∷ []
fold (a ∷ b ∷ []) =
    let one = fold (b ∷ []) in
    if leb 65 a && leb a 90
    then (a + 32) ∷ one
    else if a == 0xC5 && b == 0xBF
    then b's' ∷ []
    else a ∷ one
fold (a ∷ b ∷ c ∷ s) =
    let one = fold (b ∷ c ∷ s) in
    let two = fold (c ∷ s) in
    let three = fold s in
    if leb 65 a && leb a 90
    then (a + 32) ∷ one
    else if a == 0xC5 && b == 0xBF
    then b's' ∷ two
    else if a == 0xE2 && b == 0x84 && c == 0xAA
    then b'k' ∷ three
    else a ∷ one

abbrev pub equal_fold : Bytes → Bytes → Bool
equal_fold s t = fold s == fold t

unfoldable pub carrier_get : List Header → Bytes → Bytes
carrier_get [] key = []
carrier_get (h ∷ headers) key =
    let rest = carrier_get headers key in if equal_fold h.key key then h.value else rest

unfoldable pub carrier_set : List Header → Bytes → Bytes → List Header
carrier_set [] key value = record { key = key; value = value } ∷ []
carrier_set (h ∷ headers) key value =
    let rest = carrier_set headers key value in
    if equal_fold h.key key then record h { value = value } ∷ headers else h ∷ rest

unfoldable pub carrier_keys : List Header → List Bytes
carrier_keys [] = []
carrier_keys (h ∷ headers) = h.key ∷ carrier_keys headers

-- The propagator sets its fields, one by one.
unfoldable pub inject_kafka : List (Bytes × Bytes) → List Header → List Header
unfolding carrier_set
inject_kafka [] headers = headers
inject_kafka ((key, value) ∷ fields) headers = inject_kafka fields (carrier_set headers key value)

agrees : (a b c : Bytes) → equal_fold a b ≡ true → equal_fold b c ≡ true → equal_fold a c ≡ true
agrees a b c p q =
    (eq_iff (fold a) (fold c)).1 ((eq_iff (fold a) (fold b)).0 p ∙ (eq_iff (fold b) (fold c)).0 q)

flips : (a b : Bytes) → equal_fold a b ≡ true → equal_fold b a ≡ true
flips a b p = (eq_iff (fold b) (fold a)).1 (sym ((eq_iff (fold a) (fold b)).0 p))

differs : (a b c : Bytes) → equal_fold a b ≡ true → equal_fold b c ≡ false → equal_fold a c ≡ false
differs a b c p q = elim (Bool-cases (equal_fold a c)) [
  | inl same ↦ absurd (true≢false (sym (agrees b a c (flips a b p) same) ∙ q))
  | inr apart ↦ apart
]

differs_sym :
    (a b c : Bytes) → equal_fold a b ≡ false → equal_fold a c ≡ true → equal_fold b c ≡ false
differs_sym a b c p q = elim (Bool-cases (equal_fold b c)) [
  | inl same ↦ absurd (true≢false (sym (agrees a c b q (flips b c same)) ∙ p))
  | inr apart ↦ apart
]

-- Behind a set, the key is found in any case of its letters, with the value that was set; any other
-- key is found as before.
pub carrier_get-set :
    (headers : List Header) (key value other : Bytes)
    → carrier_get (carrier_set headers key value) other
      ≡ (if equal_fold key other then value else carrier_get headers other)
unfolding carrier_get carrier_set
carrier_get-set [] key value other = refl
carrier_get-set (h ∷ headers) key value other = elim (Bool-cases (equal_fold h.key key)) [
  | inl same ↦ elim (Bool-cases (equal_fold key other)) [
    | inl found ↦ rw (same, found, agrees h.key key other same found) refl
    | inr apart ↦ rw (same, apart, differs h.key key other same apart) refl
  ]
  | inr new ↦ elim (Bool-cases (equal_fold h.key other)) [
    | inl found ↦ rw (new, found, differs_sym h.key key other new found) refl
    | inr apart ↦ rw (new, apart) (carrier_get-set headers key value other)
  ]
]

-- ===== src/Text.antt =====
-- What the program uses of Go's `strings`, `unicode` and `path/filepath`, on strings as bytes.
-- A rune outside ASCII is recognised by its UTF-8 bytes.
pub mod Trim
pub mod Path
pub mod Number
pub mod Visible
pub mod Address
use goprofile.Prelude.{
  ℕ, ◌+◌, ◌-◌, Bool, true, false, [], ◌∷◌, List, reverse, ◌&&◌, ◌||◌, leb, ltb, if◌then◌else◌, ◌==◌,
  nat_eq, Bytes, length, take,
}

-- The one-byte runes of unicode.IsSpace.
unfoldable pub is_space1 : ℕ → Bool
is_space1 b = (leb 9 b && leb b 13) || b == 32

-- U+0085 and U+00A0.
unfoldable pub is_space2 : ℕ → ℕ → Bool
is_space2 a b = a == 0xC2 && (b == 0x85 || b == 0xA0)

-- U+1680, U+2000 to U+200A, U+2028, U+2029, U+202F, U+205F and U+3000.
unfoldable pub is_space3 : ℕ → ℕ → ℕ → Bool
is_space3 a b c =
    (a == 0xE1 && b == 0x9A && c == 0x80)
    || (a == 0xE2
        && b == 0x80
        && ((leb 0x80 c && leb c 0x8A) || c == 0xA8 || c == 0xA9 || c == 0xAF))
    || (a == 0xE2 && b == 0x81 && c == 0x9F)
    || (a == 0xE3 && b == 0x80 && c == 0x80)

-- The white space at the head of a string goes.
unfoldable pub trim_left : Bytes → Bytes
unfolding is_space1 is_space2 is_space3
trim_left [] = []
trim_left (a ∷ []) = if is_space1 a then [] else a ∷ []
trim_left (a ∷ b ∷ []) =
    let one = trim_left (b ∷ []) in
    if is_space1 a then one else if is_space2 a b then [] else a ∷ b ∷ []
trim_left (a ∷ b ∷ c ∷ s) =
    let one = trim_left (b ∷ c ∷ s) in
    let two = trim_left (c ∷ s) in
    let three = trim_left s in
    if is_space1 a
    then one
    else if is_space2 a b
    then two
    else if is_space3 a b c
    then three
    else a ∷ b ∷ c ∷ s

-- The same at the end of a string, which is read backwards.
unfoldable pub trim_back : Bytes → Bytes
unfolding is_space1 is_space2 is_space3
trim_back [] = []
trim_back (a ∷ []) = if is_space1 a then [] else a ∷ []
trim_back (a ∷ b ∷ []) =
    let one = trim_back (b ∷ []) in
    if is_space1 a then one else if is_space2 b a then [] else a ∷ b ∷ []
trim_back (a ∷ b ∷ c ∷ s) =
    let one = trim_back (b ∷ c ∷ s) in
    let two = trim_back (c ∷ s) in
    let three = trim_back s in
    if is_space1 a
    then one
    else if is_space2 b a
    then two
    else if is_space3 c b a
    then three
    else a ∷ b ∷ c ∷ s

-- strings.TrimSpace
unfoldable pub trim_space : Bytes → Bytes
unfolding trim_left trim_back
trim_space s = reverse (trim_back (reverse (trim_left s)))

-- strings.ToLower, as far as ASCII tells: the letters A to Z, and the two other runes whose lower
-- case is ASCII, U+0130 and U+212A. What is not ASCII after it is left as it was.
unfoldable pub to_lower : Bytes → Bytes
to_lower [] = []
to_lower (a ∷ []) = (if leb 65 a && leb a 90 then a + 32 else a) ∷ []
to_lower (a ∷ b ∷ []) =
    let one = to_lower (b ∷ []) in
    if leb 65 a && leb a 90
    then (a + 32) ∷ one
    else if a == 0xC4 && b == 0xB0
    then b'i' ∷ []
    else a ∷ one
to_lower (a ∷ b ∷ c ∷ s) =
    let one = to_lower (b ∷ c ∷ s) in
    let two = to_lower (c ∷ s) in
    let three = to_lower s in
    if leb 65 a && leb a 90
    then (a + 32) ∷ one
    else if a == 0xC4 && b == 0xB0
    then b'i' ∷ two
    else if a == 0xE2 && b == 0x84 && c == 0xAA
    then b'k' ∷ three
    else a ∷ one

-- strings.TrimRight with a cut set of one byte, on the reversed string.
unfoldable pub trim_byte : ℕ → Bytes → Bytes
trim_byte c [] = []
trim_byte c (a ∷ s) = let rest = trim_byte c s in if a == c then rest else a ∷ s

unfoldable pub trim_right : Bytes → ℕ → Bytes
unfolding trim_byte
trim_right s c = reverse (trim_byte c (reverse s))

-- Whether some rune of the string is one for which unicode.IsControl holds: U+0000 to U+001F, and
-- U+007F to U+009F.
unfoldable pub has_control : Bytes → Bool
has_control [] = false
has_control (a ∷ []) = ltb a 32 || a == 127
has_control (a ∷ b ∷ s) =
    ltb a 32 || a == 127 || (a == 0xC2 && leb 0x80 b && leb b 0x9F) || has_control (b ∷ s)

-- The bytes up to a separator, and those behind it if it occurs; strings.Split by it.
unfoldable pub split_on : ℕ → Bytes → Bytes → List Bytes
split_on c cur [] = reverse cur ∷ []
split_on c cur (a ∷ s) =
    let closed = split_on c [] s in
    let longer = split_on c (a ∷ cur) s in if a == c then reverse cur ∷ closed else longer

unfoldable pub split : Bytes → ℕ → List Bytes
unfolding split_on
split s c = split_on c [] s

-- strings.ReplaceAll of one byte by another.
unfoldable pub replace_all : Bytes → ℕ → ℕ → Bytes
replace_all [] old new = []
replace_all (a ∷ s) old new = (if a == old then new else a) ∷ replace_all s old new

-- Whether the first string begins with the second: strings.HasPrefix.
unfoldable pub has_prefix : Bytes → Bytes → Bool
has_prefix s [] = true
has_prefix [] (b ∷ t) = false
has_prefix (a ∷ s) (b ∷ t) = a == b && has_prefix s t

-- strings.HasSuffix and strings.TrimSuffix
unfoldable pub has_suffix : Bytes → Bytes → Bool
unfolding has_prefix
has_suffix s t = has_prefix (reverse s) (reverse t)

unfoldable pub trim_suffix : Bytes → Bytes → Bytes
unfolding has_suffix
trim_suffix s t = if has_suffix s t then take (length s - length t) s else s

-- The order of strings, by their bytes: s <= t.
unfoldable pub text_leb : Bytes → Bytes → Bool
text_leb [] t = true
text_leb (a ∷ s) [] = false
text_leb (a ∷ s) (b ∷ t) = ltb a b || (a == b && text_leb s t)

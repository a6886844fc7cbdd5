-- ===== src/Text/Path.antt =====
-- filepath.Base on Unix: the last element of a path.
use goprofile.Prelude.{Bytes, [], ◌∷◌, reverse, if◌then◌else◌, ◌==◌, nat_eq}
use goprofile.Text.{trim_byte}

-- The bytes up to the first slash.
unfoldable pub until_slash : Bytes → Bytes
until_slash [] = []
until_slash (a ∷ s) = let rest = until_slash s in if a == b'/' then [] else a ∷ rest

-- What is left of a path without its trailing slashes, which is empty if there was nothing else.
abbrev pub last_element : Bytes → Bytes
last_element [] = b'/' ∷ []
last_element (a ∷ s) = reverse (until_slash (a ∷ s))

unfoldable pub base : Bytes → Bytes
unfolding trim_byte until_slash
base [] = b'.' ∷ []
base (a ∷ s) = last_element (trim_byte b'/' (reverse (a ∷ s)))

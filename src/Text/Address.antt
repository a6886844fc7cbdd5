-- ===== src/Text/Address.antt =====
-- The host of net.SplitHostPort, or none for an error.
use goprofile.Prelude.{
  Bool, ◌&&◌, ◌||◌, not, Bytes, [], ◌∷◌, Option, none, some, any, reverse, ◌++◌, drop, length, ◌+◌,
  if◌then◌else◌, ◌==◌, nat_eq, text_eq, ℕ,
}

abbrev has_byte : ℕ → Bytes → Bool
has_byte c s = any (λ b. b == c) s

-- What stands before the first byte `c`.
unfoldable pub before : ℕ → Bytes → Bytes
before c [] = []
before c (a ∷ s) = let rest = before c s in if a == c then [] else a ∷ rest

-- What stands before the last colon.
abbrev before_port : Bytes → Bytes
before_port s = reverse (drop (length (before b':' (reverse s)) + 1) (reverse s))

-- `host` is what stands before the port.
abbrev plain_host : Bytes → Bytes → Option Bytes
plain_host host s =
    if has_byte b':' host || has_byte b'[' s || has_byte b']' s then none else some host

-- "[" and the rest of an address, with its port.
abbrev bracketed_host : Bytes → Bytes → Option Bytes
bracketed_host host rest =
    let inner = before b']' rest in
    let port = drop (length inner + 1) rest in
    if host == b'[' ∷ inner ++ b']' ∷ [] && not (has_byte b'[' rest) && not (has_byte b']' port)
    then some inner
    else none

abbrev host_of : Bytes → Bytes → Option Bytes
host_of host [] = none
host_of host (a ∷ s) = if a == b'[' then bracketed_host host s else plain_host host (a ∷ s)

unfoldable pub split_host_port : Bytes → Option Bytes
unfolding before
split_host_port s = if has_byte b':' s then host_of (before_port s) s else none

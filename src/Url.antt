-- ===== src/Url.antt =====
-- The percent-encoding of a path as internal/storage/s3.go writes it: url.PathEscape, and
-- strings.ReplaceAll of "%2F" by "/".
pub mod Decode
use p2p_container_distributi.Prelude.{
  ℕ, ◌+◌, ◌-◌, ◌/◌, ◌%◌, Bool, true, false, ◌&&◌, ◌||◌, List, [], ◌∷◌, ◌++◌, Bytes, ltb, leb, eqb,
  if◌then◌else◌,
}

-- One of 0-9 and A-F.
abbrev pub upper_hex : ℕ → ℕ
upper_hex d = if ltb d 10 then b'0' + d else b'A' + (d - 10)

-- The bytes that url.PathEscape leaves as they are.
abbrev pub is_plain : ℕ → Bool
is_plain c =
    (leb b'a' c && leb c b'z')
    || (leb b'A' c && leb c b'Z')
    || (leb b'0' c && leb c b'9')
    || eqb c b'-'
    || eqb c b'_'
    || eqb c b'.'
    || eqb c b'~'
    || eqb c b'$'
    || eqb c b'&'
    || eqb c b'+'
    || eqb c b':'
    || eqb c b'='
    || eqb c b'@'

-- The text of one byte.
abbrev pub escape_byte : ℕ → Bytes
escape_byte c = if is_plain c then c ∷ [] else b'%' ∷ upper_hex (c / 16) ∷ upper_hex (c % 16) ∷ []

-- url.PathEscape
unfoldable pub path_escape : Bytes → Bytes
path_escape [] = []
path_escape (c ∷ s) = escape_byte c ++ path_escape s

-- strings.ReplaceAll(u, "%2F", "/")
unfoldable pub slashes : Bytes → Bytes
slashes [] = []
slashes (a ∷ []) = a ∷ []
slashes (a ∷ b ∷ []) = a ∷ b ∷ []
slashes (a ∷ b ∷ c ∷ s) = elim (eqb a b'%' && (eqb b b'2' && eqb c b'F')) [
  | true ↦ b'/' ∷ slashes s
  | false ↦ a ∷ slashes (b ∷ c ∷ s)
]

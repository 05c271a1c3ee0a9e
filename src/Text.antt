-- ===== src/Text.antt =====
-- The functions of Go's `strings` package that the program calls, on byte strings.
pub mod Cut
pub mod Order
use p2p_container_distributi.Prelude.{
  ltb, ◌||◌, ◌+◌, ◌++◌, true, false, leb, ◌&&◌, ℕ, ◌≡◌, refl, Bool, ◌||◌, List, [], ◌∷◌, Bytes, eqb,
  bytes_eq, ◌==◌, Option, none, some, if◌then◌else◌, codes,
}

-- Adds a byte to the first part.
extend : ℕ → List Bytes → List Bytes
extend c [] = (c ∷ []) ∷ []
extend c (p ∷ ps) = (c ∷ p) ∷ ps

-- strings.Split(s, sep) for a separator of one byte
unfoldable pub split_on : ℕ → Bytes → List Bytes
unfolding extend
split_on sep [] = [] ∷ []
split_on sep (c ∷ s) = let rest = split_on sep s in if eqb c sep then [] ∷ rest else extend c rest

-- strings.SplitN(s, sep, 2): the two parts, or `none` where the separator is not there.
unfoldable pub cut_at : ℕ → Bytes → Option (Bytes × Bytes)
cut_at sep [] = none
cut_at sep (c ∷ s) =
    let rest = cut_at sep s in
    if eqb c sep then some ([], s) else elim rest [ none ↦ none | some (a, b) ↦ some (c ∷ a, b) ]

-- What is left of `s` after the prefix, if it has that prefix.
unfoldable pub strip_prefix : Bytes → Bytes → Option Bytes
strip_prefix [] s = some s
strip_prefix (p ∷ ps) [] = none
strip_prefix (p ∷ ps) (c ∷ s) = if eqb p c then strip_prefix ps s else none

-- strings.TrimPrefix(s, prefix)
unfoldable pub trim_prefix : Bytes → Bytes → Bytes
unfolding strip_prefix
trim_prefix prefix s = elim (strip_prefix prefix s) [ none ↦ s | some rest ↦ rest ]

-- ASCII white space: \t \n \v \f \r and the space.
is_space : ℕ → Bool
is_space c = eqb c 9 || eqb c 10 || eqb c 11 || eqb c 12 || eqb c 13 || eqb c 32

trim_left : Bytes → Bytes
unfolding is_space
trim_left [] = []
trim_left (c ∷ s) = let rest = trim_left s in if is_space c then rest else c ∷ s

trim_right : Bytes → Bytes
unfolding is_space
trim_right [] = []
trim_right (c ∷ s) = elim (trim_right s) [
  | [] ↦ if is_space c then [] else c ∷ []
  | b ∷ t ↦ c ∷ b ∷ t
]

-- strings.TrimSpace(s) of an ASCII text
unfoldable pub trim_space : Bytes → Bytes
unfolding trim_left trim_right
trim_space s = trim_right (trim_left s)

-- strings.HasSuffix(s, suffix)
unfoldable pub ends_with : Bytes → Bytes → Bool
ends_with suffix [] = suffix == []
ends_with suffix (c ∷ s) = suffix == (c ∷ s) || ends_with suffix s

-- strings.Index(s, pattern): what stands before the first occurrence, and after it.
unfoldable pub cut_around : Bytes → Bytes → Option (Bytes × Bytes)
unfolding strip_prefix
cut_around pattern [] = elim (strip_prefix pattern []) [ none ↦ none | some rest ↦ some ([], rest) ]
cut_around pattern (c ∷ s) =
    let later = cut_around pattern s in
    elim (strip_prefix pattern (c ∷ s)) [
      | some rest ↦ some ([], rest)
      | none ↦ elim later [ none ↦ none | some (a, b) ↦ some (c ∷ a, b) ]
    ]

-- strings.Join(parts, sep)
unfoldable pub join_with : Bytes → List Bytes → Bytes
join_with sep [] = []
join_with sep (p ∷ []) = p
join_with sep (p ∷ q ∷ ps) = p ++ (sep ++ join_with sep (q ∷ ps))

-- strings.ToLower of an ASCII text
unfoldable pub to_lower : Bytes → Bytes
to_lower [] = []
to_lower (c ∷ s) = (if leb b'A' c && leb c b'Z' then c + 32 else c) ∷ to_lower s

-- strings.HasPrefix(s, prefix)
unfoldable pub has_prefix : Bytes → Bytes → Bool
unfolding strip_prefix
has_prefix s prefix = elim (strip_prefix prefix s) [ none ↦ false | some rest ↦ true ]

-- The order of Go's strings: byte by byte, a prefix first.
unfoldable pub bytes_le : Bytes → Bytes → Bool
bytes_le [] t = true
bytes_le (a ∷ s) [] = false
bytes_le (a ∷ s) (b ∷ t) = ltb a b || (eqb a b && bytes_le s t)

split_peers : split_on b',' (codes "a=1, b=2,") ≡ codes "a=1" ∷ codes " b=2" ∷ [] ∷ []
unfolding split_on
split_peers = refl

trim_entry : trim_space (codes " b=2 ") ≡ codes "b=2"
unfolding trim_space
trim_entry = refl

cut_entry : cut_at b'=' (codes "b=2=3") ≡ some (codes "b", codes "2=3")
unfolding cut_at
cut_entry = refl

trim_blobs : trim_prefix (codes "/blobs/") (codes "/blobs/x") ≡ codes "x"
unfolding trim_prefix
trim_blobs = refl

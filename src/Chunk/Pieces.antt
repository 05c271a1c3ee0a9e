-- ===== src/Chunk/Pieces.antt =====
-- The specification of `Split` in pkg/chunk/chunk.go: a blob cut into pieces of one length, the
-- last one perhaps shorter.
use p2p_container_distributi.Prelude.{
  ℕ, zero, suc, ◌+◌, ◌≤◌, ◌<◌, ◌≡◌, refl, ap, ◌∙◌, false, List, [], ◌∷◌, ◌++◌, map, arith, Bytes,
  length, length-take, length-drop, take, drop, take-append-drop, ltb, leb, ltb→lt, leb→le,
  if◌then◌else◌, Bool-cases, inl, inr, append-nil,
}
use p2p_container_distributi.Chunk.{Chunk, chunk_id}

abbrev pub concat : List Bytes → Bytes
concat [] = []
concat (p ∷ ps) = p ++ concat ps

unfoldable pub pieces : ℕ → ℕ → Bytes → List Bytes
pieces zero n bs = []
pieces (suc fuel) n bs =
    let rest = pieces fuel n (drop n bs) in
    if leb n (length bs) then take n bs ∷ rest else if ltb 0 (length bs) then bs ∷ [] else []

-- Every piece but the last has `n` bytes, and the last has from one to `n`.
abbrev pub Cut : ℕ → List Bytes → Type 0
Cut n [] = Unit
Cut n (p ∷ []) = (0 < length p) × (length p ≤ n)
Cut n (p ∷ q ∷ ps) = (length p ≡ n) × Cut n (q ∷ ps)

-- The chunks of the pieces, counted from `i`.
abbrev pub number : (Bytes → Bytes) → ℕ → List Bytes → List Chunk
number sha256 i [] = []
number sha256 i (p ∷ ps) =
    record { id = chunk_id sha256 p; index = i; content = p } ∷ number sha256 (i + 1) ps

pub concat-pieces :
    (fuel n : ℕ) (bs : Bytes) → 0 < n → length bs < fuel → concat (pieces fuel n bs) ≡ bs
unfolding pieces
concat-pieces zero n bs pos h = elim h [ ]
concat-pieces (suc fuel) n bs pos h = elim (Bool-cases (leb n (length bs))) [
  | inl full ↦ rw full (
      ap (◌++◌ (take n bs))
        (concat-pieces fuel n (drop n bs) pos (omega (arith, length-drop n bs, leb→le _ _ full)))
      ∙ take-append-drop n bs)
  | inr short ↦ elim (Bool-cases (ltb 0 (length bs))) [
    | inl some_left ↦ rw (short, some_left) (append-nil bs)
    | inr none_left ↦ rw (short, none_left) (no_bytes bs none_left)
  ]
]
  where
    no_bytes : (bs : Bytes) → ltb 0 (length bs) ≡ false → [] ≡ bs
    no_bytes [] e = refl
    no_bytes (b ∷ bs) e = absurd (ground arith)

Cut-cons : (n : ℕ) (p : Bytes) (ps : List Bytes) → 0 < n → length p ≡ n → Cut n ps → Cut n (p ∷ ps)
Cut-cons n p [] pos h c = (omega arith, omega arith)
Cut-cons n p (q ∷ ps) pos h c = (h, c)

pub pieces-Cut : (fuel n : ℕ) (bs : Bytes) → 0 < n → Cut n (pieces fuel n bs)
unfolding pieces
pieces-Cut zero n bs pos = tt
pieces-Cut (suc fuel) n bs pos = elim (Bool-cases (leb n (length bs))) [
  | inl full ↦ rw full (
      Cut-cons n (take n bs) (pieces fuel n (drop n bs)) pos
        (omega (arith, length-take n bs, leb→le _ _ full)) (pieces-Cut fuel n (drop n bs) pos))
  | inr short ↦ elim (Bool-cases (ltb 0 (length bs))) [
    | inl some_left ↦ rw (short, some_left) (ltb→lt _ _ some_left, ground arith)
    | inr none_left ↦ rw (short, none_left) tt
  ]
]

pub map-content-number :
    (sha256 : Bytes → Bytes) (i : ℕ) (ps : List Bytes)
    → map (λ (c : Chunk). c.content) (number sha256 i ps) ≡ ps
map-content-number sha256 i [] = refl
map-content-number sha256 i (p ∷ ps) = ap (◌∷◌ p) (map-content-number sha256 (i + 1) ps)

pub map-id-number :
    (sha256 : Bytes → Bytes) (i : ℕ) (ps : List Bytes)
    → map (λ (c : Chunk). c.id) (number sha256 i ps) ≡ map (chunk_id sha256) ps
map-id-number sha256 i [] = refl
map-id-number sha256 i (p ∷ ps) = ap (◌∷◌ (chunk_id sha256 p)) (map-id-number sha256 (i + 1) ps)

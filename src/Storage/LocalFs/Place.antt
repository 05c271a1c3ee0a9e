-- ===== src/Storage/LocalFs/Place.antt =====
-- Where `path` of internal/storage/storage.go puts a chunk.
use p2p_container_distributi.Prelude.{
  ℕ, ◌≤◌, ◌≡◌, ◌≢◌, ◌-◌, length-append, sym, refl, ap, ◌∙◌, false, List, [], ◌∷◌, ◌++◌, arith,
  Bytes, bytes_eq, bytes_beq, codes, length, take, ltb, eqb, All, All-take, append_assoc,
}
use p2p_container_distributi.Prelude.Members.{All-imp}
use p2p_container_distributi.Text.{split_on}
use p2p_container_distributi.Chunk.Hex.{IsHexDigit}
use p2p_container_distributi.Storage.LocalFs.{FilePath, dir, base, push, push_all, join, path}

-- A name that filepath.Clean leaves as it is: not empty, no slash, and no dot in front.
abbrev pub IsPlain : Bytes → Type 0
IsPlain [] = ⊥
IsPlain (c ∷ s) = (eqb c b'.' ≡ false) × All (λ b. eqb b b'/' ≡ false) (c ∷ s)

split_on-plain : (s : Bytes) → All (λ b. eqb b b'/' ≡ false) s → split_on b'/' s ≡ s ∷ []
unfolding split_on
split_on-plain [] h = refl
split_on-plain (c ∷ s) h = rw (h.0, split_on-plain s h.1)

slashless : (s : Bytes) → IsPlain s → All (λ b. eqb b b'/' ≡ false) s
slashless [] h = absurd h
slashless (c ∷ s) h = h.1

push-plain : (p : FilePath) (s : Bytes) → IsPlain s → push p s ≡ p ++ s ∷ []
unfolding push bytes_beq
push-plain p [] h = absurd h
push-plain p (c ∷ s) h = rw h.0

join_one :
    (p : FilePath) (s : Bytes) (es : List Bytes)
    → IsPlain s
    → join p (s ∷ es) ≡ join (p ++ s ∷ []) es
unfolding join
join_one p [] es h = absurd h
join_one p (c ∷ s) es h =
    rw (split_on-plain (c ∷ s) h.1)
      (ap (λ q. join q es) (unfold push_all in push-plain p (c ∷ s) h))

IsHexDigit-plain : (c : ℕ) → IsHexDigit c → (eqb c b'.' ≡ false) × (eqb c b'/' ≡ false)
IsHexDigit-plain c h = ground arith

hex-IsPlain : (s : Bytes) → 1 ≤ length s → All IsHexDigit s → IsPlain s
hex-IsPlain [] h a = absurd (omega arith)
hex-IsPlain (c ∷ s) h a =
    ((IsHexDigit-plain c a.0).0, All-imp (c ∷ s) a (λ b k. (IsHexDigit-plain b k).1))

take_two : (s : Bytes) → 2 ≤ length s → 1 ≤ length (take 2 s)
take_two [] h = absurd (omega arith)
take_two (c ∷ []) h = absurd (omega arith)
take_two (c ∷ d ∷ s) h = omega arith

-- A chunk whose name is two or more hex digits lies below the root, in the directory of its first
-- two digits, in the file of its name.
pub path_hex :
    (root : FilePath) (chunk_id : Bytes)
    → 2 ≤ length chunk_id
    → All IsHexDigit chunk_id
    → path root chunk_id ≡ root ++ take 2 chunk_id ∷ chunk_id ∷ []
unfolding path
path_hex root chunk_id h a =
    let long : ltb (length chunk_id) 2 ≡ false = ground arith in
    rw long (
      join_one root (take 2 chunk_id) (chunk_id ∷ [])
        (hex-IsPlain (take 2 chunk_id) (take_two chunk_id h) (All-take _ 2 chunk_id a))
      ∙ join_one (root ++ take 2 chunk_id ∷ []) chunk_id [] (hex-IsPlain chunk_id (omega arith) a)
      ∙ (unfold join in append_assoc root (take 2 chunk_id ∷ []) (chunk_id ∷ [])))

pub base-append : (p : FilePath) (c d : Bytes) → base (p ++ c ∷ d ∷ []) ≡ d
unfolding base
base-append [] c d = refl
base-append (a ∷ []) c d = refl
base-append (a ∷ b ∷ p) c d = base-append (b ∷ p) c d

-- The name of the file is the chunk's, so that `List` returns it.
pub base-path :
    (root : FilePath) (chunk_id : Bytes)
    → 2 ≤ length chunk_id
    → All IsHexDigit chunk_id
    → base (path root chunk_id) ≡ chunk_id
base-path root chunk_id h a =
    ap base (path_hex root chunk_id h a) ∙ base-append root (take 2 chunk_id) chunk_id

length-dir : (p : FilePath) → length (dir p) ≡ length p - 1
unfolding dir
length-dir [] = refl
length-dir (c ∷ []) = refl
length-dir (c ∷ d ∷ p) = omega (arith, length-dir (d ∷ p))

climbs :
    (root : FilePath) (name : Bytes)
    → path root (codes "../../" ++ name) ≡ push_all (dir (dir (dir root))) (split_on b'/' name)
unfolding path join push_all push split_on bytes_beq
climbs root name =
    let long : ltb (length (codes "../../" ++ name)) 2 ≡ false = ground arith in rw long refl

-- A name that is not a hash can lead out of the root: below a root of two components or more,
-- `../../` and a plain name, which is not empty, does not begin with a dot and has no slash, gives
-- the file of that name in the root's third ancestor, which is neither the root nor below it.
pub path_escapes :
    (root : FilePath) (name : Bytes)
    → IsPlain name
    → 2 ≤ length root
    → (path root (codes "../../" ++ name) ≡ dir (dir (dir root)) ++ name ∷ [])
      × ((below : FilePath) → path root (codes "../../" ++ name) ≢ root ++ below)
path_escapes root name plain deep =
    let top = dir (dir (dir root)) in
    let place : path root (codes "../../" ++ name) ≡ top ++ name ∷ [] =
      climbs root name
      ∙ ap (push_all top) (split_on-plain name (slashless name plain))
      ∙ (unfold push_all in push-plain top name plain) in
    (
      place,
      λ below e. absurd (
          omega (
            arith,
            ap length (sym place ∙ e),
            length-append top (name ∷ []),
            length-append root below,
            length-dir (dir (dir root)),
            length-dir (dir root),
            length-dir root,
            deep,
          )),
    )

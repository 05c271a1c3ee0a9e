-- ===== src/Url/Decode.antt =====
-- Reading a percent-encoded path back, as a server does.
use p2p_container_distributi.Prelude.{
  ℕ, ◌+◌, ◌-◌, ◌*◌, ◌/◌, ◌%◌, ◌<◌, ◌≡◌, refl, sym, ap, ◌∙◌, true, false, ◌&&◌, [], ◌∷◌, ◌++◌, arith,
  Bytes, ltb, eqb, if◌then◌else◌, All, Bool-cases, inl, inr, All-append,
}
use p2p_container_distributi.Chunk.Hex.{IsByte}
use p2p_container_distributi.Url.{upper_hex, is_plain, escape_byte, path_escape, slashes}

-- The value of a hex digit, in upper or in lower case.
abbrev hex_value : ℕ → ℕ
hex_value c = if ltb c b'A' then c - b'0' else if ltb c b'a' then c - b'A' + 10 else c - b'a' + 10

-- The decoding of net/url for a path, where each percent sign stands before two hex digits; any
-- other text is an error there.
unfoldable pub unescape : Bytes → Bytes
unescape [] = []
unescape (a ∷ []) = a ∷ []
unescape (a ∷ b ∷ []) = a ∷ b ∷ []
unescape (a ∷ b ∷ c ∷ s) = elim (eqb a b'%') [
  | true ↦ (hex_value b * 16 + hex_value c) ∷ unescape s
  | false ↦ a ∷ unescape (b ∷ c ∷ s)
]

-- A byte that is no percent sign passes through both.
slashes-cons : (c : ℕ) (s : Bytes) → eqb c b'%' ≡ false → slashes (c ∷ s) ≡ c ∷ slashes s
unfolding slashes
slashes-cons c [] h = refl
slashes-cons c (a ∷ []) h = refl
slashes-cons c (a ∷ b ∷ s) h = rw (h, slashes)

pub unescape-cons : (c : ℕ) (s : Bytes) → eqb c b'%' ≡ false → unescape (c ∷ s) ≡ c ∷ unescape s
unfolding unescape
unescape-cons c [] h = refl
unescape-cons c (a ∷ []) h = refl
unescape-cons c (a ∷ b ∷ s) h = rw (h, unescape)

slashes_kept :
    (x y : ℕ) (s : Bytes)
    → (eqb x b'2' && eqb y b'F') ≡ false
    → slashes (b'%' ∷ x ∷ y ∷ s) ≡ b'%' ∷ slashes (x ∷ y ∷ s)
unfolding slashes
slashes_kept x y s h = rw (h, slashes)

slashes_escaped :
    (x y : ℕ) (s : Bytes)
    → (eqb x b'2' && eqb y b'F') ≡ false
    → eqb x b'%' ≡ false
    → eqb y b'%' ≡ false
    → slashes (b'%' ∷ x ∷ y ∷ s) ≡ b'%' ∷ x ∷ y ∷ slashes s
slashes_escaped x y s h hx hy =
    slashes_kept x y s h
    ∙ ap (◌∷◌ b'%') (slashes-cons x (y ∷ s) hx ∙ ap (◌∷◌ x) (slashes-cons y s hy))

upper_hex_digit :
    (d : ℕ) → d < 16 → (eqb (upper_hex d) b'%' ≡ false) × (hex_value (upper_hex d) ≡ d)
upper_hex_digit d h = ground arith

slash_only :
    (c : ℕ)
    → c < 256
    → eqb c b'/' ≡ false
    → (eqb (upper_hex (c / 16)) b'2' && eqb (upper_hex (c % 16)) b'F') ≡ false
slash_only c h ne = ground arith

decoded_plain :
    (c : ℕ) (s : Bytes) → eqb c b'%' ≡ false → unescape (slashes (c ∷ s)) ≡ c ∷ unescape (slashes s)
decoded_plain c s h = ap unescape (slashes-cons c s h) ∙ unescape-cons c (slashes s) h

decoded_hex :
    (c : ℕ) (s : Bytes)
    → c < 256
    → eqb c b'/' ≡ false
    → unescape (slashes (b'%' ∷ upper_hex (c / 16) ∷ upper_hex (c % 16) ∷ s))
      ≡ c ∷ unescape (slashes s)
decoded_hex c s h ne =
    let high = upper_hex_digit (c / 16) (omega arith) in
    let low = upper_hex_digit (c % 16) (omega arith) in
    ap unescape (slashes_escaped _ _ s (slash_only c h ne) high.0 low.0)
    ∙ (unfold unescape in ap (λ b. b ∷ unescape (slashes s)) (omega (arith, high.1, low.1)))

decoded_slash :
    (s : Bytes) → unescape (slashes (b'%' ∷ b'2' ∷ b'F' ∷ s)) ≡ b'/' ∷ unescape (slashes s)
decoded_slash s = (unfold slashes in unescape-cons b'/' (slashes s) refl)

-- What the two encodings make of one byte, for a decoder.
decoded_byte :
    (c : ℕ) (s : Bytes)
    → c < 256
    → unescape (slashes (escape_byte c ++ s)) ≡ c ∷ unescape (slashes s)
decoded_byte c s h = elim (Bool-cases (is_plain c)) [
  | inl plain ↦ rw plain (decoded_plain c s (ground arith))
  | inr special ↦ elim (Bool-cases (eqb c b'/')) [
    | inl slash ↦ let e : c ≡ b'/' = ground arith in rw e (decoded_slash s)
    | inr other ↦ rw special (decoded_hex c s h other)
  ]
]

-- A server that decodes the path of a request reads the name that was escaped, slashes included,
-- for every name of bytes.
pub unescape-path_escape : (s : Bytes) → All IsByte s → unescape (slashes (path_escape s)) ≡ s
unfolding path_escape
unescape-path_escape [] h = unfold slashes in (unfold unescape in refl)
unescape-path_escape (c ∷ s) h =
    decoded_byte c (path_escape s) h.0 ∙ ap (◌∷◌ c) (unescape-path_escape s h.1)

-- Different names have different paths.
path_escape_injective :
    (s t : Bytes)
    → All IsByte s
    → All IsByte t
    → slashes (path_escape s) ≡ slashes (path_escape t)
    → s ≡ t
path_escape_injective s t hs ht e =
    sym (unescape-path_escape s hs) ∙ ap unescape e ∙ unescape-path_escape t ht

-- A text without a percent sign in front stays as it is.
pub slashes-append :
    (p s : Bytes) → All (λ b. eqb b b'%' ≡ false) p → slashes (p ++ s) ≡ p ++ slashes s
slashes-append [] s h = refl
slashes-append (c ∷ p) s h = slashes-cons c (p ++ s) h.0 ∙ ap (◌∷◌ c) (slashes-append p s h.1)

-- Neither a query nor a fragment begins at this byte.
abbrev pub IsInPath : ℕ → Type 0
IsInPath b = (eqb b b'?' ≡ false) × (eqb b b'#' ≡ false)

escape_byte-IsInPath : (c : ℕ) → c < 256 → All IsInPath (escape_byte c)
escape_byte-IsInPath c h = ground arith

path_escape-IsInPath : (s : Bytes) → All IsByte s → All IsInPath (path_escape s)
unfolding path_escape
path_escape-IsInPath [] h = tt
path_escape-IsInPath (c ∷ s) h =
    All-append IsInPath (escape_byte c) (path_escape s) (escape_byte-IsInPath c h.0)
      (path_escape-IsInPath s h.1)

slashes-All : (P : ℕ → Type 0) (s : Bytes) → P b'/' → All P s → All P (slashes s)
unfolding slashes
slashes-All P [] p h = tt
slashes-All P (a ∷ []) p h = h
slashes-All P (a ∷ b ∷ []) p h = h
slashes-All P (a ∷ b ∷ c ∷ s) p h = elim (Bool-cases (eqb a b'%' && (eqb b b'2' && eqb c b'F'))) [
  | inl slash ↦ rw (slash, slashes) (p, slashes-All P s p h.1.1.1)
  | inr other ↦ rw (other, slashes) (h.0, slashes-All P (b ∷ c ∷ s) p h.1)
]

-- An escaped name has no byte at which a query or a fragment begins.
pub escaped-IsInPath : (s : Bytes) → All IsByte s → All IsInPath (slashes (path_escape s))
escaped-IsInPath s h = slashes-All IsInPath (path_escape s) (refl, refl) (path_escape-IsInPath s h)

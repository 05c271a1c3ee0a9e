-- ===== src/Text/Cut.antt =====
-- Where a pattern is found in a text.
use p2p_container_distributi.Prelude.{
  ℕ, ◌<◌, ◌≡◌, refl, ap, false, [], ◌∷◌, ◌++◌, arith, Bytes, eqb, none, some, Option-cases,
  Bool-cases, inl, inr, All, length, length-append,
}
use p2p_container_distributi.Text.{strip_prefix, cut_around, split_on}

strip_prefix-some : (p s r : Bytes) → strip_prefix p s ≡ some r → s ≡ p ++ r
unfolding strip_prefix
strip_prefix-some [] s r h = cc
strip_prefix-some (a ∷ p) [] r h = cc
strip_prefix-some (a ∷ p) (c ∷ s) r h = ground (arith, strip_prefix-some p s r)

pub strip_prefix-append : (p r : Bytes) → strip_prefix p (p ++ r) ≡ some r
unfolding strip_prefix
strip_prefix-append [] r = refl
strip_prefix-append (a ∷ p) r = ground (arith, strip_prefix-append p r)

-- What is found stands around the pattern.
cut_around-some : (p s a b : Bytes) → cut_around p s ≡ some (a, b) → s ≡ a ++ (p ++ b)
unfolding cut_around
cut_around-some p [] a b h = elim (Option-cases (strip_prefix p [])) [
  | inl no_match ↦ cc (rw (no_match, cut_around) at h)
  | inr (r, e) ↦ cc (rw (e, cut_around) at h, strip_prefix-some p [] r e)
]
cut_around-some p (c ∷ s) a b h = elim (Option-cases (strip_prefix p (c ∷ s))) [
  | inr (r, e) ↦ cc (rw (e, cut_around) at h, strip_prefix-some p (c ∷ s) r e)
  | inl no_match ↦ elim (Option-cases (cut_around p s)) [
    | inl absent ↦ cc (rw (no_match, cut_around, absent) at h)
    | inr ((a', b'), e) ↦
        let found = rw (no_match, cut_around, e) at h in cc (found, cut_around-some p s a' b' e)
  ]
]

-- The rest is shorter than the text.
pub cut_around-lt :
    (p s a b : Bytes) → 0 < length p → cut_around p s ≡ some (a, b) → length b < length s
cut_around-lt p s a b pos h =
    omega
      (arith, ap length (cut_around-some p s a b h), length-append a (p ++ b), length-append p b)

-- No byte of the text is `t`.
abbrev pub Lacks : ℕ → Bytes → Type 0
Lacks t = All (λ b. eqb b t ≡ false)

strip_prefix-none :
    (t : ℕ) (p g r : Bytes)
    → Lacks t p
    → strip_prefix p g ≡ none
    → strip_prefix p (g ++ t ∷ r) ≡ none
unfolding strip_prefix
strip_prefix-none t [] g r l h = cc
strip_prefix-none t (a ∷ p) [] r l h = rw l.0
strip_prefix-none t (a ∷ p) (c ∷ g) r l h = elim (Bool-cases (eqb a c)) [
  | inl same ↦ rw same (strip_prefix-none t p g r l.1 (rw same at h))
  | inr other ↦ rw other
]

strip_prefix-later :
    (t : ℕ) (p : Bytes) (c : ℕ) (g r : Bytes)
    → Lacks t p
    → strip_prefix (t ∷ p) (c ∷ g) ≡ none
    → strip_prefix (t ∷ p) (c ∷ (g ++ t ∷ r)) ≡ none
unfolding strip_prefix
strip_prefix-later t p c g r l h = elim (Bool-cases (eqb t c)) [
  | inl same ↦ rw same (strip_prefix-none t p g r l (rw same at h))
  | inr other ↦ rw other
]

cut_around-here : (p r : Bytes) → cut_around p (p ++ r) ≡ some ([], r)
cut_around-here [] [] = unfold cut_around in refl
cut_around-here [] (c ∷ r) = unfold cut_around in refl
cut_around-here (a ∷ p) r = unfold cut_around in rw (strip_prefix-append (a ∷ p) r, cut_around)

cut_around-none :
    (p : Bytes) (c : ℕ) (s : Bytes)
    → cut_around p (c ∷ s) ≡ none
    → (strip_prefix p (c ∷ s) ≡ none) × (cut_around p s ≡ none)
unfolding cut_around
cut_around-none p c s h = elim (Option-cases (strip_prefix p (c ∷ s))) [
  | inr (r, e) ↦ cc (rw (e, cut_around) at h)
  | inl no_match ↦ elim (Option-cases (cut_around p s)) [
    | inl absent ↦ (no_match, absent)
    | inr ((a, b), e) ↦ cc (rw (no_match, cut_around, e) at h)
  ]
]

cut_around-later :
    (p : Bytes) (c : ℕ) (s a b : Bytes)
    → strip_prefix p (c ∷ s) ≡ none
    → cut_around p s ≡ some (a, b)
    → cut_around p (c ∷ s) ≡ some (c ∷ a, b)
unfolding cut_around
cut_around-later p c s a b h e = rw (h, cut_around, e)

-- A pattern whose first byte does not come again in it is found behind a text without it.
pub cut_around-append :
    (t : ℕ) (p g r : Bytes)
    → Lacks t p
    → cut_around (t ∷ p) g ≡ none
    → cut_around (t ∷ p) (g ++ (t ∷ p ++ r)) ≡ some (g, r)
cut_around-append t p [] r l h = cut_around-here (t ∷ p) r
cut_around-append t p (c ∷ g) r l h =
    let (no_match, absent) = cut_around-none (t ∷ p) c g h in
    cut_around-later (t ∷ p) c (g ++ (t ∷ p ++ r)) g r (later no_match)
      (cut_around-append t p g r l absent)
  where
    later :
        strip_prefix (t ∷ p) (c ∷ g) ≡ none → strip_prefix (t ∷ p) (c ∷ (g ++ (t ∷ p ++ r))) ≡ none
    later no_match = strip_prefix-later t p c g (p ++ r) l no_match

-- The parts of a text around a separator.
pub split_on-append :
    (sep : ℕ) (a b : Bytes) → Lacks sep a → split_on sep (a ++ sep ∷ b) ≡ a ∷ split_on sep b
unfolding split_on
split_on-append sep [] b l = ground arith
split_on-append sep (c ∷ a) b l = rw (l.0, split_on-append sep a b l.1)

pub split_on-Lacks : (sep : ℕ) (a : Bytes) → Lacks sep a → split_on sep a ≡ a ∷ []
unfolding split_on
split_on-Lacks sep [] l = refl
split_on-Lacks sep (c ∷ a) l = rw (l.0, split_on-Lacks sep a l.1)

cut_around-skip :
    (p : Bytes) (c : ℕ) (s : Bytes)
    → strip_prefix p (c ∷ s) ≡ none
    → cut_around p s ≡ none
    → cut_around p (c ∷ s) ≡ none
unfolding cut_around
cut_around-skip p c s h e = rw (h, cut_around, e)

strip_prefix-other :
    (t : ℕ) (p : Bytes) (c : ℕ) (s : Bytes) → eqb t c ≡ false → strip_prefix (t ∷ p) (c ∷ s) ≡ none
unfolding strip_prefix
strip_prefix-other t p c s h = rw h

-- A pattern is not found in a text that lacks its first byte.
pub cut_around-Lacks : (t : ℕ) (p s : Bytes) → Lacks t s → cut_around (t ∷ p) s ≡ none
cut_around-Lacks t p [] l = unfold cut_around in refl
cut_around-Lacks t p (c ∷ s) l =
    cut_around-skip (t ∷ p) c s (strip_prefix-other t p c s (ground arith))
      (cut_around-Lacks t p s l.1)

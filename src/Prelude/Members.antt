-- ===== src/Prelude/Members.antt =====
-- From `All` to membership and back, and filters that keep all or nothing.
use Prim.Native.Nat.{ℕ, zero, suc}
use mathlib.Core.Path.{◌≡◌, refl, subst}
use mathlib.Core.Bool.{Bool, true, false}
use mathlib.Core.Logic.{inl, inr}
use mathlib.Core.List.{List, [], ◌∷◌, ◌++◌}
use native.Mathlib.Omega.{arith}
use p2p_container_distributi.Prelude.Tests.{Bool-cases}
use p2p_container_distributi.Prelude.Lists.{keep, All, take}
use p2p_container_distributi.Prelude.Equality.{
  Eq, ◌==◌, ==_iff, contains, contains-append, Distinct,
}

module _ {ℓ κ} {A : Type ℓ} {P : A → Type κ} where
  pub All-imp {μ} : {Q : A → Type μ} (xs : List A) → All P xs → ((a : A) → P a → Q a) → All Q xs
  All-imp [] h f = tt
  All-imp (x ∷ xs) h f = (f x h.0, All-imp xs h.1 f)

  -- What is true of the elements that pass.
  pub All-kept {μ} :
      {Q : A → Type μ} (p : A → Bool) (xs : List A)
      → All P xs
      → ((a : A) → P a → p a ≡ true → Q a)
      → All Q (keep p xs)
  All-kept p [] h f = tt
  All-kept p (x ∷ xs) h f = elim (Bool-cases (p x)) [
    | inl e ↦ rw e (f x h.0 e, All-kept p xs h.1 f)
    | inr e ↦ rw e (All-kept p xs h.1 f)
  ]

module _ {ℓ} {A : Type ℓ} where
  pub keep_every : (p : A → Bool) (xs : List A) → All (λ x. p x ≡ true) xs → keep p xs ≡ xs
  keep_every p [] h = refl
  keep_every p (x ∷ xs) h = ground (arith, keep_every p xs h.1)

  pub keep_nothing : (p : A → Bool) (xs : List A) → All (λ x. p x ≡ false) xs → keep p xs ≡ []
  keep_nothing p [] h = refl
  keep_nothing p (x ∷ xs) h = ground (arith, keep_nothing p xs h.1)

  -- A weaker test below a stronger one changes nothing.
  pub keep_absorb :
      (p q : A → Bool) (xs : List A)
      → ((a : A) → p a ≡ true → q a ≡ true)
      → keep p (keep q xs) ≡ keep p xs
  keep_absorb p q [] h = refl
  keep_absorb p q (x ∷ xs) h = ground (arith, keep_absorb p q xs h, h x)

module _ {ℓ} {A : Type ℓ} ⦃e : Eq A⦄ where
  pub All_at {κ} : (P : A → Type κ) (xs : List A) (a : A) → All P xs → contains xs a ≡ true → P a
  All_at P [] a h c = cc
  All_at P (x ∷ xs) a h c = elim (Bool-cases (x == a)) [
    | inl same ↦ subst P ((==_iff x a).0 same) h.0
    | inr other ↦ All_at P xs a h.1 (rw other at c)
  ]

  pub All-of_contains {κ} :
      (P : A → Type κ) (xs : List A) → ((a : A) → contains xs a ≡ true → P a) → All P xs
  All-of_contains P [] h = tt
  All-of_contains P (x ∷ xs) h =
      (h x (ground (arith, ==_iff x x)), All-of_contains P xs (λ a c. h a (ground arith)))

  -- The parts of a list without repetition.
  pub Distinct-left : (xs ys : List A) → Distinct (xs ++ ys) → Distinct xs
  Distinct-left [] ys d = tt
  Distinct-left (x ∷ xs) ys d = ground (arith, Distinct-left xs ys d.1, contains-append xs ys x)

  pub Distinct-apart : (xs ys : List A) → Distinct (xs ++ ys) → All (λ x. contains ys x ≡ false) xs
  Distinct-apart [] ys d = tt
  Distinct-apart (x ∷ xs) ys d = (ground (arith, contains-append xs ys x), Distinct-apart xs ys d.1)

  pub snoc-Distinct :
      (xs : List A) (x : A) → contains xs x ≡ false → Distinct xs → Distinct (xs ++ x ∷ [])
  snoc-Distinct [] x h d = (refl, tt)
  snoc-Distinct (y ∷ ys) x h d =
      ground (arith, snoc-Distinct ys x, contains-append ys (x ∷ []) y, ==_iff x y, ==_iff y x)

  contains_of_take :
      (n : ℕ) (xs : List A) (a : A) → contains xs a ≡ false → contains (take n xs) a ≡ false
  contains_of_take zero xs a h = refl
  contains_of_take (suc n) [] a h = refl
  contains_of_take (suc n) (x ∷ xs) a h = ground (arith, contains_of_take n xs a)

  pub take-Distinct : (n : ℕ) (xs : List A) → Distinct xs → Distinct (take n xs)
  take-Distinct zero xs d = tt
  take-Distinct (suc n) [] d = tt
  take-Distinct (suc n) (x ∷ xs) d = (contains_of_take n xs x d.0, take-Distinct n xs d.1)

-- ===== src/Prelude/Dedup.antt =====
-- First occurrences in order, and counting: what a loop with a `seen` set computes.
use Prim.Native.Nat.{◌≤◌, ◌<◌}
use mathlib.Core.Path.{◌≡◌, refl}
use mathlib.Core.Bool.{Bool, true, false, not, ◌&&◌}
use mathlib.Core.List.{List, [], ◌∷◌, ◌++◌}
use native.Mathlib.Omega.{arith}
use p2p_container_distributi.Prelude.Lists.{length, keep, All, keep_comm}
use p2p_container_distributi.Prelude.Equality.{
  Eq, ◌==◌, ==_iff, contains, contains-append, Distinct,
}

module _ {ℓ} {A : Type ℓ} ⦃e : Eq A⦄ where
  -- Every element but `x`.
  abbrev pub without : A → List A → List A
  without x = keep (λ y. not (y == x))

  -- The first occurrence of each element.
  abbrev pub dedup : List A → List A
  dedup [] = []
  dedup (x ∷ xs) = x ∷ without x (dedup xs)

  -- The elements that `acc` lacks.
  abbrev pub lacking : List A → List A → List A
  lacking acc = keep (λ y. not (contains acc y))

  pub contains-keep :
      (p : A → Bool) (xs : List A) (a : A) → contains (keep p xs) a ≡ (contains xs a && p a)
  contains-keep p [] a = refl
  contains-keep p (x ∷ xs) a = ground (arith, contains-keep p xs a, ==_iff x a)

  pub contains-dedup : (xs : List A) (a : A) → contains (dedup xs) a ≡ contains xs a
  contains-dedup [] a = refl
  contains-dedup (x ∷ xs) a = ground (
    arith,
    contains-keep (λ y. not (y == x)) (dedup xs) a,
    contains-dedup xs a,
    ==_iff x a,
    ==_iff a x,
  )

  pub keep-Distinct : (p : A → Bool) (xs : List A) → Distinct xs → Distinct (keep p xs)
  keep-Distinct p [] d = tt
  keep-Distinct p (x ∷ xs) d = ground (arith, keep-Distinct p xs d.1, contains-keep p xs x)

  pub dedup-Distinct : (xs : List A) → Distinct (dedup xs)
  dedup-Distinct [] = tt
  dedup-Distinct (x ∷ xs) = (
    ground (arith, contains-keep (λ y. not (y == x)) (dedup xs) x, ==_iff x x),
    keep-Distinct (λ y. not (y == x)) (dedup xs) (dedup-Distinct xs),
  )

  -- First occurrences commute with filtering.
  pub dedup-keep : (p : A → Bool) (xs : List A) → dedup (keep p xs) ≡ keep p (dedup xs)
  dedup-keep p [] = refl
  dedup-keep p (x ∷ xs) =
      ground (arith, dedup-keep p xs, keep_comm p (λ y. not (y == x)) (dedup xs), absent)
    where
      keep-without : (zs : List A) → p x ≡ false → keep p (without x zs) ≡ keep p zs
      keep-without [] h = refl
      keep-without (z ∷ zs) h = ground (arith, keep-without zs h, ==_iff z x)

      absent : p x ≡ false → keep p (without x (dedup xs)) ≡ keep p (dedup xs)
      absent = keep-without (dedup xs)

  lacking-snoc :
      (acc : List A) (x : A) (xs : List A) → lacking (acc ++ x ∷ []) xs ≡ lacking acc (without x xs)
  lacking-snoc acc x [] = refl
  lacking-snoc acc x (y ∷ ys) =
      ground (arith, lacking-snoc acc x ys, contains-append acc (x ∷ []) y, ==_iff x y, ==_iff y x)

  lacking-without :
      (acc : List A) (x : A) (xs : List A)
      → contains acc x ≡ true
      → lacking acc (without x xs) ≡ lacking acc xs
  lacking-without acc x [] h = refl
  lacking-without acc x (y ∷ ys) h = ground (arith, lacking-without acc x ys h, ==_iff y x)

  -- One step of the loop: an element that was seen adds nothing, any other one is the next.
  pub lacking-dedup_seen :
      (acc : List A) (x : A) (xs : List A)
      → contains acc x ≡ true
      → lacking acc (dedup (x ∷ xs)) ≡ lacking acc (dedup xs)
  lacking-dedup_seen acc x xs h = ground (arith, lacking-without acc x (dedup xs) h)

  pub lacking-dedup_new :
      (acc : List A) (x : A) (xs : List A)
      → contains acc x ≡ false
      → lacking acc (dedup (x ∷ xs)) ≡ x ∷ lacking (acc ++ x ∷ []) (dedup xs)
  lacking-dedup_new acc x xs h = ground (arith, lacking-snoc acc x (dedup xs))

  abbrev pub Within : List A → List A → Type 0
  Within ys = All (λ x. contains ys x ≡ true)

  without-Within :
      (x : A) (xs ys : List A) → contains xs x ≡ false → Within ys xs → Within (without x ys) xs
  without-Within x [] ys h w = tt
  without-Within x (z ∷ xs) ys h w = (
    ground (arith, contains-keep (λ y. not (y == x)) ys z, ==_iff z x),
    without-Within x xs ys (ground arith) w.1,
  )

  length-without_lt :
      (x : A) (ys : List A) → contains ys x ≡ true → length (without x ys) < length ys
  length-without_lt x [] h = cc
  length-without_lt x (y ∷ ys) h =
      ground (arith, length-without_lt x ys, length-keep-le' ys, ==_iff y x)
    where
      length-keep-le' : (zs : List A) → length (without x zs) ≤ length zs
      length-keep-le' [] = omega arith
      length-keep-le' (z ∷ zs) = ground (arith, length-keep-le' zs)

  -- Distinct elements of `ys` are no more than `ys` has.
  pub length-le_of_Within : (xs ys : List A) → Distinct xs → Within ys xs → length xs ≤ length ys
  length-le_of_Within [] ys d w = omega arith
  length-le_of_Within (x ∷ xs) ys d w = omega (
    arith,
    length-le_of_Within xs (without x ys) d.1 (without-Within x xs ys d.0 w.1),
    length-without_lt x ys w.0,
  )

  -- As many distinct elements of `ys` as `ys` has are all of them.
  pub Within-full :
      (xs ys : List A) (a : A)
      → Distinct xs
      → Within ys xs
      → length ys ≤ length xs
      → contains ys a ≡ true
      → contains xs a ≡ true
  Within-full xs ys a d w h c =
      ground (arith, λ (m : contains xs a ≡ false). length-le_of_Within (a ∷ xs) ys (m, d) (c, w))

  pub Within-contains :
      (xs ys : List A) (a : A) → Within ys xs → contains xs a ≡ true → contains ys a ≡ true
  Within-contains [] ys a w h = cc
  Within-contains (x ∷ xs) ys a w h = ground (arith, Within-contains xs ys a w.1, ==_iff x a)

  pub Within-of_contains :
      (xs ys : List A) → ((a : A) → contains xs a ≡ true → contains ys a ≡ true) → Within ys xs
  Within-of_contains [] ys h = tt
  Within-of_contains (x ∷ xs) ys h =
      (h x (ground (arith, ==_iff x x)), Within-of_contains xs ys (λ a m. h a (ground arith)))

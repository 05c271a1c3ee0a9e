-- ===== src/Prelude/Sorting.antt =====
-- Insertion sort by a Boolean order, and its laws on the numbers. The order is total there, so
-- every correct sort returns the same list.
use Prim.Native.Nat.{ℕ, suc, ◌≤◌}
use mathlib.Core.Path.{◌≡◌, refl, ap, ap₂, ◌∙◌}
use mathlib.Core.Bool.{Bool, true, false, ◌||◌}
use mathlib.Core.List.{List, [], ◌∷◌}
use native.Mathlib.Omega.{arith}
use p2p_container_distributi.Prelude.Tests.{leb, if◌then◌else◌}
use p2p_container_distributi.Prelude.Lists.{length, keep, All, All-keep}
use p2p_container_distributi.Prelude.Equality.{◌==◌, contains, nat_eq, Distinct}

module _ {ℓ} {A : Type ℓ} (le : A → A → Bool) where
  unfoldable pub insert_by : A → List A → List A
  insert_by x [] = x ∷ []
  insert_by x (y ∷ ys) = let rest = insert_by x ys in if le x y then x ∷ y ∷ ys else y ∷ rest

  unfoldable pub sort_by : List A → List A
  unfolding insert_by
  sort_by [] = []
  sort_by (x ∷ xs) = insert_by x (sort_by xs)

  length-insert_by : (x : A) (xs : List A) → length (insert_by x xs) ≡ suc (length xs)
  unfolding insert_by
  length-insert_by x [] = refl
  length-insert_by x (y ∷ ys) = ground (arith, length-insert_by x ys)

  length-sort_by : (xs : List A) → length (sort_by xs) ≡ length xs
  unfolding sort_by
  length-sort_by [] = refl
  length-sort_by (x ∷ xs) = length-insert_by x (sort_by xs) ∙ ap suc (length-sort_by xs)

  insert_by-All {κ} :
      (P : A → Type κ) (x : A) (xs : List A) → P x → All P xs → All P (insert_by x xs)
  unfolding insert_by
  insert_by-All P x [] px h = (px, tt)
  insert_by-All P x (y ∷ ys) px h = ground (arith, insert_by-All P x ys px h.1)

  sort_by-All {κ} : (P : A → Type κ) (xs : List A) → All P xs → All P (sort_by xs)
  unfolding sort_by
  sort_by-All P [] h = tt
  sort_by-All P (x ∷ xs) h = insert_by-All P x (sort_by xs) h.0 (sort_by-All P xs h.1)

abbrev pub AtLeast : ℕ → List ℕ → Type 0
AtLeast x = All (λ y. x ≤ y)

AtLeast-at : (x : ℕ) (xs : List ℕ) (a : ℕ) → AtLeast x xs → contains xs a ≡ true → x ≤ a
AtLeast-at x [] a h c = cc
AtLeast-at x (y ∷ ys) a h c = ground (arith, AtLeast-at x ys a h.1)

abbrev pub IsSorted : List ℕ → Type 0
IsSorted [] = Unit
IsSorted (x ∷ xs) = AtLeast x xs × IsSorted xs

unfoldable pub sort : List ℕ → List ℕ
sort = sort_by leb

AtLeast-trans : (a b : ℕ) (xs : List ℕ) → a ≤ b → AtLeast b xs → AtLeast a xs
AtLeast-trans a b [] h k = tt
AtLeast-trans a b (x ∷ xs) h k = (omega arith, AtLeast-trans a b xs h k.1)

insert-IsSorted : (x : ℕ) (xs : List ℕ) → IsSorted xs → IsSorted (insert_by leb x xs)
unfolding insert_by
insert-IsSorted x [] h = (tt, tt)
insert-IsSorted x (y ∷ ys) h =
    ground
      (arith, insert-IsSorted x ys h.1, AtLeast-trans x y ys, insert_by-All leb (λ z. y ≤ z) x ys)

pub sort-IsSorted : (xs : List ℕ) → IsSorted (sort xs)
unfolding sort sort_by
sort-IsSorted [] = tt
sort-IsSorted (x ∷ xs) = insert-IsSorted x (sort_by leb xs) (sort-IsSorted xs)

pub keep-IsSorted : (p : ℕ → Bool) (xs : List ℕ) → IsSorted xs → IsSorted (keep p xs)
keep-IsSorted p [] h = tt
keep-IsSorted p (x ∷ xs) h = ground (arith, keep-IsSorted p xs h.1, All-keep (λ y. x ≤ y) p xs h.0)

insert_least : (x : ℕ) (xs : List ℕ) → AtLeast x xs → insert_by leb x xs ≡ x ∷ xs
unfolding insert_by
insert_least x [] h = refl
insert_least x (y ∷ ys) h = ground arith

-- A sorted list is its own sort.
pub sort_of_IsSorted : (xs : List ℕ) → IsSorted xs → sort xs ≡ xs
unfolding sort sort_by
sort_of_IsSorted [] h = refl
sort_of_IsSorted (x ∷ xs) h = ap (insert_by leb x) (sort_of_IsSorted xs h.1) ∙ insert_least x xs h.0

keep-insert :
    (p : ℕ → Bool) (x : ℕ) (xs : List ℕ)
    → IsSorted xs
    → keep p (insert_by leb x xs) ≡ (if p x then insert_by leb x (keep p xs) else keep p xs)
unfolding insert_by
keep-insert p x [] h = ground arith
keep-insert p x (y ∷ ys) h = ground (
  arith,
  keep-insert p x ys h.1,
  insert_least x (keep p ys),
  All-keep (λ z. x ≤ z) p ys,
  AtLeast-trans x y ys,
)

-- Filtering commutes with sorting.
pub keep-sort : (p : ℕ → Bool) (xs : List ℕ) → keep p (sort xs) ≡ sort (keep p xs)
unfolding sort sort_by
keep-sort p [] = refl
keep-sort p (x ∷ xs) =
    ground (arith, keep-insert p x (sort_by leb xs) (sort-IsSorted xs), keep-sort p xs)

contains-insert :
    (x : ℕ) (xs : List ℕ) (a : ℕ) → contains (insert_by leb x xs) a ≡ (x == a || contains xs a)
unfolding insert_by
contains-insert x [] a = refl
contains-insert x (y ∷ ys) a = ground (arith, contains-insert x ys a)

pub contains-sort : (xs : List ℕ) (a : ℕ) → contains (sort xs) a ≡ contains xs a
unfolding sort sort_by
contains-sort [] a = refl
contains-sort (x ∷ xs) a = ground (arith, contains-insert x (sort_by leb xs) a, contains-sort xs a)

insert-Distinct :
    (x : ℕ) (xs : List ℕ) → contains xs x ≡ false → Distinct xs → Distinct (insert_by leb x xs)
unfolding insert_by
insert-Distinct x [] h d = (refl, tt)
insert-Distinct x (y ∷ ys) h d = ground (arith, insert-Distinct x ys, contains-insert x ys y)

pub sort-Distinct : (xs : List ℕ) → Distinct xs → Distinct (sort xs)
unfolding sort sort_by
sort-Distinct [] d = tt
sort-Distinct (x ∷ xs) d =
    insert-Distinct x (sort_by leb xs) (contains-sort xs x ∙ d.0) (sort-Distinct xs d.1)

pub sort-All {κ} : (P : ℕ → Type κ) (xs : List ℕ) → All P xs → All P (sort xs)
unfolding sort
sort-All P xs h = sort_by-All leb P xs h

pub length-sort : (xs : List ℕ) → length (sort xs) ≡ length xs
unfolding sort
length-sort xs = length-sort_by leb xs

-- A sorted list without repetition is known by its members.
pub Sorted-unique :
    (xs ys : List ℕ)
    → IsSorted xs
    → IsSorted ys
    → Distinct xs
    → Distinct ys
    → ((a : ℕ) → contains xs a ≡ contains ys a)
    → xs ≡ ys
Sorted-unique [] [] s t d e h = refl
Sorted-unique [] (y ∷ ys) s t d e h = absurd (ground (arith, h y))
Sorted-unique (x ∷ xs) [] s t d e h = absurd (ground (arith, h x))
Sorted-unique (x ∷ xs) (y ∷ ys) s t d e h =
    let same : x ≡ y = ground (arith, h x, h y, AtLeast-at x xs y s.0, AtLeast-at y ys x t.0) in
    ap₂ ◌∷◌ same (
      Sorted-unique xs ys s.1 t.1 d.1 e.1 (λ a.
        ground (arith, h a, ap (contains xs) {x = x} {y = a}, ap (contains ys) {x = y} {y = a})))

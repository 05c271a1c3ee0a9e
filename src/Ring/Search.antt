-- ===== src/Ring/Search.antt =====
-- Go's `sort.Search`, with which `GetN` of internal/hashring/hashring.go finds the first point at
-- or after a key: the same halving loop, on fuel.
use p2p_container_distributi.Prelude.{
  ℕ, zero, suc, ◌+◌, ◌-◌, ◌/◌, ◌≤◌, ◌<◌, ◌≡◌, refl, Bool, not, List, [], ◌∷◌, arith, ltb, leb,
  if◌then◌else◌, length, get_or, take, drop, keep,
}
use p2p_container_distributi.Prelude.Sorting.{IsSorted, AtLeast}

-- for i < j { h := (i+j)/2; if !f(h) { i = h+1 } else { j = h } }
search_from : ℕ → ℕ → ℕ → (ℕ → Bool) → ℕ
search_from zero i j f = i
search_from (suc fuel) i j f =
    let h = (i + j) / 2 in
    let upper = search_from fuel (h + 1) j f in
    let lower = search_from fuel i h f in if ltb i j then (if f h then lower else upper) else i

-- sort.Search(n, f)
unfoldable pub search_first : ℕ → (ℕ → Bool) → ℕ
unfolding search_from
search_first n f = search_from (suc n) 0 n f

search_from-rank :
    (fuel i j r : ℕ) (f : ℕ → Bool)
    → j - i < fuel
    → i ≤ r
    → r ≤ j
    → ((m : ℕ) → m < j → f m ≡ leb r m)
    → search_from fuel i j f ≡ r
unfolding search_from
search_from-rank zero i j r f h lo hi spec = elim h [ ]
search_from-rank (suc fuel) i j r f h lo hi spec = ground (
  arith,
  spec ((i + j) / 2),
  search_from-rank fuel ((i + j) / 2 + 1) j r f,
  λ (p : (i + j) / 2 < j). search_from-rank fuel i ((i + j) / 2) r f (omega arith) lo,
)

-- The points that lie before `h`, and the rest.
abbrev pub before : ℕ → List ℕ → List ℕ
before h = keep (λ x. ltb x h)

abbrev pub from : ℕ → List ℕ → List ℕ
from h = keep (λ x. not (ltb x h))

before_none : (h : ℕ) (xs : List ℕ) → AtLeast h xs → before h xs ≡ []
before_none h [] a = refl
before_none h (x ∷ xs) a = ground (arith, before_none h xs a.1)

from_all : (h : ℕ) (xs : List ℕ) → AtLeast h xs → from h xs ≡ xs
from_all h [] a = refl
from_all h (x ∷ xs) a = ground (arith, from_all h xs a.1)

weaken : (a b : ℕ) (xs : List ℕ) → a ≤ b → AtLeast b xs → AtLeast a xs
weaken a b [] h k = tt
weaken a b (x ∷ xs) h k = (omega arith, weaken a b xs h k.1)

AtLeast-get_or : (h : ℕ) (xs : List ℕ) (m : ℕ) → AtLeast h xs → m < length xs → h ≤ get_or xs m 0
AtLeast-get_or h [] m a l = absurd (omega arith)
AtLeast-get_or h (x ∷ xs) zero a l = a.0
AtLeast-get_or h (x ∷ xs) (suc m) a l = AtLeast-get_or h xs m a.1 (omega arith)

rank :
    (h : ℕ) (xs : List ℕ) (m : ℕ)
    → IsSorted xs
    → m < length xs
    → leb h (get_or xs m 0) ≡ leb (length (before h xs)) m
rank h [] m s l = absurd (omega arith)
rank h (x ∷ xs) zero s l = ground (arith, before_none h xs, weaken h x xs)
rank h (x ∷ xs) (suc m) s l =
    ground (arith, rank h xs m s.1, before_none h xs, weaken h x xs, AtLeast-get_or h xs m)

pub length-before-le : (h : ℕ) (xs : List ℕ) → length (before h xs) ≤ length xs
length-before-le h [] = omega arith
length-before-le h (x ∷ xs) = ground (arith, length-before-le h xs)

-- On a sorted list the search returns the number of elements that are less than `h`.
pub search_first-rank :
    (h : ℕ) (xs : List ℕ)
    → IsSorted xs
    → search_first (length xs) (λ i. leb h (get_or xs i 0)) ≡ length (before h xs)
unfolding search_first
search_first-rank h xs s =
    search_from-rank (suc (length xs)) 0 (length xs) (length (before h xs)) _ (omega arith)
      (omega arith) (length-before-le h xs) (λ m l. rank h xs m s l)

-- A sorted list is cut in two there.
pub take-before : (h : ℕ) (xs : List ℕ) → IsSorted xs → take (length (before h xs)) xs ≡ before h xs
take-before h [] s = refl
take-before h (x ∷ xs) s = ground (arith, take-before h xs s.1, before_none h xs, weaken h x xs)

pub drop-before : (h : ℕ) (xs : List ℕ) → IsSorted xs → drop (length (before h xs)) xs ≡ from h xs
drop-before h [] s = refl
drop-before h (x ∷ xs) s =
    ground (arith, drop-before h xs s.1, before_none h xs, weaken h x xs, from_all h xs)

search_first_middle :
    (search_first 4 (λ i. leb 20 (get_or (10 ∷ 20 ∷ 30 ∷ 40 ∷ []) i 0)) ≡ 1)
    × (search_first 4 (λ i. leb 41 (get_or (10 ∷ 20 ∷ 30 ∷ 40 ∷ []) i 0)) ≡ 4)
unfolding search_first
search_first_middle = (refl, refl)

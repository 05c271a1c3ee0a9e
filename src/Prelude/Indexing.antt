-- ===== src/Prelude/Indexing.antt =====
-- Reading and cutting lists at an index, and rotating them.
use native.Mathlib.Nat.{mod-eq_of_lt, mod-eq-sub-mod}
use Prim.Native.Nat.{ℕ, zero, suc, ◌+◌, ◌-◌, ◌%◌, ◌≤◌, ◌<◌}
use mathlib.Core.Path.{◌≡◌, refl, ap, sym, ◌∙◌}
use mathlib.Core.Logic.{inl, inr}
use mathlib.Core.List.{List, [], ◌∷◌, ◌++◌}
use native.Mathlib.Omega.{arith}
use p2p_container_distributi.Prelude.Tests.{ltb, ltb→lt, ltb→le, Bool-cases}
use p2p_container_distributi.Prelude.Lists.{
  length, get_or, take, drop, length-append, length-drop, length-take,
}

module _ {ℓ} {A : Type ℓ} where
  pub drop-get_or :
      (ys : List A) (i : ℕ) (d : A) → i < length ys → drop i ys ≡ get_or ys i d ∷ drop (suc i) ys
  drop-get_or [] i d h = absurd (omega arith)
  drop-get_or (y ∷ ys) zero d h = refl
  drop-get_or (y ∷ ys) (suc i) d h = drop-get_or ys i d (omega arith)

  get_or-append_left :
      (xs ys : List A) (i : ℕ) (d : A) → i < length xs → get_or (xs ++ ys) i d ≡ get_or xs i d
  get_or-append_left [] ys i d h = absurd (omega arith)
  get_or-append_left (x ∷ xs) ys zero d h = refl
  get_or-append_left (x ∷ xs) ys (suc i) d h = get_or-append_left xs ys i d (omega arith)

  get_or-append_right :
      (xs ys : List A) (i j : ℕ) (d : A) → i ≡ length xs + j → get_or (xs ++ ys) i d ≡ get_or ys j d
  get_or-append_right [] ys i j d h = let e : i ≡ j = omega arith in ap (λ k. get_or ys k d) e
  get_or-append_right (x ∷ xs) ys zero j d h = absurd (omega arith)
  get_or-append_right (x ∷ xs) ys (suc i) j d h = get_or-append_right xs ys i j d (omega arith)

  get_or-drop :
      (k : ℕ) (xs : List A) (i j : ℕ) (d : A) → j ≡ k + i → get_or (drop k xs) i d ≡ get_or xs j d
  get_or-drop zero xs i j d h = let e : i ≡ j = omega arith in ap (λ k. get_or xs k d) e
  get_or-drop (suc k) [] i j d h = refl
  get_or-drop (suc k) (x ∷ xs) i zero d h = absurd (omega arith)
  get_or-drop (suc k) (x ∷ xs) i (suc j) d h = get_or-drop k xs i j d (omega arith)

  get_or-take :
      (k : ℕ) (xs : List A) (i : ℕ) (d : A) → i < k → get_or (take k xs) i d ≡ get_or xs i d
  get_or-take zero xs i d h = absurd (omega arith)
  get_or-take (suc k) [] i d h = refl
  get_or-take (suc k) (x ∷ xs) zero d h = refl
  get_or-take (suc k) (x ∷ xs) (suc i) d h = get_or-take k xs i d (omega arith)

  -- The list that starts at index `k` and goes on from the front.
  abbrev pub rotate : ℕ → List A → List A
  rotate k xs = drop k xs ++ take k xs

  pub length-rotate : (k : ℕ) (xs : List A) → k ≤ length xs → length (rotate k xs) ≡ length xs
  length-rotate k xs h =
      omega (arith, length-append (drop k xs) (take k xs), length-drop k xs, length-take k xs)

  -- Its element `i` is the element `(k + i) % length xs` of the list.
  pub get_or-rotate :
      (k : ℕ) (xs : List A) (i : ℕ) (d : A)
      → k ≤ length xs
      → i < length xs
      → get_or (rotate k xs) i d ≡ get_or xs ((k + i) % length xs) d
  get_or-rotate k xs i d h l = elim (Bool-cases (ltb (k + i) (length xs))) [
    | inl low ↦
        let e : (k + i) % length xs ≡ k + i = mod-eq_of_lt (ltb→lt _ _ low) in
        get_or-append_left (drop k xs) (take k xs) i d
          (omega (arith, length-drop k xs, ltb→lt _ _ low))
        ∙ get_or-drop k xs i (k + i) d refl
        ∙ ap (λ m. get_or xs m d) (sym e)
    | inr high ↦
        let j : ℕ = k + i - length xs in
        let e : (k + i) % length xs ≡ j =
          mod-eq-sub-mod (ltb→le _ _ high) ∙ mod-eq_of_lt (omega arith) in
        get_or-append_right (drop k xs) (take k xs) i j d
          (omega (arith, length-drop k xs, ltb→le _ _ high))
        ∙ get_or-take k xs j d (omega (arith, ltb→le _ _ high))
        ∙ ap (λ m. get_or xs m d) (sym e)
  ]

  pub take-append_of_length-eq : (n : ℕ) (xs ys : List A) → length xs ≡ n → take n (xs ++ ys) ≡ xs
  take-append_of_length-eq zero [] ys h = refl
  take-append_of_length-eq zero (x ∷ xs) ys h = absurd (omega arith)
  take-append_of_length-eq (suc n) [] ys h = absurd (omega arith)
  take-append_of_length-eq (suc n) (x ∷ xs) ys h =
      ap (◌∷◌ x) (take-append_of_length-eq n xs ys (omega arith))

  pub drop_of_length-le : (n : ℕ) (xs : List A) → length xs ≤ n → drop n xs ≡ []
  drop_of_length-le zero [] h = refl
  drop_of_length-le zero (x ∷ xs) h = absurd (omega arith)
  drop_of_length-le (suc n) [] h = refl
  drop_of_length-le (suc n) (x ∷ xs) h = drop_of_length-le n xs (omega arith)

-- ===== src/Prelude/Orders.antt =====
-- A sort gives one list for every order of its input, where no two elements are equal in the order
-- it sorts by; and the byte order of strings is such an order.
use mathlib.Core.List.{Perm, Permᴰ}
use mathlib.Core.Logic.{∥∥₁_elim}
use p2p_container_distributi.Prelude.{
  ◌≡◌, refl, ap₂, subst, ◌∙◌, Bool, true, not, List, [], ◌∷◌, arith, bytes_eq, All,
}
use p2p_container_distributi.Prelude.Sorting.{insert_by, sort_by}

module _ {ℓ κ} {A : Type ℓ} (P : A → Type κ) where
  All-Permᴰ : {xs ys : List A} → Permᴰ xs ys → All P xs → All P ys
  All-Permᴰ Permᴰ.nil h = tt
  All-Permᴰ (Permᴰ.cons e d) h = (subst P e h.0, All-Permᴰ d h.1)
  All-Permᴰ (Permᴰ.swap e₁ e₂) h = (subst P e₂ h.1.0, (subst P e₁ h.0, h.1.1))
  All-Permᴰ (Permᴰ.trans d₁ d₂) h = All-Permᴰ d₂ (All-Permᴰ d₁ h)

module _ {ℓ} {A : Type ℓ} (le : A → A → Bool) where
  -- Each is above or below the other, not both.
  abbrev pub Apart : A → A → Type 0
  Apart x y = le x y ≡ not (le y x)

  abbrev pub AllApart : List A → Type 0
  AllApart [] = Unit
  AllApart (x ∷ xs) = All (Apart x) xs × AllApart xs

  AllApart-Permᴰ : {xs ys : List A} → Permᴰ xs ys → AllApart xs → AllApart ys
  AllApart-Permᴰ Permᴰ.nil h = tt
  AllApart-Permᴰ (Permᴰ.cons {l₂ = l₂} e d) h =
      (subst (λ z. All (Apart z) l₂) e (All-Permᴰ _ d h.0), AllApart-Permᴰ d h.1)
  AllApart-Permᴰ (Permᴰ.swap {a = a} {b = b} {l = l} e₁ e₂) h =
      let flipped : Apart b a = let apart = h.0.0 in ground arith in
      subst AllApart (ap₂ (λ x y. x ∷ y ∷ l) e₂ e₁) ((flipped, h.1.0), (h.0.1, h.1.1))
  AllApart-Permᴰ (Permᴰ.trans d₁ d₂) h = AllApart-Permᴰ d₂ (AllApart-Permᴰ d₁ h)

  module _ (trans : (a b c : A) → le a b ≡ true → le b c ≡ true → le a c ≡ true) where
    insert_by-insert_by :
        (x y : A) (zs : List A)
        → Apart x y
        → insert_by le x (insert_by le y zs) ≡ insert_by le y (insert_by le x zs)
    unfolding insert_by
    insert_by-insert_by x y [] h = ground arith
    insert_by-insert_by x y (z ∷ zs) h =
        ground (arith, insert_by-insert_by x y zs h, trans x y z, trans y x z)

    sort_by-Permᴰ : {xs ys : List A} → Permᴰ xs ys → AllApart xs → sort_by le xs ≡ sort_by le ys
    unfolding sort_by
    sort_by-Permᴰ Permᴰ.nil h = refl
    sort_by-Permᴰ (Permᴰ.cons e d) h = ap₂ (insert_by le) e (sort_by-Permᴰ d h.1)
    sort_by-Permᴰ (Permᴰ.swap {a = a} {b = b} {l = l} e₁ e₂) h =
        insert_by-insert_by a b (sort_by le l) h.0.0
        ∙ ap₂ (λ x y. insert_by le x (insert_by le y (sort_by le l))) e₂ e₁
    sort_by-Permᴰ (Permᴰ.trans d₁ d₂) h =
        sort_by-Permᴰ d₁ h ∙ sort_by-Permᴰ d₂ (AllApart-Permᴰ d₁ h)

    -- A sort does not tell the orders of its input apart.
    pub sort_by-Perm :
        ((a b : List A) → IsProp (a ≡ b))
        → {xs ys : List A} → Perm xs ys
        → AllApart xs
        → sort_by le xs ≡ sort_by le ys
    sort_by-Perm is_set p h = ∥∥₁_elim p (is_set _ _) (λ d. sort_by-Permᴰ d h)

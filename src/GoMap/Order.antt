-- ===== src/GoMap/Order.antt =====
-- Go walks a map in no set order: what a lookup finds does not depend on it.
use mathlib.Core.List.{Permᴰ}
use p2p_container_distributi.Prelude.{
  ◌≡◌, refl, sym, ap, ap₂, ◌∙◌, subst, ◌||◌, List, ◌∷◌, map, some, if◌then◌else◌, arith, Eq, ◌==◌,
  ==_iff, contains, Distinct,
}
use p2p_container_distributi.GoMap.{get, keys}

module _ {ℓ κ} {A : Type ℓ} {K : Type κ} ⦃e : Eq K⦄ (f : A → K) where
  pub contains-map-Permᴰ :
      (k : K) {xs ys : List A} → Permᴰ xs ys → contains (map f xs) k ≡ contains (map f ys) k
  contains-map-Permᴰ k Permᴰ.nil = refl
  contains-map-Permᴰ k (Permᴰ.cons same d) =
      ap₂ (λ a r. f a == k || r) same (contains-map-Permᴰ k d)
  contains-map-Permᴰ k (Permᴰ.swap {a = a} {b = b} {l = l} e₁ e₂) =
      let flip : (f a == k || (f b == k || contains (map f l) k))
          ≡ (f b == k || (f a == k || contains (map f l) k)) =
        ground arith in
      flip ∙ ap₂ (λ x y. f x == k || (f y == k || contains (map f l) k)) e₂ e₁
  contains-map-Permᴰ k (Permᴰ.trans d₁ d₂) = contains-map-Permᴰ k d₁ ∙ contains-map-Permᴰ k d₂

  pub Distinct-map-Permᴰ :
      {xs ys : List A} → Permᴰ xs ys → Distinct (map f xs) → Distinct (map f ys)
  Distinct-map-Permᴰ Permᴰ.nil h = tt
  Distinct-map-Permᴰ (Permᴰ.cons {a = a} {l₂ = l₂} same d) h =
      subst (λ z. Distinct (map f (z ∷ l₂))) same
        (sym (contains-map-Permᴰ (f a) d) ∙ h.0, Distinct-map-Permᴰ d h.1)
  Distinct-map-Permᴰ (Permᴰ.swap {a = a} {b = b} {l = l} e₁ e₂) h =
      subst (λ zs. Distinct (map f zs)) (ap₂ (λ x y. x ∷ y ∷ l) e₂ e₁)
        (ground (arith, ==_iff (f a) (f b), ==_iff (f b) (f a)))
  Distinct-map-Permᴰ (Permᴰ.trans d₁ d₂) h = Distinct-map-Permᴰ d₂ (Distinct-map-Permᴰ d₁ h)

module _ {ℓ κ} {K : Type ℓ} {V : Type κ} ⦃e : Eq K⦄ where
  pub get-Permᴰ :
      (k : K) {m m' : List (K × V)} → Permᴰ m m' → Distinct (keys m) → get k m ≡ get k m'
  unfolding get
  get-Permᴰ k Permᴰ.nil h = refl
  get-Permᴰ k (Permᴰ.cons {a = a} {l₁ = l₁} {l₂ = l₂} same d) h =
      ap (λ r. if a.0 == k then some a.1 else r) (get-Permᴰ k d h.1) ∙ ap (λ z. get k (z ∷ l₂)) same
  get-Permᴰ k (Permᴰ.swap {a = (i, v)} {b = (j, w)} {l = l} e₁ e₂) h =
      let flip : get k ((i, v) ∷ (j, w) ∷ l) ≡ get k ((j, w) ∷ (i, v) ∷ l) =
        ground (arith, ==_iff i k, ==_iff j k, ==_iff j i, ==_iff i j) in
      flip ∙ ap₂ (λ x y. get k (x ∷ y ∷ l)) e₂ e₁
  get-Permᴰ k (Permᴰ.trans d₁ d₂) h =
      get-Permᴰ k d₁ h ∙ get-Permᴰ k d₂ (Distinct-map-Permᴰ (λ r. r.0) d₁ h)

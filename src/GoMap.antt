-- ===== src/GoMap.antt =====
-- Go's built-in map as an association list, and a set of strings (`map[string]bool`) as the list
-- of its members. The order of the entries stands for the order in which Go happens to iterate.
pub mod Order
use p2p_container_distributi.Prelude.{
  ◌≡◌, refl, true, not, List, [], ◌∷◌, ◌++◌, map, Option, none, some, arith, Eq, ◌==◌, ==_iff,
  contains, keep, if◌then◌else◌, Distinct, ◌||◌, Bool-cases, inl, inr,
}

module _ {ℓ κ} {K : Type ℓ} {V : Type κ} ⦃e : Eq K⦄ where
  -- v, ok := m[k]
  unfoldable pub get : K → List (K × V) → Option V
  get k [] = none
  get k ((j, v) ∷ m) = if j == k then some v else get k m

  -- m[k] = v
  unfoldable pub put : K → V → List (K × V) → List (K × V)
  put k v [] = (k, v) ∷ []
  put k v ((j, w) ∷ m) = if j == k then (k, v) ∷ m else (j, w) ∷ put k v m

  -- delete(m, k)
  unfoldable pub delete : K → List (K × V) → List (K × V)
  delete k [] = []
  delete k ((j, v) ∷ m) = let rest = delete k m in if j == k then rest else (j, v) ∷ rest

  -- The keys, in iteration order.
  abbrev pub keys : List (K × V) → List K
  keys = map (λ r. r.0)

  pub get-put :
      (k j : K) (v : V) (m : List (K × V))
      → get j (put k v m) ≡ (if k == j then some v else get j m)
  unfolding get put
  get-put k j v [] = refl
  get-put k j v ((i, w) ∷ m) = ground (arith, ==_iff k j, ==_iff i k, ==_iff i j, get-put k j v m)

  pub get-delete :
      (k j : K) (m : List (K × V)) → get j (delete k m) ≡ (if k == j then none else get j m)
  unfolding get delete
  get-delete k j [] = ground arith
  get-delete k j ((i, w) ∷ m) = ground (arith, ==_iff k j, ==_iff i k, ==_iff i j, get-delete k j m)

  pub contains-keys-put :
      (k j : K) (v : V) (m : List (K × V))
      → contains (keys (put k v m)) j ≡ (k == j || contains (keys m) j)
  unfolding put
  contains-keys-put k j v [] = refl
  contains-keys-put k j v ((i, w) ∷ m) =
      ground (arith, ==_iff k j, ==_iff i k, ==_iff i j, contains-keys-put k j v m)

  pub put-Distinct :
      (k : K) (v : V) (m : List (K × V)) → Distinct (keys m) → Distinct (keys (put k v m))
  unfolding put
  put-Distinct k v [] d = (refl, tt)
  put-Distinct k v ((i, w) ∷ m) d =
      ground (arith, put-Distinct k v m d.1, contains-keys-put k i v m, ==_iff i k, ==_iff k i)

  pub contains-keys-get :
      (k : K) (m : List (K × V)) (v : V) → get k m ≡ some v → contains (keys m) k ≡ true
  unfolding get
  contains-keys-get k [] v h = cc
  contains-keys-get k ((i, w) ∷ m) v h = ground (arith, contains-keys-get k m v)

  pub get_of_contains-keys :
      (k : K) (m : List (K × V)) → contains (keys m) k ≡ true → (v : V) × (get k m ≡ some v)
  unfolding get
  get_of_contains-keys k [] h = cc
  get_of_contains-keys k ((i, w) ∷ m) h = elim (Bool-cases (i == k)) [
    | inl here ↦ (w, rw here refl)
    | inr there ↦ (let (v, found) = get_of_contains-keys k m (rw there at h) in (v, rw there found))
  ]

module _ {ℓ} {A : Type ℓ} ⦃e : Eq A⦄ where
  -- s[a] = true
  unfoldable pub add_member : A → List A → List A
  add_member a s = if contains s a then s else s ++ a ∷ []

  -- delete(s, a)
  unfoldable pub remove_member : A → List A → List A
  remove_member a = keep (λ x. not (x == a))

-- ===== src/Ring/Points.antt =====
-- The loops of `AddNode` and `RemoveNode` of internal/hashring/hashring.go, in closed form.
use p2p_container_distributi.Prelude.{
  ℕ, zero, suc, ◌+◌, ◌≡◌, refl, sym, ap, ◌∙◌, Bool, false, not, ◌&&◌, List, [], ◌∷◌, ◌++◌, arith,
  Bytes, bytes_eq, nat_eq, ◌==◌, contains, Distinct, keep, All, length, if◌then◌else◌, Bool-cases,
  inl, inr, append_assoc, append-nil,
}
use p2p_container_distributi.GoMap.{put, delete, get-put, get-delete}
use p2p_container_distributi.Ring.{Ring, owner, hash_key, virtual_key, add_points, remove_points}

-- A test that agrees on the elements of a list keeps the same ones.
pub keep_agree {ℓ} :
    {A : Type ℓ} (p q : A → Bool) (xs : List A) → All (λ x. p x ≡ q x) xs → keep p xs ≡ keep q xs
keep_agree p q [] h = refl
keep_agree p q (x ∷ xs) h = ground (arith, keep_agree p q xs h.1)

-- What is true of every element but `a`, of a list without `a`, is true of all.
All-but :
    {P : ℕ → Type 0} (a : ℕ) (xs : List ℕ)
    → contains xs a ≡ false
    → ((x : ℕ) → (x == a) ≡ false → P x)
    → All P xs
All-but a [] c h = tt
All-but a (x ∷ xs) c h = (h x (ground arith), All-but a xs (ground arith) h)

owner-put :
    (r : Ring) (h : ℕ) (x : Bytes) (g : ℕ) (hs : List ℕ)
    → owner (record r { hash_to_node = put h x r.hash_to_node; sorted_hashes = hs }) g
      ≡ (if h == g then x else owner r g)
unfolding owner
owner-put r h x g hs = ground (arith, get-put h g x r.hash_to_node)

module _ (sha1 : Bytes → Bytes) where
  -- The positions of virtual nodes `i`, `i + 1`, … of a node.
  unfoldable pub points : ℕ → ℕ → Bytes → List ℕ
  points zero i node_id = []
  points (suc rounds) i node_id =
      hash_key sha1 (virtual_key node_id i) ∷ points rounds (i + 1) node_id

  pub length-points : (rounds i : ℕ) (x : Bytes) → length (points rounds i x) ≡ rounds
  unfolding points
  length-points zero i x = refl
  length-points (suc rounds) i x = ap suc (length-points rounds (i + 1) x)

  pub hashes-add_points :
      (rounds i : ℕ) (x : Bytes) (r : Ring)
      → (add_points sha1 rounds i x r).sorted_hashes ≡ r.sorted_hashes ++ points rounds i x
  unfolding add_points points
  hashes-add_points zero i x r = sym (append-nil r.sorted_hashes)
  hashes-add_points (suc rounds) i x r =
      hashes-add_points rounds (i + 1) x _ ∙ append_assoc r.sorted_hashes _ _

  pub nodes-add_points :
      (rounds i : ℕ) (x : Bytes) (r : Ring) → (add_points sha1 rounds i x r).nodes ≡ r.nodes
  unfolding add_points
  nodes-add_points zero i x r = refl
  nodes-add_points (suc rounds) i x r = nodes-add_points rounds (i + 1) x _

  pub owner-add_points :
      (rounds i : ℕ) (x : Bytes) (r : Ring) (h : ℕ)
      → owner (add_points sha1 rounds i x r) h
        ≡ (if contains (points rounds i x) h then x else owner r h)
  unfolding add_points points
  owner-add_points zero i x r h = refl
  owner-add_points (suc rounds) i x r h =
      owner-add_points rounds (i + 1) x _ h
      ∙ ground (
        arith,
        owner-put r (hash_key sha1 (virtual_key x i)) x h
            (r.sorted_hashes ++ hash_key sha1 (virtual_key x i) ∷ []),
      )

pub nodes-remove_points :
    (x : Bytes) (hs kept : List ℕ) (r : Ring) → (remove_points x hs kept r).nodes ≡ r.nodes
unfolding remove_points
nodes-remove_points x [] kept r = refl
nodes-remove_points x (h ∷ hs) kept r = nodes-remove_points x hs _ _

-- The points of a node, and those of the others.
abbrev pub others : Ring → Bytes → List ℕ → List ℕ
others r x = keep (λ h. not (owner r h == x))

owner_deleted :
    (r : Ring) (b : Bool) (h g : ℕ)
    → owner (record r { hash_to_node = if b then delete h r.hash_to_node else r.hash_to_node }) g
      ≡ (if b && h == g then [] else owner r g)
unfolding owner
owner_deleted r b h g = ground (arith, get-delete h g r.hash_to_node)

pub hashes-remove_points :
    (x : Bytes) (hs kept : List ℕ) (r : Ring)
    → Distinct hs
    → (remove_points x hs kept r).sorted_hashes ≡ kept ++ others r x hs
unfolding remove_points
hashes-remove_points x [] kept r d = sym (append-nil kept)
hashes-remove_points x (h ∷ hs) kept r d =
    let hit : Bool = owner r h == x in
    hashes-remove_points x hs _ _ d.1
    ∙ ap (λ zs. (if hit then kept else kept ++ h ∷ []) ++ zs)
        (keep_agree _ (λ g. not (owner r g == x)) hs
          (All-but h hs d.0 λ g e. ground (arith, owner_deleted r (owner r h == x) h g)))
    ∙ elim (Bool-cases hit) [ inl e ↦ rw e | inr e ↦ rw e (append_assoc kept (h ∷ []) _) ]

pub owner-remove_points :
    (x : Bytes) (hs kept : List ℕ) (r : Ring) (g : ℕ)
    → Distinct hs
    → owner (remove_points x hs kept r) g
      ≡ (if contains hs g && owner r g == x then [] else owner r g)
unfolding remove_points
owner-remove_points x [] kept r g d = unfold owner in refl
owner-remove_points x (h ∷ hs) kept r g d =
    owner-remove_points x hs _ _ g d.1 ∙ ground (arith, owner_deleted r (owner r h == x) h g)

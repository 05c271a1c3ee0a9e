-- ===== src/Ring/Join.antt =====
-- What `AddNode` of internal/hashring/hashring.go does to a well-formed ring.
use p2p_container_distributi.Prelude.{
  ℕ, ◌≡◌, refl, ap, ap₂, ◌∙◌, true, false, List, [], ◌∷◌, ◌++◌, arith, Bytes, bytes_eq, nat_eq,
  ◌==◌, ==_iff, contains, contains-append, length, keep, keep-append, All, All-append,
  if◌then◌else◌, Bool-cases, inl, inr, append-nil,
}
use p2p_container_distributi.Prelude.Sorting.{
  sort, sort-IsSorted, sort-Distinct, keep-sort, sort-All, length-sort,
}
use p2p_container_distributi.Prelude.Members.{
  All-imp, All_at, All-of_contains, keep_every, keep_nothing, Distinct-apart, snoc-Distinct,
}
use p2p_container_distributi.GoMap.{add_member}
use p2p_container_distributi.Ring.{Ring, owner, virtual_nodes_per_node, add_node}
use p2p_container_distributi.Ring.Points.{
  points, length-points, hashes-add_points, nodes-add_points, owner-add_points, keep_agree,
}
use p2p_container_distributi.Ring.Invariant.{IsRing, IsRing-of, NoCollision, points_of}

module _ (sha1 : Bytes → Bytes) (r : Ring) (x : Bytes) (absent : contains r.nodes x ≡ false) where
  unfoldable pub new_points : List ℕ
  new_points = points sha1 virtual_nodes_per_node 0 x

  pub nodes-add_node : (add_node sha1 x r).nodes ≡ r.nodes ++ x ∷ []
  unfolding add_node add_member
  nodes-add_node = rw (absent, nodes-add_points sha1 virtual_nodes_per_node 0 x _)

  pub hashes-add_node : (add_node sha1 x r).sorted_hashes ≡ sort (r.sorted_hashes ++ new_points)
  unfolding add_node new_points
  hashes-add_node = rw (absent, hashes-add_points sha1 virtual_nodes_per_node 0 x _)

  pub owner-add_node :
      (g : ℕ) → owner (add_node sha1 x r) g ≡ (if contains new_points g then x else owner r g)
  unfolding add_node new_points
  owner-add_node g =
      rw absent (unfold owner in owner-add_points sha1 virtual_nodes_per_node 0 x _ g)

  owner_new : (g : ℕ) → contains new_points g ≡ true → owner (add_node sha1 x r) g ≡ x
  owner_new g c = ground (arith, owner-add_node g)

  owner_old : (g : ℕ) → contains new_points g ≡ false → owner (add_node sha1 x r) g ≡ owner r g
  owner_old g c = ground (arith, owner-add_node g)

  module _ (v : IsRing r) (free : NoCollision sha1 r x) where
    -- The old points are apart from the new ones, and none belongs to the new node.
    pub old_apart : All (λ g. contains new_points g ≡ false) r.sorted_hashes
    unfolding new_points
    old_apart = Distinct-apart r.sorted_hashes _ free

    pub old_other : All (λ g. (owner r g == x) ≡ false) r.sorted_hashes
    old_other =
        All-imp r.sorted_hashes v.owned.owned λ g own.
          ground (arith, ==_iff (owner r g) x, ap (contains r.nodes) {x = owner r g} {y = x})

    -- On the old points the owners are the old ones; on the new points, the new node.
    pub owners_old : All (λ g. owner (add_node sha1 x r) g ≡ owner r g) r.sorted_hashes
    owners_old = All-imp r.sorted_hashes old_apart (λ g c. owner_old g c)

    pub owners_new : All (λ g. owner (add_node sha1 x r) g ≡ x) new_points
    owners_new = All-of_contains _ new_points (λ g c. owner_new g c)

    new_node_points :
        keep (λ g. owner (add_node sha1 x r) g == x) (r.sorted_hashes ++ new_points) ≡ new_points
    new_node_points =
        keep-append _ r.sorted_hashes new_points
        ∙ ap₂ ◌++◌
            (keep_agree _ (λ g. owner r g == x) r.sorted_hashes
                (All-imp r.sorted_hashes owners_old (λ g e. ap (λ o. o == x) e))
              ∙ keep_nothing _ r.sorted_hashes old_other)
            (keep_every _ new_points
              (All-imp new_points owners_new (λ g e. ap (λ o. o == x) e ∙ (==_iff x x).1 refl)))

    old_node_points :
        (y : Bytes)
        → (y == x) ≡ false
        → keep (λ g. owner (add_node sha1 x r) g == y) (r.sorted_hashes ++ new_points)
          ≡ points_of r y
    old_node_points y ne =
        keep-append _ r.sorted_hashes new_points
        ∙ ap₂ ◌++◌
            (keep_agree _ (λ g. owner r g == y) r.sorted_hashes
              (All-imp r.sorted_hashes owners_old (λ g e. ap (λ o. o == y) e)))
            (keep_nothing _ new_points (
              All-imp new_points owners_new
                λ g e. ap (λ o. o == y) e ∙ ground (arith, ==_iff x y, ==_iff y x)))
        ∙ append-nil _

    abbrev SortedPointsOf : (y : Bytes) → ℕ → Type 0
    SortedPointsOf y n =
        length (keep (λ g. owner (add_node sha1 x r) g == y) (sort (r.sorted_hashes ++ new_points)))
        ≡ n

    points_of_old :
        (y : Bytes)
        → (y == x) ≡ false
        → length (points_of r y) ≡ virtual_nodes_per_node
        → SortedPointsOf y virtual_nodes_per_node
    points_of_old y ne full =
        ap length (keep-sort _ (r.sorted_hashes ++ new_points))
        ∙ length-sort _
        ∙ ap length (old_node_points y ne)
        ∙ full

    points_of_new : SortedPointsOf x virtual_nodes_per_node
    points_of_new =
        ap length (keep-sort _ (r.sorted_hashes ++ new_points))
        ∙ length-sort _
        ∙ ap length new_node_points
        ∙ (unfold new_points in length-points sha1 virtual_nodes_per_node 0 x)

    not_new : (y : Bytes) → contains r.nodes y ≡ true → (y == x) ≡ false
    not_new y c = elim (Bool-cases (y == x)) [
      | inl same ↦ cc (ap (contains r.nodes) ((==_iff y x).0 same))
      | inr other ↦ other
    ]

    add_absent-IsRing : IsRing (add_node sha1 x r)
    add_absent-IsRing =
        IsRing-of (add_node sha1 x r) _ _ hashes-add_node nodes-add_node
          (sort-IsSorted (r.sorted_hashes ++ new_points))
          (sort-All _ (r.sorted_hashes ++ new_points) (
            All-append _ r.sorted_hashes new_points
              (All-of_contains _ r.sorted_hashes λ g c.
                ap (contains (r.nodes ++ x ∷ [])) (All_at _ r.sorted_hashes g owners_old c)
                ∙ ground (
                  arith,
                  contains-append r.nodes (x ∷ []) (owner r g),
                  All_at _ r.sorted_hashes g v.owned.owned c,
                ))
              (All-imp new_points owners_new λ g e.
                ap (contains (r.nodes ++ x ∷ [])) e
                ∙ ground (arith, contains-append r.nodes (x ∷ []) x, ==_iff x x))))
          (sort-Distinct (r.sorted_hashes ++ new_points) (unfold new_points in free))
          (snoc-Distinct r.nodes x absent v.nodes_distinct)
          (All-append _ r.nodes (x ∷ [])
            (All-of_contains _ r.nodes
              λ y c. points_of_old y (not_new y c) (All_at _ r.nodes y v.balanced c))
            (points_of_new, tt))

-- `AddNode` keeps a ring well-formed, if the node is on it already or its points do not collide.
pub add_node-IsRing :
    (sha1 : Bytes → Bytes) (r : Ring) (x : Bytes)
    → IsRing r
    → (contains r.nodes x ≡ false → NoCollision sha1 r x)
    → IsRing (add_node sha1 x r)
add_node-IsRing sha1 r x v free = elim (Bool-cases (contains r.nodes x)) [
  | inl member ↦ unfold add_node in rw member v
  | inr absent ↦ add_absent-IsRing sha1 r x absent v (free absent)
]

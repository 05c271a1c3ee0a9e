-- ===== src/Ring/Invariant.antt =====
-- The well-formed rings of internal/hashring/hashring.go, and what `RemoveNode` does to one.
use p2p_container_distributi.Prelude.{
  ℕ, ◌≡◌, refl, sym, ap, ◌∙◌, subst, true, false, not, ◌&&◌, List, [], ◌++◌, arith, Bytes, bytes_eq,
  nat_eq, ◌==◌, ==_iff, contains, Distinct, length, keep, All, if◌then◌else◌, Bool-cases, inl, inr,
}
use p2p_container_distributi.Prelude.Sorting.{IsSorted, keep-IsSorted}
use p2p_container_distributi.Prelude.Dedup.{without, keep-Distinct, contains-keep}
use p2p_container_distributi.Prelude.Members.{All-kept, All-of_contains, keep_absorb}
use p2p_container_distributi.GoMap.{remove_member}
use p2p_container_distributi.Ring.{Ring, new, owner, virtual_nodes_per_node, remove_node}
use p2p_container_distributi.Ring.Points.{
  points, others, nodes-remove_points, hashes-remove_points, owner-remove_points, keep_agree,
}
use p2p_container_distributi.Ring.Walk.{IsOwned}

-- The points of the ring that belong to a node.
abbrev pub points_of : Ring → Bytes → List ℕ
points_of r x = keep (λ h. owner r h == x) r.sorted_hashes

-- The points are in order, no two in one place, each of a node of the ring, and each node has its
-- full number of points.
pub record IsRing (r : Ring) : Type 0 where
  pub owned : IsOwned r
  pub distinct : Distinct r.sorted_hashes
  pub nodes_distinct : Distinct r.nodes
  pub balanced : All (λ x. length (points_of r x) ≡ virtual_nodes_per_node) r.nodes

pub new-IsRing : IsRing new
unfolding new
new-IsRing = record {
  owned = record { sorted = tt; owned = tt };
  distinct = tt;
  nodes_distinct = tt;
  balanced = tt;
}

-- A ring whose points and nodes are known is judged by those.
pub IsRing-of :
    (r : Ring) (hs : List ℕ) (ns : List Bytes)
    → r.sorted_hashes ≡ hs
    → r.nodes ≡ ns
    → IsSorted hs
    → All (λ h. contains ns (owner r h) ≡ true) hs
    → Distinct hs
    → Distinct ns
    → All (λ x. length (keep (λ h. owner r h == x) hs) ≡ virtual_nodes_per_node) ns
    → IsRing r
IsRing-of r hs ns p q s o d n b = record {
  owned = record {
    sorted = subst IsSorted (sym p) s;
    owned =
        subst (λ l. All (λ h. contains r.nodes (owner r h) ≡ true) l) (sym p)
          (subst (λ l. All (λ h. contains l (owner r h) ≡ true) hs) (sym q) o);
  };
  distinct = subst Distinct (sym p) d;
  nodes_distinct = subst Distinct (sym q) n;
  balanced =
      subst (λ l. All (λ x. length (keep (λ h. owner r h == x) l) ≡ virtual_nodes_per_node) r.nodes)
        (sym p)
        (subst (λ l. All (λ x. length (keep (λ h. owner r h == x) hs) ≡ virtual_nodes_per_node) l)
          (sym q) b);
}

-- The hash places no virtual node of `x` on a point that is taken, and no two on one.
abbrev pub NoCollision : (Bytes → Bytes) → Ring → Bytes → Type 0
NoCollision sha1 r x = Distinct (r.sorted_hashes ++ points sha1 virtual_nodes_per_node 0 x)

-- What `RemoveNode` leaves, in closed form.
module _ (r : Ring) (x : Bytes) (v : IsRing r) (member : contains r.nodes x ≡ true) where
  pub nodes-remove_node : (remove_node x r).nodes ≡ without x r.nodes
  unfolding remove_node remove_member
  nodes-remove_node = rw member (nodes-remove_points x r.sorted_hashes [] _)

  pub hashes-remove_node : (remove_node x r).sorted_hashes ≡ others r x r.sorted_hashes
  unfolding remove_node
  hashes-remove_node =
      rw member (hashes-remove_points x r.sorted_hashes [] _ v.distinct ∙ (unfold owner in refl))

  pub owner-remove_node :
      (g : ℕ)
      → owner (remove_node x r) g
        ≡ (if contains r.sorted_hashes g && owner r g == x then [] else owner r g)
  unfolding remove_node owner
  owner-remove_node g = rw member (owner-remove_points x r.sorted_hashes [] _ g v.distinct)

  -- The points that stay keep their owners.
  pub owner_kept : (g : ℕ) → (owner r g == x) ≡ false → owner (remove_node x r) g ≡ owner r g
  owner_kept g ne = ground (arith, owner-remove_node g)

  points_of_kept :
      (y : Bytes)
      → not (y == x) ≡ true
      → keep (λ h. owner (remove_node x r) h == y) (others r x r.sorted_hashes) ≡ points_of r y
  points_of_kept y ne =
      keep_agree _ (λ h. owner r h == y) (others r x r.sorted_hashes)
        (All-kept {P = λ _. Unit {0}} _ r.sorted_hashes
          (All-of_contains _ r.sorted_hashes (λ _ _. tt))
          λ g _ stays. ap (λ o. o == y) (owner_kept g (ground arith)))
      ∙ keep_absorb _ (λ h. not (owner r h == x)) r.sorted_hashes
          (λ g e. ground (arith, ==_iff (owner r g) y, ==_iff (owner r g) x, ==_iff y x))

  remove_member-IsRing : IsRing (remove_node x r)
  remove_member-IsRing =
      IsRing-of (remove_node x r) _ _ hashes-remove_node nodes-remove_node
        (keep-IsSorted _ r.sorted_hashes v.owned.sorted)
        (All-kept _ r.sorted_hashes v.owned.owned λ g own stays.
          ground (arith, owner_kept g, contains-keep (λ y. not (y == x)) r.nodes (owner r g)))
        (keep-Distinct _ r.sorted_hashes v.distinct) (keep-Distinct _ r.nodes v.nodes_distinct)
        (All-kept _ r.nodes v.balanced λ y full ne. ap length (points_of_kept y ne) ∙ full)

-- `RemoveNode` keeps a ring well-formed, whether or not the node is on it.
pub remove_node-IsRing : (r : Ring) (x : Bytes) → IsRing r → IsRing (remove_node x r)
remove_node-IsRing r x v = elim (Bool-cases (contains r.nodes x)) [
  | inl member ↦ remove_member-IsRing r x v member
  | inr absent ↦ unfold remove_node in rw absent v
]

-- ===== src/Ring/Members.antt =====
-- Which nodes a ring of internal/hashring/hashring.go has after a join or a leave.
use p2p_container_distributi.Prelude.{
  ◌≡◌, ap, ◌∙◌, ◌||◌, ◌&&◌, not, [], ◌∷◌, arith, Bytes, bytes_eq, ◌==◌, ==_iff, contains,
  contains-append, Bool-cases, inl, inr,
}
use p2p_container_distributi.Prelude.Dedup.{contains-keep}
use p2p_container_distributi.GoMap.{remove_member}
use p2p_container_distributi.Ring.{Ring, add_node, remove_node}
use p2p_container_distributi.Ring.Points.{nodes-remove_points}
use p2p_container_distributi.Ring.Join.{nodes-add_node}

pub contains-add_node :
    (sha1 : Bytes → Bytes) (r : Ring) (x y : Bytes)
    → contains (add_node sha1 x r).nodes y ≡ (x == y || contains r.nodes y)
contains-add_node sha1 r x y = elim (Bool-cases (contains r.nodes x)) [
  | inl member ↦
      ap (λ (s : Ring). contains s.nodes y) {x = add_node sha1 x r} {y = r}
        (unfold add_node in rw member)
      ∙ ground (arith, ==_iff x y, ap (contains r.nodes) {x = x} {y = y})
  | inr absent ↦
      ap (λ l. contains l y) (nodes-add_node sha1 r x absent)
      ∙ contains-append r.nodes (x ∷ []) y
      ∙ ground arith
]

pub contains-remove_node :
    (r : Ring) (x y : Bytes)
    → contains (remove_node x r).nodes y ≡ (contains r.nodes y && not (y == x))
unfolding remove_node remove_member
contains-remove_node r x y = elim (Bool-cases (contains r.nodes x)) [
  | inl member ↦ rw (member, nodes-remove_points x r.sorted_hashes [], contains-keep _ r.nodes y)
  | inr absent ↦ rw absent (ground (arith, ==_iff y x, ap (contains r.nodes) {x = y} {y = x}))
]

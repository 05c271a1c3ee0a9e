-- ===== src/Rebalance/Owners.antt =====
-- Which keys change their owner in benchmarks/rebalance/main.go when a node joins or leaves a ring.
use p2p_container_distributi.Prelude.{
  ◌≤◌, ◌≡◌, ◌≢◌, refl, sym, ap, ◌∙◌, subst, true, false, not, List, [], ◌∷◌, arith, Bytes, bytes_eq,
  ◌==◌, ==_iff, contains, length, Bool-cases, inl, inr, ◌⊎◌,
}
use p2p_container_distributi.Prelude.Int.{pos}
use p2p_container_distributi.Prelude.Dedup.{Within}
use p2p_container_distributi.Ring.{Ring, add_node, remove_node, get_n, get_owner}
use p2p_container_distributi.Ring.Invariant.{IsRing, NoCollision, remove_node-IsRing}
use p2p_container_distributi.Ring.Members.{contains-remove_node}
use p2p_container_distributi.Ring.Placement.{get_n_replicas}
use p2p_container_distributi.Ring.Replicas.{
  first_of_list, get_owner-first, get_owner-add_node, get_owner-remove_node,
}

first_is :
    (x : Bytes) (l : List Bytes) → length l ≤ 1 → contains l x ≡ true → (first_of_list l).0 ≡ x
first_is x [] le c = cc c
first_is x (y ∷ []) le c = ground (arith, ==_iff y x)
first_is x (y ∷ z ∷ l) le c = absurd (omega arith)

first_not :
    (x : Bytes) (l : List Bytes)
    → x ≢ []
    → contains l x ≡ false
    → ((first_of_list l).0 == x) ≡ false
first_not x [] named c = ground (arith, ==_iff [] x, λ (e : x ≡ []). named e)
first_not x (y ∷ l) named c = ground arith

module _ (sha1 : Bytes → Bytes) (key : Bytes) where
  abbrev pub owner_of : Ring → Bytes
  owner_of r = (get_owner sha1 r key).0

  first_member :
      (r : Ring) (l : List Bytes)
      → Within r.nodes l
      → ((first_of_list l).0 ≡ []) ⊎ (contains r.nodes (first_of_list l).0 ≡ true)
  first_member r [] w = inl refl
  first_member r (y ∷ l) w = inr w.0

  -- The owner is a node of the ring, or the empty name.
  owner_member : (r : Ring) → IsRing r → (owner_of r ≡ []) ⊎ (contains r.nodes (owner_of r) ≡ true)
  owner_member r v =
      subst (λ o. (o.0 ≡ []) ⊎ (contains r.nodes o.0 ≡ true)) (sym (get_owner-first sha1 r key))
        (first_member r (get_n sha1 r key (pos 1)) (get_n_replicas sha1 r key (pos 1) v).1)

  pub not_owner :
      (r : Ring) (x : Bytes)
      → IsRing r
      → x ≢ []
      → contains r.nodes x ≡ false
      → (owner_of r == x) ≡ false
  not_owner r x v named absent = elim (Bool-cases (owner_of r == x)) [
    | inr other ↦ other
    | inl same ↦
        let e : owner_of r ≡ x = (==_iff (owner_of r) x).0 same in
        elim (owner_member r v) [
          | inl none_ ↦ absurd (named (sym e ∙ none_))
          | inr member ↦ cc (ap (contains r.nodes) e, member, absent)
        ]
  ]

  module _ (r : Ring) (x : Bytes) (v : IsRing r) (named : x ≢ []) where
    -- A key moves on a join exactly if the new node owns it then.
    pub moved_on_join :
        contains r.nodes x ≡ false
        → NoCollision sha1 r x
        → not (owner_of (add_node sha1 x r) == owner_of r) ≡ (owner_of (add_node sha1 x r) == x)
    moved_on_join absent free =
        let other = not_owner r x v named absent in
        elim (get_owner-add_node sha1 r key x v absent free) [
          | inl new_ ↦
              rw (ap (λ o. o.0) new_)
                (ground (arith, other, ==_iff x x, ==_iff x (owner_of r), ==_iff (owner_of r) x))
          | inr old ↦
              rw (ap (λ o. o.0) old) (ground (arith, other, ==_iff (owner_of r) (owner_of r)))
        ]

    -- A key moves on a leave exactly if the node owned it.
    pub moved_on_leave : not (owner_of (remove_node x r) == owner_of r) ≡ (owner_of r == x)
    moved_on_leave = elim (Bool-cases (contains (get_n sha1 r key (pos 1)) x)) [
      | inl owned ↦
          let e : owner_of r ≡ x =
            ap (λ o. o.0) (get_owner-first sha1 r key)
            ∙ first_is x (get_n sha1 r key (pos 1))
                (omega (arith, (get_n_replicas sha1 r key (pos 1) v).2)) owned in
          let gone : (owner_of (remove_node x r) == x) ≡ false =
            not_owner (remove_node x r) x (remove_node-IsRing r x v) named
              (contains-remove_node r x x ∙ ground (arith, ==_iff x x)) in
          ground (arith, e, gone, ==_iff x x)
      | inr free ↦
          let same = ap (λ o. o.0) (get_owner-remove_node sha1 r key x v free) in
          let other : (owner_of r == x) ≡ false =
            ap (λ o. o.0 == x) (get_owner-first sha1 r key)
            ∙ first_not x (get_n sha1 r key (pos 1)) named free in
          rw same (ground (arith, other, ==_iff (owner_of r) (owner_of r)))
    ]

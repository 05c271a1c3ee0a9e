-- ===== src/Ring/Agreement.antt =====
-- Which rings of internal/hashring/hashring.go agree on the replica sets: the rings of different
-- peers, whose joins and leaves came in different orders.
use p2p_container_distributi.Prelude.{
  ℕ, ◌≡◌, refl, sym, ap, ap₂, ◌∙◌, All-append, All-keep, true, false, not, ◌&&◌, ◌||◌, List, [],
  ◌∷◌, ◌++◌, arith, Bytes, bytes_eq, nat_eq, ◌==◌, ==_iff, contains, contains-append, All, take,
  Bool-cases, inl, inr, if◌then◌else◌,
}
use p2p_container_distributi.Prelude.Int.{ℤ, pos_part}
use p2p_container_distributi.Prelude.Sorting.{contains-sort, Sorted-unique}
use p2p_container_distributi.Prelude.Members.{All_at, All-of_contains}
use p2p_container_distributi.Prelude.Dedup.{contains-keep, dedup}
use p2p_container_distributi.Ring.{
  Ring, new, owner, virtual_nodes_per_node, add_node, remove_node, get_n, hash_key,
}
use p2p_container_distributi.Ring.Points.{points}
use p2p_container_distributi.Ring.Search.{before, from}
use p2p_container_distributi.Ring.Walk.{owners, get_n-walk}
use p2p_container_distributi.Ring.Invariant.{
  IsRing, NoCollision, nodes-remove_node, hashes-remove_node, owner-remove_node,
}
use p2p_container_distributi.Ring.Join.{
  new_points, nodes-add_node, hashes-add_node, owner-add_node, old_apart,
}

module _ (sha1 : Bytes → Bytes) where
  abbrev pub points_at : Bytes → List ℕ
  points_at x = points sha1 virtual_nodes_per_node 0 x

  -- The points of the ring are those of its nodes, each with its node for owner.
  pub record IsPlaced (r : Ring) : Type 0 where
    owns :
        (x : Bytes) (g : ℕ)
        → contains r.nodes x ≡ true
        → contains (points_at x) g ≡ true
        → owner r g ≡ x
    pub placed :
        (g : ℕ) → contains r.sorted_hashes g ≡ true → contains (points_at (owner r g)) g ≡ true
    pub full :
        (x : Bytes) (g : ℕ)
        → contains r.nodes x ≡ true
        → contains (points_at x) g ≡ true
        → contains r.sorted_hashes g ≡ true

  pub new-IsPlaced : IsPlaced new
  unfolding new
  new-IsPlaced = record { owns = λ x g m c. cc; placed = λ g c. cc; full = λ x g m c. cc }

  module _ (r : Ring) (x : Bytes) (v : IsRing r) (p : IsPlaced r) where
    module _ (absent : contains r.nodes x ≡ false) (free : NoCollision sha1 r x) where
      joined_nodes :
          (y : Bytes) → contains (add_node sha1 x r).nodes y ≡ (contains r.nodes y || x == y)
      joined_nodes y =
          ap (λ l. contains l y) (nodes-add_node sha1 r x absent)
          ∙ contains-append r.nodes (x ∷ []) y
          ∙ ground arith

      joined_hashes :
          (g : ℕ)
          → contains (add_node sha1 x r).sorted_hashes g
            ≡ (contains r.sorted_hashes g || contains (points_at x) g)
      joined_hashes g =
          ap (λ l. contains l g) (hashes-add_node sha1 r x absent)
          ∙ contains-sort (r.sorted_hashes ++ new_points sha1 r x absent) g
          ∙ contains-append r.sorted_hashes _ g
          ∙ (unfold new_points in refl)

      joined_owner :
          (g : ℕ)
          → owner (add_node sha1 x r) g ≡ (if contains (points_at x) g then x else owner r g)
      joined_owner g = owner-add_node sha1 r x absent g ∙ (unfold new_points in refl)

      apart : (g : ℕ) → contains r.sorted_hashes g ≡ true → contains (points_at x) g ≡ false
      unfolding new_points
      apart g c =
          All_at (λ h. contains (points_at x) h ≡ false) r.sorted_hashes g
            (old_apart sha1 r x absent v free) c

      add_absent-IsPlaced : IsPlaced (add_node sha1 x r)
      add_absent-IsPlaced = record {
        owns = λ y g m c.
            ground
              (arith, joined_nodes y, joined_owner g, p.owns y g, p.full y g, apart g, ==_iff x y);
        placed = λ g c. ground (arith, joined_hashes g, joined_owner g, p.placed g);
        full = λ y g m c. ground (arith, joined_nodes y, joined_hashes g, p.full y g, ==_iff x y);
      }

    module _ (member : contains r.nodes x ≡ true) where
      left_nodes :
          (y : Bytes) → contains (remove_node x r).nodes y ≡ (contains r.nodes y && not (y == x))
      left_nodes y =
          ap (λ l. contains l y) (nodes-remove_node r x v member) ∙ contains-keep _ r.nodes y

      left_hashes :
          (g : ℕ)
          → contains (remove_node x r).sorted_hashes g
            ≡ (contains r.sorted_hashes g && not (owner r g == x))
      left_hashes g =
          ap (λ l. contains l g) (hashes-remove_node r x v member)
          ∙ contains-keep _ r.sorted_hashes g

      remove_member-IsPlaced : IsPlaced (remove_node x r)
      remove_member-IsPlaced = record {
        owns = λ y g m c.
            ground (arith, left_nodes y, owner-remove_node r x v member g, p.owns y g, ==_iff y x);
        placed = λ g c. ground (arith, left_hashes g, owner-remove_node r x v member g, p.placed g);
        full = λ y g m c.
            ground (arith, left_nodes y, left_hashes g, p.full y g, p.owns y g, ==_iff y x);
      }

  pub add_node-IsPlaced :
      (r : Ring) (x : Bytes)
      → IsRing r
      → IsPlaced r
      → (contains r.nodes x ≡ false → NoCollision sha1 r x)
      → IsPlaced (add_node sha1 x r)
  add_node-IsPlaced r x v p free = elim (Bool-cases (contains r.nodes x)) [
    | inl member ↦ unfold add_node in rw member p
    | inr absent ↦ add_absent-IsPlaced r x v p absent (free absent)
  ]

  pub remove_node-IsPlaced :
      (r : Ring) (x : Bytes) → IsRing r → IsPlaced r → IsPlaced (remove_node x r)
  remove_node-IsPlaced r x v p = elim (Bool-cases (contains r.nodes x)) [
    | inl member ↦ remove_member-IsPlaced r x v p member
    | inr absent ↦ unfold remove_node in rw absent p
  ]

  -- Two rings with the same nodes.
  module _ (r s : Ring) (v : IsRing r) (w : IsRing s) (p : IsPlaced r) (q : IsPlaced s)
      (same : (x : Bytes) → contains r.nodes x ≡ contains s.nodes x) where
    shared_point :
        (g : ℕ)
        → contains r.sorted_hashes g ≡ true
        → (contains s.sorted_hashes g ≡ true) × (owner r g ≡ owner s g)
    shared_point g c =
        let o = owner r g in
        let member : contains s.nodes o ≡ true =
          sym (same o)
          ∙ All_at (λ h. contains r.nodes (owner r h) ≡ true) r.sorted_hashes g v.owned.owned c in
        (q.full o g member (p.placed g c), sym (q.owns o g member (p.placed g c)))

  agree_hashes :
      (r s : Ring)
      → IsRing r
      → IsRing s
      → IsPlaced r
      → IsPlaced s
      → ((x : Bytes) → contains r.nodes x ≡ contains s.nodes x)
      → r.sorted_hashes ≡ s.sorted_hashes
  agree_hashes r s v w p q same =
      Sorted-unique r.sorted_hashes s.sorted_hashes v.owned.sorted w.owned.sorted v.distinct
        w.distinct
        λ g. ground (
          arith,
          λ (c : contains r.sorted_hashes g ≡ true). (shared_point r s v w p q same g c).0,
          λ (c : contains s.sorted_hashes g ≡ true).
              (shared_point s r w v q p (λ x. sym (same x)) g c).0,
        )

  owners_shared :
      (r s : Ring) (hs : List ℕ) → All (λ g. owner r g ≡ owner s g) hs → owners r hs ≡ owners s hs
  owners_shared r s [] h = refl
  owners_shared r s (g ∷ hs) h = ap₂ ◌∷◌ h.0 (owners_shared r s hs h.1)

  -- Two well-formed rings whose points are those of their nodes, and that have the same nodes, give
  -- every key the same replica sets.
  pub get_n-agree :
      (r s : Ring) (key : Bytes) (n : ℤ)
      → IsRing r
      → IsRing s
      → IsPlaced r
      → IsPlaced s
      → ((x : Bytes) → contains r.nodes x ≡ contains s.nodes x)
      → get_n sha1 r key n ≡ get_n sha1 s key n
  get_n-agree r s key n v w p q same =
      let h : ℕ = hash_key sha1 key in
      let hashes = agree_hashes r s v w p q same in
      let agreed : All (λ g. owner r g ≡ owner s g) r.sorted_hashes =
        All-of_contains _ r.sorted_hashes (λ g c. (shared_point r s v w p q same g c).1) in
      get_n-walk sha1 r key n v.owned
      ∙ ap (λ l. take (pos_part n) (dedup l))
          (owners_shared r s (from h r.sorted_hashes ++ before h r.sorted_hashes) (
            All-append _ (from h r.sorted_hashes) _ (All-keep _ _ r.sorted_hashes agreed)
              (All-keep _ _ r.sorted_hashes agreed)))
      ∙ ap (λ hs. take (pos_part n) (dedup (owners s (from h hs ++ before h hs)))) hashes
      ∙ sym (get_n-walk sha1 s key n w.owned)

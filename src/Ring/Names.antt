-- ===== src/Ring/Names.antt =====
-- Rings of internal/hashring/hashring.go whose nodes have their names from a set in which no points
-- collide: every join finds its points free.
use p2p_container_distributi.Prelude.{
  ℕ, ◌≡◌, ap, Bool, true, false, List, [], ◌∷◌, ◌++◌, arith, Bytes, bytes_eq, nat_eq, ==_iff,
  contains, contains-append, Distinct,
}
use p2p_container_distributi.Prelude.Members.{All_at}
use p2p_container_distributi.Ring.{Ring, new, owner, add_node, remove_node}
use p2p_container_distributi.Ring.Invariant.{IsRing, NoCollision, new-IsRing, remove_node-IsRing}
use p2p_container_distributi.Ring.Join.{add_node-IsRing}
use p2p_container_distributi.Ring.Members.{contains-add_node, contains-remove_node}
use p2p_container_distributi.Ring.Agreement.{
  points_at, IsPlaced, new-IsPlaced, add_node-IsPlaced, remove_node-IsPlaced,
}

Distinct-append :
    (xs ys : List ℕ)
    → Distinct xs
    → Distinct ys
    → ((x : ℕ) → contains xs x ≡ true → contains ys x ≡ false)
    → Distinct (xs ++ ys)
Distinct-append [] ys d e apart = e
Distinct-append (x ∷ xs) ys d e apart = (
  ground (arith, contains-append xs ys x, apart x, ==_iff x x),
  Distinct-append xs ys d.1 e (λ z c. ground (arith, apart z)),
)

module _ (sha1 : Bytes → Bytes) (names : Bytes → Bool) where
  -- No two points of the nodes with these names are the same.
  pub record Separated : Type 0 where
    pub own : (x : Bytes) → names x ≡ true → Distinct (points_at sha1 x)
    pub apart :
        (x y : Bytes) (g : ℕ)
        → names x ≡ true
        → names y ≡ true
        → contains (points_at sha1 x) g ≡ true
        → contains (points_at sha1 y) g ≡ true
        → x ≡ y

  pub record IsNamed (r : Ring) : Type 0 where
    pub ring : IsRing r
    pub placed : IsPlaced sha1 r
    pub named : (y : Bytes) → contains r.nodes y ≡ true → names y ≡ true

  pub new-IsNamed : IsNamed new
  unfolding new
  new-IsNamed = record { ring = new-IsRing; placed = new-IsPlaced sha1; named = λ y c. cc }

  module _ (separated : Separated) where
    named-NoCollision :
        (r : Ring) (x : Bytes)
        → IsNamed r
        → names x ≡ true
        → contains r.nodes x ≡ false
        → NoCollision sha1 r x
    named-NoCollision r x v named absent =
        Distinct-append r.sorted_hashes (points_at sha1 x) v.ring.distinct (separated.own x named)
          λ g c.
            let member : contains r.nodes (owner r g) ≡ true =
              All_at (λ h. contains r.nodes (owner r h) ≡ true) r.sorted_hashes g v.ring.owned.owned
                c in
            let same : contains (points_at sha1 x) g ≡ true → x ≡ owner r g = λ p.
              separated.apart x (owner r g) g named (v.named (owner r g) member) p
                (v.placed.placed g c) in
            ground (arith, same, ap (contains r.nodes) {x = x} {y = owner r g})

    pub add_node-IsNamed :
        (r : Ring) (x : Bytes) → IsNamed r → names x ≡ true → IsNamed (add_node sha1 x r)
    add_node-IsNamed r x v named =
        let free : contains r.nodes x ≡ false → NoCollision sha1 r x =
          named-NoCollision r x v named in
        record {
          ring = add_node-IsRing sha1 r x v.ring free;
          placed = add_node-IsPlaced sha1 r x v.ring v.placed free;
          named = λ y c. ground (arith, contains-add_node sha1 r x y, v.named y, ==_iff x y);
        }

  pub remove_node-IsNamed : (r : Ring) (x : Bytes) → IsNamed r → IsNamed (remove_node x r)
  remove_node-IsNamed r x v = record {
    ring = remove_node-IsRing r x v.ring;
    placed = remove_node-IsPlaced sha1 r x v.ring v.placed;
    named = λ y c. ground (arith, contains-remove_node r x y, v.named y);
  }

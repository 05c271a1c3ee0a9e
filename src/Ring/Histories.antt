-- ===== src/Ring/Histories.antt =====
-- Peers that see nodes join and leave the ring of internal/hashring/hashring.go in different
-- orders.
use p2p_container_distributi.Prelude.{◌≡◌, false, List, [], ◌∷◌, Bytes, bytes_eq, nat_eq, contains}
use p2p_container_distributi.Prelude.Int.{ℤ}
use p2p_container_distributi.Ring.{Ring, new, add_node, remove_node, get_n}
use p2p_container_distributi.Ring.Invariant.{IsRing, NoCollision, new-IsRing, remove_node-IsRing}
use p2p_container_distributi.Ring.Join.{add_node-IsRing}
use p2p_container_distributi.Ring.Agreement.{
  IsPlaced, new-IsPlaced, add_node-IsPlaced, remove_node-IsPlaced, get_n-agree,
}

-- What happens to a ring over time.
pub data Change : Type 0 where
  joins leaves : Bytes → Change

unfoldable pub change : (Bytes → Bytes) → Change → Ring → Ring
change sha1 (joins x) r = add_node sha1 x r
change sha1 (leaves x) r = remove_node x r

unfoldable pub change_all : (Bytes → Bytes) → List Change → Ring → Ring
change_all sha1 [] r = r
change_all sha1 (c ∷ cs) r = change_all sha1 cs (change sha1 c r)

-- Each node that joins is on the ring already, or finds its points free.
abbrev pub Free : (Bytes → Bytes) → List Change → Ring → Type 0
Free sha1 [] r = Unit
Free sha1 (joins x ∷ cs) r =
    (contains r.nodes x ≡ false → NoCollision sha1 r x) × Free sha1 cs (change sha1 (joins x) r)
Free sha1 (leaves x ∷ cs) r = Free sha1 cs (change sha1 (leaves x) r)

change_all-IsPlaced :
    (sha1 : Bytes → Bytes) (cs : List Change) (r : Ring)
    → IsRing r
    → IsPlaced sha1 r
    → Free sha1 cs r
    → IsRing (change_all sha1 cs r) × IsPlaced sha1 (change_all sha1 cs r)
unfolding change_all change
change_all-IsPlaced sha1 [] r v p f = (v, p)
change_all-IsPlaced sha1 (joins x ∷ cs) r v p f =
    change_all-IsPlaced sha1 cs (add_node sha1 x r) (add_node-IsRing sha1 r x v f.0)
      (add_node-IsPlaced sha1 r x v p f.0) f.1
change_all-IsPlaced sha1 (leaves x ∷ cs) r v p f =
    change_all-IsPlaced sha1 cs (remove_node x r) (remove_node-IsRing r x v)
      (remove_node-IsPlaced sha1 r x v p) f

-- Two peers that start with an empty ring and see nodes join, without a collision, and leave, each
-- in an order of its own, agree on all replica sets once their rings have the same nodes.
pub histories_agree :
    (sha1 : Bytes → Bytes) (cs ds : List Change) (key : Bytes) (n : ℤ)
    → Free sha1 cs new
    → Free sha1 ds new
    → ((x : Bytes)
        → contains (change_all sha1 cs new).nodes x ≡ contains (change_all sha1 ds new).nodes x)
    → get_n sha1 (change_all sha1 cs new) key n ≡ get_n sha1 (change_all sha1 ds new) key n
histories_agree sha1 cs ds key n f g same =
    let (v, p) = change_all-IsPlaced sha1 cs new new-IsRing (new-IsPlaced sha1) f in
    let (w, q) = change_all-IsPlaced sha1 ds new new-IsRing (new-IsPlaced sha1) g in
    get_n-agree sha1 (change_all sha1 cs new) (change_all sha1 ds new) key n v w p q same

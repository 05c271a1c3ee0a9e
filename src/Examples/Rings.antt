-- ===== src/Examples/Rings.antt =====
-- The theorems on internal/hashring/hashring.go at a ring of two nodes.
use p2p_container_distributi.Prelude.{
  ℕ, ◌≡◌, refl, ap, ◌∙◌, Bool, true, false, not, ◌&&◌, List, [], ◌∷◌, ◌++◌, arith, Bytes, bytes_eq,
  nat_eq, bytes_beq, contains, Distinct, take, codes, min, length,
}
use p2p_container_distributi.Prelude.Int.{pos}
use p2p_container_distributi.Prelude.Dedup.{without, Within}
use p2p_container_distributi.GoMap
use p2p_container_distributi.GoMap.{add_member}
use p2p_container_distributi.Prelude.Sorting.{sort, sort_by}
use p2p_container_distributi.Ring.{
  Ring, decimal, owner, new, add_node, add_points, remove_node, get_n, virtual_nodes_per_node,
  hash_key, virtual_key,
}
use p2p_container_distributi.Ring.Points.{points}
use p2p_container_distributi.Ring.Walk.{walk, get_n-walk}
use p2p_container_distributi.Ring.Invariant.{IsRing, NoCollision, new-IsRing, remove_node-IsRing}
use p2p_container_distributi.Ring.Join.{add_node-IsRing}
use p2p_container_distributi.Ring.Placement.{get_n_replicas}
use p2p_container_distributi.Ring.Replicas.{get_n-remove_node, get_n-add_node, get_n-leave-join}

-- A hash that keeps its first eight bytes apart.
abbrev pub toy_sha1 : Bytes → Bytes
toy_sha1 s = s

abbrev pub node_a : Bytes
node_a = codes "a"

abbrev pub node_b : Bytes
node_b = codes "b"

abbrev pub ring_a : Ring
ring_a = add_node toy_sha1 node_a new

abbrev pub ring_ab : Ring
ring_ab = add_node toy_sha1 node_b ring_a

abbrev pub some_key : Bytes
some_key = codes "chunk"

unfoldable pub all_distinct : List ℕ → Bool
all_distinct [] = true
all_distinct (x ∷ xs) = not (contains xs x) && all_distinct xs

pub Distinct-of_all : (xs : List ℕ) → all_distinct xs ≡ true → Distinct xs
unfolding all_distinct
Distinct-of_all [] h = tt
Distinct-of_all (x ∷ xs) h = (ground arith, Distinct-of_all xs (ground arith))

free_a : all_distinct (new.sorted_hashes ++ points toy_sha1 virtual_nodes_per_node 0 node_a) ≡ true
unfolding all_distinct points hash_key virtual_key decimal new
free_a = refl

ring_a-IsRing : IsRing ring_a
ring_a-IsRing = add_node-IsRing toy_sha1 new node_a new-IsRing (λ _. Distinct-of_all _ free_a)

free_b :
    all_distinct (ring_a.sorted_hashes ++ points toy_sha1 virtual_nodes_per_node 0 node_b) ≡ true
unfolding all_distinct points hash_key virtual_key decimal new add_node add_points sort sort_by
free_b = refl

absent_b : contains ring_a.nodes node_b ≡ false
unfolding new add_node add_points bytes_beq add_member
absent_b = refl

free_b-NoCollision : NoCollision toy_sha1 ring_a node_b
free_b-NoCollision = Distinct-of_all _ free_b

pub ring_ab-IsRing : IsRing ring_ab
ring_ab-IsRing = add_node-IsRing toy_sha1 ring_a node_b ring_a-IsRing (λ _. free_b-NoCollision)

add_node-IsRing_example : IsRing (add_node toy_sha1 node_b ring_a)
add_node-IsRing_example =
    add_node-IsRing toy_sha1 ring_a node_b ring_a-IsRing (λ _. free_b-NoCollision)

remove_node-IsRing_example : IsRing (remove_node node_a ring_ab)
remove_node-IsRing_example = remove_node-IsRing ring_ab node_a ring_ab-IsRing

get_n-walk_example :
    get_n toy_sha1 ring_ab some_key (pos 2) ≡ take 2 (walk toy_sha1 ring_ab some_key)
get_n-walk_example = get_n-walk toy_sha1 ring_ab some_key (pos 2) ring_ab-IsRing.owned

get_n_replicas_example :
    Distinct (get_n toy_sha1 ring_ab some_key (pos 3))
    × Within ring_ab.nodes (get_n toy_sha1 ring_ab some_key (pos 3))
    × (length (get_n toy_sha1 ring_ab some_key (pos 3)) ≡ min 3 (length ring_ab.nodes))
get_n_replicas_example = get_n_replicas toy_sha1 ring_ab some_key (pos 3) ring_ab-IsRing

get_n-remove_node_example :
    get_n toy_sha1 (remove_node node_a ring_ab) some_key (pos 1)
    ≡ take 1 (without node_a (get_n toy_sha1 ring_ab some_key (pos 2)))
get_n-remove_node_example = get_n-remove_node toy_sha1 ring_ab some_key node_a 1 ring_ab-IsRing

get_n-add_node_example :
    get_n toy_sha1 ring_a some_key (pos 1)
    ≡ take 1 (without node_b (get_n toy_sha1 ring_ab some_key (pos 2)))
get_n-add_node_example =
    get_n-add_node toy_sha1 ring_a some_key node_b ring_a-IsRing absent_b free_b-NoCollision 1

met_without : contains (take 3 (walk toy_sha1 ring_a some_key)) node_a ≡ true
unfolding add_node add_points add_member bytes_beq new hash_key virtual_key decimal owner sort
    sort_by GoMap.get GoMap.put
met_without = refl

-- The other node is gone, and this one is a replica of the key.
pub hosts_a : contains (get_n toy_sha1 (remove_node node_b ring_ab) some_key (pos 3)) node_a ≡ true
hosts_a =
    ap (λ l. contains l node_a)
      (get_n-leave-join toy_sha1 ring_a some_key node_b ring_a-IsRing absent_b free_b-NoCollision
          (pos 3)
        ∙ get_n-walk toy_sha1 ring_a some_key (pos 3) ring_a-IsRing.owned)
    ∙ met_without

-- The name of the chunk "hello" under a hash that is the bytes themselves.
abbrev pub hello_key : Bytes
hello_key = codes "68656c6c6f"

met_hello : contains (take 3 (walk toy_sha1 ring_ab hello_key)) node_a ≡ true
unfolding add_node add_points add_member bytes_beq new hash_key virtual_key decimal owner sort
    sort_by GoMap.get GoMap.put
met_hello = refl

pub hosts_hello : contains (get_n toy_sha1 ring_ab hello_key (pos 3)) node_a ≡ true
hosts_hello =
    ap (λ l. contains l node_a) (get_n-walk toy_sha1 ring_ab hello_key (pos 3) ring_ab-IsRing.owned)
    ∙ met_hello

walk_hello : take 3 (walk toy_sha1 ring_ab hello_key) ≡ node_a ∷ node_b ∷ []
unfolding add_node add_points add_member bytes_beq new hash_key virtual_key decimal owner sort
    sort_by GoMap.get GoMap.put
walk_hello = refl

pub replicas_hello : get_n toy_sha1 ring_ab hello_key (pos 3) ≡ node_a ∷ node_b ∷ []
replicas_hello = get_n-walk toy_sha1 ring_ab hello_key (pos 3) ring_ab-IsRing.owned ∙ walk_hello

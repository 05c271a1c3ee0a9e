-- ===== src/Examples/Healing.antt =====
-- The repair after the death of a node, at a ring of three nodes of which one dies.
use p2p_container_distributi.Prelude.{
  arith, ◌≡◌, refl, ap, ◌∙◌, true, false, ◌&&◌, List, [], ◌∷◌, ◌++◌, Bytes, bytes_eq, nat_eq,
  bytes_beq, ◌==◌, contains, codes, none,
}
use p2p_container_distributi.Prelude.Int.{pos}
use p2p_container_distributi.Prelude.Sorting.{sort, sort_by}
use p2p_container_distributi.Errors.{Result, ok}
use p2p_container_distributi.GoMap
use p2p_container_distributi.GoMap.{add_member}
use p2p_container_distributi.Storage.Memory.{Memory, memory, get, put}
use p2p_container_distributi.Chunk.{chunk_id, verify, encode_to_string}
use p2p_container_distributi.Ring.{
  Ring, decimal, new, add_node, add_points, get_n, virtual_nodes_per_node, hash_key, virtual_key,
}
use p2p_container_distributi.Ring.Points.{points}
use p2p_container_distributi.Ring.Invariant.{IsRing}
use p2p_container_distributi.Ring.Join.{add_node-IsRing}
use p2p_container_distributi.Ring.Replicas.{get_n-leave-join}
use p2p_container_distributi.Replication.{Job, new_engine, factor}
use p2p_container_distributi.Recovery.{handle_node_dead, repair_local_chunks}
use p2p_container_distributi.Recovery.Repair.{repairable}
use p2p_container_distributi.Exchange.{replicate_to}
use p2p_container_distributi.Exchange.Healing.{Answers, repair_heals}
use p2p_container_distributi.Examples.Rings.{
  all_distinct, Distinct-of_all, toy_sha1, node_a, node_b, ring_ab, ring_ab-IsRing, hello_key,
  replicas_hello,
}
use p2p_container_distributi.Examples.Blobs.{toy_sha256}
use p2p_container_distributi.Examples.Requests.{memory-StoreLaws}
use p2p_container_distributi.Examples.Exchanges.{
  hello_job, sender, addresses, fates, never, empty_world,
}

-- Node `c` joins the ring and dies, and node `b` repairs what it holds.
abbrev node_c : Bytes
node_c = codes "c"

abbrev ring_abc : Ring
ring_abc = add_node toy_sha1 node_c ring_ab

free_c :
    all_distinct (ring_ab.sorted_hashes ++ points toy_sha1 virtual_nodes_per_node 0 node_c) ≡ true
unfolding all_distinct points hash_key virtual_key decimal new add_node add_points sort sort_by
    add_member bytes_beq
free_c = refl

absent_c : contains ring_ab.nodes node_c ≡ false
unfolding new add_node add_points bytes_beq add_member
absent_c = refl

ring_abc-IsRing : IsRing ring_abc
ring_abc-IsRing =
    add_node-IsRing toy_sha1 ring_ab node_c ring_ab-IsRing (λ _. Distinct-of_all _ free_c)

replicas_after :
    get_n toy_sha1 (handle_node_dead node_c ring_abc) hello_key (pos factor)
    ≡ get_n toy_sha1 ring_ab hello_key (pos factor)
unfolding handle_node_dead
replicas_after =
    get_n-leave-join toy_sha1 ring_ab hello_key node_c ring_ab-IsRing absent_c
      (Distinct-of_all _ free_c) (pos factor)

abbrev held : Memory
held = (hello_key, codes "hello") ∷ []

abbrev reads : Bytes → Result Bytes
reads id = get id held

abbrev listed : List Bytes
listed = codes "other" ∷ hello_key ∷ []

listed_key : contains listed hello_key ≡ true
unfolding bytes_beq
listed_key = refl

read_key : reads hello_key ≡ ok (codes "hello")
unfolding get GoMap.get bytes_beq
read_key = refl

able :
    repairable toy_sha1 sender.self_id (λ _. handle_node_dead node_c ring_abc) reads hello_key
    ≡ true
unfolding new_engine get GoMap.get bytes_beq
able = ap (λ l. contains l node_b && true) (replicas_after ∙ replicas_hello)

hello_matches : verify toy_sha256 hello_key (codes "hello") ≡ true
unfolding verify chunk_id encode_to_string bytes_beq
hello_matches = refl

always_fits : (t : Memory) → (put hello_key (codes "hello") t).0 ≡ none
unfolding put
always_fits t = refl

replica_a :
    contains (get_n toy_sha1 (handle_node_dead node_c ring_abc) hello_key (pos factor)) node_a
    ≡ true
unfolding bytes_beq
replica_a = ap (λ l. contains l node_a) (replicas_after ∙ replicas_hello)

foreign_a : (node_a == sender.self_id) ≡ false
unfolding new_engine bytes_beq
foreign_a = refl

-- Its second answer arrives.
node_a-Answers : Answers sender fates never node_a
unfolding new_engine
node_a-Answers = (1, omega arith, refl, λ j le. refl)

repair_heals_example :
    let ring = handle_node_dead node_c ring_abc in
    ((before : List Job) × (after' : List Job) × (repair_local_chunks toy_sha1 sender.self_id
          (λ _. ring)
          reads
          (ok listed)
        ≡ before ++ hello_job ∷ after'))
    × (get hello_key
          ((replicate_to memory toy_sha256 toy_sha1 ring sender addresses fates never hello_job
              empty_world).1
            node_a).local
        ≡ ok (codes "hello"))
    × (contains (get_n toy_sha1 ring hello_key (pos factor)) node_c ≡ false)
repair_heals_example =
    repair_heals memory memory-StoreLaws toy_sha256 hello_job hello_matches always_fits sender
      addresses fates never toy_sha1 ring_abc node_c listed reads empty_world node_a node_a
      ring_abc-IsRing listed_key able read_key replica_a foreign_a refl node_a-Answers

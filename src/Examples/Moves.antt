-- ===== src/Examples/Moves.antt =====
-- The theorems on benchmarks/rebalance/main.go, at a cluster of one and of two nodes. The hash
-- takes off the first five letters, which the names of all nodes share.
use p2p_container_distributi.Prelude.{
  contains, bytes_eq, if◌then◌else◌, ◌*◌, ◌≤◌, ◌≡◌, refl, true, [], ◌++◌, arith, Bytes, drop, some,
}
use p2p_container_distributi.Ring.{
  Ring, new, add_node, add_points, hash_key, virtual_key, decimal, virtual_nodes_per_node,
}
use p2p_container_distributi.Ring.Points.{points}
use p2p_container_distributi.Ring.Invariant.{NoCollision}
use p2p_container_distributi.Prelude.Sorting.{sort, sort_by}
use p2p_container_distributi.Rebalance.{node_name, Tally, add_nodes, chunk_names, run_scenario}
use p2p_container_distributi.Rebalance.Names.{node_name_set}
use p2p_container_distributi.Rebalance.Moves.{AllFree, owned, join_moves, leave_moves}
use p2p_container_distributi.Examples.Rings.{all_distinct, Distinct-of_all}

abbrev cut_sha1 : Bytes → Bytes
cut_sha1 s = drop 5 s

abbrev one_node : Ring
one_node = add_node cut_sha1 (node_name 0) new

free_0 :
    all_distinct (new.sorted_hashes ++ points cut_sha1 virtual_nodes_per_node 0 (node_name 0))
    ≡ true
unfolding all_distinct points hash_key virtual_key decimal new node_name
free_0 = refl

free_1 :
    all_distinct (one_node.sorted_hashes ++ points cut_sha1 virtual_nodes_per_node 0 (node_name 1))
    ≡ true
unfolding all_distinct points hash_key virtual_key decimal new node_name add_node add_points sort
    sort_by
free_1 = refl

free_one : AllFree cut_sha1 1 0 new
free_one = (Distinct-of_all _ free_0, tt)

free_two : AllFree cut_sha1 2 0 new
free_two = (Distinct-of_all _ free_0, (Distinct-of_all _ free_1, tt))

free_join : NoCollision cut_sha1 (add_nodes cut_sha1 1 0 new) (node_name 1)
unfolding add_nodes
free_join = Distinct-of_all _ free_1

join_moves_example :
    let ring' = add_node cut_sha1 (node_name 1) (add_nodes cut_sha1 1 0 new) in
    (t : Tally) × (run_scenario cut_sha1 20 1 2 8 [] ≡ some t)
    × (t.moved_consist ≡ owned cut_sha1 ring' (node_name 1) (chunk_names 20 20 0))
    × (t.moved_consist ≤ 20)
    × (t.time_consistent ≡ t.moved_consist * 8)
join_moves_example = join_moves cut_sha1 20 1 8 [] (omega arith) free_one free_join

leave_moves_example :
    (t : Tally) × (run_scenario cut_sha1 20 2 1 8 (node_name 0) ≡ some t)
    × (t.moved_consist ≡ (
        if contains (add_nodes cut_sha1 2 0 new).nodes (node_name 0)
        then owned cut_sha1 (add_nodes cut_sha1 2 0 new) (node_name 0) (chunk_names 20 20 0)
        else 0))
    × (t.moved_consist ≤ 20)
    × (t.time_consistent ≡ t.moved_consist * 8)
leave_moves_example =
    leave_moves cut_sha1 20 2 8 (node_name 0) (omega arith) free_two (omega arith) (node_name_set 0)

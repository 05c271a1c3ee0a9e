-- ===== src/Rebalance/Moves.antt =====
-- What benchmarks/rebalance/main.go counts: the keys that move when a node joins or leaves.
use p2p_container_distributi.Prelude.{
  ℕ, zero, suc, ◌+◌, ◌-◌, ◌*◌, ◌%◌, ◌≤◌, ◌<◌, ◌≡◌, ◌≢◌, refl, ap, ◌∙◌, Bool, false, not, List, [],
  ◌∷◌, arith, Bytes, bytes_eq, nat_eq, Bool-cases, inl, inr, if◌then◌else◌, ◌==◌, eqb, contains,
  keep, length, length-keep-le, none, some,
}
use p2p_container_distributi.Ring.{Ring, new, add_node, remove_node, hash_key}
use p2p_container_distributi.Ring.Invariant.{IsRing, NoCollision, new-IsRing}
use p2p_container_distributi.Ring.Join.{add_node-IsRing}
use p2p_container_distributi.Rebalance.{
  chunk_names, node_name, count_moved, Tally, naive_owner, naive_owners, moved_by_remainder,
  add_nodes, owners, after_event, run_scenario,
}
use p2p_container_distributi.Rebalance.Names.{node_name_set, later_absent}
use p2p_container_distributi.Rebalance.Owners.{not_owner, owner_of, moved_on_join, moved_on_leave}

-- Each of the nodes finds its points free when it is added.
abbrev pub AllFree : (Bytes → Bytes) → ℕ → ℕ → Ring → Type 0
AllFree sha1 zero i r = Unit
AllFree sha1 (suc rounds) i r =
    NoCollision sha1 r (node_name i) × AllFree sha1 rounds (i + 1) (add_node sha1 (node_name i) r)

-- The keys that a node owns.
abbrev pub owned : (Bytes → Bytes) → Ring → Bytes → List Bytes → ℕ
owned sha1 r x keys = length (keep (λ key. owner_of sha1 key r == x) keys)

add_nodes-IsRing :
    (sha1 : Bytes → Bytes) (rounds i : ℕ) (r : Ring)
    → IsRing r
    → AllFree sha1 rounds i r
    → IsRing (add_nodes sha1 rounds i r)
unfolding add_nodes
add_nodes-IsRing sha1 zero i r v f = v
add_nodes-IsRing sha1 (suc rounds) i r v f =
    add_nodes-IsRing sha1 rounds (i + 1) _ (add_node-IsRing sha1 r (node_name i) v (λ _. f.0)) f.1

-- Only a member owns keys.
owned_none :
    (sha1 : Bytes → Bytes) (r : Ring) (x : Bytes)
    → IsRing r
    → x ≢ []
    → contains r.nodes x ≡ false
    → (keys : List Bytes) → owned sha1 r x keys ≡ 0
owned_none sha1 r x v named absent [] = refl
owned_none sha1 r x v named absent (key ∷ keys) =
    rw (not_owner sha1 key r x v named absent) (owned_none sha1 r x v named absent keys)

owned_member :
    (sha1 : Bytes → Bytes) (r : Ring) (x : Bytes)
    → IsRing r
    → x ≢ []
    → (keys : List Bytes)
    → owned sha1 r x keys ≡ (if contains r.nodes x then owned sha1 r x keys else 0)
owned_member sha1 r x v named keys = elim (Bool-cases (contains r.nodes x)) [
  | inl member ↦ rw member refl
  | inr absent ↦ rw absent (owned_none sha1 r x v named absent keys)
]

length-chunk_names : (total rounds i : ℕ) → length (chunk_names total rounds i) ≡ rounds
unfolding chunk_names
length-chunk_names total zero i = refl
length-chunk_names total (suc rounds) i = ap suc (length-chunk_names total rounds (i + 1))

-- The second loop counts the keys that pass a test, where a key moves exactly if it passes.
count_moved_lem :
    (sha1 : Bytes → Bytes) (r r' : Ring) (test : Bytes → Bool) (keys : List Bytes)
    → ((key : Bytes) → not (owner_of sha1 key r' == owner_of sha1 key r) ≡ test key)
    → count_moved (owners sha1 r keys) (owners sha1 r' keys) ≡ length (keep test keys)
unfolding count_moved owners
count_moved_lem sha1 r r' test [] h = refl
count_moved_lem sha1 r r' test (key ∷ keys) h =
    ground (arith, h key, count_moved_lem sha1 r r' test keys h)

naive_owners_total :
    (sha1 : Bytes → Bytes) (keys : List Bytes) (n : ℕ)
    → 0 < n
    → (os : List ℕ) × (naive_owners sha1 keys n ≡ some os)
unfolding naive_owners naive_owner
naive_owners_total sha1 [] n h = ([], refl)
naive_owners_total sha1 (key ∷ keys) n h =
    let (os, e) = naive_owners_total sha1 keys n h in
    let nonzero : eqb n 0 ≡ false = ground arith in
    ((hash_key sha1 key % n) ∷ os, rw (nonzero, e, naive_owners, naive_owner))

moved_by_remainder_total :
    (sha1 : Bytes → Bytes) (keys : List Bytes) (n m : ℕ)
    → 0 < n
    → 0 < m
    → (k : ℕ) × (moved_by_remainder sha1 keys n m ≡ some k)
unfolding moved_by_remainder
moved_by_remainder_total sha1 keys n m hn hm =
    let (before, e) = naive_owners_total sha1 keys n hn in
    let (after, f) = naive_owners_total sha1 keys m hm in
    (count_moved before after, rw (e, f, moved_by_remainder))

module _ (sha1 : Bytes → Bytes) (total n m cost : ℕ) (removed : Bytes) (hn : 0 < n)
    (hm : 0 < m) where
  abbrev all_keys : List Bytes
  all_keys = chunk_names total total 0

  abbrev ring_before : Ring
  ring_before = add_nodes sha1 n 0 new

  -- A scenario with nodes before and after it ends, with the tally of its loops.
  run_scenario_total :
      (t : Tally) × (run_scenario sha1 total n m cost removed ≡ some t)
      × (t.moved_consist
          ≡ count_moved
              (owners sha1 ring_before all_keys)
              (owners sha1 (after_event sha1 n m removed ring_before) all_keys))
      × (t.time_consistent ≡ t.moved_consist * cost)
  unfolding run_scenario
  run_scenario_total =
      let (k, e) = moved_by_remainder_total sha1 all_keys n m hn hm in
      let moved : ℕ =
        count_moved (owners sha1 ring_before all_keys)
          (owners sha1 (after_event sha1 n m removed ring_before) all_keys) in
      (
        record {
          total_keys = total;
          moved_naive = k;
          moved_consist = moved;
          time_naive = k * cost;
          time_consistent = moved * cost;
        },
        rw (e, run_scenario),
        refl,
        refl,
      )

module _ (sha1 : Bytes → Bytes) (total n cost : ℕ) (removed : Bytes) (some_node : 0 < n)
    (free : AllFree sha1 n 0 new) where
  -- A scenario in which a node joins at least one node, no points collide, ends and counts as moved
  -- by the ring exactly the keys that the new node owns afterwards, which are at most all, and the
  -- time for them.
  pub join_moves :
      NoCollision sha1 (add_nodes sha1 n 0 new) (node_name n)
      → let ring = add_nodes sha1 n 0 new in
        let ring' = add_node sha1 (node_name n) ring in
        (t : Tally) × (run_scenario sha1 total n (n + 1) cost removed ≡ some t)
        × (t.moved_consist ≡ owned sha1 ring' (node_name n) (chunk_names total total 0))
        × (t.moved_consist ≤ total)
        × (t.time_consistent ≡ t.moved_consist * cost)
  unfolding after_event
  join_moves free_last =
      let ring : Ring = add_nodes sha1 n 0 new in
      let ring' : Ring = add_node sha1 (node_name n) ring in
      let keys : List Bytes = chunk_names total total 0 in
      let (t, ends, moved, time) =
        run_scenario_total sha1 total n (n + 1) cost removed some_node (omega arith) in
      let joins : after_event sha1 n (n + 1) removed ring ≡ ring' = ground arith in
      let absent : contains ring.nodes (node_name n) ≡ false =
        later_absent sha1 n 0 n new (omega arith) (unfold new in refl) in
      let count : t.moved_consist ≡ owned sha1 ring' (node_name n) keys =
        moved
        ∙ ap (λ r. count_moved (owners sha1 ring keys) (owners sha1 r keys)) joins
        ∙ count_moved_lem sha1 ring ring' (λ key. owner_of sha1 key ring' == node_name n) keys
            (λ key.
              moved_on_join sha1 key ring (node_name n)
                (add_nodes-IsRing sha1 n 0 new new-IsRing free) (node_name_set n) absent
                free_last) in
      (
        t,
        ends,
        count,
        omega (
          arith,
          count,
          length-keep-le (λ key. owner_of sha1 key ring' == node_name n) keys,
          length-chunk_names total total 0,
        ),
        time,
      )

  -- A scenario in which a node, whose name is not empty, leaves two or more, and no points collide,
  -- ends and counts as moved by the ring exactly the keys that the node owned before, which are at
  -- most all, and the time for them; none if it was not on the ring.
  pub leave_moves :
      1 < n
      → removed ≢ []
      → let ring = add_nodes sha1 n 0 new in
        (t : Tally) × (run_scenario sha1 total n (n - 1) cost removed ≡ some t)
        × (t.moved_consist ≡ (
            if contains ring.nodes removed
            then owned sha1 ring removed (chunk_names total total 0)
            else 0))
        × (t.moved_consist ≤ total)
        × (t.time_consistent ≡ t.moved_consist * cost)
  unfolding after_event
  leave_moves more named =
      let ring : Ring = add_nodes sha1 n 0 new in
      let keys : List Bytes = chunk_names total total 0 in
      let (t, ends, moved, time) =
        run_scenario_total sha1 total n (n - 1) cost removed some_node (omega arith) in
      let leaves : after_event sha1 n (n - 1) removed ring ≡ remove_node removed ring =
        ground arith in
      let count : t.moved_consist ≡ owned sha1 ring removed keys =
        moved
        ∙ ap (λ r. count_moved (owners sha1 ring keys) (owners sha1 r keys)) leaves
        ∙ count_moved_lem sha1 ring (remove_node removed ring)
            (λ key. owner_of sha1 key ring == removed) keys
            (λ key.
              moved_on_leave sha1 key ring removed (add_nodes-IsRing sha1 n 0 new new-IsRing free)
                named) in
      (
        t,
        ends,
        count
            ∙ owned_member sha1 ring removed (add_nodes-IsRing sha1 n 0 new new-IsRing free) named
                keys,
        omega (
          arith,
          count,
          length-keep-le (λ key. owner_of sha1 key ring == removed) keys,
          length-chunk_names total total 0,
        ),
        time,
      )

-- A scenario with a chunk in which the last node leaves panics: the remainder is by zero.
pub leave_last :
    (sha1 : Bytes → Bytes) (total cost : ℕ) (removed : Bytes)
    → run_scenario sha1 (suc total) 1 0 cost removed ≡ none
unfolding run_scenario moved_by_remainder naive_owners naive_owner chunk_names
leave_last sha1 total cost removed =
    let (os, e) = naive_owners_total sha1 (chunk_names (suc total) total 1) 1 (omega arith) in
    rw e refl

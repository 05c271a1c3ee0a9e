-- ===== src/Rebalance.antt =====
-- benchmarks/rebalance/main.go: how many keys change their owner when a node joins or leaves, with
-- owners by remainder and by the ring. The percentages, which are floats, are left out.
pub mod Names
pub mod Owners
pub mod Moves
use p2p_container_distributi.Prelude.{
  ℕ, zero, suc, ◌+◌, ◌*◌, ◌%◌, not, List, [], ◌∷◌, ◌++◌, map, Option, none, some, Bytes, codes,
  bytes_eq, nat_eq, Eq, ◌==◌, eqb, ltb, if◌then◌else◌,
}
use p2p_container_distributi.Ring.{Ring, new, decimal, hash_key, add_node, remove_node, get_owner}

-- fmt.Sprintf("chunk-%d-%d", totalKeys, i)
chunk_name : ℕ → ℕ → Bytes
chunk_name total_keys i = codes "chunk-" ++ (decimal total_keys ++ b'-' ∷ decimal i)

-- The keys from `i` on, of which `rounds` are left.
unfoldable pub chunk_names : ℕ → ℕ → ℕ → List Bytes
unfolding chunk_name
chunk_names total_keys zero i = []
chunk_names total_keys (suc rounds) i =
    chunk_name total_keys i ∷ chunk_names total_keys rounds (i + 1)

-- fmt.Sprintf("node-%d", i)
unfoldable pub node_name : ℕ → Bytes
node_name i = codes "node-" ++ decimal i

-- How many of the keys have another owner: the second loop against what the first has kept.
unfoldable pub count_moved {ℓ} : {A : Type ℓ} ⦃e : Eq A⦄ → List A → List A → ℕ
count_moved [] after = 0
count_moved (a ∷ before) [] = 0
count_moved (a ∷ before) (b ∷ after) =
    let rest = count_moved before after in if not (b == a) then rest + 1 else rest

-- What `runScenario` reports.
pub record Tally : Type 0 where
  pub total_keys : ℕ
  pub moved_naive : ℕ
  pub moved_consist : ℕ
  pub time_naive : ℕ
  pub time_consistent : ℕ

module _ (sha1 : Bytes → Bytes) where
  -- The remainder by zero panics: `none`.
  unfoldable pub naive_owner : Bytes → ℕ → Option ℕ
  naive_owner chunk_id n = if eqb n 0 then none else some (hash_key sha1 chunk_id % n)

  unfoldable pub naive_owners : List Bytes → ℕ → Option (List ℕ)
  naive_owners [] n = some []
  naive_owners (key ∷ keys) n = elim (naive_owner key n) [
    | none ↦ none
    | some owner ↦ elim (naive_owners keys n) [ none ↦ none | some owners ↦ some (owner ∷ owners) ]
  ]

  unfoldable pub moved_by_remainder : List Bytes → ℕ → ℕ → Option ℕ
  moved_by_remainder keys nodes_before nodes_after = elim (naive_owners keys nodes_before) [
    | none ↦ none
    | some before ↦ elim (naive_owners keys nodes_after) [
      | none ↦ none
      | some after ↦ some (count_moved before after)
    ]
  ]

  -- The nodes of the cluster from `i` on.
  unfoldable pub add_nodes : ℕ → ℕ → Ring → Ring
  add_nodes zero i r = r
  add_nodes (suc rounds) i r = add_nodes rounds (i + 1) (add_node sha1 (node_name i) r)

  unfoldable pub owners : Ring → List Bytes → List Bytes
  owners r = map (λ key. (get_owner sha1 r key).0)

  -- The node joins or leaves, if the numbers differ.
  unfoldable pub after_event : ℕ → ℕ → Bytes → Ring → Ring
  after_event nodes_before nodes_after removed r =
      if ltb nodes_before nodes_after
      then add_node sha1 (node_name nodes_before) r
      else (if ltb nodes_after nodes_before then remove_node removed r else r)

  unfoldable pub run_scenario : ℕ → ℕ → ℕ → ℕ → Bytes → Option Tally
  unfolding moved_by_remainder after_event
  run_scenario total_keys nodes_before nodes_after per_chunk_cost removed =
      let keys = chunk_names total_keys total_keys 0 in
      let ring = add_nodes nodes_before 0 new in
      let ring' = after_event nodes_before nodes_after removed ring in
      let moved_consist = count_moved (owners ring keys) (owners ring' keys) in
      elim (moved_by_remainder keys nodes_before nodes_after) [
        | none ↦ none
        | some moved_naive ↦ some (record {
          total_keys = total_keys;
          moved_naive = moved_naive;
          moved_consist = moved_consist;
          time_naive = moved_naive * per_chunk_cost;
          time_consistent = moved_consist * per_chunk_cost;
        })
      ]

-- ===== src/Ring.antt =====
-- internal/hashring/hashring.go: the consistent hash ring with virtual nodes. SHA-1 is the
-- parameter `sha1`. The mutex makes each method one step, so a method is a function of the ring.
mod Search
pub mod Points
pub mod Walk
pub mod Invariant
pub mod Join
pub mod Placement
pub mod Replicas
pub mod Members
pub mod Agreement
pub mod Histories
pub mod Names
use Search.{search_first}
use p2p_container_distributi.Prelude.{
  ℕ, zero, suc, ◌+◌, ◌*◌, ◌/◌, ◌%◌, Bool, true, false, not, ◌&&◌, ◌||◌, List, [], ◌∷◌, ◌++◌, map,
  Option, none, some, arith, Bytes, codes, contains, length, get_or, take, keep, ltb, leb, eqb,
  if◌then◌else◌, ◌==◌, bytes_eq, nat_eq, bytes_beq,
}
use p2p_container_distributi.Prelude.Int.{ℤ, pos, pos_part}
use p2p_container_distributi.Prelude.Sorting.{sort, sort_by}
use p2p_container_distributi.Text.{bytes_le}
use p2p_container_distributi.GoMap.{get, put, delete, add_member, remove_member}

-- Points on the ring for each node.
abbrev pub virtual_nodes_per_node : ℕ
virtual_nodes_per_node = 150

pub record Ring : Type 0 where
  pub sorted_hashes : List ℕ
  pub hash_to_node : List (ℕ × Bytes)
  pub nodes : List Bytes

unfoldable pub new : Ring
new = record { sorted_hashes = []; hash_to_node = []; nodes = [] }

-- fmt's `%d` of a number that is not negative.
unfoldable pub decimal_digits : ℕ → ℕ → Bytes → Bytes
decimal_digits zero n acc = acc
decimal_digits (suc fuel) n acc =
    let rest = decimal_digits fuel (n / 10) ((b'0' + n % 10) ∷ acc) in
    if ltb n 10 then (b'0' + n) ∷ acc else rest

unfoldable pub decimal : ℕ → Bytes
unfolding decimal_digits
decimal n = decimal_digits (suc n) n []

-- binary.BigEndian.Uint64
big_endian : ℕ → Bytes → ℕ
big_endian acc [] = acc
big_endian acc (b ∷ bs) = big_endian (acc * 256 + b) bs

-- r.hashToNode[h]: the empty string where the map has no entry.
unfoldable pub owner : Ring → ℕ → Bytes
owner r h = elim (get h r.hash_to_node) [ none ↦ [] | some node ↦ node ]

-- fmt.Sprintf("%s#%d", nodeID, i)
unfoldable pub virtual_key : Bytes → ℕ → Bytes
virtual_key node_id i = node_id ++ b'#' ∷ decimal i

module _ (sha1 : Bytes → Bytes) where
  unfoldable pub hash_key : Bytes → ℕ
  unfolding big_endian
  hash_key key = big_endian 0 (take 8 (sha1 key))

  -- for i := ...; i < VirtualNodesPerNode; i++
  unfoldable pub add_points : ℕ → ℕ → Bytes → Ring → Ring
  unfolding hash_key virtual_key
  add_points zero i node_id r = r
  add_points (suc rounds) i node_id r =
      let h = hash_key (virtual_key node_id i) in
      add_points rounds (i + 1) node_id (record r {
        hash_to_node = put h node_id r.hash_to_node;
        sorted_hashes = r.sorted_hashes ++ h ∷ [];
      })

  unfoldable pub add_node : Bytes → Ring → Ring
  add_node node_id r =
      if contains r.nodes node_id
      then r
      else (let r' =
            add_points virtual_nodes_per_node 0 node_id
              (record r { nodes = add_member node_id r.nodes }) in
          record r' { sorted_hashes = sort r'.sorted_hashes })

-- The loop of `RemoveNode` over the old hashes, with the hashes kept so far.
unfoldable pub remove_points : Bytes → List ℕ → List ℕ → Ring → Ring
remove_points node_id [] new_hashes r = record r { sorted_hashes = new_hashes }
remove_points node_id (h ∷ hs) new_hashes r =
    let hit = owner r h == node_id in
    remove_points node_id hs (if hit then new_hashes else new_hashes ++ h ∷ [])
      (record r { hash_to_node = if hit then delete h r.hash_to_node else r.hash_to_node })

unfoldable pub remove_node : Bytes → Ring → Ring
remove_node node_id r =
    if not (contains r.nodes node_id)
    then r
    else remove_points node_id r.sorted_hashes []
        (record r { nodes = remove_member node_id r.nodes })

-- `Nodes`: a copy of the set in ascending order.
unfoldable pub node_ids : Ring → List Bytes
node_ids r = sort_by bytes_le r.nodes

-- The loop of `GetN`: `rounds` is what is left of `len(r.sortedHashes)`.
collect : Ring → ℕ → ℕ → ℕ → ℕ → List Bytes → List Bytes → List Bytes
collect r idx n zero i seen result = result
collect r idx n (suc rounds) i seen result =
    let pos = (idx + i) % length r.sorted_hashes in
    let node = owner r (get_or r.sorted_hashes pos 0) in
    let fresh = not (contains seen node) in
    let rest =
      collect r idx n rounds (i + 1) (if fresh then add_member node seen else seen)
        (if fresh then result ++ node ∷ [] else result) in
    if ltb (length result) n && ltb (length seen) (length r.nodes) then rest else result

module _ (sha1 : Bytes → Bytes) where
  -- `n` is an `int`, and may be negative.
  pub get_n : Ring → Bytes → ℤ → List Bytes
  get_n r key n =
      let h = hash_key sha1 key in
      let idx = search_first (length r.sorted_hashes) (λ i. leb h (get_or r.sorted_hashes i 0)) in
      if eqb (length r.sorted_hashes) 0 || eqb (pos_part n) 0
      then []
      else collect r idx (pos_part n) (length r.sorted_hashes) 0 [] []

  -- The node and whether there is one.
  pub get_owner : Ring → Bytes → Bytes × Bool
  get_owner r key = elim (get_n r key (pos 1)) [ [] ↦ ([], false) | node ∷ _ ↦ (node, true) ]

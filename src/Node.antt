-- ===== src/Node.antt =====
-- cmd/node/main.go: how a node is set up from its settings. Flags, logging, signals and the HTTP
-- listener are left out; `now` is the time when the peers are registered.
pub mod Setup
pub mod Settings
pub mod Run
pub mod Waiting
pub mod Following
pub mod Agreement
pub mod Lifetime
use p2p_container_distributi.Prelude.{
  ℕ, Bool, true, false, List, [], ◌∷◌, Option, none, some, Bytes, bytes_eq, ◌==◌, if◌then◌else◌,
}
use p2p_container_distributi.Text.{split_on, cut_at, trim_space}
use p2p_container_distributi.Ring.{Ring, add_node}
use p2p_container_distributi.Ring
use p2p_container_distributi.Cluster.{
  Membership, Peer, add_peer, all_peers, on_node_dead, on_node_alive,
}
use p2p_container_distributi.Cluster

-- `envOr` of the value of the variable
unfoldable pub env_or : Bytes → Bytes → Bytes
env_or v fallback = if v == [] then fallback else v

-- The two callbacks that are registered: `HandleNodeDead` and `HandleNodeAlive` of the recovery.
pub data Callback : Type 0 where
  node_dead node_alive : Callback

-- What the loop over the peers changes.
pub record Setting : Type 0 where
  pub membership : Membership Callback
  pub ring : Ring

module _ (sha1 : Bytes → Bytes) (now : ℕ) where
  unfoldable pub add_entry : Bytes → Setting → Setting
  add_entry entry n =
      let trimmed = trim_space entry in
      if trimmed == [] then n else elim (cut_at b'=' trimmed) [
        | none ↦ n
        | some (id, addr) ↦ record {
          membership = add_peer id addr now n.membership;
          ring = add_node sha1 id n.ring;
        }
      ]

  unfoldable pub add_entries : List Bytes → Setting → Setting
  add_entries [] n = n
  add_entries (entry ∷ entries) n = add_entries entries (add_entry entry n)

  unfoldable pub configure : Bytes → Bytes → Bytes → Setting
  configure node_id advertise peers =
      let n = add_entries (split_on b',' peers) (record {
        membership = Cluster.new node_id advertise now;
        ring = add_node sha1 node_id Ring.new;
      }) in
      record n { membership = on_node_alive node_alive (on_node_dead node_dead n.membership) }

find_addr : List Peer → Bytes → Option Bytes
find_addr [] node_id = none
find_addr (p ∷ ps) node_id =
    let rest = find_addr ps node_id in if p.id == node_id then some p.addr else rest

-- `AddrFor` of the resolver: any peer of the table, whatever its state.
unfoldable pub addr_for : Membership Callback → Bytes → Option Bytes
unfolding find_addr
addr_for m node_id = find_addr (all_peers m) node_id

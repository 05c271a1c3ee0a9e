-- ===== src/Replication/Targets.antt =====
-- Which nodes `replicate` of internal/replication/replication.go pushes a chunk to.
use p2p_container_distributi.Prelude.{
  ◌≤◌, ◌≡◌, refl, Bool, true, false, ◌&&◌, not, List, [], ◌∷◌, map, arith, Bytes, bytes_eq, ◌==◌,
  ==_iff, contains, Distinct, length, length-keep-le, keep, Option, none, some,
}
use p2p_container_distributi.Prelude.Int.{pos}
use p2p_container_distributi.Prelude.Dedup.{
  Within, keep-Distinct, contains-keep, Within-contains, Within-of_contains,
}
use p2p_container_distributi.Ring.{Ring, get_n}
use p2p_container_distributi.Ring.Invariant.{IsRing}
use p2p_container_distributi.Ring.Placement.{get_n_replicas}
use p2p_container_distributi.Replication.{
  Job, Engine, Pushed, Network, factor, push_targets, replicate,
}

abbrev is_some : Option Bytes → Bool
is_some none = false
is_some (some a) = true

-- The targets that get a push: not this node, and with a known address.
abbrev pub reachable : Engine → (Bytes → Option Bytes) → Bytes → Bool
reachable e addr_for node = not (node == e.self_id) && is_some (addr_for node)

abbrev pub pushed_nodes : List (Bytes × Pushed) → List Bytes
pushed_nodes = map (λ p. p.0)

push_targets-nodes :
    (e : Engine) (addr_for : Bytes → Option Bytes) (net : Network) (targets : List Bytes)
    → pushed_nodes (push_targets e addr_for net targets) ≡ keep (reachable e addr_for) targets
unfolding push_targets
push_targets-nodes e addr_for net [] = refl
push_targets-nodes e addr_for net (node ∷ targets) =
    ground (arith, push_targets-nodes e addr_for net targets)

-- A job is pushed to exactly the replicas of its chunk other than this node whose address is known,
-- in the order of the ring.
pub replicate-nodes :
    (sha1 : Bytes → Bytes) (ring : Ring) (addr_for : Bytes → Option Bytes) (net : Network)
    (e : Engine) (job : Job)
    → pushed_nodes (replicate sha1 ring addr_for net e job)
      ≡ keep (reachable e addr_for) (get_n sha1 ring job.chunk_id (pos factor))
unfolding replicate
replicate-nodes sha1 ring addr_for net e job = push_targets-nodes e addr_for net _

-- On a well-formed ring a job is pushed at most `Factor` times, to distinct nodes of the ring, and
-- never to this node.
pub replicate_bounds :
    (sha1 : Bytes → Bytes) (ring : Ring) (addr_for : Bytes → Option Bytes) (net : Network)
    (e : Engine) (job : Job)
    → IsRing ring
    → let nodes = pushed_nodes (replicate sha1 ring addr_for net e job) in
      (length nodes ≤ factor)
      × Distinct nodes
      × Within ring.nodes nodes
      × (contains nodes e.self_id ≡ false)
replicate_bounds sha1 ring addr_for net e job v =
    let targets = get_n sha1 ring job.chunk_id (pos factor) in
    let (d, w, l) = get_n_replicas sha1 ring job.chunk_id (pos factor) v in
    rw (replicate-nodes sha1 ring addr_for net e job) (
      omega (arith, length-keep-le (reachable e addr_for) targets, l),
      keep-Distinct (reachable e addr_for) targets d,
      Within-of_contains (keep (reachable e addr_for) targets) ring.nodes (λ a c.
          Within-contains targets ring.nodes a w
            (ground (arith, contains-keep (reachable e addr_for) targets a))),
      ground (
        arith,
        contains-keep (reachable e addr_for) targets e.self_id,
        ==_iff e.self_id e.self_id,
      ),
    )

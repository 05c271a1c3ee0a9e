-- ===== src/Recovery/Repair.antt =====
-- The jobs that the repair of internal/recovery/recovery.go enqueues, and their pushes.
use p2p_container_distributi.Prelude.{
  ◌≡◌, refl, ap, ◌∙◌, Bool, true, false, ◌&&◌, not, List, [], ◌∷◌, map, arith, Bytes, bytes_eq,
  ◌==◌, ==_iff, contains, keep, All, Option, Bool-cases, inl, inr,
}
use p2p_container_distributi.Prelude.Int.{pos}
use p2p_container_distributi.Prelude.Dedup.{contains-keep, Within-contains}
use p2p_container_distributi.Errors.{Result, ok, err}
use p2p_container_distributi.Ring.{Ring, get_n, remove_node}
use p2p_container_distributi.Ring.Invariant.{IsRing, remove_node-IsRing, nodes-remove_node}
use p2p_container_distributi.Ring.Placement.{get_n_replicas}
use p2p_container_distributi.Replication.{Job, Engine, Network, factor, replicate}
use p2p_container_distributi.Replication.Targets.{reachable, pushed_nodes, replicate-nodes}
use p2p_container_distributi.Recovery.{repair_chunks, repair_local_chunks, handle_node_dead}

abbrev is_ok : Result Bytes → Bool
is_ok (ok bs) = true
is_ok (err e) = false

module _ (sha1 : Bytes → Bytes) (self_id : Bytes) (ring_at : Bytes → Ring)
    (read : Bytes → Result Bytes) where
  -- This node is a replica of the chunk and can read it.
  abbrev pub repairable : Bytes → Bool
  repairable id = contains (get_n sha1 (ring_at id) id (pos factor)) self_id && is_ok (read id)

  abbrev job_ids : List Job → List Bytes
  job_ids = map (λ (j : Job). j.chunk_id)

  -- The repair enqueues exactly the listed chunks that this node is a replica of and can read, in
  -- the order of the list.
  pub repair_chunks-ids :
      (ids : List Bytes)
      → job_ids (repair_chunks sha1 self_id ring_at read ids) ≡ keep repairable ids
  unfolding repair_chunks
  repair_chunks-ids [] = refl
  repair_chunks-ids (id ∷ ids) = ground (arith, repair_chunks-ids ids)

  -- Each job carries what the store holds under its id.
  repair_chunks-content :
      (ids : List Bytes)
      → All
          (λ (j : Job). read j.chunk_id ≡ ok j.content)
          (repair_chunks sha1 self_id ring_at read ids)
  unfolding repair_chunks
  repair_chunks-content [] = tt
  repair_chunks-content (id ∷ ids) = ground (arith, repair_chunks-content ids)

removed_absent : (r : Ring) (x : Bytes) → IsRing r → contains (remove_node x r).nodes x ≡ false
removed_absent r x v = elim (Bool-cases (contains r.nodes x)) [
  | inl member ↦
      ap (λ l. contains l x) (nodes-remove_node r x v member)
      ∙ contains-keep (λ y. not (y == x)) r.nodes x
      ∙ ground (arith, ==_iff x x)
  | inr absent ↦ unfold remove_node in rw (absent) absent
]

-- A node that was removed is in no replica set.
pub gone :
    (sha1 : Bytes → Bytes) (r : Ring) (x key : Bytes)
    → IsRing r
    → contains (get_n sha1 (remove_node x r) key (pos factor)) x ≡ false
gone sha1 r x key v =
    let s = remove_node x r in
    let (d, w, l) = get_n_replicas sha1 s key (pos factor) (remove_node-IsRing r x v) in
    elim (Bool-cases (contains (get_n sha1 s key (pos factor)) x)) [
      | inr out ↦ out
      | inl in_ ↦
          cc (Within-contains (get_n sha1 s key (pos factor)) s.nodes x w in_, removed_absent r x v)
    ]

-- When a node has died and was removed from a well-formed ring, a listed chunk of which this node
-- is now a replica, and which it can read, is enqueued by the repair; and its job, run on the new
-- ring, is pushed to exactly the other replicas whose address is known, the dead node not among
-- them.
pub repair_restores :
    (sha1 : Bytes → Bytes) (r : Ring) (dead_id id : Bytes) (ids : List Bytes)
    (read : Bytes → Result Bytes) (e : Engine) (addr_for : Bytes → Option Bytes) (net : Network)
    (job : Job)
    → IsRing r
    → contains ids id ≡ true
    → job.chunk_id ≡ id
    → repairable sha1 e.self_id (λ _. handle_node_dead dead_id r) read id ≡ true
    → (contains
          (map
            (λ (j : Job). j.chunk_id)
            (repair_local_chunks sha1 e.self_id (λ _. handle_node_dead dead_id r) read (ok ids)))
          id
        ≡ true)
      × (pushed_nodes (replicate sha1 (handle_node_dead dead_id r) addr_for net e job)
          ≡ keep (reachable e addr_for) (get_n sha1 (remove_node dead_id r) id (pos factor)))
      × (contains
            (pushed_nodes (replicate sha1 (handle_node_dead dead_id r) addr_for net e job))
            dead_id
          ≡ false)
unfolding handle_node_dead repair_local_chunks
repair_restores sha1 r dead_id id ids read e addr_for net job v listed same able =
    let s = remove_node dead_id r in
    let nodes : pushed_nodes (replicate sha1 s addr_for net e job)
        ≡ keep (reachable e addr_for) (get_n sha1 s id (pos factor)) =
      replicate-nodes sha1 s addr_for net e job
      ∙ ap (λ k. keep (reachable e addr_for) (get_n sha1 s k (pos factor))) same in
    (
      ap (λ l. contains l id) (repair_chunks-ids sha1 e.self_id (λ _. s) read ids)
          ∙ contains-keep (repairable sha1 e.self_id (λ _. s) read) ids id
          ∙ ground arith,
      nodes,
      ap (λ l. contains l dead_id) nodes
          ∙ contains-keep (reachable e addr_for) (get_n sha1 s id (pos factor)) dead_id
          ∙ ground (arith, gone sha1 r dead_id id v),
    )

-- ===== src/Recovery.antt =====
-- internal/recovery/recovery.go: what a node does when a peer dies or comes back. The repair runs
-- beside normal traffic, so the ring that it sees and the store that it reads are given for each
-- chunk.
pub mod Repair
use p2p_container_distributi.Prelude.{
  ℕ, ◌+◌, ◌-◌, Bool, true, false, not, List, [], ◌∷◌, ◌++◌, Option, none, some, Bytes, bytes_eq,
  ◌==◌, codes, contains, if◌then◌else◌,
}
use p2p_container_distributi.Prelude.Int.{pos}
use p2p_container_distributi.Errors.{Result, ok, err}
use p2p_container_distributi.Ring.{Ring, decimal, get_n, add_node, remove_node}
use p2p_container_distributi.Replication.{Job, factor}

pub record Manager : Type 0 where
  pub self_id : Bytes
  repairs_running : ℕ
  repairs_complete : ℕ

pub new : Bytes → Manager
new self_id = record { self_id = self_id; repairs_running = 0; repairs_complete = 0 }

-- The ring after `HandleNodeDead`; the repair is started beside it.
unfoldable pub handle_node_dead : Bytes → Ring → Ring
handle_node_dead dead_node_id ring = remove_node dead_node_id ring

unfoldable pub handle_node_alive : (Bytes → Bytes) → Bytes → Ring → Ring
handle_node_alive sha1 node_id ring = add_node sha1 node_id ring

unfoldable start_repair : Manager → Manager
start_repair m = record m { repairs_running = m.repairs_running + 1 }

unfoldable end_repair : Manager → Manager
end_repair m = record m {
  repairs_running = m.repairs_running - 1;
  repairs_complete = m.repairs_complete + 1;
}

-- The loop of `repairLocalChunks` over the listed ids: the jobs that it enqueues.
unfoldable pub repair_chunks :
    (Bytes → Bytes) → Bytes → (Bytes → Ring) → (Bytes → Result Bytes) → List Bytes → List Job
repair_chunks sha1 self_id ring_at read [] = []
repair_chunks sha1 self_id ring_at read (chunk_id ∷ ids) =
    let rest = repair_chunks sha1 self_id ring_at read ids in
    let new_targets = get_n sha1 (ring_at chunk_id) chunk_id (pos factor) in
    if not (contains new_targets self_id) then rest else elim (read chunk_id) [
      | err e ↦ rest
      | ok content ↦ record { chunk_id = chunk_id; content = content } ∷ rest
    ]

unfoldable pub repair_local_chunks :
    (Bytes → Bytes)
    → Bytes
    → (Bytes → Ring)
    → (Bytes → Result Bytes)
    → Result (List Bytes)
    → List Job
repair_local_chunks sha1 self_id ring_at read (err e) = []
repair_local_chunks sha1 self_id ring_at read (ok ids) = repair_chunks sha1 self_id ring_at read ids

-- `Status`
unfoldable pub status_text : Manager → Bytes
status_text m =
    codes "repairs_running="
    ++ decimal m.repairs_running
    ++ codes " repairs_complete="
    ++ decimal m.repairs_complete

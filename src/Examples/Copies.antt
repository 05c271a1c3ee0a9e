-- ===== src/Examples/Copies.antt =====
-- The theorems on internal/replication/replication.go and internal/recovery/recovery.go.
use p2p_container_distributi.Prelude.{
  ℕ, ◌≤◌, ◌≡◌, refl, Bool, false, arith, Bytes, bytes_eq, contains, Distinct, length, Option, none,
  some, codes, if◌then◌else◌, ltb,
}
use p2p_container_distributi.Prelude.Int.{pos}
use p2p_container_distributi.Prelude.Dedup.{Within}
use p2p_container_distributi.Errors.{Error, other}
use p2p_container_distributi.Replication.{
  Job, Engine, delivered, Network, new_engine, push_with_retry, replicate, factor,
}
use p2p_container_distributi.Replication.Retry.{push_with_retry-delivers}
use p2p_container_distributi.Replication.Targets.{pushed_nodes, replicate_bounds}
use p2p_container_distributi.Examples.Rings.{toy_sha1, node_a, some_key, ring_ab, ring_ab-IsRing}

abbrev engine : Engine
engine = new_engine node_a (pos 4)

-- A peer that takes the third attempt.
abbrev answer : ℕ → Option Error
answer attempt = if ltb attempt 2 then some other else none

abbrev never_done : ℕ → Bool
never_done attempt = false

enough : 2 ≤ engine.max_retries
unfolding new_engine
enough = omega arith

push_with_retry-delivers_example :
    ((push_with_retry engine answer never_done).outcome ≡ delivered)
    × ((push_with_retry engine answer never_done).attempts ≤ 3)
push_with_retry-delivers_example =
    push_with_retry-delivers engine answer never_done 2 enough refl (λ j h. refl)

abbrev addr_for : Bytes → Option Bytes
addr_for node = some node

abbrev network : Network
network = record { answer = λ addr. answer; done = λ addr. never_done }

abbrev job : Job
job = record { chunk_id = some_key; content = codes "data" }

replicate_bounds_example :
    let nodes = pushed_nodes (replicate toy_sha1 ring_ab addr_for network engine job) in
    (length nodes ≤ factor)
    × Distinct nodes
    × Within ring_ab.nodes nodes
    × (contains nodes engine.self_id ≡ false)
replicate_bounds_example =
    replicate_bounds toy_sha1 ring_ab addr_for network engine job ring_ab-IsRing

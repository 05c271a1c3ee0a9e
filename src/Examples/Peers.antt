-- ===== src/Examples/Peers.antt =====
-- The theorems on internal/cluster/membership.go and cmd/node/main.go at a node with one peer.
use mathlib.Core.List.{Permᴰ}
use p2p_container_distributi.Prelude.{
  ℕ, Bool, ◌==◌, Distinct, ◌+◌, ◌*◌, ◌≡◌, refl, true, false, List, [], ◌∷◌, arith, Bytes, bytes_eq,
  bytes_beq, some, codes,
}
use p2p_container_distributi.GoMap
use p2p_container_distributi.GoMap.{keys}
use p2p_container_distributi.Cluster.{
  Peer, alive, dead, Membership, second, ping_all, heartbeat_round,
}
use p2p_container_distributi.Cluster.Callbacks.{
  deaths, returns, held_dead, IsWired, Silent, deaths-returns,
}
use p2p_container_distributi.Cluster.Histories.{Op, pings, marks, run}
use p2p_container_distributi.Cluster.Detection.{unanswered}
use p2p_container_distributi.Cluster.Rounds.{judged, heartbeat_round-any_order}
use p2p_container_distributi.Cluster.Beats.{
  Signal, ticks, stops, own_probes, beat_loop, beats-own_probes, beats-detect,
}
use p2p_container_distributi.Cluster.Marks.{answered, mark-returns}
use p2p_container_distributi.Node.{Callback, node_dead, node_alive}

abbrev self_id : Bytes
self_id = codes "node-1"

abbrev peer_id : Bytes
peer_id = codes "node-2"

abbrev peer_addr : Bytes
peer_addr = codes "host2:8080"

abbrev peer : Peer
peer = record { id = peer_id; addr = peer_addr; state = alive; last_heartbeat = 0 }

-- Set up at time 0, with one peer.
abbrev members : Membership Callback
members = record {
  self = record { id = self_id; addr = codes "host1:8080"; state = alive; last_heartbeat = 0 };
  peers = (peer_id, peer) ∷ [];
  suspect_after = 3 * second;
  dead_after = 9 * second;
  on_dead = node_dead ∷ [];
  on_alive = node_alive ∷ [];
}

members-IsWired : IsWired members
members-IsWired = record {
  one_dead = (node_dead, refl);
  one_alive = (node_alive, refl);
  patient = omega arith;
}

found : GoMap.get peer_id members.peers ≡ some peer
unfolding GoMap.get bytes_beq
found = refl

awake : Silent peer_id 0 members
awake p e d = ground (arith, found)

-- The peer goes silent for ten seconds and comes back.
abbrev history : List Op
history =
    pings peer_id false (5 * second)
    ∷ pings peer_id false (10 * second)
    ∷ pings peer_id true (11 * second)
    ∷ []

deaths-returns_example :
    deaths peer_id (run history members).1 + held_dead peer_id members
    ≡ returns peer_id (run history members).1 + held_dead peer_id (run history members).0
deaths-returns_example =
    deaths-returns peer_id 0 history members (omega arith, (omega arith, (omega arith, tt))) awake
      members-IsWired

-- The node probes its two peers, of which one answers, twice, and is stopped.
abbrev other_id : Bytes
other_id = codes "node-3"

abbrev two_members : Membership Callback
two_members = record members {
  peers = (peer_id, peer) ∷ (other_id, record peer { id = other_id }) ∷ [];
}

two-IsWired : IsWired two_members
two-IsWired = record {
  one_dead = (node_dead, refl);
  one_alive = (node_alive, refl);
  patient = omega arith;
}

two-Distinct : Distinct (keys two_members.peers)
unfolding bytes_beq
two-Distinct = (refl, (refl, tt))

two_found : GoMap.get peer_id two_members.peers ≡ some peer
unfolding GoMap.get bytes_beq
two_found = refl

abbrev found_at : ℕ → Bytes → Bool × ℕ
found_at now id = (id == other_id, now)

abbrev signals : List Signal
signals = ticks (found_at (5 * second)) ∷ ticks (found_at (10 * second)) ∷ stops ∷ []

silent_probes : own_probes peer_id signals ≡ unanswered peer_id (5 * second ∷ 10 * second ∷ [])
unfolding bytes_beq
silent_probes = refl

beats-detect_example :
    (held_dead peer_id (beat_loop signals two_members).0 ≡ 1)
    × (deaths peer_id (beat_loop signals two_members).1 ≡ 1)
beats-detect_example =
    beats-detect peer_id signals 0 (5 * second ∷ []) (10 * second) two_members peer silent_probes
      two-Distinct two-IsWired two_found refl (omega arith, (omega arith, tt)) (omega arith)

beats-own_probes_example :
    (GoMap.get peer_id (beat_loop signals two_members).0.peers
      ≡ GoMap.get peer_id (run (own_probes peer_id signals) two_members).0.peers)
    × (deaths peer_id (beat_loop signals two_members).1
        ≡ deaths peer_id (run (own_probes peer_id signals) two_members).1)
    × (returns peer_id (beat_loop signals two_members).1
        ≡ returns peer_id (run (own_probes peer_id signals) two_members).1)
beats-own_probes_example = beats-own_probes peer_id signals two_members two-Distinct two-IsWired

-- The second probe ends before the first.
abbrev ended : List (Bytes × Peer)
ended = (other_id, record peer { id = other_id }) ∷ (peer_id, peer) ∷ []

ended-Permᴰ : Permᴰ two_members.peers ended
ended-Permᴰ = Permᴰ.swap refl refl

heartbeat_round-any_order_example :
    let probe = found_at (5 * second) in
    ((y : Bytes)
      → (GoMap.get y (ping_all probe (keys ended) two_members).0.peers ≡ judged probe two_members y)
        × (GoMap.get y (heartbeat_round probe two_members).0.peers ≡ judged probe two_members y))
    × Permᴰ (heartbeat_round probe two_members).1 (ping_all probe (keys ended) two_members).1
heartbeat_round-any_order_example =
    heartbeat_round-any_order (found_at (5 * second)) two_members ended two-Distinct ended-Permᴰ

abbrev dead_peer : Peer
dead_peer = record peer { state = dead }

abbrev members_dead : Membership Callback
members_dead = record members { peers = (peer_id, dead_peer) ∷ [] }

found_dead : GoMap.get peer_id members_dead.peers ≡ some dead_peer
unfolding GoMap.get bytes_beq
found_dead = refl

dead-IsWired : IsWired members_dead
dead-IsWired = record {
  one_dead = (node_dead, refl);
  one_alive = (node_alive, refl);
  patient = omega arith;
}

mark-returns_example :
    (returns peer_id (run (answered peer_id (12 * second ∷ 13 * second ∷ [])) members_dead).1 ≡ 1)
    × (returns peer_id
          (run
            (marks peer_id (11 * second) ∷ answered peer_id (12 * second ∷ 13 * second ∷ []))
            members_dead).1
        ≡ 0)
mark-returns_example =
    mark-returns peer_id (11 * second) (12 * second) (13 * second ∷ []) members_dead dead_peer
      found_dead refl dead-IsWired

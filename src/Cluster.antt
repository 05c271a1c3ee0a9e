-- ===== src/Cluster.antt =====
-- internal/cluster/membership.go: the peers of a node and the detection of failures by heartbeats.
-- Times are nanoseconds on a clock that does not go back, each the value that `time.Now` gave. The
-- mutex makes the part of a method that it guards one step; a callback that is started with `go` is
-- a value of `Call`.
pub mod Invariant
pub mod Detection
pub mod Callbacks
pub mod Histories
pub mod Rounds
pub mod Beats
pub mod Marks
use p2p_container_distributi.Prelude.{
  ℕ, ◌+◌, ◌-◌, ◌*◌, ◌^◌, Bool, true, false, ◌&&◌, not, List, [], ◌∷◌, ◌++◌, map, Option, none, some,
  Bytes, codes, bytes_eq, ◌==◌, leb, keep, if◌then◌else◌,
}
use p2p_container_distributi.GoMap
use p2p_container_distributi.GoMap.{keys}

pub data State : Type 0 where
  alive suspect dead : State

unfoldable state_string : State → Bytes
state_string alive = codes "alive"
state_string suspect = codes "suspect"
state_string dead = codes "dead"

pub record Peer : Type 0 where
  pub id : Bytes
  pub addr : Bytes
  pub state : State
  pub last_heartbeat : ℕ

-- The callbacks are values of `C`.
pub record Membership (C : Type 0) : Type 0 where
  pub self : Peer
  pub peers : List (Bytes × Peer)
  pub suspect_after : ℕ
  pub dead_after : ℕ
  pub on_dead : List C
  pub on_alive : List C

-- A callback that was started, with the node that it is about.
pub data Call (C : Type 0) : Type 0 where
  dead_call alive_call : C → Bytes → Call C

abbrev pub second : ℕ
second = 10 ^ 9

abbrev pub is_dead : State → Bool
is_dead dead = true
is_dead _ = false

abbrev pub is_alive : State → Bool
is_alive alive = true
is_alive _ = false

module _ {C : Type 0} where
  unfoldable pub new : Bytes → Bytes → ℕ → Membership C
  new self_id self_addr now = record {
    self = record { id = self_id; addr = self_addr; state = alive; last_heartbeat = now };
    peers = [];
    suspect_after = 3 * second;
    dead_after = 9 * second;
    on_dead = [];
    on_alive = [];
  }

  unfoldable pub add_peer : Bytes → Bytes → ℕ → Membership C → Membership C
  add_peer id addr now m = if id == m.self.id then m else elim (GoMap.get id m.peers) [
    | some p ↦ m
    | none ↦ record m {
      peers =
          GoMap.put id (record { id = id; addr = addr; state = alive; last_heartbeat = now })
            m.peers;
    }
  ]

  unfoldable pub on_node_dead : C → Membership C → Membership C
  on_node_dead f m = record m { on_dead = m.on_dead ++ f ∷ [] }

  unfoldable pub on_node_alive : C → Membership C → Membership C
  on_node_alive f m = record m { on_alive = m.on_alive ++ f ∷ [] }

  -- `Peers`: a copy of every peer, in the order in which the map is walked.
  unfoldable pub all_peers : Membership C → List Peer
  all_peers m = map (λ e. e.1) m.peers

  unfoldable alive_peers : Membership C → List Peer
  unfolding all_peers
  alive_peers m = keep (λ (p : Peer). is_alive p.state) (all_peers m)

  -- The new entry of a peer whose probe came back `healthy`, or did not.
  unfoldable pub judge : Membership C → Bool → ℕ → Peer → Peer
  judge m healthy now p =
      let since = now - p.last_heartbeat in
      if healthy
      then record p { state = alive; last_heartbeat = now }
      else (if leb m.dead_after since
          then record p { state = dead }
          else (if leb m.suspect_after since then record p { state = suspect } else p))

  -- The callbacks that a change of state starts.
  unfoldable pub notify : Membership C → Bytes → State → State → List (Call C)
  notify m id prev next =
      (if not (is_dead prev) && is_dead next then map (λ f. dead_call f id) m.on_dead else [])
      ++ (if is_dead prev && is_alive next then map (λ f. alive_call f id) m.on_alive else [])

  -- `pingPeer` from the answer of the probe on: nothing if the peer is gone by then.
  unfoldable pub ping_peer : Bytes → Bool → ℕ → Membership C → Membership C × List (Call C)
  unfolding judge notify
  ping_peer id healthy now m = elim (GoMap.get id m.peers) [
    | none ↦ (m, [])
    | some p ↦
        let p' = judge m healthy now p in
        (record m { peers = GoMap.put id p' m.peers }, notify m id p.state p'.state)
  ]

  -- `heartbeatRound` over the ids that it read at its start; `probe` is each peer's answer and the
  -- time when it came.
  unfoldable pub ping_all :
      (Bytes → Bool × ℕ) → List Bytes → Membership C → Membership C × List (Call C)
  ping_all probe [] m = (m, [])
  ping_all probe (id ∷ ids) m =
      let (m1, calls) = ping_peer id (probe id).0 (probe id).1 m in
      let (m2, more) = ping_all probe ids m1 in (m2, calls ++ more)

  unfoldable pub heartbeat_round : (Bytes → Bool × ℕ) → Membership C → Membership C × List (Call C)
  heartbeat_round probe m = ping_all probe (keys m.peers) m

  pub mark_alive_manually : Bytes → ℕ → Membership C → Membership C
  mark_alive_manually id now m = elim (GoMap.get id m.peers) [
    | none ↦ m
    | some p ↦ record m {
      peers = GoMap.put id (record p { state = alive; last_heartbeat = now }) m.peers;
    }
  ]

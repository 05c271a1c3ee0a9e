-- ===== src/Node/Run.antt =====
-- A node at work, as cmd/node/main.go wires it: the probes change the table of peers and start
-- callbacks, and the callbacks change the ring when they run. Go starts each callback with `go`, so
-- it runs at any later time.
use p2p_container_distributi.Prelude.{
  ℕ, ◌≤◌, ◌≡◌, ◌==◌, false, bytes_eq, Bool, List, [], ◌∷◌, ◌++◌, Bytes, All,
}
use p2p_container_distributi.Ring.{Ring}
use p2p_container_distributi.Cluster.{Membership, Call, dead_call, alive_call, ping_peer}
use p2p_container_distributi.Recovery.{handle_node_dead, handle_node_alive}
use p2p_container_distributi.Node.{Callback, node_dead, node_alive, configure}

-- `waiting` are the callbacks that have not run yet, in the order in which they were started.
pub record Running : Type 0 where
  pub membership : Membership Callback
  pub ring : Ring
  pub waiting : List (Call Callback)
  pub clock : ℕ

unfoldable pub launch : (Bytes → Bytes) → ℕ → Bytes → Bytes → Bytes → Running
launch sha1 now node_id advertise peers =
    let n = configure sha1 now node_id advertise peers in
    record { membership = n.membership; ring = n.ring; waiting = []; clock = now }

-- A probe of a peer came back.
unfoldable pub probed : Bytes → Bool → ℕ → Running → Running
probed id healthy now n =
    let after = ping_peer id healthy now n.membership in
    record n { membership = after.0; waiting = n.waiting ++ after.1; clock = now }

-- What a registered callback does to the ring.
unfoldable pub call_back : (Bytes → Bytes) → Callback → Bytes → Ring → Ring
call_back sha1 node_dead id ring = handle_node_dead id ring
call_back sha1 node_alive id ring = handle_node_alive sha1 id ring

abbrev pub callback_of : Call Callback → Callback
callback_of (dead_call f id) = f
callback_of (alive_call f id) = f

abbrev pub about : Call Callback → Bytes
about (dead_call f id) = id
about (alive_call f id) = id

unfoldable pub perform : (Bytes → Bytes) → Call Callback → Ring → Ring
perform sha1 call ring = call_back sha1 (callback_of call) (about call) ring

abbrev pub NoneAbout : Bytes → List (Call Callback) → Type 0
NoneAbout id = All (λ call. (about call == id) ≡ false)

-- A probe ends, or a waiting callback runs: any of them, but the callbacks about one node in the
-- order in which they were started.
pub data Step (sha1 : Bytes → Bytes) : Running → Running → Type 0 where
  probes :
      (id : Bytes) (healthy : Bool) (now : ℕ) {n : Running}
      → n.clock ≤ now
      → Step sha1 n (probed id healthy now n)
  runs :
      (before : List (Call Callback)) (call : Call Callback) (after : List (Call Callback))
      {n : Running}
      → n.waiting ≡ before ++ call ∷ after
      → NoneAbout (about call) before
      → Step sha1 n (record n { ring = perform sha1 call n.ring; waiting = before ++ after })

pub data Reaches (sha1 : Bytes → Bytes) : Running → Running → Type 0 where
  stays : {n : Running} → Reaches sha1 n n
  moves : {n m k : Running} → Step sha1 n m → Reaches sha1 m k → Reaches sha1 n k

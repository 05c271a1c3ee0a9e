-- ===== src/Cluster/Histories.antt =====
-- The calls that internal/cluster/membership.go gets, one after the other.
use p2p_container_distributi.Prelude.{
  ℕ, ◌≤◌, ◌≡◌, Bool, List, [], ◌∷◌, ◌++◌, Bytes, bytes_eq, none, some,
}
use p2p_container_distributi.GoMap
use p2p_container_distributi.Cluster.{
  Peer, Membership, Call, add_peer, judge, notify, ping_peer, mark_alive_manually,
}

-- The calls that change a table after it is set up.
pub data Op : Type 0 where
  adds : Bytes → Bytes → ℕ → Op
  pings : Bytes → Bool → ℕ → Op
  marks : Bytes → ℕ → Op

-- The calls come in the order of their times, and none bypasses the probes.
abbrev pub Probed : ℕ → List Op → Type 0
Probed t [] = Unit
Probed t (adds id addr now ∷ os) = (t ≤ now) × Probed now os
Probed t (pings id healthy now ∷ os) = (t ≤ now) × Probed now os
Probed t (marks id now ∷ os) = ⊥

module _ {C : Type 0} where
  unfoldable pub step : Op → Membership C → Membership C × List (Call C)
  step (adds id addr now) m = (add_peer id addr now m, [])
  step (pings id healthy now) m = ping_peer id healthy now m
  step (marks id now) m = (mark_alive_manually id now m, [])

  unfoldable pub run : List Op → Membership C → Membership C × List (Call C)
  unfolding step
  run [] m = (m, [])
  run (o ∷ os) m = let (m1, calls) = step o m in let (m2, more) = run os m1 in (m2, calls ++ more)

  pub ping_gone :
      (j : Bytes) (healthy : Bool) (now : ℕ) (m : Membership C)
      → GoMap.get j m.peers ≡ none
      → ping_peer j healthy now m ≡ (m, [])
  unfolding ping_peer
  ping_gone j healthy now m e = rw (e, ping_peer)

  pub ping_found :
      (j : Bytes) (healthy : Bool) (now : ℕ) (m : Membership C) (q : Peer)
      → GoMap.get j m.peers ≡ some q
      → ping_peer j healthy now m ≡ (
        record m { peers = GoMap.put j (judge m healthy now q) m.peers },
        notify m j q.state (judge m healthy now q).state,
      )
  unfolding ping_peer
  ping_found j healthy now m q e = rw (e, ping_peer)

-- ===== src/Cluster/Invariant.antt =====
-- The well-formed tables of internal/cluster/membership.go under its methods.
use p2p_container_distributi.Prelude.{
  ℕ, ◌≡◌, refl, sym, ap, ◌∙◌, Bool, false, List, [], ◌∷◌, arith, Bytes, bytes_eq, ◌==◌, ==_iff,
  contains, Distinct, some, Option-cases, Bool-cases, inl, inr,
}
use p2p_container_distributi.GoMap
use p2p_container_distributi.GoMap.{
  keys, put-Distinct, contains-keys-put, contains-keys-get, get-put,
}
use p2p_container_distributi.Cluster.{
  Peer, Membership, add_peer, judge, ping_peer, mark_alive_manually, new,
}
use p2p_container_distributi.Cluster.Histories.{Op, adds, pings, marks, step, run}

module _ {C : Type 0} where
  pub record IsTable (m : Membership C) : Type 0 where
    pub distinct : Distinct (keys m.peers)
    pub named : (id : Bytes) (p : Peer) → GoMap.get id m.peers ≡ some p → p.id ≡ id
    pub not_self : contains (keys m.peers) m.self.id ≡ false

  put-IsTable :
      (m : Membership C) (id : Bytes) (p : Peer)
      → IsTable m
      → p.id ≡ id
      → (id == m.self.id) ≡ false
      → IsTable (record m { peers = GoMap.put id p m.peers })
  put-IsTable m id p v e ne = record {
    distinct = put-Distinct id p m.peers v.distinct;
    named = λ j q got. ground (arith, get-put id j p m.peers, v.named j q, ==_iff id j);
    not_self = ground (arith, contains-keys-put id m.self.id p m.peers, v.not_self);
  }

  -- A known peer is not the node itself.
  pub known_other :
      (m : Membership C) (id : Bytes) (p : Peer)
      → IsTable m
      → GoMap.get id m.peers ≡ some p
      → (id == m.self.id) ≡ false
  known_other m id p v got = elim (Bool-cases (id == m.self.id)) [
    | inr other ↦ other
    | inl same ↦ cc (
      sym (ap (contains (keys m.peers)) ((==_iff id m.self.id).0 same))
          ∙ contains-keys-get id m.peers p got,
      v.not_self,
    )
  ]

  judge-id :
      (m : Membership C) (healthy : Bool) (now : ℕ) (p : Peer) → (judge m healthy now p).id ≡ p.id
  unfolding judge
  judge-id m healthy now p = ground arith

  pub new-IsTable : (id addr : Bytes) (now : ℕ) → IsTable (new {C = C} id addr now)
  unfolding new
  new-IsTable id addr now = record {
    distinct = tt;
    named = λ j p got. unfold GoMap.get in cc;
    not_self = refl;
  }

  -- Every method keeps the table well-formed.
  pub step-IsTable : (o : Op) (m : Membership C) → IsTable m → IsTable (step o m).0
  unfolding step add_peer ping_peer mark_alive_manually
  step-IsTable (adds id addr now) m v = elim (Bool-cases (id == m.self.id)) [
    | inl own ↦ rw own v
    | inr other ↦ elim (Option-cases (GoMap.get id m.peers)) [
      | inr (p, known) ↦ rw (other, known, add_peer) v
      | inl fresh ↦ rw (other, fresh, add_peer) (put-IsTable m id _ v refl other)
    ]
  ]
  step-IsTable (pings id healthy now) m v = elim (Option-cases (GoMap.get id m.peers)) [
    | inl gone ↦ rw (gone, ping_peer) v
    | inr (p, known) ↦
        rw (known, ping_peer)
          (put-IsTable m id (judge m healthy now p) v
            (judge-id m healthy now p ∙ v.named id p known) (known_other m id p v known))
  ]
  step-IsTable (marks id now) m v = elim (Option-cases (GoMap.get id m.peers)) [
    | inl gone ↦ rw (gone, mark_alive_manually) v
    | inr (p, known) ↦
        rw (known, mark_alive_manually)
          (put-IsTable m id _ v (v.named id p known) (known_other m id p v known))
  ]

  -- Over any sequence of registrations, probes and manual marks, the table stays well-formed: one
  -- entry for each peer, under the peer's own id, and none for the node itself.
  pub run-IsTable : (os : List Op) (m : Membership C) → IsTable m → IsTable (run os m).0
  unfolding run
  run-IsTable [] m v = v
  run-IsTable (o ∷ os) m v = run-IsTable os (step o m).0 (step-IsTable o m v)

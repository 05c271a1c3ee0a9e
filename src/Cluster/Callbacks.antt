-- ===== src/Cluster/Callbacks.antt =====
-- How often the callbacks of internal/cluster/membership.go are started over a history of calls.
use p2p_container_distributi.Prelude.{
  ℕ, ◌+◌, ◌≤◌, ◌<◌, ◌≡◌, refl, subst, Bool, true, false, ◌&&◌, not, List, [], ◌∷◌, ◌++◌, arith,
  Bytes, bytes_eq, ◌==◌, ==_iff, none, some, Option-cases, Bool-cases, inl, inr, if◌then◌else◌,
}
use p2p_container_distributi.GoMap
use p2p_container_distributi.GoMap.{get-put}
use p2p_container_distributi.Cluster.{
  State, alive, Peer, Membership, Call, dead_call, alive_call, is_dead, is_alive, add_peer, judge,
  notify, ping_peer,
}
use p2p_container_distributi.Cluster.Histories.{
  Op, adds, pings, marks, Probed, step, run, ping_gone, ping_found,
}

module _ {C : Type 0} where
  -- How many of the calls report the death, or the return, of a node.
  abbrev pub deaths : Bytes → List (Call C) → ℕ
  deaths id [] = 0
  deaths id (dead_call f j ∷ cs) = (if j == id then 1 else 0) + deaths id cs
  deaths id (alive_call f j ∷ cs) = deaths id cs

  abbrev pub returns : Bytes → List (Call C) → ℕ
  returns id [] = 0
  returns id (dead_call f j ∷ cs) = returns id cs
  returns id (alive_call f j ∷ cs) = (if j == id then 1 else 0) + returns id cs

  pub deaths-append :
      (id : Bytes) (cs ds : List (Call C)) → deaths id (cs ++ ds) ≡ deaths id cs + deaths id ds
  deaths-append id [] ds = omega arith
  deaths-append id (dead_call f j ∷ cs) ds = omega (arith, deaths-append id cs ds)
  deaths-append id (alive_call f j ∷ cs) ds = deaths-append id cs ds

  pub returns-append :
      (id : Bytes) (cs ds : List (Call C)) → returns id (cs ++ ds) ≡ returns id cs + returns id ds
  returns-append id [] ds = omega arith
  returns-append id (dead_call f j ∷ cs) ds = returns-append id cs ds
  returns-append id (alive_call f j ∷ cs) ds = omega (arith, returns-append id cs ds)

  -- 1 if the peer is in the table and taken for dead.
  abbrev pub held_dead : Bytes → Membership C → ℕ
  held_dead id m = elim (GoMap.get id m.peers) [
    | none ↦ 0
    | some p ↦ if is_dead p.state then 1 else 0
  ]

  -- Each event has one callback, as cmd/node/main.go sets it up, and a death takes time.
  pub record IsWired (m : Membership C) : Type 0 where
    pub one_dead : (f : C) × (m.on_dead ≡ f ∷ [])
    pub one_alive : (f : C) × (m.on_alive ≡ f ∷ [])
    pub patient : 0 < m.dead_after

  pub notify_counts :
      (m : Membership C) (id j : Bytes) (prev next : State)
      → IsWired m
      → (deaths j (notify m id prev next)
          ≡ (if (not (is_dead prev) && is_dead next) && id == j then 1 else 0))
        × (returns j (notify m id prev next)
            ≡ (if (is_dead prev && is_alive next) && id == j then 1 else 0))
  unfolding notify
  notify_counts m id j prev next w =
      let (f, df) = w.one_dead in let (g, ag) = w.one_alive in rw (df, ag) (ground arith)

  -- A peer that is taken for dead has been silent for `dead_after` at time `t`.
  abbrev pub Silent : Bytes → ℕ → Membership C → Type 0
  Silent id t m =
      (p : Peer)
      → GoMap.get id m.peers ≡ some p
      → is_dead p.state ≡ true
      → p.last_heartbeat + m.dead_after ≤ t

  -- What one call does to the account of one node.
  abbrev Balanced : Bytes → ℕ → Membership C → Membership C × List (Call C) → Type 0
  Balanced id t m (m', calls) =
      (deaths id calls + held_dead id m ≡ returns id calls + held_dead id m')
      × Silent id t m'
      × IsWired m'

  -- A peer that has been silent long enough to be dead is judged alive or stays dead.
  pub judge_of_dead :
      (m : Membership C) (healthy : Bool) (now : ℕ) (p : Peer)
      → is_dead p.state ≡ true
      → p.last_heartbeat + m.dead_after ≤ now
      → is_dead (judge m healthy now p).state ≡ false
      → is_alive (judge m healthy now p).state ≡ true
  unfolding judge
  judge_of_dead m healthy now p d le = ground arith

  judge_silent :
      (m : Membership C) (healthy : Bool) (t now : ℕ) (p : Peer)
      → t ≤ now
      → 0 < m.dead_after
      → (is_dead p.state ≡ true → p.last_heartbeat + m.dead_after ≤ t)
      → is_dead (judge m healthy now p).state ≡ true
      → (judge m healthy now p).last_heartbeat + m.dead_after ≤ now
  unfolding judge
  judge_silent m healthy t now p le pos s = ground arith

  replace_counts :
      (id j : Bytes) (m : Membership C) (q q' : Peer)
      → GoMap.get j m.peers ≡ some q
      → IsWired m
      → (is_dead q.state ≡ true → j ≡ id → is_dead q'.state ≡ false → is_alive q'.state ≡ true)
      → deaths id (notify m j q.state q'.state) + held_dead id m
        ≡ returns id (notify m j q.state q'.state)
          + held_dead id (record m { peers = GoMap.put j q' m.peers })
  replace_counts id j m q q' found w k =
      let (d, r) = notify_counts m j id q.state q'.state w in
      elim (Bool-cases (j == id)) [
        | inl same ↦
            let e : j ≡ id = (==_iff j id).0 same in
            ground (
              arith,
              get-put j id q' m.peers,
              subst (λ z. GoMap.get z m.peers ≡ some q) e found,
              λ (x : is_dead q.state ≡ true). k x e,
            )
        | inr other ↦ ground (arith, get-put j id q' m.peers)
      ]

  replace-Silent :
      (id j : Bytes) (now : ℕ) (m : Membership C) (q' : Peer)
      → Silent id now m
      → (j ≡ id → is_dead q'.state ≡ true → q'.last_heartbeat + m.dead_after ≤ now)
      → Silent id now (record m { peers = GoMap.put j q' m.peers })
  replace-Silent id j now m q' s k p e d = elim (Bool-cases (j == id)) [
    | inl same ↦ ground (arith, get-put j id q' m.peers, k ((==_iff j id).0 same))
    | inr other ↦ s p (ground (arith, get-put j id q' m.peers)) d
  ]

  pub ping-Balanced :
      (id j : Bytes) (healthy : Bool) (t now : ℕ) (m : Membership C)
      → t ≤ now
      → Silent id t m
      → IsWired m
      → Balanced id now m (ping_peer j healthy now m)
  ping-Balanced id j healthy t now m le s w = elim (Option-cases (GoMap.get j m.peers)) [
    | inl gone ↦ rw (ping_gone j healthy now m gone) (refl, (λ p e d. omega (arith, s p e d)), w)
    | inr (q, found) ↦ rw (ping_found j healthy now m q found) (
      replace_counts id j m q (judge m healthy now q) found w (λ d same gone.
          judge_of_dead m healthy now q d
            (omega (arith, s q (subst (λ z. GoMap.get z m.peers ≡ some q) same found) d)) gone),
      replace-Silent id j now m (judge m healthy now q) (λ p e d. omega (arith, s p e d))
          (λ same.
            judge_silent m healthy t now q le w.patient
              (s q (subst (λ z. GoMap.get z m.peers ≡ some q) same found))),
      record { one_dead = w.one_dead; one_alive = w.one_alive; patient = w.patient },
    )
  ]

  add-Balanced :
      (id j addr : Bytes) (t now : ℕ) (m : Membership C)
      → t ≤ now
      → Silent id t m
      → IsWired m
      → Balanced id now m (add_peer j addr now m, [])
  unfolding add_peer
  add-Balanced id j addr t now m le s w = elim (Bool-cases (j == m.self.id)) [
    | inl own ↦ rw own (refl, (λ p e d. omega (arith, s p e d)), w)
    | inr peer ↦ elim (Option-cases (GoMap.get j m.peers)) [
      | inr (q, known) ↦ rw (peer, known, add_peer) (refl, (λ p e d. omega (arith, s p e d)), w)
      | inl fresh ↦
          let q : Peer = record { id = j; addr = addr; state = alive; last_heartbeat = now } in
          let absent : j ≡ id → GoMap.get id m.peers ≡ none =
            λ e. subst (λ z. GoMap.get z m.peers ≡ none) e fresh in
          rw (peer, fresh, add_peer)
            (
              ground (arith, get-put j id q m.peers, ==_iff j id, absent),
              replace-Silent id j now m q (λ p e d. omega (arith, s p e d)) (λ e d. cc),
              record { one_dead = w.one_dead; one_alive = w.one_alive; patient = w.patient },
            )
    ]
  ]

  then_run :
      (id : Bytes) (now : ℕ) (o : Op) (os : List Op) (m : Membership C)
      → Balanced id now m (step o m)
      → (Silent id now (step o m).0
          → IsWired (step o m).0
          → deaths id (run os (step o m).0).1 + held_dead id (step o m).0
            ≡ returns id (run os (step o m).0).1 + held_dead id (run os (step o m).0).0)
      → deaths id (run (o ∷ os) m).1 + held_dead id m
        ≡ returns id (run (o ∷ os) m).1 + held_dead id (run (o ∷ os) m).0
  unfolding run
  then_run id now o os m b rest = omega (
    arith,
    b.0,
    rest b.1 b.2,
    deaths-append id (step o m).1 (run os (step o m).0).1,
    returns-append id (step o m).1 (run os (step o m).0).1,
  )

  -- With one callback for each event and a positive time to death, over registrations and probes in
  -- the order of their times, from a table in which the node, if held for dead, has been silent
  -- that long: the reports of the node's death, plus one if it was held for dead at the start, are
  -- as many as the reports of its return, plus one if it is held for dead at the end.
  pub deaths-returns :
      (id : Bytes) (t : ℕ) (os : List Op) (m : Membership C)
      → Probed t os
      → Silent id t m
      → IsWired m
      → deaths id (run os m).1 + held_dead id m
        ≡ returns id (run os m).1 + held_dead id (run os m).0
  deaths-returns id t [] m h s w = unfold run in refl
  deaths-returns id t (adds j addr now ∷ os) m h s w =
      then_run id now (adds j addr now) os m (unfold step in add-Balanced id j addr t now m h.0 s w)
        (deaths-returns id now os (step (adds j addr now) m).0 h.1)
  deaths-returns id t (pings j healthy now ∷ os) m h s w =
      then_run id now (pings j healthy now) os m
        (unfold step in ping-Balanced id j healthy t now m h.0 s w)
        (deaths-returns id now os (step (pings j healthy now) m).0 h.1)
  deaths-returns id t (marks j now ∷ os) m h s w = absurd h

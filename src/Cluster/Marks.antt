-- ===== src/Cluster/Marks.antt =====
-- MarkAliveManually of internal/cluster/membership.go on a peer that is held for dead: its return
-- is not reported.
use p2p_container_distributi.Prelude.{
  ℕ, ◌≡◌, refl, ◌∙◌, true, false, List, [], ◌∷◌, map, arith, Bytes, bytes_eq, ==_iff, some,
  if◌then◌else◌,
}
use p2p_container_distributi.GoMap
use p2p_container_distributi.GoMap.{get-put}
use p2p_container_distributi.Cluster.{Peer, alive, Membership, is_dead, judge, mark_alive_manually}
use p2p_container_distributi.Cluster.Callbacks.{returns, returns-append, IsWired, notify_counts}
use p2p_container_distributi.Cluster.Histories.{Op, pings, marks, step, run, ping_found}

-- Probes of a peer that it answers, at these times.
abbrev pub answered : Bytes → List ℕ → List Op
answered id = map (λ now. pings id true now)

module _ {C : Type 0} where
  -- A probe that a known peer answers.
  answered_step :
      (id : Bytes) (now : ℕ) (m : Membership C) (p : Peer)
      → GoMap.get id m.peers ≡ some p
      → IsWired m
      → let p' : Peer = record p { state = alive; last_heartbeat = now } in
        (GoMap.get id (step (pings id true now) m).0.peers ≡ some p')
        × (returns id (step (pings id true now) m).1 ≡ (if is_dead p.state then 1 else 0))
        × IsWired (step (pings id true now) m).0
  unfolding step judge
  answered_step id now m p found w = rw (ping_found id true now m p found) (
    ground (
      arith,
      get-put id id (record p { state = alive; last_heartbeat = now }) m.peers,
      ==_iff id id,
    ),
    (notify_counts m id id p.state alive w).1 ∙ ground (arith, ==_iff id id),
    record { one_dead = w.one_dead; one_alive = w.one_alive; patient = w.patient },
  )

  -- A peer that is not held for dead and answers is not reported to be back.
  answered-returns :
      (id : Bytes) (ts : List ℕ) (m : Membership C) (p : Peer)
      → GoMap.get id m.peers ≡ some p
      → is_dead p.state ≡ false
      → IsWired m
      → returns id (run (answered id ts) m).1 ≡ 0
  unfolding run
  answered-returns id [] m p found up w = refl
  answered-returns id (t ∷ ts) m p found up w =
      let (at_id, back, w') = answered_step id t m p found w in
      let n : Membership C = (step (pings id true t) m).0 in
      returns-append id (step (pings id true t) m).1 (run (answered id ts) n).1
      ∙ ground (
        arith,
        back,
        answered-returns id ts n (record p { state = alive; last_heartbeat = t }) at_id refl w',
      )

  answered-returns_dead :
      (id : Bytes) (t : ℕ) (ts : List ℕ) (m : Membership C) (p : Peer)
      → GoMap.get id m.peers ≡ some p
      → is_dead p.state ≡ true
      → IsWired m
      → returns id (run (answered id (t ∷ ts)) m).1 ≡ 1
  unfolding run
  answered-returns_dead id t ts m p found gone w =
      let (at_id, back, w') = answered_step id t m p found w in
      let n : Membership C = (step (pings id true t) m).0 in
      returns-append id (step (pings id true t) m).1 (run (answered id ts) n).1
      ∙ ground (
        arith,
        back,
        answered-returns id ts n (record p { state = alive; last_heartbeat = t }) at_id refl w',
      )

  marked-returns :
      (id : Bytes) (now : ℕ) (ts : List ℕ) (m : Membership C) (p : Peer)
      → GoMap.get id m.peers ≡ some p
      → IsWired m
      → returns id (run (marks id now ∷ answered id ts) m).1 ≡ 0
  unfolding run step mark_alive_manually
  marked-returns id now ts m p found w =
      let p' : Peer = record p { state = alive; last_heartbeat = now } in
      rw (found, mark_alive_manually)
        (answered-returns id ts (record m { peers = GoMap.put id p' m.peers }) p'
          (ground (arith, get-put id id p' m.peers, ==_iff id id)) refl
          (record { one_dead = w.one_dead; one_alive = w.one_alive; patient = w.patient }))

  -- With one callback for each event: the return of a peer that is held for dead is reported
  -- exactly once when it answers probes, and never when it was marked as alive before, however many
  -- probes it answers.
  pub mark-returns :
      (id : Bytes) (now t : ℕ) (ts : List ℕ) (m : Membership C) (p : Peer)
      → GoMap.get id m.peers ≡ some p
      → is_dead p.state ≡ true
      → IsWired m
      → (returns id (run (answered id (t ∷ ts)) m).1 ≡ 1)
        × (returns id (run (marks id now ∷ answered id (t ∷ ts)) m).1 ≡ 0)
  mark-returns id now t ts m p found gone w =
      (answered-returns_dead id t ts m p found gone w, marked-returns id now (t ∷ ts) m p found w)

-- ===== src/Cluster/Detection.antt =====
-- The probes of a silent peer in internal/cluster/membership.go: what becomes of its entry, and
-- which callbacks are started.
use p2p_container_distributi.Prelude.{
  ℕ, ◌+◌, ◌-◌, ◌≤◌, ◌<◌, ◌≡◌, refl, ◌∙◌, true, false, ◌&&◌, List, [], ◌∷◌, ◌++◌, map, arith, Bytes,
  bytes_eq, ==_iff, some,
}
use p2p_container_distributi.GoMap
use p2p_container_distributi.GoMap.{get-put}
use p2p_container_distributi.Cluster.{suspect, dead, Peer, Membership, is_dead, is_alive, judge}
use p2p_container_distributi.Cluster.Callbacks.{
  deaths, returns, returns-append, held_dead, IsWired, Silent, notify_counts, deaths-returns,
}
use p2p_container_distributi.Cluster.Histories.{Op, pings, Probed, step, run, ping_found}

-- The probes of a peer that gives no answer, at these times.
abbrev pub unanswered : Bytes → List ℕ → List Op
unanswered id = map (λ now. pings id false now)

module _ {C : Type 0} where
  -- What a probe without answer makes of a peer, by how long the peer has been silent.
  judge_unanswered :
      (m : Membership C) (now : ℕ) (p : Peer)
      → m.suspect_after ≤ m.dead_after
      → (now - p.last_heartbeat < m.suspect_after → judge m false now p ≡ p)
        × (m.suspect_after ≤ now - p.last_heartbeat
            → now - p.last_heartbeat < m.dead_after
            → judge m false now p ≡ record p { state = suspect })
        × (m.dead_after ≤ now - p.last_heartbeat → judge m false now p ≡ record p { state = dead })
  unfolding judge
  judge_unanswered m now p le = ((λ h. ground arith), (λ h k. ground arith), (λ h. ground arith))

  judge_keeps :
      (m : Membership C) (now : ℕ) (p : Peer)
      → ((judge m false now p).last_heartbeat ≡ p.last_heartbeat)
        × ((is_dead p.state && is_alive (judge m false now p).state) ≡ false)
  unfolding judge
  judge_keeps m now p = ground arith

  judge_dead :
      (m : Membership C) (now : ℕ) (p : Peer)
      → p.last_heartbeat + m.dead_after ≤ now
      → is_dead (judge m false now p).state ≡ true
  unfolding judge
  judge_dead m now p h = ground arith

  -- The peer after a probe without answer.
  unanswered_step :
      (id : Bytes) (now : ℕ) (m : Membership C) (p : Peer)
      → GoMap.get id m.peers ≡ some p
      → IsWired m
      → (GoMap.get id (step (pings id false now) m).0.peers ≡ some (judge m false now p))
        × (returns id (step (pings id false now) m).1 ≡ 0)
        × ((step (pings id false now) m).0.dead_after ≡ m.dead_after)
        × IsWired (step (pings id false now) m).0
  unfolding step
  unanswered_step id now m p found w = rw (ping_found id false now m p found) (
    ground (arith, get-put id id (judge m false now p) m.peers, ==_iff id id),
    (notify_counts m id id p.state (judge m false now p).state w).1 ∙ rw (judge_keeps m now p).1,
    refl,
    record { one_dead = w.one_dead; one_alive = w.one_alive; patient = w.patient },
  )

  -- After probes without answer the last of which comes late enough, the peer is held for dead, and
  -- its return was not reported.
  silence :
      (id : Bytes) (us : List ℕ) (now : ℕ) (m : Membership C) (p : Peer)
      → GoMap.get id m.peers ≡ some p
      → IsWired m
      → p.last_heartbeat + m.dead_after ≤ now
      → (held_dead id (run (unanswered id (us ++ now ∷ [])) m).0 ≡ 1)
        × (returns id (run (unanswered id (us ++ now ∷ [])) m).1 ≡ 0)
  unfolding run
  silence id [] now m p found w late =
      let (at_id, quiet, same, w') = unanswered_step id now m p found w in
      (
        ground (arith, at_id, judge_dead m now p late),
        returns-append id (step (pings id false now) m).1 [] ∙ omega (arith, quiet),
      )
  silence id (u ∷ us) now m p found w late =
      let (at_id, quiet, same, w') = unanswered_step id u m p found w in
      let (gone, none_back) =
        silence id us now (step (pings id false u) m).0 (judge m false u p) at_id w'
          (omega (arith, same, (judge_keeps m u p).0)) in
      (
        gone,
        returns-append id (step (pings id false u) m).1
              (run (unanswered id (us ++ now ∷ [])) (step (pings id false u) m).0).1
            ∙ omega (arith, quiet, none_back),
      )

  -- With one callback for each event, a peer that is not held for dead and answers none of a series
  -- of probes in the order of their times, the last of them `dead_after` or more after its last
  -- heartbeat, is then held for dead, and its death was reported exactly once.
  pub death_detected :
      (id : Bytes) (t : ℕ) (us : List ℕ) (now : ℕ) (m : Membership C) (p : Peer)
      → GoMap.get id m.peers ≡ some p
      → is_dead p.state ≡ false
      → IsWired m
      → Probed t (unanswered id (us ++ now ∷ []))
      → p.last_heartbeat + m.dead_after ≤ now
      → (held_dead id (run (unanswered id (us ++ now ∷ [])) m).0 ≡ 1)
        × (deaths id (run (unanswered id (us ++ now ∷ [])) m).1 ≡ 1)
  death_detected id t us now m p found living w order late =
      let (gone, none_back) = silence id us now m p found w late in
      let awake : Silent id t m = λ q e d. ground arith in
      (
        gone,
        omega (
          arith,
          gone,
          none_back,
          deaths-returns id t (unanswered id (us ++ now ∷ [])) m order awake w,
          (let h : held_dead id m ≡ 0 = ground arith in h),
        ),
      )

-- ===== src/Cluster/Beats.antt =====
-- Start and Stop of internal/cluster/membership.go: the loop that makes a round at each tick.
use p2p_container_distributi.Prelude.{
  ℕ, ◌+◌, ◌≤◌, ◌≡◌, refl, sym, ap, ◌∙◌, subst, Bool, false, List, [], ◌∷◌, ◌++◌, arith, Bytes,
  bytes_eq, ◌==◌, ==_iff, contains, Distinct, some, Option-cases, Bool-cases, inl, inr,
  if◌then◌else◌, append-nil,
}
use p2p_container_distributi.GoMap
use p2p_container_distributi.GoMap.{keys}
use p2p_container_distributi.Cluster.{
  Peer, Membership, Call, judge, ping_peer, heartbeat_round, is_dead,
}
use p2p_container_distributi.Cluster.Callbacks.{
  deaths, returns, deaths-append, returns-append, held_dead, IsWired, notify_counts,
}
use p2p_container_distributi.Cluster.Histories.{Op, pings, Probed, step, run}
use p2p_container_distributi.Cluster.Rounds.{
  judged, started, all_started, SameSettings, SameSettings-trans, same_judgement, ping_peer_lem,
  ping_all_lem, absent_entry,
}
use p2p_container_distributi.Cluster.Detection.{unanswered, death_detected}

-- What the loop of `Start` receives: a tick, with what the probes of its round find and when, or
-- that `Stop` has closed its channel.
pub data Signal : Type 0 where
  ticks : (Bytes → Bool × ℕ) → Signal
  stops : Signal

-- The probes of one peer that the loop makes.
abbrev pub own_probes : Bytes → List Signal → List Op
own_probes id [] = []
own_probes id (stops ∷ ss) = []
own_probes id (ticks probe ∷ ss) = pings id (probe id).0 (probe id).1 ∷ own_probes id ss

module _ {C : Type 0} where
  unfoldable pub beat_loop : List Signal → Membership C → Membership C × List (Call C)
  beat_loop [] m = (m, [])
  beat_loop (stops ∷ ss) m = (m, [])
  beat_loop (ticks probe ∷ ss) m =
      let (m1, calls) = heartbeat_round probe m in
      let (m2, more) = beat_loop ss m1 in (m2, calls ++ more)

  -- Two lists of callbacks report the same of a peer.
  abbrev SameReports : Bytes → List (Call C) → List (Call C) → Type 0
  SameReports id cs ds = (deaths id cs ≡ deaths id ds) × (returns id cs ≡ returns id ds)

  started_of_other :
      (probe : Bytes → Bool × ℕ) (m : Membership C) (id y : Bytes)
      → IsWired m
      → (y == id) ≡ false
      → SameReports id (started probe m y) []
  started_of_other probe m id y w other = elim (Option-cases (GoMap.get y m.peers)) [
    | inl gone ↦ rw gone (refl, refl)
    | inr (p, found) ↦
        let (d, r) = notify_counts m y id p.state (judge m (probe y).0 (probe y).1 p).state w in
        rw found (ground (arith, d), ground (arith, r))
  ]

  SameReports-append :
      (id : Bytes) (cs cs' ds ds' : List (Call C))
      → SameReports id cs cs'
      → SameReports id ds ds'
      → SameReports id (cs ++ ds) (cs' ++ ds')
  SameReports-append id cs cs' ds ds' a b = (
    omega (arith, deaths-append id cs ds, deaths-append id cs' ds', a.0, b.0),
    omega (arith, returns-append id cs ds, returns-append id cs' ds', a.1, b.1),
  )

  all_started_of :
      (probe : Bytes → Bool × ℕ) (m : Membership C) (id : Bytes) (ids : List Bytes)
      → IsWired m
      → Distinct ids
      → SameReports id
          (all_started probe m ids)
          (if contains ids id then started probe m id else [])
  all_started_of probe m id [] w d = (refl, refl)
  all_started_of probe m id (y ∷ ids) w d = elim (Bool-cases (y == id)) [
    | inl same ↦
        let e : y ≡ id = (==_iff y id).0 same in
        let rest : SameReports id (all_started probe m ids) [] =
          subst
            (λ b. SameReports id (all_started probe m ids) (if b then started probe m id else []))
            (sym (ap (contains ids) e) ∙ d.0) (all_started_of probe m id ids w d.1) in
        rw same (
          subst (λ l. SameReports id (started probe m y ++ all_started probe m ids) l)
            (append-nil (started probe m y) ∙ ap (started probe m) e)
            (SameReports-append id (started probe m y) (started probe m y) (all_started probe m ids)
              [] (refl, refl) rest))
    | inr other ↦ rw other (
        SameReports-append id (started probe m y) [] (all_started probe m ids)
          (if contains ids id then started probe m id else [])
          (started_of_other probe m id y w other) (all_started_of probe m id ids w d.1))
  ]

  -- A round, as one peer sees it.
  round_of :
      (probe : Bytes → Bool × ℕ) (m : Membership C) (id : Bytes)
      → Distinct (keys m.peers)
      → IsWired m
      → let r = heartbeat_round probe m in
        SameSettings m r.0
        × (GoMap.get id r.0.peers ≡ judged probe m id)
        × SameReports id r.1 (started probe m id)
        × (keys r.0.peers ≡ keys m.peers)
  unfolding heartbeat_round
  round_of probe m id d w =
      let (s, at, calls, ks) = ping_all_lem probe (keys m.peers) m d in
      elim (Bool-cases (contains (keys m.peers) id)) [
        | inl known ↦ (
          s,
          at id ∙ rw known refl,
          subst (λ l. SameReports id l (started probe m id)) (sym calls)
              (subst
                (λ b.
                  SameReports id (all_started probe m (keys m.peers))
                    (if b then started probe m id else []))
                known (all_started_of probe m id (keys m.peers) w d)),
          ks,
        )
        | inr unknown ↦
            let gone = absent_entry id m.peers unknown in
            (
              s,
              at id ∙ rw (unknown, gone) refl,
              subst (λ l. SameReports id l (started probe m id)) (sym calls)
                  (rw gone (
                    subst
                      (λ b.
                        SameReports id (all_started probe m (keys m.peers))
                          (if b then started probe m id else []))
                      unknown (all_started_of probe m id (keys m.peers) w d))),
              ks,
            )
      ]

  -- Two tables that one peer cannot tell apart.
  record SameFor (id : Bytes) (m m' : Membership C) : Type 0 where
    pub matching : SameSettings m m'
    pub entry : GoMap.get id m'.peers ≡ GoMap.get id m.peers

  settings_back : (m m' n : Membership C) → SameSettings m m' → SameSettings m n → SameSettings m' n
  settings_back m m' n a b = record {
    suspect_after = b.suspect_after ∙ sym a.suspect_after;
    dead_after = b.dead_after ∙ sym a.dead_after;
    on_dead = b.on_dead ∙ sym a.on_dead;
    on_alive = b.on_alive ∙ sym a.on_alive;
  }

  settings-IsWired : (m m' : Membership C) → SameSettings m m' → IsWired m → IsWired m'
  settings-IsWired m m' s w = record {
    one_dead = (w.one_dead.0, s.on_dead ∙ w.one_dead.1);
    one_alive = (w.one_alive.0, s.on_alive ∙ w.one_alive.1);
    patient = omega (arith, s.dead_after, w.patient);
  }

  beats_seen :
      (id : Bytes) (ss : List Signal) (m m' : Membership C)
      → Distinct (keys m.peers)
      → IsWired m
      → SameFor id m m'
      → (GoMap.get id (run (own_probes id ss) m').0.peers ≡ GoMap.get id (beat_loop ss m).0.peers)
        × SameReports id (beat_loop ss m).1 (run (own_probes id ss) m').1
  unfolding beat_loop run step
  beats_seen id [] m m' d w same = (same.entry, (refl, refl))
  beats_seen id (stops ∷ ss) m m' d w same = (same.entry, (refl, refl))
  beats_seen id (ticks probe ∷ ss) m m' d w same =
      let m1 : Membership C = (heartbeat_round probe m).0 in
      let n : Membership C = (ping_peer id (probe id).0 (probe id).1 m').0 in
      let (s1, at1, calls1, ks) = round_of probe m id d w in
      let (s2, at2, calls2, ks2) = ping_peer_lem probe id id m' in
      let (e, c) = same_judgement probe m m' id same.matching same.entry in
      let (entry, reports) =
        beats_seen id ss m1 n (subst (λ l. Distinct l) (sym ks) d) (settings-IsWired m m1 s1 w)
          (record {
            matching = settings_back m m1 n s1 (SameSettings-trans m m' n same.matching s2);
            entry = at2 ∙ ground (arith, ==_iff id id) ∙ e ∙ sym at1;
          }) in
      (
        entry,
        SameReports-append id (heartbeat_round probe m).1
            (ping_peer id (probe id).0 (probe id).1 m').1 (beat_loop ss m1).1
            (run (own_probes id ss) n).1
            (subst (SameReports id (heartbeat_round probe m).1) (sym (calls2 ∙ c)) calls1) reports,
      )

  -- Over any ticks and a stop, from a table with one entry for each peer and one callback for each
  -- event: the loop makes of a peer's entry, and reports of its deaths and returns, what the probes
  -- of this peer alone would, one after the other; what it finds at the other peers makes no
  -- difference.
  pub beats-own_probes :
      (id : Bytes) (ss : List Signal) (m : Membership C)
      → Distinct (keys m.peers)
      → IsWired m
      → (GoMap.get id (beat_loop ss m).0.peers ≡ GoMap.get id (run (own_probes id ss) m).0.peers)
        × (deaths id (beat_loop ss m).1 ≡ deaths id (run (own_probes id ss) m).1)
        × (returns id (beat_loop ss m).1 ≡ returns id (run (own_probes id ss) m).1)
  beats-own_probes id ss m d w =
      let same : SameFor id m m = record {
        matching = record {
          suspect_after = refl;
          dead_after = refl;
          on_dead = refl;
          on_alive = refl;
        };
        entry = refl;
      } in
      let (entry, reports) = beats_seen id ss m m d w same in (sym entry, reports.0, reports.1)

  held_dead_same :
      (id : Bytes) (m m' : Membership C)
      → GoMap.get id m.peers ≡ GoMap.get id m'.peers
      → held_dead id m ≡ held_dead id m'
  held_dead_same id m m' e = ground (arith, e)

  -- From a table with one entry for each peer and one callback for each event: a peer that is not
  -- held for dead and answers none of the probes that the loop makes of it before it stops, in the
  -- order of their times, the last of them `dead_after` or more after its last heartbeat, is then
  -- held for dead, and its death was reported exactly once, whatever the other peers answer.
  pub beats-detect :
      (id : Bytes) (ss : List Signal) (t : ℕ) (us : List ℕ) (now : ℕ) (m : Membership C) (p : Peer)
      → own_probes id ss ≡ unanswered id (us ++ now ∷ [])
      → Distinct (keys m.peers)
      → IsWired m
      → GoMap.get id m.peers ≡ some p
      → is_dead p.state ≡ false
      → Probed t (unanswered id (us ++ now ∷ []))
      → p.last_heartbeat + m.dead_after ≤ now
      → (held_dead id (beat_loop ss m).0 ≡ 1) × (deaths id (beat_loop ss m).1 ≡ 1)
  beats-detect id ss t us now m p probes d w found living order late =
      let (entry, died, back) = beats-own_probes id ss m d w in
      let (held, reported) = death_detected id t us now m p found living w order late in
      (
        held_dead_same id (beat_loop ss m).0 (run (unanswered id (us ++ now ∷ [])) m).0
              (entry ∙ ap (λ os. GoMap.get id (run os m).0.peers) probes)
            ∙ held,
        died ∙ ap (λ os. deaths id (run os m).1) probes ∙ reported,
      )

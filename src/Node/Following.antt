-- ===== src/Node/Following.antt =====
-- The ring of a node follows its table of peers, once the callbacks of cmd/node/main.go have run.
use p2p_container_distributi.Prelude.{
  ℕ, ◌<◌, ◌≤◌, ◌≡◌, refl, sym, ap, ◌∙◌, subst, Bool, true, false, not, ◌||◌, List, [], ◌∷◌, ◌++◌,
  none, some, arith, Bytes, bytes_eq, ◌==◌, ==_iff, contains, Bool-cases, Option-cases, inl, inr,
}
use p2p_container_distributi.GoMap
use p2p_container_distributi.GoMap.{get-put}
use p2p_container_distributi.Ring
use p2p_container_distributi.Ring.{Ring, add_node, remove_node}
use p2p_container_distributi.Cluster
use p2p_container_distributi.Cluster.{
  Peer, Membership, Call, dead_call, alive_call, is_dead, is_alive, judge, notify, ping_peer,
  on_node_dead, on_node_alive,
}
use p2p_container_distributi.Cluster.Callbacks.{IsWired, Silent, judge_of_dead, ping-Balanced}
use p2p_container_distributi.Cluster.Histories.{pings, step, ping_gone, ping_found}
use p2p_container_distributi.Cluster.Invariant.{IsTable, step-IsTable, known_other}
use p2p_container_distributi.Node.{Callback, node_dead, node_alive, Setting, add_entries, configure}
use p2p_container_distributi.Text.{split_on}
use p2p_container_distributi.Node.Setup.{AllUp, start-IsPrepared, add_entries-IsPrepared}
use p2p_container_distributi.Node.Run.{Running, probed, perform, Step, Reaches, launch}
use p2p_container_distributi.Node.Waiting.{settled, settled-append, settled-runs}

-- The node itself, or a peer of the table that is not held for dead.
abbrev pub up : Membership Callback → Bytes → Bool
up m y =
    m.self.id == y || elim (GoMap.get y m.peers) [ none ↦ false | some p ↦ not (is_dead p.state) ]

-- The node with its waiting callbacks: what the ring will be when they have run is what the table
-- says.
record IsFollowing (n : Running) : Type 0 where
  follows : (y : Bytes) → settled y n.waiting (contains n.ring.nodes y) ≡ up n.membership y
  dead_hook : n.membership.on_dead ≡ node_dead ∷ []
  alive_hook : n.membership.on_alive ≡ node_alive ∷ []
  pub patience : 0 < n.membership.dead_after
  pub silent : (y : Bytes) → Silent y n.clock n.membership
  pub table : IsTable n.membership

-- The change of one peer, and the callbacks that it starts.
settled-notify :
    (m : Membership Callback) (id y : Bytes) (q q' : Peer)
    → m.on_dead ≡ node_dead ∷ []
    → m.on_alive ≡ node_alive ∷ []
    → GoMap.get id m.peers ≡ some q
    → (id == m.self.id) ≡ false
    → (is_dead q.state ≡ true → is_dead q'.state ≡ false → is_alive q'.state ≡ true)
    → settled y (notify m id q.state q'.state) (up m y)
      ≡ up (record m { peers = GoMap.put id q' m.peers }) y
unfolding notify
settled-notify m id y q q' dead_hook alive_hook found other back =
    rw (dead_hook, alive_hook, get-put id y q' m.peers)
      (elim (Bool-cases (id == y)) [
        | inl same ↦
            let at_y : GoMap.get y m.peers ≡ some q =
              subst (λ z. GoMap.get z m.peers ≡ some q) ((==_iff id y).0 same) found in
            rw at_y (ground (arith, ==_iff id m.self.id, ==_iff m.self.id y, ==_iff id y))
        | inr apart ↦ ground arith
      ])

probed-follows :
    (id y : Bytes) (healthy : Bool) (now : ℕ) (n : Running)
    → n.clock ≤ now
    → IsFollowing n
    → settled y (probed id healthy now n).waiting (contains (probed id healthy now n).ring.nodes y)
      ≡ up (probed id healthy now n).membership y
unfolding probed
probed-follows id y healthy now n le v =
    let m = n.membership in
    elim (Option-cases (GoMap.get id m.peers)) [
      | inl gone ↦
          rw (ping_gone id healthy now m gone) (settled-append y n.waiting [] _ ∙ v.follows y)
      | inr (q, found) ↦
          let q' : Peer = judge m healthy now q in
          rw (ping_found id healthy now m q found) (
            settled-append y n.waiting (notify m id q.state q'.state) _
            ∙ ap (settled y (notify m id q.state q'.state)) (v.follows y)
            ∙ settled-notify m id y q q' v.dead_hook v.alive_hook found
                (known_other m id q v.table found)
                (λ d. judge_of_dead m healthy now q d (omega (arith, v.silent id q found d))))
    ]

ping-fixed :
    (id : Bytes) (healthy : Bool) (now : ℕ) (m : Membership Callback)
    → ((ping_peer id healthy now m).0.on_dead ≡ m.on_dead)
      × ((ping_peer id healthy now m).0.on_alive ≡ m.on_alive)
      × ((ping_peer id healthy now m).0.dead_after ≡ m.dead_after)
unfolding ping_peer
ping-fixed id healthy now m = ground arith

-- At first, all peers are up.
up-AllUp :
    (y : Bytes) (m : Membership Callback)
    → AllUp m
    → up m y ≡ (m.self.id == y || contains (GoMap.keys m.peers) y)
up-AllUp y m v = elim (Option-cases (GoMap.get y m.peers)) [
  | inl gone ↦ elim (Bool-cases (contains (GoMap.keys m.peers) y)) [
    | inr absent ↦ rw (gone, absent)
    | inl there ↦ let (p, found) = GoMap.get_of_contains-keys y m.peers there in cc (gone, found)
  ]
  | inr (p, found) ↦ rw (found, GoMap.contains-keys-get y m.peers p found, v y p found)
]

module _ (sha1 : Bytes → Bytes) where
  Step-IsFollowing : {n m : Running} → Step sha1 n m → IsFollowing n → IsFollowing m
  Step-IsFollowing (Step.probes id healthy now {n = n} le) v =
      let wired : IsWired n.membership = record {
        one_dead = (node_dead, v.dead_hook);
        one_alive = (node_alive, v.alive_hook);
        patient = v.patience;
      } in
      let (dead_same, alive_same, patience_same) = ping-fixed id healthy now n.membership in
      let after =
        λ (y : Bytes). ping-Balanced y id healthy n.clock now n.membership le (v.silent y) wired in
      record {
        follows = λ y. probed-follows id y healthy now n le v;
        dead_hook = unfold probed in (dead_same ∙ v.dead_hook);
        alive_hook = unfold probed in (alive_same ∙ v.alive_hook);
        patience = unfold probed in omega (arith, patience_same, v.patience);
        silent = λ y. unfold probed in (after y).1;
        table = unfold probed step in step-IsTable (pings id healthy now) n.membership v.table;
      }
  Step-IsFollowing (Step.runs before call after {n = n} at_call first) v = record {
    follows = λ y.
        settled-runs sha1 y before after call n.ring first
        ∙ ap (λ cs. settled y cs (contains n.ring.nodes y)) (sym at_call)
        ∙ v.follows y;
    dead_hook = v.dead_hook;
    alive_hook = v.alive_hook;
    patience = v.patience;
    silent = v.silent;
    table = v.table;
  }

  Reaches-IsFollowing : {n m : Running} → Reaches sha1 n m → IsFollowing n → IsFollowing m
  Reaches-IsFollowing Reaches.stays v = v
  Reaches-IsFollowing (Reaches.moves s r) v = Reaches-IsFollowing r (Step-IsFollowing s v)

  launch-IsFollowing :
      (now : ℕ) (node_id advertise peers : Bytes)
      → IsFollowing (launch sha1 now node_id advertise peers)
  unfolding launch configure on_node_dead on_node_alive
  launch-IsFollowing now node_id advertise peers =
      let entries = split_on b',' peers in
      let start : Setting = record {
        membership = Cluster.new node_id advertise now;
        ring = add_node sha1 node_id Ring.new;
      } in
      let n : Setting = add_entries sha1 now entries start in
      let v =
        add_entries-IsPrepared sha1 now node_id entries start
          (start-IsPrepared sha1 now node_id advertise) in
      let others : Bytes → Bool = λ y. contains (GoMap.keys n.membership.peers) y in
      record {
        follows = λ y.
            v.same y ∙ sym (up-AllUp y n.membership v.fresh ∙ ap (λ z. z == y || others y) v.own);
        dead_hook = ap (λ l. l ++ node_dead ∷ []) v.no_dead;
        alive_hook = ap (λ l. l ++ node_alive ∷ []) v.no_alive;
        patience = omega (arith, v.patience);
        silent = λ y p got held. cc (v.fresh y p got);
        table = record {
          distinct = v.table.distinct;
          named = v.table.named;
          not_self = v.table.not_self;
        };
      }

  -- From any settings, over any probes in the order of their times, and callbacks that run at any
  -- later time, those about one node in the order in which they were started: whenever no callback
  -- is waiting, the ring has exactly the node itself and the peers that are not held for dead.
  pub ring_follows :
      (now : ℕ) (node_id advertise peers : Bytes) (n : Running)
      → Reaches sha1 (launch sha1 now node_id advertise peers) n
      → n.waiting ≡ []
      → (y : Bytes) → contains n.ring.nodes y ≡ up n.membership y
  ring_follows now node_id advertise peers n r idle y =
      let v = Reaches-IsFollowing r (launch-IsFollowing now node_id advertise peers) in
      ap (λ cs. settled y cs (contains n.ring.nodes y)) (sym idle) ∙ v.follows y

  -- The callbacks run to the end, one after the other.
  abbrev pub perform_all : List (Call Callback) → Ring → Ring
  perform_all [] r = r
  perform_all (c ∷ cs) r = perform_all cs (perform sha1 c r)

  drains :
      (n : Running)
      → Reaches sha1 n (record n { ring = perform_all n.waiting n.ring; waiting = [] })
  drains n = drain n.waiting n refl
    where
      drain :
          (cs : List (Call Callback)) (n : Running)
          → n.waiting ≡ cs
          → Reaches sha1 n (record n { ring = perform_all cs n.ring; waiting = [] })
      drain [] n e = subst (λ ws. Reaches sha1 n (record n { waiting = ws })) e Reaches.stays
      drain (c ∷ cs) n e =
          Reaches.moves (Step.runs [] c cs e tt)
            (drain cs (record n { ring = perform sha1 c n.ring; waiting = cs }) refl)

  -- From any settings, over any probes in the order of their times, and callbacks that run at any
  -- later time, those about one node in the order in which they were started: the callbacks that
  -- still wait can all run, in the order in which they were started and with no probe between them,
  -- so that none waits; then the ring has exactly the node itself and the peers that the table, as
  -- it is, does not hold for dead.
  pub ring_settles :
      (now : ℕ) (node_id advertise peers : Bytes) (n : Running)
      → Reaches sha1 (launch sha1 now node_id advertise peers) n
      → Reaches sha1 n (record n { ring = perform_all n.waiting n.ring; waiting = [] })
        × ((y : Bytes) → contains (perform_all n.waiting n.ring).nodes y ≡ up n.membership y)
  ring_settles now node_id advertise peers n r =
      let v = Reaches-IsFollowing r (launch-IsFollowing now node_id advertise peers) in
      let more = drains n in (more, λ y. (Reaches-IsFollowing more v).follows y)

-- ===== src/Node/Agreement.antt =====
-- Nodes of one cluster, each at work as cmd/node/main.go wires it, agree on where chunks belong.
use p2p_container_distributi.Prelude.{
  ℕ, ◌≡◌, sym, ◌∙◌, subst, Bool, true, false, ◌&&◌, not, List, [], ◌∷◌, map, arith, Bytes, bytes_eq,
  ◌==◌, ==_iff, contains, All, All-append, All-middle, none, some, Option-cases, Bool-cases, inl,
  inr, if◌then◌else◌,
}
use p2p_container_distributi.Prelude.Int.{ℤ}
use p2p_container_distributi.GoMap
use p2p_container_distributi.GoMap.{keys, contains-keys-put, contains-keys-get}
use p2p_container_distributi.Text.{split_on, cut_at, trim_space}
use p2p_container_distributi.Ring
use p2p_container_distributi.Ring.{Ring, add_node, get_n}
use p2p_container_distributi.Ring.Agreement.{get_n-agree}
use p2p_container_distributi.Ring.Names.{
  Separated, IsNamed, new-IsNamed, add_node-IsNamed, remove_node-IsNamed,
}
use p2p_container_distributi.Cluster
use p2p_container_distributi.Cluster.{
  State, Membership, Call, dead_call, alive_call, is_dead, is_alive, judge, notify, on_node_dead,
  on_node_alive,
}
use p2p_container_distributi.Cluster.Histories.{ping_gone, ping_found}
use p2p_container_distributi.Recovery.{handle_node_dead, handle_node_alive}
use p2p_container_distributi.Node.{
  Callback, node_dead, node_alive, Setting, add_entry, add_entries, configure,
}
use p2p_container_distributi.Node.Setup.{configure-IsWired}
use p2p_container_distributi.Node.Run.{
  Running, launch, probed, call_back, perform, callback_of, about, Step, Reaches,
}
use p2p_container_distributi.Node.Following.{up, ring_follows}

module _ (names : Bytes → Bool) where
  -- The node that an entry of the setting names, if it names one.
  abbrev EntryNamed : Bytes → Type 0
  EntryNamed entry = elim (cut_at b'=' (trim_space entry)) [
    | none ↦ Unit
    | some (id, addr) ↦ names id ≡ true
  ]

  -- A setting that names only nodes in the set.
  abbrev pub SettingNamed : Bytes → Bytes → Type 0
  SettingNamed node_id peers = (names node_id ≡ true) × All EntryNamed (split_on b',' peers)

module _ (sha1 : Bytes → Bytes) (names : Bytes → Bool) (separated : Separated sha1 names) where
  abbrev Named : Bytes → Type 0
  Named id = names id ≡ true

  add_entry-IsNamed :
      (now : ℕ) (entry : Bytes) (n : Setting)
      → EntryNamed names entry
      → IsNamed sha1 names n.ring
      → IsNamed sha1 names (add_entry sha1 now entry n).ring
  unfolding add_entry
  add_entry-IsNamed now entry n named v = elim (Bool-cases (trim_space entry == [])) [
    | inl blank ↦ rw blank v
    | inr more ↦ elim (Option-cases (cut_at b'=' (trim_space entry))) [
      | inl malformed ↦ rw (more, malformed, add_entry) v
      | inr ((id, addr), parts) ↦
          rw (more, parts, add_entry)
            (add_node-IsNamed sha1 names separated n.ring id v (rw (parts, EntryNamed) at named))
    ]
  ]

  add_entries-IsNamed :
      (now : ℕ) (entries : List Bytes) (n : Setting)
      → All (EntryNamed names) entries
      → IsNamed sha1 names n.ring
      → IsNamed sha1 names (add_entries sha1 now entries n).ring
  unfolding add_entries
  add_entries-IsNamed now [] n named v = v
  add_entries-IsNamed now (entry ∷ entries) n named v =
      add_entries-IsNamed now entries _ named.1 (add_entry-IsNamed now entry n named.0 v)

  -- A node among the names: its ring, its table and its waiting callbacks.
  record IsAmong (n : Running) : Type 0 where
    pub ring : IsNamed sha1 names n.ring
    pub calls : All (λ c. Named (about c)) n.waiting
    pub peers : (y : Bytes) → contains (keys n.membership.peers) y ≡ true → Named y

  started-All :
      (b : Bool) (call : Callback → Call Callback) (fs : List Callback)
      → ((f : Callback) → Named (about (call f)))
      → All (λ c. Named (about c)) (if b then map call fs else [])
  started-All false call fs h = tt
  started-All true call [] h = tt
  started-All true call (f ∷ fs) h = (h f, started-All true call fs h)

  notify-All :
      (m : Membership Callback) (id : Bytes) (prev next : State)
      → Named id
      → All (λ c. Named (about c)) (notify m id prev next)
  unfolding notify
  notify-All m id prev next named =
      All-append _
        (if not (is_dead prev) && is_dead next then map (λ f. dead_call f id) m.on_dead else []) _
        (started-All (not (is_dead prev) && is_dead next) (λ f. dead_call f id) m.on_dead
          (λ f. named))
        (started-All (is_dead prev && is_alive next) (λ f. alive_call f id) m.on_alive (λ f. named))

  probed-IsAmong :
      (id : Bytes) (healthy : Bool) (now : ℕ) (n : Running)
      → IsAmong n
      → IsAmong (probed id healthy now n)
  unfolding probed
  probed-IsAmong id healthy now n v = elim (Option-cases (GoMap.get id n.membership.peers)) [
    | inl gone ↦
        rw (ping_gone id healthy now n.membership gone)
          (record { ring = v.ring; calls = All-append _ n.waiting [] v.calls tt; peers = v.peers })
    | inr (q, found) ↦
        let named : Named id = v.peers id (contains-keys-get id n.membership.peers q found) in
        rw (ping_found id healthy now n.membership q found) (record {
          ring = v.ring;
          calls = All-append _ n.waiting _ v.calls (notify-All n.membership id q.state _ named);
          peers = λ y c. ground (
            arith,
            contains-keys-put id y (judge n.membership healthy now q) n.membership.peers,
            v.peers y,
            ==_iff id y,
          );
        })
  ]

  call_back-IsNamed :
      (f : Callback) (id : Bytes) (r : Ring)
      → Named id
      → IsNamed sha1 names r
      → IsNamed sha1 names (call_back sha1 f id r)
  unfolding call_back handle_node_dead handle_node_alive
  call_back-IsNamed node_dead id r named v = remove_node-IsNamed sha1 names r id v
  call_back-IsNamed node_alive id r named v = add_node-IsNamed sha1 names separated r id v named

  Step-IsAmong : {n m : Running} → Step sha1 n m → IsAmong n → IsAmong m
  Step-IsAmong (Step.probes id healthy now {n = n} le) v = probed-IsAmong id healthy now n v
  Step-IsAmong (Step.runs before call after {n = n} at_call first) v =
      let (this, others) =
        All-middle (λ c. Named (about c)) before call after
          (subst (All (λ c. Named (about c))) at_call v.calls) in
      record {
        ring =
            unfold perform in call_back-IsNamed (callback_of call) (about call) n.ring this v.ring;
        calls = others;
        peers = v.peers;
      }

  Reaches-IsAmong : {n m : Running} → Reaches sha1 n m → IsAmong n → IsAmong m
  Reaches-IsAmong Reaches.stays v = v
  Reaches-IsAmong (Reaches.moves s r) v = Reaches-IsAmong r (Step-IsAmong s v)

  launch-IsAmong :
      (now : ℕ) (node_id advertise peers : Bytes)
      → SettingNamed names node_id peers
      → IsAmong (launch sha1 now node_id advertise peers)
  unfolding launch configure on_node_dead on_node_alive
  launch-IsAmong now node_id advertise peers named =
      let start : Setting = record {
        membership = Cluster.new node_id advertise now;
        ring = add_node sha1 node_id Ring.new;
      } in
      let v =
        add_entries-IsNamed now (split_on b',' peers) start named.1 (
          add_node-IsNamed sha1 names separated Ring.new node_id (new-IsNamed sha1 names)
            named.0) in
      record {
        ring = v;
        calls = tt;
        peers = λ y c.
            v.named y (ground (arith, (configure-IsWired sha1 now node_id advertise peers).0 y));
      }

  -- Two nodes of one cluster, of any settings that name only nodes whose points do not collide,
  -- over any probes in the order of their times and callbacks that run at any later time, those
  -- about one node in the order in which they were started: when neither node has a callback
  -- waiting and both hold the same nodes for up, they agree on the replicas of every key.
  pub nodes_agree :
      (now now' : ℕ) (id id' advertise advertise' peers peers' : Bytes) (n n' : Running)
      (key : Bytes) (k : ℤ)
      → SettingNamed names id peers
      → SettingNamed names id' peers'
      → Reaches sha1 (launch sha1 now id advertise peers) n
      → Reaches sha1 (launch sha1 now' id' advertise' peers') n'
      → n.waiting ≡ []
      → n'.waiting ≡ []
      → ((y : Bytes) → up n.membership y ≡ up n'.membership y)
      → get_n sha1 n.ring key k ≡ get_n sha1 n'.ring key k
  nodes_agree now now' id id' advertise advertise' peers peers' n n' key k s s' r r' idle idle'
        same =
      let v = Reaches-IsAmong r (launch-IsAmong now id advertise peers s) in
      let v' = Reaches-IsAmong r' (launch-IsAmong now' id' advertise' peers' s') in
      get_n-agree sha1 n.ring n'.ring key k v.ring.ring v'.ring.ring v.ring.placed v'.ring.placed
        λ y.
          ring_follows sha1 now id advertise peers n r idle y
          ∙ same y
          ∙ sym (ring_follows sha1 now' id' advertise' peers' n' r' idle' y)

-- ===== src/Cluster/Rounds.antt =====
-- The rounds of internal/cluster/membership.go: the probes of a round run beside each other and end
-- in any order.
use mathlib.Core.List.{Permᴰ}
use mathlib.Core.List.Permᴰ
use p2p_container_distributi.Prelude.{
  ℕ, ◌≡◌, refl, sym, ap, ap₂, append_assoc, ◌∙◌, subst, Bool, true, false, List, [], ◌∷◌, ◌++◌,
  arith, Bytes, bytes_eq, ◌==◌, ==_iff, contains, Distinct, Option, none, some, Option-cases,
  Bool-cases, inl, inr, if◌then◌else◌,
}
use p2p_container_distributi.GoMap
use p2p_container_distributi.GoMap.Order.{contains-map-Permᴰ, Distinct-map-Permᴰ}
use p2p_container_distributi.GoMap.{keys, get-put, contains-keys-get}
use p2p_container_distributi.Cluster.{
  Peer, Membership, Call, judge, notify, ping_peer, ping_all, heartbeat_round,
}
use p2p_container_distributi.Cluster.Histories.{ping_gone, ping_found}

keys-put_known :
    (k : Bytes) (v : Peer) (m : List (Bytes × Peer)) (w : Peer)
    → GoMap.get k m ≡ some w
    → keys (GoMap.put k v m) ≡ keys m
unfolding GoMap.get GoMap.put
keys-put_known k v [] w h = cc
keys-put_known k v ((j, u) ∷ m) w h = ground (arith, keys-put_known k v m w, ==_iff j k)

pub absent_entry :
    (y : Bytes) (m : List (Bytes × Peer)) → contains (keys m) y ≡ false → GoMap.get y m ≡ none
absent_entry y m h = elim (Option-cases (GoMap.get y m)) [
  | inl gone ↦ gone
  | inr (p, found) ↦ cc (contains-keys-get y m p found, h)
]

swap_front : {C : Type 0} (x y z : List (Call C)) → Permᴰ (x ++ (y ++ z)) (y ++ (x ++ z))
swap_front x y z =
    subst (λ l. Permᴰ l (y ++ (x ++ z))) (append_assoc x y z)
      (subst (Permᴰ ((x ++ y) ++ z)) (append_assoc y x z)
        (Permᴰ.append_right z (Permᴰ.append_comm x y)))

module _ {C : Type 0} where
  -- The settings of the table, on which a judgement depends.
  pub record SameSettings (m m' : Membership C) : Type 0 where
    pub suspect_after : m'.suspect_after ≡ m.suspect_after
    pub dead_after : m'.dead_after ≡ m.dead_after
    pub on_dead : m'.on_dead ≡ m.on_dead
    pub on_alive : m'.on_alive ≡ m.on_alive

  pub SameSettings-trans :
      (m m' n : Membership C) → SameSettings m m' → SameSettings m' n → SameSettings m n
  SameSettings-trans m m' n s t = record {
    suspect_after = t.suspect_after ∙ s.suspect_after;
    dead_after = t.dead_after ∙ s.dead_after;
    on_dead = t.on_dead ∙ s.on_dead;
    on_alive = t.on_alive ∙ s.on_alive;
  }

module _ {C : Type 0} (probe : Bytes → Bool × ℕ) where
  -- What the probe of a peer makes of its entry, and the callbacks that it starts.
  abbrev judged_entry : Membership C → Bytes → Option Peer → Option Peer
  judged_entry m y none = none
  judged_entry m y (some p) = some (judge m (probe y).0 (probe y).1 p)

  abbrev started_for : Membership C → Bytes → Option Peer → List (Call C)
  started_for m y none = []
  started_for m y (some p) = notify m y p.state (judge m (probe y).0 (probe y).1 p).state

  abbrev pub judged : Membership C → Bytes → Option Peer
  judged m y = judged_entry m y (GoMap.get y m.peers)

  abbrev pub started : Membership C → Bytes → List (Call C)
  started m y = started_for m y (GoMap.get y m.peers)

  abbrev pub all_started : Membership C → List Bytes → List (Call C)
  all_started m [] = []
  all_started m (y ∷ ys) = started m y ++ all_started m ys

  pub same_judgement :
      (m m' : Membership C) (y : Bytes)
      → SameSettings m m'
      → GoMap.get y m'.peers ≡ GoMap.get y m.peers
      → (judged m' y ≡ judged m y) × (started m' y ≡ started m y)
  same_judgement m m' y s e = (
    ap (judged_entry m' y) e ∙ entry (GoMap.get y m.peers),
    ap (started_for m' y) e ∙ calls (GoMap.get y m.peers),
  )
    where
      entry : (o : Option Peer) → judged_entry m' y o ≡ judged_entry m y o
      entry none = refl
      entry (some p) = unfold judge in rw (s.suspect_after, s.dead_after)

      calls : (o : Option Peer) → started_for m' y o ≡ started_for m y o
      calls none = refl
      calls (some p) =
          unfold judge notify in rw (s.suspect_after, s.dead_after, s.on_dead, s.on_alive)

  -- One probe: its own entry and callbacks, and nothing else.
  pub ping_peer_lem :
      (id y : Bytes) (m : Membership C)
      → let r = ping_peer id (probe id).0 (probe id).1 m in
        SameSettings m r.0
        × (GoMap.get y r.0.peers ≡ (if id == y then judged m y else GoMap.get y m.peers))
        × (r.1 ≡ started m id)
        × (keys r.0.peers ≡ keys m.peers)
  ping_peer_lem id y m = elim (Option-cases (GoMap.get id m.peers)) [
    | inl gone ↦ rw (ping_gone id (probe id).0 (probe id).1 m gone) (
      record { suspect_after = refl; dead_after = refl; on_dead = refl; on_alive = refl },
      elim (Bool-cases (id == y)) [
        | inl same ↦
            let g : GoMap.get y m.peers ≡ none =
              subst (λ z. GoMap.get z m.peers ≡ none) ((==_iff id y).0 same) gone in
            rw (same, g) refl
        | inr other ↦ rw other refl
      ],
      ap (started_for m id) (sym gone),
      refl,
    )
    | inr (p, found) ↦ rw (ping_found id (probe id).0 (probe id).1 m p found) (
      record { suspect_after = refl; dead_after = refl; on_dead = refl; on_alive = refl },
      get-put id y (judge m (probe id).0 (probe id).1 p) m.peers ∙ elim (Bool-cases (id == y)) [
        | inl same ↦
            let e : id ≡ y = (==_iff id y).0 same in
            rw same (
              ap (λ z. some (judge m (probe z).0 (probe z).1 p)) e
              ∙ ap (judged_entry m y) (sym (subst (λ z. GoMap.get z m.peers ≡ some p) e found)))
        | inr other ↦ rw other refl
      ],
      ap (started_for m id) (sym found),
      keys-put_known id _ m.peers p found,
    )
  ]

  all_started_same :
      (m m' : Membership C) (ys : List Bytes)
      → SameSettings m m'
      → ((y : Bytes) → contains ys y ≡ true → GoMap.get y m'.peers ≡ GoMap.get y m.peers)
      → all_started m' ys ≡ all_started m ys
  all_started_same m m' [] s h = refl
  all_started_same m m' (y ∷ ys) s h =
      ap₂ ◌++◌ (same_judgement m m' y s (h y (ground (arith, ==_iff y y)))).1
        (all_started_same m m' ys s (λ z c. h z (ground arith)))

  -- The probes of a list of peers, each once.
  pub ping_all_lem :
      (ids : List Bytes) (m : Membership C)
      → Distinct ids
      → let r = ping_all probe ids m in
        SameSettings m r.0
        × ((y : Bytes)
            → GoMap.get y r.0.peers ≡ (if contains ids y then judged m y else GoMap.get y m.peers))
        × (r.1 ≡ all_started m ids)
        × (keys r.0.peers ≡ keys m.peers)
  unfolding ping_all
  ping_all_lem [] m d = (
    record { suspect_after = refl; dead_after = refl; on_dead = refl; on_alive = refl },
    (λ y. refl),
    refl,
    refl,
  )
  ping_all_lem (id ∷ ids) m d =
      let m1 : Membership C = (ping_peer id (probe id).0 (probe id).1 m).0 in
      let (s2, at2, calls2, keys2) = ping_all_lem ids m1 d.1 in
      let (s1, at1, calls1, keys1) = ping_peer_lem id id m in
      let elsewhere : (y : Bytes)
          → contains ids y ≡ true
          → GoMap.get y m1.peers ≡ GoMap.get y m.peers =
        λ y c. (ping_peer_lem id y m).1 ∙ rw (other id y ids d.0 c) refl in
      (
        SameSettings-trans m m1 _ s1 s2,
        λ y. at2 y ∙ elim (Bool-cases (contains ids y)) [
          | inl later ↦
              rw (later, other id y ids d.0 later) (same_judgement m m1 y s1 (elsewhere y later)).0
          | inr never ↦ rw never ((ping_peer_lem id y m).1 ∙ ground arith)
        ],
        ap₂ ◌++◌ calls1 (calls2 ∙ all_started_same m m1 ids s1 elsewhere),
        keys2 ∙ keys1,
      )
    where
      other :
          (id y : Bytes) (ids : List Bytes)
          → contains ids id ≡ false
          → contains ids y ≡ true
          → (id == y) ≡ false
      other id y ids a b = elim (Bool-cases (id == y)) [
        | inl same ↦ cc (sym (ap (contains ids) ((==_iff id y).0 same)) ∙ a, b)
        | inr apart ↦ apart
      ]

  all_started-Permᴰ :
      (m : Membership C) {es es' : List (Bytes × Peer)}
      → Permᴰ es es'
      → Permᴰ (all_started m (keys es)) (all_started m (keys es'))
  all_started-Permᴰ m Permᴰ.nil = Permᴰ.nil
  all_started-Permᴰ m (Permᴰ.cons {a = a} {l₁ = l₁} {l₂ = l₂} e d) =
      subst
        (λ z.
          Permᴰ (started m a.0 ++ all_started m (keys l₁))
            (started m z.0 ++ all_started m (keys l₂)))
        e (Permᴰ.append_left (started m a.0) (all_started-Permᴰ m d))
  all_started-Permᴰ m (Permᴰ.swap {a = a} {b = b} {l = l} e₁ e₂) =
      subst (λ z. Permᴰ (started m a.0 ++ (started m b.0 ++ all_started m (keys l))) z)
        (ap₂ (λ x y. started m x.0 ++ (started m y.0 ++ all_started m (keys l))) e₂ e₁)
        (swap_front (started m a.0) (started m b.0) (all_started m (keys l)))
  all_started-Permᴰ m (Permᴰ.trans d₁ d₂) =
      Permᴰ.trans (all_started-Permᴰ m d₁) (all_started-Permᴰ m d₂)

  -- In whatever order the probes of a round end, every entry of the table is the one that its own
  -- probe makes of it, as if the probes were made one by one in the order of the table, and the
  -- same callbacks are started, up to their order.
  pub heartbeat_round-any_order :
      (m : Membership C) (ended : List (Bytes × Peer))
      → Distinct (keys m.peers)
      → Permᴰ m.peers ended
      → ((y : Bytes)
          → (GoMap.get y (ping_all probe (keys ended) m).0.peers ≡ judged m y)
            × (GoMap.get y (heartbeat_round probe m).0.peers ≡ judged m y))
        × Permᴰ (heartbeat_round probe m).1 (ping_all probe (keys ended) m).1
  unfolding heartbeat_round
  heartbeat_round-any_order m ended d perm =
      let (s, at, calls, ks) = ping_all_lem (keys m.peers) m d in
      let (s', at', calls', ks') =
        ping_all_lem (keys ended) m (Distinct-map-Permᴰ (λ r. r.0) perm d) in
      (
        λ y. (
          at' y
              ∙ all_known y (contains (keys ended) y) (sym (contains-map-Permᴰ (λ r. r.0) y perm)),
          at y ∙ all_known y (contains (keys m.peers) y) refl,
        ),
        subst (λ l. Permᴰ l (ping_all probe (keys ended) m).1) (sym calls)
            (subst (λ l. Permᴰ (all_started m (keys m.peers)) l) (sym calls')
              (all_started-Permᴰ m perm)),
      )
    where
      all_known :
          (y : Bytes) (b : Bool)
          → b ≡ contains (keys m.peers) y
          → (if b then judged m y else GoMap.get y m.peers) ≡ judged m y
      all_known y true e = refl
      all_known y false e = let g = absent_entry y m.peers (sym e) in rw g refl

-- ===== src/Node/Setup.antt =====
-- The state that cmd/node/main.go sets up: the nodes of its membership and its ring, and its
-- callbacks.
use p2p_container_distributi.Prelude.{
  ℕ, ◌*◌, ◌≡◌, refl, sym, ap, ◌∙◌, subst, Bool, ◌||◌, List, [], ◌∷◌, ◌++◌, arith, Bytes, bytes_eq,
  ◌==◌, ==_iff, contains, Option-cases, Bool-cases, inl, inr, some, false,
}
use p2p_container_distributi.GoMap
use p2p_container_distributi.GoMap.{keys, contains-keys-put, contains-keys-get}
use p2p_container_distributi.Text.{split_on, cut_at, trim_space}
use p2p_container_distributi.Ring.{Ring, add_node}
use p2p_container_distributi.Ring
use p2p_container_distributi.Ring.Members.{contains-add_node}
use p2p_container_distributi.Cluster.{
  Peer, alive, Membership, add_peer, on_node_dead, on_node_alive, second, is_dead,
}
use p2p_container_distributi.Cluster
use p2p_container_distributi.Cluster.Callbacks.{IsWired}
use p2p_container_distributi.Cluster.Histories.{adds, step}
use p2p_container_distributi.Cluster.Invariant.{IsTable, new-IsTable, step-IsTable}
use p2p_container_distributi.Node.{
  Callback, node_dead, node_alive, Setting, add_entry, add_entries, configure,
}

-- The node itself, or a peer of the table.
abbrev known : Bytes → Membership Callback → Bytes → Bool
known self_id m y = self_id == y || contains (keys m.peers) y

known-add_peer :
    (id addr : Bytes) (now : ℕ) (m : Membership Callback) (y : Bytes)
    → known m.self.id (add_peer id addr now m) y ≡ (id == y || known m.self.id m y)
unfolding add_peer
known-add_peer id addr now m y = elim (Bool-cases (id == m.self.id)) [
  | inl own ↦ rw own (ground (arith, ==_iff id m.self.id, ==_iff id y, ==_iff m.self.id y))
  | inr other ↦ elim (Option-cases (GoMap.get id m.peers)) [
    | inr (p, there) ↦
        rw (other, there, add_peer)
          (ground (
            arith,
            contains-keys-get id m.peers p there,
            ==_iff id y,
            ap (contains (keys m.peers)) {x = id} {y = y},
          ))
    | inl fresh ↦
        let p : Peer = record { id = id; addr = addr; state = alive; last_heartbeat = now } in
        rw (other, fresh, add_peer) (ground (arith, contains-keys-put id y p m.peers))
  ]
]

add_peer-fixed :
    (id addr : Bytes) (now : ℕ) (m : Membership Callback)
    → ((add_peer id addr now m).self.id ≡ m.self.id)
      × ((add_peer id addr now m).on_dead ≡ m.on_dead)
      × ((add_peer id addr now m).on_alive ≡ m.on_alive)
      × ((add_peer id addr now m).dead_after ≡ m.dead_after)
unfolding add_peer
add_peer-fixed id addr now m = ground arith

-- No peer is held for dead.
abbrev pub AllUp : Membership Callback → Type 0
AllUp m = (y : Bytes) (p : Peer) → GoMap.get y m.peers ≡ some p → is_dead p.state ≡ false

add_peer-AllUp :
    (id addr : Bytes) (now : ℕ) (m : Membership Callback) → AllUp m → AllUp (add_peer id addr now m)
unfolding add_peer
add_peer-AllUp id addr now m v y p got = ground (
  arith,
  v y p,
  GoMap.get-put id y (record { id = id; addr = addr; state = alive; last_heartbeat = now }) m.peers,
)

-- The ring has this node and the peers of the table, and no other node; no callback is set yet.
pub record IsPrepared (self_id : Bytes) (n : Setting) : Type 0 where
  pub own : n.membership.self.id ≡ self_id
  pub same : (y : Bytes) → contains n.ring.nodes y ≡ known self_id n.membership y
  pub no_dead : n.membership.on_dead ≡ []
  pub no_alive : n.membership.on_alive ≡ []
  pub patience : n.membership.dead_after ≡ 9 * second
  pub table : IsTable n.membership
  pub fresh : AllUp n.membership

module _ (sha1 : Bytes → Bytes) (now : ℕ) (self_id : Bytes) where
  add_entry-IsPrepared :
      (entry : Bytes) (n : Setting)
      → IsPrepared self_id n
      → IsPrepared self_id (add_entry sha1 now entry n)
  unfolding add_entry
  add_entry-IsPrepared entry n v = elim (Bool-cases (trim_space entry == [])) [
    | inl blank ↦ rw blank v
    | inr more ↦ elim (Option-cases (cut_at b'=' (trim_space entry))) [
      | inl malformed ↦ rw (more, malformed, add_entry) v
      | inr ((id, addr), parts) ↦
          let (a, b, c, d) = add_peer-fixed id addr now n.membership in
          rw (more, parts, add_entry)
            (record {
              own = a ∙ v.own;
              same = λ y.
                  contains-add_node sha1 n.ring id y
                  ∙ ap (λ z. id == y || z) (v.same y)
                  ∙ sym (
                      subst
                        (λ s.
                          known s (add_peer id addr now n.membership) y
                          ≡ (id == y || known s n.membership y))
                        v.own (known-add_peer id addr now n.membership y));
              no_dead = b ∙ v.no_dead;
              no_alive = c ∙ v.no_alive;
              patience = d ∙ v.patience;
              table = unfold step in step-IsTable (adds id addr now) n.membership v.table;
              fresh = add_peer-AllUp id addr now n.membership v.fresh;
            })
    ]
  ]

  pub add_entries-IsPrepared :
      (entries : List Bytes) (n : Setting)
      → IsPrepared self_id n
      → IsPrepared self_id (add_entries sha1 now entries n)
  unfolding add_entries
  add_entries-IsPrepared [] n v = v
  add_entries-IsPrepared (entry ∷ entries) n v =
      add_entries-IsPrepared entries _ (add_entry-IsPrepared entry n v)

pub start-IsPrepared :
    (sha1 : Bytes → Bytes) (now : ℕ) (node_id advertise : Bytes)
    → IsPrepared node_id (record {
      membership = Cluster.new node_id advertise now;
      ring = add_node sha1 node_id Ring.new;
    })
unfolding Cluster.new Ring.new
start-IsPrepared sha1 now node_id advertise = record {
  own = refl;
  same = λ y. contains-add_node sha1 Ring.new node_id y;
  no_dead = refl;
  no_alive = refl;
  patience = refl;
  table = new-IsTable node_id advertise now;
  fresh = λ y p got. unfold GoMap.get in cc;
}

-- Whatever the settings, a node starts with a ring of exactly itself and the peers of its table,
-- and with one callback for each event and a positive time to death.
pub configure-IsWired :
    (sha1 : Bytes → Bytes) (now : ℕ) (node_id advertise peers : Bytes)
    → let n = configure sha1 now node_id advertise peers in
      ((y : Bytes)
        → contains n.ring.nodes y ≡ (node_id == y || contains (keys n.membership.peers) y))
      × IsWired n.membership
unfolding configure on_node_dead on_node_alive
configure-IsWired sha1 now node_id advertise peers =
    let v =
      add_entries-IsPrepared sha1 now node_id (split_on b',' peers) _
        (start-IsPrepared sha1 now node_id advertise) in
    (
      v.same,
      record {
        one_dead = (node_dead, ap (λ l. l ++ node_dead ∷ []) v.no_dead);
        one_alive = (node_alive, ap (λ l. l ++ node_alive ∷ []) v.no_alive);
        patient = omega (arith, v.patience);
      },
    )

-- ===== src/Examples/Cluster.antt =====
-- The theorems on a node at work, at a node whose one peer dies.
use p2p_container_distributi.Prelude.{
  ℕ, ◌*◌, ◌≡◌, ◌≢◌, ◌∙◌, refl, Bool, true, false, [], ◌∷◌, ◌++◌, arith, Bytes, bytes_eq, bytes_beq,
  codes, contains, ◌⊎◌, inl, inr, ==_iff, Distinct, nat_eq, sym, subst,
}
use p2p_container_distributi.Prelude.Int.{pos}
use p2p_container_distributi.GoMap
use p2p_container_distributi.GoMap.{add_member}
use p2p_container_distributi.Text.{split_on, cut_at, trim_space}
use p2p_container_distributi.Ring.{get_n, virtual_nodes_per_node, hash_key, virtual_key, decimal}
use p2p_container_distributi.Cluster
use p2p_container_distributi.Cluster.{
  Call, dead_call, second, ping_peer, judge, notify, add_peer, on_node_dead, on_node_alive,
}
use p2p_container_distributi.Node.{node_dead, configure, add_entry, add_entries}
use p2p_container_distributi.Node.Run.{Running, launch, probed, perform, Step, Reaches}
use p2p_container_distributi.Node.Following.{perform_all, up, ring_follows, ring_settles}
use p2p_container_distributi.Node.Agreement.{SettingNamed, nodes_agree}
use p2p_container_distributi.Ring.Agreement.{points_at}
use p2p_container_distributi.Ring.Names.{Separated}
use p2p_container_distributi.Ring.Points.{points}
use p2p_container_distributi.Prelude.Members.{Distinct-left, Distinct-apart, All_at}
use p2p_container_distributi.Examples.Rings.{
  all_distinct, Distinct-of_all, toy_sha1, node_a, node_b, some_key,
}

abbrev started : Running
started = launch toy_sha1 0 node_a (codes "a:1") (codes "b=b:1")

-- Ten seconds without an answer.
abbrev b_silent : Running
b_silent = probed node_b false (10 * second) started

b_reported : b_silent.waiting ≡ dead_call node_dead node_b ∷ []
unfolding probed launch configure add_entries add_entry ping_peer judge notify add_peer on_node_dead
    on_node_alive split_on cut_at trim_space bytes_beq Cluster.new GoMap.get GoMap.put
b_reported = refl

abbrev b_removed : Running
b_removed = record b_silent {
  ring = perform toy_sha1 (dead_call node_dead node_b) b_silent.ring;
  waiting = [];
}

b_removed-Reaches : Reaches toy_sha1 started b_removed
unfolding probed launch
b_removed-Reaches =
    Reaches.moves (Step.probes node_b false (10 * second) {n = started} (omega arith)) (
      Reaches.moves (Step.runs [] (dead_call node_dead node_b) [] {n = b_silent} b_reported tt)
        Reaches.stays)

ring_follows_example : contains b_removed.ring.nodes node_b ≡ up b_removed.membership node_b
ring_follows_example =
    ring_follows toy_sha1 0 node_a (codes "a:1") (codes "b=b:1") b_removed b_removed-Reaches refl
      node_b

b_silent-Reaches : Reaches toy_sha1 started b_silent
unfolding launch
b_silent-Reaches =
    Reaches.moves (Step.probes node_b false (10 * second) {n = started} (omega arith)) Reaches.stays

ring_settles_example :
    Reaches toy_sha1 b_silent
      (record b_silent { ring = perform_all toy_sha1 b_silent.waiting b_silent.ring; waiting = [] })
    × ((y : Bytes)
        → contains (perform_all toy_sha1 b_silent.waiting b_silent.ring).nodes y
          ≡ up b_silent.membership y)
ring_settles_example =
    ring_settles toy_sha1 0 node_a (codes "a:1") (codes "b=b:1") b_silent b_silent-Reaches

-- The two nodes of a cluster.
abbrev names : Bytes → Bool
names = contains (node_a ∷ node_b ∷ [])

points_apart :
    all_distinct (
      points toy_sha1 virtual_nodes_per_node 0 node_a
      ++ points toy_sha1 virtual_nodes_per_node 0 node_b)
    ≡ true
unfolding all_distinct points hash_key virtual_key decimal
points_apart = refl

two_names : (x : Bytes) → names x ≡ true → (x ≡ node_a) ⊎ (x ≡ node_b)
two_names x h = ground (arith, ==_iff node_a x, ==_iff node_b x)

ab-Distinct : Distinct (points_at toy_sha1 node_a ++ points_at toy_sha1 node_b)
ab-Distinct = Distinct-of_all _ points_apart

b_distinct : all_distinct (points_at toy_sha1 node_b) ≡ true
unfolding all_distinct points hash_key virtual_key decimal
b_distinct = refl

not_both :
    (g : ℕ)
    → contains (points_at toy_sha1 node_a) g ≡ true
    → contains (points_at toy_sha1 node_b) g ≢ true
not_both g met met' =
    let none_met : contains (points_at toy_sha1 node_b) g ≡ false =
      All_at (λ h. contains (points_at toy_sha1 node_b) h ≡ false) (points_at toy_sha1 node_a) g
        (Distinct-apart (points_at toy_sha1 node_a) (points_at toy_sha1 node_b) ab-Distinct) met in
    cc (none_met, met')

points_name :
    (x y : Bytes) (g : ℕ)
    → (x ≡ node_a) ⊎ (x ≡ node_b)
    → (y ≡ node_a) ⊎ (y ≡ node_b)
    → contains (points_at toy_sha1 x) g ≡ true
    → contains (points_at toy_sha1 y) g ≡ true
    → x ≡ y
points_name x y g (inl a) (inl a') met met' = a ∙ sym a'
points_name x y g (inr b) (inr b') met met' = b ∙ sym b'
points_name x y g (inl a) (inr b) met met' = absurd (
    not_both g (subst (λ z. contains (points_at toy_sha1 z) g ≡ true) a met)
      (subst (λ z. contains (points_at toy_sha1 z) g ≡ true) b met'))
points_name x y g (inr b) (inl a) met met' = absurd (
    not_both g (subst (λ z. contains (points_at toy_sha1 z) g ≡ true) a met')
      (subst (λ z. contains (points_at toy_sha1 z) g ≡ true) b met))

toy_separated : Separated toy_sha1 names
toy_separated = record {
  own = λ x named. elim (two_names x named) [
    | inl a ↦
        subst (λ z. Distinct (points_at toy_sha1 z)) (sym a)
          (Distinct-left (points_at toy_sha1 node_a) (points_at toy_sha1 node_b) ab-Distinct)
    | inr b ↦ subst (λ z. Distinct (points_at toy_sha1 z)) (sym b) (Distinct-of_all _ b_distinct)
  ];
  apart = λ x y g named named'. points_name x y g (two_names x named) (two_names y named');
}

abbrev started_b : Running
started_b = launch toy_sha1 5 node_b (codes "b:1") (codes "a=a:1")

same_up : (y : Bytes) → up started.membership y ≡ up started_b.membership y
unfolding probed launch configure add_entries add_entry add_peer on_node_dead on_node_alive split_on
    cut_at trim_space bytes_beq Cluster.new GoMap.get GoMap.put
same_up y = ground arith

setting_a : SettingNamed names node_a (codes "b=b:1")
unfolding split_on cut_at trim_space bytes_beq
setting_a = (refl, (refl, tt))

setting_b : SettingNamed names node_b (codes "a=a:1")
unfolding split_on cut_at trim_space bytes_beq
setting_b = (refl, (refl, tt))

nodes_agree_example :
    get_n toy_sha1 started.ring some_key (pos 3) ≡ get_n toy_sha1 started_b.ring some_key (pos 3)
nodes_agree_example =
    nodes_agree toy_sha1 names toy_separated 0 5 node_a node_b (codes "a:1") (codes "b:1")
      (codes "b=b:1") (codes "a=a:1") started started_b some_key (pos 3) setting_a setting_b
      Reaches.stays Reaches.stays (unfold launch in refl) (unfold launch in refl) same_up

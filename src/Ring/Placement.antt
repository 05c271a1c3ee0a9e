-- ===== src/Ring/Placement.antt =====
-- The replica sets of `GetN` of internal/hashring/hashring.go, and its walk when a node joins or
-- leaves.
use mathlib.Core.List.{map-append}
use p2p_container_distributi.Prelude.{
  ℕ, ◌<◌, ◌≡◌, refl, sym, ap, ap₂, ◌∙◌, Bool, true, false, not, ◌||◌, List, [], ◌∷◌, ◌++◌, arith,
  Bytes, bytes_eq, nat_eq, ◌==◌, ==_iff, contains, contains-append, Distinct, length, keep,
  keep-append, All, All-append, All-keep, Bool-cases, inl, inr, append-nil, min, length-take,
  All-take, keep_comm,
}
use p2p_container_distributi.Prelude.Members.{take-Distinct}
use p2p_container_distributi.Prelude.Int.{ℤ, pos_part}
use p2p_container_distributi.Prelude.Sorting.{sort, keep-sort, sort_of_IsSorted}
use p2p_container_distributi.Prelude.Members.{
  All-imp, All-kept, All_at, All-of_contains, keep_every, keep_nothing,
}
use p2p_container_distributi.Prelude.Dedup.{
  dedup, without, Within, Within-contains, Within-of_contains, dedup-Distinct, contains-dedup,
  dedup-keep, length-le_of_Within,
}
use p2p_container_distributi.Ring.Search.{before, from}
use p2p_container_distributi.Ring.{Ring, owner, hash_key, add_node, remove_node, get_n}
use p2p_container_distributi.Ring.Walk.{owners, clockwise, walk, clockwise-Within, get_n-walk}
use p2p_container_distributi.Ring.Invariant.{IsRing, NoCollision, hashes-remove_node, owner_kept}
use p2p_container_distributi.Ring.Join.{
  new_points, hashes-add_node, owners_old, owners_new, old_other,
}

-- Filtering points by their owner is filtering the owners.
keep-owners :
    (r : Ring) (p : Bytes → Bool) (hs : List ℕ)
    → keep p (owners r hs) ≡ owners r (keep (λ h. p (owner r h)) hs)
keep-owners r p [] = refl
keep-owners r p (h ∷ hs) = ground (arith, keep-owners r p hs)

owners_agree :
    (r s : Ring) (hs : List ℕ) → All (λ h. owner r h ≡ owner s h) hs → owners r hs ≡ owners s hs
owners_agree r s [] h = refl
owners_agree r s (g ∷ hs) h = ap₂ ◌∷◌ h.0 (owners_agree r s hs h.1)

clockwise-keep :
    (h : ℕ) (p : ℕ → Bool) (hs : List ℕ)
    → keep p (from h hs ++ before h hs) ≡ from h (keep p hs) ++ before h (keep p hs)
clockwise-keep h p hs =
    keep-append p (from h hs) (before h hs) ∙ ap₂ ◌++◌ (keep_comm p _ hs) (keep_comm p _ hs)

owners_split :
    (r : Ring) (h : ℕ) (hs : List ℕ) (y : Bytes)
    → (contains (owners r (from h hs)) y || contains (owners r (before h hs)) y)
      ≡ contains (owners r hs) y
owners_split r h [] y = refl
owners_split r h (g ∷ hs) y = ground (arith, owners_split r h hs y)

contains-owners :
    (r : Ring) (hs : List ℕ) (y : Bytes)
    → 0 < length (keep (λ h. owner r h == y) hs)
    → contains (owners r hs) y ≡ true
contains-owners r [] y h = absurd (omega arith)
contains-owners r (g ∷ hs) y h = ground (arith, contains-owners r hs y)

module _ (sha1 : Bytes → Bytes) (r : Ring) (key : Bytes) (v : IsRing r) where
  walk-Within : Within r.nodes (walk sha1 r key)
  walk-Within =
      let met : List Bytes = owners r (clockwise r (hash_key sha1 key)) in
      Within-of_contains (dedup met) r.nodes λ a c.
        Within-contains met r.nodes a (clockwise-Within r (hash_key sha1 key) v.owned)
          (sym (contains-dedup met a) ∙ c)

  nodes-Within-walk : Within (walk sha1 r key) r.nodes
  nodes-Within-walk = All-imp r.nodes v.balanced λ y full.
      let h : ℕ = hash_key sha1 key in
      contains-dedup (owners r (clockwise r h)) y
      ∙ ap (λ l. contains l y) (map-append (owner r) (from h r.sorted_hashes) _)
      ∙ contains-append (owners r (from h r.sorted_hashes)) _ y
      ∙ owners_split r h r.sorted_hashes y
      ∙ contains-owners r r.sorted_hashes y (omega arith)

  -- The walk meets every node once.
  length-walk : length (walk sha1 r key) ≡ length r.nodes
  length-walk = omega (
    arith,
    length-le_of_Within (walk sha1 r key) r.nodes (dedup-Distinct _) walk-Within,
    length-le_of_Within r.nodes (walk sha1 r key) v.nodes_distinct nodes-Within-walk,
  )

-- On a well-formed ring `GetN` returns nodes of the ring, no node twice, and as many as were asked
-- for or as there are.
pub get_n_replicas :
    (sha1 : Bytes → Bytes) (r : Ring) (key : Bytes) (n : ℤ)
    → IsRing r
    → Distinct (get_n sha1 r key n)
      × Within r.nodes (get_n sha1 r key n)
      × (length (get_n sha1 r key n) ≡ min (pos_part n) (length r.nodes))
get_n_replicas sha1 r key n v = rw (get_n-walk sha1 r key n v.owned) (
  take-Distinct (pos_part n) (walk sha1 r key) (dedup-Distinct _),
  All-take _ (pos_part n) (walk sha1 r key) (walk-Within sha1 r key v),
  length-take (pos_part n) (walk sha1 r key) ∙ ap (min (pos_part n)) (length-walk sha1 r key v),
)

module _ (sha1 : Bytes → Bytes) (r : Ring) (key x : Bytes) (v : IsRing r) where
  walk-remove_member :
      contains r.nodes x ≡ true → walk sha1 (remove_node x r) key ≡ without x (walk sha1 r key)
  walk-remove_member member =
      let h : ℕ = hash_key sha1 key in
      let stay : Bytes → Bool = λ y. not (y == x) in
      ap (λ hs. dedup (owners (remove_node x r) (from h hs ++ before h hs)))
        (hashes-remove_node r x v member)
      ∙ ap (λ hs. dedup (owners (remove_node x r) hs))
          (sym (clockwise-keep h (λ g. stay (owner r g)) r.sorted_hashes))
      ∙ ap dedup (
          owners_agree (remove_node x r) r _ (
            All-kept {P = λ _. Unit {0}} (λ g. stay (owner r g)) (clockwise r h)
              (All-of_contains _ (clockwise r h) (λ _ _. tt))
              (λ g _ s. owner_kept r x v member g (ground arith))))
      ∙ ap dedup (sym (keep-owners r stay (clockwise r h)))
      ∙ dedup-keep stay (owners r (clockwise r h))

  -- When a node leaves, the walk from every key loses that node and is otherwise the same.
  pub walk-remove_node : walk sha1 (remove_node x r) key ≡ without x (walk sha1 r key)
  walk-remove_node = elim (Bool-cases (contains r.nodes x)) [
    | inl member ↦ walk-remove_member member
    | inr absent ↦
        ap (λ s. walk sha1 s key) {y = r} (unfold remove_node in rw absent)
        ∙ sym (
            keep_every _ (walk sha1 r key) (
              All-imp (walk sha1 r key) (walk-Within sha1 r key v) λ y c.
                elim (Bool-cases (y == x)) [
                  | inl same ↦ cc (ap (contains r.nodes) ((==_iff y x).0 same))
                  | inr other ↦ rw other
                ]))
  ]

  module _ (absent : contains r.nodes x ≡ false) (free : NoCollision sha1 r x) where
    stays_old :
        keep
          (λ g. not (owner (add_node sha1 x r) g == x))
          (r.sorted_hashes ++ new_points sha1 r x absent)
        ≡ r.sorted_hashes
    stays_old =
        keep-append _ r.sorted_hashes _
        ∙ ap₂ ◌++◌
            (keep_every _ r.sorted_hashes (
              All-of_contains _ r.sorted_hashes λ g c. rw (
                All_at _ r.sorted_hashes g (owners_old sha1 r x absent v free) c,
                All_at _ r.sorted_hashes g (old_other sha1 r x absent v free) c,
              )))
            (keep_nothing _ (new_points sha1 r x absent)
              (All-imp _ (owners_new sha1 r x absent v free) λ g e. rw (e, (==_iff x x).1 refl)))
        ∙ append-nil _

    -- When a node joins, the walk gains that node and is otherwise the same.
    pub walk-add_node : without x (walk sha1 (add_node sha1 x r) key) ≡ walk sha1 r key
    walk-add_node =
        let h : ℕ = hash_key sha1 key in
        let s : Ring = add_node sha1 x r in
        let stay : Bytes → Bool = λ y. not (y == x) in
        sym (dedup-keep stay (owners s (clockwise s h)))
        ∙ ap dedup (keep-owners s stay (clockwise s h))
        ∙ ap (λ hs. dedup (owners s hs)) (clockwise-keep h (λ g. stay (owner s g)) s.sorted_hashes)
        ∙ ap (λ hs. dedup (owners s (from h hs ++ before h hs)))
            (ap (keep (λ g. stay (owner s g))) (hashes-add_node sha1 r x absent)
              ∙ keep-sort _ (r.sorted_hashes ++ new_points sha1 r x absent)
              ∙ ap sort stays_old
              ∙ sort_of_IsSorted r.sorted_hashes v.owned.sorted)
        ∙ ap dedup (
            owners_agree s r (clockwise r h) (
              All-append _ (from h r.sorted_hashes) _
                (All-keep _ _ r.sorted_hashes (owners_old sha1 r x absent v free))
                (All-keep _ _ r.sorted_hashes (owners_old sha1 r x absent v free))))
